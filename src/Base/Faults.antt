-- ===== src/Base/Faults.antt =====
-- A run of the program's code: a result, or the fault at which it stops.
use mathlib.Core.Path.{◌≡◌, refl, sym, subst}
use mathlib.Core.Bool.{Bool, true, false}
use media_gateway_v4_7_1_sde.Base.Tests.{if◌then◌else◌}

pub data Fault : Type 0 where
  -- a write past the end of an array
  buffer_overflow : Fault
  null_pointer : Fault
  -- an object that was deleted, or never existed
  use_after_free : Fault
  -- an `assert` that fails, or `exit`
  abort : Fault
  -- `pthread_cancel` of a thread that was never created, which POSIX leaves undefined
  no_thread : Fault
  -- the rounds that the model gives a loop ran out
  no_rounds : Fault

pub data Run {ℓ} (A : Type ℓ) : Type ℓ where
  ok : A → Run A
  fault : Fault → Run A

infixl 5 ◌>>=◌
abbrev pub ◌>>=◌ {ℓ κ} : {X : Type ℓ} {Y : Type κ} → Run X → (X → Run Y) → Run Y
ok x >>= next = next x
fault e >>= next = fault e

pub >>=-eq-ok {ℓ κ} :
    {X : Type ℓ} {Y : Type κ} (first : Run X) (next : X → Run Y) {end : Y}
    → (first >>= next) ≡ ok end
    → (x : X) × (first ≡ ok x) × (next x ≡ ok end)
>>=-eq-ok (ok x) next h = (x, refl, h)
>>=-eq-ok (fault e) next h = cc

pub ok-injective {ℓ} : {A : Type ℓ} {x y : A} → ok x ≡ ok y → x ≡ y
ok-injective e = cc

pub fault-ne-ok {ℓ} : {A : Type ℓ} {f : Fault} {x : A} → fault f ≡ ok x → ⊥
fault-ne-ok e = cc

-- The result has `P`, if there is one.
pub record Ensures {ℓ κ} {A : Type ℓ} (P : A → Type κ) (m : Run A) : Type (ℓ ⊔ κ) where
  pub result : {a : A} → m ≡ ok a → P a

module _ {ℓ κ} {A : Type ℓ} (P : A → Type κ) where
  pub Ensures-ok : {a : A} → P a → Ensures P (ok a)
  Ensures-ok h = record { result = λ e. subst P (ok-injective e) h }

  pub Ensures-fault : {f : Fault} → Ensures P (fault f)
  Ensures-fault = record { result = λ e. absurd (fault-ne-ok e) }

  pub Ensures-if :
      (b : Bool) {m n : Run A} → Ensures P m → Ensures P n → Ensures P (if b then m else n)
  Ensures-if true h k = h
  Ensures-if false h k = k

  pub Ensures-bind {ι} :
      {B : Type ι} (m : Run B) (f : B → Run A)
      → ((b : B) → m ≡ ok b → Ensures P (f b))
      → Ensures P (m >>= f)
  Ensures-bind (ok b) f h = h b refl
  Ensures-bind (fault e) f h = Ensures-fault

pub Ensures-map {ℓ κ ι} :
    {A : Type ℓ} (P : A → Type κ) (Q : A → Type ι) (m : Run A)
    → ((a : A) → P a → Q a)
    → Ensures P m
    → Ensures Q m
Ensures-map P Q (ok a) f h = Ensures-ok Q (f a (h.result refl))
Ensures-map P Q (fault e) f h = Ensures-fault Q

-- The run ends with a result.
pub record Returns {ℓ} {A : Type ℓ} (m : Run A) : Type ℓ where
  pub value : A
  pub returned : m ≡ ok value

pub Returns-ok {ℓ} : {A : Type ℓ} (a : A) → Returns (ok a)
Returns-ok a = record { value = a; returned = refl }

pub Returns-bind {ℓ κ} :
    {A : Type ℓ} {B : Type κ} (m : Run A) (f : A → Run B)
    → Returns m
    → ((a : A) → Returns (f a))
    → Returns (m >>= f)
Returns-bind (ok a) f r g = g a
Returns-bind (fault e) f r g = absurd (fault-ne-ok r.returned)

-- The run ends with a result, and the result has `P`.
pub record Yields {ℓ κ} {A : Type ℓ} (P : A → Type κ) (m : Run A) : Type (ℓ ⊔ κ) where
  pub value : A
  pub returned : m ≡ ok value
  pub holds : P value

module _ {ℓ κ} {A : Type ℓ} (P : A → Type κ) where
  pub Yields-ok : (a : A) → P a → Yields P (ok a)
  Yields-ok a h = record { value = a; returned = refl; holds = h }

  pub Yields-bind {ι μ} :
      {B : Type ι} (Q : B → Type μ) (m : Run B) (f : B → Run A)
      → Yields Q m
      → ((b : B) → Q b → Yields P (f b))
      → Yields P (m >>= f)
  Yields-bind Q (ok b) f r g = g b (subst Q (sym (ok-injective r.returned)) r.holds)
  Yields-bind Q (fault e) f r g = absurd (fault-ne-ok r.returned)

  pub Yields-if :
      (b : Bool) {m n : Run A}
      → (b ≡ true → Yields P m)
      → (b ≡ false → Yields P n)
      → Yields P (if b then m else n)
  Yields-if true h k = h refl
  Yields-if false h k = k refl
