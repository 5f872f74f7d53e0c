-- ===== src/Base/Soundness.antt =====
-- Runs that may stop, but not at a NULL pointer or at a deleted object.
use mathlib.Core.Path.{◌≡◌, refl, sym, subst}
use mathlib.Core.Bool.{Bool, true, false}
use media_gateway_v4_7_1_sde.Base.Tests.{if◌then◌else◌}
use media_gateway_v4_7_1_sde.Base.Faults.{
  Fault, buffer_overflow, null_pointer, use_after_free, abort, no_thread, no_rounds, Run, ok, fault,
  ◌>>=◌, Returns, fault-ne-ok,
}

abbrev pub IsHarmless : Fault → Type 0
IsHarmless buffer_overflow = Unit {0}
IsHarmless null_pointer = ⊥
IsHarmless use_after_free = ⊥
IsHarmless abort = Unit {0}
IsHarmless no_thread = Unit {0}
IsHarmless no_rounds = Unit {0}

pub record Sound {ℓ} {A : Type ℓ} (m : Run A) : Type ℓ where
  pub harmless : (f : Fault) → m ≡ fault f → IsHarmless f

fault-injective {ℓ} : {A : Type ℓ} {e f : Fault} → ◌≡◌ {A = Run A} (fault e) (fault f) → e ≡ f
fault-injective h = cc

pub Sound-ok {ℓ} : {A : Type ℓ} (a : A) → Sound (ok a)
Sound-ok a = record { harmless = λ f e. absurd (fault-ne-ok (sym e)) }

pub Sound-fault {ℓ} : {A : Type ℓ} (f : Fault) → IsHarmless f → Sound {A = A} (fault f)
Sound-fault f h = record { harmless = λ e same. subst IsHarmless (fault-injective same) h }

pub Sound-Returns {ℓ} : {A : Type ℓ} (m : Run A) → Returns m → Sound m
Sound-Returns m r = subst Sound (sym r.returned) (Sound-ok r.value)

pub Sound-if {ℓ} :
    {A : Type ℓ} (b : Bool) {m n : Run A} → Sound m → Sound n → Sound (if b then m else n)
Sound-if true h k = h
Sound-if false h k = k

pub Sound-bind {ℓ κ} :
    {A : Type ℓ} {B : Type κ} (m : Run B) (f : B → Run A)
    → Sound m
    → ((b : B) → m ≡ ok b → Sound (f b))
    → Sound (m >>= f)
Sound-bind (ok b) f h k = k b refl
Sound-bind (fault e) f h k = Sound-fault e (h.harmless e refl)
