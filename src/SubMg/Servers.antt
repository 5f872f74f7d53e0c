-- ===== src/SubMg/Servers.antt =====
-- src/submg.cpp: the list of servers, and the states of the ids.
use media_gateway_v4_7_1_sde.Base.{
  ℕ, zero, suc, ◌<◌, ◌≡◌, refl, false, some, List, [], ◌∷◌, ◌++◌, ◌==◌, length, Text, if◌then◌else◌,
  arith, map_find-map_assign, nat_eq,
}
use media_gateway_v4_7_1_sde.Text.{eq_text, eq_text_iff}
use media_gateway_v4_7_1_sde.SubMg.{SubMg, state_of, set_state, get_elem?, erase_at, has_ip}

-- No two servers have the same address.
unfoldable pub IsDistinct : List (Text × ℕ) → Type 0
IsDistinct [] = Unit
IsDistinct ((ip, fd) ∷ servers) = (has_ip ip servers ≡ false) × IsDistinct servers

has_ip-erase_at :
    (ip : Text) (i : ℕ) (servers : List (Text × ℕ))
    → has_ip ip servers ≡ false
    → has_ip ip (erase_at i servers) ≡ false
unfolding has_ip erase_at
has_ip-erase_at ip i [] h = refl
has_ip-erase_at ip zero ((x, fd) ∷ servers) h = ground arith
has_ip-erase_at ip (suc i) ((x, fd) ∷ servers) h = ground (arith, has_ip-erase_at ip i servers)

pub erase_at-IsDistinct :
    (i : ℕ) (servers : List (Text × ℕ)) → IsDistinct servers → IsDistinct (erase_at i servers)
unfolding erase_at IsDistinct
erase_at-IsDistinct i [] h = tt
erase_at-IsDistinct zero ((ip, fd) ∷ servers) h = h.1
erase_at-IsDistinct (suc i) ((ip, fd) ∷ servers) h =
    (has_ip-erase_at ip i servers h.0, erase_at-IsDistinct i servers h.1)

eq_text_swap : (s t : Text) → eq_text s t ≡ false → eq_text t s ≡ false
eq_text_swap s t h = ground (arith, eq_text_iff s t, eq_text_iff t s)

has_ip-append :
    (ip new : Text) (fd : ℕ) (servers : List (Text × ℕ))
    → has_ip ip servers ≡ false
    → eq_text new ip ≡ false
    → has_ip ip (servers ++ (new, fd) ∷ []) ≡ false
unfolding has_ip
has_ip-append ip new fd [] h e = ground arith
has_ip-append ip new fd ((x, f) ∷ servers) h e = ground (arith, has_ip-append ip new fd servers)

pub append-IsDistinct :
    (ip : Text) (fd : ℕ) (servers : List (Text × ℕ))
    → has_ip ip servers ≡ false
    → IsDistinct servers
    → IsDistinct (servers ++ (ip, fd) ∷ [])
unfolding has_ip IsDistinct
append-IsDistinct ip fd [] h d = (refl, tt)
append-IsDistinct ip fd ((x, f) ∷ servers) h d = (
  has_ip-append x ip fd servers d.0 (eq_text_swap x ip (ground arith)),
  append-IsDistinct ip fd servers (ground arith) d.1,
)

pub state_of-set_state :
    (id v j : ℕ) (s : SubMg) → state_of j (set_state id v s) ≡ (if id == j then v else state_of j s)
unfolding state_of set_state
state_of-set_state id v j s = ground (arith, map_find-map_assign id j v s.curstate)

pub get_elem?-length {ℓ} :
    {A : Type ℓ} (xs : List A) (i : ℕ) (x : A) → get_elem? xs i ≡ some x → i < length xs
unfolding get_elem?
get_elem?-length [] i x e = absurd cc
get_elem?-length (y ∷ xs) zero x e = omega arith
get_elem?-length (y ∷ xs) (suc i) x e = omega (arith, get_elem?-length xs i x e)

pub get_elem?-some {ℓ} :
    {A : Type ℓ} (xs : List A) (i : ℕ) → i < length xs → (x : A) × (get_elem? xs i ≡ some x)
unfolding get_elem?
get_elem?-some [] i h = absurd (omega arith)
get_elem?-some (y ∷ xs) zero h = (y, refl)
get_elem?-some (y ∷ xs) (suc i) h = get_elem?-some xs i (omega arith)
