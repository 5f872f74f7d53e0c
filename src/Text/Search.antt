-- ===== src/Text/Search.antt =====
-- Where `find` may end.
use media_gateway_v4_7_1_sde.Base.{
  ℕ, ◌+◌, ◌≤◌, ◌≡◌, ◌⊎◌, inl, inr, true, some, [], ◌∷◌, length, drop, Text, arith, length-drop,
  Option-cases,
}
use media_gateway_v4_7_1_sde.Text.{npos, is_prefix, search, find}

prefix_fits : (s t : Text) → is_prefix s t ≡ true → length s ≤ length t
unfolding is_prefix
prefix_fits [] t h = omega arith
prefix_fits (c ∷ cs) [] h = ground arith
prefix_fits (c ∷ cs) (x ∷ xs) h = ground (arith, prefix_fits cs xs)

-- What is found lies in the text.
pub search_fits : (s t : Text) (k : ℕ) → search s t ≡ some k → k + length s ≤ length t
unfolding search
search_fits s [] k h = ground (arith, prefix_fits s [])
search_fits s (x ∷ xs) k h = elim (Option-cases (search s xs)) [
  | inl e ↦ ground (arith, e, prefix_fits s (x ∷ xs))
  | inr (j, e) ↦ ground (arith, e, prefix_fits s (x ∷ xs), search_fits s xs j e)
]

pub find_fits :
    (t s : Text) (from : ℕ)
    → from ≤ length t
    → (find t s from ≡ npos) ⊎ ((from ≤ find t s from) × (find t s from + length s ≤ length t))
unfolding find
find_fits t s from h = elim (Option-cases (search s (drop from t))) [
  | inl e ↦ inl (rw e)
  | inr (k, e) ↦
      inr (rw e (omega arith, omega (arith, search_fits s (drop from t) k e, length-drop from t)))
]
