-- ===== src/Text/Beyond.antt =====
-- `std::string::find` behind a part of a text that was replaced.
use media_gateway_v4_7_1_sde.Base.{
  ℕ, suc, zero, ◌+◌, ◌<◌, ◌≤◌, ◌≡◌, ◌≢◌, refl, sym, ap, ap₂, ◌∙◌, true, false, ◌&&◌, some, [], ◌∷◌,
  ◌++◌, length, drop, Text, arith, Option-cases, inl, inr, get_or, ne→==, ◌==◌, All,
}
use media_gateway_v4_7_1_sde.Text.{is_prefix, search, crlf}
use media_gateway_v4_7_1_sde.Text.Lines.{NoCr, prefix-append, search_head}

-- No space.
abbrev pub NoSpace : Text → Type 0
NoSpace = All (λ (c : ℕ). c ≢ 32)

-- Whether `s` begins a text depends on as many bytes as `s` has.
prefix_same :
    (s pre q r t : Text)
    → length s ≤ length pre + length q
    → is_prefix s (pre ++ (q ++ r)) ≡ is_prefix s (pre ++ (q ++ t))
unfolding is_prefix
prefix_same [] pre q r t h = refl
prefix_same (c ∷ cs) [] [] r t h = absurd (omega arith)
prefix_same (c ∷ cs) [] (y ∷ ys) r t h =
    ap (λ b. c == y && b) (prefix_same cs [] ys r t (omega arith))
prefix_same (c ∷ cs) (y ∷ ys) q r t h =
    ap (λ b. c == y && b) (prefix_same cs ys q r t (omega arith))

-- What is found behind the first byte is not at it.
search_next :
    (s : Text) (x : ℕ) (xs : Text) (k : ℕ)
    → search s (x ∷ xs) ≡ some (suc k)
    → (is_prefix s (x ∷ xs) ≡ false) × (search s xs ≡ some k)
unfolding search
search_next s x xs k h = elim (Option-cases (search s xs)) [
  | inl e ↦ ground (arith, e)
  | inr (j, e) ↦ ground (arith, e)
]

search_now :
    (s : Text) (x : ℕ) (xs : Text) → search s (x ∷ xs) ≡ some 0 → is_prefix s (x ∷ xs) ≡ true
unfolding search
search_now s x xs h = elim (Option-cases (search s xs)) [
  | inl e ↦ ground (arith, e)
  | inr (j, e) ↦ ground (arith, e)
]

search_nothing : (t : Text) (k : ℕ) → t ≡ [] → search crlf t ≢ some k
unfolding search is_prefix
search_nothing [] k e h = cc
search_nothing (x ∷ xs) k e h = absurd cc

-- What stands behind the first place of `s` has no part in where that is.
pub search_first :
    (s pre r t : Text)
    → search s (pre ++ (s ++ r)) ≡ some (length pre)
    → search s (pre ++ (s ++ t)) ≡ some (length pre)
unfolding search
search_first s [] r t h = search_head s (s ++ t) (prefix-append s t)
search_first s (x ∷ xs) r t h =
    let same = prefix_same s (x ∷ xs) s r t (omega arith) in
    let (differs, later) = search_next s x (xs ++ (s ++ r)) (length xs) h in
    rw (sym same ∙ differs, search_first s xs r t later) refl

crlf_there : (t : Text) → is_prefix crlf t ≡ true → (rest : Text) × (t ≡ 13 ∷ 10 ∷ rest)
unfolding is_prefix
crlf_there [] h = absurd cc
crlf_there (x ∷ []) h = absurd (ground arith)
crlf_there (x ∷ y ∷ rest) h = (rest, ap₂ (λ (a b : ℕ). a ∷ b ∷ rest) (ground arith) (ground arith))

-- Where the line's end is found, it stands.
pub search_there :
    (t : Text) (k : ℕ) → search crlf t ≡ some k → (rest : Text) × (drop k t ≡ 13 ∷ 10 ∷ rest)
unfolding search
search_there [] k h = absurd (search_nothing [] k refl h)
search_there (x ∷ xs) zero h = crlf_there (x ∷ xs) (search_now crlf x xs h)
search_there (x ∷ xs) (suc k) h = search_there xs k (search_next crlf x xs k h).1

-- A text with a space and no line's end is not found in one without a space.
not_inside :
    (s v rest : Text) (i : ℕ)
    → i < length s
    → get_or s i 0 ≡ 32
    → NoCr s
    → NoSpace v
    → is_prefix s (v ++ 13 ∷ rest) ≡ false
unfolding is_prefix
not_inside [] v rest i h e n l = absurd (omega arith)
not_inside (d ∷ ds) [] rest i h e n l = rw (ne→== d 13 n.0) refl
not_inside (d ∷ ds) (x ∷ vs) rest zero h e n l = ground (arith, l.0)
not_inside (d ∷ ds) (x ∷ vs) rest (suc i) h e n l =
    ground (arith, not_inside ds vs rest i (omega arith) e n.1 l.1)

head_differs : (s rest : Text) → 0 < length s → get_or s 0 0 ≢ 10 → is_prefix s (10 ∷ rest) ≡ false
unfolding is_prefix
head_differs [] rest h e = absurd (omega arith)
head_differs (c ∷ cs) rest h e = rw (ne→== c 10 e) refl

module _ (tag : Text) (i : ℕ) (long : i < length tag) (space : get_or tag i 0 ≡ 32)
    (clean : NoCr tag) (head : get_or tag 0 0 ≢ 10) where
  not_at : (x : ℕ) (xs : Text) → is_prefix tag (x ∷ xs) ≡ false → search tag (x ∷ xs) ≢ some 0
  not_at x xs e h = let found = search_now tag x xs h in absurd cc

  not_at_end : (rest : Text) → is_prefix tag (10 ∷ rest) ≡ false
  not_at_end rest = head_differs tag rest (omega arith) head

  -- Behind the first bytes of a value without a space and of the line's end, the tag is found
  -- behind the line's end.
  pub search_beyond :
      (v rest : Text) (j k : ℕ)
      → NoSpace v
      → search tag (drop j (v ++ 13 ∷ 10 ∷ rest)) ≡ some k
      → length v + 2 ≤ j + k
  search_beyond (x ∷ vs) rest zero zero l h =
      absurd (not_at x _ (not_inside tag (x ∷ vs) (10 ∷ rest) i long space clean l) h)
  search_beyond (x ∷ vs) rest zero (suc k) l h =
      let more = search_beyond vs rest zero k l.1 (search_next tag x _ k h).1 in omega (arith, more)
  search_beyond (x ∷ vs) rest (suc j) k l h =
      let more = search_beyond vs rest j k l.1 h in omega (arith, more)
  search_beyond [] rest zero zero l h =
      absurd (not_at 13 _ (not_inside tag [] (10 ∷ rest) i long space clean tt) h)
  search_beyond [] rest zero (suc zero) l h =
      absurd (not_at 10 _ (not_at_end rest) (search_next tag 13 _ 0 h).1)
  search_beyond [] rest zero (suc (suc k)) l h = omega arith
  search_beyond [] rest (suc zero) zero l h = absurd (not_at 10 _ (not_at_end rest) h)
  search_beyond [] rest (suc zero) (suc k) l h = omega arith
  search_beyond [] rest (suc (suc j)) k l h = omega arith
