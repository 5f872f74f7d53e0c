-- ===== src/Sdp/Replace.antt =====
-- `WebAgent::replaceCrypto` of src/webagent.cpp: the key that a description has afterwards.
use media_gateway_v4_7_1_sde.Base.{
  ℕ, suc, zero, ◌+◌, ◌-◌, ◌<◌, ◌≤◌, ◌≡◌, ◌≢◌, ◌⊎◌, inl, inr, refl, sym, ap, subst, ◌∙◌, none, some,
  [], ◌∷◌, ◌++◌, length, take, drop, Text, arith, length-append, length-take, length-drop, ne→==,
  Option-cases, ok, Yields, Yields-ok, get_or, eq→==,
}
use media_gateway_v4_7_1_sde.Text.{npos, search, find, crlf, replace}
use media_gateway_v4_7_1_sde.Text.Search.{search_fits}
use media_gateway_v4_7_1_sde.Text.Lines.{NoCr, minus_add}
use media_gateway_v4_7_1_sde.Text.Beyond.{NoSpace, search_there, search_beyond}
use media_gateway_v4_7_1_sde.Sdp.{replace_loop}

drop-nil : (n : ℕ) → [] ≡ drop {A = ℕ} n []
drop-nil zero = refl
drop-nil (suc n) = refl

pub drop-drop : (b j : ℕ) (t : Text) → drop j (drop b t) ≡ drop (b + j) t
drop-drop zero j t = ap (λ n. drop n t) (omega arith)
drop-drop (suc b) j [] = sym (drop-nil j) ∙ drop-nil (suc b + j)
drop-drop (suc b) j (x ∷ xs) =
    let same : suc (b + j) ≡ suc b + j = omega arith in
    drop-drop b j xs ∙ ap (λ n. drop n (x ∷ xs)) same

drop-behind : (b j : ℕ) (t u : Text) → b ≤ length t → drop (b + j) (take b t ++ u) ≡ drop j u
drop-behind zero j t u h = ap (λ n. drop n u) (omega arith)
drop-behind (suc b) j [] u h = absurd (omega arith)
drop-behind (suc b) j (x ∷ xs) u h =
    let same : suc b + j ≡ suc (b + j) = omega arith in
    ap (λ n. drop n (x ∷ (take b xs ++ u))) same ∙ drop-behind b j xs u (omega arith)

take-take : (n b : ℕ) (t u : Text) → n ≤ b → b ≤ length t → take n (take b t ++ u) ≡ take n t
take-take zero b t u h k = refl
take-take (suc n) zero t u h k = absurd (omega arith)
take-take (suc n) (suc b) [] u h k = absurd (omega arith)
take-take (suc n) (suc b) (x ∷ xs) u h k =
    ap (◌∷◌ x) (take-take n b xs u (omega arith) (omega arith))

-- One round of the loop: `begin` is behind the tag, the line's end is `j` bytes on.
module _ (v : Text) (no_space : NoSpace v) (t : Text) (b j : ℕ) (inside : b ≤ length t)
    (found : search crlf (drop b t) ≡ some j) where
  pub ends : b + j + 2 ≤ length t
  ends = let fits = search_fits crlf (drop b t) j found in omega (arith, fits, length-drop b t)

  pub length-after : length (replace t b j v) ≡ b + (length v + (length t - (b + j)))
  unfolding replace
  length-after =
      let outer = length-append (take b t) (v ++ drop (b + j) t) in
      let inner = length-append v (drop (b + j) t) in
      omega (arith, outer, inner, length-take b t, length-drop (b + j) t)

  rest_there : (rest : Text) × (drop (b + j) t ≡ 13 ∷ 10 ∷ rest)
  rest_there =
      let (rest, there) = search_there (drop b t) j found in (rest, sym (drop-drop b j t) ∙ there)

  keeps : (n : ℕ) → n ≤ b → take n (replace t b j v) ≡ take n t
  unfolding replace
  keeps n h = take-take n b t (v ++ drop (b + j) t) h inside

  module _ (tag : Text) (i : ℕ) (long : i < length tag) (space : get_or tag i 0 ≡ 32)
      (clean : NoCr tag) (head : get_or tag 0 0 ≢ 10) where
    beyond : (k : ℕ) → search tag (drop (b + j) (replace t b j v)) ≡ some k → length v + 2 ≤ j + k
    unfolding replace
    beyond k e =
        let (rest, there) = rest_there in
        let same =
          drop-behind b j t (v ++ drop (b + j) t) inside ∙ ap (λ d. drop j (v ++ d)) there in
        search_beyond tag i long space clean head v rest j k no_space
          (ap (search tag) (sym same) ∙ e)

    -- Where the next tag is found.
    pub next_begin :
        (find (replace t b j v) tag (b + j) ≡ npos)
        ⊎ ((b + length v + 2 ≤ find (replace t b j v) tag (b + j))
            × (find (replace t b j v) tag (b + j) + length tag ≤ length (replace t b j v)))
    unfolding find
    next_begin = elim (Option-cases (search tag (drop (b + j) (replace t b j v)))) [
      | inl e ↦ inl (rw e refl)
      | inr (k, e) ↦
          let far = beyond k e in
          let fits = search_fits tag (drop (b + j) (replace t b j v)) k e in
          inr (
            rw e (
              omega (arith, far),
              omega (arith, fits, long, length-drop (b + j) (replace t b j v)),
            ))
    ]

-- The three ways of a round.
loop_none :
    (rounds : ℕ) (tag v t : Text) (begin : ℕ)
    → begin ≡ npos
    → replace_loop (suc rounds) tag v t begin ≡ ok t
unfolding replace_loop
loop_none rounds tag v t begin e = rw (eq→== begin npos e) refl

loop_last :
    (rounds : ℕ) (tag v t : Text) (begin : ℕ)
    → begin < npos
    → search crlf (drop (begin + length tag) t) ≡ none
    → replace_loop (suc rounds) tag v t begin ≡ ok t
unfolding replace_loop find
loop_last rounds tag v t begin h e = rw (ne→== begin npos (omega arith), e) refl

find_line : (t : Text) (b j : ℕ) → search crlf (drop b t) ≡ some j → find t crlf b ≡ b + j
unfolding find
find_line t b j e = rw e refl

pub loop_next :
    (rounds : ℕ) (tag v t : Text) (begin j : ℕ)
    → begin + length tag + j < npos
    → search crlf (drop (begin + length tag) t) ≡ some j
    → replace_loop (suc rounds) tag v t begin
      ≡ replace_loop rounds tag v
          (replace t (begin + length tag) j v)
          (find (replace t (begin + length tag) j v) tag (begin + length tag + j))
unfolding replace_loop
loop_next rounds tag v t begin j h e =
    rw
      (
        ne→== begin npos (omega arith),
        find_line t (begin + length tag) j e,
        ne→== (begin + length tag + j) npos (omega arith),
        minus_add (begin + length tag) j (omega arith),
      )
      refl

-- How much the text may grow in some rounds.
abbrev pub growth : ℕ → ℕ → ℕ
growth zero n = 0
growth (suc rounds) n = n + growth rounds n

module _ (v : Text) (no_space : NoSpace v) (tag : Text) (i : ℕ) (long : i < length tag)
    (space : get_or tag i 0 ≡ 32) (clean : NoCr tag) (head : get_or tag 0 0 ≢ 10) where
  -- Where the loop stands: at no tag, or at one that lies behind the first `n` bytes.
  abbrev pub At : ℕ → Text → ℕ → ℕ → Type 0
  At rounds t begin n =
      (begin ≡ npos)
      ⊎ ((n ≤ begin + length tag) × (begin + length tag ≤ length t) × (length t < rounds + begin))

  -- The loop ends, and the first `n` bytes stay.
  pub loop_keeps :
      (rounds : ℕ) (t : Text) (begin n : ℕ)
      → 0 < rounds
      → At rounds t begin n
      → length t + growth rounds (length v) < npos
      → Yields (λ (u : Text). take n u ≡ take n t) (replace_loop rounds tag v t begin)
  loop_keeps zero t begin n some_left at size = absurd (omega arith)
  loop_keeps (suc rounds) t begin n some_left (inl e) size =
      rw (loop_none rounds tag v t begin e) (Yields-ok _ t refl)
  loop_keeps (suc rounds) t begin n some_left (inr (low, fits, enough)) size =
      elim (Option-cases (search crlf (drop (begin + length tag) t))) [
        | inl e ↦ rw (loop_last rounds tag v t begin (omega arith) e) (Yields-ok _ t refl)
        | inr (j, e) ↦
            let b = begin + length tag in
            let fit = ends v no_space t b j fits e in
            let size' = length-after v no_space t b j fits e in
            let left : 0 < rounds = omega (arith, fit) in
            let at : At rounds (replace t b j v) (find (replace t b j v) tag (b + j)) n =
              elim (next_begin v no_space t b j fits e tag i long space clean head) [
                | inl none_left ↦ inl none_left
                | inr (far, in_it) ↦ inr (omega (arith, far), in_it, omega (arith, far, size', fit))
              ] in
            let same = keeps v no_space t b j fits e n low in
            rw (loop_next rounds tag v t begin j (omega (arith, fit)) e) (
              subst
                (λ x.
                  Yields (λ (u : Text). take n u ≡ x)
                    (replace_loop rounds tag v (replace t b j v)
                      (find (replace t b j v) tag (b + j))))
                same (loop_keeps rounds (replace t b j v) _ n left at (omega (arith, size', fit))))
      ]
