-- ===== src/Text/Lines.antt =====
-- `std::string::find` on lines: the line's end behind a text without one, and a text that is there.
use media_gateway_v4_7_1_sde.Base.{
  ℕ, suc, zero, ◌+◌, ◌<◌, ◌≤◌, ◌≡◌, ◌≢◌, refl, sym, true, some, [], ◌∷◌, ◌++◌, length, take, drop,
  Text, arith, append_assoc, length-append, take-append_length, drop-append_length, Bool-cases, inl,
  inr, ne→==,
}
use media_gateway_v4_7_1_sde.Text.{npos, is_prefix, search, find, contains, substr, crlf, minus}

-- A text with no carriage return.
abbrev pub NoCr : Text → Type 0
NoCr [] = Unit {0}
NoCr (c ∷ cs) = (c ≢ 13) × NoCr cs

pub NoCr-append : (s t : Text) → NoCr s → NoCr t → NoCr (s ++ t)
NoCr-append [] t h k = k
NoCr-append (c ∷ cs) t h k = (h.0, NoCr-append cs t h.1 k)

pub NoCr-take : (n : ℕ) (s : Text) → NoCr s → NoCr (take n s)
NoCr-take zero s h = tt
NoCr-take (suc n) [] h = tt
NoCr-take (suc n) (c ∷ cs) h = (h.0, NoCr-take n cs h.1)

-- The line's end behind a text without one.
pub search-crlf :
    (key rest : Text) → NoCr key → search crlf (key ++ (crlf ++ rest)) ≡ some (length key)
unfolding search is_prefix
search-crlf [] rest h = refl
search-crlf (c ∷ cs) rest h = rw (ne→== 13 c (λ e. h.0 (sym e)), search-crlf cs rest h.1)

pub prefix-append : (s t : Text) → is_prefix s (s ++ t) ≡ true
unfolding is_prefix
prefix-append [] t = refl
prefix-append (c ∷ cs) t = ground (arith, prefix-append cs t)

pub search_head : (s t : Text) → is_prefix s t ≡ true → search s t ≡ some 0
unfolding search
search_head s [] h = rw h
search_head s (x ∷ xs) h = rw h

-- What stands in a text is found.
search_found :
    (s before after : Text)
    → (k : ℕ) × (search s (before ++ (s ++ after)) ≡ some k) × (k ≤ length before)
unfolding search
search_found s [] after = (0, search_head s (s ++ after) (prefix-append s after), omega arith)
search_found s (x ∷ xs) after =
    let (k, found, small) = search_found s xs after in
    elim (Bool-cases (is_prefix s (x ∷ (xs ++ (s ++ after))))) [
      | inl e ↦ (0, search_head s (x ∷ (xs ++ (s ++ after))) e, omega arith)
      | inr e ↦ (suc k, rw (e, found) refl, omega arith)
    ]

pub contains_found :
    (s before after : Text) → length before < npos → contains (before ++ (s ++ after)) s ≡ true
unfolding contains find
contains_found s before after h =
    let (k, found, small) = search_found s before after in
    rw (found, ne→== (0 + k) npos (omega arith)) refl

pub minus_add : (a n : ℕ) → n < npos → minus (a + n) a ≡ n
minus_add a n h = omega arith

pub find_end :
    (sdp key post : Text) (b : ℕ)
    → drop b sdp ≡ key ++ (crlf ++ post)
    → NoCr key
    → find sdp crlf b ≡ b + length key
unfolding find
find_end sdp key post b behind clean = rw (behind, search-crlf key post clean) refl

pub substr_key :
    (sdp key post : Text) (b : ℕ)
    → drop b sdp ≡ key ++ (crlf ++ post)
    → substr sdp b (length key) ≡ key
unfolding substr
substr_key sdp key post b behind = rw behind (take-append_length key (crlf ++ post))

pub drop_behind :
    (pre tag rest : Text) → drop (length pre + length tag) (pre ++ (tag ++ rest)) ≡ rest
drop_behind pre tag rest =
    rw (sym (length-append pre tag), sym (append_assoc pre tag rest))
      (drop-append_length (pre ++ tag) rest)
