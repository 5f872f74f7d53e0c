-- ===== src/Candidate/Lines.antt =====
-- src/candidate.cpp: the fields of a line that has all seven.
use media_gateway_v4_7_1_sde.Base.{
  ℕ, ◌≡◌, refl, true, false, some, List, [], ◌∷◌, ◌++◌, arith, Text, All, ◌==◌, ◌||◌,
}
use media_gateway_v4_7_1_sde.Text.{is_prefix, is_space, skip_spaces, is_digit}
use media_gateway_v4_7_1_sde.Candidate.{
  word, digits, some_field, scan_word, scan_int, scan_one, sign_of, scan_fields, candidate_fields,
  candidate_prefix, Conversion, percent_s, percent_d,
}

-- A word for `%s`, and the digits of an unsigned number for `%d`.
abbrev pub IsWord : Text → Type 0
IsWord [] = ⊥
IsWord (c ∷ cs) = All (λ (x : ℕ). is_space x ≡ false) (c ∷ cs)

abbrev pub IsNumber : Text → Type 0
IsNumber [] = ⊥
IsNumber (c ∷ cs) = All (λ (x : ℕ). is_digit x ≡ true) (c ∷ cs)

word_space :
    (w rest : Text) → All (λ (x : ℕ). is_space x ≡ false) w → word (w ++ 32 ∷ rest) ≡ (w, 32 ∷ rest)
unfolding word is_space
word_space [] rest h = refl
word_space (c ∷ cs) rest h = rw (word_space cs rest h.1) (ground (arith, h.0))

digits_space :
    (w rest : Text)
    → All (λ (x : ℕ). is_digit x ≡ true) w
    → digits (w ++ 32 ∷ rest) ≡ (w, 32 ∷ rest)
unfolding digits is_digit
digits_space [] rest h = refl
digits_space (c ∷ cs) rest h = rw (digits_space cs rest h.1) (ground (arith, h.0))

skip_spaces_word : (c : ℕ) (cs : Text) → is_space c ≡ false → skip_spaces (c ∷ cs) ≡ c ∷ cs
unfolding skip_spaces
skip_spaces_word c cs h = ground (arith, h)

skip_spaces_space : (s : Text) → skip_spaces (32 ∷ s) ≡ skip_spaces s
unfolding skip_spaces is_space
skip_spaces_space s = refl

scan_word_space : (s : Text) → scan_word (32 ∷ s) ≡ scan_word s
unfolding scan_word
scan_word_space s = rw (skip_spaces_space s)

scan_int_space : (s : Text) → scan_int (32 ∷ s) ≡ scan_int s
unfolding scan_int
scan_int_space s = rw (skip_spaces_space s)

some_field_lem :
    (sign : Text) (c : ℕ) (cs rest : Text)
    → some_field sign (c ∷ cs, rest) ≡ some (sign ++ c ∷ cs, rest)
unfolding some_field
some_field_lem sign c cs rest = refl

scan_word_lem : (w rest : Text) → IsWord w → scan_word (w ++ 32 ∷ rest) ≡ some (w, 32 ∷ rest)
unfolding scan_word
scan_word_lem [] rest h = absurd h
scan_word_lem (c ∷ cs) rest h =
    rw (skip_spaces_word c (cs ++ 32 ∷ rest) h.0, word_space (c ∷ cs) rest h)
      (some_field_lem [] c cs (32 ∷ rest))

digit_plain :
    (c : ℕ) → is_digit c ≡ true → (is_space c ≡ false) × ((c == b'-' || c == b'+') ≡ false)
unfolding is_digit is_space
digit_plain c h = (ground arith, ground arith)

scan_int_lem : (w rest : Text) → IsNumber w → scan_int (w ++ 32 ∷ rest) ≡ some (w, 32 ∷ rest)
unfolding scan_int sign_of
scan_int_lem [] rest h = absurd h
scan_int_lem (c ∷ cs) rest h =
    rw
      (
        skip_spaces_word c (cs ++ 32 ∷ rest) (digit_plain c h.0).0,
        sign_of,
        (digit_plain c h.0).1,
        digits_space (c ∷ cs) rest h,
      )
      (some_field_lem [] c cs (32 ∷ rest))

module _ (vs : List Conversion) where
  fields_skip : (v : Conversion) (s : Text) → scan_fields (v ∷ vs) (32 ∷ s) ≡ scan_fields (v ∷ vs) s
  unfolding scan_fields scan_one
  fields_skip percent_s s = rw (scan_word_space s, scan_fields)
  fields_skip percent_d s = rw (scan_int_space s, scan_fields)

  fields_word :
      (w rest : Text)
      → IsWord w
      → scan_fields (percent_s ∷ vs) (w ++ 32 ∷ rest) ≡ w ∷ scan_fields vs (32 ∷ rest)
  unfolding scan_fields scan_one
  fields_word w rest h = rw (scan_word_lem w rest h, scan_fields)

  fields_number :
      (w rest : Text)
      → IsNumber w
      → scan_fields (percent_d ∷ vs) (w ++ 32 ∷ rest) ≡ w ∷ scan_fields vs (32 ∷ rest)
  unfolding scan_fields scan_one
  fields_number w rest h = rw (scan_int_lem w rest h, scan_fields)

fields_end : (s : Text) → scan_fields [] s ≡ []
unfolding scan_fields
fields_end s = refl

-- `f`, `t`, `a`, `o`: foundation, transport, address, first word of the rest; `d`, `p`, `q`:
-- component, priority, port.
abbrev pub seven : Text → Text → Text → Text → Text → Text → Text → Text → Text
seven f d t p a q o rest =
    candidate_prefix
    ++ (f ++ 32 ∷ (d ++ 32 ∷ (t ++ 32 ∷ (p ++ 32 ∷ (a ++ 32 ∷ (q ++ 32 ∷ (o ++ 32 ∷ rest)))))))

pub candidate_fields-seven :
    (f d t p a q o rest : Text)
    → IsWord f
    → IsNumber d
    → IsWord t
    → IsNumber p
    → IsWord a
    → IsNumber q
    → IsWord o
    → candidate_fields (seven f d t p a q o rest) ≡ f ∷ d ∷ t ∷ p ∷ a ∷ q ∷ o ∷ []
unfolding candidate_fields is_prefix
candidate_fields-seven f d t p a q o rest hf hd ht hp ha hq ho = rw (
  fields_word _ f _ hf,
  fields_skip,
  fields_number _ d _ hd,
  fields_skip,
  fields_word _ t _ ht,
  fields_skip,
  fields_number _ p _ hp,
  fields_skip,
  fields_word _ a _ ha,
  fields_skip,
  fields_number _ q _ hq,
  fields_skip,
  fields_word _ o _ ho,
  fields_end,
)
