-- ===== src/Candidate/Overflow.antt =====
-- src/candidate.cpp: what the constructor makes of a line with seven fields, and which of these
-- lines overflow its arrays.
use media_gateway_v4_7_1_sde.Base.{
  ◌^◌, ◌<◌, ◌≤◌, ◌≡◌, ◌⊎◌, some, arith, length, Text, true, pos, [], ◌∷◌, ok, fault,
  buffer_overflow,
}
use media_gateway_v4_7_1_sde.Text.{
  atoi, signed_value, skip_spaces, is_space, digits_value, is_digit,
}
use media_gateway_v4_7_1_sde.Candidate.{Nice, kind_of, new_candidate, is_int, int_value}
use media_gateway_v4_7_1_sde.Candidate.Lines.{IsWord, IsNumber, seven, candidate_fields-seven}

-- The digits of a number are read as its value.
int_value-number :
    (nice : Nice) (w : Text)
    → IsNumber w
    → is_int w ≡ true
    → (int_value nice w ≡ pos (digits_value 0 w)) × (digits_value 0 w < 2 ^ 31)
unfolding int_value is_int atoi signed_value is_digit skip_spaces is_space
int_value-number nice [] n h = absurd n
int_value-number nice (c ∷ cs) n h = ground (arith, h, n.0)

module _ (nice : Nice) (f d t p a q o rest : Text) (hf : IsWord f) (hd : IsNumber d) (ht : IsWord t)
    (hp : IsNumber p) (ha : IsWord a) (hq : IsNumber q) (ho : IsWord o) where
  -- A line of seven fields that fit the arrays, with numbers that an `int` holds, is read:
  -- foundation, component, priority, address and port are those of the line.
  pub new_candidate_reads :
      length f < nice.foundation_size
      → length t < 32
      → length a < 16
      → length o < 128
      → is_int d ≡ true
      → is_int p ≡ true
      → is_int q ≡ true
      → new_candidate nice (seven f d t p a q o rest)
        ≡ ok (record {
          kind = kind_of (seven f d t p a q o rest);
          foundation = f;
          component_id = digits_value 0 d;
          priority = digits_value 0 p;
          ip = some a;
          port = some (pos (digits_value 0 q));
        })
  unfolding new_candidate
  new_candidate_reads lf lt la lo id ip iq =
      let (vd, wd) = int_value-number nice d hd id in
      let (vp, wp) = int_value-number nice p hp ip in
      let (vq, wq) = int_value-number nice q hq iq in
      rw (candidate_fields-seven f d t p a q o rest hf hd ht hp ha hq ho, vd, vp, vq) (ground arith)

  -- A line of seven fields overflows an array of the constructor as soon as its foundation does not
  -- fit, or its transport has 32 characters, its address 16 or the word behind the port 128.
  pub new_candidate_overflow :
      (nice.foundation_size ≤ length f) ⊎ ((32 ≤ length t) ⊎ ((16 ≤ length a) ⊎ (128 ≤ length o)))
      → new_candidate nice (seven f d t p a q o rest) ≡ fault buffer_overflow
  unfolding new_candidate
  new_candidate_overflow h =
      rw (candidate_fields-seven f d t p a q o rest hf hd ht hp ha hq ho) (ground arith)
