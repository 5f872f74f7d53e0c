-- ===== src/Sdp/NewKey.antt =====
-- `WebAgent::replaceCrypto` of src/webagent.cpp against `getCryptoInfo`.
use media_gateway_v4_7_1_sde.Base.{
  ℕ, suc, zero, ◌+◌, ◌-◌, ◌*◌, ◌<◌, ◌≡◌, inl, inr, refl, sym, ap, ◌∙◌, some, ◌++◌, length, take,
  drop, Text, arith, append_assoc, length-append, take-append-drop, take-append_length,
  drop-append_length, Option-cases, Yields,
}
use media_gateway_v4_7_1_sde.Text.{npos, search, find, crlf, replace, position}
use media_gateway_v4_7_1_sde.Text.Lines.{NoCr, search-crlf, drop_behind}
use media_gateway_v4_7_1_sde.Text.Beyond.{NoSpace, search_first}
use media_gateway_v4_7_1_sde.Sdp.{crypto_80, get_crypto_info, replace_loop, replace_crypto}
use media_gateway_v4_7_1_sde.Sdp.Keys.{param_at}
use media_gateway_v4_7_1_sde.Sdp.Replace.{
  drop-drop, growth, loop_next, loop_keeps, length-after, next_begin,
}

-- A text whose first line of a tag holds `x`.
abbrev pub first_line : Text → Text → Text → Text → Text
first_line pre tag x rest = pre ++ (tag ++ (x ++ (crlf ++ rest)))

line_split :
    (pre tag x rest : Text) → (pre ++ (tag ++ (x ++ crlf))) ++ rest ≡ first_line pre tag x rest
line_split pre tag x rest =
    append_assoc pre (tag ++ (x ++ crlf)) rest
    ∙ ap (λ y. pre ++ y)
        (append_assoc tag (x ++ crlf) rest ∙ ap (λ y. tag ++ y) (append_assoc x crlf rest))

growth-mul : (rounds n : ℕ) → growth rounds n ≡ rounds * n
growth-mul zero n = omega arith
growth-mul (suc rounds) n = omega (arith, growth-mul rounds n)

find_at : (t s : Text) (p : ℕ) → p < npos → find t s 0 ≡ p → search s t ≡ some p
unfolding find
find_at t s p h e = elim (Option-cases (search s t)) [
  | inl n ↦ let q : npos ≡ p = sym (ap (position 0) n) ∙ e in absurd (omega arith)
  | inr (k, f) ↦ let q : 0 + k ≡ p = sym (ap (position 0) f) ∙ e in f ∙ ap some (omega arith)
]

module _ (pre old post v tag : Text) where
  replaced :
      replace (first_line pre tag old post) (length pre + length tag) (length old) v
      ≡ first_line pre tag v post
  unfolding replace
  replaced =
      let sdp = first_line pre tag old post in
      let front : take (length pre + length tag) sdp ≡ pre ++ tag =
        rw (sym (length-append pre tag), sym (append_assoc pre tag (old ++ (crlf ++ post))))
          (take-append_length (pre ++ tag) (old ++ (crlf ++ post))) in
      let back : drop (length pre + length tag + length old) sdp ≡ crlf ++ post =
        sym (drop-drop (length pre + length tag) (length old) sdp)
        ∙ ap (drop (length old)) (drop_behind pre tag (old ++ (crlf ++ post)))
        ∙ drop-append_length old (crlf ++ post) in
      rw (front, back) (append_assoc pre tag (v ++ (crlf ++ post)))

  line_length : length (pre ++ (tag ++ (v ++ crlf))) ≡ length pre + length tag + length v + 2
  line_length =
      let a = length-append pre (tag ++ (v ++ crlf)) in
      let b = length-append tag (v ++ crlf) in
      let c = length-append v crlf in omega (arith, a, b, c)

  -- A text that begins like the replaced one has the new line.
  has_line :
      (u : Text)
      → take (length pre + length tag + length v + 2) u
        ≡ take (length pre + length tag + length v + 2) (first_line pre tag v post)
      → (rest : Text) × (u ≡ first_line pre tag v rest)
  has_line u e =
      let n = length pre + length tag + length v + 2 in
      let whole : take n (first_line pre tag v post) ≡ pre ++ (tag ++ (v ++ crlf)) =
        rw (sym line_length, sym (line_split pre tag v post))
          (take-append_length (pre ++ (tag ++ (v ++ crlf))) post) in
      (
        drop n u,
        sym (take-append-drop n u)
            ∙ ap (λ y. y ++ drop n u) (e ∙ whole)
            ∙ line_split pre tag v (drop n u),
      )

module _ (pre old post value : Text)
    (first : find (first_line pre crypto_80 old post) crypto_80 0 ≡ length pre)
    (clean_old : NoCr old) (clean : NoCr value) (no_space : NoSpace value)
    (size : length (first_line pre crypto_80 old post)
        + suc (length (first_line pre crypto_80 old post)) * length value
      < npos) where
  sdp : Text
  sdp = first_line pre crypto_80 old post

  length-sdp : length sdp ≡ length pre + length crypto_80 + length old + (2 + length post)
  unfolding sdp
  length-sdp =
      let a = length-append pre (crypto_80 ++ (old ++ (crlf ++ post))) in
      let b = length-append crypto_80 (old ++ (crlf ++ post)) in
      let c = length-append old (crlf ++ post) in omega (arith, a, b, c)

  room : length sdp + growth (suc (length sdp)) (length value) < npos
  unfolding sdp
  room = omega (arith, growth-mul (suc (length sdp)) (length value), size)

  found_first : (rest : Text) → find (first_line pre crypto_80 value rest) crypto_80 0 ≡ length pre
  unfolding find sdp
  found_first rest =
      let at =
        search_first crypto_80 pre (old ++ (crlf ++ post)) (value ++ (crlf ++ rest))
          (find_at sdp crypto_80 (length pre) (omega (arith, length-sdp, room)) first) in
      ap (position 0) at ∙ omega arith

  found_line : (rest : Text) → get_crypto_info (first_line pre crypto_80 value rest) ≡ value
  unfolding get_crypto_info
  found_line rest =
      rw
        (
          get_crypto_info,
          param_at crypto_80 value rest (first_line pre crypto_80 value rest) (length pre)
              (found_first rest) (drop_behind pre crypto_80 (value ++ (crlf ++ rest)))
              (omega (arith, length-sdp, room)) clean,
        )
        refl

  old_end : search crlf (drop (length pre + length crypto_80) sdp) ≡ some (length old)
  unfolding sdp
  old_end =
      ap (search crlf) (drop_behind pre crypto_80 (old ++ (crlf ++ post)))
      ∙ search-crlf old post clean_old

  new : Text
  new = replace sdp (length pre + length crypto_80) (length old) value

  next : ℕ
  next = find new crypto_80 (length pre + length crypto_80 + length old)

  replaces : replace_crypto sdp value ≡ replace_loop (length sdp) crypto_80 value new next
  unfolding replace_crypto sdp new next
  replaces = rw first (
      loop_next (length sdp) crypto_80 value sdp (length pre) (length old)
        (omega (arith, length-sdp, room)) old_end)

  length-new :
      length new
      ≡ length pre
        + length crypto_80
        + (length value + (length sdp - (length pre + length crypto_80 + length old)))
  unfolding new
  length-new =
      length-after value no_space sdp (length pre + length crypto_80) (length old)
        (omega (arith, length-sdp)) old_end

  crypto_80-NoCr : NoCr crypto_80
  crypto_80-NoCr = omega arith

  kept :
      Yields
        (λ (u : Text).
          take (length pre + length crypto_80 + length value + 2) u
          ≡ take (length pre + length crypto_80 + length value + 2) new)
        (replace_loop (length sdp) crypto_80 value new next)
  unfolding next new
  kept =
      loop_keeps value no_space crypto_80 10 (omega arith) refl crypto_80-NoCr (omega arith)
        (length sdp) new next _ (omega (arith, length-sdp))
        (elim (next_begin value no_space sdp (length pre + length crypto_80) (length old)
          (omega (arith, length-sdp)) old_end crypto_80 10 (omega arith) refl crypto_80-NoCr
          (omega arith)) [
            | inl e ↦ inl e
            | inr (far, fits) ↦
                inr (omega (arith, far), fits, omega (arith, far, length-new, length-sdp))
          ])
        (omega (arith, length-new, length-sdp, room))

  -- `replaceCrypto` of a key without spaces and line ends, in a description whose first key line is
  -- a whole line, and that stays below the bound of a position even if every round makes it longer
  -- by the key: it ends, and `getCryptoInfo` then finds this key.
  pub get_crypto_info-replace_crypto :
      Yields
        (λ (u : Text). get_crypto_info u ≡ value)
        (replace_crypto (first_line pre crypto_80 old post) value)
  unfolding new sdp
  get_crypto_info-replace_crypto =
      let (rest, e) =
        has_line pre old post value crypto_80 kept.value
          (kept.holds ∙ ap (take _) (replaced pre old post value crypto_80)) in
      record {
        value = kept.value;
        returned = replaces ∙ kept.returned;
        holds = ap get_crypto_info e ∙ found_line rest;
      }
