-- ===== src/Base64/RoundTrip.antt =====
-- src/base64.cpp: decoding what was encoded.
use media_gateway_v4_7_1_sde.Base.{
  ℕ, ◌+◌, ◌*◌, ◌/◌, ◌%◌, ◌<◌, ◌≡◌, refl, sym, ap, ◌∙◌, List, [], ◌∷◌, ◌++◌, append-nil,
  append_assoc, arith, Text, IsBytes, take,
}
use media_gateway_v4_7_1_sde.Base64.{chars_of, find_char, decode_loop, base64_encode, base64_decode}
use media_gateway_v4_7_1_sde.Base64.Bits.{
  sextets_of, octets_first, octets_second, octets_lem, find_char-char_of, accepts-char_of,
}
use media_gateway_v4_7_1_sde.Base64.Reference.{
  chars_of-rfc_chars, rfc4648, base64_encode-eq-rfc4648,
}

module _ (a b c : ℕ) (ha : a < 256) (hb : b < 256) (hc : c < 256) where
  abbrev first : ℕ
  first = a / 4

  abbrev second : ℕ
  second = a % 4 * 16 + b / 16

  abbrev third : ℕ
  third = b % 16 * 4 + c / 64

  abbrev fourth : ℕ
  fourth = c % 64

  first_lt : first < 64
  first_lt = omega arith

  second_lt : second < 64
  second_lt = omega arith

  third_lt : third < 64
  third_lt = omega arith

  fourth_lt : fourth < 64
  fourth_lt = omega arith

  -- Four characters of a full group are decoded to its three bytes.
  decode_group :
      (ret : List ℕ) (rest : Text)
      → decode_loop [] ret (chars_of (sextets_of a b c) ++ rest)
        ≡ decode_loop [] (ret ++ a ∷ b ∷ c ∷ []) rest
  unfolding decode_loop chars_of
  decode_group ret rest =
      rw
        (
          accepts-char_of first first_lt,
          accepts-char_of second second_lt,
          accepts-char_of third third_lt,
          accepts-char_of fourth fourth_lt,
          find_char-char_of first first_lt,
          find_char-char_of second second_lt,
          find_char-char_of third third_lt,
          find_char-char_of fourth fourth_lt,
          octets_lem first second third fourth first_lt second_lt third_lt fourth_lt,
        )
        (ap (λ (l : List ℕ). decode_loop [] (ret ++ l) rest) (ground arith))

  decode_pair :
      (ret : List ℕ)
      → c ≡ 0
      → decode_loop [] ret (take 3 (chars_of (sextets_of a b c)) ++ b'=' ∷ []) ≡ ret ++ a ∷ b ∷ []
  unfolding decode_loop chars_of
  decode_pair ret e =
      rw
        (
          accepts-char_of first first_lt,
          accepts-char_of second second_lt,
          accepts-char_of third third_lt,
          find_char-char_of first first_lt,
          find_char-char_of second second_lt,
          find_char-char_of third third_lt,
          octets_second first second third (find_char 0) first_lt second_lt third_lt,
        )
        (ap (λ (l : List ℕ). ret ++ l) (ground arith))

  decode_single :
      (ret : List ℕ)
      → b ≡ 0
      → decode_loop [] ret (take 2 (chars_of (sextets_of a b c)) ++ b'=' ∷ b'=' ∷ [])
        ≡ ret ++ a ∷ []
  unfolding decode_loop chars_of
  decode_single ret e =
      rw
        (
          accepts-char_of first first_lt,
          accepts-char_of second second_lt,
          find_char-char_of first first_lt,
          find_char-char_of second second_lt,
          octets_first first second (find_char 0) (find_char 0) first_lt second_lt,
        )
        (ap (λ (l : List ℕ). ret ++ l) (ground arith))

byte_zero : 0 < 256
byte_zero = omega arith

decode_loop-rfc4648 :
    (ret bytes : List ℕ) → IsBytes bytes → decode_loop [] ret (rfc4648 bytes) ≡ ret ++ bytes
unfolding decode_loop rfc4648
decode_loop-rfc4648 ret [] h = sym (append-nil ret)
decode_loop-rfc4648 ret (a ∷ []) h =
    sym (
      ap (λ w. decode_loop [] ret (take 2 w ++ b'=' ∷ b'=' ∷ []))
        (chars_of-rfc_chars a 0 0 h.0 byte_zero byte_zero))
    ∙ decode_single a 0 0 h.0 byte_zero byte_zero ret refl
decode_loop-rfc4648 ret (a ∷ b ∷ []) h =
    sym (
      ap (λ w. decode_loop [] ret (take 3 w ++ b'=' ∷ []))
        (chars_of-rfc_chars a b 0 h.0 h.1.0 byte_zero))
    ∙ decode_pair a b 0 h.0 h.1.0 byte_zero ret refl
decode_loop-rfc4648 ret (a ∷ b ∷ c ∷ rest) h =
    sym (
      ap (λ w. decode_loop [] ret (w ++ rfc4648 rest)) (chars_of-rfc_chars a b c h.0 h.1.0 h.1.1.0))
    ∙ decode_group a b c h.0 h.1.0 h.1.1.0 ret (rfc4648 rest)
    ∙ decode_loop-rfc4648 (ret ++ a ∷ b ∷ c ∷ []) rest h.1.1.1
    ∙ append_assoc ret (a ∷ b ∷ c ∷ []) rest

-- Decoding the encoding of a list of bytes gives the bytes back.
pub decode-encode : (bytes : List ℕ) → IsBytes bytes → base64_decode (base64_encode bytes) ≡ bytes
unfolding base64_decode
decode-encode bytes h = rw (base64_encode-eq-rfc4648 bytes h) (decode_loop-rfc4648 [] bytes h)
