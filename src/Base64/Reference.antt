-- ===== src/Base64/Reference.antt =====
-- The encoding that RFC 4648 describes, by groups of three bytes, and the encoder against it.
use media_gateway_v4_7_1_sde.Base.{
  ℕ, ◌+◌, ◌-◌, ◌*◌, ◌/◌, ◌%◌, ◌<◌, ltb, ◌==◌, if◌then◌else◌, all_below, ◌≡◌, refl, ap, ◌∙◌, sym,
  List, [], ◌∷◌, ◌++◌, append-nil, append_assoc, arith, take, Text, IsBytes,
}
use media_gateway_v4_7_1_sde.Base64.{char_of, chars_of, sextets, encode_loop, base64_encode}
use media_gateway_v4_7_1_sde.Base64.Bits.{by_table, sextets_of, sextets_lem}

-- The character of a sextet by Table 1 of RFC 4648: `A` to `Z`, `a` to `z`, `0` to `9`, `+`, `/`.
unfoldable pub rfc_char : ℕ → ℕ
rfc_char v =
    if ltb v 26
    then b'A' + v
    else if ltb v 52
    then b'a' + (v - 26)
    else if ltb v 62
    then b'0' + (v - 52)
    else if v == 62
    then b'+'
    else b'/'

unfoldable pub rfc_chars : List ℕ → Text
unfolding rfc_char
rfc_chars [] = []
rfc_chars (v ∷ vs) = rfc_char v ∷ rfc_chars vs

-- A group of 24 bits, its sextets as characters; a short group is filled with zero bits and `=`.
unfoldable pub rfc4648 : List ℕ → Text
unfolding rfc_chars
rfc4648 [] = []
rfc4648 (a ∷ []) = take 2 (rfc_chars (sextets_of a 0 0)) ++ b'=' ∷ b'=' ∷ []
rfc4648 (a ∷ b ∷ []) = take 3 (rfc_chars (sextets_of a b 0)) ++ b'=' ∷ []
rfc4648 (a ∷ b ∷ c ∷ rest) = rfc_chars (sextets_of a b c) ++ rfc4648 rest

-- The code's table is that of the standard.
char_of-rfc_char : (v : ℕ) → v < 64 → char_of v ≡ rfc_char v
unfolding char_of rfc_char all_below
char_of-rfc_char = by_table char_of rfc_char 64 refl

pub chars_of-rfc_chars :
    (a b c : ℕ)
    → a < 256
    → b < 256
    → c < 256
    → chars_of (sextets_of a b c) ≡ rfc_chars (sextets_of a b c)
unfolding chars_of rfc_chars
chars_of-rfc_chars a b c ha hb hc = rw (
  char_of-rfc_char (a / 4) (omega arith),
  char_of-rfc_char (a % 4 * 16 + b / 16) (omega arith),
  char_of-rfc_char (b % 16 * 4 + c / 64) (omega arith),
  char_of-rfc_char (c % 64) (omega arith),
)

-- A group as the encoder writes it.
group :
    (a b c : ℕ)
    → a < 256
    → b < 256
    → c < 256
    → chars_of (sextets a b c) ≡ rfc_chars (sextets_of a b c)
group a b c ha hb hc = ap chars_of (sextets_lem a b c ha hb hc) ∙ chars_of-rfc_chars a b c ha hb hc

byte_zero : 0 < 256
byte_zero = omega arith

encode_loop-rfc4648 :
    (ret : Text) (bytes : List ℕ) → IsBytes bytes → encode_loop [] ret bytes ≡ ret ++ rfc4648 bytes
unfolding encode_loop rfc4648
encode_loop-rfc4648 ret [] h = sym (append-nil ret)
encode_loop-rfc4648 ret (a ∷ []) h = rw (group a 0 0 h.0 byte_zero byte_zero)
encode_loop-rfc4648 ret (a ∷ b ∷ []) h = rw (group a b 0 h.0 h.1.0 byte_zero)
encode_loop-rfc4648 ret (a ∷ b ∷ c ∷ rest) h =
    rw (encode_loop-rfc4648 (ret ++ chars_of (sextets a b c)) rest h.1.1.1) (
      rw (group a b c h.0 h.1.0 h.1.1.0)
        (append_assoc ret (rfc_chars (sextets_of a b c)) (rfc4648 rest)))

-- The encoder's output on a list of bytes is the encoding that RFC 4648 describes.
pub base64_encode-eq-rfc4648 :
    (bytes : List ℕ) → IsBytes bytes → base64_encode bytes ≡ rfc4648 bytes
unfolding base64_encode
base64_encode-eq-rfc4648 bytes h = encode_loop-rfc4648 [] bytes h
