-- ===== src/Base64.antt =====
-- src/base64.cpp and include/base64.h: the decoder and the encoder of the master keys.
-- The entries of `char_array_3` (`char_array_4`) below `i` are the list `buf`; the entries above
-- are not read before they are written.
pub mod Bits
pub mod Reference
pub mod RoundTrip
use media_gateway_v4_7_1_sde.Base.{
  ℕ, ◌+◌, ◌-◌, ◌*◌, ◌/◌, ◌%◌, bit_and, Bool, not, ◌&&◌, ◌||◌, List, [], ◌∷◌, ◌++◌, leb, ◌==◌,
  if◌then◌else◌, length, get_or, take, replicate, Text, codes,
}

abbrev pub base64_chars : Text
base64_chars = codes "ABCDEFGHIJKLMNOPQRSTUVWXYZabcdefghijklmnopqrstuvwxyz0123456789+/"

-- `isalnum` in the C locale.
isalnum : ℕ → Bool
isalnum c = (leb b'0' c && leb c b'9') || (leb b'A' c && leb c b'Z') || (leb b'a' c && leb c b'z')

unfoldable pub is_base64 : ℕ → Bool
unfolding isalnum
is_base64 c = isalnum c || c == b'+' || c == b'/'

-- `static_cast<unsigned char>(base64_chars.find(c))`; `npos` is all ones, so its low byte is 255.
find_from : Text → ℕ → ℕ → ℕ
find_from [] i c = 255
find_from (x ∷ xs) i c = if x == c then i else find_from xs (i + 1) c

unfoldable pub find_char : ℕ → ℕ
unfolding find_from
find_char c = find_from base64_chars 0 c

unfoldable pub char_of : ℕ → ℕ
char_of v = get_or base64_chars v 0

-- `char_array_4` from `char_array_3`; each entry is an `unsigned char`.
unfoldable pub sextets : ℕ → ℕ → ℕ → List ℕ
sextets a b c =
    (bit_and a 0xfc / 4)
    ∷ ((bit_and a 0x03 * 16 + bit_and b 0xf0 / 16) % 256)
    ∷ ((bit_and b 0x0f * 4 + bit_and c 0xc0 / 64) % 256)
    ∷ bit_and c 0x3f
    ∷ []

-- `char_array_3` from `char_array_4`.
unfoldable pub octets : ℕ → ℕ → ℕ → ℕ → List ℕ
octets p q r s =
    ((p * 4 + bit_and q 0x30 / 16) % 256)
    ∷ ((bit_and q 0xf * 16 + bit_and r 0x3c / 4) % 256)
    ∷ ((bit_and r 0x3 * 64 + s) % 256)
    ∷ []

unfoldable pub chars_of : List ℕ → Text
chars_of [] = []
chars_of (v ∷ vs) = char_of v ∷ chars_of vs

-- One round of the encoder's `while`: store the byte, and write a group of four when `i == 3`.
encode_push : List ℕ → Text → ℕ → List ℕ × Text
unfolding chars_of
encode_push (a ∷ b ∷ []) ret x = ([], ret ++ chars_of (sextets a b x))
encode_push buf ret x = (buf ++ x ∷ [], ret)

-- The `if (i)` block after the loop.
encode_tail : List ℕ → Text → Text
unfolding chars_of
encode_tail buf ret =
    let i = length buf in
    if i == 0
    then ret
    else ret
      ++ (take (i + 1) (chars_of (sextets (get_or buf 0 0) (get_or buf 1 0) (get_or buf 2 0)))
          ++ replicate (3 - i) b'=')

encode_loop : List ℕ → Text → List ℕ → Text
unfolding encode_push encode_tail
encode_loop buf ret [] = encode_tail buf ret
encode_loop buf ret (x ∷ xs) = let s = encode_push buf ret x in encode_loop s.0 s.1 xs

unfoldable pub base64_encode : List ℕ → Text
unfolding encode_loop sextets char_of
base64_encode bytes = encode_loop [] [] bytes

decode_push : List ℕ → List ℕ → ℕ → List ℕ × List ℕ
decode_push (p ∷ q ∷ r ∷ []) ret x =
    ([], ret ++ octets (find_char p) (find_char q) (find_char r) (find_char x))
decode_push buf ret x = (buf ++ x ∷ [], ret)

decode_tail : List ℕ → List ℕ → List ℕ
decode_tail buf ret =
    let i = length buf in
    if i == 0
    then ret
    else ret
      ++ take (i - 1) (
          octets (find_char (get_or buf 0 0)) (find_char (get_or buf 1 0))
            (find_char (get_or buf 2 0)) (find_char (get_or buf 3 0)))

-- `while (in_len-- && encoded_string[in_] != '=' && is_base64(encoded_string[in_]))`
decode_loop : List ℕ → List ℕ → Text → List ℕ
unfolding decode_push decode_tail
decode_loop buf ret [] = decode_tail buf ret
decode_loop buf ret (x ∷ xs) =
    let s = decode_push buf ret x in
    let rest = decode_loop s.0 s.1 xs in
    if not (x == b'=') && is_base64 x then rest else decode_tail buf ret

unfoldable pub base64_decode : Text → List ℕ
unfolding decode_loop is_base64 find_char octets
base64_decode text = decode_loop [] [] text
