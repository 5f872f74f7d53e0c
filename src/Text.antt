-- ===== src/Text.antt =====
-- What src/ uses of `std::string` and of the C library's texts, over bytes.
-- `size_t` has 32 bits: include/rtpdefine.h counts four bytes for an `unsigned long`.
pub mod Search
pub mod Lines
pub mod Beyond
use media_gateway_v4_7_1_sde.Base.{
  ℕ, zero, suc, ◌+◌, ◌-◌, ◌*◌, ◌/◌, ◌%◌, ◌^◌, Bool, true, false, not, ◌&&◌, ◌||◌, Option, none,
  some, List, [], ◌∷◌, ◌++◌, ltb, leb, ◌==◌, if◌then◌else◌, length, take, drop, Text, codes, ℤ, pos,
  negsuc, String, Eq, ◌≡◌, ◌↔◌, refl, arith,
}
use Prim.Native.Nat.{min}

-- `std::string::npos`
abbrev pub npos : ℕ
npos = 4294967295

unfoldable pub is_prefix : Text → Text → Bool
is_prefix [] s = true
is_prefix (c ∷ cs) [] = false
is_prefix (c ∷ cs) (x ∷ xs) = c == x && is_prefix cs xs

unfoldable pub eq_text : Text → Text → Bool
eq_text [] [] = true
eq_text [] (x ∷ xs) = false
eq_text (c ∷ cs) [] = false
eq_text (c ∷ cs) (x ∷ xs) = c == x && eq_text cs xs

abbrev pub next : Option ℕ → Option ℕ
next none = none
next (some k) = some (suc k)

-- Where a text first stands in another.
unfoldable pub search : Text → Text → Option ℕ
unfolding is_prefix
search s [] = if is_prefix s [] then some 0 else none
search s (x ∷ xs) = if is_prefix s (x ∷ xs) then some 0 else next (search s xs)

abbrev pub position : ℕ → Option ℕ → ℕ
position from none = npos
position from (some k) = from + k

-- `text.find(s, from)`
unfoldable pub find : Text → Text → ℕ → ℕ
find text s from = position from (search s (drop from text))

-- `text.find(s) != npos`, `strstr(text, s) != NULL`
unfoldable pub contains : Text → Text → Bool
contains text s = not (find text s 0 == npos)

-- `text.substr(from, n)`, for `from` up to the size.
unfoldable pub substr : Text → ℕ → ℕ → Text
substr text from n = take n (drop from text)

-- `text.replace(from, n, s)`, for `from` up to the size.
unfoldable pub replace : Text → ℕ → ℕ → Text → Text
replace text from n s = take from text ++ (s ++ drop (from + n) text)

-- The difference of two positions, a `size_t`.
abbrev pub minus : ℕ → ℕ → ℕ
minus a b = (a + 2 ^ 32 - b) % 2 ^ 32

-- The position behind `a`, a `size_t`: 0 behind `npos`.
abbrev pub behind : ℕ → ℕ
behind a = (a + 1) % 2 ^ 32

abbrev pub crlf : Text
crlf = 13 ∷ 10 ∷ []

abbrev pub line : String → Text
line s = codes s ++ crlf

unfoldable pub is_space : ℕ → Bool
is_space c = c == 32 || (leb 9 c && leb c 13)

unfoldable pub is_digit : ℕ → Bool
is_digit c = leb b'0' c && leb c b'9'

unfoldable pub digits_value : ℕ → Text → ℕ
unfolding is_digit
digits_value acc [] = acc
digits_value acc (c ∷ cs) =
    let rest = digits_value (acc * 10 + (c - b'0')) cs in if is_digit c then rest else acc

abbrev negate : ℕ → ℤ
negate zero = pos 0
negate (suc n) = negsuc n

unfoldable pub skip_spaces : Text → Text
unfolding is_space
skip_spaces [] = []
skip_spaces (c ∷ cs) = let rest = skip_spaces cs in if is_space c then rest else c ∷ cs

unfoldable pub signed_value : Text → ℤ
unfolding digits_value
signed_value [] = pos 0
signed_value (c ∷ cs) =
    if c == b'-'
    then negate (min (digits_value 0 cs) (2 ^ 31))
    else if c == b'+'
    then pos (min (digits_value 0 cs) (2 ^ 31 - 1))
    else pos (min (digits_value 0 (c ∷ cs)) (2 ^ 31 - 1))

-- `atoi`; a value out of range, which C leaves open, is cut off at the range's end.
unfoldable pub atoi : Text → ℤ
unfolding skip_spaces signed_value
atoi s = signed_value (skip_spaces s)

digits_from : ℕ → ℕ → Text
digits_from zero n = []
digits_from (suc fuel) n =
    let front = digits_from fuel (n / 10) in
    if ltb n 10 then (b'0' + n) ∷ [] else front ++ (b'0' + n % 10) ∷ []

-- The decimal digits of an `int`, ten at most.
unfoldable pub decimal : ℕ → Text
unfolding digits_from
decimal n = digits_from 10 n

-- `intToString` of include/commontype.h: `sprintf(buf, "%d", n)`.
unfoldable pub int_to_string : ℤ → Text
unfolding decimal
int_to_string (pos n) = decimal n
int_to_string (negsuc n) = b'-' ∷ decimal (suc n)

pub eq_text_iff : (s t : Text) → (eq_text s t ≡ true) ↔ (s ≡ t)
unfolding eq_text
eq_text_iff [] [] = ((λ _. refl), (λ _. refl))
eq_text_iff [] (x ∷ xs) = ground arith
eq_text_iff (c ∷ cs) [] = ground arith
eq_text_iff (c ∷ cs) (x ∷ xs) = ground (arith, eq_text_iff cs xs)

instance abbrev pub text_eq : Eq Text
text_eq = record { matches = eq_text; matches_iff = eq_text_iff }
