-- ===== src/Base64/Bits.antt =====
-- The masks and tables of src/base64.cpp in arithmetic, each over the values of a byte.
use media_gateway_v4_7_1_sde.Base.{
  ℕ, ◌+◌, ◌*◌, ◌/◌, ◌%◌, ◌<◌, bit_and, ◌≡◌, refl, Bool, true, not, ◌&&◌, List, [], ◌∷◌, arith, ◌==◌,
  take, ==→eq, all_below, all_below_sound,
}
use media_gateway_v4_7_1_sde.Base64.{is_base64, find_char, char_of, sextets, octets}

module _ (f g : ℕ → ℕ) (n : ℕ) (table : all_below (λ x. f x == g x) n ≡ true) where
  pub by_table : (x : ℕ) → x < n → f x ≡ g x
  by_table x h = ==→eq (f x) (g x) (all_below_sound (λ x. f x == g x) n x h table)

abbrev and_fc : ℕ → ℕ
and_fc x = bit_and x 0xfc / 4

abbrev and_f0 : ℕ → ℕ
and_f0 x = bit_and x 0xf0 / 16

abbrev and_c0 : ℕ → ℕ
and_c0 x = bit_and x 0xc0 / 64

abbrev and_30 : ℕ → ℕ
and_30 x = bit_and x 0x30 / 16

abbrev and_3c : ℕ → ℕ
and_3c x = bit_and x 0x3c / 4

mask_fc : (x : ℕ) → x < 256 → and_fc x ≡ x / 4
unfolding all_below
mask_fc = by_table and_fc (λ x. x / 4) 256 refl

mask_03 : (x : ℕ) → x < 256 → bit_and x 0x03 ≡ x % 4
unfolding all_below
mask_03 = by_table (λ x. bit_and x 0x03) (λ x. x % 4) 256 refl

mask_f0 : (x : ℕ) → x < 256 → and_f0 x ≡ x / 16
unfolding all_below
mask_f0 = by_table and_f0 (λ x. x / 16) 256 refl

mask_0f : (x : ℕ) → x < 256 → bit_and x 0x0f ≡ x % 16
unfolding all_below
mask_0f = by_table (λ x. bit_and x 0x0f) (λ x. x % 16) 256 refl

mask_c0 : (x : ℕ) → x < 256 → and_c0 x ≡ x / 64
unfolding all_below
mask_c0 = by_table and_c0 (λ x. x / 64) 256 refl

mask_3f : (x : ℕ) → x < 256 → bit_and x 0x3f ≡ x % 64
unfolding all_below
mask_3f = by_table (λ x. bit_and x 0x3f) (λ x. x % 64) 256 refl

mask_30 : (x : ℕ) → x < 256 → and_30 x ≡ x % 64 / 16
unfolding all_below
mask_30 = by_table and_30 (λ x. x % 64 / 16) 256 refl

mask_3c : (x : ℕ) → x < 256 → and_3c x ≡ x % 64 / 4
unfolding all_below
mask_3c = by_table and_3c (λ x. x % 64 / 4) 256 refl

-- The four sextets of three bytes.
abbrev pub sextets_of : ℕ → ℕ → ℕ → List ℕ
sextets_of a b c = (a / 4) ∷ (a % 4 * 16 + b / 16) ∷ (b % 16 * 4 + c / 64) ∷ (c % 64) ∷ []

pub sextets_lem : (a b c : ℕ) → a < 256 → b < 256 → c < 256 → sextets a b c ≡ sextets_of a b c
unfolding sextets
sextets_lem a b c ha hb hc =
    ground
      (arith, mask_fc a ha, mask_03 a ha, mask_f0 b hb, mask_0f b hb, mask_c0 c hc, mask_3f c hc)

-- The bytes that sextets below 64 give; the first needs two of them, the second three.
pub octets_first : (p q r s : ℕ) → p < 64 → q < 64 → take 1 (octets p q r s) ≡ (p * 4 + q / 16) ∷ []
unfolding octets
octets_first p q r s hp hq = ground (arith, mask_30 q (omega arith))

pub octets_second :
    (p q r s : ℕ)
    → p < 64
    → q < 64
    → r < 64
    → take 2 (octets p q r s) ≡ (p * 4 + q / 16) ∷ (q % 16 * 16 + r / 4) ∷ []
unfolding octets
octets_second p q r s hp hq hr =
    ground (arith, mask_30 q (omega arith), mask_0f q (omega arith), mask_3c r (omega arith))

pub octets_lem :
    (p q r s : ℕ)
    → p < 64
    → q < 64
    → r < 64
    → s < 64
    → octets p q r s ≡ (p * 4 + q / 16) ∷ (q % 16 * 16 + r / 4) ∷ (r % 4 * 64 + s) ∷ []
unfolding octets
octets_lem p q r s hp hq hr hs = ground (
  arith,
  mask_30 q (omega arith),
  mask_0f q (omega arith),
  mask_3c r (omega arith),
  mask_03 r (omega arith),
)

pub find_char-char_of : (v : ℕ) → v < 64 → find_char (char_of v) ≡ v
unfolding all_below find_char char_of
find_char-char_of = by_table (λ v. find_char (char_of v)) (λ v. v) 64 refl

-- The test of the decoder's loop.
abbrev pub accepts : ℕ → Bool
accepts c = not (c == b'=') && is_base64 c

pub accepts-char_of : (v : ℕ) → v < 64 → accepts (char_of v) ≡ true
unfolding all_below is_base64 char_of
accepts-char_of v h = all_below_sound (λ v. accepts (char_of v)) 64 v h refl
