-- ===== src/Base/Words.antt =====
-- Words in network byte order (`htonl`, `htons` and their inverses, as bytes in memory).
use Prim.Native.Nat.{ℕ, ◌+◌, ◌*◌, ◌/◌, ◌%◌, ◌^◌, ◌<◌}
use mathlib.Core.Path.{◌≡◌}
use mathlib.Core.List.{List, [], ◌∷◌}
use native.Mathlib.Omega.{arith}
use media_gateway_v4_7_1_sde.Base.Lists.{get_or}

-- The four bytes of `htonl(n)` in memory, and the number that `ntohl` reads from four bytes.
abbrev pub be32 : ℕ → List ℕ
be32 n = (n / 2 ^ 24 % 256) ∷ (n / 2 ^ 16 % 256) ∷ (n / 2 ^ 8 % 256) ∷ (n % 256) ∷ []

unfoldable pub of_be32 : List ℕ → ℕ
of_be32 l = get_or l 0 0 * 2 ^ 24 + get_or l 1 0 * 2 ^ 16 + get_or l 2 0 * 2 ^ 8 + get_or l 3 0

pub of_be32-be32 : (n : ℕ) → n < 2 ^ 32 → of_be32 (be32 n) ≡ n
unfolding of_be32
of_be32-be32 n h = omega arith
