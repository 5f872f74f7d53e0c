-- ===== src/Etcp/Sockets.antt =====
-- src/etcp.cpp: the address of a socket, and the two ways to open one. What the calls of the operating
-- system and of the resolver return are arguments.
use media_gateway_v4_7_1_sde.Base.{
  ℕ, ◌+◌, ◌*◌, ◌-◌, ◌^◌, Bool, true, false, ◌&&◌, ◌||◌, Option, none, some, [], ◌∷◌, ◌==◌, ltb, leb,
  if◌then◌else◌, Text, codes, ℤ, pos, negsuc, wrap, Run, ok, fault, abort, ◌>>=◌,
}
use media_gateway_v4_7_1_sde.Text.{skip_spaces}
use Prim.Native.Nat.{min}

-- What the program gets from outside. `inet_addr` is 0xffffffff for a text that is no address. An
-- entry of `gethostbyname` has the pointer that stands first in `h_addr_list`, as a number, and the
-- address that it points to. A port of `getservbyname` is the number that `s_port` stands for.
pub record Resolver : Type 0 where
  pub inet_addr : Text → ℕ
  pub gethostbyname : Text → Option (ℕ × ℕ)
  pub getservbyname : Text → Text → Option ℕ

pub record Sockaddr : Type 0 where
  pub sin_addr : ℕ
  pub sin_port : ℕ

-- A digit of a base.
unfoldable pub digit_in : ℕ → ℕ → Option ℕ
digit_in base c =
    let d =
      if leb b'0' c && leb c b'9'
      then c - b'0'
      else if leb b'a' c && leb c b'z'
      then c - b'a' + 10
      else if leb b'A' c && leb c b'Z'
      then c - b'A' + 10
      else base in
    if ltb d base then some d else none

-- The number that the digits at the beginning make, and what stands behind them.
unfoldable pub read_number : ℕ → ℕ → Text → ℕ × Text
unfolding digit_in
read_number base acc [] = (acc, [])
read_number base acc (c ∷ cs) = elim (digit_in base c) [
  | none ↦ (acc, c ∷ cs)
  | some d ↦ read_number base (acc * base + d) cs
]

abbrev is_hex : Text → Bool
is_hex [] = false
is_hex (c ∷ cs) = elim (digit_in 16 c) [ none ↦ false | some d ↦ true ]

-- The digits that `strtol` reads with base 0, behind the sign.
unfoldable pub magnitude : Text → Option (ℕ × Text)
unfolding read_number
magnitude [] = none
magnitude (c ∷ []) = elim (digit_in 10 c) [ none ↦ none | some d ↦ some (d, []) ]
magnitude (c ∷ x ∷ cs) =
    if c == b'0'
    then (if (x == b'x' || x == b'X') && is_hex cs
        then some (read_number 16 0 cs)
        else some (read_number 8 0 (x ∷ cs)))
    else elim (digit_in 10 c) [ none ↦ none | some d ↦ some (read_number 10 d (x ∷ cs)) ]

abbrev is_minus : Text → Bool
is_minus [] = false
is_minus (c ∷ cs) = c == b'-'

abbrev unsigned : Text → Text
unsigned [] = []
unsigned (c ∷ cs) = if c == b'-' || c == b'+' then cs else c ∷ cs

abbrev negative : ℕ → ℤ
negative Prim.Native.Nat.zero = pos 0
negative (Prim.Native.Nat.suc n) = negsuc n

-- `strtol(text, &endptr, 0)`: the value, and the text at `endptr`, all of it if no number is there.
unfoldable pub strtol : Text → ℤ × Text
unfolding magnitude
strtol text =
    let s = skip_spaces text in
    elim (magnitude (unsigned s)) [
      | none ↦ (pos 0, text)
      | some (n, rest) ↦
          (if is_minus s then negative (min n (2 ^ 31)) else pos (min n (2 ^ 31 - 1)), rest)
    ]

module _ (os : Resolver) where
  open os use {inet_addr, gethostbyname, getservbyname}

  -- The address of a host; `error(1, ...)` stops the process.
  unfoldable pub host_address : Option Text → Run ℕ
  host_address none = ok 0
  host_address (some host) =
      if inet_addr host == 0xffffffff
      then (elim (gethostbyname host) [ none ↦ fault abort | some (pointer, address) ↦ ok pointer ])
      else ok (inet_addr host)

  -- The port, a `short` where it is a number.
  unfoldable pub port_number : Text → Text → Run ℕ
  unfolding strtol
  port_number port protocol =
      let (n, rest) = strtol port in
      elim rest [
        | [] ↦ ok (wrap (2 ^ 16) n)
        | c ∷ cs ↦ elim (getservbyname port protocol) [ none ↦ fault abort | some p ↦ ok p ]
      ]

  -- `setAddress`
  unfoldable pub set_address : Option Text → Text → Text → Run Sockaddr
  unfolding host_address port_number
  set_address host port protocol = do
    a ← host_address host
    p ← port_number port protocol
    ok (record { sin_addr = a; sin_port = p })

  -- `isvalidsock`
  abbrev pub is_valid_sock : ℤ → Bool
  is_valid_sock (pos n) = true
  is_valid_sock (negsuc n) = false

  -- `tcpClient`, with what `socket` returns and whether `connect` fails: the socket, and where it is
  -- connected to.
  unfoldable pub tcp_client : ℤ → Bool → Text → Text → Run (ℤ × Sockaddr)
  unfolding set_address
  tcp_client socket connect_fails host port = do
    peer ← set_address (some host) port (codes "tcp")
    if is_valid_sock socket
        then (if connect_fails then fault abort else ok (socket, peer))
        else fault abort

  -- `tcpServer`, with what `socket` returns and which of `setsockopt`, `bind` and `listen` fail.
  unfoldable pub tcp_server : ℤ → Bool → Bool → Bool → Option Text → Text → Run (ℤ × Sockaddr)
  unfolding set_address
  tcp_server socket setsockopt_fails bind_fails listen_fails host port = do
    local ← set_address host port (codes "tcp")
    if is_valid_sock socket
        then fault abort
        else if setsockopt_fails
        then fault abort
        else if bind_fails
        then fault abort
        else if listen_fails
        then fault abort
        else ok (socket, local)
