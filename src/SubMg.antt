-- ===== src/SubMg.antt =====
-- src/submg.cpp and include/submg.h: the servers that convert codecs, the thread that asks one of
-- them, and the thread that reads their answers. A `long` has four bytes (include/rtpdefine.h).
pub mod Messages
pub mod Ids
pub mod Servers
pub mod Calls
pub mod Startup
pub mod System
use media_gateway_v4_7_1_sde.Base.{
  ℕ, zero, suc, ◌+◌, ◌*◌, ◌/◌, ◌%◌, ◌^◌, Bool, true, false, not, ◌||◌, Option, none, some, List, [],
  ◌∷◌, ◌++◌, ℤ, pos, negsuc, if◌then◌else◌, ◌==◌, length, get_or, take, drop, replicate, be32,
  of_be32, Text, Run, ok, fault, abort, no_rounds, buffer_overflow, ◌>>=◌, map_find, map_assign,
  nat_eq,
}
use media_gateway_v4_7_1_sde.Text.{eq_text}

-- The static members of `SubMG`: the servers by address and socket, and the two maps of the ids.
-- The map gives 0 for an id that it has not.
pub record SubMg : Type 0 where
  pub ava_sub_mg : List (Text × ℕ)
  pub curstate : List (ℕ × ℕ)
  pub addr : List (ℕ × (Text × ℕ))
  pub id_cnt : ℕ

abbrev pub new_sub_mg : SubMg
new_sub_mg = record { ava_sub_mg = []; curstate = []; addr = []; id_cnt = 0 }

abbrev pub or_zero : Option ℕ → ℕ
or_zero none = 0
or_zero (some n) = n

-- `curstate[id]`
unfoldable pub state_of : ℕ → SubMg → ℕ
state_of id s = or_zero (map_find id s.curstate)

-- `curstate[id] = v`
unfoldable pub set_state : ℕ → ℕ → SubMg → SubMg
set_state id v s = record s { curstate = map_assign id v s.curstate }

-- The servers by their position in `avaSubMG`.
unfoldable pub get_elem? {ℓ} : {A : Type ℓ} → List A → ℕ → Option A
get_elem? [] i = none
get_elem? (x ∷ xs) zero = some x
get_elem? (x ∷ xs) (suc i) = get_elem? xs i

-- `avaSubMG.erase(avaSubMG.begin() + i)`
unfoldable pub erase_at {ℓ} : {A : Type ℓ} → ℕ → List A → List A
erase_at i [] = []
erase_at zero (x ∷ xs) = xs
erase_at (suc i) (x ∷ xs) = x ∷ erase_at i xs

abbrev pub id_limit : ℕ
id_limit = 0x7fffffff

-- The loop of `getVacID`, for a number of rounds.
unfoldable pub vac_id_loop : ℕ → List (ℕ × ℕ) → ℕ → Run ℕ
vac_id_loop zero states cnt = fault no_rounds
vac_id_loop (suc rounds) states cnt = elim (cnt + 1 == id_limit) [
  | true ↦ vac_id_loop rounds states 0
  | false ↦ elim (or_zero (map_find (cnt + 1) states) == 0) [
    | true ↦ ok (cnt + 1)
    | false ↦ vac_id_loop rounds states (cnt + 1)
  ]
]

-- Enough rounds to go over all ids and the wrap.
abbrev pub id_rounds : ℕ
id_rounds = 0x80000001

-- `SubMG::getVacID`
unfoldable pub get_vac_id : SubMg → Run (ℕ × SubMg)
unfolding vac_id_loop
get_vac_id s = do id ← vac_id_loop id_rounds s.curstate s.id_cnt; ok (id, record s { id_cnt = id })

-- `class CtrlMsg`, and the type of an answer
pub record CtrlMsg : Type 0 where
  pub msg_type : ℕ
  pub codec : ℕ
  pub port : ℕ
  pub id : ℕ

abbrev pub start : ℕ
start = 0

abbrev pub ok_for_start : ℕ
ok_for_start = 1

abbrev pub be16 : ℕ → List ℕ
be16 n = (n / 2 ^ 8 % 256) ∷ (n % 256) ∷ []

-- The eight bytes of a message whose port and id went through `htons` and `htonl`.
unfoldable pub ctrl_msg_bytes : CtrlMsg → List ℕ
ctrl_msg_bytes m = m.msg_type ∷ m.codec ∷ (be16 m.port ++ be32 m.id)

-- `memset(buf, 0, sizeof(CtrlMsg))`, the bytes received, `memcpy(&msg, buf, sizeof(msg))`, and the
-- two conversions back.
unfoldable pub read_ctrl_msg : List ℕ → CtrlMsg
read_ctrl_msg bytes =
    let at : ℕ → ℕ = λ i. get_or bytes i 0 in
    record {
      msg_type = at 0;
      codec = at 1;
      port = at 2 * 2 ^ 8 + at 3;
      id = of_be32 (at 4 ∷ at 5 ∷ at 6 ∷ at 7 ∷ []);
    }

-- The thread that calls `startFFmpeg`: behind its return, with the value and with what it stored in
-- `destIP` and `destPort`; behind the test of `avaSubMG.size()`, with the port, the codec and the
-- id; between `send` and `curstate[idx] = 1`; in the loop that waits; or between its two reads of
-- `addr[idx]`.
pub data Caller : Type 0 where
  returned : ℤ → Option (Text × ℕ) → Caller
  choosing : ℕ → ℕ → ℕ → Caller
  marking waiting : ℕ → Caller
  reading : ℕ → Text → Caller

-- `startFFmpeg` up to the test of `avaSubMG.size()`.
unfoldable pub request : ℕ → ℕ → SubMg → Run (SubMg × Caller)
unfolding get_vac_id
request my_recv_port codec s = do
  (idx, s') ← get_vac_id s
  elim s'.ava_sub_mg [
    | [] ↦ ok (s', returned (negsuc 0) none)
    | server ∷ servers ↦ ok (s', choosing my_recv_port codec idx)
  ]

-- `send(avaSubMG[rand()%avaSubMG.size()].second, ...)`: the socket and the bytes that it sends.
-- `random` is what `rand()` gives, `sent` whether `send` sent something. The list may have become
-- empty since the test.
unfoldable pub choose : ℕ → ℕ → ℕ → ℕ → Bool → SubMg → Run (Caller × Option (ℕ × List ℕ))
unfolding get_elem? ctrl_msg_bytes
choose my_recv_port codec idx random sent s =
    let bytes =
      ctrl_msg_bytes (record { msg_type = start; codec = codec; port = my_recv_port; id = idx }) in
    elim (get_elem? s.ava_sub_mg (random % length s.ava_sub_mg)) [
      | none ↦ fault buffer_overflow
      | some (ip, socket) ↦
          ok (if sent then marking idx else returned (negsuc 1) none, some (socket, bytes))
    ]

abbrev pub or_new : Option (Text × ℕ) → Text × ℕ
or_new none = ([], 0)
or_new (some a) = a

-- `addr[id]`; an id that the map has not gets an empty text and 0.
unfoldable pub addr_of : ℕ → SubMg → Text × ℕ
addr_of id s = or_new (map_find id s.addr)

-- One look of the loop at `curstate[idx]`; behind the loop, the `assert` and `destIP`.
unfoldable pub poll : ℕ → SubMg → Run Caller
unfolding state_of addr_of
poll idx s =
    if state_of idx s == 1
    then ok (waiting idx)
    else if state_of idx s == 2
    then ok (reading idx (addr_of idx s).0)
    else fault abort

-- `destPort`, and the end.
unfoldable pub read_port : ℕ → Text → SubMg → Caller
unfolding addr_of
read_port idx ip s = returned (pos idx) (some (ip, (addr_of idx s).1))

-- The control thread: in `select`; in its loop over the servers, at `i`, with the sockets that
-- `select` found ready; in the loop that waits for the state of an id to be set; behind
-- `curstate[msg.ID] = 2`; or behind `addr[msg.ID].first = ...`.
pub data Control : Type 0 where
  selecting : Control
  scanning : List ℕ → ℕ → Control
  holding storing porting : List ℕ → ℕ → ℕ → ℕ → Control

unfoldable pub is_set : ℕ → List ℕ → Bool
is_set fd [] = false
is_set fd (x ∷ xs) = x == fd || is_set fd xs

-- What a round does with the result of `recv`, empty for 0 or -1: it drops the server, or takes up
-- the message.
unfoldable pub receive_at : List ℕ → ℕ → List ℕ → SubMg → Run (Control × SubMg)
unfolding erase_at read_ctrl_msg
receive_at ready i [] s =
    ok (scanning ready (i + 1), record s { ava_sub_mg = erase_at i s.ava_sub_mg })
receive_at ready i (c ∷ cs) s =
    let msg = read_ctrl_msg (c ∷ cs) in
    if msg.msg_type == ok_for_start then ok (holding ready i msg.id msg.port, s) else fault abort

-- A round of the loop over the servers, up to the inner loop. At the end of the list the control
-- thread stays where it is.
unfoldable pub scan : List ℕ → ℕ → List ℕ → SubMg → Run (Control × SubMg)
unfolding get_elem? is_set receive_at
scan ready i received s = elim (get_elem? s.ava_sub_mg i) [
  | none ↦ ok (scanning ready i, s)
  | some (ip, socket) ↦
      if not (is_set socket ready)
      then ok (scanning ready (i + 1), s)
      else receive_at ready i received s
]

-- One look of the inner loop, and behind it `curstate[msg.ID] = 2`.
unfoldable pub answer : List ℕ → ℕ → ℕ → ℕ → SubMg → Run (Control × SubMg)
unfolding state_of set_state
answer ready i id port s =
    if state_of id s == 0
    then ok (holding ready i id port, s)
    else ok (storing ready i id port, set_state id 2 s)

-- `addr[id] = a`
unfoldable pub set_addr : ℕ → Text × ℕ → SubMg → SubMg
set_addr id a s = record s { addr = map_assign id a s.addr }

-- `addr[msg.ID].first = avaSubMG[i].first`
unfoldable pub store_address : List ℕ → ℕ → ℕ → ℕ → SubMg → Run (Control × SubMg)
unfolding get_elem? addr_of set_addr
store_address ready i id port s = elim (get_elem? s.ava_sub_mg i) [
  | none ↦ fault buffer_overflow
  | some (ip, socket) ↦ ok (porting ready i id port, set_addr id (ip, (addr_of id s).1) s)
]

-- `addr[msg.ID].second = msg.port`, and the end of the round
unfoldable pub store_port : List ℕ → ℕ → ℕ → ℕ → SubMg → Control × SubMg
unfolding addr_of set_addr
store_port ready i id port s = (scanning ready (i + 1), set_addr id ((addr_of id s).0, port) s)

unfoldable pub has_ip : Text → List (Text × ℕ) → Bool
has_ip ip [] = false
has_ip ip ((x, fd) ∷ servers) = eq_text x ip || has_ip ip servers

-- The end of a round: a client that was accepted (`none` if none was) becomes a server, or is
-- closed if one has its address.
unfoldable pub accept_client : Option (Text × ℕ) → SubMg → SubMg
unfolding has_ip
accept_client none s = s
accept_client (some (ip, fd)) s =
    if has_ip ip s.ava_sub_mg then s else record s { ava_sub_mg = s.ava_sub_mg ++ (ip, fd) ∷ [] }
