-- ===== src/Etcp.antt =====
-- src/etcp.cpp: packets of a length and that many bytes over a TCP socket.
pub mod Stream
pub mod Packets
pub mod Sockets
use media_gateway_v4_7_1_sde.Base.{
  ℕ, zero, suc, ◌+◌, ◌-◌, ◌≡◌, Option, none, some, List, [], ◌∷◌, ◌++◌, ltb, leb, ◌==◌,
  if◌then◌else◌, length, take, drop, Text, be32, of_be32, Bool,
}

-- What the calls of `recv` on one socket meet, in order: a segment of one byte or more, an
-- interrupted call (EINTR), or any other error. The end of the list is the end of the stream.
pub data Event : Type 0 where
  segment : ℕ → List ℕ → Event
  interrupted broken : Event

-- What a reading function returns, its buffer's new content, and the events that are left.
pub data Read : Type 0 where
  count : ℕ → List ℕ → List Event → Read
  failed : List Event → Read

-- `recv` leaves the rest of a longer segment in the socket.
unfoldable pub push_back : List ℕ → List Event → List Event
push_back [] ev = ev
push_back (b ∷ bs) ev = segment b bs ∷ ev

-- `readn`: `need` is `needToReceive`, and `buf` what was received so far. One event is one `recv`.
unfoldable pub readn_loop : ℕ → List ℕ → List Event → Read
unfolding push_back
readn_loop need buf [] = count (length buf) buf []
readn_loop need buf (interrupted ∷ ev) =
    let again = readn_loop need buf ev in
    if need == 0 then count (length buf) buf (interrupted ∷ ev) else again
readn_loop need buf (broken ∷ ev) =
    if need == 0 then count (length buf) buf (broken ∷ ev) else failed ev
readn_loop need buf (segment b bs ∷ ev) =
    let more = readn_loop (need - suc (length bs)) (buf ++ b ∷ bs) ev in
    if need == 0
    then count (length buf) buf (segment b bs ∷ ev)
    else if leb (suc (length bs)) need
    then more
    else let buf' = buf ++ take need (b ∷ bs) in
      count (length buf') buf' (push_back (drop need (b ∷ bs)) ev)

unfoldable pub readn : ℕ → List Event → Read
unfolding readn_loop
readn len ev = readn_loop len [] ev

-- `readPacket` returns the bytes received, 0 (`closed`) or -1 (`refused`).
pub data Packet : Type 0 where
  packet : List ℕ → List Event → Packet
  closed : List Event → Packet
  refused : List Event → Packet
  -- the rounds given ran out
  unfinished : Packet

-- `return recvlen < 0 ? recvlen : 0;`
give_up : Read → Packet
give_up (count n buf ev) = closed ev
give_up (failed ev) = refused ev

-- The loop that skips a packet longer than the buffer.
skip : ℕ → ℕ → ℕ → List Event → Packet
unfolding give_up
skip zero packetlen len ev = unfinished
skip (suc fuel) packetlen len ev = if packetlen == 0 then refused ev else elim (readn len ev) [
  | failed ev' ↦ refused ev'
  | count n buf ev' ↦ elim (n == len) [
    | Bool.false ↦ closed ev'
    | Bool.true ↦
        skip fuel (packetlen - n) (if ltb (packetlen - n) len then packetlen - n else len) ev'
  ]
]

-- The part of `readPacket` behind the length.
read_body : ℕ → ℕ → List Event → Packet
unfolding skip
read_body len packetlen ev =
    if ltb len packetlen then skip (suc packetlen) packetlen len ev else elim (readn packetlen ev) [
      | failed ev' ↦ refused ev'
      | count n buf ev' ↦
          if n == packetlen then (if n == 0 then closed ev' else packet buf ev') else closed ev'
    ]

unfoldable pub read_packet : ℕ → List Event → Packet
unfolding read_body
read_packet len ev = elim (readn 4 ev) [
  | failed ev' ↦ refused ev'
  | count n buf ev' ↦ if n == 4 then read_body len (of_be32 buf) ev' else closed ev'
]

-- `BUFFER_SIZE` of include/etcp.h
abbrev pub buffer_size : ℕ
buffer_size = 10240

-- The text that a `char *` stands for: its bytes up to the first NUL.
unfoldable pub c_str : Text → Text
c_str [] = []
c_str (c ∷ cs) = if c == 0 then [] else c ∷ c_str cs

-- What `sendPacket` does: nothing, a write past the end of `packet.buf` (`strcpy` writes the NUL
-- as well), or one `send` of these bytes. Whether it fails is asked
-- in `Session.send_packet_to_sg`.
pub data Sending : Type 0 where
  nothing : Sending
  overflow : Sending
  sends : List ℕ → Sending

unfoldable pub send_packet : Text → Sending
send_packet msg =
    let text = c_str msg in
    let n = length text in
    if n == 0 then nothing else if ltb n buffer_size then sends (be32 n ++ text) else overflow
