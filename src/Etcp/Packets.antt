-- ===== src/Etcp/Packets.antt =====
-- src/etcp.cpp: what `readPacket` makes of the bytes of a stream, and of what `sendPacket` sent.
use media_gateway_v4_7_1_sde.Base.{
  ℕ, zero, suc, ◌-◌, ◌^◌, ◌≤◌, ◌<◌, ◌≡◌, refl, ap, ◌∙◌, List, [], ◌∷◌, ◌++◌, append_assoc, arith,
  length, take, drop, length-take, ltb, take-append-drop, length-drop, take-append_length,
  drop-append_length, Text, be32, of_be32-be32, lt→ltb, ltb-false, if◌then◌else◌, eq→==, ne→==,
}
use media_gateway_v4_7_1_sde.Etcp.{
  Event, count, readn, packet, refused, skip, read_body, read_packet, buffer_size, c_str, sends,
  send_packet,
}
use media_gateway_v4_7_1_sde.Etcp.Stream.{bytes_of, IsClean, readn_takes}

-- Enough bytes are there: `readn` returns its argument.
abbrev Delivers : List ℕ → List ℕ → List Event → Type 0
Delivers xs more ev =
    (rest : List Event) × (readn (length xs) ev ≡ count (length xs) xs rest)
    × (bytes_of rest ≡ more)
    × IsClean rest

readn-Delivers :
    (xs more : List ℕ) (ev : List Event)
    → IsClean ev
    → bytes_of ev ≡ xs ++ more
    → Delivers xs more ev
readn-Delivers xs more ev c e =
    let (rest, read, left, clean) = readn_takes (length xs) ev c in
    (
      rest,
      rw (e, take-append_length) at read,
      left ∙ ap (drop (length xs)) e ∙ drop-append_length xs more,
      clean,
    )

-- The length that the loop asks for next.
abbrev next_len : ℕ → ℕ → ℕ
next_len left len = if ltb left len then left else len

-- One round of the loop of `readPacket`.
skip_step :
    (fuel p len : ℕ) (ev rest : List Event) (buf : List ℕ)
    → 0 < p
    → readn len ev ≡ count len buf rest
    → skip (suc fuel) p len ev ≡ skip fuel (p - len) (next_len (p - len) len) rest
unfolding skip
skip_step fuel p len ev rest buf h e =
    rw (ne→== p 0 (omega arith), e, skip) (rw (eq→== len len refl))

skip_done : (fuel p len : ℕ) (ev : List Event) → p ≡ 0 → skip (suc fuel) p len ev ≡ refused ev
unfolding skip
skip_done fuel p len ev h = rw (eq→== p 0 h)

split_at : (n : ℕ) (xs more : List ℕ) → xs ++ more ≡ take n xs ++ (drop n xs ++ more)
split_at n xs more = rw (← append_assoc, take-append-drop)

next_len-le : (left len : ℕ) → next_len left len ≤ left
next_len-le left len = ground arith

next_len-pos : (left len : ℕ) → 0 < len → 0 < left → 0 < next_len left len
next_len-pos left len h k = ground arith

-- `readn len` where the stream begins with `xs`, and `xs` has `len` bytes at least.
readn_len :
    (len : ℕ) (xs more : List ℕ) (ev : List Event)
    → len ≤ length xs
    → IsClean ev
    → bytes_of ev ≡ xs ++ more
    → (rest : List Event) × (readn len ev ≡ count len (take len xs) rest)
      × (bytes_of rest ≡ drop len xs ++ more)
      × IsClean rest
readn_len len xs more ev l c e =
    let whole : length (take len xs) ≡ len = omega (arith, length-take len xs) in
    let (rest, read, left, clean) =
      readn-Delivers (take len xs) (drop len xs ++ more) ev c (e ∙ split_at len xs more) in
    (rest, rw whole at read, left, clean)

skips :
    (fuel len : ℕ) (xs more : List ℕ) (ev : List Event)
    → length xs < fuel
    → len ≤ length xs
    → (0 < length xs → 0 < len)
    → IsClean ev
    → bytes_of ev ≡ xs ++ more
    → (rest : List Event) × (skip fuel (length xs) len ev ≡ refused rest)
      × (bytes_of rest ≡ more)
      × IsClean rest
skips zero len xs more ev h l pos c e = absurd (omega arith)
skips (suc fuel) len [] more ev h l pos c e = (ev, skip_done fuel 0 len ev refl, e, c)
skips (suc fuel) len (x ∷ r) more ev h l pos c e =
    let xs : List ℕ = x ∷ r in
    let p = length xs in
    let positive : 0 < len = pos (omega arith) in
    let (mid, read, left, clean) = readn_len len xs more ev l c e in
    let (rest, done, behind, clean') =
      skips fuel (next_len (length (drop len xs)) len) (drop len xs) more mid
        (omega (arith, length-drop len xs)) (next_len-le (length (drop len xs)) len)
        (next_len-pos (length (drop len xs)) len positive) clean left in
    (
      rest,
      skip_step fuel p len ev mid (take len xs) (omega arith) read
          ∙ (rw (← length-drop len xs) done),
      behind,
      clean',
    )

pub frame_of :
    (msg : Text) (frame : List ℕ)
    → send_packet msg ≡ sends frame
    → (0 < length (c_str msg))
      × (length (c_str msg) < buffer_size)
      × (frame ≡ be32 (length (c_str msg)) ++ c_str msg)
unfolding send_packet
frame_of msg frame s = ground arith

read_body_fits :
    (xs more : List ℕ) (ev rest : List Event)
    → 0 < length xs
    → length xs < buffer_size
    → readn (length xs) ev ≡ count (length xs) xs rest
    → read_body buffer_size (length xs) ev ≡ packet xs rest
unfolding read_body
read_body_fits xs more ev rest pos small read =
    rw (ltb-false buffer_size (length xs) (omega arith), read, read_body)
      (rw (eq→== (length xs) (length xs) refl, ne→== (length xs) 0 (omega arith)))

read_packet_header :
    (n : ℕ) (ev rest : List Event) (len : ℕ)
    → n < 2 ^ 32
    → readn 4 ev ≡ count 4 (be32 n) rest
    → read_packet len ev ≡ read_body len n rest
unfolding read_packet
read_packet_header n ev rest len h read =
    rw (read, read_packet) (ap (λ (k : ℕ). read_body len k rest) (of_be32-be32 n h))

-- What `sendPacket` hands to `send` is read back by `readPacket`: on a stream that does not break
-- and begins with the frame of `msg`, however it is cut, the result is the text of `msg`, and
-- the stream goes on behind the frame.
pub read_packet-send_packet :
    (msg : Text) (frame more : List ℕ) (ev : List Event)
    → send_packet msg ≡ sends frame
    → IsClean ev
    → bytes_of ev ≡ frame ++ more
    → (rest : List Event) × (read_packet buffer_size ev ≡ packet (c_str msg) rest)
      × (bytes_of rest ≡ more)
      × IsClean rest
read_packet-send_packet msg frame more ev s c e =
    let text = c_str msg in
    let n = length text in
    let (pos, small, shape) = frame_of msg frame s in
    let (body, header, left, clean) =
      readn-Delivers (be32 n) (text ++ more) ev c
        (e ∙ ap (λ (f : List ℕ). f ++ more) shape ∙ append_assoc (be32 n) text more) in
    let (rest, read, behind, clean') = readn-Delivers text more body clean left in
    (
      rest,
      read_packet_header n ev body buffer_size (omega arith) header
          ∙ read_body_fits text more body rest pos small read,
      behind,
      clean',
    )

-- A packet that is too long for the buffer is read to its end and dropped: the result is -1, and
-- the stream goes on behind the packet.
pub read_packet_oversize :
    (len : ℕ) (body more : List ℕ) (ev : List Event)
    → 0 < len
    → len < length body
    → length body < 2 ^ 32
    → IsClean ev
    → bytes_of ev ≡ be32 (length body) ++ body ++ more
    → (rest : List Event) × (read_packet len ev ≡ refused rest)
      × (bytes_of rest ≡ more)
      × IsClean rest
unfolding read_body
read_packet_oversize len body more ev pos big word c e =
    let n = length body in
    let (start, header, left, clean) = readn-Delivers (be32 n) (body ++ more) ev c e in
    let (rest, done, behind, clean') =
      skips (suc n) len body more start (omega arith) (omega arith) (λ _. pos) clean left in
    (
      rest,
      read_packet_header n ev start len word header ∙ rw (lt→ltb len n big) done,
      behind,
      clean',
    )
