-- ===== src/Gateway/Connection.antt =====
-- src/mediagateway.cpp, `connectToSignalingGateway`, on the bytes of the socket: src/etcp.cpp reads
-- the packets, the messages go through the parser to the sessions.
use media_gateway_v4_7_1_sde.Base.{
  ℕ, zero, suc, ◌<◌, ◌≡◌, refl, ap, sym, subst, Option, none, some, List, [], ◌∷◌, ◌++◌, length,
  map, arith, Text, codes, if◌then◌else◌, Run, ok, fault, no_rounds, ◌>>=◌,
}
use media_gateway_v4_7_1_sde.Etcp.{
  Event, packet, closed, refused, unfinished, read_packet, buffer_size, c_str, sends, send_packet,
}
use media_gateway_v4_7_1_sde.Etcp.Stream.{bytes_of, IsClean, readn_takes}
use media_gateway_v4_7_1_sde.Etcp.Packets.{read_packet-send_packet, frame_of}
use media_gateway_v4_7_1_sde.Agents.{Effect}
use media_gateway_v4_7_1_sde.Session.{Env, Resources, send_packet_to_sg}
use media_gateway_v4_7_1_sde.Gateway.{Gateway, allocate, handle_session_message, serve}

module _ (env : Env) (resources : ℕ → Resources) where
  -- The session made in advance: the last one, if it was not used.
  unfoldable pub prepare : Option ℕ → Gateway → ℕ × Gateway
  prepare none g = allocate env (resources g.next) g
  prepare (some p) g = (p, g)

  -- The loop of `connectToSignalingGateway`, for a number of rounds, on what `recv` meets.
  unfoldable pub connection_loop : ℕ → Option ℕ → List Event → Gateway → Run (Gateway × List Effect)
  unfolding prepare
  connection_loop zero spare ev g = fault no_rounds
  connection_loop (suc rounds) spare ev g = elim (read_packet buffer_size ev) [
    | packet text ev' ↦
        handle_session_message env (prepare spare g).0 (c_str text) (prepare spare g).1 >>= λ r.
        connection_loop rounds (if r.0 then none else some (prepare spare g).0) ev' r.1 >>= λ t.
        ok (t.0, r.2 ++ t.1)
    | closed ev' ↦ ok ((prepare spare g).1, [])
    | refused ev' ↦ ok ((prepare spare g).1, [])
    | unfinished ↦ fault no_rounds
  ]

  -- `connectToSignalingGateway`: the gateway tells its name first.
  unfoldable pub connect_to_signaling_gateway :
      ℕ → List Event → Gateway → Run (Gateway × List Effect)
  unfolding connection_loop
  connect_to_signaling_gateway rounds ev g = do
    hello ← send_packet_to_sg env.send_fails (codes "MEDIA_GATEWAY")
    (g', sent) ← connection_loop rounds none ev g
    ok (g', hello ++ sent)

-- The bytes are the frames of these messages, one behind the other, as `sendPacket` makes them.
unfoldable pub IsFramed : List Text → List ℕ → Type 0
IsFramed [] bytes = bytes ≡ []
IsFramed (m ∷ ms) bytes =
    (frame : List ℕ) × (rest : List ℕ) × (send_packet m ≡ sends frame)
    × (bytes ≡ frame ++ rest)
    × IsFramed ms rest

at_end :
    (ev : List Event)
    → IsClean ev
    → bytes_of ev ≡ []
    → (rest : List Event) × (read_packet buffer_size ev ≡ closed rest)
unfolding read_packet
at_end ev c e =
    let (rest, read, left, clean) = readn_takes 4 ev c in (rest, rw (read_packet, rw e at read))

bind_same {ℓ κ} :
    {A : Type ℓ} {B : Type κ} (m : Run A) (f g : A → Run B)
    → ((a : A) → f a ≡ g a)
    → (m >>= f) ≡ (m >>= g)
bind_same (ok a) f g h = h a
bind_same (fault e) f g h = refl

module _ (env : Env) (resources : ℕ → Resources) where
  -- A round of `serve` at a text that is not empty.
  serve_round :
      (spare : Option ℕ) (text : Text) (texts : List Text) (g : Gateway)
      → 0 < length text
      → serve env resources spare (text ∷ texts) g ≡ (
          handle_session_message env
            (prepare env resources spare g).0
            (c_str text)
            (prepare env resources spare g).1
          >>= λ r.
              serve env resources
                (if r.0 then none else some (prepare env resources spare g).0)
                texts
                r.1
              >>= λ t. ok (t.0, r.2 ++ t.1))
  unfolding serve prepare
  serve_round spare [] texts g h = absurd (omega arith)
  serve_round none (c ∷ cs) texts g h = refl
  serve_round (some p) (c ∷ cs) texts g h = refl

  serve_end :
      (spare : Option ℕ) (g : Gateway)
      → serve env resources spare ([] ∷ []) g ≡ ok ((prepare env resources spare g).1, [])
  unfolding serve prepare
  serve_end none g = refl
  serve_end (some p) g = refl

  -- On a stream that does not break, the bytes of which are the frames of some messages, however it
  -- is cut, the loop handles exactly these messages in their order and then ends, in as many rounds
  -- as there are messages and one more.
  pub connection_loop-serve :
      (msgs : List Text) (rounds : ℕ) (spare : Option ℕ) (ev : List Event) (g : Gateway)
      → length msgs < rounds
      → IsClean ev
      → IsFramed msgs (bytes_of ev)
      → connection_loop env resources rounds spare ev g
        ≡ serve env resources spare (map c_str msgs ++ [] ∷ []) g
  unfolding connection_loop IsFramed
  connection_loop-serve msgs zero spare ev g enough clean framed = absurd (omega arith)
  connection_loop-serve [] (suc rounds) spare ev g enough clean framed =
      let (rest, e) = at_end ev clean framed in rw (connection_loop, e, serve_end spare g)
  connection_loop-serve (m ∷ ms) (suc rounds) spare ev g enough clean
        (frame, behind, sent, shape, framed) =
      let (rest, read, left, clean') = read_packet-send_packet m frame behind ev sent clean shape in
      let nonempty : 0 < length (c_str m) = (frame_of m frame sent).0 in
      rw (connection_loop, read, serve_round spare (c_str m) (map c_str ms ++ [] ∷ []) g nonempty)
        (bind_same
          (handle_session_message env (prepare env resources spare g).0 (c_str (c_str m))
            (prepare env resources spare g).1)
          _ _
          (λ r.
            ap (λ (x : Run (Gateway × List Effect)). x >>= λ t. ok (t.0, r.2 ++ t.1))
              (connection_loop-serve ms rounds
                (if r.0 then none else some (prepare env resources spare g).0) rest r.1
                (omega arith) clean' (subst (IsFramed ms) (sym left) framed))))
