-- ===== src/Main.antt =====
-- src/media_gateway.cpp: the program from its start to the end of its connection. The thread of
-- `SubMG::run` that it starts is in SubMg/System.
use media_gateway_v4_7_1_sde.Base.{
  ℕ, ◌<◌, ◌≡◌, ◌≢◌, Bool, Bool-cases, inl, inr, refl, if◌then◌else◌, false, none, List, [], ◌∷◌,
  ◌++◌, length, map, Text, codes, ℤ, pos, ne→==, be32, Run, ok, fault, abort, ◌>>=◌,
}
use media_gateway_v4_7_1_sde.Etcp.{Event, c_str, send_packet}
use media_gateway_v4_7_1_sde.Etcp.Stream.{bytes_of, IsClean}
use media_gateway_v4_7_1_sde.Etcp.Sockets.{
  Resolver, Sockaddr, set_address, host_address, port_number, strtol, magnitude, read_number,
  digit_in, tcp_client,
}
use media_gateway_v4_7_1_sde.Agents.{Effect, to_signalling, main_codecs}
use media_gateway_v4_7_1_sde.Session.{Env, Resources, send_packet_to_sg}
use media_gateway_v4_7_1_sde.Gateway.{Gateway, new_gateway, serve}
use media_gateway_v4_7_1_sde.Gateway.Connection.{
  connect_to_signaling_gateway, IsFramed, connection_loop-serve,
}

abbrev pub with_main_codecs : Env → Env
with_main_codecs env = record env { sip = main_codecs }

-- `main`, with what `socket` returns, whether `connect` fails, and what `recv` meets on the socket.
unfoldable pub main :
    Resolver → Env → (ℕ → Resources) → ℕ → ℤ → Bool → List Event → Run (Gateway × List Effect)
main os env resources rounds socket connect_fails ev = do
  (sock, peer) ← tcp_client os socket connect_fails (codes "10.109.247.134") (codes "9870")
  connect_to_signaling_gateway (with_main_codecs env) resources rounds ev new_gateway

-- What goes out first.
abbrev pub hello_frame : List ℕ
hello_frame = be32 13 ++ codes "MEDIA_GATEWAY"

abbrev pub hello : Effect
hello = to_signalling hello_frame

abbrev pub after_hello : Gateway × List Effect → Run (Gateway × List Effect)
after_hello r = ok (r.0, hello ∷ r.1)

connects :
    (os : Resolver) (n : ℕ)
    → os.inet_addr (codes "10.109.247.134") ≢ 0xffffffff
    → (a : ℤ × Sockaddr) × (tcp_client os (pos n) false (codes "10.109.247.134") (codes "9870")
        ≡ ok a)
unfolding tcp_client set_address host_address port_number strtol magnitude read_number digit_in
    media_gateway_v4_7_1_sde.Text.skip_spaces media_gateway_v4_7_1_sde.Text.is_space
connects os n known = (
  (pos n, record { sin_addr = os.inet_addr (codes "10.109.247.134"); sin_port = 9870 }),
  rw (ne→== (os.inet_addr (codes "10.109.247.134")) 0xffffffff known),
)

-- If the address of the signalling gateway is one, and the socket can be opened and connected, and
-- its stream does not break and is made of the frames of some messages, then the program first sends
-- its name in a frame and then handles exactly these messages in their order, with H264 on, and ends,
-- in as many rounds as there are messages and one more; if the name cannot be sent, it ends at once.
pub main-serve :
    (os : Resolver) (env : Env) (resources : ℕ → Resources) (msgs : List Text) (rounds n : ℕ)
    (ev : List Event)
    → os.inet_addr (codes "10.109.247.134") ≢ 0xffffffff
    → length msgs < rounds
    → IsClean ev
    → IsFramed msgs (bytes_of ev)
    → main os env resources rounds (pos n) false ev ≡ (
        if env.send_fails hello_frame
        then fault abort
        else (serve (with_main_codecs env) resources none (map c_str msgs ++ [] ∷ []) new_gateway
            >>= after_hello))
unfolding main connect_to_signaling_gateway send_packet_to_sg send_packet c_str
main-serve os env resources msgs rounds n ev known enough clean framed =
    rw ((connects os n known).1) (elim (Bool-cases (env.send_fails hello_frame)) [
      | inl down ↦ rw down refl
      | inr up ↦ rw (
        up,
        connection_loop-serve (with_main_codecs env) resources msgs rounds none ev new_gateway
            enough clean framed,
      )
    ])
