-- ===== src/Tests/Processes.antt =====
-- The whole process at concrete inputs: src/mediagateway.cpp over src/etcp.cpp, and its threads.
use media_gateway_v4_7_1_sde.Base.{
  ℕ, ◌≡◌, ◌≢◌, refl, arith, Bool, true, false, none, some, List, [], ◌∷◌, ◌++◌, Text, codes, be32,
  pos, ok, ◌>>=◌, map_find, map_assign, nat_eq,
}
use media_gateway_v4_7_1_sde.Text.{text_eq, eq_text}
use media_gateway_v4_7_1_sde.Etcp.{Event, segment, interrupted, c_str, send_packet}
use media_gateway_v4_7_1_sde.Messages.{SessionMessage}
use media_gateway_v4_7_1_sde.Agents.{Effect}
use media_gateway_v4_7_1_sde.Session.{Session, new_session}
use media_gateway_v4_7_1_sde.Gateway.{
  Gateway, new_gateway, deref, dispatch, serve, allocate, handle_session_message,
}
use media_gateway_v4_7_1_sde.Gateway.Table.{table, observed, this_address, table_step}
use media_gateway_v4_7_1_sde.Gateway.Refinement.{dispatch-table_step}
use media_gateway_v4_7_1_sde.Gateway.Steps.{Process, Reach, at_start, and_then, allocates, receives}
use media_gateway_v4_7_1_sde.Gateway.Steps.Reachable.{Reach-owned}
use media_gateway_v4_7_1_sde.Gateway.Connection.{connection_loop, IsFramed, connection_loop-serve}
use media_gateway_v4_7_1_sde.Etcp.Sockets.{Resolver}
use media_gateway_v4_7_1_sde.Main.{main, with_main_codecs, after_hello, main-serve}
use media_gateway_v4_7_1_sde.Tests.Fixtures.{env, resources}
use media_gateway_v4_7_1_sde.Tests.Calls.{
  a_session, talking, two_calls, two_calls-Owned, shutdown_b, result_of, offer_env,
}

dispatch-table_step_example :
    ((dispatch env 3 shutdown_b [] two_calls >>= observed (codes "b"))
      ≡ table_step env 2 two_calls.timers a_session [] shutdown_b (table two_calls (codes "b")))
    × ((r : Bool × Gateway × List Effect)
        → dispatch env 3 shutdown_b [] two_calls ≡ ok r
        → (r.0 ≡ false) × ((j : Text) → j ≢ codes "b" → table r.1 j ≡ table two_calls j))
unfolding this_address map_find map_assign eq_text
dispatch-table_step_example =
    dispatch-table_step env [] shutdown_b 3 two_calls a_session two_calls-Owned refl

-- `a` is answered, and has a timer beside the one that its session knows.
abbrev timed : Gateway
timed = record two_calls {
  heap = map_assign 1 talking two_calls.heap;
  timers = record { tpool = (1, record { timeout = 30; para = 1; id = 1 }) ∷ []; cnt = 1 };
}

-- The frame of one message, cut in two, with an interrupted call before it.
abbrev events : List Event
events = interrupted ∷ segment 0 (0 ∷ 0 ∷ []) ∷ segment 2 (codes "{}") ∷ []

connection_loop-serve_example :
    connection_loop offer_env (λ n. resources) 2 none events new_gateway
    ≡ serve offer_env (λ n. resources) none (codes "{}" ∷ [] ∷ []) new_gateway
unfolding IsFramed send_packet c_str
connection_loop-serve_example =
    connection_loop-serve offer_env (λ n. resources) (codes "{}" ∷ []) 2 none events new_gateway
      (omega arith) tt (be32 2 ++ codes "{}", [], refl, refl, refl)

-- A resolver that knows addresses of the first network.
abbrev resolver : Resolver
resolver = record {
  inet_addr = λ host. 10;
  gethostbyname = λ host. none;
  getservbyname = λ port protocol. none;
}

main-serve_example : main resolver offer_env (λ n. resources) 2 (pos 3) false events ≡ (
    serve (with_main_codecs offer_env) (λ n. resources) none (codes "{}" ∷ [] ∷ []) new_gateway
    >>= after_hello)
unfolding IsFramed send_packet c_str
main-serve_example =
    main-serve resolver offer_env (λ n. resources) (codes "{}" ∷ []) 2 3 events (omega arith)
      (omega arith) tt (be32 2 ++ codes "{}", [], refl, refl, refl)

-- The loop has made a session; libnice has gathered no candidate for it; the packet is an offer.
abbrev prepared : Process
prepared = record { gateway = (allocate offer_env resources new_gateway).1; spare = some 1 }

abbrev handled : Bool × Gateway × List Effect
handled =
    result_of (false, new_gateway, [])
      (handle_session_message offer_env 1 (c_str (codes "{}")) prepared.gateway)

offered-Reach : Reach offer_env (λ n. resources) (record { gateway = handled.1; spare = none })
unfolding handle_session_message media_gateway_v4_7_1_sde.Messages.parser_session_message eq_text
    c_str media_gateway_v4_7_1_sde.Messages.parse_value media_gateway_v4_7_1_sde.Messages.read_field
    media_gateway_v4_7_1_sde.Messages.message_value media_gateway_v4_7_1_sde.Messages.roap_value
    media_gateway_v4_7_1_sde.Messages.parse_roap media_gateway_v4_7_1_sde.Messages.read_sdp
    media_gateway_v4_7_1_sde.Messages.sdp_value media_gateway_v4_7_1_sde.Messages.optional
    media_gateway_v4_7_1_sde.Messages.value_of_null dispatch map_find new_session allocate
    map_assign media_gateway_v4_7_1_sde.Gateway.on_offer deref
    media_gateway_v4_7_1_sde.Gateway.is_from_browser media_gateway_v4_7_1_sde.Text.contains
    media_gateway_v4_7_1_sde.Text.find media_gateway_v4_7_1_sde.Text.search
    media_gateway_v4_7_1_sde.Session.Handlers.handle_offer_from_ims
    media_gateway_v4_7_1_sde.Agents.Ims.handle_sdp_from_ims
    media_gateway_v4_7_1_sde.Sdp.audio_supported media_gateway_v4_7_1_sde.Agents.Ims.session_type
offered-Reach =
    and_then (and_then at_start (allocates refl))
      (receives (codes "{}") {used = true} {g = handled.1} {sent = handled.2} refl refl)

Reach-owned_example :
    ((i : Text) (p : ℕ)
      → map_find i handled.1.sessions ≡ some p
      → (s : Session) × (deref p handled.1 ≡ ok s))
    × ((i j : Text) (p : ℕ)
        → map_find i handled.1.sessions ≡ some p
        → map_find j handled.1.sessions ≡ some p
        → i ≡ j)
    × ((i : Text) (p : ℕ) → none ≡ some p → map_find i handled.1.sessions ≢ some p)
Reach-owned_example = Reach-owned offer_env (λ n. resources) offered-Reach
