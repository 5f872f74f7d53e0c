-- ===== src/Tests/Calls.antt =====
-- src/mediagateway.cpp at concrete inputs.
use media_gateway_v4_7_1_sde.Base.{
  ℕ, ◌≡◌, ◌≢◌, refl, ap, arith, Bool, false, none, some, List, [], ◌∷◌, Text, codes, Run, ok, fault,
  abort, map_find, map_assign, map_erase, nat_eq,
}
use media_gateway_v4_7_1_sde.Text.{text_eq, eq_text}
use media_gateway_v4_7_1_sde.Messages.{message_value, SessionMessage, offer, shutdown_r}
use media_gateway_v4_7_1_sde.Agents.{Effect, main_codecs}
use media_gateway_v4_7_1_sde.Agents.Codec.{run}
use media_gateway_v4_7_1_sde.Timer.{new_timers}
use media_gateway_v4_7_1_sde.Session.{
  Env, Session, Agents, new_session, is_session_stop, destroy_session,
}
use media_gateway_v4_7_1_sde.Gateway.{
  Gateway, new_gateway, deref, dispatch, serve, dispatch_at, on_message, delete_object,
}
use media_gateway_v4_7_1_sde.Gateway.Objects.{register-Owned, fresh-Owned}
use media_gateway_v4_7_1_sde.Gateway.Ownership.{OwnedBy, new_gateway-Owned}
use media_gateway_v4_7_1_sde.Gateway.Dispatch.{second_offer_aborts}
use media_gateway_v4_7_1_sde.Tests.Fixtures.{new_agents, json_of, env, resources, message_of}

abbrev pub a_session : Session
a_session = new_session env resources []

-- A session whose converters run.
abbrev pub talking : Session
talking = record a_session {
  agents = some (record new_agents {
    web_to_ims =
        (run main_codecs (λ p codec. some (codes "server", 40000)) 0 new_agents.web_to_ims).0;
    ims_to_web =
        (run main_codecs (λ p codec. some (codes "server", 40000)) 0 new_agents.ims_to_web).0;
  });
}

-- Two calls, `a` at 1 and `b` at 2, and the session 3 in advance.
abbrev pub two_calls : Gateway
two_calls = record {
  sessions = map_assign (codes "b") 2 (map_assign (codes "a") 1 []);
  heap = map_assign 3 a_session (map_assign 2 talking (map_assign 1 a_session []));
  next = 4;
  timers = new_timers;
}

pub two_calls-Owned : OwnedBy (some 3) two_calls
unfolding map_find map_assign eq_text
two_calls-Owned = fresh-Owned _ _ 3 a_session (
    register-Owned (codes "b") 2 refl refl (
      fresh-Owned _ _ 2 talking
        (register-Owned (codes "a") 1 refl refl (fresh-Owned [] [] 1 a_session new_gateway-Owned))))

abbrev pub shutdown_b : SessionMessage
shutdown_b = message_of shutdown_r (codes "b") []

-- The process when `b` was shut down.
abbrev one_call : Gateway
one_call = record two_calls {
  sessions = map_erase (codes "b") two_calls.sessions;
  heap = map_erase 2 two_calls.heap;
}

a_is_not_b : codes "a" ≢ codes "b"
a_is_not_b e = omega (arith, ap first e)
  where
    first : Text → ℕ
    first [] = 0
    first (c ∷ cs) = c

-- The result of a run that ends well.
abbrev pub result_of : {A : Type 0} → A → Run A → A
result_of other (ok a) = a
result_of other (fault e) = other

-- An offer of the IMS with a description of no lines.
abbrev offer_c : SessionMessage
offer_c = message_of offer (codes "c") []

abbrev offered : Bool × Gateway × List Effect
offered = result_of (false, new_gateway, []) (dispatch env 3 offer_c [] two_calls)

second_offer_aborts_example : dispatch env 4 offer_c (codes "crypto") offered.1 ≡ fault abort
unfolding dispatch map_find map_assign eq_text media_gateway_v4_7_1_sde.Gateway.on_offer deref
    media_gateway_v4_7_1_sde.Gateway.is_from_browser media_gateway_v4_7_1_sde.Text.contains
    media_gateway_v4_7_1_sde.Text.find media_gateway_v4_7_1_sde.Text.search
    media_gateway_v4_7_1_sde.Session.Handlers.handle_offer_from_ims new_session
    media_gateway_v4_7_1_sde.Agents.Ims.handle_sdp_from_ims
    media_gateway_v4_7_1_sde.Sdp.audio_supported media_gateway_v4_7_1_sde.Agents.Ims.session_type
second_offer_aborts_example =
    second_offer_aborts env [] (codes "crypto") offer_c offer_c 3 4 two_calls {r = offered} refl
      refl refl refl refl

-- A library whose one text is the offer of the call `c`.
abbrev pub offer_env : Env
offer_env = record env { json = json_of (codes "{}") (message_value env.json offer_c) }

abbrev pub served : Gateway × List Effect
served =
    result_of (new_gateway, [])
      (serve offer_env (λ n. resources) none (codes "{}" ∷ []) new_gateway)

-- A call with two timers.
abbrev two_timers : Gateway
two_timers = record one_call {
  timers = record {
    tpool =
        (1, record { timeout = 30; para = 1; id = 1 })
        ∷ (2, record { timeout = 30; para = 1; id = 2 })
        ∷ [];
    cnt = 2;
  };
}
