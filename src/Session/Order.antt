-- ===== src/Session/Order.antt =====
-- src/mediasession.cpp: an offer of the browser and its last candidate, in either order.
use media_gateway_v4_7_1_sde.Base.{◌≡◌, Bool, true, some, List, [], ◌++◌, Text, Run, ok, ◌>>=◌}
use media_gateway_v4_7_1_sde.Sdp.{SessionType}
use media_gateway_v4_7_1_sde.Messages.{SessionMessage}
use media_gateway_v4_7_1_sde.Agents.{Effect}
use media_gateway_v4_7_1_sde.Agents.Web.{WebAgent, handle_sdp_from_web}
use media_gateway_v4_7_1_sde.Session.{Env, Session, Agents}
use media_gateway_v4_7_1_sde.Session.Handlers.{
  send_offer_or_answer_to_ims, handle_offer_from_web, session_candidate_from_web,
}

-- The agent when the last candidate has come.
abbrev complete : WebAgent → WebAgent
complete w = record w { last_candidate_arrived = true }

abbrev Sdp : Type 0
Sdp = Bool × SessionType × WebAgent × List Effect

abbrev late : Bool × WebAgent → Run (Bool × WebAgent)
late r = ok (r.0, complete r.1)

abbrev with_effects : List Effect → SessionType → Bool × WebAgent → Run Sdp
with_effects effects stype r = ok (r.0, stype, r.1, effects)

abbrev late_sdp : Sdp → Run Sdp
late_sdp r = ok (r.0, r.1, complete r.2, r.3)

abbrev result : Session → List Effect → List Effect → Run (Session × List Effect)
result s c sent = ok (s, c ++ sent)

abbrev behind : List Effect → Session × List Effect → Run (Session × List Effect)
behind c t = ok (t.0, c ++ t.1)

abbrev pub offer_then_last :
    Env → SessionMessage → SessionMessage → Session → Run (Session × List Effect)
offer_then_last env msg last s =
    handle_offer_from_web env msg s >>= λ r. session_candidate_from_web env last r.0 >>= behind r.1

abbrev pub last_then_offer :
    Env → SessionMessage → SessionMessage → Session → Run (Session × List Effect)
last_then_offer env msg last s =
    session_candidate_from_web env last s >>= λ r. handle_offer_from_web env msg r.0 >>= behind r.1

module _ (env : Env) (msg last : SessionMessage) (s : Session) (a : Agents) (stype : SessionType)
    (web : WebAgent) (cred : List Effect) (here : s.agents ≡ some a) (empty : last.roap.sdp ≡ [])
    (read : handle_sdp_from_web msg.roap.sdp a.web ≡ ok (true, stype, web, cred)) where
  -- The session behind both messages.
  abbrev both : WebAgent → Session
  both w = record s {
    original_offer = msg;
    web_caller_flag = true;
    session_type = stype;
    agents = some (record a { web = w });
    web_offer_or_answer_arrived = true;
  }

  abbrev outcome : Run (Session × List Effect)
  outcome = send_offer_or_answer_to_ims env (both (complete web)) >>= λ sent.
      ok (both (complete web), cred ++ sent)
