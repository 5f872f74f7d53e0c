-- ===== src/Session/Handlers.antt =====
-- src/mediasession.cpp: what a session does with each kind of message, and what it sends.
use media_gateway_v4_7_1_sde.Base.{
  ℕ, true, false, some, List, [], ◌∷◌, ◌++◌, if◌then◌else◌, Text, Run, ok, ◌>>=◌,
}
use media_gateway_v4_7_1_sde.Sdp.{SessionType}
use media_gateway_v4_7_1_sde.Messages.{SessionMessage}
use media_gateway_v4_7_1_sde.Agents.{Effect}
use media_gateway_v4_7_1_sde.Agents.Codec.{run}
use media_gateway_v4_7_1_sde.Agents.Web.{
  handle_candidate_from_web, set_remote_candidates, handle_sdp_from_web, web_tailing_jobs,
}
use media_gateway_v4_7_1_sde.Agents.Web.Describe.{create_sdp_to_web}
use media_gateway_v4_7_1_sde.Agents.Ims.{create_sdp_to_ims, handle_sdp_from_ims}
use media_gateway_v4_7_1_sde.Timer.{Timers, set_timer}
use media_gateway_v4_7_1_sde.Session.{
  Env, Agents, Session, flow_timeout, get_agents, with_sdp, as_candidate, send_message,
}

module _ (env : Env) where
  open env use {json, nice, srtp, sip}

  -- `sendOfferOrAnswerToIMS`
  unfoldable pub send_offer_or_answer_to_ims : Session → Run (List Effect)
  send_offer_or_answer_to_ims s =
      if s.web_offer_or_answer_arrived
      then (get_agents s.agents >>= λ a.
          if a.web.last_candidate_arrived
          then (set_remote_candidates nice env.heap a.web >>= λ cands.
              send_message env (
                with_sdp (create_sdp_to_ims sip s.session_type a.ims)
                  (if s.web_caller_flag then s.original_offer else s.original_answer))
              >>= λ sent. ok (cands ++ sent))
          else ok [])
      else ok []

  -- `doTailingJobs`; `this` is the session's address.
  unfoldable pub do_tailing_jobs : ℕ → Session → Timers → Run (Session × Timers × List Effect)
  do_tailing_jobs this s timers = do
    a ← get_agents s.agents
    web ← web_tailing_jobs srtp a.web
    let c1 = run sip env.ffmpeg_reply env.unset_port a.ims_to_web
    let c2 = run sip env.ffmpeg_reply env.unset_port a.web_to_ims
    let t = set_timer flow_timeout this timers
    ok (
      record s {
        agents = some (record a { web = web; ims_to_web = c1.0; web_to_ims = c2.0 });
        timer_id = t.0;
      },
      t.1,
      c1.1 ++ c2.1,
    )

  -- `sendCandidatesToWeb`
  unfoldable pub send_candidates_to_web : List Text → SessionMessage → Run (List Effect)
  send_candidates_to_web [] msg = ok []
  send_candidates_to_web (line ∷ lines) msg = do
    sent ← send_message env (as_candidate line msg)
    more ← send_candidates_to_web lines msg
    ok (sent ++ more)

  -- `for(int i = 0; i < 3; ++i) sendCandidatesToWeb(...)`
  unfoldable pub send_candidates_thrice : List Text → SessionMessage → Run (List Effect)
  unfolding send_candidates_to_web
  send_candidates_thrice lines msg = do
    e1 ← send_candidates_to_web lines msg
    e2 ← send_candidates_to_web lines msg
    e3 ← send_candidates_to_web lines msg
    ok (e1 ++ (e2 ++ e3))

  unfoldable pub handle_offer_from_web : SessionMessage → Session → Run (Session × List Effect)
  handle_offer_from_web msg s = do
    a ← get_agents s.agents
    (supported, stype, web, cred) ← handle_sdp_from_web msg.roap.sdp a.web
    let s' : Session = record s {
      original_offer = msg;
      web_caller_flag = true;
      session_type = stype;
      agents = some (record a { web = web });
      web_offer_or_answer_arrived = true;
    }
    sent ← if supported then send_offer_or_answer_to_ims s' else ok []
    ok (s', cred ++ sent)

  -- What `handleAnswerFromIMS` and `handleOfferFromIMS` send to the browser: `msg` with the
  -- gateway's description, and three times the local candidates.
  unfoldable pub describe_to_web : SessionMessage → SessionType → Agents → Run (List Effect)
  unfolding send_candidates_thrice
  describe_to_web msg stype a = do
    sdp ← create_sdp_to_web stype a.web
    sent ← send_message env (with_sdp sdp msg)
    cands ← send_candidates_thrice a.web.local_candidates msg
    ok (sent ++ cands)

  unfoldable pub handle_answer_from_ims :
      ℕ → SessionMessage → Session → Timers → Run (Session × Timers × List Effect)
  handle_answer_from_ims this msg s timers = do
    a ← get_agents s.agents
    (supported, stype, ims) ←
        handle_sdp_from_ims sip env.unset_port env.unset_port msg.roap.sdp a.ims
    let a' : Agents = record a { ims = ims }
    let s' : Session = record s { original_answer = msg; session_type = stype; agents = some a' }
    if supported
        then (describe_to_web msg stype a' >>= λ sent.
            do_tailing_jobs this s' timers >>= λ r. ok (r.0, r.1, sent ++ r.2))
        else ok (s', timers, [])

  unfoldable pub handle_offer_from_ims : SessionMessage → Session → Run (Session × List Effect)
  handle_offer_from_ims msg s = do
    a ← get_agents s.agents
    (supported, stype, ims) ←
        handle_sdp_from_ims sip env.unset_port env.unset_port msg.roap.sdp a.ims
    let a' : Agents = record a { ims = ims }
    let s' : Session = record s {
      original_offer = msg;
      web_caller_flag = false;
      session_type = stype;
      agents = some a';
    }
    if supported then (describe_to_web msg stype a' >>= λ sent. ok (s', sent)) else ok (s', [])

  unfoldable pub handle_answer_from_web :
      ℕ → SessionMessage → Session → Timers → Run (Session × Timers × List Effect)
  handle_answer_from_web this msg s timers = do
    a ← get_agents s.agents
    (supported, stype, web, cred) ← handle_sdp_from_web msg.roap.sdp a.web
    let s' : Session = record s {
      original_answer = msg;
      session_type = stype;
      agents = some (record a { web = web });
      web_offer_or_answer_arrived = true;
    }
    if supported
        then (send_offer_or_answer_to_ims s' >>= λ sent.
            do_tailing_jobs this s' timers >>= λ r. ok (r.0, r.1, cred ++ (sent ++ r.2)))
        else ok (s', timers, cred)

  unfoldable pub session_candidate_from_web : SessionMessage → Session → Run (Session × List Effect)
  session_candidate_from_web msg s = do
    a ← get_agents s.agents
    (last, web) ← handle_candidate_from_web nice msg.roap.sdp a.web
    let s' : Session = record s { agents = some (record a { web = web }) }
    if last then (send_offer_or_answer_to_ims s' >>= λ sent. ok (s', sent)) else ok (s', [])
