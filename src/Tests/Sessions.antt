-- ===== src/Tests/Sessions.antt =====
-- src/mediasession.cpp and src/webagent.cpp at concrete inputs.
use media_gateway_v4_7_1_sde.Sdp.{video}
use media_gateway_v4_7_1_sde.Base.{
  inl, ◌≡◌, refl, none, some, List, [], ◌∷◌, ◌++◌, replicate, codes, ok,
}
use media_gateway_v4_7_1_sde.Messages.{SessionMessage, offer, candidate}
use media_gateway_v4_7_1_sde.Agents.{Effect, remote_candidates}
use media_gateway_v4_7_1_sde.Agents.Ims.{new_ims_agent, run_ims, create_sdp_to_ims}
use media_gateway_v4_7_1_sde.Agents.Web.{WebAgent, new_web_agent, set_remote_candidates}
use media_gateway_v4_7_1_sde.Agents.Web.Remote.{hosts, remote_candidates_freed}
use media_gateway_v4_7_1_sde.Rtp.{new_converter}
use media_gateway_v4_7_1_sde.Timer.{Timers, new_timers}
use media_gateway_v4_7_1_sde.Session.{
  send_message, with_sdp, Session, Agents, new_session, is_session_stop, delete_session,
  check_media_flow,
}
use media_gateway_v4_7_1_sde.Session.Handlers.{handle_offer_from_web, session_candidate_from_web}
use media_gateway_v4_7_1_sde.Session.Forward.{signalled, offer_goes_with_last_candidate}
use media_gateway_v4_7_1_sde.Session.Flow.{Quiet, silent_session_stops}
use media_gateway_v4_7_1_sde.Tests.Fixtures.{new_agents, host_line, env, nice, message_of}
use media_gateway_v4_7_1_sde.Tests.Calls.{a_session, result_of}

-- The agents of a session that has just been made, when each has counted a packet.
abbrev heard : Session → Session
heard s = elim s.agents [
  | none ↦ s
  | some a ↦ record s {
    agents =
        some (record a { web = record a.web { curcnt = 1 }; ims = record a.ims { curcnt = 1 } });
  }
]

abbrev checked : Session × Timers
checked = result_of (a_session, new_timers) (check_media_flow 1 (heard a_session) new_timers)

-- What a further candidate of the browser leaves of the session's agents.
abbrev later_agents : Agents
later_agents = elim checked.0.agents [
  | none ↦ new_agents
  | some a ↦ record a { web = record a.web { remote_rtp_candidates = host_line ∷ [] } }
]

abbrev later_session : Session
later_session = record checked.0 { agents = some later_agents; session_type = video }

abbrev checked_agents : Agents
checked_agents = elim checked.0.agents [ none ↦ new_agents | some a ↦ a ]

silent_session_stops_example :
    check_media_flow 1 later_session new_timers ≡ ok (delete_session later_session, new_timers)
unfolding check_media_flow new_session Quiet media_gateway_v4_7_1_sde.Agents.Web.web_period_data
    new_web_agent media_gateway_v4_7_1_sde.Agents.Ims.ims_period_data run_ims new_ims_agent
silent_session_stops_example =
    silent_session_stops 1 (heard a_session) checked.0 later_session new_timers checked.1 new_timers
      checked_agents later_agents refl refl refl (inl (refl, refl))

abbrev two_hosts : WebAgent
two_hosts = record (new_web_agent 0 [] [] (new_converter [] [])) {
  remote_rtp_candidates = host_line ∷ host_line ∷ [];
}

remote_candidates_freed_example :
    result_of [] (set_remote_candidates nice (record { next = 1; cells = [] }) two_hosts)
    ≡ remote_candidates 1 (replicate (hosts two_hosts.remote_rtp_candidates) none)
      ∷ remote_candidates 2 (replicate (hosts two_hosts.remote_rtcp_candidates) none)
      ∷ []
unfolding set_remote_candidates media_gateway_v4_7_1_sde.Candidate.new_candidate
    media_gateway_v4_7_1_sde.Candidate.candidate_fields media_gateway_v4_7_1_sde.Text.is_prefix
    media_gateway_v4_7_1_sde.Candidate.scan_one media_gateway_v4_7_1_sde.Candidate.scan_word
    media_gateway_v4_7_1_sde.Candidate.some_field media_gateway_v4_7_1_sde.Candidate.word
    media_gateway_v4_7_1_sde.Text.skip_spaces media_gateway_v4_7_1_sde.Candidate.scan_int
    media_gateway_v4_7_1_sde.Candidate.digits media_gateway_v4_7_1_sde.Candidate.sign_of
    media_gateway_v4_7_1_sde.Text.is_digit new_web_agent
remote_candidates_freed_example =
    remote_candidates_freed nice (record { next = 1; cells = [] }) two_hosts tt refl

-- An offer before its last candidate.
abbrev web_offer : SessionMessage
web_offer = message_of offer (codes "c") (codes "crypto")

abbrev last_candidate : SessionMessage
last_candidate = message_of candidate (codes "c") []

abbrev first_step : Session × List Effect
first_step = result_of (a_session, []) (handle_offer_from_web env web_offer a_session)

abbrev second_step : Session × List Effect
second_step = result_of (a_session, []) (session_candidate_from_web env last_candidate first_step.0)

offer_goes_with_last_candidate_example :
    (signalled first_step.1 ≡ 0)
    × (sent : List Effect) × (cands : List Effect) × (send_message env
          (with_sdp (create_sdp_to_ims env.sip first_step.0.session_type new_agents.ims) web_offer)
        ≡ ok sent)
    × (second_step.1 ≡ cands ++ sent)
unfolding new_session new_web_agent handle_offer_from_web
    media_gateway_v4_7_1_sde.Agents.Web.handle_sdp_from_web
    media_gateway_v4_7_1_sde.Sdp.audio_supported media_gateway_v4_7_1_sde.Text.find
    media_gateway_v4_7_1_sde.Text.search media_gateway_v4_7_1_sde.Text.contains
    session_candidate_from_web media_gateway_v4_7_1_sde.Agents.Web.handle_candidate_from_web
    media_gateway_v4_7_1_sde.Session.Handlers.send_offer_or_answer_to_ims set_remote_candidates
    send_message media_gateway_v4_7_1_sde.Etcp.send_packet media_gateway_v4_7_1_sde.Etcp.c_str
    media_gateway_v4_7_1_sde.Messages.package_session_message
offer_goes_with_last_candidate_example =
    offer_goes_with_last_candidate env web_offer last_candidate a_session first_step.0 second_step.0
      new_agents first_step.1 second_step.1 refl refl refl refl refl
