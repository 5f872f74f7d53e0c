-- ===== src/Tests/Order.antt =====
-- src/webagent.cpp and src/mediasession.cpp: orders of events at concrete inputs.
use media_gateway_v4_7_1_sde.Base.{
  ◌≡◌, refl, List, true, false, [], ◌∷◌, ◌++◌, ◌||◌, replicate, codes, ok, arith,
}
use media_gateway_v4_7_1_sde.Messages.{SessionMessage, offer, candidate}
use media_gateway_v4_7_1_sde.Candidate.{candidate_lines}
use media_gateway_v4_7_1_sde.Agents.Web.{WebAgent, new_web_agent}
use media_gateway_v4_7_1_sde.Agents.Web.Thread.{
  Callback, new_candidate, gathered, state_changed, serving, start_ice, after_callbacks,
}
use media_gateway_v4_7_1_sde.Agents.Web.Thread.Serving.{makes_ready, start_ice_serves}
use media_gateway_v4_7_1_sde.Tests.Fixtures.{new_agents, message_of}
use media_gateway_v4_7_1_sde.Tests.Timers.{audio_sdp}

abbrev callbacks : List Callback
callbacks = (new_candidate ∷ []) ++ gathered [] ∷ (state_changed 1 4 ∷ [])

abbrev reported : WebAgent
reported = after_callbacks 4 callbacks new_agents.web

-- Gathering begins at the second try; the RTP component is ready (4) behind the report.
start_ice_serves_example :
    (start_ice 4 1 (replicate 1 false ++ true ∷ []) callbacks new_agents.web
      ≡ ok (serving reported))
    × (reported.local_candidates ≡ new_agents.web.local_candidates ++ candidate_lines [])
    × (reported.is_ready ≡ (new_agents.web.is_ready || makes_ready 4 callbacks))
unfolding new_web_agent
start_ice_serves_example =
    start_ice_serves 4 1 1 [] (new_candidate ∷ []) (state_changed 1 4 ∷ []) [] new_agents.web
      (omega arith) tt tt refl

abbrev web_offer : SessionMessage
web_offer = message_of offer (codes "c") audio_sdp

abbrev last_candidate : SessionMessage
last_candidate = message_of candidate (codes "c") []
