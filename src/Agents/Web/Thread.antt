-- ===== src/Agents/Web/Thread.antt =====
-- src/webagent.cpp, `startICE`: the thread of the web agent, which gives libnice's callbacks their
-- turn. Packets of the browser come in Session/Media.
pub mod Serving
use media_gateway_v4_7_1_sde.Base.{
  ℕ, ◌≡◌, refl, sym, ap, ◌∙◌, Bool, true, false, ◌&&◌, ◌||◌, Option, none, some, List, [], ◌∷◌,
  ◌++◌, if◌then◌else◌, ◌==◌, Text, Run, ok, fault, abort, append_assoc, append-nil, arith, ◌⊎◌,
  Bool-cases, inl, inr, map, ◌≢◌,
}
use media_gateway_v4_7_1_sde.Candidate.{LocalCandidate, candidate_lines}
use media_gateway_v4_7_1_sde.Agents.Web.{
  WebAgent, candidate_gathering_done, component_state_changed,
}

-- The signals that the constructor connects.
pub data Callback : Type 0 where
  new_candidate initial_binding_request_received new_selected_pair : Callback
  gathered : List LocalCandidate → Callback
  state_changed : ℕ → ℕ → Callback

-- Where the thread is: in the loop of `nice_agent_gather_candidates`, in the first or in the second
-- `g_main_loop_run`, or at its end.
pub data Ice : Type 0 where
  gathering : Ice
  waiting serving ended : WebAgent → Ice

module _ (ready : ℕ) where
  -- A callback, and whether it quits the main loop. Three callbacks only print.
  unfoldable pub call_back : Callback → WebAgent → WebAgent × Bool
  call_back new_candidate w = (w, false)
  call_back initial_binding_request_received w = (w, false)
  call_back new_selected_pair w = (w, false)
  call_back (gathered cs) w = (candidate_gathering_done cs w, true)
  call_back (state_changed component state) w =
      (component_state_changed ready component state w, false)

  -- `g_main_loop_run`: the callbacks in order until one quits; whether one did, and what is left.
  unfoldable pub main_loop : List Callback → WebAgent → WebAgent × Bool × List Callback
  unfolding call_back
  main_loop [] w = (w, false, [])
  main_loop (c ∷ cs) w =
      let (w', quit) = call_back c w in
      let rest = main_loop cs w' in if quit then (w', true, cs) else rest

  -- The second `g_main_loop_run`.
  serve_callbacks : List Callback → WebAgent → Ice
  unfolding main_loop
  serve_callbacks cs w =
      let (w', quit, rest) = main_loop cs w in if quit then ended w' else serving w'

  -- The first one, which is skipped if the candidates are there.
  wait_for_candidates : List Callback → WebAgent → Run Ice
  unfolding main_loop serve_callbacks
  wait_for_candidates cs w =
      if w.is_candidate_gathering_done
      then ok (serve_callbacks cs w)
      else (let (w', quit, rest) = main_loop cs w in
          if quit
          then (if w'.is_candidate_gathering_done
              then ok (serve_callbacks rest w')
              else fault abort)
          else ok (waiting w'))

  -- `while (!isPortOK)`, with what `nice_agent_gather_candidates` returns in each round.
  unfoldable pub gather : List Bool → Bool
  gather [] = false
  gather (port_ok ∷ results) = let later = gather results in if port_ok then true else later

  -- `WebAgent::startICE`; `stream` is what `nice_agent_add_stream` returns.
  unfoldable pub start_ice : ℕ → List Bool → List Callback → WebAgent → Run Ice
  unfolding wait_for_candidates gather
  start_ice stream results cs w =
      if stream == 0
      then fault abort
      else if gather results
      then wait_for_candidates cs w
      else ok gathering

-- What the callbacks do to the agent, in order.
abbrev pub after_callbacks : ℕ → List Callback → WebAgent → WebAgent
after_callbacks ready [] w = w
after_callbacks ready (c ∷ cs) w = after_callbacks ready cs (call_back ready c w).0
