-- ===== src/Agents/Web/Thread/Serving.antt =====
-- src/webagent.cpp: what the thread of the web agent has done when libnice has reported its
-- candidates.
use media_gateway_v4_7_1_sde.Base.{
  ℕ, zero, suc, ◌≡◌, refl, ◌∙◌, true, false, List, [], ◌∷◌, ◌++◌, ap, ◌==◌, ◌&&◌, ◌||◌, Bool, ok,
  replicate, append-nil, arith, ◌≢◌, Text, ne→==,
}
use media_gateway_v4_7_1_sde.Candidate.{LocalCandidate, candidate_lines}
use media_gateway_v4_7_1_sde.Agents.Web.{
  WebAgent, candidate_gathering_done, component_state_changed,
}
use media_gateway_v4_7_1_sde.Agents.Web.Thread.{
  Callback, new_candidate, initial_binding_request_received, new_selected_pair, gathered,
  state_changed, serving, gather, call_back, main_loop, start_ice, after_callbacks,
}

-- No report of the candidates.
abbrev pub Unreported : List Callback → Type 0
Unreported [] = Unit {0}
Unreported (gathered cs ∷ rest) = ⊥
Unreported (c ∷ rest) = Unreported rest

-- A report that the RTP component is ready.
unfoldable pub makes_ready : ℕ → List Callback → Bool
makes_ready ready [] = false
makes_ready ready (state_changed component state ∷ rest) =
    (state == ready && component == 1) || makes_ready ready rest
makes_ready ready (c ∷ rest) = makes_ready ready rest

module _ (ready : ℕ) where
  main_loop_runs :
      (cs rest : List Callback) (w : WebAgent)
      → Unreported cs
      → main_loop ready (cs ++ rest) w ≡ main_loop ready rest (after_callbacks ready cs w)
  unfolding main_loop call_back
  main_loop_runs [] rest w h = refl
  main_loop_runs (new_candidate ∷ cs) rest w h = main_loop_runs cs rest w h
  main_loop_runs (initial_binding_request_received ∷ cs) rest w h = main_loop_runs cs rest w h
  main_loop_runs (new_selected_pair ∷ cs) rest w h = main_loop_runs cs rest w h
  main_loop_runs (gathered k ∷ cs) rest w h = absurd h
  main_loop_runs (state_changed c s ∷ cs) rest w h = main_loop_runs cs rest _ h

  main_loop_waits :
      (cs : List Callback) (w : WebAgent)
      → Unreported cs
      → main_loop ready cs w ≡ (after_callbacks ready cs w, false, [])
  unfolding main_loop
  main_loop_waits cs w h = rw (append-nil cs) at (main_loop_runs cs [] w h)

  after-append :
      (cs rest : List Callback) (w : WebAgent)
      → after_callbacks ready (cs ++ rest) w
        ≡ after_callbacks ready rest (after_callbacks ready cs w)
  after-append [] rest w = refl
  after-append (c ∷ cs) rest w = after-append cs rest (call_back ready c w).0

  -- The agent is ready for ever from the first report on.
  after_ready :
      (cs : List Callback) (w : WebAgent)
      → (after_callbacks ready cs w).is_ready ≡ (w.is_ready || makes_ready ready cs)
  unfolding call_back makes_ready candidate_gathering_done component_state_changed
  after_ready [] w = ground arith
  after_ready (new_candidate ∷ cs) w = after_ready cs w
  after_ready (initial_binding_request_received ∷ cs) w = after_ready cs w
  after_ready (new_selected_pair ∷ cs) w = after_ready cs w
  after_ready (gathered k ∷ cs) w = after_ready cs (candidate_gathering_done k w)
  after_ready (state_changed c s ∷ cs) w =
      ground (arith, after_ready cs (component_state_changed ready c s w))

  after_candidates :
      (cs : List Callback) (w : WebAgent)
      → Unreported cs
      → (after_callbacks ready cs w).local_candidates ≡ w.local_candidates
  unfolding call_back component_state_changed
  after_candidates [] w h = refl
  after_candidates (new_candidate ∷ cs) w h = after_candidates cs w h
  after_candidates (initial_binding_request_received ∷ cs) w h = after_candidates cs w h
  after_candidates (new_selected_pair ∷ cs) w h = after_candidates cs w h
  after_candidates (gathered k ∷ cs) w h = absurd h
  after_candidates (state_changed c s ∷ cs) w h =
      after_candidates cs (component_state_changed ready c s w) h

  gathers_at : (n : ℕ) (more : List Bool) → gather ready (replicate n false ++ true ∷ more) ≡ true
  unfolding gather
  gathers_at zero more = refl
  gathers_at (suc n) more = gathers_at n more

  -- However often gathering fails before it begins: once libnice has reported its candidates, which
  -- it does once, the thread serves in its second main loop, the assert has held, and it has made
  -- every callback in order. Then the local candidates are the lines of those reported, and the
  -- agent is ready exactly if it was, or if the RTP component was ever reported ready.
  pub start_ice_serves :
      (stream n : ℕ) (more : List Bool) (before after : List Callback) (cs : List LocalCandidate)
      (w : WebAgent)
      → stream ≢ 0
      → Unreported before
      → Unreported after
      → w.is_candidate_gathering_done ≡ false
      → let all = before ++ gathered cs ∷ after in
        let w' = after_callbacks ready all w in
        (start_ice ready stream (replicate n false ++ true ∷ more) all w ≡ ok (serving w'))
        × (w'.local_candidates ≡ w.local_candidates ++ candidate_lines cs)
        × (w'.is_ready ≡ (w.is_ready || makes_ready ready all))
  unfolding start_ice call_back candidate_gathering_done main_loop
  start_ice_serves stream n more before after cs w some_stream b a fresh =
      let all = before ++ gathered cs ∷ after in
      let w1 = after_callbacks ready before w in
      (
        simp (
          ne→== stream 0 some_stream,
          gathers_at n more,
          fresh,
          main_loop_runs before (gathered cs ∷ after) w b,
          after-append before (gathered cs ∷ after) w,
          main_loop_waits after (candidate_gathering_done cs w1) a,
        ),
        rw (after-append before (gathered cs ∷ after) w) (
            after_candidates after (candidate_gathering_done cs w1) a
            ∙ ap (λ (l : List Text). l ++ candidate_lines cs) (after_candidates before w b)),
        after_ready all w,
      )
