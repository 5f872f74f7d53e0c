-- ===== src/Agents/Web.antt =====
-- src/webagent.cpp, what concerns signalling: candidates, session descriptions and keys.
pub mod Describe
pub mod Remote
pub mod Data
pub mod Thread
pub mod Keys
use media_gateway_v4_7_1_sde.Base.{
  ℕ, zero, suc, ◌+◌, ◌-◌, Bool, true, false, not, ◌&&◌, Option, none, some, List, [], ◌∷◌, ◌++◌,
  if◌then◌else◌, ◌==◌, length, Text, codes, ℤ, Run, ok, fault, no_rounds, ◌>>=◌,
}
use media_gateway_v4_7_1_sde.Text.{
  npos, find, contains, substr, minus, eq_text, int_to_string, crlf,
}
use media_gateway_v4_7_1_sde.Sdp.{
  SessionType, audio, video, get_crypto_info, get_ice_info, audio_supported, Codec, payload,
  missing, endless, codec_payload, pt_pcma_default, pt_vp8_default, replace_ufrag_pwd,
  replace_crypto,
}
use media_gateway_v4_7_1_sde.Rtp.{Srtp, Converter, init}
use media_gateway_v4_7_1_sde.Candidate.{
  Nice, Candidate, Kind, host, server_reflexive, peer_reflexive, relayed, new_candidate,
  LocalCandidate, candidate_lines,
}
use media_gateway_v4_7_1_sde.Agents.{Effect, remote_credentials, remote_candidates, got_period_data}

-- `class WebAgent`, less its pointers to the other objects, its thread and the handles of libnice.
-- `local_ufrag` and `local_pwd` are what `nice_agent_get_local_credentials` returns.
pub record WebAgent : Type 0 where
  pub remote_rtp_candidates : List Text
  pub remote_rtcp_candidates : List Text
  pub local_candidates : List Text
  pub local_ufrag : Text
  pub local_pwd : Text
  -- `agentState`, of the RTP and of the RTCP component
  pub rtp_state : ℕ
  pub rtcp_state : ℕ
  pub is_candidate_gathering_done : Bool
  pub is_ready : Bool
  pub last_candidate_arrived : Bool
  pub crypto_from_web : Text
  pub crypto_to_web : Text
  pub audio_ssrc : Text
  pub video_ssrc : Text
  pub video_ssrc_from_web : Text
  pub rtp_converter : Converter
  pub v_payload : ℤ
  pub a_payload : ℤ
  pub precnt : ℕ
  pub curcnt : ℕ

-- `NICE_COMPONENT_STATE_DISCONNECTED` and `NICE_COMPONENT_STATE_READY` are numbers of libnice.
unfoldable pub new_web_agent : ℕ → Text → Text → Converter → WebAgent
new_web_agent disconnected ufrag pwd converter = record {
  remote_rtp_candidates = [];
  remote_rtcp_candidates = [];
  local_candidates = [];
  local_ufrag = ufrag;
  local_pwd = pwd;
  rtp_state = disconnected;
  rtcp_state = disconnected;
  is_candidate_gathering_done = false;
  is_ready = false;
  last_candidate_arrived = false;
  crypto_from_web = [];
  crypto_to_web = codes "pCC0edHOwQOuwX0m4+135nil9xt5Lr9exVF7Gs4m";
  audio_ssrc = codes "222222222";
  video_ssrc = codes "333333333";
  video_ssrc_from_web = [];
  rtp_converter = converter;
  v_payload = pt_vp8_default;
  a_payload = pt_pcma_default;
  precnt = 0;
  curcnt = 0;
}

-- `candidateGatheringDoneCallback`, on the candidates that libnice has for the two components.
unfoldable pub candidate_gathering_done : List LocalCandidate → WebAgent → WebAgent
candidate_gathering_done cs w = record w {
  is_candidate_gathering_done = true;
  local_candidates = w.local_candidates ++ candidate_lines cs;
}

-- `componentStateChangedCallback`
unfoldable pub component_state_changed : ℕ → ℕ → ℕ → WebAgent → WebAgent
component_state_changed ready component state w = record w {
  rtp_state = if component == 1 then state else w.rtp_state;
  rtcp_state = if component == 2 then state else w.rtcp_state;
  is_ready = if state == ready && component == 1 then true else w.is_ready;
}

-- `WebAgent::handleCandidateFromWeb`: 1 (`true`) for the last candidate, which has no text.
unfoldable pub handle_candidate_from_web : Nice → Text → WebAgent → Run (Bool × WebAgent)
handle_candidate_from_web nice [] w = ok (true, record w { last_candidate_arrived = true })
handle_candidate_from_web nice (c ∷ cs) w = do
  candidate ← new_candidate nice (c ∷ cs)
  ok (
    false,
    if candidate.component_id == 1
        then record w { remote_rtp_candidates = w.remote_rtp_candidates ++ (c ∷ cs) ∷ [] }
        else record w { remote_rtcp_candidates = w.remote_rtcp_candidates ++ (c ∷ cs) ∷ [] },
  )

-- Objects of class `Candidate` with their `NiceCandidate`, by address.
pub record CandidateHeap : Type 0 where
  pub next : ℕ
  pub cells : List (ℕ × Candidate)

unfoldable pub read_cell : List (ℕ × Candidate) → ℕ → Option Candidate
read_cell [] p = none
read_cell ((q, c) ∷ cells) p = if q == p then some c else read_cell cells p

unfoldable pub free_cell : ℕ → List (ℕ × Candidate) → List (ℕ × Candidate)
free_cell p [] = []
free_cell p ((q, c) ∷ cells) =
    let rest = free_cell p cells in if q == p then rest else (q, c) ∷ rest

-- `getNiceCandidate()->type == 0`
unfoldable pub is_host : Kind → Bool
is_host host = true
is_host server_reflexive = false
is_host peer_reflexive = false
is_host relayed = false

-- One round of a loop of `setRemoteCandidates`: `new Candidate`, the pointer appended to `cands` if
-- the type is host, `delete candidate`.
unfoldable pub add_remote : Candidate → CandidateHeap → List ℕ → CandidateHeap × List ℕ
unfolding is_host free_cell
add_remote c heap cands =
    let p = heap.next in
    let made : List (ℕ × Candidate) = (p, c) ∷ heap.cells in
    (
      record { next = suc p; cells = free_cell p made },
      if is_host c.kind then cands ++ p ∷ [] else cands,
    )

unfoldable pub add_remotes :
    Nice → List Text → CandidateHeap → List ℕ → Run (CandidateHeap × List ℕ)
unfolding add_remote
add_remotes nice [] heap cands = ok (heap, cands)
add_remotes nice (line ∷ lines) heap cands = do
  c ← new_candidate nice line
  let s = add_remote c heap cands
  add_remotes nice lines s.0 s.1

unfoldable pub read_cells : List (ℕ × Candidate) → List ℕ → List (Option Candidate)
unfolding read_cell
read_cells cells [] = []
read_cells cells (p ∷ ps) = read_cell cells p ∷ read_cells cells ps

-- `WebAgent::setRemoteCandidates`
unfoldable pub set_remote_candidates : Nice → CandidateHeap → WebAgent → Run (List Effect)
unfolding add_remotes read_cells
set_remote_candidates nice heap w = do
  (heap1, rtp) ← add_remotes nice w.remote_rtp_candidates heap []
  (heap2, rtcp) ← add_remotes nice w.remote_rtcp_candidates heap1 []
  ok (
      remote_candidates 1 (read_cells heap1.cells rtp)
      ∷ remote_candidates 2 (read_cells heap2.cells rtcp)
      ∷ [])

-- The search for `videoSSRCFromWeb`.
unfoldable pub find_video_ssrc : Text → Text → Text
find_video_ssrc sdp old =
    let begin = find sdp (codes "m=video") 0 in
    if begin == npos
    then old
    else let p2 = find sdp (codes "a=ssrc:") begin in
      if p2 == npos
      then old
      else let p3 = p2 + length (codes "a=ssrc:") in
        let end = find sdp (codes " ") p3 in
        if end == npos then old else substr sdp p3 (minus end p3)

unfoldable pub vp8_payload : Text → SessionType → Bool → WebAgent → Run (Bool × WebAgent)
vp8_payload sdp audio supported w = ok (supported, w)
vp8_payload sdp video supported w = elim (codec_payload (codes "VP8") sdp) [
  | payload n ↦ ok (supported, record w { v_payload = n })
  | missing ↦ ok (false, w)
  | endless ↦ fault no_rounds
]

-- `WebAgent::handleSdpFromWeb`: whether the codecs are supported, the session's type, the agent,
-- and the credentials that libnice is given.
unfoldable pub handle_sdp_from_web :
    Text → WebAgent → Run (Bool × SessionType × WebAgent × List Effect)
unfolding find_video_ssrc vp8_payload
handle_sdp_from_web sdp w =
    let stype : SessionType = if contains sdp (codes "video") then video else audio in
    let crypto = if contains sdp (codes "crypto") then get_crypto_info sdp else w.crypto_from_web in
    let (ufrag, pwd) = get_ice_info sdp [] [] in
    let effects : List Effect =
      if not (length ufrag == 0) && not (length pwd == 0)
      then remote_credentials ufrag pwd ∷ []
      else [] in
    let w' : WebAgent = record w {
      crypto_from_web = crypto;
      video_ssrc_from_web = find_video_ssrc sdp w.video_ssrc_from_web;
    } in
    elim (audio_supported sdp) [
      | none ↦ fault no_rounds
      | some supported ↦ vp8_payload sdp stype supported w' >>= λ r. ok (r.0, stype, r.1, effects)
    ]

-- `WebAgent::doTailingJobs`; the status that `init` returns is dropped.
unfoldable pub web_tailing_jobs : Srtp → WebAgent → Run WebAgent
web_tailing_jobs lib w = do
  (status, c) ← init lib w.crypto_to_web w.crypto_from_web w.rtp_converter
  ok (record w { rtp_converter = c })

-- `gotPeriodData`
unfoldable pub web_period_data : WebAgent → Bool × WebAgent
unfolding got_period_data
web_period_data w =
    let (p, got) = got_period_data w.precnt w.curcnt in (got, record w { precnt = p })
