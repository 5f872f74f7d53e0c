-- ===== src/Agents.antt =====
-- The objects of a session: src/helper.cpp, src/codecconverter.cpp, src/webagent.cpp and
-- src/imsagent.cpp. An operation returns the object's new state and its effects on the outside.
pub mod Web
pub mod Ims
pub mod Codec
pub mod Descriptions
pub mod Sockets
use media_gateway_v4_7_1_sde.Base.{
  ℕ, ◌+◌, ◌%◌, ◌^◌, Bool, true, false, not, Option, none, some, List, [], ◌∷◌, if◌then◌else◌, Text,
  codes, ℤ, ◌==◌,
}
use media_gateway_v4_7_1_sde.Candidate.{Candidate}

-- What the program does to the outside, in order.
pub data Effect : Type 0 where
  -- a text sent to the signalling gateway
  to_signalling : Text → Effect
  -- `nice_agent_send`: a packet to the browser
  to_web : List ℕ → Effect
  -- `sendto` on the sockets of the IMS agent: audio and video
  to_ims_audio to_ims_video : List ℕ → Effect
  -- `sendto` on the socket of a codec converter (`type` 0, web to IMS, is `false`)
  to_codec : Bool → List ℕ → Effect
  -- `nice_agent_set_remote_credentials`, and `nice_agent_set_remote_candidates` for a component:
  -- what stands at each pointer at the time of the call, `none` if it was freed
  remote_credentials : Text → Text → Effect
  remote_candidates : ℕ → List (Option Candidate) → Effect
  -- `SubMG::startFFmpeg(port, codec, ...)`
  start_ffmpeg : ℕ → ℕ → Effect

-- `class Helper` of src/helper.cpp: the port it listens on, where it sends to, whether its thread
-- runs.
pub record Helper : Type 0 where
  pub listen_port : ℕ
  pub destination : Text
  pub port : ℕ
  pub running : Bool

-- What `Helper::Helper` sets, with the port that was free.
unfoldable pub new_helper : ℕ → Helper
new_helper free = record {
  listen_port = free;
  destination = codes "10.109.247.140";
  port = 12345;
  running = false;
}

unfoldable pub set_destination : Text → ℕ → Helper → Helper
set_destination dest p h = record h { destination = dest; port = p }

unfoldable pub run_helper : Helper → Helper
run_helper h = record h { running = true }

-- The map `SIPCodec` of src/media_gateway.cpp: which codecs are on.
pub record SipCodec : Type 0 where
  pub h264 : Bool
  pub h263 : Bool
  pub h263p : Bool

-- `main` sets H264 alone.
abbrev pub main_codecs : SipCodec
main_codecs = record { h264 = true; h263 = false; h263p = false }

-- `gotPeriodData` of both agents, on `precnt` and `curcnt`: the new `precnt` and the result.
unfoldable pub got_period_data : ℕ → ℕ → ℕ × Bool
got_period_data precnt curcnt = if curcnt == precnt then (precnt, false) else (curcnt, true)

-- `curcnt++`, an `int` by its bit pattern
abbrev pub bump : ℕ → ℕ
bump n = (n + 1) % 2 ^ 32
