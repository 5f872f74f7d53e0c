-- ===== src/Session.antt =====
-- src/mediasession.cpp: one call between a browser and the IMS.
pub mod Handlers
pub mod Kept
pub mod Order
pub mod Soundness
pub mod Forward
pub mod Flow
pub mod Media
use media_gateway_v4_7_1_sde.Base.{
  ℕ, ◌+◌, ◌==◌, Bool, true, false, not, ◌&&◌, ◌||◌, Option, none, some, List, [], ◌∷◌, ◌++◌,
  if◌then◌else◌, Text, ℤ, Run, ok, fault, abort, no_thread, null_pointer, buffer_overflow, ◌>>=◌,
}
use media_gateway_v4_7_1_sde.Etcp.{Sending, nothing, overflow, sends, send_packet}
use media_gateway_v4_7_1_sde.Sdp.{SessionType, audio, video}
use media_gateway_v4_7_1_sde.Candidate.{Nice}
use media_gateway_v4_7_1_sde.Rtp.{Srtp, Converter, new_converter}
use media_gateway_v4_7_1_sde.Messages.{
  Json, Unset, SessionMessage, RoapMessage, new_message, candidate, package_session_message,
}
use media_gateway_v4_7_1_sde.Agents.{Effect, to_signalling, Helper, new_helper, SipCodec}
use media_gateway_v4_7_1_sde.Agents.Codec.{CodecConverter, new_codec_converter, run}
use media_gateway_v4_7_1_sde.Agents.Web.{
  WebAgent, CandidateHeap, new_web_agent, handle_candidate_from_web, set_remote_candidates,
  handle_sdp_from_web, web_tailing_jobs, web_period_data,
}
use media_gateway_v4_7_1_sde.Agents.Web.Describe.{create_sdp_to_web}
use media_gateway_v4_7_1_sde.Agents.Ims.{
  ImsAgent, new_ims_agent, run_ims, create_sdp_to_ims, handle_sdp_from_ims, ims_period_data,
}
use media_gateway_v4_7_1_sde.Timer.{Timers, set_timer, stop_timer}

-- What the handlers meet outside of src/: the libraries, the codec servers' replies, and what the
-- variables that the code leaves without a value hold; and of which bytes a `send` to the signalling
-- gateway fails.
pub record Env : Type 1 where
  pub json : Json
  pub nice : Nice
  pub srtp : Srtp
  pub sip : SipCodec
  pub ffmpeg_reply : ℕ → ℕ → Option (Text × ℕ)
  pub heap : CandidateHeap
  pub unset : Unset
  pub unset_port : ℕ
  pub unset_payload : ℤ
  pub unset_keys : List ℕ
  pub disconnected : ℕ
  pub send_fails : List ℕ → Bool

-- The four objects of a session. The code sets their pointers together in the constructor and
-- resets them together in `deleteSession`.
pub record Agents : Type 0 where
  pub web : WebAgent
  pub ims : ImsAgent
  pub web_to_ims : CodecConverter
  pub ims_to_web : CodecConverter

-- `class MediaSession`; `agents` is `none` when the four pointers are NULL.
pub record Session : Type 0 where
  pub web_caller_flag : Bool
  pub web_offer_or_answer_arrived : Bool
  pub offer_session_id : Text
  pub original_offer : SessionMessage
  pub original_answer : SessionMessage
  pub session_type : SessionType
  pub agents : Option Agents
  pub timer_id : ℕ

abbrev pub flow_timeout : ℕ
flow_timeout = 30

-- The ports that were free for the four helpers, and the local ICE credentials.
pub record Resources : Type 0 where
  pub port_a : ℕ
  pub port_b : ℕ
  pub port_c : ℕ
  pub port_d : ℕ
  pub ufrag : Text
  pub pwd : Text

-- `isSessionStop`
unfoldable pub is_session_stop : Session → Bool
is_session_stop s = elim s.agents [ none ↦ true | some a ↦ false ]

-- Whether `pthread_create` has started the threads of the four helpers.
unfoldable pub all_run : Agents → Bool
all_run a =
    a.ims.video_helper.running && a.ims.audio_helper.running && a.ims_to_web.helper.running
    && a.web_to_ims.helper.running

-- What `delete` of the agents and the converters does to the threads of the helpers: `~Helper`
-- calls `pthread_cancel`, with 0 where the thread was never created.
unfoldable pub cancel_threads : Option Agents → Run (Unit {0})
unfolding all_run
cancel_threads none = ok tt
cancel_threads (some a) = if all_run a then ok tt else fault no_thread

-- `deleteSession`
unfoldable pub delete_session : Session → Session
delete_session s = record s { agents = none }

abbrev pub get_agents : Option Agents → Run Agents
get_agents none = fault null_pointer
get_agents (some a) = ok a

-- `MediaGateway::sendPacketToSG`; `sendPacket` ends the process where `send` fails.
unfoldable pub send_packet_to_sg : (List ℕ → Bool) → Text → Run (List Effect)
send_packet_to_sg fails msg = elim (send_packet msg) [
  | nothing ↦ ok []
  | overflow ↦ fault buffer_overflow
  | sends bytes ↦ if fails bytes then fault abort else ok (to_signalling bytes ∷ [])
]

abbrev pub with_sdp : Text → SessionMessage → SessionMessage
with_sdp sdp m = record m { roap = record m.roap { sdp = sdp } }

abbrev pub as_candidate : Text → SessionMessage → SessionMessage
as_candidate sdp m = record m { roap = record m.roap { sdp = sdp; roap_type = candidate } }

module _ (env : Env) where
  open env use {json, nice, srtp, sip}

  -- `MediaSession::MediaSession`, the agents running
  unfoldable pub new_session : Resources → Text → Session
  new_session r id = record {
    web_caller_flag = true;
    web_offer_or_answer_arrived = false;
    offer_session_id = id;
    original_offer = new_message env.unset;
    original_answer = new_message env.unset;
    session_type = audio;
    timer_id = 0;
    agents = some (record {
      web_to_ims = new_codec_converter false (new_helper r.port_a);
      ims_to_web = new_codec_converter true (new_helper r.port_b);
      web =
          new_web_agent env.disconnected r.ufrag r.pwd
            (new_converter env.unset_keys env.unset_keys);
      ims =
          run_ims (new_ims_agent sip env.unset_payload (new_helper r.port_c) (new_helper r.port_d));
    });
  }

  -- A packet of `sMsg`, sent to the signalling gateway.
  unfoldable pub send_message : SessionMessage → Run (List Effect)
  unfolding send_packet_to_sg
  send_message m = send_packet_to_sg env.send_fails (package_session_message json m)

-- `checkMediaFlow`, the timer's callback
unfoldable pub check_media_flow : ℕ → Session → Timers → Run (Session × Timers)
check_media_flow this s timers = do
  a ← get_agents s.agents
  let (web_data, web) = web_period_data a.web
  let (ims_data, ims) = ims_period_data a.ims
  let t = set_timer flow_timeout this timers
  ok (
      if web_data && ims_data
      then (record s { agents = some (record a { web = web; ims = ims }); timer_id = t.0 }, t.1)
      else (delete_session s, timers))

-- `MediaSession::~MediaSession`: what is left of it are the timers.
unfoldable pub destroy_session : Session → Timers → Timers
destroy_session s timers = if s.timer_id == 0 then timers else (stop_timer s.timer_id timers).1
