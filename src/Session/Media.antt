-- ===== src/Session/Media.antt =====
-- src/imsagent.cpp and src/codecconverter.cpp, the receiving threads, joined to the agents of a
-- session as the constructor of src/mediasession.cpp sets their pointers.
pub mod Secrecy
pub mod Arrays
pub mod Bounds
pub mod Closed
pub mod Feedback
pub mod Overflow
pub mod Forged
use media_gateway_v4_7_1_sde.Base.{
  ℕ, Option, none, some, List, [], ◌∷◌, ◌++◌, length, take, drop, replicate, Run, ok, ◌>>=◌, Bool,
  true, false,
}
use media_gateway_v4_7_1_sde.Rtp.{Srtp}
use media_gateway_v4_7_1_sde.Agents.{Effect, bump}
use media_gateway_v4_7_1_sde.Agents.Codec.{convert_and_send}
use media_gateway_v4_7_1_sde.Agents.Ims.{ImsAgent, send_ims}
use media_gateway_v4_7_1_sde.Agents.Web.{WebAgent}
use media_gateway_v4_7_1_sde.Agents.Web.Data.{Statics, send_web, receive_data}
use media_gateway_v4_7_1_sde.Session.{Agents}

-- What a thread waits for. A packet of the browser's component comes in an array of libnice with
-- its length; `recvfrom` on a socket gives a packet, or -1 (`none`).
pub data MediaEvent : Type 0 where
  from_browser : ℕ → List ℕ → ℕ → MediaEvent
  -- `cbFuncVideo`, `cbFuncAudio`, `cbWebToIms`, `cbImsToWeb`
  at_ims_video at_ims_audio at_web_to_ims at_ims_to_web : Option (List ℕ) → MediaEvent

-- The agents, the shared counters, and the array `buf` of each thread.
pub record Media : Type 0 where
  pub agents : Agents
  pub statics : Statics
  pub ims_video_buf : List ℕ
  pub ims_audio_buf : List ℕ
  pub web_to_ims_buf : List ℕ
  pub ims_to_web_buf : List ℕ

abbrev pub buf_size : ℕ
buf_size = 3005

-- `recvfrom(fd, buf, 3005, ...)`: the array, and how many bytes were received; the rest of a
-- longer packet is lost.
unfoldable pub recv_from : List ℕ → List ℕ → List ℕ × ℕ
recv_from packet buf = let p = take buf_size packet in (p ++ drop (length p) buf, length p)

abbrev heard_ims : Media → Media
heard_ims m = record m {
  agents = record m.agents { ims = record m.agents.ims { curcnt = bump m.agents.ims.curcnt } };
}

-- A round of `cbFuncVideo`; `curcnt` counts it even if nothing was received.
unfoldable pub ims_video_round : Option (List ℕ) → Media → Media × List Effect
unfolding recv_from
ims_video_round none m = (heard_ims m, [])
ims_video_round (some packet) m =
    let (buf, len) = recv_from packet m.ims_video_buf in
    let (buf', sent) = convert_and_send buf len m.agents.ims_to_web in
    (record (heard_ims m) { ims_video_buf = buf' }, sent)

-- A round of `cbWebToIms`.
unfoldable pub web_to_ims_round : Option (List ℕ) → Media → Media × List Effect
unfolding recv_from
web_to_ims_round none m = (m, [])
web_to_ims_round (some packet) m =
    let (buf, len) = recv_from packet m.web_to_ims_buf in
    let (buf', sent) = send_ims buf len true m.agents.ims in
    (record m { web_to_ims_buf = buf' }, sent)

module _ (lib : Srtp) where
  -- A round of `cbFuncAudio`.
  unfoldable pub ims_audio_round : Option (List ℕ) → Media → Run (Media × List Effect)
  unfolding recv_from
  ims_audio_round none m = ok (heard_ims m, [])
  ims_audio_round (some packet) m = do
    let (buf, len) = recv_from packet m.ims_audio_buf
    (buf', w, sent) ← send_web lib buf len false m.agents.web
    ok (record m { ims_audio_buf = buf'; agents = record (heard_ims m).agents { web = w } }, sent)

  -- A round of `cbImsToWeb`.
  unfoldable pub ims_to_web_round : Option (List ℕ) → Media → Run (Media × List Effect)
  unfolding recv_from
  ims_to_web_round none m = ok (m, [])
  ims_to_web_round (some packet) m = do
    let (buf, len) = recv_from packet m.ims_to_web_buf
    (buf', w, sent) ← send_web lib buf len true m.agents.web
    ok (record m { ims_to_web_buf = buf'; agents = record m.agents { web = w } }, sent)

  -- libnice calls the callback of the web agent; `unset` is what `sc` of `sendrtcp` holds.
  unfoldable pub browser_round : ℕ → ℕ → List ℕ → ℕ → Media → Run (Media × List Effect)
  browser_round unset component buf len m = do
    (st, w, sent) ←
        receive_data lib unset component buf len m.agents.ims m.agents.web_to_ims m.statics
          m.agents.web
    ok (record m { statics = st; agents = record m.agents { web = w } }, sent)

  unfoldable pub media_step : ℕ → MediaEvent → Media → Run (Media × List Effect)
  unfolding ims_video_round web_to_ims_round ims_audio_round ims_to_web_round browser_round
  media_step unset (from_browser component buf len) m = browser_round unset component buf len m
  media_step unset (at_ims_video p) m = ok (ims_video_round p m)
  media_step unset (at_ims_audio p) m = ims_audio_round p m
  media_step unset (at_web_to_ims p) m = ok (web_to_ims_round p m)
  media_step unset (at_ims_to_web p) m = ims_to_web_round p m

  -- The threads' rounds in the order in which they come, each as a whole.
  unfoldable pub media_run : ℕ → List MediaEvent → Media → Run (Media × List Effect)
  unfolding media_step
  media_run unset [] m = ok (m, [])
  media_run unset (e ∷ es) m = do
    (m', sent) ← media_step unset e m
    (m'', more) ← media_run unset es m'
    ok (m'', sent ++ more)
