-- ===== src/Session/Media/Bounds.antt =====
-- The media of a session, src/webagent.cpp, src/imsagent.cpp and src/codecconverter.cpp: which
-- packets the arrays of 3005 bytes can hold when libsrtp has put its tag behind them.
use media_gateway_v4_7_1_sde.Base.{◌≤◌, ◌≡◌, none, some, List, length}
use media_gateway_v4_7_1_sde.Agents.{Effect}
use media_gateway_v4_7_1_sde.Session.Media.{
  Media, MediaEvent, from_browser, at_ims_video, at_ims_audio, at_web_to_ims, at_ims_to_web,
}
use media_gateway_v4_7_1_sde.Session.Media.Arrays.{IsKeyed}

-- The arrays of the threads have their size, and a ready agent its sessions.
pub record IsWhole (m : Media) : Type 0 where
  pub keyed : IsKeyed m.agents.web
  pub ims_video_size : length m.ims_video_buf ≡ 3005
  pub ims_audio_size : length m.ims_audio_buf ≡ 3005
  pub web_to_ims_size : length m.web_to_ims_buf ≡ 3005
  pub ims_to_web_size : length m.ims_to_web_buf ≡ 3005

-- What comes in: a packet of libnice lies in its array; one that goes to the browser leaves room
-- for the tag.
unfoldable pub IsFitting : MediaEvent → Type 0
IsFitting (from_browser component buf len) = len ≤ length buf
IsFitting (at_ims_video p) = Unit
IsFitting (at_ims_audio none) = Unit
IsFitting (at_ims_audio (some p)) = length p ≤ 2995
IsFitting (at_web_to_ims p) = Unit
IsFitting (at_ims_to_web none) = Unit
IsFitting (at_ims_to_web (some p)) = length p ≤ 2995

abbrev Whole : Media × List Effect → Type 0
Whole r = IsWhole r.0
