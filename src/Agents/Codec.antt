-- ===== src/Agents/Codec.antt =====
-- src/codecconverter.cpp
use media_gateway_v4_7_1_sde.Base.{
  ℕ, Bool, Option, none, some, List, [], ◌∷◌, if◌then◌else◌, Text, take,
}
use media_gateway_v4_7_1_sde.RtpHeader.{set_payload}
use media_gateway_v4_7_1_sde.Agents.{
  Effect, to_codec, start_ffmpeg, Helper, set_destination, run_helper, SipCodec,
}

-- `class CodecConverter`; `type` is `true` for IMS to web.
pub record CodecConverter : Type 0 where
  pub ims_to_web : Bool
  pub helper : Helper

unfoldable pub new_codec_converter : Bool → Helper → CodecConverter
new_codec_converter t h = record { ims_to_web = t; helper = h }

-- What `startFFmpeg` stores in `destIP` and `destPort`; where it returns -1 or -2 (`none`) it stores
-- nothing, so that the one is empty and the other holds what it held, `unset`.
abbrev destination_of : ℕ → Option (Text × ℕ) → Text × ℕ
destination_of unset none = ([], unset)
destination_of unset (some (ip, port)) = (ip, port)

-- `reply` is what `startFFmpeg` stores, by listening port and codec.
module _ (sip : SipCodec) (reply : ℕ → ℕ → Option (Text × ℕ)) (unset : ℕ) where
  send_to : Text × ℕ → CodecConverter → CodecConverter
  send_to dest c = record c { helper = run_helper (set_destination dest.0 dest.1 c.helper) }

  start : CodecConverter → ℕ → ℕ → CodecConverter × List Effect
  unfolding send_to
  start c codec264 codec263 =
      let p = c.helper.listen_port in
      if sip.h264
      then (send_to (destination_of unset (reply p codec264)) c, start_ffmpeg p codec264 ∷ [])
      else if sip.h263
      then (send_to (destination_of unset (reply p codec263)) c, start_ffmpeg p codec263 ∷ [])
      else (send_to (destination_of unset none) c, [])

  -- `CodecConverter::run`
  unfoldable pub run : CodecConverter → CodecConverter × List Effect
  unfolding start
  run c = if c.ims_to_web then start c 3 2 else start c 1 0

-- `CodecConverter::convertAndSend`: the array as it leaves it, and what it sends.
unfoldable pub convert_and_send : List ℕ → ℕ → CodecConverter → List ℕ × List Effect
convert_and_send buf len c =
    let buf' = set_payload 96 buf in (buf', to_codec c.ims_to_web (take len buf') ∷ [])
