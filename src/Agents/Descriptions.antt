-- ===== src/Agents/Descriptions.antt =====
-- src/webagent.cpp and src/imsagent.cpp: reading a session description always ends with a result.
use media_gateway_v4_7_1_sde.Base.{
  ℕ, ◌≡◌, refl, Bool, false, if◌then◌else◌, Text, codes, Returns, Returns-ok, Returns-bind,
  Bool-cases, inl, inr,
}
use media_gateway_v4_7_1_sde.Text.{contains}
use media_gateway_v4_7_1_sde.Sdp.{
  SessionType, audio, video, Codec, payload, missing, endless, codec_payload, get_crypto_info,
}
use media_gateway_v4_7_1_sde.Sdp.Rounds.{audio_supported_total, codec_payload_ends}
use media_gateway_v4_7_1_sde.Agents.{SipCodec}
use media_gateway_v4_7_1_sde.Agents.Web.{
  WebAgent, vp8_payload, find_video_ssrc, handle_sdp_from_web,
}
use media_gateway_v4_7_1_sde.Agents.Ims.{ImsAgent, set_video_payload, handle_sdp_from_ims}

vp8-Returns :
    (sdp : Text) (stype : SessionType) (supported : Bool) (w : WebAgent)
    → Returns (vp8_payload sdp stype supported w)
unfolding vp8_payload
vp8-Returns sdp audio supported w = Returns-ok (supported, w)
vp8-Returns sdp video supported w = at (codec_payload (codes "VP8") sdp) refl
  where
    at :
        (c : Codec)
        → codec_payload (codes "VP8") sdp ≡ c
        → Returns (vp8_payload sdp video supported w)
    at (payload n) e = rw (vp8_payload, e) (Returns-ok (supported, record w { v_payload = n }))
    at missing e = rw (vp8_payload, e) (Returns-ok (false, w))
    at endless e = absurd (codec_payload_ends (codes "VP8") sdp e)

-- `WebAgent::handleSdpFromWeb` returns on every description: no loop of it goes on for ever.
pub handle_sdp_from_web-Returns : (sdp : Text) (w : WebAgent) → Returns (handle_sdp_from_web sdp w)
unfolding handle_sdp_from_web
handle_sdp_from_web-Returns sdp w =
    let (supported, e) = audio_supported_total sdp in
    let stype : SessionType = if contains sdp (codes "video") then video else audio in
    let w' : WebAgent = record w {
      crypto_from_web =
          if contains sdp (codes "crypto") then get_crypto_info sdp else w.crypto_from_web;
      video_ssrc_from_web = find_video_ssrc sdp w.video_ssrc_from_web;
    } in
    rw (handle_sdp_from_web, e)
      (Returns-bind (vp8_payload sdp stype supported w') _ (vp8-Returns sdp stype supported w')
        (λ r. Returns-ok _))

video_payload-Returns :
    (name sdp : Text) (stype : SessionType) (a : ImsAgent)
    → Returns (set_video_payload name sdp stype a)
unfolding set_video_payload
video_payload-Returns name sdp audio a = Returns-ok a
video_payload-Returns name sdp video a = at (codec_payload name sdp) refl
  where
    at : (c : Codec) → codec_payload name sdp ≡ c → Returns (set_video_payload name sdp video a)
    at (payload n) e = rw (set_video_payload, e) (Returns-ok (record a { v_payload = n }))
    at missing e = rw (set_video_payload, e) (Returns-ok a)
    at endless e = absurd (codec_payload_ends name sdp e)

-- `ImsAgent::handleSdpFromIMS` returns on every description, whichever codecs are on.
pub handle_sdp_from_ims-Returns :
    (sip : SipCodec) (aport vport : ℕ) (sdp : Text) (a : ImsAgent)
    → Returns (handle_sdp_from_ims sip aport vport sdp a)
unfolding handle_sdp_from_ims
handle_sdp_from_ims-Returns sip aport vport sdp a =
    let (supported, e) = audio_supported_total sdp in
    rw (handle_sdp_from_ims, e)
      (elim (Bool-cases sip.h264) [
        | inl on ↦ rw on (
            Returns-bind (set_video_payload (codes "H264") sdp _ _) _
              (video_payload-Returns (codes "H264") sdp _ _) (λ b. Returns-ok _))
        | inr off ↦ elim (Bool-cases sip.h263) [
          | inl on ↦
              rw (off, on)
                (Returns-bind (set_video_payload (codes "H263") sdp _ _) _
                  (video_payload-Returns (codes "H263") sdp _ _) (λ b. Returns-ok _))
          | inr off2 ↦ rw (off, off2) (Returns-ok _)
        ]
      ])
