-- ===== src/Agents/Ims.antt =====
-- src/imsagent.cpp
use media_gateway_v4_7_1_sde.Base.{
  ℕ, ◌^◌, Bool, Option, none, some, List, [], ◌∷◌, ◌++◌, if◌then◌else◌, Text, codes, ℤ, wrap, Run,
  take, ok, fault, no_rounds, ◌>>=◌, pos,
}
use media_gateway_v4_7_1_sde.Text.{contains, crlf, atoi, int_to_string}
use media_gateway_v4_7_1_sde.Sdp.{
  SessionType, audio, video, param, get_text, audio_supported, payload, missing, endless,
  codec_payload, pt_pcma_default, pt_h264_default, pt_h263_default,
}
use media_gateway_v4_7_1_sde.RtpHeader.{set_payload, set_ssrc}
use media_gateway_v4_7_1_sde.Agents.{
  Effect, to_ims_audio, to_ims_video, Helper, set_destination, run_helper, SipCodec,
  got_period_data,
}

-- `class ImsAgent`, less its pointers to the converter and the other agent.
pub record ImsAgent : Type 0 where
  pub video_helper : Helper
  pub audio_helper : Helper
  pub audio_ssrc : Text
  pub video_ssrc : Text
  pub a_payload : ℤ
  pub v_payload : ℤ
  pub curcnt : ℕ
  pub precnt : ℕ

-- `ImsAgent::ImsAgent`; `unset` is what `vPayload` holds where neither codec is on.
unfoldable pub new_ims_agent : SipCodec → ℤ → Helper → Helper → ImsAgent
new_ims_agent sip unset v a = record {
  video_helper = v;
  audio_helper = a;
  audio_ssrc = codes "777777777";
  video_ssrc = codes "888888888";
  a_payload = pt_pcma_default;
  v_payload = if sip.h264 then pt_h264_default else if sip.h263 then pt_h263_default else unset;
  curcnt = 0;
  precnt = 0;
}

unfoldable pub run_ims : ImsAgent → ImsAgent
run_ims a = record a {
  video_helper = run_helper a.video_helper;
  audio_helper = run_helper a.audio_helper;
}

-- `ImsAgent::sendData`; `is_video` is `type`. The array as it leaves it, and what it sends.
unfoldable pub send_ims : List ℕ → ℕ → Bool → ImsAgent → List ℕ × List Effect
send_ims buf len is_video a =
    if is_video
    then (let buf' =
          set_payload (wrap 128 a.v_payload) (set_ssrc (wrap (2 ^ 32) (atoi a.video_ssrc)) buf) in
        (buf', to_ims_video (take len buf') ∷ []))
    else (let buf' =
          set_payload (wrap 128 a.a_payload) (set_ssrc (wrap (2 ^ 32) (atoi a.audio_ssrc)) buf) in
        (buf', to_ims_audio (take len buf') ∷ []))

abbrev media_line : Text → Text → Text → Text
media_line name port v =
    codes "m=" ++ (name ++ (codes " " ++ (port ++ (codes " RTP/AVP " ++ (v ++ crlf)))))

abbrev attribute : Text → Text → Text → Text
attribute name v rest = name ++ (v ++ rest)

video_description : SipCodec → Text → Text → Text
video_description sip port v =
    let begin = media_line (codes "video") port v in
    if sip.h264
    then begin
      ++ (attribute (codes "a=rtpmap:") v (codes " H264/90000\r\n")
          ++ (attribute (codes "a=fmtp:") v (codes " profile-level-id=42E00D; max-br=320\r\n")
              ++ codes "a=sendrecv\r\n"))
    else if sip.h263
    then begin
      ++ (attribute (codes "a=rtpmap:") v (codes " H263-1998/90000\r\n")
          ++ (attribute (codes "a=fmtp:") v (codes " CIF=2;QCIF=2;SQCIF=2\r\n")
              ++ codes "a=sendrecv\r\n"))
    else if sip.h263p
    then begin
      ++ (attribute (codes "a=rtpmap:") v (codes " H263-1998/90000\r\n")
          ++ (attribute (codes "a=fmtp:") v (codes " QCIF=2;CIF=2;VGA=2;CIF4=2;I=1;J=1;T=1\r\n")
              ++ codes "a=sendrecv\r\n"))
    else []

-- `ImsAgent::createSdpToIMS`
unfoldable pub create_sdp_to_ims : SipCodec → SessionType → ImsAgent → Text
unfolding video_description
create_sdp_to_ims sip stype a =
    let a_str = int_to_string a.a_payload in
    let v_str = int_to_string a.v_payload in
    let video_port = int_to_string (pos a.video_helper.listen_port) in
    let audio_port = int_to_string (pos a.audio_helper.listen_port) in
    let tail : Text = elim stype [ audio ↦ [] | video ↦ video_description sip video_port v_str ] in
    codes "v=0\r\n"
    ++ (codes "o=mg 1811991880 0 IN IP4 10.109.247.140\r\n"
        ++ (codes "s=abc\r\n"
            ++ (codes "c=IN IP4 10.109.247.140\r\n"
                ++ (codes "t=0 0\r\n"
                    ++ (media_line (codes "audio") audio_port a_str
                        ++ (attribute (codes "a=rtpmap:") a_str (codes " PCMA/8000/1\r\n")
                            ++ (codes "a=sendrecv\r\n" ++ tail)))))))

abbrev get_port : Option Text → ℕ → ℕ
get_port none old = old
get_port (some t) old = wrap (2 ^ 16) (atoi t)

-- `ImsAgent::getRemoteIpAndPort`: the address and the two ports, each as it was where the text
-- has none.
unfoldable pub get_remote_ip_and_port : Text → Text → ℕ → ℕ → Text × ℕ × ℕ
get_remote_ip_and_port sdp ip aport vport = (
  get_text (param (codes "c=IN IP4 ") crlf sdp) ip,
  get_port (param (codes "m=audio ") (codes " ") sdp) aport,
  get_port (param (codes "m=video ") (codes " ") sdp) vport,
)

unfoldable pub session_type : Text → SessionType
session_type sdp = if contains sdp (codes "video") then video else audio

-- The search for the payload type of the video codec that is on; it leaves `vPayload` where the
-- description has none.
unfoldable pub set_video_payload : Text → Text → SessionType → ImsAgent → Run ImsAgent
set_video_payload name sdp audio a = ok a
set_video_payload name sdp video a = elim (codec_payload name sdp) [
  | payload n ↦ ok (record a { v_payload = n })
  | missing ↦ ok a
  | endless ↦ fault no_rounds
]

-- `ImsAgent::handleSdpFromIMS`: whether the audio codec is supported, the session's type, and the
-- agent. `aport` and `vport` are what the two variables hold before they are set.
unfoldable pub handle_sdp_from_ims :
    SipCodec → ℕ → ℕ → Text → ImsAgent → Run (Bool × SessionType × ImsAgent)
unfolding set_video_payload
handle_sdp_from_ims sip aport vport sdp a =
    let (ip, ap, vp) = get_remote_ip_and_port sdp [] aport vport in
    let stype = session_type sdp in
    let a' : ImsAgent = record a {
      video_helper = set_destination ip vp a.video_helper;
      audio_helper = set_destination ip ap a.audio_helper;
    } in
    let codec =
      if sip.h264
      then set_video_payload (codes "H264") sdp stype a'
      else if sip.h263
      then set_video_payload (codes "H263") sdp stype a'
      else ok a' in
    elim (audio_supported sdp) [
      | none ↦ fault no_rounds
      | some supported ↦ codec >>= λ b. ok (supported, stype, b)
    ]

-- `gotPeriodData`
unfoldable pub ims_period_data : ImsAgent → Bool × ImsAgent
unfolding got_period_data
ims_period_data a =
    let (p, got) = got_period_data a.precnt a.curcnt in (got, record a { precnt = p })
