-- ===== src/Agents/Web/Describe.antt =====
-- src/webagent.cpp, `createSdpToWeb`: the description that the browser gets.
use media_gateway_v4_7_1_sde.Base.{[], ◌++◌, Text, codes, Run, ◌>>=◌}
use media_gateway_v4_7_1_sde.Text.{crlf, int_to_string}
use media_gateway_v4_7_1_sde.Sdp.{SessionType, audio, video, replace_ufrag_pwd, replace_crypto}
use media_gateway_v4_7_1_sde.Agents.Web.{WebAgent}

-- `WEB_SDP_BEGIN` and the two bundle lines of include/commontype.h
abbrev web_sdp_begin : Text
web_sdp_begin = codes "v=0\r\no=- 3407814663 2 IN IP4 127.0.0.1\r\ns=-\r\nt=0 0\r\n"

bundle : SessionType → Text
bundle audio = codes "a=group:BUNDLE audio\r\n"
bundle video = codes "a=group:BUNDLE audio video\r\n"

-- The lines that the two media have in common, from the media line to the key.
media_lines : Text → Text → Text
media_lines name payload =
    codes "m="
    ++ (name
        ++ (codes " 1 RTP/SAVPF "
            ++ (payload
                ++ (codes "\r\nc=IN IP4 0.0.0.0\r\na=rtcp:1 IN IP4 0.0.0.0\r\n"
                    ++ (codes
                          "a=ice-ufrag:V6oIgATQATtWFDI1\r\na=ice-pwd:0fvI8mFb2+EFTVarDx/RHNvW\r\n"
                        ++ (codes "a=sendrecv\r\na=mid:"
                            ++ (name
                                ++ (codes
                                      "\r\na=rtcp-mux\r\na=crypto:1 AES_CM_128_HMAC_SHA1_80 inline:"
                                    ++ codes "gnXrE0MSrzWLNu4VzjRm/A4d3ANy0gnpvDNXQlWd\r\n"))))))))

-- `SSRC`, `SSRC_END` and the two labels
source_lines : Text → Text → Text
source_lines ssrc label =
    codes "a=ssrc:"
    ++ (ssrc
        ++ (codes " cname:nuGkF01P6jVEX8n8\r\na=ssrc:"
            ++ (ssrc
                ++ (codes " mslabel:gUzyEDlZWN688rqW3YWb6Al1eqdok5HBdc7M\r\na=ssrc:"
                    ++ (ssrc
                        ++ (codes " label:gUzyEDlZWN688rqW3YWb6Al1eqdok5HBdc7M"
                            ++ (label ++ crlf)))))))

rtpmap_line : Text → Text → Text
rtpmap_line payload name = codes "a=rtpmap:" ++ (payload ++ (name ++ crlf))

video_part : SessionType → WebAgent → Text
unfolding media_lines source_lines rtpmap_line
video_part audio w = []
video_part video w =
    let v = int_to_string w.v_payload in
    media_lines (codes "video") v
    ++ (rtpmap_line v (codes " VP8/90000") ++ source_lines w.video_ssrc (codes "10"))

-- The text before the credentials and the key are put in.
description : SessionType → WebAgent → Text
unfolding bundle media_lines source_lines rtpmap_line video_part
description stype w =
    let a = int_to_string w.a_payload in
    web_sdp_begin
    ++ (bundle stype
        ++ (media_lines (codes "audio") a
            ++ (rtpmap_line a (codes " PCMA/8000")
                ++ (source_lines w.audio_ssrc (codes "00") ++ video_part stype w))))

-- `WebAgent::createSdpToWeb`
unfoldable pub create_sdp_to_web : SessionType → WebAgent → Run Text
unfolding description
create_sdp_to_web stype w = do
  sdp ← replace_ufrag_pwd w.local_ufrag w.local_pwd (description stype w)
  replace_crypto sdp w.crypto_to_web
