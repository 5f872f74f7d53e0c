-- ===== src/Tests/Descriptions.antt =====
-- Session descriptions at concrete inputs.
use media_gateway_v4_7_1_sde.Base.{
  ℕ, ◌≡◌, refl, ◌++◌, Bool, true, some, List, [], ◌∷◌, Text, codes, negsuc, pos, Returns, Yields,
  ok, IsBytes, replicate, arith,
}
use media_gateway_v4_7_1_sde.Text.{atoi, int_to_string, find, search}
use media_gateway_v4_7_1_sde.Sdp.{
  SessionType, audio_supported, codec_payload, payload, get_crypto_info, replace_crypto, crypto_80,
}
use media_gateway_v4_7_1_sde.Agents.{Effect, main_codecs}
use media_gateway_v4_7_1_sde.Agents.Web.{
  WebAgent, new_web_agent, handle_sdp_from_web, web_tailing_jobs,
}
use media_gateway_v4_7_1_sde.Agents.Web.Keys.{browser_key, with_sessions}
use media_gateway_v4_7_1_sde.Sdp.Keys.{with_key}
use media_gateway_v4_7_1_sde.Sdp.NewKey.{first_line, get_crypto_info-replace_crypto}
use media_gateway_v4_7_1_sde.Base64.{base64_encode}
use media_gateway_v4_7_1_sde.Agents.Ims.{handle_sdp_from_ims}
use media_gateway_v4_7_1_sde.Agents.Descriptions.{
  handle_sdp_from_web-Returns, handle_sdp_from_ims-Returns,
}
use media_gateway_v4_7_1_sde.Tests.Fixtures.{new_agents, srtp}

find_word : find (codes "hello world") (codes "wor") 0 ≡ 6
unfolding find search
find_word = refl

atoi_negative : atoi (codes "-17x") ≡ negsuc 16
unfolding atoi
atoi_negative = refl

int_to_string_negative : int_to_string (negsuc 120) ≡ codes "-121"
unfolding int_to_string
int_to_string_negative = refl

abbrev a_description : Text
a_description =
    codes "m=audio 1 RTP/SAVPF 0 8\r\na=crypto:1 AES_CM_128_HMAC_SHA1_80 inline:KEY\r\n"
    ++ codes "m=video 1 RTP/SAVPF 100\r\na=rtpmap:100 VP8/90000\r\n"

pcma_offered : audio_supported a_description ≡ some true
unfolding audio_supported find search media_gateway_v4_7_1_sde.Text.eq_text
    media_gateway_v4_7_1_sde.Text.substr
pcma_offered = refl

vp8_offered : codec_payload (codes "VP8") a_description ≡ payload (pos 100)
unfolding codec_payload find search atoi media_gateway_v4_7_1_sde.Text.eq_text
    media_gateway_v4_7_1_sde.Text.substr
vp8_offered = refl

key_offered : get_crypto_info a_description ≡ codes "KEY"
unfolding get_crypto_info find search media_gateway_v4_7_1_sde.Text.substr
key_offered = refl

handle_sdp_from_web-Returns_example : Returns (handle_sdp_from_web a_description new_agents.web)
handle_sdp_from_web-Returns_example = handle_sdp_from_web-Returns a_description new_agents.web

handle_sdp_from_ims-Returns_example :
    Returns (handle_sdp_from_ims main_codecs 0 0 a_description new_agents.ims)
handle_sdp_from_ims-Returns_example =
    handle_sdp_from_ims-Returns main_codecs 0 0 a_description new_agents.ims

abbrev own_key : List ℕ
own_key =
    164 ∷ 32 ∷ 180 ∷ 121 ∷ 209 ∷ 206 ∷ 193 ∷ 3 ∷ 174 ∷ 193 ∷ 125 ∷ 38 ∷ 227 ∷ 237 ∷ 119 ∷ 230 ∷ 120
    ∷ 165 ∷ 247 ∷ 27 ∷ 121 ∷ 46 ∷ 191 ∷ 94 ∷ 197 ∷ 81 ∷ 123 ∷ 26 ∷ 206 ∷ 38 ∷ []

abbrev browser_bytes : List ℕ
browser_bytes = replicate 30 7

abbrev audio_line : Text
audio_line = codes "m=audio 1 RTP/SAVPF 0 8\r\n"

own_key-IsBytes : IsBytes own_key
own_key-IsBytes = ground arith

browser_bytes-IsBytes : IsBytes browser_bytes
browser_bytes-IsBytes = ground arith

browser_key_example :
    (r : Bool × SessionType × WebAgent × List Effect) × (handle_sdp_from_web
        (with_key audio_line browser_bytes [])
        new_agents.web
      ≡ ok r)
    × (web_tailing_jobs srtp r.2
        ≡ ok (record r.2 { rtp_converter = with_sessions own_key browser_bytes }))
unfolding find search base64_encode new_web_agent
browser_key_example =
    browser_key srtp audio_line [] browser_bytes own_key new_agents.web browser_bytes-IsBytes
      own_key-IsBytes refl refl refl (omega arith) refl refl refl

-- The agent's own key is put into the description of `a_description` and found there.
get_crypto_info-replace_crypto_example :
    Yields
      (λ (u : Text). get_crypto_info u ≡ new_agents.web.crypto_to_web)
      (replace_crypto
        (first_line audio_line crypto_80 (codes "KEY") (codes "a=sendrecv\r\n"))
        new_agents.web.crypto_to_web)
unfolding find search new_web_agent
get_crypto_info-replace_crypto_example =
    get_crypto_info-replace_crypto audio_line (codes "KEY") (codes "a=sendrecv\r\n")
      new_agents.web.crypto_to_web refl (omega arith) (omega arith) (omega arith) (omega arith)
