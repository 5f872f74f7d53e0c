-- ===== src/Sdp.antt =====
-- The session descriptions: the texts of include/commontype.h, and the scans of a description that
-- src/webagent.cpp and src/imsagent.cpp share.
pub mod Rounds
pub mod Keys
pub mod Replace
pub mod NewKey
use media_gateway_v4_7_1_sde.Base.{
  ℕ, zero, suc, ◌+◌, Bool, true, false, not, ◌||◌, Option, none, some, ltb, ◌==◌, if◌then◌else◌,
  length, Text, codes, ℤ, pos, Run, ok, fault, no_rounds,
}
use media_gateway_v4_7_1_sde.Text.{npos, eq_text, find, substr, replace, minus, behind, crlf, atoi}

-- `enum SessionType`
pub data SessionType : Type 0 where
  audio video : SessionType

abbrev pub pt_h263_default : ℤ
pt_h263_default = pos 102

abbrev pub pt_h264_default : ℤ
pt_h264_default = pos 98

abbrev pub pt_vp8_default : ℤ
pt_vp8_default = pos 112

abbrev pub pt_pcma_default : ℤ
pt_pcma_default = pos 8

abbrev pub ice_ufrag : Text
ice_ufrag = codes "a=ice-ufrag:"

abbrev pub ice_pwd : Text
ice_pwd = codes "a=ice-pwd:"

abbrev pub crypto_80 : Text
crypto_80 = codes "a=crypto:1 AES_CM_128_HMAC_SHA1_80 inline:"

-- `beginPos = sdp.find(tag)`, then, behind the tag, the text up to `stop`: the scan that
-- `getCryptoInfo`, `getIceInfo` and `getRemoteIpAndPort` make. `none` where a `find` fails.
unfoldable pub param : Text → Text → Text → Option Text
param tag stop sdp =
    let begin = find sdp tag 0 in
    if begin == npos
    then none
    else let begin' = begin + length tag in
      let end = find sdp stop begin' in
      if end == npos then none else some (substr sdp begin' (minus end begin'))

-- `WebAgent::getCryptoInfo`
unfoldable pub get_crypto_info : Text → Text
unfolding param
get_crypto_info sdp = elim (param crypto_80 crlf sdp) [ none ↦ codes "NULL" | some key ↦ key ]

abbrev pub get_text : Option Text → Text → Text
get_text none old = old
get_text (some t) old = t

-- `WebAgent::getIceInfo`: `ufrag` and `pwd` keep what they hold where the scan fails.
unfoldable pub get_ice_info : Text → Text → Text → Text × Text
unfolding param
get_ice_info sdp ufrag pwd =
    (get_text (param ice_ufrag crlf sdp) ufrag, get_text (param ice_pwd crlf sdp) pwd)

-- The loop over the payload types of the audio line, from `begin` to the line's end `end`. `none`:
-- the rounds ran out.
unfoldable pub audio_loop : ℕ → Text → ℕ → ℕ → Option Bool
audio_loop zero sdp begin end = none
audio_loop (suc fuel) sdp begin end =
    let p2 = find sdp (codes " ") begin in
    let last = substr sdp begin (minus (find sdp crlf begin) begin) in
    let rest = audio_loop fuel sdp (p2 + 1) end in
    if not (ltb begin end)
    then some true
    else if p2 == npos || ltb end p2
    then some (eq_text last (codes "8"))
    else if eq_text (substr sdp begin (minus p2 begin)) (codes "8")
    then some true
    else rest

abbrev pub m_audio : Text
m_audio = codes "m=audio "

-- The audio part of `handleSdpFromWeb` and of `handleSdpFromIMS`: whether the audio line has 8,
-- PCMA, among its payload types.
unfoldable pub audio_supported : Text → Option Bool
unfolding audio_loop
audio_supported sdp =
    let begin = find sdp m_audio 0 in
    if begin == npos
    then some false
    else let port = begin + length m_audio in
      let proto = behind (find sdp (codes " ") port) in
      let formats = behind (find sdp (codes " ") proto) in
      audio_loop (suc (length sdp)) sdp formats (find sdp (codes "\n") formats)

-- How the search for the payload type of a codec ends.
pub data Codec : Type 0 where
  payload : ℤ → Codec
  missing : Codec
  endless : Codec

abbrev pub rtpmap : Text
rtpmap = codes "a=rtpmap:"

-- The `do ... while(true)` loop over the `a=rtpmap:` lines.
unfoldable pub rtpmap_loop : ℕ → Text → Text → ℕ → Codec
rtpmap_loop zero name sdp begin = endless
rtpmap_loop (suc fuel) name sdp begin =
    let found = find sdp rtpmap begin in
    let begin' = found + length rtpmap in
    let end = find sdp (codes " ") begin' in
    let rest = rtpmap_loop fuel name sdp begin' in
    if found == npos
    then missing
    else if eq_text (substr sdp (behind end) (length name)) name
    then payload (atoi (substr sdp begin' (minus end begin')))
    else rest

unfoldable pub codec_payload : Text → Text → Codec
unfolding rtpmap_loop
codec_payload name sdp = rtpmap_loop (suc (length sdp)) name sdp 0

-- The loop of `WebAgent::replaceCrypto`, and one half of a round of `replaceUfragPwd`.
unfoldable pub replace_loop : ℕ → Text → Text → Text → ℕ → Run Text
replace_loop zero tag value sdp begin = fault no_rounds
replace_loop (suc fuel) tag value sdp begin =
    let begin' = begin + length tag in
    let end = find sdp crlf begin' in
    let sdp' = replace sdp begin' (minus end begin') value in
    let rest = replace_loop fuel tag value sdp' (find sdp' tag end) in
    if begin == npos then ok sdp else if end == npos then ok sdp else rest

unfoldable pub replace_crypto : Text → Text → Run Text
unfolding replace_loop
replace_crypto sdp crypto =
    replace_loop (suc (length sdp)) crypto_80 crypto sdp (find sdp crypto_80 0)

-- One `if` of `replaceUfragPwd`: the text and the position behind the tag, where one is found.
unfoldable pub replace_at : Text → Text → Text → ℕ → Text × ℕ
replace_at tag value sdp begin =
    if begin == npos
    then (sdp, npos)
    else let begin' = begin + length tag in
      let end = find sdp crlf begin' in
      (if end == npos then sdp else replace sdp begin' (minus end begin') value, begin')

unfoldable pub ufrag_pwd_loop : ℕ → Text → Text → Text → ℕ → Run Text
unfolding replace_at
ufrag_pwd_loop zero ufrag pwd sdp begin = fault no_rounds
ufrag_pwd_loop (suc fuel) ufrag pwd sdp begin =
    let (sdp1, begin1) = replace_at ice_ufrag ufrag sdp begin in
    let (sdp2, begin2) = replace_at ice_pwd pwd sdp1 (find sdp1 ice_pwd begin1) in
    let rest = ufrag_pwd_loop fuel ufrag pwd sdp2 (find sdp2 ice_ufrag begin2) in
    if begin == npos then ok sdp else rest

unfoldable pub replace_ufrag_pwd : Text → Text → Text → Run Text
unfolding ufrag_pwd_loop
replace_ufrag_pwd ufrag pwd sdp =
    ufrag_pwd_loop (suc (length sdp)) ufrag pwd sdp (find sdp ice_ufrag 0)
