-- ===== src/Agents/Web/Data.antt =====
-- src/webagent.cpp, the media: sendData, sendrtcp and receiveDataCallback. A packet stands at the
-- beginning of an array, and its length beside it: a packet shorter than an RTP header is read
-- together with what the array held before.
use media_gateway_v4_7_1_sde.Base.{
  ℕ, ◌+◌, ◌-◌, ◌%◌, ◌^◌, Bool, false, not, ◌||◌, ◌&&◌, List, [], ◌∷◌, ◌++◌, if◌then◌else◌, ◌==◌,
  leb, length, take, drop, get_or, be32, Text, wrap, pos, eq_ℤ, Run, ok, fault, buffer_overflow,
  ◌>>=◌,
}
use media_gateway_v4_7_1_sde.Text.{atoi, skip_spaces, digits_value}
use media_gateway_v4_7_1_sde.Rtp.{Srtp, encrypt_data, decrypt_data, encrypt_rtcp}
use media_gateway_v4_7_1_sde.RtpHeader.{payload, set_payload, set_ssrc}
use media_gateway_v4_7_1_sde.Agents.{Effect, to_web, bump}
use media_gateway_v4_7_1_sde.Agents.Web.{WebAgent}
use media_gateway_v4_7_1_sde.Agents.Codec.{CodecConverter, convert_and_send}
use media_gateway_v4_7_1_sde.Agents.Ims.{ImsAgent, send_ims}

-- A call's result at the beginning of the array that it was given.
unfoldable pub write_back : List ℕ → List ℕ → Run (List ℕ)
write_back packet buf =
    if leb (length packet) (length buf)
    then ok (packet ++ drop (length packet) buf)
    else fault buffer_overflow

-- `isReady == 0 || con->isReady() == false`
unfoldable pub is_closed : WebAgent → Bool
is_closed w = not w.is_ready || not w.rtp_converter.ready

-- The array once `sendData` has set the source of an audio packet, or source and payload type of a
-- video packet.
abbrev pub web_audio : List ℕ → WebAgent → List ℕ
web_audio buf w = set_ssrc (wrap (2 ^ 32) (atoi w.audio_ssrc)) buf

abbrev pub web_video : List ℕ → WebAgent → List ℕ
web_video buf w =
    set_payload (wrap 128 w.v_payload) (set_ssrc (wrap (2 ^ 32) (atoi w.video_ssrc)) buf)

-- `header->payload != aPayload || mediaData[0] != 0x80`
abbrev pub is_foreign : List ℕ → WebAgent → Bool
is_foreign buf w = not (eq_ℤ (pos (payload buf)) w.a_payload) || not (get_or buf 0 0 == 0x80)

-- What stops `receiveDataCallback` before it looks at the payload type.
abbrev pub is_ignored : ℕ → List ℕ → WebAgent → Bool
is_ignored component buf w = not (component == 1) || is_closed w || not (get_or buf 0 0 == 0x80)

-- What `ss >> n` stores in an `unsigned int`: nothing where the text has no character left but
-- spaces, 0 where no number begins, and the largest one where it does not fit.
unfoldable pub extract_unsigned : ℕ → Text → ℕ
extract_unsigned unset text = elim (skip_spaces text) [
  | [] ↦ unset
  | c ∷ cs ↦
      let digits = if c == b'-' || c == b'+' then cs else c ∷ cs in
      let n = digits_value 0 digits in
      if leb (2 ^ 32) n then 2 ^ 32 - 1 else if c == b'-' then (2 ^ 32 - n) % 2 ^ 32 else n
]

-- The variables `a` of `sendrtcp` and `cnt` of `receiveDataCallback`, which all agents share.
pub record Statics : Type 0 where
  pub a : ℕ
  pub cnt : ℕ

unfoldable pub new_statics : Statics
new_statics = record { a = 2; cnt = 0 }

abbrev pub send_rtcp_interval : ℕ
send_rtcp_interval = 188

-- The packet that `sendrtcp` builds, a payload-specific feedback message: the fifth word begins
-- with the byte `a`.
unfoldable pub rtcp_packet : ℕ → ℕ → List ℕ
rtcp_packet sc a =
    0x84 ∷ 206 ∷ 0 ∷ 4 ∷ 0 ∷ 0 ∷ 0 ∷ 1 ∷ 0 ∷ 0 ∷ 0 ∷ 0 ∷ (be32 sc ++ a ∷ 0 ∷ 0 ∷ 0 ∷ [])

module _ (lib : Srtp) where
  -- The end of `sendData`, of both branches.
  unfoldable pub encrypt_and_send : List ℕ → ℕ → WebAgent → Run (List ℕ × WebAgent × List Effect)
  encrypt_and_send buf len w = do
    (status, packet, c) ← encrypt_data lib (take len buf) w.rtp_converter
    buf' ← write_back packet buf
    ok (
      buf',
      record w { rtp_converter = c },
      if w.is_ready && status == 0 then to_web packet ∷ [] else [],
    )

  -- `WebAgent::sendData`; `is_video` is `type`. The array, the agent, and what is sent.
  unfoldable pub send_web : List ℕ → ℕ → Bool → WebAgent → Run (List ℕ × WebAgent × List Effect)
  unfolding is_closed
  send_web buf len is_video w =
      if is_closed w
      then ok (buf, w, [])
      else if is_video
      then encrypt_and_send (web_video buf w) len w
      else if is_foreign (web_audio buf w) w
      then ok (web_audio buf w, w, [])
      else encrypt_and_send (web_audio buf w) len w

  -- `WebAgent::sendrtcp`: whatever `encryptRTCP` says, its packet is sent. `unset` is what `sc`
  -- holds before it is read.
  unfoldable pub send_rtcp : ℕ → Statics → WebAgent → Run (Statics × WebAgent × List Effect)
  unfolding is_closed extract_unsigned rtcp_packet
  send_rtcp unset st w =
      let a = (st.a + 1) % 256 in
      let st' : Statics = record st { a = a } in
      if is_closed w
      then ok (st', w, [])
      else (encrypt_rtcp lib (rtcp_packet (extract_unsigned unset w.video_ssrc_from_web) a)
            w.rtp_converter
          >>= λ r. ok (st', record w { rtp_converter = r.2 }, to_web r.1 ∷ []))

  -- The count of video packets: every `send_rtcp_interval`th sends an RTCP packet.
  unfoldable pub count_video : ℕ → Statics → WebAgent → Run (Statics × WebAgent × List Effect)
  count_video unset st w =
      if st.cnt + 1 == send_rtcp_interval
      then (send_rtcp unset st w >>= λ r. ok (record r.0 { cnt = 0 }, r.1, r.2))
      else ok (record st { cnt = st.cnt + 1 }, w, [])

  -- The call of `decryptData`, whose status is dropped: the array, the packet's length behind it.
  unfoldable pub decrypt_in : List ℕ → ℕ → WebAgent → Run (List ℕ × ℕ × WebAgent)
  decrypt_in buf len w = do
    (status, packet, c) ← decrypt_data lib (take len buf) w.rtp_converter
    buf' ← write_back packet buf
    ok (buf', length packet, record w { rtp_converter = c })

  -- `WebAgent::receiveDataCallback`, with the IMS agent and the converter that the agent knows.
  unfoldable pub receive_data :
      ℕ
      → ℕ
      → List ℕ
      → ℕ
      → ImsAgent
      → CodecConverter
      → Statics
      → WebAgent
      → Run (Statics × WebAgent × List Effect)
  unfolding is_closed count_video decrypt_in
  receive_data unset component buf len ims codec st w =
      if is_ignored component buf w
      then ok (st, w, [])
      else if eq_ℤ (pos (payload buf)) w.a_payload
      then (decrypt_in buf len (record w { curcnt = bump w.curcnt }) >>= λ r.
          ok (st, r.2, (send_ims r.0 r.1 false ims).1))
      else if eq_ℤ (pos (payload buf)) w.v_payload
      then (count_video unset st w >>= λ c.
          decrypt_in buf len (record c.1 { curcnt = bump c.1.curcnt }) >>= λ r.
          ok (c.0, r.2, c.2 ++ (convert_and_send r.0 r.1 codec).1))
      else ok (st, w, [])
