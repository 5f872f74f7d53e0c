-- ===== src/Session/Media/Overflow.antt =====
-- src/codecconverter.cpp, `cbImsToWeb`: a packet that leaves no room for libsrtp's tag.
use media_gateway_v4_7_1_sde.Base.{
  ℕ, ◌+◌, ◌≤◌, ◌<◌, ◌≡◌, true, false, some, List, length, take, fault, buffer_overflow, arith,
  length-take, lt→leb,
}
use media_gateway_v4_7_1_sde.Rtp.{Srtp, Stream, encrypt_data}
use media_gateway_v4_7_1_sde.Agents.Web.{WebAgent}
use media_gateway_v4_7_1_sde.Agents.Web.Data.{
  send_web, encrypt_and_send, is_closed, web_video, write_back,
}
use media_gateway_v4_7_1_sde.Session.Media.{
  Media, at_ims_to_web, media_step, ims_to_web_round, recv_from,
}
use media_gateway_v4_7_1_sde.Session.Media.Arrays.{length-recv_from, length-web_video}

write_back_overflow :
    (packet buf : List ℕ)
    → length buf < length packet
    → write_back packet buf ≡ fault buffer_overflow
unfolding write_back
write_back_overflow packet buf h = rw (lt→leb (length buf) (length packet) h)

module _ (lib : Srtp) (s : Stream) where
  -- `srtp_protect` puts a tag of 10 bytes behind a packet with a whole RTP header that it protects;
  -- a shorter one it refuses.
  abbrev pub Tags : Type 0
  Tags =
      (q : List ℕ)
      → 12 ≤ length q
      → (lib.srtp_protect s q).0 ≡ 0
      → length (lib.srtp_protect s q).1 ≡ length q + 10

  overflow_send :
      (buf : List ℕ) (len : ℕ) (w : WebAgent)
      → Tags
      → (lib.srtp_protect s (take len (web_video buf w))).0 ≡ 0
      → is_closed w ≡ false
      → w.rtp_converter.session_encrypt ≡ some s
      → 12 ≤ len
      → len ≤ length buf
      → length buf < len + 10
      → send_web lib buf len true w ≡ fault buffer_overflow
  unfolding send_web encrypt_and_send encrypt_data
  overflow_send buf len w tag good ready session header within long =
      let buf' = web_video buf w in
      let whole : length (take len buf') ≡ len =
        omega (arith, length-take len buf', length-web_video buf w) in
      rw (ready, session)
        (rw (
          write_back_overflow (lib.srtp_protect s (take len buf')).1 buf' (
            omega (
              arith,
              tag (take len buf') (omega (arith, whole)) good,
              whole,
              length-web_video buf w,
            ))))

  -- The packet that `sendData` gives to `srtp_protect` for a packet from the codec server.
  abbrev pub handed : List ℕ → Media → List ℕ
  handed p m = let r = recv_from p m.ims_to_web_buf in take r.1 (web_video r.0 m.agents.web)

  -- In a session that is ready, where libsrtp puts a tag of 10 bytes behind a packet that it
  -- protects, a packet of more than 2995 bytes from the codec server, if libsrtp protects it, makes
  -- `cbImsToWeb` write past its array.
  pub media_step-buffer_overflow :
      (unset : ℕ) (p : List ℕ) (m : Media)
      → Tags
      → (lib.srtp_protect s (handed p m)).0 ≡ 0
      → is_closed m.agents.web ≡ false
      → m.agents.web.rtp_converter.session_encrypt ≡ some s
      → length m.ims_to_web_buf ≡ 3005
      → 2995 < length p
      → media_step lib unset (at_ims_to_web (some p)) m ≡ fault buffer_overflow
  unfolding media_step ims_to_web_round
  media_step-buffer_overflow unset p m tag good ready session size long =
      let (buf, len) = recv_from p m.ims_to_web_buf in
      let (all, received) = length-recv_from p m.ims_to_web_buf size in
      rw (
        overflow_send buf len m.agents.web tag good ready session (omega arith) (omega arith)
          (omega arith))
