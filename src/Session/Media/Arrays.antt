-- ===== src/Session/Media/Arrays.antt =====
-- src/webagent.cpp and src/codecconverter.cpp: the calls of libsrtp on the threads' arrays.
use media_gateway_v4_7_1_sde.Base.{
  ℕ, ◌+◌, ◌≤◌, ◌≡◌, refl, ◌∙◌, subst, Bool, false, some, List, [], length, take, drop,
  length-append, length-take, length-drop, length-set, eq_ℤ, pos, ◌==◌, Yields, Yields-ok,
  Yields-bind, Yields-if, arith, le→leb, wrap, ◌^◌, ◌%◌,
}
use Prim.Native.Nat.{min}
use media_gateway_v4_7_1_sde.Text.{atoi}
use media_gateway_v4_7_1_sde.Rtp.{Srtp, Stream, Converter, encrypt_data, encrypt_rtcp, decrypt_data}
use media_gateway_v4_7_1_sde.RtpHeader.{payload, set_payload, set_ssrc}
use media_gateway_v4_7_1_sde.Agents.{Effect, bump}
use media_gateway_v4_7_1_sde.Agents.Ims.{ImsAgent}
use media_gateway_v4_7_1_sde.Agents.Codec.{CodecConverter}
use media_gateway_v4_7_1_sde.Agents.Web.{WebAgent}
use media_gateway_v4_7_1_sde.Agents.Web.Data.{
  Statics, send_rtcp_interval, is_closed, is_ignored, is_foreign, web_audio, web_video,
  receive_data, count_video, send_rtcp, send_web, encrypt_and_send, decrypt_in, rtcp_packet,
  extract_unsigned, write_back,
}
use media_gateway_v4_7_1_sde.Session.Media.{recv_from}

-- What the documentation of libsrtp says of the buffers: with an authentication tag of 80 bits
-- `srtp_protect` appends at most 10 bytes, and `srtp_unprotect` only takes away.
pub record IsTagged (lib : Srtp) : Type 0 where
  pub protect_grows : (s : Stream) (p : List ℕ) → length (lib.srtp_protect s p).1 ≤ length p + 10
  pub unprotect_shrinks : (s : Stream) (p : List ℕ) → length (lib.srtp_unprotect s p).1 ≤ length p

-- Both sessions of the converter were made.
abbrev pub HasSessions : Converter → Type 0
HasSessions c =
    (s : Stream) × (t : Stream) × (c.session_encrypt ≡ some s) × (c.session_decrypt ≡ some t)

-- An agent that is ready has both sessions.
abbrev pub IsKeyed : WebAgent → Type 0
IsKeyed w = is_closed w ≡ false → HasSessions w.rtp_converter

pub length-set_ssrc : (n : ℕ) (buf : List ℕ) → length (set_ssrc n buf) ≡ length buf
unfolding set_ssrc
length-set_ssrc n buf = simp length-set

pub length-set_payload : (n : ℕ) (buf : List ℕ) → length (set_payload n buf) ≡ length buf
unfolding set_payload
length-set_payload n buf = length-set buf 1 _

length-web_audio : (buf : List ℕ) (w : WebAgent) → length (web_audio buf w) ≡ length buf
length-web_audio buf w = length-set_ssrc _ buf

pub length-web_video : (buf : List ℕ) (w : WebAgent) → length (web_video buf w) ≡ length buf
length-web_video buf w =
    length-set_payload _ (set_ssrc (wrap (2 ^ 32) (atoi w.video_ssrc)) buf) ∙ length-set_ssrc _ buf

not_ignored :
    (component : ℕ) (buf : List ℕ) (w : WebAgent)
    → is_ignored component buf w ≡ false
    → is_closed w ≡ false
not_ignored component buf w h = ground arith

pub length-recv_from :
    (packet buf : List ℕ)
    → length buf ≡ 3005
    → (length (recv_from packet buf).0 ≡ 3005)
      × ((recv_from packet buf).1 ≡ min 3005 (length packet))
unfolding recv_from
length-recv_from packet buf h = (
  omega (
    arith,
    h,
    length-append (take 3005 packet) (drop (length (take 3005 packet)) buf),
    length-drop (length (take 3005 packet)) buf,
    length-take 3005 packet,
  ),
  omega (arith, length-take 3005 packet),
)

write_back-Yields :
    (packet buf : List ℕ)
    → length packet ≤ length buf
    → Yields (λ (b : List ℕ). length b ≡ length buf) (write_back packet buf)
unfolding write_back
write_back-Yields packet buf h = rw (le→leb (length packet) (length buf) h) (
    Yields-ok _ _ (
      omega
        (arith, length-append packet (drop (length packet) buf), length-drop (length packet) buf)))

module _ (lib : Srtp) (tagged : IsTagged lib) where
  encrypt_data-Yields :
      (p : List ℕ) (c : Converter)
      → HasSessions c
      → Yields
          (λ (r : ℕ × List ℕ × Converter). (length r.1 ≤ length p + 10) × HasSessions r.2)
          (encrypt_data lib p c)
  unfolding encrypt_data
  encrypt_data-Yields p c (s, t, es, et) =
      rw es (Yields-ok _ _ (tagged.protect_grows s p, (_, t, refl, et)))

  decrypt_data-Yields :
      (p : List ℕ) (c : Converter)
      → HasSessions c
      → Yields
          (λ (r : ℕ × List ℕ × Converter). (length r.1 ≤ length p) × HasSessions r.2)
          (decrypt_data lib p c)
  unfolding decrypt_data
  decrypt_data-Yields p c (s, t, es, et) =
      rw et (Yields-ok _ _ (tagged.unprotect_shrinks t p, (s, _, es, refl)))

  encrypt_rtcp-Yields :
      (p : List ℕ) (c : Converter)
      → HasSessions c
      → Yields (λ (r : ℕ × List ℕ × Converter). HasSessions r.2) (encrypt_rtcp lib p c)
  unfolding encrypt_rtcp
  encrypt_rtcp-Yields p c (s, t, es, et) = rw es (Yields-ok _ _ (_, t, refl, et))

  -- What `sendData` leaves, of an array of this size.
  abbrev pub Sized : ℕ → List ℕ × WebAgent × List Effect → Type 0
  Sized n r = (length r.0 ≡ n) × IsKeyed r.1

  encrypt_and_send-Yields :
      (buf : List ℕ) (len : ℕ) (w : WebAgent)
      → len + 10 ≤ length buf
      → HasSessions w.rtp_converter
      → Yields (Sized (length buf)) (encrypt_and_send lib buf len w)
  unfolding encrypt_and_send
  encrypt_and_send-Yields buf len w room keyed =
      let P = Sized (length buf) in
      Yields-bind P _ (encrypt_data lib (take len buf) w.rtp_converter) _
        (encrypt_data-Yields (take len buf) w.rtp_converter keyed)
        (λ r h.
          Yields-bind P _ (write_back r.1 buf) _
            (write_back-Yields r.1 buf (omega (arith, length-take len buf)))
            (λ b e. Yields-ok P _ (e, λ _. h.1)))

  pub send_web-Yields :
      (buf : List ℕ) (len : ℕ) (b : Bool) (w : WebAgent)
      → len + 10 ≤ length buf
      → IsKeyed w
      → Yields (Sized (length buf)) (send_web lib buf len b w)
  unfolding send_web
  send_web-Yields buf len b w room keyed =
      let P = Sized (length buf) in
      Yields-if P (is_closed w) (λ _. Yields-ok P (buf, w, []) (refl, keyed))
        (λ ready.
          Yields-if P b
            (λ _.
              subst (λ (n : ℕ). Yields (Sized n) (encrypt_and_send lib (web_video buf w) len w))
                (length-web_video buf w)
                (encrypt_and_send-Yields (web_video buf w) len w
                  (omega (arith, length-web_video buf w)) (keyed ready)))
            (λ _.
              Yields-if P (is_foreign (web_audio buf w) w)
                (λ _. Yields-ok P (web_audio buf w, w, []) (length-web_audio buf w, keyed))
                (λ _.
                  subst (λ (n : ℕ). Yields (Sized n) (encrypt_and_send lib (web_audio buf w) len w))
                    (length-web_audio buf w)
                    (encrypt_and_send-Yields (web_audio buf w) len w
                      (omega (arith, length-web_audio buf w)) (keyed ready)))))

  abbrev pub Received : Statics × WebAgent × List Effect → Type 0
  Received r = IsKeyed r.1

  -- The agent still has its sessions.
  abbrev Kept : Statics × WebAgent × List Effect → Type 0
  Kept r = HasSessions r.1.rtp_converter

  send_rtcp-Yields :
      (unset : ℕ) (st : Statics) (w : WebAgent)
      → HasSessions w.rtp_converter
      → Yields Kept (send_rtcp lib unset st w)
  unfolding send_rtcp
  send_rtcp-Yields unset st w keyed =
      let packet = rtcp_packet (extract_unsigned unset w.video_ssrc_from_web) ((st.a + 1) % 256) in
      Yields-if Kept (is_closed w) (λ _. Yields-ok Kept _ keyed)
        (λ ready.
          Yields-bind Kept _ (encrypt_rtcp lib packet w.rtp_converter) _
            (encrypt_rtcp-Yields packet w.rtp_converter keyed) (λ r h. Yields-ok Kept _ h))

  count_video-Yields :
      (unset : ℕ) (st : Statics) (w : WebAgent)
      → HasSessions w.rtp_converter
      → Yields Kept (count_video lib unset st w)
  unfolding count_video
  count_video-Yields unset st w keyed =
      Yields-if Kept (st.cnt + 1 == send_rtcp_interval)
        (λ _.
          Yields-bind Kept Kept (send_rtcp lib unset st w) _ (send_rtcp-Yields unset st w keyed)
            (λ r h. Yields-ok Kept _ h))
        (λ _. Yields-ok Kept _ keyed)

  decrypt_in-Yields :
      (buf : List ℕ) (len : ℕ) (w : WebAgent)
      → len ≤ length buf
      → HasSessions w.rtp_converter
      → Yields
          (λ (r : List ℕ × ℕ × WebAgent). HasSessions r.2.rtp_converter)
          (decrypt_in lib buf len w)
  unfolding decrypt_in
  decrypt_in-Yields buf len w room keyed =
      Yields-bind _ _ (decrypt_data lib (take len buf) w.rtp_converter) _
        (decrypt_data-Yields (take len buf) w.rtp_converter keyed)
        (λ r h.
          Yields-bind _ _ (write_back r.1 buf) _
            (write_back-Yields r.1 buf (omega (arith, length-take len buf)))
            (λ b e. Yields-ok _ _ h.1))

  pub receive_data-Yields :
      (unset component : ℕ) (buf : List ℕ) (len : ℕ) (ims : ImsAgent) (codec : CodecConverter)
      (st : Statics) (w : WebAgent)
      → len ≤ length buf
      → IsKeyed w
      → Yields Received (receive_data lib unset component buf len ims codec st w)
  unfolding receive_data
  receive_data-Yields unset component buf len ims codec st w room keyed =
      Yields-if Received (is_ignored component buf w) (λ _. Yields-ok Received _ keyed)
        (λ heard.
          let sessions = keyed (not_ignored component buf w heard) in
          Yields-if Received (eq_ℤ (pos (payload buf)) w.a_payload)
            (λ _.
              Yields-bind Received _ (decrypt_in lib buf len (record w { curcnt = bump w.curcnt }))
                _ (decrypt_in-Yields buf len (record w { curcnt = bump w.curcnt }) room sessions)
                (λ r h. Yields-ok Received _ (λ _. h)))
            (λ _.
              Yields-if Received (eq_ℤ (pos (payload buf)) w.v_payload)
                (λ _.
                  Yields-bind Received _ (count_video lib unset st w) _
                    (count_video-Yields unset st w sessions)
                    (λ c k.
                      Yields-bind Received _
                        (decrypt_in lib buf len (record c.1 { curcnt = bump c.1.curcnt })) _
                        (decrypt_in-Yields buf len (record c.1 { curcnt = bump c.1.curcnt }) room k)
                        (λ r h. Yields-ok Received _ (λ _. h))))
                (λ _. Yields-ok Received _ keyed)))
