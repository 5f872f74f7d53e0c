-- ===== src/Session/Media/Secrecy.antt =====
-- The media of a session, src/webagent.cpp: what goes to the browser, and when nothing does.
use media_gateway_v4_7_1_sde.Base.{
  ℕ, ◌+◌, ◌%◌, eq_ℤ, pos, ◌≡◌, refl, ap, ◌∙◌, Bool, true, false, ◌&&◌, ◌⊎◌, inl, inr, none, some,
  List, [], ◌∷◌, ◌++◌, All, All-append, ◌==◌, if◌then◌else◌, take, ok, Ensures, Ensures-ok,
  Ensures-if, Ensures-bind, Option-cases, Ensures-fault, Bool-cases, arith,
}
use media_gateway_v4_7_1_sde.Rtp.{Srtp, Stream, Converter, encrypt_data, encrypt_rtcp}
use media_gateway_v4_7_1_sde.Agents.{
  Effect, bump, to_signalling, to_web, to_ims_audio, to_ims_video, to_codec, remote_credentials,
  remote_candidates, start_ffmpeg,
}
use media_gateway_v4_7_1_sde.RtpHeader.{payload}
use media_gateway_v4_7_1_sde.Agents.Ims.{ImsAgent, send_ims}
use media_gateway_v4_7_1_sde.Agents.Codec.{CodecConverter, convert_and_send}
use media_gateway_v4_7_1_sde.Agents.Web.{WebAgent}
use media_gateway_v4_7_1_sde.Agents.Web.Data.{
  Statics, send_web, send_rtcp, encrypt_and_send, write_back, is_closed, count_video, receive_data,
  is_ignored, is_foreign, web_audio, web_video, send_rtcp_interval, decrypt_in, rtcp_packet,
  extract_unsigned,
}
use media_gateway_v4_7_1_sde.Session.Media.{
  Media, MediaEvent, from_browser, at_ims_video, at_ims_audio, at_web_to_ims, at_ims_to_web,
  media_step, media_run, browser_round, ims_video_round, web_to_ims_round, ims_audio_round,
  ims_to_web_round,
}

module _ (lib : Srtp) where
  open lib use {srtp_protect, srtp_protect_rtcp}

  -- A packet to the browser is what libsrtp made of another one, for media with success.
  unfoldable pub IsProtected : Effect → Type 0
  IsProtected (to_web p) =
      (s : Stream) × (plain : List ℕ) × ((srtp_protect s plain ≡ (0, p))
        ⊎ ((srtp_protect_rtcp s plain).1 ≡ p))
  IsProtected (to_signalling t) = Unit
  IsProtected (to_ims_audio p) = Unit
  IsProtected (to_ims_video p) = Unit
  IsProtected (to_codec b p) = Unit
  IsProtected (remote_credentials u p) = Unit
  IsProtected (remote_candidates n cs) = Unit
  IsProtected (start_ffmpeg p c) = Unit

  encrypt_data-protects :
      (plain : List ℕ) (c : Converter)
      → Ensures
          (λ (r : ℕ × List ℕ × Converter). (s : Stream) × (srtp_protect s plain ≡ (r.0, r.1)))
          (encrypt_data lib plain c)
  unfolding encrypt_data
  encrypt_data-protects plain c = elim (Option-cases c.session_encrypt) [
    | inl e ↦ rw e (Ensures-fault _)
    | inr (s, e) ↦ rw e (Ensures-ok _ (s, refl))
  ]

  encrypt_rtcp-protects :
      (plain : List ℕ) (c : Converter)
      → Ensures
          (λ (r : ℕ × List ℕ × Converter). (s : Stream) × ((srtp_protect_rtcp s plain).1 ≡ r.1))
          (encrypt_rtcp lib plain c)
  unfolding encrypt_rtcp
  encrypt_rtcp-protects plain c = elim (Option-cases c.session_encrypt) [
    | inl e ↦ rw e (Ensures-fault _)
    | inr (s, e) ↦ rw e (Ensures-ok _ (s, refl))
  ]

  abbrev Sent {ℓ} : {A : Type ℓ} → A × WebAgent × List Effect → Type 0
  Sent r = All IsProtected r.2

  status_zero : (b : Bool) (n : ℕ) → (b && n == 0) ≡ true → n ≡ 0
  status_zero b n h = ground arith

  media_packet :
      (b : Bool) (s : Stream) (plain p : List ℕ) (status : ℕ)
      → srtp_protect s plain ≡ (status, p)
      → All IsProtected (if b && status == 0 then to_web p ∷ [] else [])
  unfolding IsProtected
  media_packet b s plain p status e = elim (Bool-cases (b && status == 0)) [
    | inl h ↦ rw h ((s, plain, inl (e ∙ ap (λ (n : ℕ). (n, p)) (status_zero b status h))), tt)
    | inr h ↦ rw h tt
  ]

  encrypt_and_send-protects :
      (buf : List ℕ) (len : ℕ) (w : WebAgent) → Ensures Sent (encrypt_and_send lib buf len w)
  unfolding encrypt_and_send
  encrypt_and_send-protects buf len w =
      Ensures-bind Sent (encrypt_data lib (take len buf) w.rtp_converter) _ (λ r e.
        let (s, h) = (encrypt_data-protects (take len buf) w.rtp_converter).result e in
        Ensures-bind Sent (write_back r.1 buf) _ (λ buf' _.
          Ensures-ok Sent
            {a = (
              buf',
              record w { rtp_converter = r.2 },
              if w.is_ready && r.0 == 0 then to_web r.1 ∷ [] else [],
            )}
            (media_packet w.is_ready s (take len buf) r.1 r.0 h)))

  sends_nothing {ℓ} : {A : Type ℓ} (a : A) (w : WebAgent) → Ensures Sent (ok (a, w, []))
  sends_nothing a w = Ensures-ok Sent {a = (a, w, [])} tt

  send_web-protects :
      (buf : List ℕ) (len : ℕ) (b : Bool) (w : WebAgent) → Ensures Sent (send_web lib buf len b w)
  unfolding send_web
  send_web-protects buf len b w = Ensures-if Sent (is_closed w) (sends_nothing buf w) (
      Ensures-if Sent b (encrypt_and_send-protects (web_video buf w) len w) (
        Ensures-if Sent (is_foreign (web_audio buf w) w) (sends_nothing (web_audio buf w) w)
          (encrypt_and_send-protects (web_audio buf w) len w)))

  send_rtcp-protects :
      (unset : ℕ) (st : Statics) (w : WebAgent) → Ensures Sent (send_rtcp lib unset st w)
  unfolding send_rtcp IsProtected
  send_rtcp-protects unset st w =
      let packet = rtcp_packet (extract_unsigned unset w.video_ssrc_from_web) ((st.a + 1) % 256) in
      Ensures-if Sent (is_closed w) (sends_nothing (record st { a = (st.a + 1) % 256 }) w) (
        Ensures-bind Sent (encrypt_rtcp lib packet w.rtp_converter) _ (λ r e.
          let (s, h) = (encrypt_rtcp-protects packet w.rtp_converter).result e in
          Ensures-ok Sent
            {a = (
              record st { a = (st.a + 1) % 256 },
              record w { rtp_converter = r.2 },
              to_web r.1 ∷ [],
            )}
            ((s, packet, inr h), tt)))

  count_video-protects :
      (unset : ℕ) (st : Statics) (w : WebAgent) → Ensures Sent (count_video lib unset st w)
  unfolding count_video
  count_video-protects unset st w =
      Ensures-if Sent (st.cnt + 1 == send_rtcp_interval)
        (Ensures-bind Sent (send_rtcp lib unset st w) _ (λ r e.
          Ensures-ok Sent {a = (record r.0 { cnt = 0 }, r.1, r.2)}
            ((send_rtcp-protects unset st w).result e)))
        (sends_nothing (record st { cnt = st.cnt + 1 }) w)

  receive_data-protects :
      (unset component : ℕ) (buf : List ℕ) (len : ℕ) (ims : ImsAgent) (codec : CodecConverter)
      (st : Statics) (w : WebAgent)
      → Ensures Sent (receive_data lib unset component buf len ims codec st w)
  unfolding receive_data send_ims convert_and_send IsProtected
  receive_data-protects unset component buf len ims codec st w =
      Ensures-if Sent (is_ignored component buf w) (sends_nothing st w) (
        Ensures-if Sent (eq_ℤ (pos (payload buf)) w.a_payload)
          (Ensures-bind Sent (decrypt_in lib buf len (record w { curcnt = bump w.curcnt })) _
            (λ r _. Ensures-ok Sent {a = (st, r.2, (send_ims r.0 r.1 false ims).1)} (tt, tt)))
          (Ensures-if Sent (eq_ℤ (pos (payload buf)) w.v_payload)
            (Ensures-bind Sent (count_video lib unset st w) _ (λ c e.
              Ensures-bind Sent (decrypt_in lib buf len (record c.1 { curcnt = bump c.1.curcnt })) _
                (λ r _.
                  Ensures-ok Sent {a = (c.0, r.2, c.2 ++ (convert_and_send r.0 r.1 codec).1)} (
                    All-append IsProtected c.2 (convert_and_send r.0 r.1 codec).1
                      ((count_video-protects unset st w).result e) (tt, tt)))))
            (sends_nothing st w)))

  abbrev AllSent : Media × List Effect → Type 0
  AllSent r = All IsProtected r.1

  media_step-protects :
      (unset : ℕ) (e : MediaEvent) (m : Media) → Ensures AllSent (media_step lib unset e m)
  unfolding media_step browser_round ims_video_round web_to_ims_round ims_audio_round
      ims_to_web_round convert_and_send send_ims IsProtected
  media_step-protects unset (from_browser component buf len) m =
      Ensures-bind AllSent
        (receive_data lib unset component buf len m.agents.ims m.agents.web_to_ims m.statics
          m.agents.web)
        _
        (λ r e. Ensures-ok AllSent (
          (receive_data-protects unset component buf len m.agents.ims m.agents.web_to_ims m.statics
              m.agents.web).result
            e))
  media_step-protects unset (at_ims_video none) m = Ensures-ok AllSent tt
  media_step-protects unset (at_ims_video (some p)) m = Ensures-ok AllSent (tt, tt)
  media_step-protects unset (at_web_to_ims none) m = Ensures-ok AllSent tt
  media_step-protects unset (at_web_to_ims (some p)) m = Ensures-ok AllSent (tt, tt)
  media_step-protects unset (at_ims_audio none) m = Ensures-ok AllSent tt
  media_step-protects unset (at_ims_audio (some p)) m =
      Ensures-bind AllSent (send_web lib _ _ false m.agents.web) _
        (λ r e. Ensures-ok AllSent ((send_web-protects _ _ false m.agents.web).result e))
  media_step-protects unset (at_ims_to_web none) m = Ensures-ok AllSent tt
  media_step-protects unset (at_ims_to_web (some p)) m =
      Ensures-bind AllSent (send_web lib _ _ true m.agents.web) _
        (λ r e. Ensures-ok AllSent ((send_web-protects _ _ true m.agents.web).result e))

  media_run-protects :
      (unset : ℕ) (es : List MediaEvent) (m : Media) → Ensures AllSent (media_run lib unset es m)
  unfolding media_run
  media_run-protects unset [] m = Ensures-ok AllSent tt
  media_run-protects unset (e ∷ es) m = Ensures-bind AllSent (media_step lib unset e m) _ (λ r h.
      Ensures-bind AllSent (media_run lib unset es r.0) _ (λ t f. Ensures-ok AllSent (
        All-append IsProtected r.1 t.1 ((media_step-protects unset e m).result h)
          ((media_run-protects unset es r.0).result f))))

  -- Whatever the threads of a session receive, in any order, if no array overflows and no missing
  -- session is used, then each packet that was sent to the browser was made by libsrtp: by
  -- `srtp_protect` with success, or by `srtp_protect_rtcp`.
  pub media_run-IsProtected :
      (unset : ℕ) (es : List MediaEvent) (m m' : Media) (sent : List Effect)
      → media_run lib unset es m ≡ ok (m', sent)
      → All IsProtected sent
  media_run-IsProtected unset es m m' sent e = (media_run-protects unset es m).result e
