-- ===== src/Session/Media/Feedback.antt =====
-- src/webagent.cpp, `receiveDataCallback` and `sendrtcp`: how often the browser gets feedback on the
-- video that it sends.
use media_gateway_v4_7_1_sde.Base.{
  ℕ, suc, ◌+◌, ◌/◌, ◌%◌, ◌<◌, ◌≡◌, refl, ◌∙◌, ap, Bool, true, false, not, ◌||◌, ◌&&◌, sym, subst, ℤ,
  List, [], ◌∷◌, ◌++◌, All, map, length, get_or, take, pos, eq_ℤ, ◌==◌, ok, if◌then◌else◌, Ensures,
  Ensures-ok, Ensures-bind, Ensures-fault, Option-cases, Bool-cases, inl, inr, arith,
}
use media_gateway_v4_7_1_sde.Rtp.{Srtp, Converter, encrypt_rtcp, decrypt_data}
use media_gateway_v4_7_1_sde.RtpHeader.{payload}
use media_gateway_v4_7_1_sde.Agents.{Effect, bump, to_codec}
use media_gateway_v4_7_1_sde.Agents.Ims.{ImsAgent}
use media_gateway_v4_7_1_sde.Agents.Codec.{CodecConverter, convert_and_send}
use media_gateway_v4_7_1_sde.Agents.Web.{WebAgent}
use media_gateway_v4_7_1_sde.Agents.Web.Data.{
  Statics, send_rtcp_interval, is_closed, receive_data, count_video, send_rtcp, decrypt_in,
  rtcp_packet, extract_unsigned, write_back,
}
use media_gateway_v4_7_1_sde.Session.Media.{
  Media, MediaEvent, from_browser, media_step, media_run, browser_round,
}
use media_gateway_v4_7_1_sde.Session.Media.Closed.{is_to_web}

-- How many packets went to the browser.
unfoldable pub count_to_web : List Effect → ℕ
unfolding is_to_web
count_to_web [] = 0
count_to_web (e ∷ es) = let n = count_to_web es in if is_to_web e then suc n else n

count_to_web-append : (d e : List Effect) → count_to_web (d ++ e) ≡ count_to_web d + count_to_web e
unfolding count_to_web
count_to_web-append [] e = omega arith
count_to_web-append (x ∷ d) e = ground (arith, count_to_web-append d e)

-- A packet that `receiveDataCallback` takes for video, where a ready agent has these two payload
-- types, for audio and for video.
unfoldable pub is_video_packet : ℤ → ℤ → List ℕ → Bool
is_video_packet a v buf =
    get_or buf 0 0 == 0x80 && (not (eq_ℤ (pos (payload buf)) a) && eq_ℤ (pos (payload buf)) v)

three_tests : (x y z : Bool) → (x && (not y && z)) ≡ true → (x ≡ true) × (y ≡ false) × (z ≡ true)
three_tests x y z h = (ground arith, ground arith, ground arith)

only_codec :
    (sent : List Effect) (b : Bool) (p : List ℕ)
    → count_to_web (sent ++ to_codec b p ∷ []) ≡ count_to_web sent
unfolding count_to_web is_to_web
only_codec sent b p = omega (arith, count_to_web-append sent (to_codec b p ∷ []))

-- What the test of a packet depends on is the same in two agents.
abbrev SameTests : WebAgent → WebAgent → Type 0
SameTests w v =
    (is_closed v ≡ is_closed w) × (v.a_payload ≡ w.a_payload) × (v.v_payload ≡ w.v_payload)

module _ (lib : Srtp) where
  encrypt_rtcp-ready :
      (plain : List ℕ) (c : Converter)
      → Ensures (λ (r : ℕ × List ℕ × Converter). r.2.ready ≡ c.ready) (encrypt_rtcp lib plain c)
  unfolding encrypt_rtcp
  encrypt_rtcp-ready plain c = elim (Option-cases c.session_encrypt) [
    | inl e ↦ rw e (Ensures-fault _)
    | inr (s, e) ↦ rw e (Ensures-ok _ refl)
  ]

  decrypt_data-ready :
      (packet : List ℕ) (c : Converter)
      → Ensures (λ (r : ℕ × List ℕ × Converter). r.2.ready ≡ c.ready) (decrypt_data lib packet c)
  unfolding decrypt_data
  decrypt_data-ready packet c = elim (Option-cases c.session_decrypt) [
    | inl e ↦ rw e (Ensures-fault _)
    | inr (s, e) ↦ rw e (Ensures-ok _ refl)
  ]

  -- One more video packet was counted; `n` packets went to the browser.
  abbrev Counted : Statics → WebAgent → ℕ → Statics × WebAgent × List Effect → Type 0
  Counted st w n r =
      (r.0.cnt ≡ (st.cnt + n) % 188) × (count_to_web r.2 ≡ (st.cnt + n) / 188) × SameTests w r.1

  module _ (unset : ℕ) (st : Statics) (below : st.cnt < 188) (w : WebAgent)
      (ready : is_closed w ≡ false) where
    send_rtcp-sends :
        Ensures
          (λ (r : Statics × WebAgent × List Effect). (count_to_web r.2 ≡ 1) × SameTests w r.1)
          (send_rtcp lib unset st w)
    unfolding send_rtcp count_to_web is_to_web is_closed
    send_rtcp-sends =
        let packet =
          rtcp_packet (extract_unsigned unset w.video_ssrc_from_web) ((st.a + 1) % 256) in
        rw ready (
          Ensures-bind _ (encrypt_rtcp lib packet w.rtp_converter) _ (λ r e. Ensures-ok _ (
            refl,
            (
              ap (λ (b : Bool). not w.is_ready || not b)
                    ((encrypt_rtcp-ready packet w.rtp_converter).result e)
                  ∙ ready,
              refl,
              refl,
            ),
          )))

    count_video-counts : Ensures (Counted st w 1) (count_video lib unset st w)
    unfolding count_video count_to_web
    count_video-counts = elim (Bool-cases (st.cnt + 1 == send_rtcp_interval)) [
      | inl e ↦ rw e (
          Ensures-bind (Counted st w 1) (send_rtcp lib unset st w) _ (λ r h.
            let (one, same) = send_rtcp-sends.result h in
            Ensures-ok (Counted st w 1) {a = (record r.0 { cnt = 0 }, r.1, r.2)}
              (ground arith, ground arith, same)))
      | inr e ↦ rw e (
          Ensures-ok (Counted st w 1) {a = (record st { cnt = st.cnt + 1 }, w, [])}
            (ground arith, ground arith, (refl, refl, refl)))
    ]

  abbrev Feedback : ℕ → ℕ → Media × List Effect → Type 0
  Feedback cnt n r = (r.0.statics.cnt ≡ (cnt + n) % 188) × (count_to_web r.1 ≡ (cnt + n) / 188)

  module _ (unset : ℕ) where
    decrypt_in-SameTests :
        (buf : List ℕ) (len : ℕ) (w : WebAgent)
        → Ensures (λ (r : List ℕ × ℕ × WebAgent). SameTests w r.2) (decrypt_in lib buf len w)
    unfolding decrypt_in is_closed
    decrypt_in-SameTests buf len w =
        Ensures-bind _ (decrypt_data lib (take len buf) w.rtp_converter) _ (λ r e.
          Ensures-bind _ (write_back r.1 buf) _ (λ buf' _. Ensures-ok _ (
            ap (λ (b : Bool). not w.is_ready || not b)
                ((decrypt_data-ready (take len buf) w.rtp_converter).result e),
            refl,
            refl,
          )))

    receive_data-counts :
        (buf : List ℕ) (len : ℕ) (ims : ImsAgent) (codec : CodecConverter) (st : Statics)
        (w : WebAgent)
        → st.cnt < 188
        → is_closed w ≡ false
        → is_video_packet w.a_payload w.v_payload buf ≡ true
        → Ensures (Counted st w 1) (receive_data lib unset 1 buf len ims codec st w)
    unfolding receive_data is_video_packet convert_and_send is_closed
    receive_data-counts buf len ims codec st w below ready video =
        let (first, not_audio, is_video) =
          three_tests (get_or buf 0 0 == 0x80) (eq_ℤ (pos (payload buf)) w.a_payload)
            (eq_ℤ (pos (payload buf)) w.v_payload) video in
        rw (ready, first, not_audio, is_video)
          (Ensures-bind (Counted st w 1) (count_video lib unset st w) _ (λ c e.
            let (cnt, sent, same) = (count_video-counts unset st below w ready).result e in
            Ensures-bind (Counted st w 1)
              (decrypt_in lib buf len (record c.1 { curcnt = bump c.1.curcnt })) _
              (λ r h.
                let kept =
                  (decrypt_in-SameTests buf len (record c.1 { curcnt = bump c.1.curcnt })).result
                    h in
                Ensures-ok (Counted st w 1)
                  {a = (c.0, r.2, c.2 ++ (convert_and_send r.0 r.1 codec).1)}
                  (
                    cnt,
                    only_codec c.2 _ _ ∙ sent,
                    (kept.0 ∙ same.0, kept.1 ∙ same.1, kept.2 ∙ same.2),
                  ))))

    -- The events that hand over these packets.
    abbrev packets_of : List (List ℕ × ℕ) → List MediaEvent
    packets_of = map (λ (p : List ℕ × ℕ). from_browser 1 p.0 p.1)

    abbrev Heard : Media → Media × List Effect → Type 0
    Heard m r = Feedback m.statics.cnt 1 r × SameTests m.agents.web r.0.agents.web

    browser_round-counts :
        (buf : List ℕ) (len : ℕ) (m : Media)
        → m.statics.cnt < 188
        → is_closed m.agents.web ≡ false
        → is_video_packet m.agents.web.a_payload m.agents.web.v_payload buf ≡ true
        → Ensures (Heard m) (browser_round lib unset 1 buf len m)
    unfolding browser_round
    browser_round-counts buf len m below ready video =
        let ag = m.agents in
        Ensures-bind (Heard m)
          (receive_data lib unset 1 buf len ag.ims ag.web_to_ims m.statics ag.web) _
          (λ r e.
            let (cnt, sent, same) =
              (receive_data-counts buf len ag.ims ag.web_to_ims m.statics ag.web below ready
                  video).result
                e in
            Ensures-ok (Heard m) ((cnt, sent), same))

    media_run-counts :
        (a v : ℤ) (packets : List (List ℕ × ℕ)) (m : Media)
        → m.statics.cnt < 188
        → is_closed m.agents.web ≡ false
        → m.agents.web.a_payload ≡ a
        → m.agents.web.v_payload ≡ v
        → All (λ (p : List ℕ × ℕ). is_video_packet a v p.0 ≡ true) packets
        → Ensures
            (Feedback m.statics.cnt (length packets))
            (media_run lib unset (packets_of packets) m)
    unfolding media_run media_step browser_round count_to_web
    media_run-counts a v [] m below ready ea ev video =
        Ensures-ok (Feedback m.statics.cnt 0) {a = (m, [])} (omega arith, omega arith)
    media_run-counts a v ((buf, len) ∷ packets) m below ready ea ev (video, more) =
        let w = m.agents.web in
        let P = Feedback m.statics.cnt (suc (length packets)) in
        Ensures-bind P (browser_round lib unset 1 buf len m) _ (λ r e.
          let ((cnt, sent), (same_ready, same_a, same_v)) =
            (browser_round-counts buf len m below ready (
                subst (λ (z : ℤ). is_video_packet z w.v_payload buf ≡ true) (sym ea)
                  (subst (λ (z : ℤ). is_video_packet a z buf ≡ true) (sym ev) video))).result
              e in
          Ensures-bind P (media_run lib unset (packets_of packets) r.0) _ (λ t f.
            let (cnt', sent') =
              (media_run-counts a v packets r.0 (omega arith) (same_ready ∙ ready) (same_a ∙ ea)
                  (same_v ∙ ev) more).result
                f in
            Ensures-ok P {a = (t.0, r.1 ++ t.1)}
              (omega arith, omega (arith, count_to_web-append r.1 t.1))))

    -- However many video packets in a row the browser sends to a session that is ready, if nothing
    -- faults then one RTCP packet goes to the browser for every 188 video packets, those counted
    -- before included, and nothing else does.
    pub media_run-feedback :
        (packets : List (List ℕ × ℕ)) (m m' : Media) (sent : List Effect)
        → m.statics.cnt < 188
        → is_closed m.agents.web ≡ false
        → All
            (λ (p : List ℕ × ℕ).
              is_video_packet m.agents.web.a_payload m.agents.web.v_payload p.0 ≡ true)
            packets
        → media_run lib unset (packets_of packets) m ≡ ok (m', sent)
        → (m'.statics.cnt ≡ (m.statics.cnt + length packets) % 188)
          × (count_to_web sent ≡ (m.statics.cnt + length packets) / 188)
    media_run-feedback packets m m' sent below ready video e =
        (media_run-counts m.agents.web.a_payload m.agents.web.v_payload packets m below ready refl
            refl video).result
          e
