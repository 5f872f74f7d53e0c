-- ===== src/Session/Media/Closed.antt =====
-- The media of a session, src/webagent.cpp: a web agent that is not ready.
use media_gateway_v4_7_1_sde.Base.{
  ℕ, ◌≡◌, refl, Bool, true, false, none, some, List, [], ◌∷◌, ◌++◌, All, All-append, Run, ok, ◌>>=◌,
  ◌==◌, Bool-cases, inl, inr, ◌∙◌,
}
use media_gateway_v4_7_1_sde.Rtp.{Srtp}
use media_gateway_v4_7_1_sde.Agents.{
  Effect, to_signalling, to_web, to_ims_audio, to_ims_video, to_codec, remote_credentials,
  remote_candidates, start_ffmpeg,
}
use media_gateway_v4_7_1_sde.Agents.Ims.{ImsAgent, send_ims}
use media_gateway_v4_7_1_sde.Agents.Codec.{CodecConverter, convert_and_send}
use media_gateway_v4_7_1_sde.Agents.Web.{WebAgent}
use media_gateway_v4_7_1_sde.Agents.Web.Data.{Statics, send_web, is_closed, receive_data}
use media_gateway_v4_7_1_sde.Session.Media.{
  Media, MediaEvent, from_browser, at_ims_video, at_ims_audio, at_web_to_ims, at_ims_to_web,
  media_step, media_run, browser_round, ims_video_round, web_to_ims_round, ims_audio_round,
  ims_to_web_round,
}

unfoldable pub is_to_web : Effect → Bool
is_to_web (to_web p) = true
is_to_web (to_signalling t) = false
is_to_web (to_ims_audio p) = false
is_to_web (to_ims_video p) = false
is_to_web (to_codec b p) = false
is_to_web (remote_credentials u p) = false
is_to_web (remote_candidates n cs) = false
is_to_web (start_ffmpeg p c) = false

-- The effect is none on the browser.
unfoldable pub IsNotToWeb : Effect → Type 0
unfolding is_to_web
IsNotToWeb e = is_to_web e ≡ false

-- The browser's side of a session is as it was, and nothing was sent to the browser.
abbrev Untouched : Media → Media × List Effect → Type 0
Untouched m r = (r.0.agents.web ≡ m.agents.web) × (r.0.statics ≡ m.statics) × All IsNotToWeb r.1

module _ (lib : Srtp) where
  closed_send :
      (buf : List ℕ) (len : ℕ) (b : Bool) (w : WebAgent)
      → is_closed w ≡ true
      → send_web lib buf len b w ≡ ok (buf, w, [])
  unfolding send_web
  closed_send buf len b w h = rw h

  after_closed_send :
      (buf : List ℕ) (len : ℕ) (b : Bool) (w : WebAgent)
      (next : List ℕ × WebAgent × List Effect → Run (Media × List Effect))
      (P : Media × List Effect → Type 0)
      → is_closed w ≡ true
      → (r : Media × List Effect) × (next (buf, w, []) ≡ ok r) × P r
      → (r : Media × List Effect) × ((send_web lib buf len b w >>= next) ≡ ok r) × P r
  after_closed_send buf len b w next P h (r, e, p) = (r, rw (closed_send buf len b w h) e, p)

  closed_receive :
      (unset component : ℕ) (buf : List ℕ) (len : ℕ) (ims : ImsAgent) (codec : CodecConverter)
      (st : Statics) (w : WebAgent)
      → is_closed w ≡ true
      → receive_data lib unset component buf len ims codec st w ≡ ok (st, w, [])
  unfolding receive_data
  closed_receive unset component buf len ims codec st w h = elim (Bool-cases (component == 1)) [
    | inl e ↦ rw (h, e)
    | inr e ↦ rw (h, e)
  ]

  module _ (unset : ℕ) where
    closed_step :
        (e : MediaEvent) (m : Media)
        → is_closed m.agents.web ≡ true
        → (r : Media × List Effect) × (media_step lib unset e m ≡ ok r) × Untouched m r
    unfolding media_step browser_round ims_video_round web_to_ims_round ims_audio_round
        ims_to_web_round convert_and_send send_ims IsNotToWeb is_to_web
    closed_step (from_browser component buf len) m h = (
      (m, []),
      rw (
          closed_receive unset component buf len m.agents.ims m.agents.web_to_ims m.statics
            m.agents.web h),
      (refl, refl, tt),
    )
    closed_step (at_ims_video none) m h = (_, refl, (refl, refl, tt))
    closed_step (at_ims_video (some p)) m h = (_, refl, (refl, refl, (refl, tt)))
    closed_step (at_web_to_ims none) m h = (_, refl, (refl, refl, tt))
    closed_step (at_web_to_ims (some p)) m h = (_, refl, (refl, refl, (refl, tt)))
    closed_step (at_ims_audio none) m h = (_, refl, (refl, refl, tt))
    closed_step (at_ims_audio (some p)) m h =
        after_closed_send _ _ false m.agents.web _ (Untouched m) h (_, refl, (refl, refl, tt))
    closed_step (at_ims_to_web none) m h = (_, refl, (refl, refl, tt))
    closed_step (at_ims_to_web (some p)) m h =
        after_closed_send _ _ true m.agents.web _ (Untouched m) h (_, refl, (refl, refl, tt))

    -- As long as the web agent is not ready, the threads of a session never stop at a fault: they
    -- leave that agent and the shared counters as they were, and send nothing to the browser,
    -- whatever comes in.
    pub media_run-closed :
        (es : List MediaEvent) (m : Media)
        → is_closed m.agents.web ≡ true
        → (r : Media × List Effect) × (media_run lib unset es m ≡ ok r) × Untouched m r
    unfolding media_run
    media_run-closed [] m h = ((m, []), refl, (refl, refl, tt))
    media_run-closed (e ∷ es) m h =
        let (r, made, same) = closed_step e m h in
        let (t, more, still) = media_run-closed es r.0 (rw same.0 h) in
        (
          (t.0, r.1 ++ t.1),
          rw (made, more),
          (still.0 ∙ same.0, still.1 ∙ same.1, All-append IsNotToWeb r.1 t.1 same.2 still.2),
        )
