-- ===== src/Session/Forward.antt =====
-- src/mediasession.cpp, `sendOfferOrAnswerToIMS`: when the browser's description goes to the IMS.
use media_gateway_v4_7_1_sde.Base.{
  ℕ, suc, Ensures, Ensures-ok, Ensures-bind, Ensures-fault, ◌≡◌, refl, ◌∙◌, Bool, true, false, some,
  List, [], ◌∷◌, ◌++◌, if◌then◌else◌, Text, codes, ok, ◌>>=◌, Bool-cases, Option-cases, ◌+◌, arith,
  inl, inr,
}
use media_gateway_v4_7_1_sde.Sdp.{
  get_crypto_info, Codec, audio_supported, SessionType, audio, video, codec_payload, payload,
  missing, endless,
}
use media_gateway_v4_7_1_sde.Messages.{SessionMessage}
use media_gateway_v4_7_1_sde.Text.{contains}
use media_gateway_v4_7_1_sde.Agents.{
  Effect, to_signalling, to_web, to_ims_audio, to_ims_video, to_codec, remote_credentials,
  remote_candidates, start_ffmpeg,
}
use media_gateway_v4_7_1_sde.Agents.Ims.{create_sdp_to_ims}
use media_gateway_v4_7_1_sde.Agents.Web.{
  find_video_ssrc, set_remote_candidates, vp8_payload, WebAgent, handle_candidate_from_web,
  handle_sdp_from_web,
}
use media_gateway_v4_7_1_sde.Session.{Env, send_message, with_sdp, Session, Agents}
use media_gateway_v4_7_1_sde.Session.Handlers.{
  send_offer_or_answer_to_ims, handle_offer_from_web, session_candidate_from_web,
}

-- What a list of effects sends to the signalling gateway.
unfoldable pub signalled : List Effect → ℕ
signalled [] = 0
signalled (to_signalling p ∷ effects) = suc (signalled effects)
signalled (_ ∷ effects) = signalled effects

vp8-keeps :
    (sdp : Text) (stype : SessionType) (supported : Bool) (w : WebAgent)
    → Ensures
        (λ (r : Bool × WebAgent). r.1.last_candidate_arrived ≡ w.last_candidate_arrived)
        (vp8_payload sdp stype supported w)
unfolding vp8_payload
vp8-keeps sdp audio supported w = Ensures-ok _ refl
vp8-keeps sdp video supported w = at (codec_payload (codes "VP8") sdp) refl
  where
    P : Bool × WebAgent → Type 0
    P r = r.1.last_candidate_arrived ≡ w.last_candidate_arrived

    at :
        (c : Codec)
        → codec_payload (codes "VP8") sdp ≡ c
        → Ensures P (vp8_payload sdp video supported w)
    at (payload n) e = rw (vp8_payload, e) (Ensures-ok P refl)
    at missing e = rw (vp8_payload, e) (Ensures-ok P refl)
    at endless e = rw (vp8_payload, e) (Ensures-fault P)

signalled-append : (xs ys : List Effect) → signalled (xs ++ ys) ≡ signalled xs + signalled ys
unfolding signalled
signalled-append [] ys = omega arith
signalled-append (to_signalling p ∷ xs) ys = omega (arith, signalled-append xs ys)
signalled-append (to_web _ ∷ xs) ys = signalled-append xs ys
signalled-append (to_ims_audio _ ∷ xs) ys = signalled-append xs ys
signalled-append (to_ims_video _ ∷ xs) ys = signalled-append xs ys
signalled-append (to_codec _ _ ∷ xs) ys = signalled-append xs ys
signalled-append (remote_credentials _ _ ∷ xs) ys = signalled-append xs ys
signalled-append (remote_candidates _ _ ∷ xs) ys = signalled-append xs ys
signalled-append (start_ffmpeg _ _ ∷ xs) ys = signalled-append xs ys

credentials_quiet :
    (b : Bool) (u p : Text) → signalled (if b then remote_credentials u p ∷ [] else []) ≡ 0
unfolding signalled
credentials_quiet true u p = refl
credentials_quiet false u p = refl

-- Reading the browser's description sends nothing to the signalling gateway, and the last candidate
-- stays as it was.
unfoldable pub SdpKept : WebAgent → Bool × SessionType × WebAgent × List Effect → Type 0
SdpKept w r = (r.2.last_candidate_arrived ≡ w.last_candidate_arrived) × (signalled r.3 ≡ 0)

pub sdp_keeps : (sdp : Text) (w : WebAgent) → Ensures (SdpKept w) (handle_sdp_from_web sdp w)
unfolding handle_sdp_from_web SdpKept
sdp_keeps sdp w = elim (Option-cases (audio_supported sdp)) [
  | inl e ↦ rw (handle_sdp_from_web, e) (Ensures-fault (SdpKept w))
  | inr (supported, e) ↦
      let stype : SessionType = if contains sdp (codes "video") then video else audio in
      let w' : WebAgent = record w {
        crypto_from_web =
            if contains sdp (codes "crypto") then get_crypto_info sdp else w.crypto_from_web;
        video_ssrc_from_web = find_video_ssrc sdp w.video_ssrc_from_web;
      } in
      rw (handle_sdp_from_web, e)
        (Ensures-bind (SdpKept w) (vp8_payload sdp stype supported w') _ (λ r k.
          Ensures-ok (SdpKept w)
            ((vp8-keeps sdp stype supported w').result k, credentials_quiet _ _ _)))
]

module _ (env : Env) (msg : SessionMessage) (s : Session) (a : Agents) where
  -- What an offer leaves when the last candidate has not come yet.
  unfoldable Waiting : Session × List Effect → Type 0
  Waiting r =
      (signalled r.1 ≡ 0)
      × (r.0.original_offer ≡ msg)
      × (r.0.web_caller_flag ≡ true)
      × (r.0.web_offer_or_answer_arrived ≡ true)
      × (b : Agents) × (r.0.agents ≡ some b)
      × (b.ims ≡ a.ims)

  waits :
      s.agents ≡ some a
      → a.web.last_candidate_arrived ≡ false
      → Ensures Waiting (handle_offer_from_web env msg s)
  unfolding handle_offer_from_web send_offer_or_answer_to_ims Waiting SdpKept signalled
  waits here early = rw here (
      Ensures-bind Waiting (handle_sdp_from_web msg.roap.sdp a.web) _ (λ r e.
        let kept = (sdp_keeps msg.roap.sdp a.web).result e in
        let first : r.2.last_candidate_arrived ≡ false = kept.0 ∙ early in
        let quiet : signalled (r.3 ++ []) ≡ 0 = signalled-append r.3 [] ∙ rw kept.1 in
        elim (Bool-cases r.0) [
          | inl b ↦ rw (b, first) (Ensures-ok Waiting (quiet, refl, refl, refl, _, refl, refl))
          | inr b ↦ rw b (Ensures-ok Waiting (quiet, refl, refl, refl, _, refl, refl))
        ]))

-- The effects of a call that gives libnice the candidates and sends `m`.
unfoldable Sent : Env → SessionMessage → List Effect → Type 0
Sent env m effects =
    (sent : List Effect) × (cands : List Effect) × (send_message env m ≡ ok sent)
    × (effects ≡ cands ++ sent)

sends_it :
    (env : Env) (m : SessionMessage) (w : WebAgent)
    → Ensures (Sent env m) (
        set_remote_candidates env.nice env.heap w >>= λ cands.
        send_message env m >>= λ sent. ok (cands ++ sent))
unfolding Sent
sends_it env m w =
    Ensures-bind (Sent env m) (set_remote_candidates env.nice env.heap w) _ (λ cands _.
      Ensures-bind (Sent env m) (send_message env m) _
        (λ sent e. Ensures-ok (Sent env m) (sent, cands, e, refl)))

module _ (env : Env) (msg last : SessionMessage) (s s1 : Session) (a : Agents)
    (e1 : List Effect) where
  goes :
      Waiting env msg s a (s1, e1)
      → last.roap.sdp ≡ []
      → Ensures
          (λ (r : Session × List Effect).
            Sent env (with_sdp (create_sdp_to_ims env.sip s1.session_type a.ims) msg) r.1)
          (session_candidate_from_web env last s1)
  unfolding session_candidate_from_web handle_candidate_from_web send_offer_or_answer_to_ims Waiting
  goes (quiet, offered, caller, arrived, b, here, same) empty =
      rw (here, empty, arrived, offered, caller, same)
        (Ensures-bind (λ (r : Session × List Effect). Sent env m r.1) _ _
          (λ sent e.
            Ensures-ok _
              ((sends_it env m (record b.web { last_candidate_arrived = true })).result e)))
    where
      m : SessionMessage
      m = with_sdp (create_sdp_to_ims env.sip s1.session_type a.ims) msg

-- A browser's offer that comes before its last candidate, and then that last candidate: the offer
-- sends nothing to the signalling gateway; the last candidate sends the offer on, with the
-- gateway's description of the session, and whether the offer's codecs are supported is not asked
-- any more.
pub offer_goes_with_last_candidate :
    (env : Env) (msg last : SessionMessage) (s s1 s2 : Session) (a : Agents) (e1 e2 : List Effect)
    → s.agents ≡ some a
    → a.web.last_candidate_arrived ≡ false
    → handle_offer_from_web env msg s ≡ ok (s1, e1)
    → last.roap.sdp ≡ []
    → session_candidate_from_web env last s1 ≡ ok (s2, e2)
    → (signalled e1 ≡ 0)
      × (sent : List Effect) × (cands : List Effect) × (send_message env
            (with_sdp (create_sdp_to_ims env.sip s1.session_type a.ims) msg)
          ≡ ok sent)
      × (e2 ≡ cands ++ sent)
unfolding Waiting Sent
offer_goes_with_last_candidate env msg last s s1 s2 a e1 e2 here early first empty second =
    let w : Waiting env msg s a (s1, e1) = (waits env msg s a here early).result first in
    let (sent, cands, made, order) = (goes env msg last s s1 a e1 w empty).result second in
    (w.0, sent, cands, made, order)
