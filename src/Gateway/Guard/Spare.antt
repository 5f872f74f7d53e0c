-- ===== src/Gateway/Guard/Spare.antt =====
-- src/mediagateway.cpp: the session that was made in advance, and that a message finds its objects.
use media_gateway_v4_7_1_sde.Base.{
  ℕ, ◌≡◌, ◌≢◌, refl, ap, ◌∙◌, true, false, Option, none, some, List, Text, ok, no_thread, abort,
  ne→==, if◌then◌else◌, Bool, Bool-cases, Option-cases, inl, inr, Ensures, Ensures-ok, Ensures-if,
  Ensures-bind, Ensures-fault, Sound, Sound-ok, Sound-if, Sound-bind, Sound-fault, map_find, eq_ℤ,
  map_assign, map_erase, map_find-map_assign, map_find-map_erase, nat_eq,
}
use media_gateway_v4_7_1_sde.Text.{text_eq}
use media_gateway_v4_7_1_sde.Messages.{SessionMessage, offer, answer, candidate, shutdown_r}
use media_gateway_v4_7_1_sde.Agents.{Effect}
use media_gateway_v4_7_1_sde.Session.{
  cancel_threads, all_run, Agents, Env, Session, is_session_stop,
}
use media_gateway_v4_7_1_sde.Session.Kept.{Runs}
use media_gateway_v4_7_1_sde.Session.Soundness.{
  handle_offer_from_web-Sound, handle_offer_from_ims-Sound, handle_answer_from_web-Sound,
  handle_answer_from_ims-Sound, session_candidate_from_web-Sound,
}
use media_gateway_v4_7_1_sde.Session.Handlers.{
  handle_offer_from_web, handle_offer_from_ims, handle_answer_from_web, handle_answer_from_ims,
  session_candidate_from_web,
}
use media_gateway_v4_7_1_sde.Gateway.{
  Gateway, is_from_browser, is_empty, deref, delete_object, on_offer, on_message, dispatch_at,
  dispatch,
}
use media_gateway_v4_7_1_sde.Gateway.Objects.{Live}
use media_gateway_v4_7_1_sde.Gateway.Ownership.{OwnedBy}

-- The session that was made in advance runs, and no timer was ever set for it.
abbrev pub Ready : Option ℕ → List (ℕ × Session) → Type 0
Ready spare heap =
    (p : ℕ)
    → spare ≡ some p
    → (s : Session) × (map_find p heap ≡ some s) × Runs s × (s.timer_id ≡ 0)

module _ (p q : ℕ) (heap : List (ℕ × Session)) (ne : p ≢ q) where
  pub assigned_elsewhere : (s : Session) → map_find q (map_assign p s heap) ≡ map_find q heap
  assigned_elsewhere s = map_find-map_assign p q s heap ∙ rw (ne→== p q ne)

  erased_elsewhere : map_find q (map_erase p heap) ≡ map_find q heap
  erased_elsewhere = map_find-map_erase p q heap ∙ rw (ne→== p q ne)

deref-Sound : (p : ℕ) (g : Gateway) → Live p g.heap → Sound (deref p g)
unfolding deref
deref-Sound p g (s, e) = rw (deref, e) (Sound-ok s)

gone_stops : (s : Session) → s.agents ≡ none → is_session_stop s ≡ true
unfolding is_session_stop
gone_stops s e = rw (is_session_stop, e)

cancel_threads-Sound : (agents : Option Agents) → Sound (cancel_threads agents)
unfolding cancel_threads
cancel_threads-Sound none = Sound-ok tt
cancel_threads-Sound (some a) = Sound-if (all_run a) (Sound-ok tt) (Sound-fault no_thread tt)

runs : (s : Session) → is_session_stop s ≡ false → Runs s
runs s e = elim (Option-cases s.agents) [
  | inl gone ↦ absurd (cc (gone_stops s gone, e))
  | inr there ↦ there
]

module _ (env : Env) (message : Text) (msg : SessionMessage) (spare : ℕ) (g : Gateway)
    (own : OwnedBy (some spare) g) where
  -- A message that does not use the session made in advance leaves it as it is.
  abbrev Left : Bool × Gateway × List Effect → Type 0
  Left r = r.0 ≡ false → map_find spare r.1.heap ≡ map_find spare g.heap

  on_message-Left :
      (p : ℕ) (s : Session)
      → p ≢ spare
      → Ensures
          (λ (r : Gateway × List Effect). map_find spare r.0.heap ≡ map_find spare g.heap)
          (on_message env p msg message s g)
  unfolding on_message delete_object
  on_message-Left p s ne =
      Ensures-if P (eq_ℤ msg.roap.roap_type candidate)
        (Ensures-bind P (session_candidate_from_web env msg s) _
          (λ r _. Ensures-ok P (assigned_elsewhere p spare g.heap ne r.0)))
        (Ensures-if P (eq_ℤ msg.roap.roap_type answer)
          (Ensures-bind P
            (if is_from_browser message
              then handle_answer_from_web env p msg s g.timers
              else handle_answer_from_ims env p msg s g.timers)
            _ (λ r _. Ensures-ok P (assigned_elsewhere p spare g.heap ne r.0)))
          (Ensures-if P (eq_ℤ msg.roap.roap_type shutdown_r)
            (Ensures-bind P (cancel_threads s.agents) _
              (λ _ _. Ensures-ok P (erased_elsewhere p spare g.heap ne)))
            (Ensures-ok P refl)))
    where
      P : Gateway × List Effect → Type 0
      P r = map_find spare r.0.heap ≡ map_find spare g.heap

  not_spare : (p : ℕ) → map_find msg.roap.offer_session_id g.sessions ≡ some p → p ≢ spare
  not_spare p found same =
      own.spare_free spare msg.roap.offer_session_id refl (found ∙ ap some same)

  at-Left :
      (o? : Option ℕ)
      → map_find msg.roap.offer_session_id g.sessions ≡ o?
      → Ensures Left (dispatch_at env o? spare msg message g)
  unfolding dispatch_at
  at-Left none found =
      Ensures-if Left (eq_ℤ msg.roap.roap_type offer)
        (Ensures-bind Left (on_offer env spare msg message g) _ (λ r _. Ensures-ok Left (λ e. cc)))
        (Ensures-ok Left (λ _. refl))
  at-Left (some p) found = Ensures-if Left (eq_ℤ msg.roap.roap_type offer) (Ensures-fault Left) (
      Ensures-bind Left (deref p g) _ (λ s _.
        Ensures-if Left (is_session_stop s) (Ensures-ok Left (λ _. refl)) (
          Ensures-bind Left (on_message env p msg message s g) _
            (λ r e. Ensures-ok Left (λ _. (on_message-Left p s (not_spare p found)).result e)))))

  pub dispatch-Left :
      Ensures
        (λ (r : Bool × Gateway × List Effect).
          r.0 ≡ false → map_find spare r.1.heap ≡ map_find spare g.heap)
        (dispatch env spare msg message g)
  unfolding dispatch
  dispatch-Left =
      Ensures-if Left (is_empty msg.roap.offer_session_id) (Ensures-ok Left (λ _. refl))
        (at-Left _ refl)

  module _ (ready : Ready (some spare) g.heap) where
    on_offer-Sound : Sound (on_offer env spare msg message g)
    unfolding on_offer deref
    on_offer-Sound =
        let (s, found, r, _) = ready spare refl in
        let here : deref spare g ≡ ok s = rw (deref, found) in
        let s' : Session = record s { offer_session_id = msg.roap.offer_session_id } in
        rw here (
          Sound-bind
            (if is_from_browser message
              then handle_offer_from_web env msg s'
              else handle_offer_from_ims env msg s')
            _
            (Sound-if (is_from_browser message) (handle_offer_from_web-Sound env msg s' r)
              (handle_offer_from_ims-Sound env msg s' r))
            (λ t _. Sound-ok _))

    on_message-Sound : (p : ℕ) (s : Session) → Runs s → Sound (on_message env p msg message s g)
    unfolding on_message
    on_message-Sound p s r =
        Sound-if _
          (Sound-bind _ _ (session_candidate_from_web-Sound env msg s r) (λ t _. Sound-ok _))
          (Sound-if _
            (Sound-bind
              (if is_from_browser message
                then handle_answer_from_web env p msg s g.timers
                else handle_answer_from_ims env p msg s g.timers)
              _
              (Sound-if (is_from_browser message)
                (handle_answer_from_web-Sound env msg s r p g.timers)
                (handle_answer_from_ims-Sound env msg s r p g.timers))
              (λ t _. Sound-ok _))
            (Sound-if _
              (Sound-bind (cancel_threads s.agents) _ (cancel_threads-Sound s.agents)
                (λ _ _. Sound-ok _))
              (Sound-ok _)))

    at-Sound :
        (o? : Option ℕ)
        → map_find msg.roap.offer_session_id g.sessions ≡ o?
        → Sound (dispatch_at env o? spare msg message g)
    unfolding dispatch_at
    at-Sound none found =
        Sound-if _ (Sound-bind _ _ on_offer-Sound (λ r _. Sound-ok _)) (Sound-ok _)
    at-Sound (some p) found = Sound-if _ (Sound-fault abort tt) (
        Sound-bind (deref p g) _ (deref-Sound p g (own.live _ p found)) (λ s _.
          elim (Bool-cases (is_session_stop s)) [
            | inl stop ↦ rw stop (Sound-ok _)
            | inr go ↦ rw go (
                Sound-bind (on_message env p msg message s g) _ (on_message-Sound p s (runs s go))
                  (λ r _. Sound-ok _))
          ]))

    pub dispatch-Sound : Sound (dispatch env spare msg message g)
    unfolding dispatch
    dispatch-Sound = Sound-if _ (Sound-ok _) (at-Sound _ refl)
