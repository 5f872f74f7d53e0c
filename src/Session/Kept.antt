-- ===== src/Session/Kept.antt =====
-- src/mediasession.cpp: what a handler does to the id of the session's timer, and to the timers.
use media_gateway_v4_7_1_sde.Base.{
  ℕ, ◌≡◌, refl, true, none, some, List, ok, if◌then◌else◌, Ensures, Ensures-ok, Ensures-if,
  Ensures-bind, ◌⊎◌, inl, inr, [], Bool, Bool-cases, Option-cases, Ensures-fault,
}
use media_gateway_v4_7_1_sde.Messages.{SessionMessage}
use media_gateway_v4_7_1_sde.Agents.{Effect}
use media_gateway_v4_7_1_sde.Timer.{Timers, set_timer}
use media_gateway_v4_7_1_sde.Session.{
  Env, Agents, Session, flow_timeout, get_agents, check_media_flow, delete_session,
}
use media_gateway_v4_7_1_sde.Sdp.{SessionType}
use media_gateway_v4_7_1_sde.Agents.Web.{
  WebAgent, handle_sdp_from_web, handle_candidate_from_web, web_tailing_jobs,
}
use media_gateway_v4_7_1_sde.Agents.Ims.{handle_sdp_from_ims}
use media_gateway_v4_7_1_sde.Session.Flow.{is_silent, check-stopped, check-silent, check-heard}
use media_gateway_v4_7_1_sde.Session.Handlers.{
  send_offer_or_answer_to_ims, describe_to_web, do_tailing_jobs, handle_offer_from_web,
  handle_offer_from_ims, handle_answer_from_web, handle_answer_from_ims, session_candidate_from_web,
}

-- The session has its agents.
abbrev pub Runs : Session → Type 0
Runs s = (a : Agents) × (s.agents ≡ some a)

-- The session runs, and its timer is the one that it had.
abbrev pub Kept : Session → Session → Type 0
Kept s t = (t.timer_id ≡ s.timer_id) × Runs t

-- The session runs, and a new timer of its own is set.
abbrev pub Renewed : ℕ → Timers → Session → Timers → Type 0
Renewed this timers t timers' =
    let (id, later) = set_timer flow_timeout this timers in
    (t.timer_id ≡ id) × Runs t × (timers' ≡ later)

module _ (env : Env) (msg : SessionMessage) (s : Session) where
  abbrev Keeps : Session × List Effect → Type 0
  Keeps r = Kept s r.0

  open env use {nice, sip}

  pub handle_offer_from_web-Kept :
      Ensures (λ (r : Session × List Effect). Kept s r.0) (handle_offer_from_web env msg s)
  unfolding handle_offer_from_web
  handle_offer_from_web-Kept = Ensures-bind Keeps (get_agents s.agents) _ (λ a _.
      Ensures-bind Keeps (handle_sdp_from_web msg.roap.sdp a.web) _ (λ r _.
        Ensures-bind Keeps (if r.0 then send_offer_or_answer_to_ims env (offered a r) else ok []) _
          (λ sent _. Ensures-ok Keeps (refl, (_, refl)))))
    where
      offered : Agents → Bool × SessionType × WebAgent × List Effect → Session
      offered a r = record s {
        original_offer = msg;
        web_caller_flag = true;
        session_type = r.1;
        agents = some (record a { web = r.2 });
        web_offer_or_answer_arrived = true;
      }

  pub handle_offer_from_ims-Kept :
      Ensures (λ (r : Session × List Effect). Kept s r.0) (handle_offer_from_ims env msg s)
  unfolding handle_offer_from_ims
  handle_offer_from_ims-Kept = Ensures-bind Keeps (get_agents s.agents) _ (λ a _.
      Ensures-bind Keeps (handle_sdp_from_ims sip env.unset_port env.unset_port msg.roap.sdp a.ims)
        _
        (λ r _.
          Ensures-if Keeps r.0
            (Ensures-bind Keeps (describe_to_web env msg r.1 (record a { ims = r.2 })) _
              (λ sent _. Ensures-ok Keeps (refl, (_, refl))))
            (Ensures-ok Keeps (refl, (_, refl)))))

  pub session_candidate_from_web-Kept :
      Ensures (λ (r : Session × List Effect). Kept s r.0) (session_candidate_from_web env msg s)
  unfolding session_candidate_from_web
  session_candidate_from_web-Kept = Ensures-bind Keeps (get_agents s.agents) _ (λ a _.
      Ensures-bind Keeps (handle_candidate_from_web nice msg.roap.sdp a.web) _ (λ r _.
        Ensures-if Keeps r.0
          (Ensures-bind Keeps
            (send_offer_or_answer_to_ims env (record s { agents = some (record a { web = r.1 }) }))
            _ (λ sent _. Ensures-ok Keeps (refl, (_, refl))))
          (Ensures-ok Keeps (refl, (_, refl)))))

-- What an answer does: nothing to the timers, or a new one.
abbrev pub Answered : ℕ → Session → Timers → Session × Timers × List Effect → Type 0
Answered this s timers r = (Kept s r.0 × (r.1 ≡ timers)) ⊎ Renewed this timers r.0 r.1

module _ (env : Env) (this : ℕ) (msg : SessionMessage) (s : Session) (timers : Timers) where
  open env use {sip, srtp}

  abbrev Done : Session × Timers × List Effect → Type 0
  Done r = Answered this s timers r

  do_tailing_jobs-Renewed :
      (t : Session)
      → Ensures
          (λ (r : Session × Timers × List Effect). Renewed this timers r.0 r.1)
          (do_tailing_jobs env this t timers)
  unfolding do_tailing_jobs
  do_tailing_jobs-Renewed t = Ensures-bind P (get_agents t.agents) _ (λ a _.
      Ensures-bind P (web_tailing_jobs srtp a.web) _
        (λ web _. Ensures-ok P (refl, (_, refl), refl)))
    where
      P : Session × Timers × List Effect → Type 0
      P r = Renewed this timers r.0 r.1

  pub handle_answer_from_web-Answered :
      Ensures
        (λ (r : Session × Timers × List Effect). Answered this s timers r)
        (handle_answer_from_web env this msg s timers)
  unfolding handle_answer_from_web
  handle_answer_from_web-Answered = Ensures-bind Done (get_agents s.agents) _ (λ a _.
      Ensures-bind Done (handle_sdp_from_web msg.roap.sdp a.web) _ (λ r _.
        let s' : Session = record s {
          original_answer = msg;
          session_type = r.1;
          agents = some (record a { web = r.2 });
          web_offer_or_answer_arrived = true;
        } in
        Ensures-if Done r.0
          (Ensures-bind Done (send_offer_or_answer_to_ims env s') _ (λ sent _.
            Ensures-bind Done (do_tailing_jobs env this s' timers) _
              (λ t e. Ensures-ok Done (inr ((do_tailing_jobs-Renewed _).result e)))))
          (Ensures-ok Done (inl ((refl, (_, refl)), refl)))))

  pub handle_answer_from_ims-Answered :
      Ensures
        (λ (r : Session × Timers × List Effect). Answered this s timers r)
        (handle_answer_from_ims env this msg s timers)
  unfolding handle_answer_from_ims
  handle_answer_from_ims-Answered = Ensures-bind Done (get_agents s.agents) _ (λ a _.
      Ensures-bind Done (handle_sdp_from_ims sip env.unset_port env.unset_port msg.roap.sdp a.ims) _
        (λ r _.
          let a' : Agents = record a { ims = r.2 } in
          let s' : Session = record s {
            original_answer = msg;
            session_type = r.1;
            agents = some a';
          } in
          Ensures-if Done r.0
            (Ensures-bind Done (describe_to_web env msg r.1 a') _ (λ sent _.
              Ensures-bind Done (do_tailing_jobs env this s' timers) _
                (λ t e. Ensures-ok Done (inr ((do_tailing_jobs-Renewed _).result e)))))
            (Ensures-ok Done (inl ((refl, (_, refl)), refl)))))

-- What a check does: it stops the session and leaves the timers, or sets a new one.
abbrev pub Checked : ℕ → Timers → Session × Timers → Type 0
Checked this timers r = ((r.0.agents ≡ none) × (r.1 ≡ timers)) ⊎ Renewed this timers r.0 r.1

pub check_media_flow-Checked :
    (this : ℕ) (s : Session) (timers : Timers)
    → Ensures (Checked this timers) (check_media_flow this s timers)
unfolding delete_session
check_media_flow-Checked this s timers = elim (Option-cases s.agents) [
  | inl gone ↦ rw (check-stopped this s timers gone) (Ensures-fault P)
  | inr (a, here) ↦ elim (Bool-cases (is_silent a)) [
    | inl h ↦ rw (check-silent this s timers a here h) (Ensures-ok P (inl (refl, refl)))
    | inr h ↦ rw (check-heard this s timers a here h) (Ensures-ok P (inr (refl, (_, refl), refl)))
  ]
]
  where
    P : Session × Timers → Type 0
    P r = Checked this timers r
