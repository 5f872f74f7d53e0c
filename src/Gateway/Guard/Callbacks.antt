-- ===== src/Gateway/Guard/Callbacks.antt =====
-- src/mediagateway.cpp and src/timer.cpp: a message and a timer's callback leave every timer that is set
-- with its owner, unless a session is answered twice.
use media_gateway_v4_7_1_sde.Base.{
  ℕ, ◌≡◌, refl, sym, subst, true, none, some, ok, Ensures, Ensures-ok, arith, Ensures-if,
  Ensures-map, Ensures-bind, Ensures-fault, Option, Option-cases, Text, List, inl, inr, map_find,
  map_assign, nat_eq, eq_ℤ, if◌then◌else◌, Bool, Bool-cases,
}
use media_gateway_v4_7_1_sde.Text.{text_eq}
use media_gateway_v4_7_1_sde.Messages.{SessionMessage, answer, candidate, shutdown_r}
use media_gateway_v4_7_1_sde.Agents.{Effect}
use media_gateway_v4_7_1_sde.Timer.{Ts, Timers, timer_done, set_timer}
use media_gateway_v4_7_1_sde.Session.{
  cancel_threads, Env, Session, Agents, check_media_flow, delete_session, flow_timeout,
}
use media_gateway_v4_7_1_sde.Session.Handlers.{
  session_candidate_from_web, handle_offer_from_web, handle_offer_from_ims, handle_answer_from_web,
  handle_answer_from_ims,
}
use media_gateway_v4_7_1_sde.Session.Flow.{is_silent, counted, check-silent, check-heard}
use media_gateway_v4_7_1_sde.Session.Kept.{
  Answered, Checked, handle_offer_from_web-Kept, handle_offer_from_ims-Kept,
  session_candidate_from_web-Kept, handle_answer_from_web-Answered, handle_answer_from_ims-Answered,
  check_media_flow-Checked,
}
use media_gateway_v4_7_1_sde.Gateway.{
  Gateway, is_from_browser, deref, delete_object, on_offer, on_message, dispatch_at, dispatch,
  on_timeout, store,
}
use media_gateway_v4_7_1_sde.Gateway.Guard.{
  Guarded, store-Guarded, answer-Guarded, check-Guarded, silent-Guarded, delete-Guarded,
}

abbrev pub GuardedBy : Gateway → Type 0
GuardedBy g = Guarded g.timers g.heap

-- If the message is an answer, then its session has not been answered before: no timer was ever
-- set for it.
abbrev pub Unanswered : SessionMessage → Gateway → Type 0
Unanswered msg g =
    (p : ℕ) (s : Session)
    → eq_ℤ msg.roap.roap_type answer ≡ true
    → map_find msg.roap.offer_session_id g.sessions ≡ some p
    → deref p g ≡ ok s
    → s.timer_id ≡ 0

pub deref_inv : (p : ℕ) (g : Gateway) (s : Session) → deref p g ≡ ok s → map_find p g.heap ≡ some s
unfolding deref
deref_inv p g s e = ground arith

module _ (env : Env) (message : Text) (msg : SessionMessage) where
  on_offer-Guarded :
      (spare : ℕ) (g : Gateway)
      → GuardedBy g
      → Ensures (λ (r : Gateway × List Effect). GuardedBy r.0) (on_offer env spare msg message g)
  unfolding on_offer
  on_offer-Guarded spare g h = Ensures-bind P (deref spare g) _ (λ s found.
      let s' : Session = record s { offer_session_id = msg.roap.offer_session_id } in
      elim (Bool-cases (is_from_browser message)) [
        | inl web ↦ rw web (
            Ensures-bind P (handle_offer_from_web env msg s') _ (λ t e. Ensures-ok P (
              store-Guarded g.timers g.heap spare s (deref_inv spare g s found) h t.0
                ((handle_offer_from_web-Kept env msg s').result e))))
        | inr ims ↦ rw ims (
            Ensures-bind P (handle_offer_from_ims env msg s') _ (λ t e. Ensures-ok P (
              store-Guarded g.timers g.heap spare s (deref_inv spare g s found) h t.0
                ((handle_offer_from_ims-Kept env msg s').result e))))
      ])
    where
      P : Gateway × List Effect → Type 0
      P r = GuardedBy r.0

  module _ (p : ℕ) (s : Session) (g : Gateway) (h : GuardedBy g) (here : deref p g ≡ ok s)
      (first : eq_ℤ msg.roap.roap_type answer ≡ true → s.timer_id ≡ 0) where
    answered :
        (r : Session × Timers × List Effect)
        → eq_ℤ msg.roap.roap_type answer ≡ true
        → Answered p s g.timers r
        → GuardedBy (record g { heap = map_assign p r.0 g.heap; timers = r.1 })
    answered r is (inl (kept, same)) =
        subst (λ (t : Timers). Guarded t (map_assign p r.0 g.heap)) (sym same)
          (store-Guarded g.timers g.heap p s (deref_inv p g s here) h r.0 kept)
    answered r is (inr renewed) =
        answer-Guarded g.timers g.heap p s (deref_inv p g s here) h r.0 r.1 (first is) renewed

    answer_result :
        eq_ℤ msg.roap.roap_type answer ≡ true
        → Ensures
            (λ (r : Session × Timers × List Effect).
              GuardedBy (record g { heap = map_assign p r.0 g.heap; timers = r.1 }))
            (if is_from_browser message
              then handle_answer_from_web env p msg s g.timers
              else handle_answer_from_ims env p msg s g.timers)
    answer_result is =
        Ensures-if P (is_from_browser message)
          (Ensures-map (Answered p s g.timers) P (handle_answer_from_web env p msg s g.timers)
            (λ r. answered r is) (handle_answer_from_web-Answered env p msg s g.timers))
          (Ensures-map (Answered p s g.timers) P (handle_answer_from_ims env p msg s g.timers)
            (λ r. answered r is) (handle_answer_from_ims-Answered env p msg s g.timers))
      where
        P : Session × Timers × List Effect → Type 0
        P r = GuardedBy (record g { heap = map_assign p r.0 g.heap; timers = r.1 })

    on_message-Guarded :
        Ensures (λ (r : Gateway × List Effect). GuardedBy r.0) (on_message env p msg message s g)
    unfolding on_message delete_object
    on_message-Guarded =
        Ensures-if P (eq_ℤ msg.roap.roap_type candidate)
          (Ensures-bind P (session_candidate_from_web env msg s) _ (λ r e. Ensures-ok P (
            store-Guarded g.timers g.heap p s (deref_inv p g s here) h r.0
              ((session_candidate_from_web-Kept env msg s).result e))))
          (elim (Bool-cases (eq_ℤ msg.roap.roap_type answer)) [
            | inl is ↦ rw is (
                Ensures-bind P
                  (if is_from_browser message
                    then handle_answer_from_web env p msg s g.timers
                    else handle_answer_from_ims env p msg s g.timers)
                  _ (λ r e. Ensures-ok P ((answer_result is).result e)))
            | inr other ↦ rw other (
                Ensures-if P (eq_ℤ msg.roap.roap_type shutdown_r)
                  (Ensures-bind P (cancel_threads s.agents) _ (λ _ _.
                    Ensures-ok P (delete-Guarded g.timers g.heap p s (deref_inv p g s here) h)))
                  (Ensures-ok P h))
          ])
      where
        P : Gateway × List Effect → Type 0
        P r = GuardedBy r.0

  dispatch_at-Guarded :
      (spare : ℕ) (g : Gateway) (o? : Option ℕ)
      → map_find msg.roap.offer_session_id g.sessions ≡ o?
      → GuardedBy g
      → Unanswered msg g
      → Ensures
          (λ (r : Bool × Gateway × List Effect). GuardedBy r.1)
          (dispatch_at env o? spare msg message g)
  unfolding dispatch_at
  dispatch_at-Guarded spare g none found h first =
      Ensures-if P _
        (Ensures-bind P (on_offer env spare msg message g) _
          (λ r e. Ensures-ok P ((on_offer-Guarded spare g h).result e)))
        (Ensures-ok P h)
    where
      P : Bool × Gateway × List Effect → Type 0
      P r = GuardedBy r.1
  dispatch_at-Guarded spare g (some p) found h first = Ensures-if P _ (Ensures-fault P) (
      Ensures-bind P (deref p g) _ (λ s here. Ensures-if P _ (Ensures-ok P h) (
        Ensures-bind P (on_message env p msg message s g) _ (λ r e.
          Ensures-ok P
            ((on_message-Guarded p s g h here (λ is. first p s is found here)).result e)))))
    where
      P : Bool × Gateway × List Effect → Type 0
      P r = GuardedBy r.1

  pub dispatch-Guarded :
      (spare : ℕ) (g : Gateway)
      → GuardedBy g
      → Unanswered msg g
      → Ensures
          (λ (r : Bool × Gateway × List Effect). GuardedBy r.1)
          (dispatch env spare msg message g)
  unfolding dispatch
  dispatch-Guarded spare g h first =
      Ensures-if _ _ (Ensures-ok _ h) (dispatch_at-Guarded spare g _ refl h first)

-- The session that a timer finds is the one that knows it.
owner_knows :
    (id : ℕ) (g : Gateway) (h : GuardedBy g) (ts : Ts)
    → map_find id g.timers.tpool ≡ some ts
    → (s : Session) → deref ts.para g ≡ ok s
    → s.timer_id ≡ id
owner_knows id g h ts set s found =
    let o = h id ts set in cc (o.found, o.known, deref_inv ts.para g s found)

-- The process behind the callback of a timer.
gone_off :
    (id : ℕ) (g : Gateway) (h : GuardedBy g) (ts : Ts)
    → map_find id g.timers.tpool ≡ some ts
    → (s : Session) → deref ts.para g ≡ ok s
    → (r : Session × Timers) → Checked ts.para g.timers r
    → Guarded (timer_done id r.1) (map_assign ts.para r.0 g.heap)
gone_off id g h ts set s found r (inl (_, same)) =
    subst (λ (k : ℕ). Guarded (timer_done k r.1) (map_assign ts.para r.0 g.heap))
      (owner_knows id g h ts set s found)
      (subst (λ (t : Timers). Guarded (timer_done s.timer_id t) (map_assign ts.para r.0 g.heap))
        (sym same) (silent-Guarded g.timers g.heap ts.para s (deref_inv ts.para g s found) h r.0))
gone_off id g h ts set s found r (inr renewed) =
    subst (λ (k : ℕ). Guarded (timer_done k r.1) (map_assign ts.para r.0 g.heap))
      (owner_knows id g h ts set s found)
      (check-Guarded g.timers g.heap ts.para s (deref_inv ts.para g s found) h r.0 r.1 renewed)

pub on_timeout-Guarded : (id : ℕ) (g : Gateway) → GuardedBy g → Ensures GuardedBy (on_timeout id g)
unfolding on_timeout
on_timeout-Guarded id g h = elim (Option-cases (map_find id g.timers.tpool)) [
  | inl e ↦ rw (on_timeout, e) (Ensures-ok GuardedBy h)
  | inr (ts, e) ↦
      rw (on_timeout, e)
        (Ensures-bind GuardedBy (deref ts.para g) _ (λ s found.
          Ensures-bind GuardedBy (check_media_flow ts.para s g.timers) _ (λ r f.
            Ensures-ok GuardedBy (
              gone_off id g h ts e s found r
                ((check_media_flow-Checked ts.para s g.timers).result f)))))
]

abbrev renewed : ℕ → Session → Agents → Timers → Session
renewed p s a timers = record s {
  agents = some (counted a);
  timer_id = (set_timer flow_timeout p timers).0;
}

-- The callback on a session that runs.
pub on_timeout_returns :
    (id : ℕ) (g : Gateway) (ts : Ts) (s : Session) (a : Agents)
    → map_find id g.timers.tpool ≡ some ts
    → deref ts.para g ≡ ok s
    → s.agents ≡ some a
    → (g' : Gateway) × (on_timeout id g ≡ ok g')
unfolding on_timeout
on_timeout_returns id g ts s a set here runs =
    let p = ts.para in
    elim (Bool-cases (is_silent a)) [
      | inl h ↦ (
        record (store p (delete_session s) g) { timers = timer_done id g.timers },
        rw (on_timeout, set, here, check-silent p s g.timers a runs h),
      )
      | inr h ↦ (
        record (store p (renewed p s a g.timers) g) {
          timers = timer_done id (set_timer flow_timeout p g.timers).1;
        },
        rw (on_timeout, set, here, check-heard p s g.timers a runs h),
      )
    ]
