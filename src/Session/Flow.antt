-- ===== src/Session/Flow.antt =====
-- src/mediasession.cpp, `checkMediaFlow`: when a session is stopped, and the timer that asks again.
use media_gateway_v4_7_1_sde.Base.{
  ℕ, arith, ◌≡◌, refl, sym, ap, ◌∙◌, Bool, true, false, ◌||◌, none, some, ◌==◌, ok, fault,
  null_pointer, ok-injective, fault-ne-ok, Option-cases, subst, ◌⊎◌, Bool-cases, inl, inr, ==_refl,
  map_find-map_assign, nat_eq,
}
use media_gateway_v4_7_1_sde.Timer.{Timers, set_timer, next_id}
use media_gateway_v4_7_1_sde.Timer.Ids.{pending}
use media_gateway_v4_7_1_sde.Agents.{got_period_data}
use media_gateway_v4_7_1_sde.Agents.Web.{web_period_data}
use media_gateway_v4_7_1_sde.Agents.Ims.{ims_period_data}
use media_gateway_v4_7_1_sde.Session.{
  Session, Agents, is_session_stop, delete_session, check_media_flow, flow_timeout,
}

none-ne-some : {a : Agents} → none ≡ some a → ⊥
none-ne-some e = cc

true-ne-false : true ≡ false → ⊥
true-ne-false e = cc

-- One of the agents has counted nothing since the last check.
unfoldable pub is_silent : Agents → Bool
is_silent a = (a.web.curcnt == a.web.precnt) || (a.ims.curcnt == a.ims.precnt)

-- The agents behind a check.
abbrev pub counted : Agents → Agents
counted a = record a {
  web = record a.web { precnt = a.web.curcnt };
  ims = record a.ims { precnt = a.ims.curcnt };
}

module _ (this : ℕ) (s : Session) (t : Timers) where
  pub check-stopped : s.agents ≡ none → check_media_flow this s t ≡ fault null_pointer
  unfolding check_media_flow
  check-stopped e = rw e

  module _ (a : Agents) (e : s.agents ≡ some a) where
    pub check-silent : is_silent a ≡ true → check_media_flow this s t ≡ ok (delete_session s, t)
    unfolding check_media_flow is_silent web_period_data ims_period_data got_period_data
    check-silent h = rw e (elim (Bool-cases (a.web.curcnt == a.web.precnt)) [
      | inl w ↦ rw w
      | inr w ↦ elim (Bool-cases (a.ims.curcnt == a.ims.precnt)) [
        | inl i ↦ rw (w, i)
        | inr i ↦ absurd (true-ne-false (sym h ∙ rw (w, i)))
      ]
    ])

    pub check-heard :
        is_silent a ≡ false
        → let (id, t') = set_timer flow_timeout this t in
          check_media_flow this s t ≡ ok (record s { agents = some (counted a); timer_id = id }, t')
    unfolding check_media_flow is_silent web_period_data ims_period_data got_period_data
    check-heard h = rw e (elim (Bool-cases (a.web.curcnt == a.web.precnt)) [
      | inl w ↦ absurd (true-ne-false (sym (rw w) ∙ h))
      | inr w ↦ elim (Bool-cases (a.ims.curcnt == a.ims.precnt)) [
        | inl i ↦ absurd (true-ne-false (sym (rw (w, i)) ∙ h))
        | inr i ↦ rw (w, i)
      ]
    ])

-- One of the agents has counted no packet from `a` to `b`, and no check was made.
unfoldable pub Quiet : Agents → Agents → Type 0
Quiet a b =
    ((b.web.curcnt ≡ a.web.curcnt) × (b.web.precnt ≡ a.web.precnt))
    ⊎ ((b.ims.curcnt ≡ a.ims.curcnt) × (b.ims.precnt ≡ a.ims.precnt))

counted-Quiet : (a b : Agents) → Quiet (counted a) b → is_silent b ≡ true
unfolding is_silent Quiet
counted-Quiet a b h = ground arith

-- A session that a check has left running is stopped by the next check, whatever else has become of
-- it in between, if one of its agents is there with the two counts that it had after the first
-- check: a packet that was counted would have changed them. No timer is set then.
pub silent_session_stops :
    (this : ℕ) (s s1 s2 : Session) (t t1 later : Timers) (a1 a2 : Agents)
    → check_media_flow this s t ≡ ok (s1, t1)
    → s1.agents ≡ some a1
    → s2.agents ≡ some a2
    → Quiet a1 a2
    → check_media_flow this s2 later ≡ ok (delete_session s2, later)
unfolding delete_session
silent_session_stops this s s1 s2 t t1 later a1 a2 e left now quiet = elim (Option-cases s.agents) [
  | inl gone ↦ absurd (fault-ne-ok (sym (check-stopped this s t gone) ∙ e))
  | inr (a, here) ↦ elim (Bool-cases (is_silent a)) [
    | inl h ↦ absurd (
        none-ne-some (
          ap (λ (x : Session × Timers). x.0.agents) (same (check-silent this s t a here h)) ∙ left))
    | inr h ↦
        let counts : some (counted a) ≡ some a1 =
          ap (λ (x : Session × Timers). x.0.agents) (same (check-heard this s t a here h)) ∙ left in
        check-silent this s2 later a2 now
          (counted-Quiet a a2 (subst (λ (x : Agents). Quiet x a2) (sym (cc counts)) quiet))
  ]
]
  where
    same : {x : Session × Timers} → check_media_flow this s t ≡ ok x → x ≡ (s1, t1)
    same h = ok-injective (sym h ∙ e)

-- What a check leaves: a stopped session and the timers as they were, or a running session and a
-- timer of 30 seconds for it under the id that the session keeps.
pub checked_session :
    (this : ℕ) (s s1 : Session) (t t1 : Timers)
    → check_media_flow this s t ≡ ok (s1, t1)
    → ((is_session_stop s1 ≡ true) × (t1 ≡ t))
      ⊎ ((is_session_stop s1 ≡ false)
          × (pending s1.timer_id t1
              ≡ some (record { timeout = 30; para = this; id = s1.timer_id })))
unfolding is_session_stop delete_session pending set_timer
checked_session this s s1 t t1 e = elim (Option-cases s.agents) [
  | inl gone ↦ absurd (fault-ne-ok (sym (check-stopped this s t gone) ∙ e))
  | inr (a, here) ↦ elim (Bool-cases (is_silent a)) [
    | inl h ↦ subst Left (same (check-silent this s t a here h)) (inl (refl, refl))
    | inr h ↦ subst Left (same (check-heard this s t a here h)) (
        inr (
          refl,
          map_find-map_assign (next_id t.cnt) (next_id t.cnt) _ t.tpool
              ∙ rw (==_refl (next_id t.cnt)),
        ))
  ]
]
  where
    same : {x : Session × Timers} → check_media_flow this s t ≡ ok x → x ≡ (s1, t1)
    same h = ok-injective (sym h ∙ e)

    Left : Session × Timers → Type 0
    Left x =
        ((is_session_stop x.0 ≡ true) × (x.1 ≡ t))
        ⊎ ((is_session_stop x.0 ≡ false)
            × (pending x.0.timer_id x.1
                ≡ some (record { timeout = 30; para = this; id = x.0.timer_id })))
