-- ===== src/Gateway/Steps/Memory.antt =====
-- src/mediagateway.cpp and the threads: the pointers that the gateway's own code uses while it handles
-- a message.
use media_gateway_v4_7_1_sde.Base.{
  ℕ, ◌≡◌, ◌≢◌, refl, ◌∙◌, subst, false, Bool, Option, none, some, List, Text, fault, null_pointer,
  use_after_free, Fault, IsHarmless, if◌then◌else◌, Bool-cases, Option-cases, inl, inr, Ensures,
  Ensures-ok, Ensures-map, Ensures-bind, eq→==, [], map_find, map_find-map_assign, nat_eq, ◌==◌,
  ==→eq, ==-false,
}
use media_gateway_v4_7_1_sde.Etcp.{c_str}
use media_gateway_v4_7_1_sde.Messages.{SessionMessage, parser_session_message}
use media_gateway_v4_7_1_sde.Agents.{Effect}
use media_gateway_v4_7_1_sde.Session.{
  Env, Session, Agents, Resources, check_media_flow, new_session,
}
use media_gateway_v4_7_1_sde.Gateway.{
  Gateway, deref, dispatch, handle_session_message, on_timeout, allocate,
}
use media_gateway_v4_7_1_sde.Gateway.Objects.{none-ne-some}
use media_gateway_v4_7_1_sde.Gateway.Ownership.{OwnedBy}
use media_gateway_v4_7_1_sde.Gateway.Guard.{Owner}
use media_gateway_v4_7_1_sde.Gateway.Guard.Callbacks.{GuardedBy, deref_inv}
use media_gateway_v4_7_1_sde.Gateway.Guard.Spare.{
  Ready, assigned_elsewhere, dispatch-Left, dispatch-Sound,
}
use media_gateway_v4_7_1_sde.Gateway.Steps.{
  Process, RunsAt, with_agents, Step, allocates, receives, times_out, gathers, changes, plays,
}
use media_gateway_v4_7_1_sde.Gateway.Steps.Reachable.{Reach-Owned}
use media_gateway_v4_7_1_sde.Gateway.Steps.Answers.{ReachOnce, ReachOnce-Reach, ReachOnce-Guarded}

abbrev IsReady : Process → Type 0
IsReady x = Ready x.spare x.gateway.heap

not_owned :
    (j para q : ℕ) (heap : List (ℕ × Session)) (t : Session)
    → Owner j para heap
    → map_find q heap ≡ some t
    → t.timer_id ≡ 0
    → para ≢ q
not_owned j para q heap t o here unset = λ z. o.nonzero (cc (o.found, o.known, here, unset, z))

some_number : {p q : ℕ} → some p ≡ some q → p ≡ q
some_number e = cc

-- A timer is never one of the session made in advance.
on_timeout-Ready :
    (id : ℕ) (sp : Option ℕ) (g : Gateway)
    → GuardedBy g
    → Ready sp g.heap
    → Ensures (λ (h : Gateway). Ready sp h.heap) (on_timeout id g)
unfolding on_timeout
on_timeout-Ready id sp g h ready = elim (Option-cases (map_find id g.timers.tpool)) [
  | inl e ↦ rw (on_timeout, e) (Ensures-ok P ready)
  | inr (ts, e) ↦
      rw (on_timeout, e)
        (Ensures-bind P (deref ts.para g) _ (λ s found.
          Ensures-bind P (check_media_flow ts.para s g.timers) _ (λ r _. Ensures-ok P (λ q same.
            let (t, here, run, unset) = ready q same in
            (
              t,
              assigned_elsewhere ts.para q g.heap
                    (not_owned id ts.para q g.heap t (h id ts e) here unset) r.0
                  ∙ here,
              run,
              unset,
            )))))
]
  where
    P : Gateway → Type 0
    P k = Ready sp k.heap

with_agents-Ready :
    (p : ℕ) (s : Session) (a b : Agents) (x : Process)
    → RunsAt p s a x.gateway
    → IsReady x
    → IsReady (with_agents p s b x)
with_agents-Ready p s a b x (found, _) ready = λ q same.
    let (t, here, r, unset) = ready q same in
    elim (Bool-cases (p == q)) [
      | inl e ↦ (
        record s { agents = some b },
        map_find-map_assign p q _ x.gateway.heap ∙ rw e,
        (b, refl),
        cc (deref_inv p x.gateway s found, here, unset, ==→eq p q e),
      )
      | inr ne ↦ (t, assigned_elsewhere p q x.gateway.heap (==-false p q ne) _ ∙ here, r, unset)
    ]

spare_after :
    (spare : ℕ) (g : Gateway) (r : Bool × Gateway × List Effect)
    → Ready (some spare) g.heap
    → (r.0 ≡ false → map_find spare r.1.heap ≡ map_find spare g.heap)
    → Ready (if r.0 then none else some spare) r.1.heap
spare_after spare g r ready left = elim (Bool-cases r.0) [
  | inl used ↦ rw used (λ p e. absurd (none-ne-some e))
  | inr free ↦ rw free (λ p e.
      let (t, here, run, unset) = ready p e in
      (
        t,
        subst (λ (q : ℕ). map_find q r.1.heap ≡ map_find q g.heap) (some_number e) (left free)
            ∙ here,
        run,
        unset,
      ))
]

module _ (env : Env) (resources : ℕ → Resources) where
  handle-Ready :
      (spare : ℕ) (message : Text) (g : Gateway)
      → OwnedBy (some spare) g
      → Ready (some spare) g.heap
      → Ensures
          (λ (r : Bool × Gateway × List Effect). Ready (if r.0 then none else some spare) r.1.heap)
          (handle_session_message env spare message g)
  unfolding handle_session_message
  handle-Ready spare message g own ready =
      Ensures-bind P (parser_session_message env.json env.unset message) _ (λ msg _.
        Ensures-map
          (λ (r : Bool × Gateway × List Effect).
            r.0 ≡ false → map_find spare r.1.heap ≡ map_find spare g.heap)
          P (dispatch env spare msg message g) (λ r left. spare_after spare g r ready left)
          (dispatch-Left env message msg spare g own))
    where
      P : Bool × Gateway × List Effect → Type 0
      P r = Ready (if r.0 then none else some spare) r.1.heap

  step-Ready :
      {x y : Process}
      → Step env resources x y
      → OwnedBy x.spare x.gateway
      → GuardedBy x.gateway
      → IsReady x
      → IsReady y
  unfolding allocate new_session
  step-Ready {x} (allocates e) own h ready = λ q same. (
    new_session env (resources x.gateway.next) [],
    map_find-map_assign x.gateway.next q _ x.gateway.heap
        ∙ rw (eq→== x.gateway.next q (some_number same)),
    (_, refl),
    refl,
  )
  step-Ready {x} (receives {p} packet e f) own h ready =
      (handle-Ready p (c_str packet) x.gateway
          (subst (λ (sp : Option ℕ). OwnedBy sp x.gateway) e own)
          (subst (λ (sp : Option ℕ). Ready sp x.gateway.heap) e ready)).result
        f
  step-Ready {x} (times_out id e f) own h ready =
      (on_timeout-Ready id x.spare x.gateway h ready).result f
  step-Ready {x} (gathers p s a cs runs) own h ready = with_agents-Ready p s a _ x runs ready
  step-Ready {x} (changes p s a r component state runs) own h ready =
      with_agents-Ready p s a _ x runs ready
  step-Ready {x} (plays p s unset e m {m'} runs f) own h ready =
      with_agents-Ready p s m.agents m'.agents x runs ready

  ReachOnce-Ready : {x : Process} → ReachOnce env resources x → IsReady x
  ReachOnce-Ready ReachOnce.at_start = λ p e. absurd (none-ne-some e)
  ReachOnce-Ready (ReachOnce.and_then r st _) =
      step-Ready st (Reach-Owned env resources (ReachOnce-Reach env resources r))
        (ReachOnce-Guarded env resources r) (ReachOnce-Ready r)

  harmless_fault : (f : Fault) → IsHarmless f → (f ≢ null_pointer) × (f ≢ use_after_free)
  harmless_fault f h = (λ z. subst IsHarmless z h, λ z. subst IsHarmless z h)

  -- If no session was answered twice, then in whatever order packets, timers, libnice's callbacks
  -- and the media threads took their turns, the code of the gateway that handles the next message,
  -- whatever it is, uses no NULL pointer and no deleted session. This does not speak of libnice, to
  -- which deleted candidates are handed, nor of `pthread_cancel`, which a shutdown may call for a
  -- thread that was never created.
  pub messages_safe :
      {x : Process} (p : ℕ) (message : Text) (msg : SessionMessage) (f : Fault)
      → ReachOnce env resources x
      → x.spare ≡ some p
      → dispatch env p msg message x.gateway ≡ fault f
      → (f ≢ null_pointer) × (f ≢ use_after_free)
  messages_safe {x} p message msg f r e stops = harmless_fault f (
      (dispatch-Sound env message msg p x.gateway
          (subst (λ (sp : Option ℕ). OwnedBy sp x.gateway) e
            (Reach-Owned env resources (ReachOnce-Reach env resources r)))
          (subst (λ (sp : Option ℕ). Ready sp x.gateway.heap) e (ReachOnce-Ready r))).harmless
        f stops)
