-- ===== src/Gateway/Steps/Answers.antt =====
-- src/timer.cpp and src/mediasession.cpp: a timer calls back on a session that is there, as long as
-- no session is answered twice.
use media_gateway_v4_7_1_sde.Base.{
  ℕ, ◌≡◌, refl, false, some, ok, Ensures, arith, Ensures-bind, Text, List, map_find, nat_eq, Bool,
}
use media_gateway_v4_7_1_sde.Text.{text_eq}
use media_gateway_v4_7_1_sde.Etcp.{c_str}
use media_gateway_v4_7_1_sde.Messages.{SessionMessage, parser_session_message}
use media_gateway_v4_7_1_sde.Agents.{Effect}
use media_gateway_v4_7_1_sde.Timer.{Ts}
use media_gateway_v4_7_1_sde.Session.{Env, Session, Agents, Resources, is_session_stop}
use media_gateway_v4_7_1_sde.Gateway.{Gateway, deref, handle_session_message, on_timeout, allocate}
use media_gateway_v4_7_1_sde.Gateway.Objects.{none-ne-some}
use media_gateway_v4_7_1_sde.Gateway.Ownership.{OwnedBy}
use media_gateway_v4_7_1_sde.Gateway.Steps.{
  Process, new_process, RunsAt, with_agents, Step, allocates, receives, times_out, gathers, changes,
  plays, Reach,
}
use media_gateway_v4_7_1_sde.Gateway.Steps.Reachable.{Reach-Owned}
use media_gateway_v4_7_1_sde.Gateway.Guard.{Owner-other, store-Guarded}
use media_gateway_v4_7_1_sde.Gateway.Guard.Callbacks.{
  GuardedBy, Unanswered, deref_inv, dispatch-Guarded, on_timeout-Guarded, on_timeout_returns,
}

with_agents-Guarded :
    (p : ℕ) (s : Session) (a b : Agents) (x : Process)
    → RunsAt p s a x.gateway
    → GuardedBy x.gateway
    → GuardedBy (with_agents p s b x).gateway
with_agents-Guarded p s a b x (found, _) h =
    store-Guarded x.gateway.timers x.gateway.heap p s (deref_inv p x.gateway s found) h
      (record s { agents = some b }) (refl, (b, refl))

module _ (env : Env) (resources : ℕ → Resources) where
  -- A step that is no second answer to a session.
  abbrev pub Allowed : {x y : Process} → Step env resources x y → Type 0
  Allowed (allocates e) = Unit {0}
  Allowed {x} (receives packet e f) =
      (msg : SessionMessage)
      → parser_session_message env.json env.unset (c_str packet) ≡ ok msg
      → Unanswered msg x.gateway
  Allowed (times_out id e f) = Unit {0}
  Allowed (gathers p s a cs runs) = Unit {0}
  Allowed (changes p s a ready component state runs) = Unit {0}
  Allowed (plays p s unset e m runs f) = Unit {0}

  -- The processes that are reached without a second answer to a session.
  pub data ReachOnce : Process → Type 0 where
    at_start : ReachOnce new_process
    and_then :
        {x y : Process} → ReachOnce x → (st : Step env resources x y) → Allowed st → ReachOnce y

  pub ReachOnce-Reach : {x : Process} → ReachOnce x → Reach env resources x
  ReachOnce-Reach ReachOnce.at_start = Reach.at_start
  ReachOnce-Reach (ReachOnce.and_then r st _) = Reach.and_then (ReachOnce-Reach r) st

  handle-Guarded :
      (spare : ℕ) (message : Text) (g : Gateway)
      → GuardedBy g
      → ((msg : SessionMessage)
          → parser_session_message env.json env.unset message ≡ ok msg
          → Unanswered msg g)
      → Ensures
          (λ (r : Bool × Gateway × List Effect). GuardedBy r.1)
          (handle_session_message env spare message g)
  unfolding handle_session_message
  handle-Guarded spare message g h first =
      Ensures-bind (λ (r : Bool × Gateway × List Effect). GuardedBy r.1)
        (parser_session_message env.json env.unset message) _
        (λ msg e. dispatch-Guarded env message msg spare g h (first msg e))

  step-Guarded :
      {x y : Process} (st : Step env resources x y)
      → Allowed st
      → OwnedBy x.spare x.gateway
      → GuardedBy x.gateway
      → GuardedBy y.gateway
  unfolding allocate
  step-Guarded {x} (allocates e) _ o h = λ j ts set.
      let own = h j ts set in
      Owner-other x.gateway.next _ x.gateway.heap j ts.para
        (λ z. omega (arith, o.bounded ts.para (own.session, own.found))) own
  step-Guarded {x} (receives {p} packet e f) first o h =
      (handle-Guarded p (c_str packet) x.gateway h first).result f
  step-Guarded {x} (times_out id e f) _ o h = (on_timeout-Guarded id x.gateway h).result f
  step-Guarded {x} (gathers p s a cs runs) _ o h = with_agents-Guarded p s a _ x runs h
  step-Guarded {x} (changes p s a ready component state runs) _ o h =
      with_agents-Guarded p s a _ x runs h
  step-Guarded {x} (plays p s unset e m {m'} runs f) _ o h =
      with_agents-Guarded p s m.agents m'.agents x runs h

  pub ReachOnce-Guarded : {x : Process} → ReachOnce x → GuardedBy x.gateway
  unfolding map_find
  ReachOnce-Guarded ReachOnce.at_start = λ j ts set. absurd (none-ne-some set)
  ReachOnce-Guarded (ReachOnce.and_then r st allowed) =
      step-Guarded st allowed (Reach-Owned env resources (ReachOnce-Reach r)) (ReachOnce-Guarded r)

  -- If no session is answered twice, then in whatever order packets, timers, libnice's callbacks
  -- and the media threads take their turns, the session of every timer that is set was not deleted,
  -- it runs, the timer is the one that it knows, and the timer's callback makes no fault.
  pub timers_safe :
      {x : Process} (id : ℕ) (ts : Ts)
      → ReachOnce x
      → map_find id x.gateway.timers.tpool ≡ some ts
      → (s : Session) × (deref ts.para x.gateway ≡ ok s)
        × (is_session_stop s ≡ false)
        × (s.timer_id ≡ id)
        × (g : Gateway) × (on_timeout id x.gateway ≡ ok g)
  unfolding deref is_session_stop
  timers_safe {x} id ts r set =
      let o = ReachOnce-Guarded r id ts set in
      let here : deref ts.para x.gateway ≡ ok o.session = rw (deref, o.found) in
      let back = on_timeout_returns id x.gateway ts o.session o.runs.0 set here o.runs.1 in
      (o.session, here, rw (is_session_stop, o.runs.1), o.known, back.0, back.1)
