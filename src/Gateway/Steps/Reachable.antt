-- ===== src/Gateway/Steps/Reachable.antt =====
-- src/mediagateway.cpp and the threads: what holds of the map of sessions in whatever order their
-- steps come.
use media_gateway_v4_7_1_sde.Base.{
  ℕ, ◌≡◌, ◌≢◌, Option, some, Text, ok, subst, Ensures, Ensures-ok, Ensures-bind, Option-cases, inl,
  inr, map_find, nat_eq,
}
use media_gateway_v4_7_1_sde.Text.{text_eq}
use media_gateway_v4_7_1_sde.Etcp.{c_str}
use media_gateway_v4_7_1_sde.Session.{Env, Session, Agents, Resources, check_media_flow}
use media_gateway_v4_7_1_sde.Gateway.{Gateway, deref, on_timeout, allocate}
use media_gateway_v4_7_1_sde.Gateway.Objects.{store-Owned, fresh-Owned}
use media_gateway_v4_7_1_sde.Gateway.Ownership.{
  OwnedBy, new_gateway-Owned, handle-Owned, deref-Live,
}
use media_gateway_v4_7_1_sde.Gateway.Steps.{
  Process, RunsAt, with_agents, Step, allocates, receives, times_out, gathers, changes, plays,
  Reach, at_start, and_then,
}

on_timeout-Owned :
    (id : ℕ) (sp : Option ℕ) (g : Gateway) → OwnedBy sp g → Ensures (OwnedBy sp) (on_timeout id g)
unfolding on_timeout
on_timeout-Owned id sp g o = elim (Option-cases (map_find id g.timers.tpool)) [
  | inl e ↦ rw (on_timeout, e) (Ensures-ok (OwnedBy sp) o)
  | inr (ts, e) ↦
      rw (on_timeout, e)
        (Ensures-bind (OwnedBy sp) (deref ts.para g) _ (λ s found.
          Ensures-bind (OwnedBy sp) (check_media_flow ts.para s g.timers) _ (λ r _.
            Ensures-ok (OwnedBy sp) (store-Owned ts.para r.0 o (deref-Live ts.para g s found)))))
]

with_agents-Owned :
    (p : ℕ) (s : Session) (a b : Agents) (x : Process)
    → RunsAt p s a x.gateway
    → OwnedBy x.spare x.gateway
    → OwnedBy x.spare (with_agents p s b x).gateway
with_agents-Owned p s a b x (found, _) o = store-Owned p _ o (deref-Live p x.gateway s found)

module _ (env : Env) (resources : ℕ → Resources) where
  step-Owned :
      {x y : Process}
      → Step env resources x y
      → OwnedBy x.spare x.gateway
      → OwnedBy y.spare y.gateway
  unfolding allocate
  step-Owned {x} (allocates e) o =
      let g = x.gateway in
      fresh-Owned g.sessions g.heap g.next _ (subst (λ (sp : Option ℕ). OwnedBy sp g) e o)
  step-Owned {x} (receives {p} packet e f) o =
      (handle-Owned env p (c_str packet) x.gateway
          (subst (λ (sp : Option ℕ). OwnedBy sp x.gateway) e o)).result
        f
  step-Owned {x} (times_out id e f) o = (on_timeout-Owned id x.spare x.gateway o).result f
  step-Owned {x} (gathers p s a cs runs) o = with_agents-Owned p s a _ x runs o
  step-Owned {x} (changes p s a ready component state runs) o = with_agents-Owned p s a _ x runs o
  step-Owned {x} (plays p s unset e m {m'} runs f) o =
      with_agents-Owned p s m.agents m'.agents x runs o

  pub Reach-Owned : {x : Process} → Reach env resources x → OwnedBy x.spare x.gateway
  Reach-Owned at_start = new_gateway-Owned
  Reach-Owned (and_then r step) = step-Owned step (Reach-Owned r)

  -- In whatever order packets, timers, libnice's callbacks and the media threads take their turns:
  -- every session id of the map stands for an object that was not deleted, two ids never stand for
  -- one object, and no id stands for the session that was made in advance.
  pub Reach-owned :
      {x : Process}
      → Reach env resources x
      → ((i : Text) (p : ℕ)
          → map_find i x.gateway.sessions ≡ some p
          → (s : Session) × (deref p x.gateway ≡ ok s))
        × ((i j : Text) (p : ℕ)
            → map_find i x.gateway.sessions ≡ some p
            → map_find j x.gateway.sessions ≡ some p
            → i ≡ j)
        × ((i : Text) (p : ℕ) → x.spare ≡ some p → map_find i x.gateway.sessions ≢ some p)
  unfolding deref
  Reach-owned {x} r =
      let o = Reach-Owned r in
      (
        (λ i p f. let (s, h) = o.live i p f in (s, rw (deref, h))),
        o.distinct,
        (λ i p e. o.spare_free p i e),
      )
