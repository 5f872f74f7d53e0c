-- ===== src/Gateway/Ownership.antt =====
-- src/mediagateway.cpp: the map of sessions and the objects that it points to.
use media_gateway_v4_7_1_sde.Base.{
  ℕ, ◌≡◌, refl, Bool, Option, none, some, List, [], ◌∷◌, arith, if◌then◌else◌, Text, ok, Ensures,
  Ensures-bind, Ensures-ok, Ensures-if, Ensures-fault, map_find, nat_eq, eq_ℤ,
}
use media_gateway_v4_7_1_sde.Text.{text_eq}
use media_gateway_v4_7_1_sde.Etcp.{c_str}
use media_gateway_v4_7_1_sde.Messages.{SessionMessage, candidate, answer, shutdown_r}
use media_gateway_v4_7_1_sde.Agents.{Effect}
use media_gateway_v4_7_1_sde.Session.{cancel_threads, Env, Session, Resources}
use media_gateway_v4_7_1_sde.Session.Handlers.{
  session_candidate_from_web, handle_offer_from_web, handle_offer_from_ims, handle_answer_from_web,
  handle_answer_from_ims,
}
use media_gateway_v4_7_1_sde.Gateway.{
  is_from_browser, Gateway, deref, delete_object, on_offer, on_message, dispatch_at, dispatch,
  serve, allocate, handle_session_message, new_gateway,
}
use media_gateway_v4_7_1_sde.Gateway.Objects.{
  Live, Owned, none-ne-some, store-Owned, forget-Owned, delete-Owned, register-Owned, fresh-Owned,
}

abbrev pub OwnedBy : Option ℕ → Gateway → Type 0
OwnedBy spare g = Owned spare g.sessions g.heap g.next

pub deref-Live : (p : ℕ) (g : Gateway) (s : Session) → deref p g ≡ ok s → Live p g.heap
unfolding deref
deref-Live p g s e = (s, ground arith)

-- After a step the spare session is used, or still there.
abbrev pub After : ℕ → Bool × Gateway × List Effect → Type 0
After spare r = OwnedBy (if r.0 then none else some spare) r.1

module _ (env : Env) (message : Text) (msg : SessionMessage) where
  on_offer-Owned :
      (spare : ℕ) (g : Gateway)
      → map_find msg.roap.offer_session_id g.sessions ≡ none
      → OwnedBy (some spare) g
      → Ensures (λ (r : Gateway × List Effect). OwnedBy none r.0) (on_offer env spare msg message g)
  unfolding on_offer
  on_offer-Owned spare g new o = Ensures-bind P (deref spare g) _ (λ s found.
      let s' : Session = record s { offer_session_id = msg.roap.offer_session_id } in
      Ensures-bind P
        (if is_from_browser message
          then handle_offer_from_web env msg s'
          else handle_offer_from_ims env msg s')
        _
        (λ t _. Ensures-ok P (
          store-Owned spare t.0 (register-Owned msg.roap.offer_session_id spare new refl o)
            (o.spare_live spare refl))))
    where
      P : Gateway × List Effect → Type 0
      P r = OwnedBy none r.0

  on_message-Owned :
      (sp : Option ℕ) (p : ℕ) (s : Session) (g : Gateway)
      → map_find msg.roap.offer_session_id g.sessions ≡ some p
      → Live p g.heap
      → OwnedBy sp g
      → Ensures (λ (r : Gateway × List Effect). OwnedBy sp r.0) (on_message env p msg message s g)
  unfolding on_message delete_object
  on_message-Owned sp p s g found l o =
      Ensures-if P (eq_ℤ msg.roap.roap_type candidate)
        (Ensures-bind P (session_candidate_from_web env msg s) _
          (λ r _. Ensures-ok P (store-Owned p r.0 o l)))
        (Ensures-if P (eq_ℤ msg.roap.roap_type answer)
          (Ensures-bind P
            (if is_from_browser message
              then handle_answer_from_web env p msg s g.timers
              else handle_answer_from_ims env p msg s g.timers)
            _ (λ r _. Ensures-ok P (store-Owned p r.0 o l)))
          (Ensures-if P (eq_ℤ msg.roap.roap_type shutdown_r)
            (Ensures-bind P (cancel_threads s.agents) _
              (λ _ _. Ensures-ok P (delete-Owned msg.roap.offer_session_id p found o)))
            (Ensures-ok P o)))
    where
      P : Gateway × List Effect → Type 0
      P r = OwnedBy sp r.0

  dispatch_at-Owned :
      (spare : ℕ) (g : Gateway) (o? : Option ℕ)
      → map_find msg.roap.offer_session_id g.sessions ≡ o?
      → OwnedBy (some spare) g
      → Ensures (After spare) (dispatch_at env o? spare msg message g)
  unfolding dispatch_at
  dispatch_at-Owned spare g none found o =
      Ensures-if (After spare) _
        (Ensures-bind (After spare) _ _
          (λ r e. Ensures-ok (After spare) ((on_offer-Owned spare g found o).result e)))
        (Ensures-ok (After spare) o)
  dispatch_at-Owned spare g (some p) found o =
      Ensures-if (After spare) _ (Ensures-fault (After spare)) (
        Ensures-bind (After spare) _ _ (λ s here.
          Ensures-if (After spare) _
            (Ensures-ok (After spare) (forget-Owned msg.roap.offer_session_id o))
            (Ensures-bind (After spare) _ _ (λ r e.
              Ensures-ok (After spare)
                ((on_message-Owned (some spare) p s g found (deref-Live p g s here) o).result e)))))

  dispatch-Owned :
      (spare : ℕ) (g : Gateway)
      → OwnedBy (some spare) g
      → Ensures (After spare) (dispatch env spare msg message g)
  unfolding dispatch
  dispatch-Owned spare g o =
      Ensures-if (After spare) _ (Ensures-ok (After spare) o) (dispatch_at-Owned spare g _ refl o)

pub handle-Owned :
    (env : Env) (spare : ℕ) (message : Text) (g : Gateway)
    → OwnedBy (some spare) g
    → Ensures (After spare) (handle_session_message env spare message g)
unfolding handle_session_message
handle-Owned env spare message g o =
    Ensures-bind (After spare) _ _ (λ msg _. dispatch-Owned env message msg spare g o)

abbrev Kept : Gateway × List Effect → Type 0
Kept r = (sp : Option ℕ) × OwnedBy sp r.0

module _ (env : Env) (resources : ℕ → Resources) where
  serve_keeps :
      (spare : Option ℕ) (packets : List Text) (g : Gateway)
      → OwnedBy spare g
      → Ensures Kept (serve env resources spare packets g)
  unfolding serve allocate
  serve_keeps spare [] g o = Ensures-ok Kept (spare, o)
  serve_keeps (some p) ([] ∷ packets) g o = Ensures-ok Kept (some p, o)
  serve_keeps (some p) ((c ∷ cs) ∷ packets) g o = Ensures-bind Kept _ _ (λ r e.
      Ensures-bind Kept _ _ (λ t f. Ensures-ok Kept (
        (serve_keeps _ packets r.1 ((handle-Owned env p (c_str (c ∷ cs)) g o).result e)).result f)))
  serve_keeps none ([] ∷ packets) g o =
      Ensures-ok Kept (some g.next, fresh-Owned g.sessions g.heap g.next _ o)
  serve_keeps none ((c ∷ cs) ∷ packets) g o =
      let g1 : Gateway = (allocate env (resources g.next) g).1 in
      Ensures-bind Kept (handle_session_message env g.next (c_str (c ∷ cs)) g1) _ (λ r e.
        Ensures-bind Kept (serve env resources (if r.0 then none else some g.next) packets r.1) _
          (λ t f. Ensures-ok Kept (
            (serve_keeps _ packets r.1 (
                (handle-Owned env g.next (c_str (c ∷ cs)) g1
                    (fresh-Owned g.sessions g.heap g.next _ o)).result
                  e)).result
              f)))

-- The process at its start.
pub new_gateway-Owned : OwnedBy none new_gateway
unfolding map_find
new_gateway-Owned = record {
  live = λ i p e. absurd (none-ne-some e);
  distinct = λ i j p e f. absurd (none-ne-some e);
  spare_live = λ p e. absurd (none-ne-some e);
  spare_free = λ p i e. absurd (none-ne-some e);
  bounded = λ p l. absurd (none-ne-some l.1);
}

-- Whatever packets the process has received since its start, if it is still running then every
-- session id of the map stands for an object that was not deleted, and two ids never stand for one
-- object.
pub serve_owned :
    (env : Env) (resources : ℕ → Resources) (packets : List Text) (g : Gateway) (sent : List Effect)
    → serve env resources none packets new_gateway ≡ ok (g, sent)
    → ((i : Text) (p : ℕ) → map_find i g.sessions ≡ some p → (s : Session) × (deref p g ≡ ok s))
      × ((i j : Text) (p : ℕ)
          → map_find i g.sessions ≡ some p
          → map_find j g.sessions ≡ some p
          → i ≡ j)
unfolding deref
serve_owned env resources packets g sent e =
    let (sp, o) = (serve_keeps env resources none packets new_gateway new_gateway-Owned).result e in
    (λ i p f. let (s, h) = o.live i p f in (s, rw (deref, h)), o.distinct)
