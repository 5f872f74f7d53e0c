-- ===== src/Gateway/Apart.antt =====
-- src/mediagateway.cpp: a message of one id leaves every other session alone.
use media_gateway_v4_7_1_sde.Base.{
  Option-cases, ℕ, ◌≡◌, refl, sym, ap, ◌∙◌, Bool, Option, none, some, List, if◌then◌else◌, arith,
  Text, eq_ℤ, ok, Ensures, Ensures-bind, Ensures-ok, Ensures-if, Ensures-fault, map_find,
  map_assign, map_erase, nat_eq, inl, inr, ◌≢◌, map_find-map_assign, map_find-map_erase, ne→==,
}
use media_gateway_v4_7_1_sde.Text.{text_eq, eq_text_iff}
use media_gateway_v4_7_1_sde.Messages.{SessionMessage, offer, candidate, answer, shutdown_r}
use media_gateway_v4_7_1_sde.Agents.{Effect}
use media_gateway_v4_7_1_sde.Session.{cancel_threads, Env, Session, is_session_stop}
use media_gateway_v4_7_1_sde.Session.Handlers.{
  session_candidate_from_web, handle_offer_from_web, handle_offer_from_ims, handle_answer_from_web,
  handle_answer_from_ims,
}
use media_gateway_v4_7_1_sde.Gateway.Table.{table}
use media_gateway_v4_7_1_sde.Gateway.Ownership.{OwnedBy}
use media_gateway_v4_7_1_sde.Gateway.{
  is_from_browser, delete_object, Gateway, deref, on_offer, on_message, dispatch_at, dispatch,
  is_empty,
}

-- The map has no other entry changed by an assignment or an erasure.
module _ (id i : Text) (m : List (Text × ℕ)) where
  assign_other : (p : ℕ) → i ≢ id → map_find i (map_assign id p m) ≡ map_find i m
  assign_other p ne = ground (arith, map_find-map_assign id i p m, eq_text_iff id i)

  erase_other : i ≢ id → map_find i (map_erase id m) ≡ map_find i m
  erase_other ne = ground (arith, map_find-map_erase id i m, eq_text_iff id i)

module _ (p q : ℕ) (heap : List (ℕ × Session)) where
  store_other : (s : Session) → p ≢ q → map_find q (map_assign p s heap) ≡ map_find q heap
  store_other s ne = map_find-map_assign p q s heap ∙ rw (ne→== p q ne)

  delete_other : p ≢ q → map_find q (map_erase p heap) ≡ map_find q heap
  delete_other ne = map_find-map_erase p q heap ∙ rw (ne→== p q ne)

-- The session of the id `i` stands at `q` still, and is as it was.
abbrev Apart : Text → ℕ → Gateway → Gateway → Type 0
Apart i q g h = (map_find i h.sessions ≡ some q) × (map_find q h.heap ≡ map_find q g.heap)

module _ (env : Env) (message : Text) (msg : SessionMessage) (spare : ℕ) (g : Gateway) (i : Text)
    (q : ℕ) (own : OwnedBy (some spare) g) (here : map_find i g.sessions ≡ some q)
    (ne : i ≢ msg.roap.offer_session_id) where
  abbrev Kept : Bool × Gateway × List Effect → Type 0
  Kept r = Apart i q g r.1

  on_offer-Apart :
      Ensures (λ (r : Gateway × List Effect). Apart i q g r.0) (on_offer env spare msg message g)
  unfolding on_offer
  on_offer-Apart = Ensures-bind P (deref spare g) _ (λ s found.
      let s' : Session = record s { offer_session_id = msg.roap.offer_session_id } in
      Ensures-bind P
        (if is_from_browser message
          then handle_offer_from_web env msg s'
          else handle_offer_from_ims env msg s')
        _
        (λ t _. Ensures-ok P (
          assign_other msg.roap.offer_session_id i g.sessions spare ne ∙ here,
          store_other spare q g.heap t.0
              (λ (h : spare ≡ q). own.spare_free spare i refl (here ∙ ap some (sym h))),
        )))
    where
      P : Gateway × List Effect → Type 0
      P r = Apart i q g r.0

  on_message-Apart :
      (p : ℕ) (s : Session)
      → map_find msg.roap.offer_session_id g.sessions ≡ some p
      → Ensures (λ (r : Gateway × List Effect). Apart i q g r.0) (on_message env p msg message s g)
  unfolding on_message delete_object
  on_message-Apart p s found =
      Ensures-if P (eq_ℤ msg.roap.roap_type candidate)
        (Ensures-bind P (session_candidate_from_web env msg s) _
          (λ r _. Ensures-ok P (here, store_other p q g.heap r.0 apart)))
        (Ensures-if P (eq_ℤ msg.roap.roap_type answer)
          (Ensures-bind P
            (if is_from_browser message
              then handle_answer_from_web env p msg s g.timers
              else handle_answer_from_ims env p msg s g.timers)
            _ (λ r _. Ensures-ok P (here, store_other p q g.heap r.0 apart)))
          (Ensures-if P (eq_ℤ msg.roap.roap_type shutdown_r)
            (Ensures-bind P (cancel_threads s.agents) _ (λ _ _. Ensures-ok P (
              erase_other msg.roap.offer_session_id i g.sessions ne ∙ here,
              delete_other p q g.heap apart,
            )))
            (Ensures-ok P (here, refl))))
    where
      P : Gateway × List Effect → Type 0
      P r = Apart i q g r.0

      apart : p ≢ q
      apart h = ne (own.distinct i msg.roap.offer_session_id q here (found ∙ ap some h))

  at-Apart :
      (o? : Option ℕ)
      → map_find msg.roap.offer_session_id g.sessions ≡ o?
      → Ensures Kept (dispatch_at env o? spare msg message g)
  unfolding dispatch_at
  at-Apart none found =
      Ensures-if Kept (eq_ℤ msg.roap.roap_type offer)
        (Ensures-bind Kept (on_offer env spare msg message g) _
          (λ r e. Ensures-ok Kept (on_offer-Apart.result e)))
        (Ensures-ok Kept (here, refl))
  at-Apart (some p) found = Ensures-if Kept (eq_ℤ msg.roap.roap_type offer) (Ensures-fault Kept) (
      Ensures-bind Kept (deref p g) _ (λ s e.
        Ensures-if Kept (is_session_stop s)
          (Ensures-ok Kept (erase_other msg.roap.offer_session_id i g.sessions ne ∙ here, refl))
          (Ensures-bind Kept (on_message env p msg message s g) _
            (λ r f. Ensures-ok Kept ((on_message-Apart p s found).result f)))))

-- A message leaves every other session as it is: in a process whose map is sound, an id that is
-- not the message's stands for the same object after the message, and the object has not changed.
pub dispatch_apart :
    (env : Env) (message : Text) (msg : SessionMessage) (spare : ℕ) (g : Gateway) (i : Text) (q : ℕ)
    {r : Bool × Gateway × List Effect}
    → OwnedBy (some spare) g
    → map_find i g.sessions ≡ some q
    → i ≢ msg.roap.offer_session_id
    → dispatch env spare msg message g ≡ ok r
    → (map_find i r.1.sessions ≡ some q) × (map_find q r.1.heap ≡ map_find q g.heap)
unfolding dispatch
dispatch_apart env message msg spare g i q own here ne h =
    (Ensures-if (λ (r : Bool × Gateway × List Effect). Apart i q g r.1)
        (is_empty msg.roap.offer_session_id) (Ensures-ok _ (here, refl))
        (at-Apart env message msg spare g i q own here ne _ refl)).result
      h

-- Whatever a message of another id is, the map has the same entry for `j`.
module _ (env : Env) (message : Text) (msg : SessionMessage) (spare : ℕ) (g : Gateway) (j : Text)
    (ne : j ≢ msg.roap.offer_session_id) where
  abbrev SameEntry : Gateway → Type 0
  SameEntry h = map_find j h.sessions ≡ map_find j g.sessions

  on_offer-SameEntry :
      Ensures (λ (r : Gateway × List Effect). SameEntry r.0) (on_offer env spare msg message g)
  unfolding on_offer
  on_offer-SameEntry = Ensures-bind P (deref spare g) _ (λ s found.
      let s' : Session = record s { offer_session_id = msg.roap.offer_session_id } in
      Ensures-bind P
        (if is_from_browser message
          then handle_offer_from_web env msg s'
          else handle_offer_from_ims env msg s')
        _ (λ t _. Ensures-ok P (assign_other msg.roap.offer_session_id j g.sessions spare ne)))
    where
      P : Gateway × List Effect → Type 0
      P r = SameEntry r.0

  on_message-SameEntry :
      (p : ℕ) (s : Session)
      → Ensures (λ (r : Gateway × List Effect). SameEntry r.0) (on_message env p msg message s g)
  unfolding on_message delete_object
  on_message-SameEntry p s =
      Ensures-if P (eq_ℤ msg.roap.roap_type candidate)
        (Ensures-bind P (session_candidate_from_web env msg s) _ (λ r _. Ensures-ok P refl))
        (Ensures-if P (eq_ℤ msg.roap.roap_type answer)
          (Ensures-bind P
            (if is_from_browser message
              then handle_answer_from_web env p msg s g.timers
              else handle_answer_from_ims env p msg s g.timers)
            _ (λ r _. Ensures-ok P refl))
          (Ensures-if P (eq_ℤ msg.roap.roap_type shutdown_r)
            (Ensures-bind P (cancel_threads s.agents) _
              (λ _ _. Ensures-ok P (erase_other msg.roap.offer_session_id j g.sessions ne)))
            (Ensures-ok P refl)))
    where
      P : Gateway × List Effect → Type 0
      P r = SameEntry r.0

  abbrev Same : Bool × Gateway × List Effect → Type 0
  Same r = SameEntry r.1

  at-SameEntry : (o? : Option ℕ) → Ensures Same (dispatch_at env o? spare msg message g)
  unfolding dispatch_at
  at-SameEntry none =
      Ensures-if Same (eq_ℤ msg.roap.roap_type offer)
        (Ensures-bind Same (on_offer env spare msg message g) _
          (λ r e. Ensures-ok Same (on_offer-SameEntry.result e)))
        (Ensures-ok Same refl)
  at-SameEntry (some p) = Ensures-if Same (eq_ℤ msg.roap.roap_type offer) (Ensures-fault Same) (
      Ensures-bind Same (deref p g) _ (λ s e.
        Ensures-if Same (is_session_stop s)
          (Ensures-ok Same (erase_other msg.roap.offer_session_id j g.sessions ne))
          (Ensures-bind Same (on_message env p msg message s g) _
            (λ r f. Ensures-ok Same ((on_message-SameEntry p s).result f)))))

  dispatch-SameEntry :
      {r : Bool × Gateway × List Effect}
      → dispatch env spare msg message g ≡ ok r
      → map_find j r.1.sessions ≡ map_find j g.sessions
  unfolding dispatch
  dispatch-SameEntry h =
      (Ensures-if Same (is_empty msg.roap.offer_session_id) (Ensures-ok Same refl)
          (at-SameEntry (map_find msg.roap.offer_session_id g.sessions))).result
        h

-- A message leaves the table of sessions as it is at every other id, one that stands for no session
-- included.
pub dispatch-table :
    (env : Env) (message : Text) (msg : SessionMessage) (spare : ℕ) (g : Gateway) (j : Text)
    {r : Bool × Gateway × List Effect}
    → OwnedBy (some spare) g
    → j ≢ msg.roap.offer_session_id
    → dispatch env spare msg message g ≡ ok r
    → table r.1 j ≡ table g j
unfolding table
dispatch-table env message msg spare g j {r} own ne h =
    let same = dispatch-SameEntry env message msg spare g j ne h in
    elim (Option-cases (map_find j g.sessions)) [
      | inl e ↦ rw (same, e)
      | inr (q, e) ↦ rw (same, e) (dispatch_apart env message msg spare g j q own e ne h).1
    ]
