-- ===== src/Gateway/Dispatch.antt =====
-- src/mediagateway.cpp: `handleSessionMessage`, by what the map says of the message's session id.
use media_gateway_v4_7_1_sde.Base.{
  ℕ, ◌≡◌, refl, sym, ◌∙◌, Bool, true, false, not, ◌&&◌, Option, none, some, List, [], if◌then◌else◌,
  arith, Text, eq_ℤ, Run, ok, ◌>>=◌, fault, abort, use_after_free, ==_refl, Ensures, Ensures-bind,
  Ensures-ok, Ensures-if, Ensures-fault, Bool-cases, map_find, map_erase, nat_eq, inl, inr,
  map_find-map_assign, map_find-map_erase, subst,
}
use media_gateway_v4_7_1_sde.Text.{text_eq, eq_text_iff}
use media_gateway_v4_7_1_sde.Messages.{SessionMessage, offer, shutdown_r}
use media_gateway_v4_7_1_sde.Agents.{Effect}
use media_gateway_v4_7_1_sde.Session.{cancel_threads, Env, Session, is_session_stop}
use media_gateway_v4_7_1_sde.Session.Handlers.{handle_offer_from_web, handle_offer_from_ims}
use media_gateway_v4_7_1_sde.Gateway.{
  is_from_browser, delete_object, Gateway, deref, on_offer, on_message, dispatch_at, dispatch,
  is_empty,
}

module _ (env : Env) (message : Text) (msg : SessionMessage) (spare : ℕ) (g : Gateway) where
  abbrev Used : Option ℕ → Bool × Gateway × List Effect → Type 0
  Used known r = r.0 ≡ (not (is_empty msg.roap.offer_session_id) && eq_ℤ msg.roap.roap_type offer)

  Used-at :
      (known : Option ℕ)
      → is_empty msg.roap.offer_session_id ≡ false
      → Ensures (Used known) (dispatch_at env known spare msg message g)
  unfolding dispatch_at
  Used-at none e = elim (Bool-cases (eq_ℤ msg.roap.roap_type offer)) [
    | inl o ↦ rw o (
        Ensures-bind (Used none) (on_offer env spare msg message g) _
          (λ r _. Ensures-ok (Used none) (rw (e, o))))
    | inr o ↦ rw o (Ensures-ok (Used none) (rw (e, o)))
  ]
  Used-at (some p) e = elim (Bool-cases (eq_ℤ msg.roap.roap_type offer)) [
    | inl o ↦ rw o (Ensures-fault (Used (some p)))
    | inr o ↦ rw o (
        Ensures-bind (Used (some p)) (deref p g) _ (λ s _.
          Ensures-if (Used (some p)) (is_session_stop s) (Ensures-ok (Used (some p)) (rw (e, o))) (
            Ensures-bind (Used (some p)) (on_message env p msg message s g) _
              (λ r _. Ensures-ok (Used (some p)) (rw (e, o))))))
  ]

  dispatch-Used :
      Ensures
        (Used (map_find msg.roap.offer_session_id g.sessions))
        (dispatch env spare msg message g)
  unfolding dispatch
  dispatch-Used = elim (Bool-cases (is_empty msg.roap.offer_session_id)) [
    | inl e ↦ rw e (Ensures-ok (Used (map_find msg.roap.offer_session_id g.sessions)) (rw e))
    | inr e ↦ rw e (Used-at (map_find msg.roap.offer_session_id g.sessions) e)
  ]

-- Whenever a message has been handled, `used` is set just if it is an offer that names a session.
pub dispatch_used :
    (env : Env) (message : Text) (msg : SessionMessage) (spare : ℕ) (g : Gateway)
    {r : Bool × Gateway × List Effect}
    → dispatch env spare msg message g ≡ ok r
    → r.0 ≡ (not (is_empty msg.roap.offer_session_id) && eq_ℤ msg.roap.roap_type offer)
dispatch_used env message msg spare g h = (dispatch-Used env message msg spare g).result h

-- An offer enters its id.
offer_enters :
    (env : Env) (message : Text) (msg : SessionMessage) (spare : ℕ) (g : Gateway)
    → Ensures
        (λ (r : Gateway × List Effect).
          map_find msg.roap.offer_session_id r.0.sessions ≡ some spare)
        (on_offer env spare msg message g)
unfolding on_offer
offer_enters env message msg spare g = Ensures-bind P (deref spare g) _ (λ s found.
    let s' : Session = record s { offer_session_id = msg.roap.offer_session_id } in
    Ensures-bind P
      (if is_from_browser message
        then handle_offer_from_web env msg s'
        else handle_offer_from_ims env msg s')
      _
      (λ t _. Ensures-ok P (
        ground (
          arith,
          eq_text_iff msg.roap.offer_session_id msg.roap.offer_session_id,
          map_find-map_assign msg.roap.offer_session_id msg.roap.offer_session_id spare g.sessions,
        ))))
  where
    P : Gateway × List Effect → Type 0
    P r = map_find msg.roap.offer_session_id r.0.sessions ≡ some spare

known_aborts :
    (env : Env) (message : Text) (msg : SessionMessage) (spare p : ℕ) (g : Gateway)
    → is_empty msg.roap.offer_session_id ≡ false
    → eq_ℤ msg.roap.roap_type offer ≡ true
    → map_find msg.roap.offer_session_id g.sessions ≡ some p
    → dispatch env spare msg message g ≡ fault abort
unfolding dispatch dispatch_at
known_aborts env message msg spare p g named o found = rw (named, found, o)

-- Once an offer of an id has been handled, a second offer of the same id stops the process at the
-- `assert`, whatever it says.
pub second_offer_aborts :
    (env : Env) (message text : Text) (msg again : SessionMessage) (spare spare2 : ℕ) (g : Gateway)
    {r : Bool × Gateway × List Effect}
    → is_empty msg.roap.offer_session_id ≡ false
    → eq_ℤ msg.roap.roap_type offer ≡ true
    → dispatch env spare msg message g ≡ ok r
    → again.roap.offer_session_id ≡ msg.roap.offer_session_id
    → eq_ℤ again.roap.roap_type offer ≡ true
    → dispatch env spare2 again text r.1 ≡ fault abort
unfolding dispatch dispatch_at
second_offer_aborts env message text msg again spare spare2 g {r} named o first same o2 =
    known_aborts env text again spare2 spare r.1 (rw same named) o2
      (subst (λ (x : Text). map_find x r.1.sessions ≡ some spare) (sym same) (entered.result first))
  where
    P : Bool × Gateway × List Effect → Type 0
    P x = map_find msg.roap.offer_session_id x.1.sessions ≡ some spare

    at : (o? : Option ℕ) → Ensures P (dispatch_at env o? spare msg message g)
    at none = rw o (
        Ensures-bind P (on_offer env spare msg message g) _
          (λ x e. Ensures-ok P ((offer_enters env message msg spare g).result e)))
    at (some p) = rw o (Ensures-fault P)

    entered : Ensures P (dispatch env spare msg message g)
    entered = rw named (at (map_find msg.roap.offer_session_id g.sessions))

find-erase_same : (id : Text) (m : List (Text × ℕ)) → map_find id (map_erase id m) ≡ none
find-erase_same id m = ground (arith, map_find-map_erase id id m, eq_text_iff id id)

deref-erase : (p : ℕ) (g : Gateway) → map_find p g.heap ≡ none → deref p g ≡ fault use_after_free
unfolding deref
deref-erase p g e = rw (deref, e)

-- A message that is no offer, of an id that the map has not, changes nothing.
dispatch-missing :
    (env : Env) (text : Text) (msg : SessionMessage) (spare : ℕ) (g : Gateway)
    → map_find msg.roap.offer_session_id g.sessions ≡ none
    → eq_ℤ msg.roap.roap_type offer ≡ false
    → dispatch env spare msg text g ≡ ok (false, g, [])
unfolding dispatch dispatch_at
dispatch-missing env text msg spare g e other =
    elim (Bool-cases (is_empty msg.roap.offer_session_id)) [
      | inl h ↦ rw h
      | inr h ↦ rw (h, e, other)
    ]

-- The end of a shutdown, behind the threads of the session.
abbrev ended : Gateway → Unit {0} → Run (Gateway × List Effect)
ended h _ = ok (h, [])

abbrev unused : Gateway × List Effect → Run (Bool × Gateway × List Effect)
unused r = ok (false, r.0, r.1)

pub shut_down :
    (m : Run (Unit {0})) (h : Gateway) → (m >>= ended h >>= unused) ≡ (m >>= λ _. ok (false, h, []))
shut_down (ok x) h = refl
shut_down (fault f) h = refl

-- A shutdown of a session that runs, behind `cancel_threads`: its id leaves the map, its object is deleted, nothing is sent,
-- and a later message for this id that is no offer changes nothing.
pub shutdown_lem :
    (env : Env) (message : Text) (msg : SessionMessage) (spare p : ℕ) (s : Session) (g : Gateway)
    → is_empty msg.roap.offer_session_id ≡ false
    → msg.roap.roap_type ≡ shutdown_r
    → map_find msg.roap.offer_session_id g.sessions ≡ some p
    → deref p g ≡ ok s
    → is_session_stop s ≡ false
    → (h : Gateway) × (dispatch env spare msg message g
        ≡ (cancel_threads s.agents >>= λ _. ok (false, h, [])))
      × (deref p h ≡ fault use_after_free)
      × ((other : SessionMessage) (text : Text)
          → other.roap.offer_session_id ≡ msg.roap.offer_session_id
          → eq_ℤ other.roap.roap_type offer ≡ false
          → dispatch env spare other text h ≡ ok (false, h, []))
unfolding dispatch dispatch_at on_message delete_object
shutdown_lem env message msg spare p s g named shut found here runs = (
  record (delete_object p s g) { sessions = map_erase msg.roap.offer_session_id g.sessions },
  rw (named, found, shut, here, runs) (shut_down (cancel_threads s.agents) _),
  deref-erase p _ (map_find-map_erase p p g.heap ∙ rw (==_refl p)),
  λ other text same quiet.
      dispatch-missing env text other spare _
        (subst (λ (x : Text). map_find x (map_erase msg.roap.offer_session_id g.sessions) ≡ none)
          (sym same) (find-erase_same msg.roap.offer_session_id g.sessions))
        quiet,
)
