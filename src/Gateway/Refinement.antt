-- ===== src/Gateway/Refinement.antt =====
-- src/mediagateway.cpp: `handleSessionMessage` on the objects does what the table of sessions says.
use media_gateway_v4_7_1_sde.Base.{
  ℕ, ◌≡◌, ◌≢◌, refl, ap, ◌∙◌, Bool, true, false, not, ◌&&◌, Option, none, some, List, [],
  if◌then◌else◌, arith, Text, eq_ℤ, Run, ok, fault, ◌>>=◌, ==_refl, map_find, map_assign, map_erase,
  map_find-map_assign, map_find-map_erase, nat_eq,
}
use media_gateway_v4_7_1_sde.Text.{text_eq, eq_text_iff}
use media_gateway_v4_7_1_sde.Messages.{SessionMessage, offer, candidate, answer, shutdown_r}
use media_gateway_v4_7_1_sde.Agents.{Effect}
use media_gateway_v4_7_1_sde.Session.{cancel_threads, Env, Session, is_session_stop}
use media_gateway_v4_7_1_sde.Session.Handlers.{
  session_candidate_from_web, handle_offer_from_web, handle_offer_from_ims, handle_answer_from_web,
  handle_answer_from_ims,
}
use media_gateway_v4_7_1_sde.Gateway.{
  Gateway, is_from_browser, is_empty, deref, delete_object, on_offer, on_message, dispatch_at,
  dispatch,
}
use media_gateway_v4_7_1_sde.Gateway.Ownership.{OwnedBy}
use media_gateway_v4_7_1_sde.Gateway.Dispatch.{dispatch_used}
use media_gateway_v4_7_1_sde.Gateway.Apart.{dispatch-table}
use media_gateway_v4_7_1_sde.Gateway.Table.{
  this_address, observed, at_address, table, running_step, named_step, table_step,
}

bind_observed {ℓ κ ι} :
    {A : Type ℓ} {B : Type κ} {C : Type ι} (m : Run A) (f : A → Run B) (g : B → Run C)
    (h : A → Run C)
    → ((a : A) → (f a >>= g) ≡ h a)
    → ((m >>= f) >>= g) ≡ (m >>= h)
bind_observed (ok a) f g h e = e a
bind_observed (fault x) f g h e = refl

if_observed {ℓ κ} :
    {A : Type ℓ} {B : Type κ} (b : Bool) (m n : Run A) (g : A → Run B) {h k : Run B}
    → (m >>= g) ≡ h
    → (n >>= g) ≡ k
    → ((if b then m else n) >>= g) ≡ (if b then h else k)
if_observed true m n g e f = e
if_observed false m n g e f = f

-- What stands at an id, in a map and a heap that were changed.
module _ (id : Text) (m : List (Text × ℕ)) (heap : List (ℕ × Session)) where
  stored :
      (p : ℕ) (s : Session)
      → map_find id m ≡ some p
      → at_address (map_assign p s heap) (map_find id m) ≡ some s
  stored p s e = rw e (map_find-map_assign p p s heap ∙ rw (==_refl p))

  found_entered : (p : ℕ) → map_find id (map_assign id p m) ≡ some p
  found_entered p = ground (arith, map_find-map_assign id id p m, eq_text_iff id id)

  found_erased : map_find id (map_erase id m) ≡ none
  found_erased = ground (arith, map_find-map_erase id id m, eq_text_iff id id)

  entered :
      (p : ℕ) (s : Session)
      → at_address (map_assign p s heap) (map_find id (map_assign id p m)) ≡ some s
  entered p s = rw (found_entered p) (map_find-map_assign p p s heap ∙ rw (==_refl p))

  erased : at_address heap (map_find id (map_erase id m)) ≡ none
  erased = rw found_erased

  in_table :
      (p : ℕ) (s : Session)
      → map_find id m ≡ some p
      → map_find p heap ≡ some s
      → at_address heap (map_find id m) ≡ some s
  in_table p s found here = rw found here

module _ (env : Env) (message : Text) (msg : SessionMessage) (spare : ℕ) (g : Gateway) where
  abbrev id : Text
  id = msg.roap.offer_session_id

  message_observed :
      (p : ℕ) (s t : Session)
      → map_find id g.sessions ≡ some p
      → map_find p g.heap ≡ some s
      → (on_message env p msg message s g >>= λ r. ok (table r.0 id, r.1))
        ≡ running_step env p g.timers t message msg s
  unfolding on_message running_step delete_object table
  message_observed p s t found here =
      let see : Gateway × List Effect → Run (Option Session × List Effect) =
        λ r. ok (table r.0 id, r.1) in
      if_observed (eq_ℤ msg.roap.roap_type candidate) _ _ see
        (bind_observed (session_candidate_from_web env msg s) _ see _
          (λ r. ap (λ (x : Option Session). ok (x, r.1)) (stored id g.sessions g.heap p r.0 found)))
        (if_observed (eq_ℤ msg.roap.roap_type answer) _ _ see
          (bind_observed
            (if is_from_browser message
              then handle_answer_from_web env p msg s g.timers
              else handle_answer_from_ims env p msg s g.timers)
            _ see _
            (λ r.
              ap (λ (x : Option Session). ok (x, r.2)) (stored id g.sessions g.heap p r.0 found)))
          (if_observed (eq_ℤ msg.roap.roap_type shutdown_r) _ _ see
            (bind_observed (cancel_threads s.agents) _ see _ (λ _.
              ap (λ (x : Option Session). ok (x, [])) (erased id g.sessions (map_erase p g.heap))))
            (ap (λ (x : Option Session). ok (x, []))
              (in_table id g.sessions g.heap p s found here))))

  abbrev entered_run : Session × List Effect → Run (Option Session × List Effect)
  entered_run r = ok (some r.0, r.1)

  abbrev seen : Gateway × List Effect → Run (Option Session × List Effect)
  seen r = ok (table r.0 id, r.1)

  offer_observed :
      (t : Session)
      → map_find spare g.heap ≡ some t
      → (on_offer env spare msg message g >>= seen) ≡ (
          (if is_from_browser message
            then handle_offer_from_web env msg (record t { offer_session_id = id })
            else handle_offer_from_ims env msg (record t { offer_session_id = id }))
          >>= entered_run)
  unfolding on_offer deref table
  offer_observed t here =
      let see : Gateway × List Effect → Run (Option Session × List Effect) =
        λ r. ok (table r.0 id, r.1) in
      rw (deref, here)
        (bind_observed
          (if is_from_browser message
            then handle_offer_from_web env msg (record t { offer_session_id = id })
            else handle_offer_from_ims env msg (record t { offer_session_id = id }))
          _ see _
          (λ r. ap (λ (x : Option Session). ok (x, r.1)) (entered id g.sessions g.heap spare r.0)))

  missing_observed :
      (t : Session)
      → map_find id g.sessions ≡ none
      → map_find spare g.heap ≡ some t
      → (dispatch_at env none spare msg message g >>= observed id)
        ≡ named_step env spare g.timers t message msg none
  unfolding dispatch_at named_step table
  missing_observed t absent here =
      if_observed (eq_ℤ msg.roap.roap_type offer) _ _ (observed id)
        (bind_observed (on_offer env spare msg message g) _ (observed id) seen (λ r. refl)
          ∙ offer_observed t here)
        (rw absent)

  known_observed :
      (p : ℕ) (s t : Session)
      → map_find id g.sessions ≡ some p
      → map_find p g.heap ≡ some s
      → (dispatch_at env (some p) spare msg message g >>= observed id)
        ≡ named_step env p g.timers t message msg (some s)
  unfolding dispatch_at named_step table deref
  known_observed p s t found here =
      if_observed (eq_ℤ msg.roap.roap_type offer) _ _ (observed id) refl (
        rw (deref, here)
          (if_observed (is_session_stop s) _ _ (observed id)
            (ap (λ (x : Option Session). ok (x, [])) (erased id g.sessions g.heap))
            (bind_observed (on_message env p msg message s g) _ (observed id) seen (λ r. refl)
              ∙ message_observed p s t found here)))

  at_observed :
      (t : Session) (o? : Option ℕ)
      → OwnedBy (some spare) g
      → map_find spare g.heap ≡ some t
      → map_find id g.sessions ≡ o?
      → (dispatch_at env o? spare msg message g >>= observed id)
        ≡ named_step env (this_address spare o?) g.timers t message msg (at_address g.heap o?)
  unfolding this_address
  at_observed t none own here absent = missing_observed t absent here
  at_observed t (some p) own here found =
      let (s, live) = own.live id p found in rw live (known_observed p s t found live)

  dispatch-observed :
      (t : Session)
      → OwnedBy (some spare) g
      → map_find spare g.heap ≡ some t
      → (dispatch env spare msg message g >>= observed id)
        ≡ table_step env
            (this_address spare (map_find id g.sessions))
            g.timers
            t
            message
            msg
            (table g id)
  unfolding dispatch table_step table
  dispatch-observed t own here =
      if_observed (is_empty id) _ _ (observed id) refl
        (at_observed t (map_find id g.sessions) own here refl)

  -- In a process whose map is sound, and whose session made in advance is `t`, a message of an id
  -- does what the table of sessions says, to the session that the id stands for, to what is sent, and
  -- to the fault with which the process stops if it does. If the process goes on, then `used` is set
  -- just if the message is an offer that names a session, and the table is as it was at every other
  -- id, one that stands for no session included.
  pub dispatch-table_step :
      (t : Session)
      → OwnedBy (some spare) g
      → map_find spare g.heap ≡ some t
      → ((dispatch env spare msg message g >>= observed id)
          ≡ table_step env
              (this_address spare (map_find id g.sessions))
              g.timers
              t
              message
              msg
              (table g id))
        × ((r : Bool × Gateway × List Effect)
            → dispatch env spare msg message g ≡ ok r
            → (r.0 ≡ (not (is_empty id) && eq_ℤ msg.roap.roap_type offer))
              × ((j : Text) → j ≢ id → table r.1 j ≡ table g j))
  dispatch-table_step t own here = (
    dispatch-observed t own here,
    λ r e. (
      dispatch_used env message msg spare g e,
      λ j ne. dispatch-table env message msg spare g j own ne e,
    ),
  )
