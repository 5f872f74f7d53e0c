-- ===== src/Gateway/Table.antt =====
-- src/mediagateway.cpp, seen from outside: which session an id stands for, and what a message does
-- to it. Addresses, the heap and the session made in advance are hidden.
use media_gateway_v4_7_1_sde.Base.{
  ℕ, Bool, Option, none, some, List, [], if◌then◌else◌, Text, eq_ℤ, Run, ok, fault, abort, ◌>>=◌,
  map_find, nat_eq,
}
use media_gateway_v4_7_1_sde.Text.{text_eq}
use media_gateway_v4_7_1_sde.Messages.{SessionMessage, offer, candidate, answer, shutdown_r}
use media_gateway_v4_7_1_sde.Agents.{Effect}
use media_gateway_v4_7_1_sde.Timer.{Timers}
use media_gateway_v4_7_1_sde.Session.{Env, Session, is_session_stop, cancel_threads}
use media_gateway_v4_7_1_sde.Session.Handlers.{
  session_candidate_from_web, handle_offer_from_web, handle_offer_from_ims, handle_answer_from_web,
  handle_answer_from_ims,
}
use media_gateway_v4_7_1_sde.Gateway.{Gateway, is_from_browser, is_empty}

abbrev pub at_address : List (ℕ × Session) → Option ℕ → Option Session
at_address heap none = none
at_address heap (some p) = map_find p heap

-- The session that an id stands for.
unfoldable pub table : Gateway → Text → Option Session
table g id = at_address g.heap (map_find id g.sessions)

-- What is seen at an id when a message has been handled.
abbrev pub observed : Text → Bool × Gateway × List Effect → Run (Option Session × List Effect)
observed id r = ok (table r.1 id, r.2)

-- The address of the session that handles a message: the one that its id stands for, or the one made
-- in advance.
unfoldable pub this_address : ℕ → Option ℕ → ℕ
this_address spare none = spare
this_address spare (some p) = p

-- What a message of an id does to the session that this id stands for, and what it sends. `fresh` is
-- a session as the constructor makes it; the timers get the session as `this`.
module _ (env : Env) (this : ℕ) (timers : Timers) (fresh : Session) (message : Text)
    (msg : SessionMessage) where
  unfoldable pub running_step : Session → Run (Option Session × List Effect)
  running_step s =
      let t = msg.roap.roap_type in
      if eq_ℤ t candidate
      then (session_candidate_from_web env msg s >>= λ r. ok (some r.0, r.1))
      else if eq_ℤ t answer
      then ((if is_from_browser message
            then handle_answer_from_web env this msg s timers
            else handle_answer_from_ims env this msg s timers)
          >>= λ r. ok (some r.0, r.2))
      else if eq_ℤ t shutdown_r
      then (cancel_threads s.agents >>= λ _. ok (none, []))
      else ok (some s, [])

  unfoldable pub named_step : Option Session → Run (Option Session × List Effect)
  unfolding running_step
  named_step none =
      let s : Session = record fresh { offer_session_id = msg.roap.offer_session_id } in
      if eq_ℤ msg.roap.roap_type offer
      then ((if is_from_browser message
            then handle_offer_from_web env msg s
            else handle_offer_from_ims env msg s)
          >>= λ r. ok (some r.0, r.1))
      else ok (none, [])
  named_step (some s) =
      if eq_ℤ msg.roap.roap_type offer
      then fault abort
      else if is_session_stop s
      then ok (none, [])
      else running_step s

  -- A message without an id does nothing.
  unfoldable pub table_step : Option Session → Run (Option Session × List Effect)
  unfolding named_step
  table_step s = if is_empty msg.roap.offer_session_id then ok (s, []) else named_step s
