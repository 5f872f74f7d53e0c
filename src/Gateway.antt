-- ===== src/Gateway.antt =====
-- src/mediagateway.cpp: the sessions by their ids, and the loop over the packets of the signalling
-- gateway. `MediaSession` objects stand in a heap by address, so that a deleted one is known.
pub mod Dispatch
pub mod Objects
pub mod Guard
pub mod Ownership
pub mod Apart
pub mod Timeouts
pub mod Steps
pub mod Connection
pub mod Table
pub mod Refinement
use media_gateway_v4_7_1_sde.Base.{
  ℕ, suc, ◌+◌, Bool, true, false, not, ◌&&◌, ◌||◌, Option, none, some, List, [], ◌∷◌, ◌++◌,
  if◌then◌else◌, Text, codes, ℤ, eq_ℤ, Run, ok, fault, null_pointer, abort, use_after_free, ◌>>=◌,
  map_find, map_assign, map_erase, nat_eq,
}
use media_gateway_v4_7_1_sde.Text.{contains, text_eq}
use media_gateway_v4_7_1_sde.Etcp.{c_str}
use media_gateway_v4_7_1_sde.Messages.{
  SessionMessage, RoapMessage, offer, answer, ok_r, candidate, shutdown_r, parser_session_message,
}
use media_gateway_v4_7_1_sde.Agents.{Effect}
use media_gateway_v4_7_1_sde.Timer.{Timers, Ts, timer_done, new_timers}
use media_gateway_v4_7_1_sde.Session.{
  Env, Session, Resources, new_session, is_session_stop, check_media_flow, destroy_session,
  cancel_threads,
}
use media_gateway_v4_7_1_sde.Session.Handlers.{
  handle_offer_from_web, handle_offer_from_ims, handle_answer_from_web, handle_answer_from_ims,
  session_candidate_from_web,
}

-- The process: `sessions`, the objects by address, and the timers.
pub record Gateway : Type 0 where
  pub sessions : List (Text × ℕ)
  pub heap : List (ℕ × Session)
  pub next : ℕ
  pub timers : Timers

abbrev pub new_gateway : Gateway
new_gateway = record { sessions = []; heap = []; next = 1; timers = new_timers }

-- `MediaGateway::isFromBrowser`
unfoldable pub is_from_browser : Text → Bool
is_from_browser message =
    contains message (codes "crypto") || contains message (codes "fingerprint")

abbrev pub is_empty : Text → Bool
is_empty [] = true
is_empty (c ∷ cs) = false

-- The object at an address.
unfoldable pub deref : ℕ → Gateway → Run Session
deref p g = elim (map_find p g.heap) [ none ↦ fault use_after_free | some s ↦ ok s ]

abbrev pub store : ℕ → Session → Gateway → Gateway
store p s g = record g { heap = map_assign p s g.heap }

-- `delete session`, behind `cancel_threads`
unfoldable pub delete_object : ℕ → Session → Gateway → Gateway
delete_object p s g = record g { heap = map_erase p g.heap; timers = destroy_session s g.timers }

-- `onTimeout` of the timer `id`: the callback, then the timer is dropped.
unfoldable pub on_timeout : ℕ → Gateway → Run Gateway
on_timeout id g = elim (map_find id g.timers.tpool) [
  | none ↦ ok g
  | some ts ↦ deref ts.para g >>= λ s. check_media_flow ts.para s g.timers >>= λ r.
      ok (record (store ts.para r.0 g) { timers = timer_done id r.1 })
]

module _ (env : Env) where
  -- `new MediaSession()`
  unfoldable pub allocate : Resources → Gateway → ℕ × Gateway
  allocate r g = (
    g.next,
    record g { next = suc g.next; heap = map_assign g.next (new_session env r []) g.heap },
  )

  -- The branch of an offer; `spare` is the session that was made in advance.
  unfoldable pub on_offer : ℕ → SessionMessage → Text → Gateway → Run (Gateway × List Effect)
  on_offer spare msg message g = do
    s ← deref spare g
    let s' : Session = record s { offer_session_id = msg.roap.offer_session_id }
    let g' : Gateway = record g { sessions = map_assign msg.roap.offer_session_id spare g.sessions }
    (t, effects) ←
        if is_from_browser message
        then handle_offer_from_web env msg s'
        else handle_offer_from_ims env msg s'
    ok (store spare t g', effects)

  -- The branch of the other messages, at a session that runs.
  unfoldable pub on_message :
      ℕ → SessionMessage → Text → Session → Gateway → Run (Gateway × List Effect)
  on_message p msg message s g =
      let t = msg.roap.roap_type in
      if eq_ℤ t candidate
      then (session_candidate_from_web env msg s >>= λ r. ok (store p r.0 g, r.1))
      else if eq_ℤ t answer
      then ((if is_from_browser message
            then handle_answer_from_web env p msg s g.timers
            else handle_answer_from_ims env p msg s g.timers)
          >>= λ r. ok (record (store p r.0 g) { timers = r.1 }, r.2))
      else if eq_ℤ t shutdown_r
      then (cancel_threads s.agents >>= λ _. ok (
        record (delete_object p s g) { sessions = map_erase msg.roap.offer_session_id g.sessions },
        [],
      ))
      else ok (g, [])

  -- The message of a session id that the map has (at an address), or has not.
  unfoldable pub dispatch_at :
      Option ℕ → ℕ → SessionMessage → Text → Gateway → Run (Bool × Gateway × List Effect)
  dispatch_at none spare msg message g =
      if eq_ℤ msg.roap.roap_type offer
      then (on_offer spare msg message g >>= λ r. ok (true, r.0, r.1))
      else ok (false, g, [])
  dispatch_at (some p) spare msg message g =
      if eq_ℤ msg.roap.roap_type offer
      then fault abort
      else (deref p g >>= λ s.
          if is_session_stop s
          then ok
              (false, record g { sessions = map_erase msg.roap.offer_session_id g.sessions }, [])
          else (on_message p msg message s g >>= λ r. ok (false, r.0, r.1)))

  -- `handleSessionMessage` behind the parser: `used`, the process, and what was sent.
  unfoldable pub dispatch : ℕ → SessionMessage → Text → Gateway → Run (Bool × Gateway × List Effect)
  unfolding dispatch_at
  dispatch spare msg message g =
      if is_empty msg.roap.offer_session_id
      then ok (false, g, [])
      else dispatch_at (map_find msg.roap.offer_session_id g.sessions) spare msg message g

  -- `handleSessionMessage`
  unfoldable pub handle_session_message : ℕ → Text → Gateway → Run (Bool × Gateway × List Effect)
  handle_session_message spare message g = do
    msg ← parser_session_message env.json env.unset message
    dispatch spare msg message g

  -- The rounds of `connectToSignalingGateway` for the packets that `readPacket` returns: a session
  -- is made in advance, and again whenever the last one was used. The loop ends at an empty packet,
  -- which is how `readPacket` reports the end and an oversized packet, and where the list ends.
  unfoldable pub serve :
      (ℕ → Resources) → Option ℕ → List Text → Gateway → Run (Gateway × List Effect)
  unfolding allocate
  serve resources spare [] g = ok (g, [])
  serve resources (some p) ([] ∷ packets) g = ok (g, [])
  serve resources (some p) ((c ∷ cs) ∷ packets) g = do
    (used, g', sent) ← handle_session_message p (c_str (c ∷ cs)) g
    (g'', more) ← serve resources (if used then none else some p) packets g'
    ok (g'', sent ++ more)
  serve resources none ([] ∷ packets) g = ok ((allocate (resources g.next) g).1, [])
  serve resources none ((c ∷ cs) ∷ packets) g = do
    let (p, g1) = allocate (resources g.next) g
    (used, g', sent) ← handle_session_message p (c_str (c ∷ cs)) g1
    (g'', more) ← serve resources (if used then none else some p) packets g'
    ok (g'', sent ++ more)
