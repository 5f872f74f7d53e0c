-- ===== src/Gateway/Steps.antt =====
-- The whole process, src/mediagateway.cpp with the threads that it starts: packets of the signalling
-- gateway, timers that go off, the callbacks of libnice and the media threads, as steps that may
-- come in any order. A step is one round of a thread's loop, as a whole.
pub mod Reachable
pub mod Answers
pub mod Memory
use media_gateway_v4_7_1_sde.Base.{
  ℕ, ◌≡◌, Bool, Option, none, some, List, [], Text, Run, ok, if◌then◌else◌, map_find, nat_eq,
}
use media_gateway_v4_7_1_sde.Etcp.{c_str}
use media_gateway_v4_7_1_sde.Candidate.{LocalCandidate}
use media_gateway_v4_7_1_sde.Agents.{Effect}
use media_gateway_v4_7_1_sde.Agents.Web.{candidate_gathering_done, component_state_changed}
use media_gateway_v4_7_1_sde.Timer.{Ts}
use media_gateway_v4_7_1_sde.Session.{Env, Agents, Session, Resources}
use media_gateway_v4_7_1_sde.Session.Media.{Media, MediaEvent, media_step}
use media_gateway_v4_7_1_sde.Gateway.{
  Gateway, new_gateway, deref, store, allocate, handle_session_message, on_timeout,
}

-- The process and the session that the loop has made in advance.
pub record Process : Type 0 where
  pub gateway : Gateway
  pub spare : Option ℕ

abbrev pub new_process : Process
new_process = record { gateway = new_gateway; spare = none }

-- A running session at an address.
abbrev pub RunsAt : ℕ → Session → Agents → Gateway → Type 0
RunsAt p s a g = (deref p g ≡ ok s) × (s.agents ≡ some a)

-- The process when the session's agents have become these.
abbrev pub with_agents : ℕ → Session → Agents → Process → Process
with_agents p s a x = record x { gateway = store p (record s { agents = some a }) x.gateway }

module _ (env : Env) (resources : ℕ → Resources) where
  pub data Step (x : Process) : Process → Type 0 where
    -- the loop makes a session in advance
    allocates :
        x.spare ≡ none
        → Step x (record {
          gateway = (allocate env (resources x.gateway.next) x.gateway).1;
          spare = some x.gateway.next;
        })
    -- the loop handles a packet
    receives :
        {p : ℕ} (packet : Text) {used : Bool} {g : Gateway} {sent : List Effect}
        → x.spare ≡ some p
        → handle_session_message env p (c_str packet) x.gateway ≡ ok (used, g, sent)
        → Step x (record { gateway = g; spare = if used then none else some p })
    -- a timer goes off
    times_out :
        (id : ℕ) {ts : Ts} {g : Gateway}
        → map_find id x.gateway.timers.tpool ≡ some ts
        → on_timeout id x.gateway ≡ ok g
        → Step x (record x { gateway = g })
    -- libnice has gathered the local candidates
    gathers :
        (p : ℕ) (s : Session) (a : Agents) (cs : List LocalCandidate)
        → RunsAt p s a x.gateway
        → Step x (with_agents p s (record a { web = candidate_gathering_done cs a.web }) x)
    -- libnice tells the state of a component
    changes :
        (p : ℕ) (s : Session) (a : Agents) (ready component state : ℕ)
        → RunsAt p s a x.gateway
        → Step x (
            with_agents p s
              (record a { web = component_state_changed ready component state a.web })
              x)
    -- a media thread of the session makes a round
    plays :
        (p : ℕ) (s : Session) (unset : ℕ) (e : MediaEvent) (m : Media) {m' : Media}
        {sent : List Effect}
        → RunsAt p s m.agents x.gateway
        → media_step env.srtp unset e m ≡ ok (m', sent)
        → Step x (with_agents p s m'.agents x)

  pub data Reach : Process → Type 0 where
    at_start : Reach new_process
    and_then : {x y : Process} → Reach x → Step x y → Reach y
