-- ===== src/SubMg/System.antt =====
-- src/submg.cpp: the two threads that share the members of `SubMG`, as steps that may come in any
-- order. Where each thread is cut is said at `Caller` and `Control`.
pub mod Invariant
pub mod Answers
pub mod Handshake
use media_gateway_v4_7_1_sde.Base.{
  length, ◌≤◌, ℕ, ◌≡◌, Bool, Option, some, List, [], Text, Run, ok, ℤ, pos,
}
use media_gateway_v4_7_1_sde.SubMg.{
  SubMg, new_sub_mg, Caller, returned, choosing, marking, waiting, reading, Control, selecting,
  scanning, holding, storing, porting, request, choose, set_state, poll, read_port, scan, answer,
  store_address, store_port, accept_client,
}

pub record System : Type 0 where
  pub mg : SubMg
  pub caller : Caller
  pub control : Control

-- The start: no server, no id, the control thread in `select`.
abbrev pub new_system : System
new_system = record { mg = new_sub_mg; caller = returned (pos 0) Option.none; control = selecting }

-- The steps of the two threads.
pub data Step (s : System) : System → Type 0 where
  -- `startFFmpeg` up to the test of the list's size
  requests :
      {value : ℤ} {old : Option (Text × ℕ)} (port codec : ℕ) {mg' : SubMg} {c : Caller}
      → s.caller ≡ returned value old
      → request port codec s.mg ≡ ok (mg', c)
      → Step s (record s { mg = mg'; caller = c })
  -- a server of the list, and `send`
  chooses :
      {port codec idx : ℕ} (random : ℕ) (sent : Bool) {c : Caller} {out : Option (ℕ × List ℕ)}
      → s.caller ≡ choosing port codec idx
      → choose port codec idx random sent s.mg ≡ ok (c, out)
      → Step s (record s { caller = c })
  -- `curstate[idx] = 1`
  marks :
      {idx : ℕ}
      → s.caller ≡ marking idx
      → Step s (record s { mg = set_state idx 1 s.mg; caller = waiting idx })
  -- a look at `curstate[idx]`
  polls :
      {idx : ℕ} {c : Caller}
      → s.caller ≡ waiting idx
      → poll idx s.mg ≡ ok c
      → Step s (record s { caller = c })
  -- the second read of `addr[idx]`
  reads :
      {idx : ℕ} {ip : Text}
      → s.caller ≡ reading idx ip
      → Step s (record s { caller = read_port idx ip s.mg })
  -- `select` returns with the sockets that are ready
  selects :
      (ready : List ℕ) → s.control ≡ selecting → Step s (record s { control = scanning ready 0 })
  -- a round of the loop over the servers, with what `recv` gives
  scans :
      {ready : List ℕ} {i : ℕ} (received : List ℕ) {c : Control} {mg' : SubMg}
      → s.control ≡ scanning ready i
      → scan ready i received s.mg ≡ ok (c, mg')
      → Step s (record s { mg = mg'; control = c })
  -- a look of the inner loop at the state of the id, and `curstate[msg.ID] = 2`
  answers :
      {ready : List ℕ} {i id port : ℕ} {c : Control} {mg' : SubMg}
      → s.control ≡ holding ready i id port
      → answer ready i id port s.mg ≡ ok (c, mg')
      → Step s (record s { mg = mg'; control = c })
  -- `addr[msg.ID].first`
  stores :
      {ready : List ℕ} {i id port : ℕ} {c : Control} {mg' : SubMg}
      → s.control ≡ storing ready i id port
      → store_address ready i id port s.mg ≡ ok (c, mg')
      → Step s (record s { mg = mg'; control = c })
  -- `addr[msg.ID].second`
  ports :
      {ready : List ℕ} {i id port : ℕ}
      → s.control ≡ porting ready i id port
      → Step s (record s {
        mg = (store_port ready i id port s.mg).1;
        control = (store_port ready i id port s.mg).0;
      })
  -- behind the loop: a client is accepted, or none
  accepts :
      {ready : List ℕ} {i : ℕ} (client : Option (Text × ℕ))
      → s.control ≡ scanning ready i
      → length s.mg.ava_sub_mg ≤ i
      → Step s (record s { mg = accept_client client s.mg; control = selecting })

-- The states that the threads can reach.
pub data Reach : System → Type 0 where
  at_start : Reach new_system
  and_then : {s t : System} → Reach s → Step s t → Reach t
