-- ===== src/SubMg/System/Handshake.antt =====
-- src/submg.cpp, `startFFmpeg` and `run`: a server's answer against `curstate[idx] = 1`, which
-- stands behind `send`; and src/codecconverter.cpp, `run`, which takes the address.
use media_gateway_v4_7_1_sde.Base.{
  ℕ, pos, arith, ◌≤◌, ◌+◌, ◌^◌, ◌<◌, ◌≡◌, refl, ◌∙◌, subst, true, Option, none, some, List, ◌++◌,
  ==_refl, Bool-cases, inl, inr, eq→==, ◌∷◌, Text, ok, nat_eq,
}
use media_gateway_v4_7_1_sde.SubMg.{
  SubMg, CtrlMsg, ctrl_msg_bytes, read_ctrl_msg, ok_for_start, Caller, returned, choosing, marking,
  waiting, reading, scanning, holding, storing, porting, state_of, set_state, scan, answer,
  get_elem?, is_set, receive_at, read_port, store_port,
}
use media_gateway_v4_7_1_sde.SubMg.System.Answers.{three_writes, marked_two, addressed, ported}
use media_gateway_v4_7_1_sde.SubMg.Messages.{read_ctrl_msg-ctrl_msg_bytes}
use media_gateway_v4_7_1_sde.SubMg.Servers.{state_of-set_state}
use media_gateway_v4_7_1_sde.SubMg.Calls.{CallerAgrees}
use media_gateway_v4_7_1_sde.SubMg.System.{
  System, Step, marks, polls, reads, scans, answers, stores, ports, Reach,
}
use media_gateway_v4_7_1_sde.SubMg.System.Invariant.{Reach-Agrees}
use media_gateway_v4_7_1_sde.Agents.{SipCodec, set_destination, run_helper}
use media_gateway_v4_7_1_sde.Agents.Codec.{CodecConverter, run}

-- The answer of a server to an id.
abbrev pub answer_to : ℕ → ℕ → ℕ → CtrlMsg
answer_to codec port idx = record { msg_type = ok_for_start; codec = codec; port = port; id = idx }

-- The states that the two threads pass through: the id is marked, the answer is held.
abbrev pub marked : ℕ → System → System
marked idx s = record s { mg = set_state idx 1 s.mg; caller = waiting idx }

abbrev pub held : List ℕ → ℕ → ℕ → ℕ → System → System
held ready i idx port s = record s { control = holding ready i idx port }

abbrev pub stated : List ℕ → ℕ → ℕ → ℕ → System → System
stated ready i idx port s = record s {
  mg = marked_two idx s.mg;
  control = storing ready i idx port;
}

abbrev pub stored : List ℕ → ℕ → ℕ → ℕ → Text → System → System
stored ready i idx port ip s = record s {
  mg = addressed idx ip s.mg;
  control = porting ready i idx port;
}

abbrev pub recorded : List ℕ → ℕ → ℕ → ℕ → System → System
recorded ready i idx port s = record s {
  mg = ported idx port s.mg;
  control = scanning ready (i + 1);
}

abbrev pub with_caller : Caller → System → System
with_caller c s = record s { caller = c }

-- What `startFFmpeg` has stored when it is back.
abbrev pub result_of : Caller → Option (Text × ℕ)
result_of (returned value r) = r
result_of (choosing port codec idx) = none
result_of (marking idx) = none
result_of (waiting idx) = none
result_of (reading idx ip) = none

-- A converter that is run with what `startFFmpeg` returned sends to the server.
sends_there :
    (sip : SipCodec) (unset port : ℕ) (ip : Text) (c : CodecConverter)
    → sip.h264 ≡ true
    → (run sip (λ p codec. some (ip, port)) unset c).0.helper
      ≡ run_helper (set_destination ip port c.helper)
unfolding run
sends_there sip unset port ip c on = elim (Bool-cases c.ims_to_web) [
  | inl out ↦ rw (out, on) refl
  | inr back ↦ rw (back, on) refl
]

-- The second read of the address.
reads_as :
    (s : System) {idx : ℕ} {ip : Text} {c : Caller}
    → read_port idx ip s.mg ≡ c
    → Step (with_caller (reading idx ip) s) (with_caller c s)
reads_as s {idx} {ip} e =
    subst (λ (d : Caller). Step (with_caller (reading idx ip) s) (with_caller d s)) e (reads refl)

received :
    (s : SubMg) (ready : List ℕ) (i c : ℕ) (cs : List ℕ) (m : CtrlMsg)
    → read_ctrl_msg (c ∷ cs) ≡ m
    → m.msg_type ≡ ok_for_start
    → receive_at ready i (c ∷ cs) s ≡ ok (holding ready i m.id m.port, s)
unfolding receive_at
received s ready i c cs m e t =
    subst
      (λ (x : CtrlMsg).
        x.msg_type ≡ ok_for_start
        → receive_at ready i (c ∷ cs) s ≡ ok (holding ready i x.id x.port, s))
      e (λ k. rw (eq→== (read_ctrl_msg (c ∷ cs)).msg_type ok_for_start k) refl) t

received_answer :
    (s : SubMg) (ready : List ℕ) (i idx codec port : ℕ) (rest : List ℕ)
    → port < 2 ^ 16
    → idx < 2 ^ 32
    → receive_at ready i (ctrl_msg_bytes (answer_to codec port idx) ++ rest) s
      ≡ ok (holding ready i idx port, s)
unfolding ctrl_msg_bytes
received_answer s ready i idx codec port rest p n =
    received s ready i ok_for_start _ (answer_to codec port idx)
      (read_ctrl_msg-ctrl_msg_bytes (answer_to codec port idx) rest p n).0 refl

scan_held :
    (s : SubMg) (ready : List ℕ) (i idx codec port : ℕ) (ip : Text) (fd : ℕ) (rest : List ℕ)
    → get_elem? s.ava_sub_mg i ≡ some (ip, fd)
    → is_set fd ready ≡ true
    → port < 2 ^ 16
    → idx < 2 ^ 32
    → scan ready i (ctrl_msg_bytes (answer_to codec port idx) ++ rest) s
      ≡ ok (holding ready i idx port, s)
unfolding scan
scan_held s ready i idx codec port ip fd rest found set p n =
    rw (scan, found, set, received_answer s ready i idx codec port rest p n) refl

-- `startFFmpeg` has sent its request and not yet marked the id, and the control thread has come to
-- a server whose answer to this id is there.
module _ {s : System} {ready : List ℕ} {i idx fd : ℕ} {ip : Text} (codec port : ℕ) (rest : List ℕ)
    (reached : Reach s) (asking : s.caller ≡ marking idx) (looking : s.control ≡ scanning ready i)
    (found : get_elem? s.mg.ava_sub_mg i ≡ some (ip, fd)) (set : is_set fd ready ≡ true)
    (small : port < 2 ^ 16) (id_fits : idx < 2 ^ 32) where
  unmarked : state_of idx s.mg ≡ 0
  unfolding CallerAgrees
  unmarked = subst (λ (c : Caller). CallerAgrees c s.mg) asking (Reach-Agrees reached).caller_agrees

  one : state_of idx (set_state idx 1 s.mg) ≡ 1
  one = state_of-set_state idx 1 idx s.mg ∙ rw (==_refl idx) refl

  held_waits : answer ready i idx port s.mg ≡ ok (holding ready i idx port, s.mg)
  unfolding answer
  held_waits = rw (unmarked) refl

  known : 1 ≤ state_of idx (set_state idx 1 s.mg)
  known = omega (arith, one)

  still_there : get_elem? (set_state idx 1 s.mg).ava_sub_mg i ≡ some (ip, fd)
  unfolding set_state
  still_there = found

  marks_first : Step s (marked idx s)
  marks_first = marks asking

  holds_first : Step s (held ready i idx port s)
  holds_first =
      scans (ctrl_msg_bytes (answer_to codec port idx) ++ rest) looking
        (scan_held s.mg ready i idx codec port ip fd rest found set small id_fits)

  then_holds : Step (marked idx s) (held ready i idx port (marked idx s))
  unfolding set_state
  then_holds =
      scans (ctrl_msg_bytes (answer_to codec port idx) ++ rest) looking
        (scan_held (set_state idx 1 s.mg) ready i idx codec port ip fd rest found set small id_fits)

  then_marks : Step (held ready i idx port s) (held ready i idx port (marked idx s))
  then_marks = marks asking

  -- The server's answer to the id may be received before `startFFmpeg` marks the id, or after it:
  -- both orders come to one state. With the answer to an id that is not marked yet the control
  -- thread waits. Then it sets the state, the address and the port of the id. If `startFFmpeg` looks
  -- only behind these three writes, it returns with the id, the server's address and the port of the
  -- answer. A converter that is run with what it returned, with H264 on, sends to this address and
  -- port, and its thread runs.
  pub handshake :
      (sip : SipCodec) (unset : ℕ) (c : CodecConverter)
      → sip.h264 ≡ true
      → let both = held ready i idx port (marked idx s) in
        let one_write = stated ready i idx port both in
        let two_writes = stored ready i idx port ip one_write in
        let three = recorded ready i idx port two_writes in
        let back : Caller = returned (pos idx) (some (ip, port)) in
        Step s (marked idx s)
        × Step (marked idx s) both
        × Step s (held ready i idx port s)
        × Step (held ready i idx port s) both
        × (answer ready i idx port s.mg ≡ ok (holding ready i idx port, s.mg))
        × Step both one_write
        × Step one_write two_writes
        × Step two_writes three
        × Step three (with_caller (reading idx ip) three)
        × Step (with_caller (reading idx ip) three) (with_caller back three)
        × ((run sip (λ p codec. result_of back) unset c).0.helper
            ≡ run_helper (set_destination ip port c.helper))
  unfolding store_port
  handshake sip unset c on =
      let (first, second, third, look, read) =
        three_writes idx port ready i ip fd (set_state idx 1 s.mg) known still_there in
      (
        marks_first,
        then_holds,
        holds_first,
        then_marks,
        held_waits,
        answers refl first,
        stores refl second,
        ports refl,
        polls refl look,
        reads_as
            (recorded ready i idx port (
              stored ready i idx port ip
                (stated ready i idx port (held ready i idx port (marked idx s)))))
            read,
        sends_there sip unset port ip c on,
      )
