-- ===== src/SubMg/System/Invariant.antt =====
-- src/submg.cpp: what every order of the steps of the two threads keeps.
use media_gateway_v4_7_1_sde.Base.{
  ℕ, ◌<◌, ◌≡◌, refl, sym, subst, List, length, Text, arith, map_find, nat_eq,
}
use media_gateway_v4_7_1_sde.SubMg.{
  SubMg, Caller, waiting, Control, selecting, scanning, holding, storing, porting, state_of,
  set_state, addr_of, read_port, store_port, accept_client,
}
use media_gateway_v4_7_1_sde.SubMg.Servers.{IsDistinct, state_of-set_state}
use media_gateway_v4_7_1_sde.SubMg.System.{
  System, new_system, Step, requests, chooses, marks, polls, reads, selects, scans, answers, stores,
  ports, accepts, Reach, at_start, and_then,
}
use media_gateway_v4_7_1_sde.SubMg.Calls.{
  IsSound, CallerAgrees, ControlAgrees, SameServers, Continues, request-Ensures, choose-Ensures,
  store_address-Ensures, store_port-Continues, poll-Ensures, scan-Ensures, answer-Ensures,
  accept_client-Continues, same_states,
}

pub record Agrees (s : System) : Type 0 where
  pub sound : IsSound s.mg
  pub caller_agrees : CallerAgrees s.caller s.mg
  pub control_agrees : ControlAgrees s.control s.mg

-- A step of the control thread.
continue-Agrees :
    (s : System) (r : Control × SubMg)
    → Agrees s
    → Continues s.mg r
    → Agrees (record s { mg = r.1; control = r.0 })
continue-Agrees s r h k = record {
  sound = k.0;
  caller_agrees = k.2 s.caller h.caller_agrees;
  control_agrees = k.1;
}

-- The caller's steps do not touch the list, and mark no id that was marked.
pub same_list :
    (s t : SubMg)
    → s.ava_sub_mg ≡ t.ava_sub_mg
    → ((id : ℕ) → state_of id s ≡ 2 → state_of id t ≡ 2)
    → (c : Control) → ControlAgrees c s
    → ControlAgrees c t
unfolding ControlAgrees
same_list s t e f selecting h = tt
same_list s t e f (scanning ready i) h = tt
same_list s t e f (holding ready i id port) h = subst (λ (l : List (Text × ℕ)). i < length l) e h
same_list s t e f (storing ready i id port) h =
    (subst (λ (l : List (Text × ℕ)). i < length l) e h.0, f id h.1)
same_list s t e f (porting ready i id port) h = f id h

-- A step of the caller that asks for an id.
requested-Agrees :
    (s : System) (t : SubMg) (c : Caller)
    → Agrees s
    → SameServers s.mg t
    → CallerAgrees c s.mg
    → Agrees (record s { mg = t; caller = c })
unfolding state_of addr_of
requested-Agrees s t c h (n, below, e) k =
    subst (λ (mg : SubMg). Agrees (record s { mg = mg; caller = c })) (sym e)
      (record {
        sound = record {
          bounded = h.sound.bounded;
          unanswered = h.sound.unanswered;
          distinct = h.sound.distinct;
          counted = below;
        };
        caller_agrees = same_states s.mg _ refl c k;
        control_agrees = same_list s.mg _ refl (λ id k. k) s.control h.control_agrees;
      })

-- The step of the caller that marks its id.
marked-Agrees :
    (s : System) (idx : ℕ)
    → Agrees s
    → state_of idx s.mg ≡ 0
    → Agrees (record s { mg = set_state idx 1 s.mg; caller = waiting idx })
unfolding CallerAgrees set_state addr_of
marked-Agrees s idx h free = record {
  sound = record {
    bounded = λ j. ground (arith, state_of-set_state idx 1 j s.mg, h.sound.bounded j);
    unanswered = λ j e. h.sound.unanswered j (ground (arith, state_of-set_state idx 1 j s.mg));
    distinct = h.sound.distinct;
    counted = h.sound.counted;
  };
  caller_agrees = ground (arith, state_of-set_state idx 1 idx s.mg);
  control_agrees =
      same_list s.mg _ refl (λ j k. ground (arith, state_of-set_state idx 1 j s.mg)) s.control
        h.control_agrees;
}

step-Agrees : {s t : System} → Step s t → Agrees s → Agrees t
unfolding CallerAgrees ControlAgrees read_port
step-Agrees {s} (requests port codec e f) h =
    let (same, c) = (request-Ensures port codec s.mg h.sound.counted).result f in
    requested-Agrees s _ _ h same c
step-Agrees {s} (chooses {port} {codec} {idx} random sent e f) h = record {
  sound = h.sound;
  caller_agrees =
      (choose-Ensures port codec idx random sent s.mg
          (subst (λ (d : Caller). CallerAgrees d s.mg) e h.caller_agrees)).result
        f;
  control_agrees = h.control_agrees;
}
step-Agrees {s} (reads e) h = record {
  sound = h.sound;
  caller_agrees = tt;
  control_agrees = h.control_agrees;
}
step-Agrees {s} (stores {ready} {i} {id} {port} {c} {mg'} e f) h =
    continue-Agrees s (c, mg') h
      ((store_address-Ensures ready i id port s.mg h.sound
          (subst (λ (d : Control). ControlAgrees d s.mg) e h.control_agrees).1).result
        f)
step-Agrees {s} (ports {ready} {i} {id} {port} e) h =
    continue-Agrees s (store_port ready i id port s.mg) h (
      store_port-Continues ready i id port s.mg h.sound
        (subst (λ (d : Control). ControlAgrees d s.mg) e h.control_agrees))
step-Agrees {s} (marks {idx} e) h =
    marked-Agrees s idx h (subst (λ (d : Caller). CallerAgrees d s.mg) e h.caller_agrees)
step-Agrees {s} (polls {idx} {c} e f) h = record {
  sound = h.sound;
  caller_agrees =
      (poll-Ensures idx s.mg (subst (λ (d : Caller). CallerAgrees d s.mg) e h.caller_agrees)).result
        f;
  control_agrees = h.control_agrees;
}
step-Agrees {s} (selects ready e) h = record {
  sound = h.sound;
  caller_agrees = h.caller_agrees;
  control_agrees = tt;
}
step-Agrees {s} (scans {ready} {i} received {c} {mg'} e f) h =
    continue-Agrees s (c, mg') h ((scan-Ensures ready i received s.mg h.sound).result f)
step-Agrees {s} (answers {ready} {i} {id} {port} {c} {mg'} e f) h =
    continue-Agrees s (c, mg') h
      ((answer-Ensures ready i id port s.mg h.sound
          (subst (λ (d : Control). ControlAgrees d s.mg) e h.control_agrees)).result
        f)
step-Agrees {s} (accepts client e end) h =
    continue-Agrees s (selecting, accept_client client s.mg) h
      (accept_client-Continues client s.mg h.sound)

start-Agrees : Agrees new_system
unfolding CallerAgrees ControlAgrees state_of addr_of IsDistinct map_find
start-Agrees = record {
  sound = record {
    bounded = λ id. omega arith;
    unanswered = λ id e. refl;
    distinct = tt;
    counted = omega arith;
  };
  caller_agrees = tt;
  control_agrees = tt;
}

pub Reach-Agrees : {s : System} → Reach s → Agrees s
Reach-Agrees at_start = start-Agrees
Reach-Agrees (and_then r step) = step-Agrees step (Reach-Agrees r)
