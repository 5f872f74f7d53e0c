-- ===== src/Tests/Servers.antt =====
-- src/submg.cpp at concrete inputs.
use media_gateway_v4_7_1_sde.Base.{
  ℕ, pos, negsuc, ◌≡◌, refl, arith, true, none, some, List, [], ◌∷◌, Text, codes, ok, of_be32,
  map_find, map_assign, nat_eq,
}
use media_gateway_v4_7_1_sde.SubMg.{
  SubMg, new_sub_mg, CtrlMsg, ctrl_msg_bytes, read_ctrl_msg, Caller, returned, choosing, marking,
  waiting, reading, storing, porting, choose, read_port, store_address, store_port, Control,
  selecting, scanning, holding, state_of, set_state, get_vac_id, request, poll, scan, receive_at,
  is_set, get_elem?, vac_id_loop, answer, accept_client, has_ip, ok_for_start,
}
use media_gateway_v4_7_1_sde.SubMg.Ids.{IsFree, get_vac_id-IsFree}
use media_gateway_v4_7_1_sde.SubMg.Servers.{IsDistinct}
use media_gateway_v4_7_1_sde.SubMg.System.{
  System, Step, chooses, answers, requests, marks, polls, selects, scans, accepts, Reach, at_start,
  and_then,
}
use media_gateway_v4_7_1_sde.SubMg.Startup.{no_server}
use media_gateway_v4_7_1_sde.SubMg.System.Handshake.{
  handshake, marked, held, stated, stored, recorded, with_caller,
}
use media_gateway_v4_7_1_sde.Agents.{main_codecs, set_destination, run_helper}
use media_gateway_v4_7_1_sde.Agents.Codec.{run}
use media_gateway_v4_7_1_sde.Tests.Fixtures.{new_agents}
use media_gateway_v4_7_1_sde.SubMg.System.Answers.{Reach-safe, answer_ends_wait, unknown_id_hangs}

-- One id is in use, and it is the last one that was given.
abbrev one_id : SubMg
one_id = record new_sub_mg { curstate = (1, 2) ∷ []; id_cnt = 1 }

get_vac_id-IsFree_example :
    (found : ℕ) × (get_vac_id one_id ≡ ok (found, record one_id { id_cnt = found }))
    × IsFree found one_id.curstate
unfolding map_find
get_vac_id-IsFree_example =
    get_vac_id-IsFree one_id 7 (omega arith, omega arith, refl) (omega arith)

-- The answer of a server to the id 1.
abbrev reply : CtrlMsg
reply = record { msg_type = ok_for_start; codec = 1; port = 40000; id = 1 }

abbrev one_server : SubMg
one_server = record new_sub_mg { ava_sub_mg = (codes "server", 5) ∷ [] }

abbrev asked : SubMg
asked = record one_server { id_cnt = 1; curstate = map_assign 1 1 [] }

-- The answer of the one server was received while `startFFmpeg` waits for it.
abbrev answering : System
answering = record { mg = asked; caller = waiting 1; control = holding (5 ∷ []) 0 1 40000 }

connected : Reach (record { mg = one_server; caller = returned (pos 0) none; control = selecting })
unfolding accept_client has_ip
connected =
    and_then (and_then at_start (selects [] refl))
      (accepts (some (codes "server", 5)) refl (omega arith))

-- `startFFmpeg` has asked the one server.
abbrev chosen : SubMg
chosen = record one_server { id_cnt = 1 }

asks : Reach (record { mg = chosen; caller = marking 1; control = selecting })
unfolding request choose get_vac_id vac_id_loop get_elem? map_find ctrl_msg_bytes
asks =
    and_then (and_then connected (requests 4000 1 {mg' = chosen} {c = choosing 4000 1 1} refl refl))
      (chooses 0 true {c = marking 1} refl refl)

waits : Reach (record { mg = asked; caller = waiting 1; control = selecting })
unfolding map_find set_state
waits = and_then asks (marks refl)

answering-Reach : Reach answering
unfolding scan receive_at get_elem? is_set read_ctrl_msg ctrl_msg_bytes of_be32
answering-Reach =
    and_then (and_then waits (selects (5 ∷ []) refl))
      (scans (ctrl_msg_bytes reply) {c = holding (5 ∷ []) 0 1 40000} {mg' = asked} refl refl)

-- The state of the id was set.
abbrev storing_one : System
storing_one = record {
  mg = set_state 1 2 asked;
  caller = waiting 1;
  control = storing (5 ∷ []) 0 1 40000;
}

storing_one-Reach : Reach storing_one
unfolding answer state_of map_find set_state map_assign
storing_one-Reach =
    and_then answering-Reach
      (answers {c = storing (5 ∷ []) 0 1 40000} {mg' = set_state 1 2 asked} refl refl)

Reach-safe_example :
    ((idx : ℕ) → waiting 1 ≡ waiting idx → (c : Caller) × (poll idx storing_one.mg ≡ ok c))
    × ((ready : List ℕ) (i id port : ℕ)
        → storing (5 ∷ []) 0 1 40000 ≡ storing ready i id port
        → (r : Control × SubMg) × (store_address ready i id port storing_one.mg ≡ ok r))
    × IsDistinct storing_one.mg.ava_sub_mg
Reach-safe_example = Reach-safe storing_one-Reach

answer_ends_wait_example :
    (ip : Text) × (fd : ℕ) × (mg1 : SubMg) × (mg2 : SubMg) × (mg3 : SubMg) × (get_elem?
        asked.ava_sub_mg 0
      ≡ some (ip, fd))
    × (answer (5 ∷ []) 0 1 40000 asked ≡ ok (storing (5 ∷ []) 0 1 40000, mg1))
    × (store_address (5 ∷ []) 0 1 40000 mg1 ≡ ok (porting (5 ∷ []) 0 1 40000, mg2))
    × (store_port (5 ∷ []) 0 1 40000 mg2 ≡ (scanning (5 ∷ []) 1, mg3))
    × (poll 1 mg3 ≡ ok (reading 1 ip))
    × (read_port 1 ip mg3 ≡ returned (pos 1) (some (ip, 40000)))
    × (poll 1 mg1 ≡ ok (reading 1 []))
    × (read_port 1 [] mg1 ≡ returned (pos 1) (some ([], 0)))
unfolding state_of map_find map_assign
answer_ends_wait_example = answer_ends_wait answering-Reach refl refl refl

-- The server has answered to the id 9.
abbrev confused : System
confused = record { mg = asked; caller = waiting 1; control = holding (5 ∷ []) 0 9 40000 }

unknown_id_hangs_example : record confused { caller = waiting 1 } ≡ confused
unfolding poll state_of map_find map_assign
unknown_id_hangs_example = unknown_id_hangs {s = confused} refl refl refl refl (polls refl refl)

-- The server has answered, and the id is not marked yet.
abbrev racing : System
racing = record {
  mg = record one_server { id_cnt = 1 };
  caller = marking 1;
  control = scanning (5 ∷ []) 0;
}

racing-Reach : Reach racing
racing-Reach = and_then asks (selects (5 ∷ []) refl)

abbrev raced : System
raced = held (5 ∷ []) 0 1 40000 (marked 1 racing)

abbrev wrote_one : System
wrote_one = stated (5 ∷ []) 0 1 40000 raced

abbrev wrote_two : System
wrote_two = stored (5 ∷ []) 0 1 40000 (codes "server") wrote_one

abbrev wrote_all : System
wrote_all = recorded (5 ∷ []) 0 1 40000 wrote_two

handshake_example :
    Step racing (marked 1 racing)
    × Step (marked 1 racing) raced
    × Step racing (held (5 ∷ []) 0 1 40000 racing)
    × Step (held (5 ∷ []) 0 1 40000 racing) raced
    × (answer (5 ∷ []) 0 1 40000 racing.mg ≡ ok (holding (5 ∷ []) 0 1 40000, racing.mg))
    × Step raced wrote_one
    × Step wrote_one wrote_two
    × Step wrote_two wrote_all
    × Step wrote_all (with_caller (reading 1 (codes "server")) wrote_all)
    × Step
        (with_caller (reading 1 (codes "server")) wrote_all)
        (with_caller (returned (pos 1) (some (codes "server", 40000))) wrote_all)
    × ((run main_codecs (λ p codec. some (codes "server", 40000)) 0 new_agents.web_to_ims).0.helper
        ≡ run_helper (set_destination (codes "server") 40000 new_agents.web_to_ims.helper))
unfolding get_elem? is_set
handshake_example =
    handshake 1 40000 [] racing-Reach refl refl refl refl (omega arith) (omega arith) main_codecs 0
      new_agents.web_to_ims refl

no_server_example :
    (n : ℕ) × (request 4000 1 new_sub_mg
      ≡ ok (record new_sub_mg { id_cnt = n }, returned (negsuc 0) none))
    × ((run main_codecs (λ p k. none) 17 new_agents.ims_to_web).0.helper
        ≡ run_helper (set_destination [] 17 new_agents.ims_to_web.helper))
unfolding map_find
no_server_example =
    no_server 4000 1 new_sub_mg 7 main_codecs 17 new_agents.ims_to_web refl
      (omega arith, omega arith, refl) (omega arith) refl
