-- ===== src/SubMg/System/Answers.antt =====
-- src/submg.cpp: how a wait of `startFFmpeg` ends.
use media_gateway_v4_7_1_sde.Base.{
  ℕ, ◌+◌, ◌≤◌, ◌<◌, ne→==, ap, ◌≡◌, refl, sym, ◌∙◌, ap₂, subst, Bool, true, false, Option, some, [],
  List, pos, ◌==◌, ==_refl, Text, length, Run, ok, if◌then◌else◌, arith, nat_eq, ok-injective,
}
use media_gateway_v4_7_1_sde.SubMg.{
  SubMg, Caller, returned, waiting, reading, Control, scanning, holding, storing, porting, state_of,
  set_state, addr_of, set_addr, poll, read_port, answer, store_address, store_port, get_elem?,
}
use media_gateway_v4_7_1_sde.SubMg.Servers.{IsDistinct, get_elem?-some, state_of-set_state}
use media_gateway_v4_7_1_sde.SubMg.Calls.{CallerAgrees, ControlAgrees, addr_of-set_addr}
use media_gateway_v4_7_1_sde.SubMg.System.{
  System, Step, requests, chooses, marks, polls, reads, selects, scans, answers, stores, ports,
  accepts, Reach,
}
use media_gateway_v4_7_1_sde.SubMg.System.Invariant.{Reach-Agrees}

waiting_known : {s : System} {idx : ℕ} → Reach s → s.caller ≡ waiting idx → 1 ≤ state_of idx s.mg
unfolding CallerAgrees
waiting_known {s} {idx} r e =
    subst (λ (d : Caller). CallerAgrees d s.mg) e (Reach-Agrees r).caller_agrees

holding_listed :
    {s : System} {ready : List ℕ} {i id port : ℕ}
    → Reach s
    → s.control ≡ holding ready i id port
    → i < length s.mg.ava_sub_mg
unfolding ControlAgrees
holding_listed {s} r e =
    subst (λ (d : Control). ControlAgrees d s.mg) e (Reach-Agrees r).control_agrees

storing_listed :
    {s : System} {ready : List ℕ} {i id port : ℕ}
    → Reach s
    → s.control ≡ storing ready i id port
    → i < length s.mg.ava_sub_mg
unfolding ControlAgrees
storing_listed {s} r e =
    (subst (λ (d : Control). ControlAgrees d s.mg) e (Reach-Agrees r).control_agrees).0

returns_if {ℓ} :
    {A : Type ℓ} (b : Bool) {m n : Run A}
    → (b ≡ true → (a : A) × (m ≡ ok a))
    → (b ≡ false → (a : A) × (n ≡ ok a))
    → (a : A) × ((if b then m else n) ≡ ok a)
returns_if true h k = h refl
returns_if false h k = k refl

poll_returns :
    (idx : ℕ) (s : SubMg)
    → 1 ≤ state_of idx s
    → state_of idx s ≤ 2
    → (c : Caller) × (poll idx s ≡ ok c)
unfolding poll
poll_returns idx s low high =
    returns_if (state_of idx s == 1) (λ _. (_, refl))
      (λ more. returns_if (state_of idx s == 2) (λ _. (_, refl)) (λ no. absurd (ground arith)))

store_address-server :
    (ready : List ℕ) (i id port : ℕ) (ip : Text) (fd : ℕ) (s : SubMg)
    → get_elem? s.ava_sub_mg i ≡ some (ip, fd)
    → store_address ready i id port s
      ≡ ok (porting ready i id port, set_addr id (ip, (addr_of id s).1) s)
unfolding store_address
store_address-server ready i id port ip fd s found = rw (store_address, found) refl

store_returns :
    (ready : List ℕ) (i id port : ℕ) (s : SubMg)
    → i < length s.ava_sub_mg
    → (r : Control × SubMg) × (store_address ready i id port s ≡ ok r)
store_returns ready i id port s below =
    let (server, found) = get_elem?-some s.ava_sub_mg i below in
    (
      (porting ready i id port, set_addr id (server.0, (addr_of id s).1) s),
      store_address-server ready i id port server.0 server.1 s found,
    )

-- Whatever servers connect, close or answer, and in whatever order the two threads make their
-- steps: the `assert` behind the loop of `startFFmpeg` never fails, the control thread never reads
-- past the list of servers when it stores the address of an answer, and no two servers of the list
-- have the same address.
pub Reach-safe :
    {s : System}
    → Reach s
    → ((idx : ℕ) → s.caller ≡ waiting idx → (c : Caller) × (poll idx s.mg ≡ ok c))
      × ((ready : List ℕ) (i id port : ℕ)
          → s.control ≡ storing ready i id port
          → (r : Control × SubMg) × (store_address ready i id port s.mg ≡ ok r))
      × IsDistinct s.mg.ava_sub_mg
Reach-safe {s} r = (
  (λ idx e. poll_returns idx s.mg (waiting_known r e) ((Reach-Agrees r).sound.bounded idx)),
  (λ ready i id port e. store_returns ready i id port s.mg (storing_listed r e)),
  (Reach-Agrees r).sound.distinct,
)

-- The members behind the three writes of an answer.
abbrev pub marked_two : ℕ → SubMg → SubMg
marked_two idx s = set_state idx 2 s

abbrev pub addressed : ℕ → Text → SubMg → SubMg
addressed idx ip s = set_addr idx (ip, (addr_of idx s).1) s

abbrev pub ported : ℕ → ℕ → SubMg → SubMg
ported idx port s = set_addr idx ((addr_of idx s).0, port) s

two-set_addr :
    (idx : ℕ) (a : Text × ℕ) (s : SubMg) → state_of idx s ≡ 2 → state_of idx (set_addr idx a s) ≡ 2
unfolding state_of set_addr
two-set_addr idx a s h = h

addr-set_state : (idx v : ℕ) (s : SubMg) → addr_of idx (set_state idx v s) ≡ addr_of idx s
unfolding addr_of set_state
addr-set_state idx v s = refl

same_servers :
    {x : Option (Text × ℕ)} (idx v i : ℕ) (s : SubMg)
    → get_elem? s.ava_sub_mg i ≡ x
    → get_elem? (set_state idx v s).ava_sub_mg i ≡ x
unfolding set_state
same_servers idx v i s e = e

addr_now : (idx : ℕ) (a : Text × ℕ) (s : SubMg) → addr_of idx (set_addr idx a s) ≡ a
addr_now idx a s = addr_of-set_addr idx a idx s ∙ rw (==_refl idx) refl

poll_two :
    (idx : ℕ) (s : SubMg) → state_of idx s ≡ 2 → poll idx s ≡ ok (reading idx (addr_of idx s).0)
unfolding poll
poll_two idx s two = rw two refl

-- The three writes, and what `startFFmpeg` reads behind them.
pub three_writes :
    (idx port : ℕ) (ready : List ℕ) (i : ℕ) (ip : Text) (fd : ℕ) (s : SubMg)
    → 1 ≤ state_of idx s
    → get_elem? s.ava_sub_mg i ≡ some (ip, fd)
    → (answer ready i idx port s ≡ ok (storing ready i idx port, marked_two idx s))
      × (store_address ready i idx port (marked_two idx s)
          ≡ ok (porting ready i idx port, addressed idx ip (marked_two idx s)))
      × (store_port ready i idx port (addressed idx ip (marked_two idx s))
          ≡ (scanning ready (i + 1), ported idx port (addressed idx ip (marked_two idx s))))
      × (poll idx (ported idx port (addressed idx ip (marked_two idx s))) ≡ ok (reading idx ip))
      × (read_port idx ip (ported idx port (addressed idx ip (marked_two idx s)))
          ≡ returned (pos idx) (some (ip, port)))
unfolding answer store_port read_port
three_writes idx port ready i ip fd s known found =
    let s1 = marked_two idx s in
    let s2 = addressed idx ip s1 in
    let s3 = ported idx port s2 in
    let two : state_of idx s1 ≡ 2 = state_of-set_state idx 2 idx s ∙ rw (==_refl idx) refl in
    let two3 : state_of idx s3 ≡ 2 =
      two-set_addr idx ((addr_of idx s2).0, port) s2
        (two-set_addr idx (ip, (addr_of idx s1).1) s1 two) in
    let now : addr_of idx s3 ≡ (ip, port) =
      addr_now idx ((addr_of idx s2).0, port) s2
      ∙ ap (λ (a : Text × ℕ). (a.0, port)) (addr_now idx (ip, (addr_of idx s1).1) s1) in
    (
      rw (ne→== (state_of idx s) 0 (omega arith)) refl,
      store_address-server ready i idx port ip fd s1 (same_servers idx 2 i s found),
      refl,
      poll_two idx s3 two3 ∙ ap (λ (a : Text × ℕ). ok (reading idx a.0)) now,
      ap (λ (a : Text × ℕ). returned (pos idx) (some (ip, a.1))) now,
    )

-- When a server's answer to the id that `startFFmpeg` waits for has been received, the control
-- thread's next three steps set the state of the id, store the server's address, and store the port
-- of the answer. If `startFFmpeg` looks behind the third, it returns the id, with this address and
-- port; if it looks and reads behind the first already, it returns the id with an empty address and
-- the port 0.
pub answer_ends_wait :
    {s : System} {ready : List ℕ} {i idx port : ℕ}
    → Reach s
    → s.caller ≡ waiting idx
    → s.control ≡ holding ready i idx port
    → state_of idx s.mg ≡ 1
    → (ip : Text) × (fd : ℕ) × (mg1 : SubMg) × (mg2 : SubMg) × (mg3 : SubMg) × (get_elem?
          s.mg.ava_sub_mg i
        ≡ some (ip, fd))
      × (answer ready i idx port s.mg ≡ ok (storing ready i idx port, mg1))
      × (store_address ready i idx port mg1 ≡ ok (porting ready i idx port, mg2))
      × (store_port ready i idx port mg2 ≡ (scanning ready (i + 1), mg3))
      × (poll idx mg3 ≡ ok (reading idx ip))
      × (read_port idx ip mg3 ≡ returned (pos idx) (some (ip, port)))
      × (poll idx mg1 ≡ ok (reading idx []))
      × (read_port idx [] mg1 ≡ returned (pos idx) (some ([], 0)))
unfolding read_port
answer_ends_wait {s} {ready} {i} {idx} {port} r e f one =
    let ((ip, fd), found) = get_elem?-some s.mg.ava_sub_mg i (holding_listed r f) in
    let (first, second, third, look, read) =
      three_writes idx port ready i ip fd s.mg (waiting_known r e) found in
    let mg1 = marked_two idx s.mg in
    let two : state_of idx mg1 ≡ 2 = state_of-set_state idx 2 idx s.mg ∙ rw (==_refl idx) refl in
    let old : addr_of idx mg1 ≡ ([], 0) =
      addr-set_state idx 2 s.mg ∙ (Reach-Agrees r).sound.unanswered idx (omega (arith, one)) in
    (
      ip,
      fd,
      mg1,
      _,
      _,
      found,
      first,
      second,
      third,
      look,
      read,
      poll_two idx mg1 two ∙ ap (λ (a : Text × ℕ). ok (reading idx a.0)) old,
      ap (λ (a : Text × ℕ). returned (pos idx) (some ([], a.1))) old,
    )

waiting_injective : {j k : ℕ} → waiting j ≡ waiting k → j ≡ k
waiting_injective e = cc

holding_injective : {r t : List ℕ} {i j m n p q : ℕ} → holding r i m p ≡ holding t j n q → m ≡ n
holding_injective e = cc

poll_one : (k : ℕ) (s : SubMg) → state_of k s ≡ 1 → poll k s ≡ ok (waiting k)
unfolding poll
poll_one k s one = rw one

answer_zero :
    (r : List ℕ) (j k q : ℕ) (s : SubMg)
    → state_of k s ≡ 0
    → answer r j k q s ≡ ok (holding r j k q, s)
unfolding answer
answer_zero r j k q s unmarked = rw unmarked

polls_waiting :
    (s : SubMg) (caller c : Caller) (idx k : ℕ)
    → caller ≡ waiting idx
    → caller ≡ waiting k
    → state_of idx s ≡ 1
    → poll k s ≡ ok c
    → c ≡ caller
unfolding poll
polls_waiting s caller c idx k w e one f =
    let same : idx ≡ k = waiting_injective (sym w ∙ e) in
    ok-injective (sym f ∙ poll_one k s (subst (λ (j : ℕ). state_of j s ≡ 1) same one)) ∙ sym e

answers_holding :
    (s mg' : SubMg) (control c : Control) (ready : List ℕ) (i id port : ℕ) (r : List ℕ) (j k q : ℕ)
    → control ≡ holding ready i id port
    → control ≡ holding r j k q
    → state_of id s ≡ 0
    → answer r j k q s ≡ ok (c, mg')
    → (c ≡ control) × (mg' ≡ s)
unfolding answer
answers_holding s mg' control c ready i id port r j k q h e unmarked f =
    let same : id ≡ k = holding_injective (sym h ∙ e) in
    let both =
      ok-injective
        (sym f ∙ answer_zero r j k q s (subst (λ (n : ℕ). state_of n s ≡ 0) same unmarked)) in
    (ap (λ (p : Control × SubMg). p.0) both ∙ sym e, ap (λ (p : Control × SubMg). p.1) both)

-- An answer to an id that was never marked stops both threads for ever, if `startFFmpeg` is waiting
-- for another id and has no answer yet: no step changes anything.
pub unknown_id_hangs :
    {s t : System} {ready : List ℕ} {i id port idx : ℕ}
    → s.caller ≡ waiting idx
    → s.control ≡ holding ready i id port
    → state_of idx s.mg ≡ 1
    → state_of id s.mg ≡ 0
    → Step s t
    → t ≡ s
unknown_id_hangs {s} w h one unmarked (requests port codec e f) = absurd cc
unknown_id_hangs {s} w h one unmarked (chooses random sent e f) = absurd cc
unknown_id_hangs {s} w h one unmarked (reads e) = absurd cc
unknown_id_hangs {s} w h one unmarked (stores e f) = absurd cc
unknown_id_hangs {s} w h one unmarked (ports e) = absurd cc
unknown_id_hangs {s} w h one unmarked (marks e) = absurd cc
unknown_id_hangs {s} w h one unmarked (polls e f) =
    ap (λ (d : Caller). record s { caller = d }) (polls_waiting s.mg s.caller _ _ _ w e one f)
unknown_id_hangs {s} w h one unmarked (selects ready e) = absurd cc
unknown_id_hangs {s} w h one unmarked (scans received e f) = absurd cc
unknown_id_hangs {s} w h one unmarked (answers e f) =
    let (same, kept) = answers_holding s.mg _ s.control _ _ _ _ _ _ _ _ _ h e unmarked f in
    ap₂ (λ (m : SubMg) (d : Control). record s { mg = m; control = d }) kept same
unknown_id_hangs {s} w h one unmarked (accepts client e end) = absurd cc
