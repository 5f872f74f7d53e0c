-- ===== src/SubMg/Calls.antt =====
-- src/submg.cpp: what each piece of the two threads keeps of the members that they share.
use media_gateway_v4_7_1_sde.Base.{
  ℕ, ◌+◌, ◌%◌, negsuc, ◌≤◌, ◌<◌, ◌≡◌, refl, ◌∙◌, subst, Bool, true, false, not, Option, none, some,
  List, [], ◌∷◌, ◌==◌, length, Text, if◌then◌else◌, arith, map_find, map_find-map_assign, nat_eq,
  Ensures, Ensures-ok, Ensures-fault, Ensures-bind, Ensures-if, ap, ok, ==→eq, ==_refl, Bool-cases,
  Option-cases, inl, inr,
}
use media_gateway_v4_7_1_sde.SubMg.{
  SubMg, Caller, returned, choosing, marking, waiting, reading, Control, selecting, scanning,
  holding, storing, porting, request, choose, state_of, set_state, addr_of, set_addr, poll, scan,
  answer, store_address, store_port, accept_client, get_elem?, erase_at, has_ip, or_zero, or_new,
  get_vac_id, receive_at, is_set, read_ctrl_msg, ok_for_start,
}
use media_gateway_v4_7_1_sde.SubMg.Ids.{get_vac_id-Ensures}
use media_gateway_v4_7_1_sde.SubMg.Servers.{
  IsDistinct, erase_at-IsDistinct, append-IsDistinct, state_of-set_state, get_elem?-length,
}

-- What holds of the shared members; an id without an answer has no address.
pub record IsSound (s : SubMg) : Type 0 where
  pub bounded : (id : ℕ) → state_of id s ≤ 2
  pub unanswered : (id : ℕ) → state_of id s ≤ 1 → addr_of id s ≡ ([], 0)
  pub distinct : IsDistinct s.ava_sub_mg
  pub counted : s.id_cnt < 0x7fffffff

-- The id that the caller is about to mark is free, one that it waits for is not, and one whose
-- address it reads was answered.
unfoldable pub CallerAgrees : Caller → SubMg → Type 0
CallerAgrees (returned value r) s = Unit
CallerAgrees (choosing port codec idx) s = state_of idx s ≡ 0
CallerAgrees (marking idx) s = state_of idx s ≡ 0
CallerAgrees (waiting idx) s = 1 ≤ state_of idx s
CallerAgrees (reading idx ip) s = state_of idx s ≡ 2

-- The server whose answer the control thread holds or stores is in the list, and an id whose
-- address it stores is marked as answered.
unfoldable pub ControlAgrees : Control → SubMg → Type 0
ControlAgrees selecting s = Unit
ControlAgrees (scanning ready i) s = Unit
ControlAgrees (holding ready i id port) s = i < length s.ava_sub_mg
ControlAgrees (storing ready i id port) s = (i < length s.ava_sub_mg) × (state_of id s ≡ 2)
ControlAgrees (porting ready i id port) s = state_of id s ≡ 2

-- Only the last id has changed.
abbrev pub SameServers : SubMg → SubMg → Type 0
SameServers s t = (n : ℕ) × (n < 0x7fffffff) × (t ≡ record s { id_cnt = n })

pub request-Ensures :
    (port codec : ℕ) (s : SubMg)
    → s.id_cnt < 0x7fffffff
    → Ensures
        (λ (r : SubMg × Caller). SameServers s r.0 × CallerAgrees r.1 s)
        (request port codec s)
unfolding request CallerAgrees state_of
request-Ensures port codec s below = Ensures-bind _ (get_vac_id s) _ (λ r e.
    let ((low, high, free), same) = (get_vac_id-Ensures s below).result e in
    listed r.0 r.1 r.1.ava_sub_mg refl free (r.0, high, same))
  where
    P : SubMg × Caller → Type 0
    P r = SameServers s r.0 × CallerAgrees r.1 s

    listed :
        (idx : ℕ) (t : SubMg) (servers : List (Text × ℕ))
        → t.ava_sub_mg ≡ servers
        → or_zero (map_find idx s.curstate) ≡ 0
        → SameServers s t
        → Ensures P (elim t.ava_sub_mg [
          | [] ↦ ok (t, returned (negsuc 0) none)
          | server ∷ rest ↦ ok (t, choosing port codec idx)
        ])
    listed idx t [] e free same = rw e (Ensures-ok P (same, tt))
    listed idx t (server ∷ rest) e free same = rw e (Ensures-ok P (same, free))

sent-CallerAgrees :
    (sent : Bool) (id : ℕ) (s : SubMg)
    → state_of id s ≡ 0
    → CallerAgrees (if sent then marking id else returned (negsuc 1) none) s
unfolding CallerAgrees
sent-CallerAgrees true id s h = h
sent-CallerAgrees false id s h = tt

pub choose-Ensures :
    (port codec idx random : ℕ) (sent : Bool) (s : SubMg)
    → state_of idx s ≡ 0
    → Ensures
        (λ (r : Caller × Option (ℕ × List ℕ)). CallerAgrees r.0 s)
        (choose port codec idx random sent s)
unfolding choose
choose-Ensures port codec idx random sent s free =
    elim (Option-cases (get_elem? s.ava_sub_mg (random % length s.ava_sub_mg))) [
      | inl none_ ↦ rw (choose, none_) (Ensures-fault _)
      | inr (server, found) ↦ rw (choose, found) (Ensures-ok _ (sent-CallerAgrees sent idx s free))
    ]

pub poll-Ensures :
    (idx : ℕ) (s : SubMg)
    → 1 ≤ state_of idx s
    → Ensures (λ (c : Caller). CallerAgrees c s) (poll idx s)
unfolding poll CallerAgrees
poll-Ensures idx s h = elim (Bool-cases (state_of idx s == 1)) [
  | inl one ↦ rw one (Ensures-ok _ {a = waiting idx} h)
  | inr no_one ↦ elim (Bool-cases (state_of idx s == 2)) [
    | inl two ↦ rw (no_one, two) (Ensures-ok _ {a = reading idx _} (==→eq _ _ two))
    | inr no_two ↦ rw (no_one, no_two) (Ensures-fault _)
  ]
]

-- What a step of the control thread keeps, whatever the caller is doing.
abbrev pub Continues : SubMg → Control × SubMg → Type 0
Continues s r =
    IsSound r.1 × ControlAgrees r.0 r.1 × ((c : Caller) → CallerAgrees c s → CallerAgrees c r.1)

pub same_states :
    (s t : SubMg) → s.curstate ≡ t.curstate → (c : Caller) → CallerAgrees c s → CallerAgrees c t
unfolding CallerAgrees state_of
same_states s t e (returned v r) h = tt
same_states s t e (choosing p c idx) h =
    subst (λ (m : List (ℕ × ℕ)). or_zero (map_find idx m) ≡ 0) e h
same_states s t e (marking idx) h = subst (λ (m : List (ℕ × ℕ)). or_zero (map_find idx m) ≡ 0) e h
same_states s t e (waiting idx) h = subst (λ (m : List (ℕ × ℕ)). 1 ≤ or_zero (map_find idx m)) e h
same_states s t e (reading idx ip) h =
    subst (λ (m : List (ℕ × ℕ)). or_zero (map_find idx m) ≡ 2) e h

receive_at-Ensures :
    (ready : List ℕ) (i : ℕ) (received : List ℕ) (s : SubMg)
    → i < length s.ava_sub_mg
    → IsSound s
    → Ensures (Continues s) (receive_at ready i received s)
unfolding receive_at ControlAgrees state_of addr_of
receive_at-Ensures ready i [] s below h =
    Ensures-ok (Continues s)
      {a = (scanning ready (i + 1), record s { ava_sub_mg = erase_at i s.ava_sub_mg })}
      (
        record {
          bounded = h.bounded;
          unanswered = h.unanswered;
          distinct = erase_at-IsDistinct i s.ava_sub_mg h.distinct;
          counted = h.counted;
        },
        tt,
        same_states s _ refl,
      )
receive_at-Ensures ready i (c ∷ cs) s below h =
    let msg = read_ctrl_msg (c ∷ cs) in
    Ensures-if (Continues s) (msg.msg_type == ok_for_start)
      (Ensures-ok (Continues s) {a = (holding ready i msg.id msg.port, s)} (h, below, λ c k. k))
      (Ensures-fault (Continues s))

pub scan-Ensures :
    (ready : List ℕ) (i : ℕ) (received : List ℕ) (s : SubMg)
    → IsSound s
    → Ensures (Continues s) (scan ready i received s)
unfolding scan ControlAgrees
scan-Ensures ready i received s h = elim (Option-cases (get_elem? s.ava_sub_mg i)) [
  | inl e ↦ rw (scan, e) (Ensures-ok (Continues s) (h, tt, λ c k. k))
  | inr (server, e) ↦
      rw (scan, e)
        (Ensures-if (Continues s) (not (is_set server.1 ready))
          (Ensures-ok (Continues s) {a = (scanning ready (i + 1), s)} (h, tt, λ c k. k))
          (receive_at-Ensures ready i received s (get_elem?-length s.ava_sub_mg i server e) h))
]

-- An answer to a known id keeps what the caller knows.
set_state-CallerAgrees :
    (id : ℕ) (s : SubMg)
    → (state_of id s == 0) ≡ false
    → (c : Caller) → CallerAgrees c s
    → CallerAgrees c (set_state id 2 s)
unfolding CallerAgrees
set_state-CallerAgrees id s nz (returned v r) h = tt
set_state-CallerAgrees id s nz (choosing p c idx) h = ground (arith, state_of-set_state id 2 idx s)
set_state-CallerAgrees id s nz (marking idx) h = ground (arith, state_of-set_state id 2 idx s)
set_state-CallerAgrees id s nz (waiting idx) h = ground (arith, state_of-set_state id 2 idx s)
set_state-CallerAgrees id s nz (reading idx ip) h = ground (arith, state_of-set_state id 2 idx s)

set_state-IsSound : (id : ℕ) (s : SubMg) → IsSound s → IsSound (set_state id 2 s)
unfolding set_state addr_of
set_state-IsSound id s h = record {
  bounded = λ j. ground (arith, state_of-set_state id 2 j s, h.bounded j);
  unanswered = λ j e. h.unanswered j (ground (arith, state_of-set_state id 2 j s));
  distinct = h.distinct;
  counted = h.counted;
}

same_length :
    (id : ℕ) (s : SubMg) (i : ℕ)
    → i < length s.ava_sub_mg
    → i < length (set_state id 2 s).ava_sub_mg
unfolding set_state
same_length id s i h = h

pub answer-Ensures :
    (ready : List ℕ) (i id port : ℕ) (s : SubMg)
    → IsSound s
    → i < length s.ava_sub_mg
    → Ensures (Continues s) (answer ready i id port s)
unfolding answer ControlAgrees
answer-Ensures ready i id port s h below = elim (Bool-cases (state_of id s == 0)) [
  | inl z ↦ rw z (Ensures-ok (Continues s) {a = (holding ready i id port, s)} (h, below, λ c k. k))
  | inr nz ↦ rw nz (
      Ensures-ok (Continues s) {a = (storing ready i id port, set_state id 2 s)} (
        set_state-IsSound id s h,
        (same_length id s i below, state_of-set_state id 2 id s ∙ rw (==_refl id) refl),
        set_state-CallerAgrees id s nz,
      ))
]

answered_twice : (id j : ℕ) (s : SubMg) → state_of id s ≡ 2 → id ≡ j → state_of j s ≤ 1 → ⊥
answered_twice id j s two same low =
    let moved = subst (λ (k : ℕ). state_of k s ≡ 2) same two in omega arith

same_state :
    (id : ℕ) (a : Text × ℕ) (j : ℕ) (s : SubMg)
    → state_of j s ≡ 2
    → state_of j (set_addr id a s) ≡ 2
unfolding state_of set_addr
same_state id a j s h = h

set_addr-CallerAgrees :
    (id : ℕ) (a : Text × ℕ) (s : SubMg) (c : Caller)
    → CallerAgrees c s
    → CallerAgrees c (set_addr id a s)
unfolding set_addr
set_addr-CallerAgrees id a s c h = same_states s _ refl c h

pub addr_of-set_addr :
    (id : ℕ) (a : Text × ℕ) (j : ℕ) (s : SubMg)
    → addr_of j (set_addr id a s) ≡ (if id == j then a else addr_of j s)
unfolding addr_of set_addr
addr_of-set_addr id a j s = ap or_new (map_find-map_assign id j a s.addr) ∙ chosen (id == j)
  where
    chosen :
        (b : Bool)
        → or_new (if b then some a else map_find j s.addr)
          ≡ (if b then a else or_new (map_find j s.addr))
    chosen true = refl
    chosen false = refl

-- An address that is stored for an answered id.
set_addr-IsSound :
    (id : ℕ) (a : Text × ℕ) (s : SubMg) → state_of id s ≡ 2 → IsSound s → IsSound (set_addr id a s)
unfolding state_of set_addr
set_addr-IsSound id a s two h = record {
  bounded = h.bounded;
  unanswered = λ j e. elim (Bool-cases (id == j)) [
    | inl same ↦ absurd (answered_twice id j s two (==→eq id j same) e)
    | inr other ↦ addr_of-set_addr id a j s ∙ rw other (h.unanswered j e)
  ];
  distinct = h.distinct;
  counted = h.counted;
}

pub store_address-Ensures :
    (ready : List ℕ) (i id port : ℕ) (s : SubMg)
    → IsSound s
    → state_of id s ≡ 2
    → Ensures (Continues s) (store_address ready i id port s)
unfolding store_address ControlAgrees
store_address-Ensures ready i id port s h two = elim (Option-cases (get_elem? s.ava_sub_mg i)) [
  | inl e ↦ rw (store_address, e) (Ensures-fault (Continues s))
  | inr (server, e) ↦
      let a : Text × ℕ = (server.0, (addr_of id s).1) in
      rw (store_address, e)
        (Ensures-ok (Continues s) {a = (porting ready i id port, set_addr id a s)}
          (set_addr-IsSound id a s two h, same_state id a id s two, set_addr-CallerAgrees id a s))
]

pub store_port-Continues :
    (ready : List ℕ) (i id port : ℕ) (s : SubMg)
    → IsSound s
    → state_of id s ≡ 2
    → Continues s (store_port ready i id port s)
unfolding store_port ControlAgrees
store_port-Continues ready i id port s h two =
    let a : Text × ℕ = ((addr_of id s).0, port) in
    (set_addr-IsSound id a s two h, tt, set_addr-CallerAgrees id a s)

pub accept_client-Continues :
    (client : Option (Text × ℕ)) (s : SubMg)
    → IsSound s
    → Continues s (selecting, accept_client client s)
unfolding accept_client ControlAgrees state_of addr_of
accept_client-Continues none s h = (h, tt, λ c k. k)
accept_client-Continues (some (ip, fd)) s h = elim (Bool-cases (has_ip ip s.ava_sub_mg)) [
  | inl known ↦ rw known (h, tt, λ c k. k)
  | inr new ↦ rw new (
    record {
      bounded = h.bounded;
      unanswered = h.unanswered;
      distinct = append-IsDistinct ip fd s.ava_sub_mg new h.distinct;
      counted = h.counted;
    },
    tt,
    same_states s _ refl,
  )
]
