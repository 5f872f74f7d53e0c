-- ===== src/Gateway/Guard.antt =====
-- src/timer.cpp, src/mediasession.cpp and src/mediagateway.cpp: a timer that is set belongs to a
-- session that runs and knows it, and how the operations keep that.
pub mod Callbacks
pub mod Spare
use media_gateway_v4_7_1_sde.Base.{
  ℕ, suc, ◌+◌, ◌≡◌, ◌≢◌, refl, sym, ap, ◌∙◌, subst, true, false, none, some, List, arith, ◌==◌,
  if◌then◌else◌, map_find, map_assign, map_erase, map_find-map_assign, map_find-map_erase, nat_eq,
  Bool-cases, ==→eq, ==-false, ==_refl, ◌⊎◌, ne→==, inl, inr, ok-injective,
}
use media_gateway_v4_7_1_sde.Timer.{Ts, Timers, set_timer, stop_timer, next_id, timer_done}
use media_gateway_v4_7_1_sde.Timer.Ids.{pending, stop_timer_lem}
use media_gateway_v4_7_1_sde.Session.{Session, destroy_session, flow_timeout, delete_session}
use media_gateway_v4_7_1_sde.Session.Kept.{Runs, Kept, Renewed}

abbrev Heap : Type 0
Heap = List (ℕ × Session)

-- The session that a timer will call back on: it was not deleted, it runs, and the timer is the
-- one that it knows.
pub record Owner (j para : ℕ) (heap : Heap) : Type 0 where
  pub session : Session
  pub found : map_find para heap ≡ some session
  pub known : session.timer_id ≡ j
  pub runs : Runs session
  pub nonzero : j ≢ 0

-- Every timer that is set has an owner.
abbrev pub Guarded : Timers → Heap → Type 0
Guarded timers heap = (j : ℕ) (ts : Ts) → map_find j timers.tpool ≡ some ts → Owner j ts.para heap

some_same : {x y : Session} → some x ≡ some y → x ≡ y
some_same e = cc

some_ts : {x y : Ts} → some x ≡ some y → x ≡ y
some_ts e = cc

none_ts : {x : Ts} → none ≡ some x → ⊥
none_ts e = cc

-- What is set after `setTimer` is the new timer, or was set before.
set_inv :
    (timeout p : ℕ) (timers : Timers) (j : ℕ) (ts : Ts)
    → map_find j (set_timer timeout p timers).1.tpool ≡ some ts
    → (((set_timer timeout p timers).0 ≡ j) × (ts.para ≡ p)) ⊎ (map_find j timers.tpool ≡ some ts)
unfolding set_timer
set_inv timeout p timers j ts set = ground (
  arith,
  map_find-map_assign (next_id timers.cnt) j
      (record { timeout = timeout; para = p; id = next_id timers.cnt }) timers.tpool,
)

set_timer-ne-zero : (timeout p : ℕ) (timers : Timers) → (set_timer timeout p timers).0 ≢ 0
unfolding set_timer next_id
set_timer-ne-zero timeout p timers = ground arith

erase_inv :
    (i j : ℕ) (pool : List (ℕ × Ts)) (ts : Ts)
    → map_find j (map_erase i pool) ≡ some ts
    → (i ≢ j) × (map_find j pool ≡ some ts)
erase_inv i j pool ts set = ground (arith, map_find-map_erase i j pool)

module _ (p : ℕ) (t : Session) (heap : Heap) where
  found_other : (q : ℕ) → p ≢ q → map_find q (map_assign p t heap) ≡ map_find q heap
  found_other q ne = map_find-map_assign p q t heap ∙ rw (ne→== p q ne)

  found_self : map_find p (map_assign p t heap) ≡ some t
  found_self = map_find-map_assign p p t heap ∙ rw (==_refl p)

  -- Another object is assigned.
  pub Owner-other : (j q : ℕ) → p ≢ q → Owner j q heap → Owner j q (map_assign p t heap)
  Owner-other j q ne o = record {
    session = o.session;
    found = found_other q ne ∙ o.found;
    known = o.known;
    runs = o.runs;
    nonzero = o.nonzero;
  }

  -- The owner itself is assigned, and keeps its timer.
  Owner-Kept :
      (s : Session) (j : ℕ)
      → map_find p heap ≡ some s
      → Kept s t
      → Owner j p heap
      → Owner j p (map_assign p t heap)
  Owner-Kept s j here (same, running) o = record {
    session = t;
    found = found_self;
    known = same ∙ ap (λ (x : Session). x.timer_id) (some_same (sym here ∙ o.found)) ∙ o.known;
    runs = running;
    nonzero = o.nonzero;
  }

module _ (timers : Timers) (heap : Heap) (p : ℕ) (s : Session) (here : map_find p heap ≡ some s)
    (g : Guarded timers heap) where
  -- A timer that the session does not know is not one of its own.
  apart : (j : ℕ) (ts : Ts) → map_find j timers.tpool ≡ some ts → j ≢ s.timer_id → p ≢ ts.para
  apart j ts set ne same =
      let o = g j ts set in
      ne (
        sym o.known
        ∙ ap (λ (x : Session). x.timer_id)
            (some_same (sym o.found ∙ subst (λ (q : ℕ). map_find q heap ≡ some s) same here)))

  pub store-Guarded : (t : Session) → Kept s t → Guarded timers (map_assign p t heap)
  store-Guarded t kept j ts set = elim (Bool-cases (p == ts.para)) [
    | inl same ↦
        let e = ==→eq p ts.para same in
        subst (λ (q : ℕ). Owner j q (map_assign p t heap)) e
          (Owner-Kept p t heap s j here kept
            (subst (λ (q : ℕ). Owner j q heap) (sym e) (g j ts set)))
    | inr other ↦ Owner-other p t heap j ts.para (==-false p ts.para other) (g j ts set)
  ]

  -- The session goes over to a new timer; of the old one nothing is said.
  renew-Owner :
      (t : Session) (timers' : Timers)
      → Renewed p timers t timers'
      → (j : ℕ) (ts : Ts) → map_find j timers'.tpool ≡ some ts
      → j ≢ s.timer_id
      → Owner j ts.para (map_assign p t heap)
  renew-Owner t timers' (new, running, later) j ts set ne =
      elim (set_inv flow_timeout p timers j ts
        (sym (ap (λ (x : Timers). map_find j x.tpool) later) ∙ set)) [
          | inl (same, para) ↦
              subst (λ (q : ℕ). Owner j q (map_assign p t heap)) (sym para)
                (record {
                  session = t;
                  found = found_self p t heap;
                  known = new ∙ same;
                  runs = running;
                  nonzero = λ z. set_timer-ne-zero flow_timeout p timers (same ∙ z);
                })
          | inr old ↦ Owner-other p t heap j ts.para (apart j ts old ne) (g j ts old)
        ]

  pub answer-Guarded :
      (t : Session) (timers' : Timers)
      → s.timer_id ≡ 0
      → Renewed p timers t timers'
      → Guarded timers' (map_assign p t heap)
  answer-Guarded t timers' unset (new, running, later) j ts set =
      renew-Owner t timers' (new, running, later) j ts set
        (λ z.
          elim (set_inv flow_timeout p timers j ts
            (sym (ap (λ (x : Timers). map_find j x.tpool) later) ∙ set)) [
              | inl (same, _) ↦ set_timer-ne-zero flow_timeout p timers (same ∙ z ∙ unset)
              | inr old ↦ (g j ts old).nonzero (z ∙ unset)
            ])

  pub check-Guarded :
      (t : Session) (timers' : Timers)
      → Renewed p timers t timers'
      → Guarded (timer_done s.timer_id timers') (map_assign p t heap)
  unfolding timer_done
  check-Guarded t timers' renewed j ts set =
      let (ne, set') = erase_inv s.timer_id j timers'.tpool ts set in
      renew-Owner t timers' renewed j ts set' (λ z. ne (sym z))

  pub silent-Guarded : (t : Session) → Guarded (timer_done s.timer_id timers) (map_assign p t heap)
  unfolding timer_done
  silent-Guarded t j ts set =
      let (ne, set') = erase_inv s.timer_id j timers.tpool ts set in
      Owner-other p t heap j ts.para (apart j ts set' (λ z. ne (sym z))) (g j ts set')

  -- A timer that the destructor leaves is not the session's.
  left_inv :
      (j : ℕ) (ts : Ts)
      → map_find j (destroy_session s timers).tpool ≡ some ts
      → (s.timer_id ≢ j) × (map_find j timers.tpool ≡ some ts)
  unfolding destroy_session pending
  left_inv j ts set = elim (Bool-cases (s.timer_id == 0)) [
    | inl z ↦
        let set' : map_find j timers.tpool ≡ some ts = rw (destroy_session, z) at set in
        (λ same. (g j ts set').nonzero (sym same ∙ ==→eq s.timer_id 0 z), set')
    | inr nz ↦
        let set' : map_find j (stop_timer s.timer_id timers).1.tpool ≡ some ts =
          rw (destroy_session, nz) at set in
        ground (arith, (stop_timer_lem s.timer_id timers).2 j)
  ]

  pub delete-Guarded : Guarded (destroy_session s timers) (map_erase p heap)
  unfolding destroy_session pending
  delete-Guarded j ts set =
      let (ne, set') = left_inv j ts set in
      let o = g j ts set' in
      record {
        session = o.session;
        found =
            map_find-map_erase p ts.para heap
            ∙ rw (ne→== p ts.para (apart j ts set' (λ z. ne (sym z)))) o.found;
        known = o.known;
        runs = o.runs;
        nonzero = o.nonzero;
      }
