-- ===== src/Timer/Ids.antt =====
-- src/timer.cpp: which timers are set after a call, and what the ids are.
use media_gateway_v4_7_1_sde.Base.{
  ℕ, ◌<◌, ◌≤◌, ◌≡◌, refl, true, false, Option, none, some, List, if◌then◌else◌, ◌==◌, map_find,
  map_find-map_assign, map_find-map_erase, arith, nat_eq, Option-cases, Bool-cases, ==→eq, subst,
  inl, inr,
}
use media_gateway_v4_7_1_sde.Timer.{Ts, Timers, next_id, set_timer, stop_timer}

-- The timer that is set under an id.
unfoldable pub pending : ℕ → Timers → Option Ts
pending id t = map_find id t.tpool

-- The id of a new timer lies between 1 and 0x7ffffffe; under it stands the new timer, and every
-- other id stands for what it stood for.
set_timer_lem :
    (timeout para : ℕ) (t : Timers)
    → t.cnt < 0x7fffffff
    → let (id, t') = set_timer timeout para t in
      (1 ≤ id)
      × (id < 0x7fffffff)
      × (t'.cnt ≡ id)
      × ((j : ℕ)
          → pending j t' ≡ (
              if id == j
              then some (record { timeout = timeout; para = para; id = id })
              else pending j t))
unfolding set_timer pending
set_timer_lem timeout para t h = (
  ground arith,
  ground arith,
  refl,
  λ j.
      map_find-map_assign (next_id t.cnt) j
        (record { timeout = timeout; para = para; id = next_id t.cnt }) t.tpool,
)

absent_id :
    (id j : ℕ) (m : List (ℕ × Ts))
    → map_find id m ≡ none
    → map_find j m ≡ (if id == j then none else map_find j m)
absent_id id j m e = elim (Bool-cases (id == j)) [
  | inl h ↦ rw h (subst (λ (k : ℕ). map_find k m ≡ none) (==→eq id j h) e)
  | inr h ↦ rw h
]

-- `stopTimer` returns 0 exactly if a timer is set under the id. Then none is set under it, and
-- every other id stands for what it stood for, in either case.
pub stop_timer_lem :
    (id : ℕ) (t : Timers)
    → let (stopped, t') = stop_timer id t in
      (stopped ≡ (elim (pending id t) [ none ↦ false | some ts ↦ true ]))
      × (t'.cnt ≡ t.cnt)
      × ((j : ℕ) → pending j t' ≡ (if id == j then none else pending j t))
unfolding stop_timer pending
stop_timer_lem id t = elim (Option-cases (map_find id t.tpool)) [
  | inl e ↦ rw (e, stop_timer) (refl, refl, λ j. absent_id id j t.tpool e)
  | inr (ts, e) ↦ rw (e, stop_timer) (refl, refl, λ j. map_find-map_erase id j t.tpool)
]
