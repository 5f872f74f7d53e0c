-- ===== src/SubMg/Ids.antt =====
-- src/submg.cpp, `getVacID`: the loop ends when an id is free.
use media_gateway_v4_7_1_sde.Base.{
  Ensures, Ensures-ok, Ensures-fault, Ensures-bind, ltb, ◌∙◌, ap, ℕ, zero, suc, ◌+◌, ◌-◌, ◌≤◌, ◌<◌,
  ◌≡◌, ◌≢◌, refl, false, List, ◌==◌, ok, arith, map_find, nat_eq, Bool-cases, inl, inr, ==→eq,
  if◌then◌else◌,
}
use media_gateway_v4_7_1_sde.SubMg.{SubMg, vac_id_loop, get_vac_id, id_limit, id_rounds, or_zero}

-- An id that `getVacID` may return.
abbrev pub IsFree : ℕ → List (ℕ × ℕ) → Type 0
IsFree id states = (1 ≤ id) × (id < 0x7fffffff) × (or_zero (map_find id states) ≡ 0)

-- How many rounds lie between the last id and another one: ids are tried in order, and behind the
-- highest one the count begins again.
abbrev distance : ℕ → ℕ → ℕ
distance cnt id = if ltb cnt id then id - cnt else (0x7fffffff - cnt) + id

nearer :
    (rounds cnt id : ℕ)
    → (cnt + 1 ≢ id)
    → cnt + 1 < 0x7fffffff
    → distance cnt id ≤ suc rounds
    → distance (cnt + 1) id ≤ rounds
nearer rounds cnt id ne below h = ground arith

taken_ne_free : (n : ℕ) → (n == 0) ≡ false → n ≡ 0 → ⊥
taken_ne_free n h e = ground arith

vac_id_loop-IsFree :
    (rounds : ℕ) (states : List (ℕ × ℕ)) (cnt id : ℕ)
    → IsFree id states
    → cnt < 0x7fffffff
    → distance cnt id ≤ rounds
    → (found : ℕ) × (vac_id_loop rounds states cnt ≡ ok found) × IsFree found states
unfolding vac_id_loop
vac_id_loop-IsFree zero states cnt id free below enough = absurd (ground arith)
vac_id_loop-IsFree (suc rounds) states cnt id (low, high, free) below enough =
    elim (Bool-cases (cnt + 1 == id_limit)) [
      | inl wrap ↦
          rw (vac_id_loop, wrap)
            (vac_id_loop-IsFree rounds states 0 id (low, high, free) (ground arith) (ground arith))
      | inr go ↦
          rw (vac_id_loop, go)
            (elim (Bool-cases (or_zero (map_find (cnt + 1) states) == 0)) [
              | inl here ↦ rw here (cnt + 1, refl, (omega arith, ground arith, ==→eq _ 0 here))
              | inr busy ↦ rw busy (
                  vac_id_loop-IsFree rounds states (cnt + 1) id (low, high, free) (ground arith)
                    (nearer rounds cnt id
                      (λ e. absurd (
                        taken_ne_free (or_zero (map_find (cnt + 1) states)) busy
                          (ap (λ (k : ℕ). or_zero (map_find k states)) e ∙ free)))
                      (ground arith) enough))
            ])
    ]

-- An id that the loop returns is free.
vac_id_loop_found :
    (rounds : ℕ) (states : List (ℕ × ℕ)) (cnt : ℕ)
    → cnt < 0x7fffffff
    → Ensures (λ (id : ℕ). IsFree id states) (vac_id_loop rounds states cnt)
unfolding vac_id_loop
vac_id_loop_found zero states cnt below = Ensures-fault _
vac_id_loop_found (suc rounds) states cnt below = elim (Bool-cases (cnt + 1 == id_limit)) [
  | inl wrap ↦ rw (vac_id_loop, wrap) (vac_id_loop_found rounds states 0 (omega arith))
  | inr go ↦
      rw (vac_id_loop, go)
        (elim (Bool-cases (or_zero (map_find (cnt + 1) states) == 0)) [
          | inl here ↦ rw here (Ensures-ok _ (omega arith, ground arith, ==→eq _ 0 here))
          | inr busy ↦ rw busy (vac_id_loop_found rounds states (cnt + 1) (ground arith))
        ])
]

pub get_vac_id-Ensures :
    (s : SubMg)
    → s.id_cnt < 0x7fffffff
    → Ensures
        (λ (r : ℕ × SubMg). IsFree r.0 s.curstate × (r.1 ≡ record s { id_cnt = r.0 }))
        (get_vac_id s)
unfolding get_vac_id
get_vac_id-Ensures s below =
    Ensures-bind _ (vac_id_loop id_rounds s.curstate s.id_cnt) _ (λ id e.
      Ensures-ok _ ((vac_id_loop_found id_rounds s.curstate s.id_cnt below).result e, refl))

-- As long as an id from 1 to 0x7ffffffe is free, `getVacID` ends, within the rounds of the model: it
-- returns such an id, free in its turn, and keeps it as the last one; nothing else changes.
pub get_vac_id-IsFree :
    (s : SubMg) (id : ℕ)
    → IsFree id s.curstate
    → s.id_cnt < 0x7fffffff
    → (found : ℕ) × (get_vac_id s ≡ ok (found, record s { id_cnt = found }))
      × IsFree found s.curstate
unfolding get_vac_id
get_vac_id-IsFree s id free below =
    let (found, e, h) =
      vac_id_loop-IsFree id_rounds s.curstate s.id_cnt id free below (ground arith) in
    (found, rw e, h)
