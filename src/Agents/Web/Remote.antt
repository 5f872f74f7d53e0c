-- ===== src/Agents/Web/Remote.antt =====
-- src/webagent.cpp, `setRemoteCandidates`: what libnice finds at the pointers that it is given.
use media_gateway_v4_7_1_sde.Base.{
  ℕ, ◌+◌, ◌<◌, ◌≤◌, ◌≡◌, refl, ap, sym, ◌∙◌, Option, none, List, [], ◌∷◌, ◌++◌, arith,
  if◌then◌else◌, replicate, Text, ok, ◌>>=◌, >>=-eq-ok, All, length, ne→==, All-append, Bool-cases,
  inl, inr, ==_refl, length-append, subst, ap₂,
}
use media_gateway_v4_7_1_sde.Candidate.{Nice, Candidate, kind_of, new_candidate, build}
use media_gateway_v4_7_1_sde.Agents.{Effect, remote_candidates}
use media_gateway_v4_7_1_sde.Agents.Web.{
  WebAgent, CandidateHeap, read_cell, free_cell, is_host, add_remote, add_remotes, read_cells,
  set_remote_candidates,
}

-- How many lines stand for a host candidate.
unfoldable pub hosts : List Text → ℕ
hosts [] = 0
hosts (line ∷ lines) = (if is_host (kind_of line) then 1 else 0) + hosts lines

abbrev IsFreshAt : ℕ → List (ℕ × Candidate) → Type 0
IsFreshAt n = All (λ (c : ℕ × Candidate). c.0 < n)

-- No object stands at `next` or above.
abbrev pub IsFresh : CandidateHeap → Type 0
IsFresh h = IsFreshAt h.next h.cells

-- The list `cands` is made of addresses from `low` on.
abbrev From : ℕ → List ℕ → Type 0
From low = All (λ (p : ℕ). low ≤ p)

kind-new_candidate :
    (nice : Nice) (line : Text) (c : Candidate)
    → new_candidate nice line ≡ ok c
    → c.kind ≡ kind_of line
unfolding new_candidate build
kind-new_candidate nice line c e = ground arith

free_cell-below :
    (p n : ℕ) (cells : List (ℕ × Candidate)) → n ≤ p → IsFreshAt n cells → free_cell p cells ≡ cells
unfolding free_cell
free_cell-below p n [] h a = refl
free_cell-below p n ((q, c) ∷ cells) h a =
    rw (ne→== q p (omega arith))
      (ap (λ (l : List (ℕ × Candidate)). (q, c) ∷ l) (free_cell-below p n cells h a.1))

read_cell-below :
    (p n : ℕ) (cells : List (ℕ × Candidate)) → n ≤ p → IsFreshAt n cells → read_cell cells p ≡ none
unfolding read_cell
read_cell-below p n [] h a = refl
read_cell-below p n ((q, c) ∷ cells) h a =
    rw (ne→== q p (omega arith)) (read_cell-below p n cells h a.1)

read_cells-below :
    (n : ℕ) (cells : List (ℕ × Candidate)) (ps : List ℕ)
    → IsFreshAt n cells
    → From n ps
    → read_cells cells ps ≡ replicate (length ps) none
unfolding read_cells
read_cells-below n cells [] a f = refl
read_cells-below n cells (p ∷ ps) a f =
    rw (read_cell-below p n cells f.0 a, read_cells-below n cells ps a f.1)

record Added (n : ℕ) (lines : List Text) (heap : CandidateHeap) (cands : List ℕ)
    (r : CandidateHeap × List ℕ) : Type 0 where
  same : r.0.cells ≡ heap.cells
  grows : heap.next ≤ r.0.next
  above : From n r.1
  many : length r.1 ≡ length cands + hosts lines

ok-injective : {A : Type 0} {x y : A} → ok x ≡ ok y → x ≡ y
ok-injective e = cc

-- What the list of pointers reads as.
freed :
    {n : ℕ} {lines : List Text} {heap : CandidateHeap} {r : CandidateHeap × List ℕ}
    → IsFreshAt n heap.cells
    → Added n lines heap [] r
    → read_cells r.0.cells r.1 ≡ replicate (hosts lines) none
freed {n} {lines} {heap} {r} f a =
    read_cells-below n r.0.cells r.1 (subst (IsFreshAt n) (sym a.same) f) a.above
    ∙ ap (λ (k : ℕ). replicate k none) (omega (arith, a.many))

free_cell-head :
    (p : ℕ) (c : Candidate) (cells : List (ℕ × Candidate))
    → IsFreshAt p cells
    → free_cell p ((p, c) ∷ cells) ≡ cells
unfolding free_cell
free_cell-head p c cells a = rw (==_refl p) (free_cell-below p p cells (omega arith) a)

From-snoc : (n p : ℕ) (ps : List ℕ) → From n ps → n ≤ p → From n (ps ++ p ∷ [])
From-snoc n p ps f h = All-append (λ (x : ℕ). n ≤ x) ps (p ∷ []) f (h, tt)

add_remote-Added :
    (n : ℕ) (line : Text) (c : Candidate) (heap : CandidateHeap) (cands : List ℕ)
    → IsFresh heap
    → n ≤ heap.next
    → From n cands
    → c.kind ≡ kind_of line
    → Added n (line ∷ []) heap cands (add_remote c heap cands)
unfolding add_remote hosts
add_remote-Added n line c heap cands f h a k = record {
  same = free_cell-head heap.next c heap.cells f;
  grows = omega arith;
  above = elim (Bool-cases (is_host c.kind)) [
    | inl e ↦ rw e (From-snoc n heap.next cands a h)
    | inr e ↦ rw e a
  ];
  many = rw (← k) (ground (arith, length-append cands (heap.next ∷ [])));
}

Below-mono :
    (m n : ℕ) (cells : List (ℕ × Candidate)) → m ≤ n → IsFreshAt m cells → IsFreshAt n cells
Below-mono m n [] h a = tt
Below-mono m n (x ∷ cells) h a = (omega arith, Below-mono m n cells h a.1)

add_remotes-Added :
    (nice : Nice) (n : ℕ) (lines : List Text) (heap : CandidateHeap) (cands : List ℕ)
    → IsFresh heap
    → n ≤ heap.next
    → From n cands
    → {r : CandidateHeap × List ℕ} → add_remotes nice lines heap cands ≡ ok r
    → Added n lines heap cands r
unfolding add_remotes hosts
add_remotes-Added nice n [] heap cands f h a e =
    subst (Added n [] heap cands) (ok-injective e)
      (record { same = refl; grows = omega arith; above = a; many = omega arith })
add_remotes-Added nice n (line ∷ lines) heap cands f h a e =
    let (c, made, rest) =
      >>=-eq-ok (new_candidate nice line)
        (λ c. let s = add_remote c heap cands in add_remotes nice lines s.0 s.1) e in
    let s = add_remote c heap cands in
    let one = add_remote-Added n line c heap cands f h a (kind-new_candidate nice line c made) in
    let fresh : IsFresh s.0 =
      subst (IsFreshAt s.0.next) (sym one.same)
        (Below-mono heap.next s.0.next heap.cells one.grows f) in
    let more =
      add_remotes-Added nice n lines s.0 s.1 fresh (omega (arith, one.grows)) one.above rest in
    record {
      same = more.same ∙ one.same;
      grows = omega (arith, one.grows, more.grows);
      above = more.above;
      many = omega (arith, more.many, one.many);
    }

-- Whenever `setRemoteCandidates` returns, libnice has been given as many candidates for each
-- component as there are lines of host candidates, and every one of them was freed before.
pub remote_candidates_freed :
    (nice : Nice) (heap : CandidateHeap) (w : WebAgent) {effects : List Effect}
    → IsFresh heap
    → set_remote_candidates nice heap w ≡ ok effects
    → effects
      ≡ remote_candidates 1 (replicate (hosts w.remote_rtp_candidates) none)
        ∷ remote_candidates 2 (replicate (hosts w.remote_rtcp_candidates) none)
        ∷ []
unfolding set_remote_candidates
remote_candidates_freed nice heap w f e =
    let (s1, made1, e1) =
      >>=-eq-ok (add_remotes nice w.remote_rtp_candidates heap [])
        (λ s. add_remotes nice w.remote_rtcp_candidates s.0 [] >>= λ t. ok (
          remote_candidates 1 (read_cells s.0.cells s.1)
          ∷ remote_candidates 2 (read_cells t.0.cells t.1)
          ∷ []))
        e in
    let (s2, made2, e2) =
      >>=-eq-ok (add_remotes nice w.remote_rtcp_candidates s1.0 [])
        (λ t. ok (
          remote_candidates 1 (read_cells s1.0.cells s1.1)
          ∷ remote_candidates 2 (read_cells t.0.cells t.1)
          ∷ []))
        e1 in
    let a1 =
      add_remotes-Added nice heap.next w.remote_rtp_candidates heap [] f (omega arith) tt made1 in
    let fresh : IsFresh s1.0 =
      subst (IsFreshAt s1.0.next) (sym a1.same)
        (Below-mono heap.next s1.0.next heap.cells a1.grows f) in
    let a2 =
      add_remotes-Added nice s1.0.next w.remote_rtcp_candidates s1.0 [] fresh (omega arith) tt
        made2 in
    sym (ok-injective e2)
    ∙ ap₂ (λ (x y : List (Option Candidate)). remote_candidates 1 x ∷ remote_candidates 2 y ∷ [])
        (freed f a1) (freed fresh a2)
