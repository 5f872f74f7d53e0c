-- ===== src/Etcp/Stream.antt =====
-- src/etcp.cpp, `readn`: the bytes it delivers do not depend on how they were cut into segments.
use media_gateway_v4_7_1_sde.Base.{
  ℕ, zero, suc, ◌-◌, ◌≤◌, ◌≡◌, refl, sym, ap, ◌∙◌, inl, inr, List, [], ◌∷◌, ◌++◌, append-nil,
  append_assoc, arith, length, take, drop, Bool-cases, ◌==◌, leb, leb→le, leb→lt, ==→eq, true,
}
use media_gateway_v4_7_1_sde.Etcp.{
  Event, segment, interrupted, broken, Read, count, push_back, readn_loop, readn,
}

-- All the bytes that are still to come.
abbrev pub bytes_of : List Event → List ℕ
bytes_of [] = []
bytes_of (segment b bs ∷ ev) = b ∷ (bs ++ bytes_of ev)
bytes_of (interrupted ∷ ev) = bytes_of ev
bytes_of (broken ∷ ev) = bytes_of ev

-- No call of `recv` fails but by EINTR.
abbrev pub IsClean : List Event → Type 0
IsClean [] = Unit {0}
IsClean (segment b bs ∷ ev) = IsClean ev
IsClean (interrupted ∷ ev) = IsClean ev
IsClean (broken ∷ ev) = ⊥

bytes_of-push_back :
    (bs : List ℕ) (ev : List Event) → bytes_of (push_back bs ev) ≡ bs ++ bytes_of ev
unfolding push_back
bytes_of-push_back [] ev = refl
bytes_of-push_back (b ∷ bs) ev = refl

push_back-IsClean : (bs : List ℕ) (ev : List Event) → IsClean ev → IsClean (push_back bs ev)
unfolding push_back
push_back-IsClean [] ev h = h
push_back-IsClean (b ∷ bs) ev h = h

-- What `r` says: it took the first bytes of the stream and left the others.
abbrev Took : ℕ → List ℕ → List Event → Read → Type 0
Took need buf ev r =
    (rest : List Event) × (r
      ≡ count (length (buf ++ take need (bytes_of ev))) (buf ++ take need (bytes_of ev)) rest)
    × (bytes_of rest ≡ drop need (bytes_of ev))
    × IsClean rest

take_append_le : (n : ℕ) (xs ys : List ℕ) → n ≤ length xs → take n (xs ++ ys) ≡ take n xs
take_append_le zero xs ys h = refl
take_append_le (suc n) [] ys h = absurd (omega arith)
take_append_le (suc n) (x ∷ xs) ys h = ap (◌∷◌ x) (take_append_le n xs ys (omega arith))

drop_append_le : (n : ℕ) (xs ys : List ℕ) → n ≤ length xs → drop n (xs ++ ys) ≡ drop n xs ++ ys
drop_append_le zero xs ys h = refl
drop_append_le (suc n) [] ys h = absurd (omega arith)
drop_append_le (suc n) (x ∷ xs) ys h = drop_append_le n xs ys (omega arith)

take_append_ge :
    (n : ℕ) (xs ys : List ℕ) → length xs ≤ n → take n (xs ++ ys) ≡ xs ++ take (n - length xs) ys
take_append_ge n [] ys h = ap (λ k. take k ys) (omega arith)
take_append_ge zero (x ∷ xs) ys h = absurd (omega arith)
take_append_ge (suc n) (x ∷ xs) ys h =
    ap (◌∷◌ x) (take_append_ge n xs ys (omega arith) ∙ ap (λ k. xs ++ take k ys) (omega arith))

drop_append_ge :
    (n : ℕ) (xs ys : List ℕ) → length xs ≤ n → drop n (xs ++ ys) ≡ drop (n - length xs) ys
drop_append_ge n [] ys h = ap (λ k. drop k ys) (omega arith)
drop_append_ge zero (x ∷ xs) ys h = absurd (omega arith)
drop_append_ge (suc n) (x ∷ xs) ys h =
    drop_append_ge n xs ys (omega arith) ∙ ap (λ k. drop k ys) (omega arith)

-- Nothing more was wanted.
Took-none :
    (need : ℕ) (buf : List ℕ) (ev : List Event)
    → (need == 0) ≡ true
    → IsClean ev
    → Took need buf ev (count (length buf) buf ev)
Took-none need buf ev z c = (ev, rw (==→eq need 0 z, append-nil), rw (==→eq need 0 z), c)

-- A segment that is read whole.
Took-grow :
    (need b : ℕ) (bs buf : List ℕ) (ev : List Event) {r : Read}
    → suc (length bs) ≤ need
    → Took (need - suc (length bs)) (buf ++ b ∷ bs) ev r
    → Took need buf (segment b bs ∷ ev) r
Took-grow need b bs buf ev h (rest, e, left, c) = (
  rest,
  rw
      (
        take_append_ge need (b ∷ bs) (bytes_of ev) h,
        ← append_assoc buf (b ∷ bs) (take (need - suc (length bs)) (bytes_of ev)),
      )
      e,
  rw (drop_append_ge need (b ∷ bs) (bytes_of ev) h) left,
  c,
)

-- A segment that is read in part.
Took-part :
    (need b : ℕ) (bs buf : List ℕ) (ev : List Event)
    → need ≤ suc (length bs)
    → IsClean ev
    → let buf' = buf ++ take need (b ∷ bs) in
      Took need buf
        (segment b bs ∷ ev)
        (count (length buf') buf' (push_back (drop need (b ∷ bs)) ev))
Took-part need b bs buf ev h c = (
  push_back (drop need (b ∷ bs)) ev,
  rw (take_append_le need (b ∷ bs) (bytes_of ev) h),
  bytes_of-push_back (drop need (b ∷ bs)) ev ∙ sym (drop_append_le need (b ∷ bs) (bytes_of ev) h),
  push_back-IsClean (drop need (b ∷ bs)) ev c,
)

take_nil : (n : ℕ) → take {A = ℕ} n [] ≡ []
take_nil zero = refl
take_nil (suc n) = refl

drop_nil : (n : ℕ) → drop {A = ℕ} n [] ≡ []
drop_nil zero = refl
drop_nil (suc n) = refl

readn_loop-Took :
    (need : ℕ) (buf : List ℕ) (ev : List Event)
    → IsClean ev
    → Took need buf ev (readn_loop need buf ev)
unfolding readn_loop
readn_loop-Took need buf [] c = ([], rw (take_nil, append-nil), rw drop_nil, tt)
readn_loop-Took need buf (segment b bs ∷ ev) c = elim (Bool-cases (need == 0)) [
  | inl z ↦ rw z (Took-none need buf (segment b bs ∷ ev) z c)
  | inr p ↦ rw p (elim (Bool-cases (leb (suc (length bs)) need)) [
    | inl whole ↦ rw whole (
        Took-grow need b bs buf ev (leb→le (suc (length bs)) need whole)
          (readn_loop-Took (need - suc (length bs)) (buf ++ b ∷ bs) ev c))
    | inr part ↦
        rw part (Took-part need b bs buf ev (omega (arith, leb→lt (suc (length bs)) need part)) c)
  ])
]
readn_loop-Took need buf (interrupted ∷ ev) c = elim (Bool-cases (need == 0)) [
  | inl z ↦ rw z (Took-none need buf (interrupted ∷ ev) z c)
  | inr p ↦ rw p (readn_loop-Took need buf ev c)
]
readn_loop-Took need buf (broken ∷ ev) c = absurd c

-- On a stream that does not break, `readn` delivers the first `len` bytes (all of them, if the
-- stream ends before) and leaves the others, however the stream is cut into segments.
pub readn_takes :
    (len : ℕ) (ev : List Event)
    → IsClean ev
    → (rest : List Event) × (readn len ev
        ≡ count (length (take len (bytes_of ev))) (take len (bytes_of ev)) rest)
      × (bytes_of rest ≡ drop len (bytes_of ev))
      × IsClean rest
unfolding readn
readn_takes len ev c = readn_loop-Took len [] ev c
