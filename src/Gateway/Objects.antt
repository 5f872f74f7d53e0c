-- ===== src/Gateway/Objects.antt =====
-- src/mediagateway.cpp: the map of sessions and the objects that it points to, under the assignments
-- and deletions that the handlers make.
use media_gateway_v4_7_1_sde.Base.{
  ℕ, suc, ◌<◌, ◌≡◌, ◌≢◌, sym, ap, ◌∙◌, ◌⊎◌, inl, inr, subst, Option, none, some, List, arith, ◌==◌,
  Text, map_find, map_assign, map_erase, map_find-map_assign, map_find-map_erase, nat_eq,
  Bool-cases, ==→eq, ==_refl, ne→==,
}
use media_gateway_v4_7_1_sde.Text.{eq_text_iff, text_eq}
use media_gateway_v4_7_1_sde.Session.{Session}

-- An object stands at the address.
abbrev pub Live : ℕ → List (ℕ × Session) → Type 0
Live p heap = (s : Session) × (map_find p heap ≡ some s)

-- Every id of the map stands for an object that was not deleted, no two ids for one object; the
-- session made in advance is an object too, and no id stands for it; addresses are below `next`.
pub record Owned (spare : Option ℕ) (sessions : List (Text × ℕ)) (heap : List (ℕ × Session))
    (next : ℕ) : Type 0 where
  pub live : (i : Text) (p : ℕ) → map_find i sessions ≡ some p → Live p heap
  pub distinct :
      (i j : Text) (p : ℕ) → map_find i sessions ≡ some p → map_find j sessions ≡ some p → i ≡ j
  pub spare_live : (p : ℕ) → spare ≡ some p → Live p heap
  pub spare_free : (p : ℕ) (i : Text) → spare ≡ some p → map_find i sessions ≢ some p
  pub bounded : (p : ℕ) → Live p heap → p < next

some-eq : {A : Type 0} {x y : A} → some x ≡ some y → x ≡ y
some-eq h = cc

pub none-ne-some : {A : Type 0} {x : A} → none ≡ some x → ⊥
none-ne-some h = cc

module _ (p : ℕ) (s : Session) (heap : List (ℕ × Session)) where
  Live-assign : (q : ℕ) → Live q heap → Live q (map_assign p s heap)
  Live-assign q (t, e) = elim (Bool-cases (p == q)) [
    | inl same ↦ (s, map_find-map_assign p q s heap ∙ rw same)
    | inr other ↦ (t, map_find-map_assign p q s heap ∙ rw other e)
  ]

  Live-assign_self : Live p (map_assign p s heap)
  Live-assign_self = (s, map_find-map_assign p p s heap ∙ rw (==_refl p))

  -- What stands in the heap after an assignment stood there before, or is the new object.
  Live-assign_inv : (q : ℕ) → Live q (map_assign p s heap) → (p ≡ q) ⊎ Live q heap
  Live-assign_inv q (t, e) = elim (Bool-cases (p == q)) [
    | inl same ↦ inl (==→eq p q same)
    | inr other ↦ inr (t, (sym (map_find-map_assign p q s heap ∙ rw other)) ∙ e)
  ]

module _ (p : ℕ) (heap : List (ℕ × Session)) where
  Live-erase : (q : ℕ) → p ≢ q → Live q heap → Live q (map_erase p heap)
  Live-erase q ne (t, e) = (t, map_find-map_erase p q heap ∙ rw (ne→== p q ne) e)

  Live-erase_inv : (q : ℕ) → Live q (map_erase p heap) → Live q heap
  Live-erase_inv q (t, e) = elim (Bool-cases (p == q)) [
    | inl same ↦ absurd (none-ne-some (sym (map_find-map_erase p q heap ∙ rw same) ∙ e))
    | inr other ↦ (t, sym (map_find-map_erase p q heap ∙ rw other) ∙ e)
  ]

module _ (id : Text) (m : List (Text × ℕ)) where
  find-erase_inv :
      (i : Text) (q : ℕ) → map_find i (map_erase id m) ≡ some q → (id ≢ i) × (map_find i m ≡ some q)
  find-erase_inv i q e = ground (arith, map_find-map_erase id i m, eq_text_iff id i)

  find-assign_inv :
      (p : ℕ) (i : Text) (q : ℕ)
      → map_find i (map_assign id p m) ≡ some q
      → ((id ≡ i) × (p ≡ q)) ⊎ ((id ≢ i) × (map_find i m ≡ some q))
  find-assign_inv p i q e = ground (arith, map_find-map_assign id i p m, eq_text_iff id i)

module _ {sp : Option ℕ} {m : List (Text × ℕ)} {heap : List (ℕ × Session)} {n : ℕ} where
  pub store-Owned :
      (p : ℕ) (s : Session) → Owned sp m heap n → Live p heap → Owned sp m (map_assign p s heap) n
  store-Owned p s o l = record {
    live = λ i q e. Live-assign p s heap q (o.live i q e);
    distinct = o.distinct;
    spare_live = λ q e. Live-assign p s heap q (o.spare_live q e);
    spare_free = o.spare_free;
    bounded = λ q k. elim (Live-assign_inv p s heap q k) [
      | inl e ↦ subst (λ (x : ℕ). x < n) e (o.bounded p l)
      | inr k' ↦ o.bounded q k'
    ];
  }

  pub forget-Owned : (id : Text) → Owned sp m heap n → Owned sp (map_erase id m) heap n
  forget-Owned id o = record {
    live = λ i q e. o.live i q (find-erase_inv id m i q e).1;
    distinct =
        λ i j q e f. o.distinct i j q (find-erase_inv id m i q e).1 (find-erase_inv id m j q f).1;
    spare_live = o.spare_live;
    spare_free = λ q i e f. o.spare_free q i e (find-erase_inv id m i q f).1;
    bounded = o.bounded;
  }

  pub delete-Owned :
      (id : Text) (p : ℕ)
      → map_find id m ≡ some p
      → Owned sp m heap n
      → Owned sp (map_erase id m) (map_erase p heap) n
  delete-Owned id p found o = record {
    live = λ i q e.
        let (ne, f) = find-erase_inv id m i q e in
        Live-erase p heap q (λ (h : p ≡ q). ne (o.distinct id i p found (f ∙ ap some (sym h))))
          (o.live i q f);
    distinct =
        λ i j q e f. o.distinct i j q (find-erase_inv id m i q e).1 (find-erase_inv id m j q f).1;
    spare_live = λ q e.
        Live-erase p heap q (λ (h : p ≡ q). o.spare_free q id e (found ∙ ap some h))
          (o.spare_live q e);
    spare_free = λ q i e f. o.spare_free q i e (find-erase_inv id m i q f).1;
    bounded = λ q l. o.bounded q (Live-erase_inv p heap q l);
  }

  pub register-Owned :
      (id : Text) (p : ℕ)
      → map_find id m ≡ none
      → sp ≡ some p
      → Owned sp m heap n
      → Owned none (map_assign id p m) heap n
  register-Owned id p new e o = record {
    live = λ i q f. elim (find-assign_inv id m p i q f) [
      | inl (_, same) ↦ subst (λ (x : ℕ). Live x heap) same (o.spare_live p e)
      | inr (_, g) ↦ o.live i q g
    ];
    distinct = λ i j q f g. elim (find-assign_inv id m p i q f) [
      | inl (ei, same) ↦ elim (find-assign_inv id m p j q g) [
        | inl (ej, _) ↦ sym ei ∙ ej
        | inr (_, g') ↦ absurd (o.spare_free p j e (g' ∙ ap some (sym same)))
      ]
      | inr (_, f') ↦ elim (find-assign_inv id m p j q g) [
        | inl (_, same) ↦ absurd (o.spare_free p i e (f' ∙ ap some (sym same)))
        | inr (_, g') ↦ o.distinct i j q f' g'
      ]
    ];
    spare_live = λ q f. absurd (none-ne-some f);
    spare_free = λ q i f. absurd (none-ne-some f);
    bounded = o.bounded;
  }

-- The session made in advance, when the last one was used.
pub fresh-Owned :
    (m : List (Text × ℕ)) (heap : List (ℕ × Session)) (n : ℕ) (s : Session)
    → Owned none m heap n
    → Owned (some n) m (map_assign n s heap) (suc n)
fresh-Owned m heap n s o = record {
  live = λ i q e. Live-assign n s heap q (o.live i q e);
  distinct = o.distinct;
  spare_live = λ q e.
      subst (λ (x : ℕ). Live x (map_assign n s heap)) (some-eq e) (Live-assign_self n s heap);
  spare_free = λ q i e f. absurd (omega (arith, some-eq e, o.bounded q (o.live i q f)));
  bounded = λ q k. elim (Live-assign_inv n s heap q k) [
    | inl e ↦ omega arith
    | inr k' ↦ omega (arith, o.bounded q k')
  ];
}
