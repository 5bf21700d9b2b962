-- ===== src/LegMatcher/Nearest.antt =====
-- nearest() of src/legMatcher.ts picks a leg that no other leg is strictly nearer than, and the
-- ids of a result are in ascending order.
use mathlib.Core.List.{Perm}
use mathlib.Core.List.Perm
use msfslogger.Base.{
  ℕ, ◌≤◌, true, false, List, [], ◌∷◌, ◌≡◌, inl, inr, arith, if◌then◌else◌, All, Bool-cases, leb,
}
use msfslogger.Base.Double.{Double}
use msfslogger.LegMatcher.{Scored, nearest_from, insert_id, sort_ids}

module _ {N : Type 0} (d : Double N)
    (lt_trans : (x y z : N) → d.lt x y ≡ true → d.lt y z ≡ true → d.lt x z ≡ true) where
  open d use {lt}

  -- What the best so far is not beaten by, the result is not beaten by.
  nearest_from-keeps :
      (x : N) (best : Scored N) (xs : List (Scored N))
      → lt x best.distance_nm ≡ false
      → lt x (nearest_from d best xs).distance_nm ≡ false
  unfolding nearest_from
  nearest_from-keeps x best [] h = h
  nearest_from-keeps x best (s ∷ rest) h =
      nearest_from-keeps x (if lt s.distance_nm best.distance_nm then s else best) rest
        (ground (arith, lt_trans x s.distance_nm best.distance_nm))

  -- No leg of the list is strictly nearer than the one that nearest() returns, if `<` is
  -- transitive and no number is below itself.
  pub nearest_least :
      ((x : N) → lt x x ≡ false)
      → (best : Scored N) (xs : List (Scored N))
      → All (λ s. lt s.distance_nm (nearest_from d best xs).distance_nm ≡ false) xs
  unfolding nearest_from
  nearest_least irrefl best [] = tt
  nearest_least irrefl best (s ∷ rest) = (
    nearest_from-keeps s.distance_nm (if lt s.distance_nm best.distance_nm then s else best) rest
        (ground (arith, irrefl s.distance_nm)),
    nearest_least irrefl (if lt s.distance_nm best.distance_nm then s else best) rest,
  )

abbrev pub IsAscending : List ℕ → Type 0
IsAscending [] = Unit
IsAscending (a ∷ []) = Unit
IsAscending (a ∷ b ∷ bs) = (a ≤ b) × IsAscending (b ∷ bs)

insert_id-IsAscending : (a : ℕ) (bs : List ℕ) → IsAscending bs → IsAscending (insert_id a bs)
unfolding insert_id
insert_id-IsAscending a [] h = tt
insert_id-IsAscending a (b ∷ []) h = elim (Bool-cases (leb a b)) [
  | inl e ↦ rw e (ground arith, tt)
  | inr e ↦ rw e (ground arith, tt)
]
insert_id-IsAscending a (b ∷ c ∷ bs) h = elim (Bool-cases (leb a b)) [
  | inl e ↦ rw e (ground arith, h)
  | inr e ↦ elim (Bool-cases (leb a c)) [
    | inl f ↦ rw (e, f) (ground arith, (ground arith, h.1))
    | inr f ↦ rw (e, f) (h.0, rw f at (insert_id-IsAscending a (c ∷ bs) h.1))
  ]
]

insert_id-perm : (a : ℕ) (bs : List ℕ) → Perm (insert_id a bs) (a ∷ bs)
unfolding insert_id
insert_id-perm a [] = Perm.refl (a ∷ [])
insert_id-perm a (b ∷ bs) = elim (Bool-cases (leb a b)) [
  | inl e ↦ rw e (Perm.refl (a ∷ b ∷ bs))
  | inr e ↦ rw e (Perm.trans (Perm.cons b (insert_id-perm a bs)) (Perm.swap a b bs))
]

-- The ids named by a result are those of the legs, each as often, in ascending order.
pub sort_ids_lem : (ids : List ℕ) → IsAscending (sort_ids ids) × Perm (sort_ids ids) ids
unfolding sort_ids
sort_ids_lem [] = (tt, Perm.refl [])
sort_ids_lem (a ∷ ids) =
    let (sorted, perm) = sort_ids_lem ids in
    (
      insert_id-IsAscending a (sort_ids ids) sorted,
      Perm.trans (insert_id-perm a (sort_ids ids)) (Perm.cons a perm),
    )
