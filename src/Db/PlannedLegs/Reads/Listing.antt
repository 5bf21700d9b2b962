-- ===== src/Db/PlannedLegs/Reads/Listing.antt =====
-- What getAllPlannedLegs() of src/db/plannedLegs.ts lists, and in which order.
use msfslogger.Base.{
  ltb, All, Option-cases, Bool-cases, inl, inr, ◌⊎◌, ◌<◌, ◌≤◌, sym, ◌∙◌, ℕ, true, false, Option,
  none, some, List, [], ◌∷◌, map, ◌≡◌, refl, ap, arith,
}
use mathlib.Core.List.{Perm}
use msfslogger.Base.Table.{All-imp}
use msfslogger.Base.Sorting.{sort_by, sort_by-IsSorted, sort_by-perm, IsSorted}
use msfslogger.Db.{PlannedLeg, Db}
use msfslogger.Db.PlannedLegs.Reads.{
  PlannedLegListItem, attach_planned_leg_children, pool_before, listed_before, get_all_planned_legs,
  trip_name_of,
}

pool_before_asym : (s t : Option ℕ) → pool_before t s ≡ true → pool_before s t ≡ false
unfolding pool_before
pool_before_asym none none e = refl
pool_before_asym none (some t) e = absurd (ground arith)
pool_before_asym (some s) none e = refl
pool_before_asym (some s) (some t) e = ground arith

pool_before_neg_trans :
    (s t u : Option ℕ) → pool_before u t ≡ false → pool_before t s ≡ false → pool_before u s ≡ false
unfolding pool_before
pool_before_neg_trans none none none e d = refl
pool_before_neg_trans none none (some u) e d = refl
pool_before_neg_trans none (some t) none e d = refl
pool_before_neg_trans none (some t) (some u) e d = refl
pool_before_neg_trans (some s) none none e d = absurd (ground arith)
pool_before_neg_trans (some s) none (some u) e d = absurd (ground arith)
pool_before_neg_trans (some s) (some t) none e d = absurd (ground arith)
pool_before_neg_trans (some s) (some t) (some u) e d = ground arith

module _ {N : Type 0} where
  listed_before_asym : (l m : PlannedLeg N) → listed_before m l ≡ true → listed_before l m ≡ false
  unfolding listed_before
  listed_before_asym l m e =
      ground (arith, pool_before_asym l.trip_id m.trip_id, pool_before_asym m.trip_id l.trip_id)

  listed_before_neg_trans :
      (l m n : PlannedLeg N)
      → listed_before n m ≡ false
      → listed_before m l ≡ false
      → listed_before n l ≡ false
  unfolding listed_before
  listed_before_neg_trans l m n e d = ground (
    arith,
    pool_before_neg_trans l.trip_id m.trip_id n.trip_id,
    pool_before_neg_trans n.trip_id m.trip_id l.trip_id,
    pool_before_neg_trans m.trip_id n.trip_id l.trip_id,
    pool_before_neg_trans m.trip_id l.trip_id n.trip_id,
    pool_before_neg_trans l.trip_id n.trip_id m.trip_id,
    pool_before_neg_trans n.trip_id l.trip_id m.trip_id,
    pool_before_asym l.trip_id m.trip_id,
    pool_before_asym l.trip_id n.trip_id,
    pool_before_asym m.trip_id n.trip_id,
  )

  abbrev pub listed_leg : PlannedLegListItem N → PlannedLeg N
  listed_leg i = i.leg.leg

  listed_legs :
      (db : Db N) (ls : List (PlannedLeg N))
      → map listed_leg (
          map
            (λ l. record {
              leg = attach_planned_leg_children db l;
              trip_name = trip_name_of l.trip_id db;
            })
            ls)
        ≡ ls
  unfolding attach_planned_leg_children
  listed_legs db [] = refl
  listed_legs db (l ∷ ls) = ap (λ xs. l ∷ xs) (listed_legs db ls)

  -- Leg `l` may stand ahead of `m`: it is loose and `m` is not, its trip has the smaller id, or both
  -- are of one pool and it has the smaller sequence number or, at the same number, no larger id.
  abbrev pub Ahead : PlannedLeg N → PlannedLeg N → Type 0
  Ahead l m =
      ((l.trip_id ≡ none) × (t : ℕ) × (m.trip_id ≡ some t))
      ⊎ (((s : ℕ) × (t : ℕ) × (l.trip_id ≡ some s) × (m.trip_id ≡ some t) × (s < t))
          ⊎ ((l.trip_id ≡ m.trip_id) × ((l.seq < m.seq) ⊎ ((l.seq ≡ m.seq) × (l.id ≤ m.id)))))

  -- Every leg of the list stands ahead of all that follow it.
  abbrev pub InOrder : List (PlannedLeg N) → Type 0
  InOrder [] = Unit
  InOrder (l ∷ ls) = All (λ m. Ahead l m) ls × InOrder ls

  before-Ahead : (l m : PlannedLeg N) → listed_before m l ≡ false → Ahead l m
  unfolding listed_before pool_before
  before-Ahead l m h = elim (Option-cases l.trip_id) [
    | inl a ↦ elim (Option-cases m.trip_id) [
      | inl b ↦ let k = rw (listed_before, a, b) at h in inr (inr (a ∙ sym b, ground arith))
      | inr (t, b) ↦ inl (a, t, b)
    ]
    | inr (s, a) ↦ elim (Option-cases m.trip_id) [
      | inl b ↦ let k = rw (listed_before, a, b) at h in absurd (ground arith)
      | inr (t, b) ↦
          let k = rw (listed_before, a, b) at h in
          elim (Bool-cases (ltb s t)) [
            | inl less ↦ inr (inl (s, t, a, b, ground arith))
            | inr more ↦
                let same : s ≡ t = ground arith in
                inr (inr (a ∙ (ap some same ∙ sym b), ground arith))
          ]
    ]
  ]

  sorted-InOrder : (ls : List (PlannedLeg N)) → IsSorted listed_before ls → InOrder ls
  sorted-InOrder [] h = tt
  sorted-InOrder (l ∷ ls) h = (
    All-imp (λ m. listed_before m l ≡ false) (λ m. Ahead l m) (λ m. before-Ahead l m) ls h.0,
    sorted-InOrder ls h.1,
  )

  -- The list of all legs has every leg exactly once, the loose ones too: first the loose legs, then
  -- the trips by ascending id, and within each by sequence number and then id.
  pub all_legs_listed :
      (db : Db N)
      → Perm (map listed_leg (get_all_planned_legs db)) db.planned_legs
        × InOrder (map listed_leg (get_all_planned_legs db))
  unfolding get_all_planned_legs
  all_legs_listed db = rw (listed_legs db (sort_by listed_before db.planned_legs)) (
    sort_by-perm listed_before db.planned_legs,
    sorted-InOrder (sort_by listed_before db.planned_legs)
        (sort_by-IsSorted listed_before listed_before_asym listed_before_neg_trans db.planned_legs),
  )
