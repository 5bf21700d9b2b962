-- ===== src/Traffic/Retention.antt =====
-- What the retention cap keeps, and what a read of the store can show (src/trafficStore.ts).
use mathlib.Core.List.{Perm, append-nil}
use mathlib.Core.List.Perm
use msfslogger.Base.{
  ℕ, ◌+◌, ◌≤◌, ◌<◌, Bool, true, false, Option, none, some, List, [], ◌∷◌, ◌++◌, map, ◌≡◌, refl, ap,
  subst, sym, ◌↔◌, ◌⊎◌, inl, inr, arith, if◌then◌else◌, All, Bool-cases, Option-cases, leb, ltb,
  length, take,
}
use msfslogger.Base.Table.{All-imp}
use msfslogger.Base.Double.{Double}
use msfslogger.Base.Number.{Number}
use msfslogger.Base.Sorting.{
  sort_by, drop, take-drop, length-take_le, length-take_eq, length-sort_by, sort_by-perm,
  sort_by-IsSorted, IsSorted-split, sort_by-map, take-map,
}
use msfslogger.Traffic.{
  TrafficObject, TrafficStore, Measured, max_retained_objects, traffic_stale_ms, empty_store,
  replace, read, is_stale, measure, comes_before, object_of, apply_retention_cap, distance_m,
}

module _ {N : Type 0} where
  -- Some objects of a batch, each at most as often as the batch has it.
  abbrev pub Kept : List (TrafficObject N) → List (TrafficObject N) → Type 0
  Kept batch kept = (dropped : List (TrafficObject N)) × Perm (kept ++ dropped) batch

  Kept-none : (batch : List (TrafficObject N)) → Kept batch []
  Kept-none batch = (batch, Perm.refl batch)

  Kept-take : (n : ℕ) (batch : List (TrafficObject N)) → Kept batch (take n batch)
  Kept-take n batch =
      (drop n batch, subst (λ xs. Perm xs batch) (sym (take-drop n batch)) (Perm.refl batch))

  Kept-all : (batch : List (TrafficObject N)) → Kept batch batch
  Kept-all batch = ([], subst (λ xs. Perm xs batch) (sym (append-nil batch)) (Perm.refl batch))

module _ {N : Type 0} (d : Double N) (number : Number N) where
  open d use {lit, sub, lt, eq}

  -- The comparator on two objects seen from the own position.
  abbrev pub nearer : N × N → TrafficObject N → TrafficObject N → Bool
  nearer own a b = comes_before d number (measure d number own a) (measure d number own b)

  abbrev pub away : N × N → TrafficObject N → N
  away (lat, lon) x = distance_m d number lat lon x.lat x.lon

  -- Dropped `z` is no nearer than kept `k`, and where neither is nearer it has no smaller id.
  abbrev pub Farther : N × N → TrafficObject N → TrafficObject N → Type 0
  Farther own k z =
      (lt (away own z) (away own k) ≡ false)
      × ((lt (away own k) (away own z) ≡ true) ⊎ (k.id ≤ z.id))

  objects_of_measured :
      (own : N × N) (xs : List (TrafficObject N))
      → map object_of (map (measure d number own) xs) ≡ xs
  unfolding measure
  objects_of_measured own [] = refl
  objects_of_measured own (x ∷ xs) = ap (λ ys. x ∷ ys) (objects_of_measured own xs)

  -- With more than the cap and a position, the cap keeps the head of the sorted batch.
  cap_sorted :
      (own : N × N) (objects : List (TrafficObject N))
      → leb (length objects) max_retained_objects ≡ false
      → apply_retention_cap d number objects (some own)
        ≡ take max_retained_objects (sort_by (nearer own) objects)
  unfolding apply_retention_cap
  cap_sorted own objects h =
      rw (h, sort_by-map, take-map)
        (objects_of_measured own (take max_retained_objects (sort_by (nearer own) objects)))

  -- Every branch of the cap keeps objects of the batch, none of them twice.
  cap-Kept :
      (objects : List (TrafficObject N)) (last_frame : Option (N × N))
      → Kept objects (apply_retention_cap d number objects last_frame)
  cap-Kept objects last_frame = elim (Bool-cases (leb (length objects) max_retained_objects)) [
    | inl h ↦ unfold apply_retention_cap in rw h (Kept-all objects)
    | inr h ↦ elim (Option-cases last_frame) [
      | inl e ↦ unfold apply_retention_cap in rw (h, e) (Kept-take max_retained_objects objects)
      | inr (own, e) ↦ rw (e, cap_sorted own objects h) (kept_sorted own)
    ]
  ]
    where
      kept_sorted :
          (own : N × N) → Kept objects (take max_retained_objects (sort_by (nearer own) objects))
      kept_sorted own = (
        drop max_retained_objects (sort_by (nearer own) objects),
        subst (λ xs. Perm xs objects)
            (sym (take-drop max_retained_objects (sort_by (nearer own) objects)))
            (sort_by-perm (nearer own) objects),
      )

  -- The cap never lets more than 100 objects through.
  pub cap-length_le :
      (objects : List (TrafficObject N)) (last_frame : Option (N × N))
      → length (apply_retention_cap d number objects last_frame) ≤ max_retained_objects
  cap-length_le objects last_frame = elim (Bool-cases (leb (length objects) max_retained_objects)) [
    | inl h ↦ unfold apply_retention_cap in rw h (ground arith)
    | inr h ↦ elim (Option-cases last_frame) [
      | inl e ↦
          unfold apply_retention_cap in rw (h, e) (length-take_le max_retained_objects objects)
      | inr (own, e) ↦
          rw (e, cap_sorted own objects h)
            (length-take_le max_retained_objects (sort_by (nearer own) objects))
    ]
  ]

-- The numbers are ordered, and a difference is zero, or below zero, as its operands say; both hold
-- of finite doubles.
module _ {N : Type 0} (d : Double N) (number : Number N)
    (sub_lt : (a b : N) → d.lt (d.sub a b) (d.lit 0) ≡ d.lt a b)
    (sub_eq : (a b : N) → d.eq (d.sub a b) (d.lit 0) ≡ d.eq a b)
    (eq_refl : (a : N) → d.eq a a ≡ true)
    (eq_iff : (a b : N) → (d.eq a b ≡ true) ↔ ((d.lt a b ≡ false) × (d.lt b a ≡ false)))
    (lt_asym : (a b : N) → d.lt a b ≡ true → d.lt b a ≡ false)
    (lt_neg_trans : (a b c : N) → d.lt c b ≡ false → d.lt b a ≡ false → d.lt c a ≡ false) where
  before_iff :
      (a b : Measured N)
      → (comes_before d number a b ≡ true) ↔ (
          (d.lt a.d b.d ≡ true)
          ⊎ ((d.lt a.d b.d ≡ false) × (d.lt b.d a.d ≡ false) × (a.o.id < b.o.id)))
  unfolding comes_before
  before_iff a b = ground (
    arith,
    sub_lt a.d b.d,
    sub_eq a.d b.d,
    eq_refl (d.sub a.d b.d),
    eq_iff a.d b.d,
    lt_asym a.d b.d,
  )

  before_asym :
      (a b : Measured N) → comes_before d number b a ≡ true → comes_before d number a b ≡ false
  before_asym a b h = elim (Bool-cases (comes_before d number a b)) [
    | inr f ↦ f
    | inl t ↦
        absurd (ground (arith, before_iff a b, before_iff b a, lt_asym a.d b.d, lt_asym b.d a.d))
  ]

  before_neg_trans :
      (a b c : Measured N)
      → comes_before d number c b ≡ false
      → comes_before d number b a ≡ false
      → comes_before d number c a ≡ false
  before_neg_trans a b c h k = elim (Bool-cases (comes_before d number c a)) [
    | inr f ↦ f
    | inl t ↦ absurd (
        ground (
          arith,
          before_iff c a,
          before_iff c b,
          before_iff b a,
          lt_neg_trans a.d b.d c.d,
          lt_neg_trans c.d b.d a.d,
          lt_neg_trans b.d a.d c.d,
          lt_neg_trans b.d c.d a.d,
          lt_neg_trans c.d a.d b.d,
          lt_neg_trans a.d c.d b.d,
          lt_asym a.d b.d,
          lt_asym c.d a.d,
        ))
  ]

  before-Farther :
      (own : N × N) (k z : TrafficObject N)
      → nearer d number own z k ≡ false
      → Farther d number own k z
  before-Farther (lat, lon) k z h =
      unfold measure in
      (
        ground (arith, before_iff (measure d number (lat, lon) z) (measure d number (lat, lon) k)),
        ground (arith, before_iff (measure d number (lat, lon) z) (measure d number (lat, lon) k)),
      )

  -- From a batch of more than 100 objects with a known own position, the cap keeps 100: no object
  -- that it drops has a smaller distance from there than one that it keeps, and of two at the same
  -- distance the one with the smaller id is kept. What is kept and what is dropped are together
  -- the batch. Numbers compare and subtract as finite doubles do.
  pub cap_keeps_nearest :
      (own : N × N) (objects : List (TrafficObject N))
      → max_retained_objects < length objects
      → (dropped : List (TrafficObject N)) × Perm
          (apply_retention_cap d number objects (some own) ++ dropped)
          objects
        × (length (apply_retention_cap d number objects (some own)) ≡ max_retained_objects)
        × All
            (λ k. All (λ z. Farther d number own k z) dropped)
            (apply_retention_cap d number objects (some own))
  cap_keeps_nearest own objects h = rw (cap_sorted d number own objects (ground arith)) (
    drop max_retained_objects sorted,
    subst (λ xs. Perm xs objects) (sym (take-drop max_retained_objects sorted))
        (sort_by-perm (nearer d number own) objects),
    length-take_eq max_retained_objects sorted
        (omega (arith, h, length-sort_by (nearer d number own) objects)),
    All-imp (λ k. All (λ z. nearer d number own z k ≡ false) (drop max_retained_objects sorted))
        (λ k. All (λ z. Farther d number own k z) (drop max_retained_objects sorted))
        (λ k.
          All-imp (λ z. nearer d number own z k ≡ false) (λ z. Farther d number own k z)
            (λ z. before-Farther own k z) (drop max_retained_objects sorted))
        (take max_retained_objects sorted)
        (IsSorted-split (nearer d number own) max_retained_objects sorted (
          sort_by-IsSorted (nearer d number own)
            (λ a b. before_asym (measure d number own a) (measure d number own b))
            (λ a b c.
              before_neg_trans (measure d number own a) (measure d number own b)
                (measure d number own c))
            objects)),
  )
    where
      sorted : List (TrafficObject N)
      sorted = sort_by (nearer d number own) objects

-- What happened to a store since the server started: the batch that it took last with the own
-- position it was cut down by, the instant of that batch and the instant of the last event. The
-- clock does not go back.
pub data History {N : Type 0} (d : Double N) (number : Number N)
    : List (TrafficObject N) → Option (N × N) → ℕ → ℕ → TrafficStore N → Type 0 where
  started : History d number [] none 0 0 empty_store
  replaced :
      (batch objects : List (TrafficObject N)) (own last_frame : Option (N × N)) (at last now : ℕ)
      (store : TrafficStore N)
      → last ≤ now
      → History d number batch own at last store
      → History d number objects last_frame now now
          (replace (apply_retention_cap d number objects last_frame) now store)
  was_read :
      (batch : List (TrafficObject N)) (own : Option (N × N)) (at last now : ℕ)
      (store : TrafficStore N)
      → last ≤ now
      → History d number batch own at last store
      → History d number batch own at now (read now store).1

module _ {N : Type 0} (d : Double N) (number : Number N) where
  -- The store holds the last batch as it was cut down, stamped with its instant, or was emptied
  -- because that instant is too long ago.
  abbrev Holds : List (TrafficObject N) → Option (N × N) → ℕ → ℕ → TrafficStore N → Type 0
  Holds batch own at last store =
      ((store.objects ≡ apply_retention_cap d number batch own) × (store.received_at ≡ at))
      ⊎ ((store.objects ≡ []) × (ltb (at + traffic_stale_ms) last ≡ true))

  empty_of_length : (xs : List (TrafficObject N)) → ltb 0 (length xs) ≡ false → xs ≡ []
  empty_of_length [] h = refl
  empty_of_length (x ∷ xs) h = ground arith

  read_empty :
      (now : ℕ) (store : TrafficStore N) → store.objects ≡ [] → read now store ≡ ([], store)
  unfolding read
  read_empty now store e = rw e refl

  -- What a read answers, and that the store it leaves still holds the batch.
  read-Holds :
      (batch : List (TrafficObject N)) (own : Option (N × N)) (at last now : ℕ)
      (store : TrafficStore N)
      → last ≤ now
      → Holds batch own at last store
      → ((read now store).0 ≡ (
          if ltb (at + traffic_stale_ms) now then [] else apply_retention_cap d number batch own))
        × Holds batch own at now (read now store).1
  read-Holds batch own at last now store m (inr (gone, old)) =
      let late : ltb (at + traffic_stale_ms) now ≡ true = ground arith in
      rw (read_empty now store gone, late) (refl, inr (gone, refl))
  read-Holds batch own at last now store m (inl (held, stamp)) =
      elim (Bool-cases (is_stale now store)) [
        | inl e ↦
            let late : ltb (at + traffic_stale_ms) now ≡ true = ground arith in
            unfold read in rw (e, late) (refl, inr (refl, refl))
        | inr e ↦ elim (Bool-cases (ltb (at + traffic_stale_ms) now)) [
          | inr t ↦ unfold read in rw (e, t) (held, inl (held, stamp))
          | inl t ↦
              let gone = empty_of_length store.objects (ground arith) in
              rw (read_empty now store gone, t) (refl, inl (held, stamp))
        ]
      ]

  History-Holds :
      (batch : List (TrafficObject N)) (own : Option (N × N)) (at last : ℕ) (store : TrafficStore N)
      → History d number batch own at last store
      → Holds batch own at last store
  unfolding replace apply_retention_cap
  History-Holds batch own at last store started = inl (refl, refl)
  History-Holds batch own at last store (replaced _ _ _ _ _ _ _ _ _ _) = inl (refl, refl)
  History-Holds batch own at last store (was_read b o a l now s m h) =
      (read-Holds b o a l now s m (History-Holds b o a l s h)).1

  -- Whatever batches and reads a store has seen, a read shows the batch that was taken last, cut
  -- down by the cap, until ten seconds after the instant of that batch, and nothing later than that;
  -- and what the cap leaves is 100 objects at most, all of the batch, none twice. The clock does not
  -- go back.
  pub read_shows_last_batch :
      (batch : List (TrafficObject N)) (own : Option (N × N)) (at last now : ℕ)
      (store : TrafficStore N)
      → last ≤ now
      → History d number batch own at last store
      → ((read now store).0 ≡ (
          if ltb (at + traffic_stale_ms) now then [] else apply_retention_cap d number batch own))
        × Kept batch (apply_retention_cap d number batch own)
        × (length (apply_retention_cap d number batch own) ≤ max_retained_objects)
  read_shows_last_batch batch own at last now store m h = (
    (read-Holds batch own at last now store m (History-Holds batch own at last store h)).0,
    cap-Kept d number batch own,
    cap-length_le d number batch own,
  )
