-- ===== src/Traffic/Batches.antt =====
-- A traffic batch that passes its checks (buildTrafficObjects() of src/ingest.ts): each id once,
-- with the values that came last.
use mathlib.Core.List.{append-nil, append_assoc}
use mathlib.Core.Option.{some-injective}
use msfslogger.Base.{
  ℕ, suc, ◌≤◌, true, false, Option, none, some, List, [], ◌∷◌, ◌++◌, map, ◌≡◌, refl, ap, sym, ◌∙◌,
  inl, inr, arith, if◌then◌else◌, Bool-cases, Option-cases, ltb, length, first_where, count_where,
}
use msfslogger.Base.Double.{Double}
use msfslogger.Base.Number.{Number}
use msfslogger.Base.Json.{Json, Fields, obj, as_array, get_field}
use msfslogger.Base.MapSet.{
  map_set, count_where-map_set_le, count_where-map_set_one, first_where-map_set_same,
  first_where-map_set_other,
}
use msfslogger.Traffic.{
  TrafficObject, TrafficBatchResult, accepted, not_object, no_array, too_many, invalid_at,
  max_batch_objects, has_id, set_all, traffic_element, check_elements, build_traffic_objects,
}

module _ {N : Type 0} where
  -- The last object of a list that has the id, or else what is given.
  abbrev pub last_seen :
      ℕ → Option (TrafficObject N) → List (TrafficObject N) → Option (TrafficObject N)
  last_seen i found [] = found
  last_seen i found (x ∷ xs) = last_seen i (if has_id i x then some x else found) xs

  has_id_same :
      (i : ℕ) (v : TrafficObject N)
      → has_id i v ≡ true
      → (x : TrafficObject N) → has_id i x ≡ has_id v.id x
  has_id_same i v h x = ground arith

  has_id_other :
      (i : ℕ) (v : TrafficObject N)
      → has_id i v ≡ false
      → (x : TrafficObject N) → has_id v.id x ≡ true
      → has_id i x ≡ false
  has_id_other i v h x e = ground arith

  find_after_set :
      (i : ℕ) (v : TrafficObject N) (by_id : List (TrafficObject N))
      → first_where (has_id i) (map_set (has_id v.id) v by_id)
        ≡ (if has_id i v then some v else first_where (has_id i) by_id)
  find_after_set i v by_id = elim (Bool-cases (has_id i v)) [
    | inl e ↦ rw e (first_where-map_set_same (has_id i) (has_id v.id) v e (has_id_same i v e) by_id)
    | inr e ↦
        rw e (first_where-map_set_other (has_id i) (has_id v.id) v e (has_id_other i v e) by_id)
  ]

  set_all-last_seen :
      (i : ℕ) (by_id xs : List (TrafficObject N))
      → first_where (has_id i) (set_all by_id xs) ≡ last_seen i (first_where (has_id i) by_id) xs
  unfolding set_all
  set_all-last_seen i by_id [] = refl
  set_all-last_seen i by_id (x ∷ xs) =
      set_all-last_seen i (map_set (has_id x.id) x by_id) xs
      ∙ ap (λ o. last_seen i o xs) (find_after_set i x by_id)

  set_one :
      (i : ℕ) (v : TrafficObject N) (by_id : List (TrafficObject N))
      → count_where (has_id i) by_id ≤ 1
      → count_where (has_id i) (map_set (has_id v.id) v by_id) ≤ 1
  set_one i v by_id c = elim (Bool-cases (has_id i v)) [
    | inl e ↦ count_where-map_set_one (has_id i) (has_id v.id) v (has_id_same i v e) by_id c
    | inr e ↦ omega (arith, count_where-map_set_le (has_id i) (has_id v.id) v e by_id)
  ]

  set_all_one :
      (i : ℕ) (by_id xs : List (TrafficObject N))
      → count_where (has_id i) by_id ≤ 1
      → count_where (has_id i) (set_all by_id xs) ≤ 1
  unfolding set_all
  set_all_one i by_id [] c = c
  set_all_one i by_id (x ∷ xs) c =
      set_all_one i (map_set (has_id x.id) x by_id) xs (set_one i x by_id c)

  -- The objects of an answer.
  abbrev objects_of : TrafficBatchResult N → Option (List (TrafficObject N))
  objects_of (accepted xs) = some xs
  objects_of not_object = none
  objects_of no_array = none
  objects_of too_many = none
  objects_of (invalid_at i) = none

  accepted-injective : {xs ys : List (TrafficObject N)} → accepted xs ≡ accepted ys → xs ≡ ys
  accepted-injective {xs} {ys} h = some-injective xs ys (ap objects_of h)

module _ {N : Type 0} (d : Double N) (number : Number N) where
  -- Every element of the array is valid, and `xs` are their stored shapes.
  abbrev pub AreValid : List (Json N) → List (TrafficObject N) → Type 0
  AreValid js xs = map (traffic_element d number) js ≡ map some xs

  check_elements-accepted :
      (i : ℕ) (done : List (TrafficObject N)) (js : List (Json N))
      (objects : List (TrafficObject N))
      → check_elements d number i done js ≡ accepted objects
      → (xs : List (TrafficObject N)) × AreValid js xs × (objects ≡ set_all [] (done ++ xs))
  unfolding check_elements
  check_elements-accepted i done [] objects h =
      ([], refl, rw (append-nil done) (sym (accepted-injective h)))
  check_elements-accepted i done (json ∷ rest) objects h =
      elim (Option-cases (traffic_element d number json)) [
        | inl e ↦
            let refused : invalid_at i ≡ accepted objects = rw (check_elements, e) at h in
            absurd (ground arith)
        | inr (x, e) ↦
            let (xs, valid, shape) =
              check_elements-accepted (suc i) (done ++ x ∷ []) rest objects
                (rw (check_elements, e) at h) in
            (x ∷ xs, rw (e, valid) refl, shape ∙ ap (set_all []) (append_assoc done (x ∷ []) xs))
      ]

  -- A batch is accepted only when each of at most 200 elements is valid; then every id occurs once
  -- at most, and stands for the last element that has it.
  pub accepted_batch :
      (fields : Fields N) (js : List (Json N)) (objects : List (TrafficObject N))
      → as_array (get_field "objects" fields) ≡ some js
      → build_traffic_objects d number (obj fields) ≡ accepted objects
      → (xs : List (TrafficObject N)) × AreValid js xs
        × (length js ≤ max_batch_objects)
        × ((i : ℕ) → count_where (has_id i) objects ≤ 1)
        × ((i : ℕ) → first_where (has_id i) objects ≡ last_seen i none xs)
  unfolding build_traffic_objects
  accepted_batch fields js objects a h = elim (Bool-cases (ltb max_batch_objects (length js))) [
    | inl e ↦
        let refused : too_many ≡ accepted objects = rw (build_traffic_objects, a, e) at h in
        absurd (ground arith)
    | inr e ↦
        let (xs, valid, shape) =
          check_elements-accepted 0 [] js objects (rw (build_traffic_objects, a, e) at h) in
        (
          xs,
          valid,
          ground arith,
          λ i. rw shape (set_all_one i [] xs (unfold count_where in ground arith)),
          λ i. rw shape (set_all-last_seen i [] xs ∙ unfold first_where in refl),
        )
  ]
