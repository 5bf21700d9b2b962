-- ===== src/Base/MapSet.antt =====
-- JavaScript's Map as the list of its entries: setting a key that is there replaces the entry
-- where it stands, and a new key goes to the end.
use Prim.Native.Nat.{◌≤◌}
use mathlib.Core.Path.{◌≡◌}
use mathlib.Core.Bool.{Bool, true, false}
use mathlib.Core.List.{List, [], ◌∷◌}
use mathlib.Core.Option.{some}
use native.Mathlib.Omega.{arith}
use msfslogger.Base.Tests.{if◌then◌else◌}
use msfslogger.Base.Lists.{count_where, first_where, All}

module _ {ℓ} {A : Type ℓ} where
  -- `map.set(key, v)`, where `same` tells the entry of the key.
  unfoldable pub map_set : (A → Bool) → A → List A → List A
  map_set same v [] = v ∷ []
  map_set same v (x ∷ xs) = let rest = map_set same v xs in if same x then v ∷ xs else x ∷ rest

  -- An entry that fails a test adds none that pass.
  pub count_where-map_set_le :
      (p q : A → Bool) (v : A)
      → p v ≡ false
      → (xs : List A) → count_where p (map_set q v xs) ≤ count_where p xs
  unfolding count_where map_set
  count_where-map_set_le p q v h [] = ground arith
  count_where-map_set_le p q v h (x ∷ xs) = ground (arith, count_where-map_set_le p q v h xs)

  -- One entry to a key stays one entry to a key.
  pub count_where-map_set_one :
      (p q : A → Bool) (v : A)
      → ((x : A) → p x ≡ q x)
      → (xs : List A) → count_where p xs ≤ 1
      → count_where p (map_set q v xs) ≤ 1
  unfolding count_where map_set
  count_where-map_set_one p q v h [] c = ground arith
  count_where-map_set_one p q v h (x ∷ xs) c =
      ground (arith, h x, count_where-map_set_one p q v h xs)

  -- What is found after a set: the new entry under its key.
  pub first_where-map_set_same :
      (p q : A → Bool) (v : A)
      → p v ≡ true
      → ((x : A) → p x ≡ q x)
      → (xs : List A) → first_where p (map_set q v xs) ≡ some v
  unfolding first_where map_set
  first_where-map_set_same p q v t h [] = ground arith
  first_where-map_set_same p q v t h (x ∷ xs) =
      ground (arith, h x, first_where-map_set_same p q v t h xs)

  -- And the old entry under any other key.
  pub first_where-map_set_other :
      (p q : A → Bool) (v : A)
      → p v ≡ false
      → ((x : A) → q x ≡ true → p x ≡ false)
      → (xs : List A) → first_where p (map_set q v xs) ≡ first_where p xs
  unfolding first_where map_set
  first_where-map_set_other p q v t h [] = ground arith
  first_where-map_set_other p q v t h (x ∷ xs) =
      ground (arith, h x, first_where-map_set_other p q v t h xs)

  pub All-map_set {κ} :
      (P : A → Type κ) (q : A → Bool) (v : A)
      → P v
      → (xs : List A) → All P xs
      → All P (map_set q v xs)
  unfolding map_set
  All-map_set P q v h [] a = (h, tt)
  All-map_set P q v h (x ∷ xs) a =
      All-if P (q x) (v ∷ xs) (x ∷ map_set q v xs) (h, a.1) (a.0, All-map_set P q v h xs a.1)
    where
      All-if :
          (P : A → Type κ) (b : Bool) (ys zs : List A)
          → All P ys
          → All P zs
          → All P (if b then ys else zs)
      All-if P true ys zs y z = y
      All-if P false ys zs y z = z
