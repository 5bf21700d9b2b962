-- ===== src/Base/Table.antt =====
-- Laws of the queries and updates of `Lists`, for the invariants of tables.
use Prim.Native.Nat.{◌+◌, ◌≤◌}
use mathlib.Core.Path.{◌≡◌, refl, subst}
use mathlib.Core.Logic.{inl, inr}
use mathlib.Core.Bool.{Bool, true, false}
use mathlib.Core.List.{List, [], ◌∷◌, ◌++◌}
use mathlib.Core.Option.{none, some, some-injective}
use native.Mathlib.Omega.{arith}
use msfslogger.Base.Tests.{if◌then◌else◌, Bool-cases}
use msfslogger.Base.Lists.{count_where, update_where, delete_where, first_where, All}

module _ {ℓ} {A : Type ℓ} where
  -- An update that never makes a row pass adds none that do.
  pub count_where-update_le :
      (p q : A → Bool) (f : A → A)
      → ((x : A) → q x ≡ true → p (f x) ≡ true → p x ≡ true)
      → (xs : List A) → count_where p (update_where q f xs) ≤ count_where p xs
  unfolding count_where update_where
  count_where-update_le p q f h [] = omega arith
  count_where-update_le p q f h (x ∷ xs) = ground (arith, h x, count_where-update_le p q f h xs)

  -- An update adds at most the rows that it writes.
  pub count_where-update_le_add :
      (p q : A → Bool) (f : A → A) (xs : List A)
      → count_where p (update_where q f xs) ≤ count_where p xs + count_where q xs
  unfolding count_where update_where
  count_where-update_le_add p q f [] = omega arith
  count_where-update_le_add p q f (x ∷ xs) = ground (arith, count_where-update_le_add p q f xs)

  -- An update that leaves a test alone leaves its count alone.
  pub count_where-update_eq :
      (p q : A → Bool) (f : A → A)
      → ((x : A) → q x ≡ true → p (f x) ≡ p x)
      → (xs : List A) → count_where p (update_where q f xs) ≡ count_where p xs
  unfolding count_where update_where
  count_where-update_eq p q f h [] = refl
  count_where-update_eq p q f h (x ∷ xs) = ground (arith, h x, count_where-update_eq p q f h xs)

  -- After an update that makes every row it writes fail, and writes all that pass, none passes.
  pub count_where-update_zero :
      (p q : A → Bool) (f : A → A)
      → ((x : A) → q x ≡ true → p (f x) ≡ false)
      → ((x : A) → q x ≡ false → p x ≡ false)
      → (xs : List A) → count_where p (update_where q f xs) ≡ 0
  unfolding count_where update_where
  count_where-update_zero p q f h k [] = refl
  count_where-update_zero p q f h k (x ∷ xs) =
      ground (arith, h x, k x, count_where-update_zero p q f h k xs)

  pub count_where-append :
      (p : A → Bool) (xs ys : List A)
      → count_where p (xs ++ ys) ≡ count_where p xs + count_where p ys
  unfolding count_where
  count_where-append p [] ys = omega arith
  count_where-append p (x ∷ xs) ys = ground (arith, count_where-append p xs ys)

  pub count_where-delete_le :
      (p q : A → Bool) (xs : List A) → count_where p (delete_where q xs) ≤ count_where p xs
  unfolding count_where delete_where
  count_where-delete_le p q [] = omega arith
  count_where-delete_le p q (x ∷ xs) = ground (arith, count_where-delete_le p q xs)

  -- What is deleted is not there.
  pub count_where-deleted : (q : A → Bool) (xs : List A) → count_where q (delete_where q xs) ≡ 0
  unfolding count_where delete_where
  count_where-deleted q [] = refl
  count_where-deleted q (x ∷ xs) = ground (arith, count_where-deleted q xs)

  -- No first row is no row at all, and the other way round.
  pub count_where_of_first-none :
      (p : A → Bool) (xs : List A) → first_where p xs ≡ none → count_where p xs ≡ 0
  unfolding count_where first_where
  count_where_of_first-none p [] h = refl
  count_where_of_first-none p (x ∷ xs) h = ground (arith, count_where_of_first-none p xs)

  pub first_where-none_of_count :
      (p : A → Bool) (xs : List A) → count_where p xs ≡ 0 → first_where p xs ≡ none
  unfolding count_where first_where
  first_where-none_of_count p [] h = refl
  first_where-none_of_count p (x ∷ xs) h = ground (arith, first_where-none_of_count p xs)

  -- The row found passes the test.
  pub first_where_holds :
      (p : A → Bool) (xs : List A) (y : A) → first_where p xs ≡ some y → p y ≡ true
  unfolding first_where
  first_where_holds p [] y h = ground arith
  first_where_holds p (x ∷ xs) y h = ground (arith, first_where_holds p xs y)

  -- A query by a test that the update keeps finds the updated row.
  pub first_where-update :
      (p q : A → Bool) (f : A → A)
      → ((x : A) → q x ≡ true → p (f x) ≡ p x)
      → (xs : List A) (y : A) → first_where p xs ≡ some y
      → first_where p (update_where q f xs) ≡ some (if q y then f y else y)
  unfolding first_where update_where
  first_where-update p q f h [] y e = ground arith
  first_where-update p q f h (x ∷ xs) y e = ground (arith, h x, first_where-update p q f h xs y)

  pub first_where-update_none :
      (p q : A → Bool) (f : A → A)
      → ((x : A) → q x ≡ true → p (f x) ≡ p x)
      → (xs : List A) → first_where p xs ≡ none
      → first_where p (update_where q f xs) ≡ none
  unfolding first_where update_where
  first_where-update_none p q f h [] e = refl
  first_where-update_none p q f h (x ∷ xs) e =
      ground (arith, h x, first_where-update_none p q f h xs)

  -- A row that passes `p` and `q` cannot be missed by a table that holds no two such rows.
  pub All-update {κ} :
      (P : A → Type κ) (q : A → Bool) (f : A → A)
      → ((x : A) → q x ≡ true → P x → P (f x))
      → (xs : List A) → All P xs
      → All P (update_where q f xs)
  unfolding update_where
  All-update P q f h [] a = tt
  All-update P q f h (x ∷ xs) a = elim (Bool-cases (q x)) [
    | inl e ↦ rw e (h x e a.0, All-update P q f h xs a.1)
    | inr e ↦ rw e (a.0, All-update P q f h xs a.1)
  ]

  pub All-delete {κ} :
      (P : A → Type κ) (q : A → Bool) (xs : List A) → All P xs → All P (delete_where q xs)
  unfolding delete_where
  All-delete P q [] a = tt
  All-delete P q (x ∷ xs) a = elim (Bool-cases (q x)) [
    | inl e ↦ rw e (All-delete P q xs a.1)
    | inr e ↦ rw e (a.0, All-delete P q xs a.1)
  ]

  pub All-append {κ} : (P : A → Type κ) (xs ys : List A) → All P xs → All P ys → All P (xs ++ ys)
  All-append P [] ys a b = b
  All-append P (x ∷ xs) ys a b = (a.0, All-append P xs ys a.1 b)

  pub All-imp {κ μ} :
      (P : A → Type κ) (Q : A → Type μ)
      → ((x : A) → P x → Q x)
      → (xs : List A) → All P xs
      → All Q xs
  All-imp P Q h [] a = tt
  All-imp P Q h (x ∷ xs) a = (h x a.0, All-imp P Q h xs a.1)

  -- What holds of every row holds of the row found.
  pub All-first_where {κ} :
      (P : A → Type κ) (p : A → Bool) (xs : List A) (y : A)
      → All P xs
      → first_where p xs ≡ some y
      → P y
  unfolding first_where
  All-first_where P p [] y a e = absurd (ground arith)
  All-first_where P p (x ∷ xs) y a e = elim (Bool-cases (p x)) [
    | inl t ↦ let found : some x ≡ some y = rw t at e in subst P (some-injective x y found) a.0
    | inr t ↦ All-first_where P p xs y a.1 (rw t at e)
  ]
