-- ===== src/Base/Unique.antt =====
-- Tables in which a test picks at most one row: what a UNIQUE index or a primary key gives.
use Prim.Native.Nat.{◌+◌, ◌≤◌}
use mathlib.Core.Path.{◌≡◌, refl}
use mathlib.Core.Logic.{inl, inr}
use mathlib.Core.Bool.{Bool, true, false}
use mathlib.Core.List.{List, [], ◌∷◌, ◌++◌}
use mathlib.Core.Option.{some}
use native.Mathlib.Omega.{arith}
use msfslogger.Base.Tests.{if◌then◌else◌, Bool-cases}
use msfslogger.Base.Table.{count_where-update_le}
use msfslogger.Base.Lists.{count_where, update_where, delete_where, first_where, All}

module _ {ℓ} {A : Type ℓ} where
  pub All-of_count_zero {κ} :
      (P : A → Type κ) (q : A → Bool) (xs : List A)
      → count_where q xs ≡ 0
      → All (λ x. q x ≡ true → P x) xs
  unfolding count_where
  All-of_count_zero P q [] h = tt
  All-of_count_zero P q (x ∷ xs) h = elim (Bool-cases (q x)) [
    | inl e ↦ absurd (ground arith)
    | inr e ↦ (λ t. absurd (ground arith), All-of_count_zero P q xs (ground arith))
  ]

  pub count_where-pos_of_first :
      (p q : A → Bool) (xs : List A) (y : A)
      → first_where p xs ≡ some y
      → q y ≡ true
      → 1 ≤ count_where q xs
  unfolding count_where first_where
  count_where-pos_of_first p q [] y e t = ground arith
  count_where-pos_of_first p q (x ∷ xs) y e t = ground (arith, count_where-pos_of_first p q xs y)

  -- The row found by one test is the only row that passes another, where that one is unique.
  pub All-only :
      (p q : A → Bool) (xs : List A) (y : A)
      → count_where q xs ≤ 1
      → first_where p xs ≡ some y
      → q y ≡ true
      → All (λ x. q x ≡ true → x ≡ y) xs
  unfolding count_where first_where
  All-only p q [] y c e t = tt
  All-only p q (x ∷ xs) y c e t = elim (Bool-cases (p x)) [
    | inl px ↦ (λ h. ground arith, All-of_count_zero (λ z. z ≡ y) q xs (ground arith))
    | inr px ↦ elim (Bool-cases (q x)) [
      | inl qx ↦ absurd (ground (arith, count_where-pos_of_first p q xs y))
      | inr qx ↦ (λ h. ground arith, All-only p q xs y (ground arith) (ground arith) t)
    ]
  ]

  pub first_where-delete_ne :
      (p q : A → Bool)
      → ((x : A) → p x ≡ true → q x ≡ false)
      → (xs : List A) → first_where p (delete_where q xs) ≡ first_where p xs
  unfolding first_where delete_where
  first_where-delete_ne p q h [] = refl
  first_where-delete_ne p q h (x ∷ xs) = ground (arith, h x, first_where-delete_ne p q h xs)

  -- A row that is not deleted is found as before.
  pub first_where-delete_other :
      (p q : A → Bool) (xs : List A) (y : A)
      → first_where p xs ≡ some y
      → q y ≡ false
      → first_where p (delete_where q xs) ≡ some y
  unfolding first_where delete_where
  first_where-delete_other p q [] y e h = e
  first_where-delete_other p q (x ∷ xs) y e h = ground (arith, e, first_where-delete_other p q xs y)

  -- Two updates, row by row.
  pub All-update_twice {κ μ} :
      (P : A → Type κ) (Q : A → Type μ) (q r : A → Bool) (f g : A → A)
      → ((x : A) → P x → let y = if q x then f x else x in Q (if r y then g y else y))
      → (xs : List A) → All P xs
      → All Q (update_where r g (update_where q f xs))
  unfolding update_where
  All-update_twice P Q q r f g h [] a = tt
  All-update_twice P Q q r f g h (x ∷ xs) a = (h x a.0, All-update_twice P Q q r f g h xs a.1)

  pub All-and {κ μ} :
      (P : A → Type κ) (Q : A → Type μ) (xs : List A)
      → All P xs
      → All Q xs
      → All (λ x. P x × Q x) xs
  All-and P Q [] a b = tt
  All-and P Q (x ∷ xs) a b = ((a.0, b.0), All-and P Q xs a.1 b.1)

  -- Where nothing passes yet, the first row to pass after an update is the first that it writes.
  pub first_where-update_fresh :
      (p q : A → Bool) (f : A → A) (xs : List A) (y : A)
      → ((x : A) → q x ≡ true → p (f x) ≡ true)
      → count_where p xs ≡ 0
      → first_where q xs ≡ some y
      → first_where p (update_where q f xs) ≡ some (f y)
  unfolding count_where first_where update_where
  first_where-update_fresh p q f [] y h c e = ground arith
  first_where-update_fresh p q f (x ∷ xs) y h c e =
      ground (arith, h x, first_where-update_fresh p q f xs y h)

  pub update_none :
      (q : A → Bool) (f : A → A) (xs : List A) → count_where q xs ≡ 0 → update_where q f xs ≡ xs
  unfolding update_where count_where
  update_none q f [] h = refl
  update_none q f (x ∷ xs) h = ground (arith, update_none q f xs)

  pub All-three {κ μ ν} :
      (P : A → Type κ) (Q : A → Type μ) (R : A → Type ν) (xs : List A)
      → All P xs
      → All Q xs
      → All R xs
      → All (λ x. P x × Q x × R x) xs
  All-three P Q R [] a b c = tt
  All-three P Q R (x ∷ xs) a b c = ((a.0, b.0, c.0), All-three P Q R xs a.1 b.1 c.1)

  -- A write that makes the row found fail leaves one fewer.
  pub count_where-update_lt :
      (p q : A → Bool) (f : A → A) (xs : List A) (y : A)
      → ((x : A) → q x ≡ true → p (f x) ≡ false)
      → first_where p xs ≡ some y
      → q y ≡ true
      → 1 + count_where p (update_where q f xs) ≤ count_where p xs
  unfolding count_where first_where update_where
  count_where-update_lt p q f [] y h e t = ground arith
  count_where-update_lt p q f (x ∷ xs) y h e t = ground (
    arith,
    h x,
    count_where-update_lt p q f xs y h,
    count_where-update_le p q f (λ z w v. absurd (ground (arith, h z))) xs,
  )

  -- The row just appended is found by its fresh key.
  pub first_where-append_fresh :
      (p : A → Bool) (xs : List A) (y : A)
      → count_where p xs ≡ 0
      → p y ≡ true
      → first_where p (xs ++ y ∷ []) ≡ some y
  unfolding count_where first_where
  first_where-append_fresh p [] y c t = ground arith
  first_where-append_fresh p (x ∷ xs) y c t = ground (arith, first_where-append_fresh p xs y)

  pub first_where-append_found :
      (p : A → Bool) (xs ys : List A) (y : A)
      → first_where p xs ≡ some y
      → first_where p (xs ++ ys) ≡ some y
  unfolding first_where
  first_where-append_found p [] ys y e = ground arith
  first_where-append_found p (x ∷ xs) ys y e = ground (arith, first_where-append_found p xs ys y)

  pub first_where_unique :
      (p q : A → Bool) (xs : List A) (y : A)
      → count_where q xs ≤ 1
      → first_where p xs ≡ some y
      → q y ≡ true
      → first_where q xs ≡ some y
  unfolding count_where first_where
  first_where_unique p q [] y c e t = ground arith
  first_where_unique p q (x ∷ xs) y c e t =
      ground (arith, first_where_unique p q xs y, count_where-pos_of_first p q xs y)
