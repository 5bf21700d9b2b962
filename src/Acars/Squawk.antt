-- ===== src/Acars/Squawk.antt =====
-- A squawk is found for every leg (src/acars.ts).
use Prim.Native.String.{◌++◌}
use text.Mathlib.TextEquality.{eq_iff}
use text.Mathlib.TextLemmas.{append-nil, append_assoc, nil-append}
use msfslogger.Base.{
  ℕ, zero, suc, ◌+◌, ◌-◌, ◌*◌, ◌%◌, ◌<◌, true, false, some, ◌≡◌, ◌⊎◌, refl, sym, ap, ◌∙◌, inl, inr,
  arith, Bool-cases, String, str_eq,
}
use msfslogger.Base.Text.{
  digits_in, pad_start, repeated, text_length, scan, scan-digit, scan-digits_in,
}
use msfslogger.Acars.Clearance.{octal_code, is_reserved, free_code, code_text, squawk_for_leg}

scan-zeros : (k : ℕ) (t : String) → scan 8 0 (repeated k "0" ++ t) ≡ scan 8 0 t
scan-zeros zero t = ap (scan 8 0) (nil-append t)
scan-zeros (suc k) t =
    ap (scan 8 0) (append_assoc "0" (repeated k "0") t)
    ∙ scan-digit 8 0 0 (repeated k "0" ++ t) (omega arith)
    ∙ scan-zeros k t

-- A code reads as the number that it was written from.
scan-octal_code : (n : ℕ) → scan 8 0 (octal_code n) ≡ (n, "")
unfolding octal_code pad_start
scan-octal_code n =
    scan-zeros (4 - text_length (digits_in 8 (suc n) n)) (digits_in 8 (suc n) n)
    ∙ ap (scan 8 0) (sym (append-nil (digits_in 8 (suc n) n)))
    ∙ scan-digits_in 8 (suc n) n "" (omega arith) (omega arith) (omega arith)
    ∙ unfold scan in refl

code_is : (n : ℕ) (s : String) → str_eq (octal_code n) s ≡ true → n ≡ (scan 8 0 s).0
code_is n s h =
    ap (λ p. p.0) (sym (scan-octal_code n) ∙ ap (scan 8 0) ((eq_iff (octal_code n) s).0 h))

-- The numbers of the reserved codes.
reserved_numbers :
    (n : ℕ) → is_reserved (octal_code n) ≡ true → (n ≡ 0) ⊎ ((n ≡ 3904) ⊎ ((n ≡ 3968) ⊎ (n ≡ 4032)))
unfolding scan
reserved_numbers n h =
    ground (arith, h, code_is n "0000", code_is n "7500", code_is n "7600", code_is n "7700")

next_free :
    (n : ℕ)
    → (n ≡ 0) ⊎ ((n ≡ 3904) ⊎ ((n ≡ 3968) ⊎ (n ≡ 4032)))
    → is_reserved (octal_code ((n + 1) % 4096)) ≡ false
unfolding octal_code
next_free n (inl e) = rw e refl
next_free n (inr (inl e)) = rw e refl
next_free n (inr (inr (inl e))) = rw e refl
next_free n (inr (inr (inr e))) = rw e refl

free_code-kept :
    (rounds n : ℕ) → is_reserved (octal_code n) ≡ false → free_code (suc rounds) n ≡ some n
unfolding free_code
free_code-kept rounds n e = simp (free_code, e)

free_code-next :
    (rounds n : ℕ)
    → is_reserved (octal_code n) ≡ true
    → free_code (suc rounds) n ≡ free_code rounds ((n + 1) % 4096)
unfolding free_code
free_code-next rounds n e = simp (free_code, e)

-- However a product is rounded, the loop that avoids the reserved codes ends for every leg, after
-- one more round at most, with the code of a number below 4096 that is not reserved.
pub squawk_found :
    (to_double : ℕ → ℕ) (leg : ℕ)
    → (n : ℕ) × (n < 4096)
      × (squawk_for_leg to_double leg ≡ some (octal_code n))
      × (is_reserved (octal_code n) ≡ false)
squawk_found to_double leg =
    elim (Bool-cases (is_reserved (octal_code (to_double (leg * 2654435761) % 4096)))) [
      | inr e ↦ (
        to_double (leg * 2654435761) % 4096,
        omega arith,
        unfold squawk_for_leg in
            ap code_text (free_code-kept 1 (to_double (leg * 2654435761) % 4096) e),
        e,
      )
      | inl e ↦
          let free =
            next_free (to_double (leg * 2654435761) % 4096)
              (reserved_numbers (to_double (leg * 2654435761) % 4096) e) in
          (
            (to_double (leg * 2654435761) % 4096 + 1) % 4096,
            omega arith,
            unfold squawk_for_leg in
                ap code_text (
                  free_code-next 1 (to_double (leg * 2654435761) % 4096) e
                  ∙ free_code-kept 0 ((to_double (leg * 2654435761) % 4096 + 1) % 4096) free),
            free,
          )
    ]
