-- ===== src/Base/Text.antt =====
-- Texts as JavaScript builds them: decimals, padding and joining, lengths in UTF-16 units.
use Prim.Native.Nat.{ℕ, zero, suc, ◌+◌, ◌-◌, ◌*◌, ◌/◌, ◌%◌, ◌≤◌, ◌<◌}
use Prim.Native.Char.{Char, code}
use Prim.Native.String.{String, ◌++◌}
use text.Mathlib.TextLemmas.{cons-append, nil-append, append_assoc}
use mathlib.Core.Path.{◌≡◌, refl, ◌∙◌, ap}
use mathlib.Core.Logic.{inl, inr}
use mathlib.Core.Bool.{Bool, ◌&&◌}
use mathlib.Core.List.{List, [], ◌∷◌}
use native.Mathlib.Nat.{div-add-mod, mod-lt, div-lt_self, mul_comm}
use native.Mathlib.Omega.{arith}
use msfslogger.Base.Tests.{if◌then◌else◌, ltb, leb, Bool-cases}

-- String(d) of a digit.
abbrev pub digit : ℕ → String
digit zero = "0"
digit (suc zero) = "1"
digit (suc (suc zero)) = "2"
digit (suc (suc (suc zero))) = "3"
digit (suc (suc (suc (suc zero)))) = "4"
digit (suc (suc (suc (suc (suc zero))))) = "5"
digit (suc (suc (suc (suc (suc (suc zero)))))) = "6"
digit (suc (suc (suc (suc (suc (suc (suc zero))))))) = "7"
digit (suc (suc (suc (suc (suc (suc (suc (suc zero)))))))) = "8"
digit (suc (suc (suc (suc (suc (suc (suc (suc (suc d))))))))) = "9"

-- The digits of a number to a base, the last digit last; a number has no more digits than `fuel`.
unfoldable pub digits_in : ℕ → ℕ → ℕ → String
digits_in base zero n = ""
digits_in base (suc fuel) n =
    let rest = digits_in base fuel (n / base) in
    if ltb n base then digit n else rest ++ digit (n % base)

-- String(n), `${n}`
unfoldable pub decimal : ℕ → String
unfolding digits_in
decimal n = digits_in 10 (suc n) n

-- `s.length`: a character beyond the basic plane has two units.
abbrev pub units : Char → ℕ
units c = if ltb (code c) 65536 then 1 else 2

unfoldable pub text_length : String → ℕ
text_length String.[] = 0
text_length (String.◌∷◌ c s) = units c + text_length s

-- `s.slice(0, n)`; a character of two units that does not fit is dropped whole.
unfoldable pub slice_to : ℕ → String → String
slice_to n String.[] = ""
slice_to n (String.◌∷◌ c s) =
    let rest = slice_to (n - units c) s in if leb (units c) n then String.◌∷◌ c rest else ""

-- `fill` so many times
abbrev pub repeated : ℕ → String → String
repeated zero fill = ""
repeated (suc n) fill = fill ++ repeated n fill

-- `s.padStart(width, fill)` and `s.padEnd(width, fill)` with a fill of one unit.
unfoldable pub pad_start : ℕ → String → String → String
unfolding text_length
pad_start width fill s = repeated (width - text_length s) fill ++ s

unfoldable pub pad_end : ℕ → String → String → String
unfolding text_length
pad_end width fill s = s ++ repeated (width - text_length s) fill

-- `parts.join(separator)`
unfoldable pub join : String → List String → String
join separator [] = ""
join separator (s ∷ []) = s
join separator (s ∷ t ∷ ts) = s ++ (separator ++ join separator (t ∷ ts))

-- Reading digits from the front, until something else comes.
abbrev pub is_digit : Char → Bool
is_digit c = leb 48 (code c) && leb (code c) 57

unfoldable pub scan : ℕ → ℕ → String → ℕ × String
scan base n String.[] = (n, "")
scan base n (String.◌∷◌ c s) =
    let rest = scan base (n * base + (code c - 48)) s in
    if is_digit c then rest else (n, String.◌∷◌ c s)

pub scan-digit :
    (base d n : ℕ) (t : String) → d ≤ 9 → scan base n (digit d ++ t) ≡ scan base (n * base + d) t
unfolding scan
scan-digit base zero n t h = rw (cons-append, nil-append) refl
scan-digit base (suc zero) n t h = rw (cons-append, nil-append) refl
scan-digit base (suc (suc zero)) n t h = rw (cons-append, nil-append) refl
scan-digit base (suc (suc (suc zero))) n t h = rw (cons-append, nil-append) refl
scan-digit base (suc (suc (suc (suc zero)))) n t h = rw (cons-append, nil-append) refl
scan-digit base (suc (suc (suc (suc (suc zero))))) n t h = rw (cons-append, nil-append) refl
scan-digit base (suc (suc (suc (suc (suc (suc zero)))))) n t h = rw (cons-append, nil-append) refl
scan-digit base (suc (suc (suc (suc (suc (suc (suc zero))))))) n t h =
    rw (cons-append, nil-append) refl
scan-digit base (suc (suc (suc (suc (suc (suc (suc (suc zero)))))))) n t h =
    rw (cons-append, nil-append) refl
scan-digit base (suc (suc (suc (suc (suc (suc (suc (suc (suc zero))))))))) n t h =
    rw (cons-append, nil-append) refl
scan-digit base (suc (suc (suc (suc (suc (suc (suc (suc (suc (suc d)))))))))) n t h =
    absurd (omega arith)

-- What is scanned of a number is the number, and the scan stops behind it.
pub scan-digits_in :
    (base fuel n : ℕ) (t : String)
    → 2 ≤ base
    → base ≤ 10
    → n < fuel
    → scan base 0 (digits_in base fuel n ++ t) ≡ scan base n t
unfolding digits_in
scan-digits_in base zero n t b c h = absurd (omega arith)
scan-digits_in base (suc fuel) n t b c h = elim (Bool-cases (ltb n base)) [
  | inl e ↦ rw e (scan-digit base n 0 t (ground arith) ∙ ap (λ k. scan base k t) (omega arith))
  | inr e ↦ rw e (
      ap (scan base 0) (append_assoc (digits_in base fuel (n / base)) (digit (n % base)) t)
      ∙ scan-digits_in base fuel (n / base) (digit (n % base) ++ t) b c
          (omega (arith, div-lt_self {n = n} {k = base} (ground arith) b))
      ∙ scan-digit base (n % base) (n / base) t (omega (arith, mod-lt n {m = base} (omega arith)))
      ∙ ap (λ k. scan base k t) (rw (mul_comm (n / base) base) (div-add-mod n base)))
]

-- A number is read back from its decimal, whatever follows that is no digit.
pub scan-decimal : (n : ℕ) (t : String) → scan 10 0 (decimal n ++ t) ≡ scan 10 n t
unfolding decimal
scan-decimal n t = scan-digits_in 10 (suc n) n t (omega arith) (omega arith) (omega arith)
