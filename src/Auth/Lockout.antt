-- ===== src/Auth/Lockout.antt =====
-- Ten failed logins from one address close the door for the rest of the window
-- (src/auth/middleware.ts, src/auth/routes.ts).
use text.Mathlib.TextEquality.{eq_iff}
use msfslogger.Base.{
  ℕ, suc, ◌+◌, ◌≤◌, ◌<◌, Bool, true, false, Option, none, some, ◌≡◌, refl, ◌∙◌, inl, inr, arith,
  Bool-cases, String, str_eq, ltb, length, first_where,
}
use msfslogger.Base.Unique.{first_where-delete_ne, first_where-delete_other}
use msfslogger.Base.MapSet.{first_where-map_set_same, first_where-map_set_other}
use msfslogger.Settings.{AuthUserRow}
use msfslogger.Auth.Login.{
  window_ms, max_failures, max_entries, ThrottleEntry, of_ip, has_elapsed, LoginThrottle, sweep,
  wait_sec, check_entry, check, failed_entry, record_failure, record_success, Login, too_many,
  throttled, login,
}

-- The entry of an address with so many failures since an instant.
abbrev pub entry : String → ℕ → ℕ → ThrottleEntry
entry ip count window_start = record { ip = ip; count = count; window_start = window_start }

-- What the throttle has seen since the first failure of `ip` at `start`: so many failures of this
-- address, and whatever other addresses did, all before the window is over.
pub data Attempts (ip : String) (start : ℕ) : ℕ → LoginThrottle → Type 0 where
  first_failed :
      (t : LoginThrottle)
      → first_where (of_ip ip) t ≡ none
      → Attempts ip start 1 (record_failure ip start t)
  failed_again :
      (n now : ℕ) (t : LoginThrottle)
      → now < start + window_ms
      → Attempts ip start n t
      → Attempts ip start (suc n) (record_failure ip now t)
  other_failed :
      (n now : ℕ) (other : String) (t : LoginThrottle)
      → str_eq other ip ≡ false
      → Attempts ip start n t
      → Attempts ip start n (record_failure other now t)
  other_succeeded :
      (n : ℕ) (other : String) (t : LoginThrottle)
      → str_eq other ip ≡ false
      → Attempts ip start n t
      → Attempts ip start n (record_success other t)
  was_checked :
      (n now : ℕ) (any : String) (t : LoginThrottle)
      → now < start + window_ms
      → Attempts ip start n t
      → Attempts ip start n (check any now t).1

of_ip_other :
    (ip other : String) (e : ThrottleEntry)
    → str_eq other ip ≡ false
    → of_ip other e ≡ true
    → of_ip ip e ≡ false
of_ip_other ip other e h k = ground (arith, eq_iff other ip, eq_iff e.ip ip, eq_iff e.ip other)

of_ip_self : (ip : String) (n t : ℕ) → of_ip ip (entry ip n t) ≡ true
of_ip_self ip n t = (eq_iff ip ip).1 refl

of_failed_entry :
    (ip : String) (now : ℕ) (e : Option ThrottleEntry) → (failed_entry ip now e).ip ≡ ip
unfolding failed_entry
of_failed_entry ip now none = refl
of_failed_entry ip now (some e) = ground arith

-- A sweep keeps an entry whose window is not over.
sweep-keeps :
    (ip : String) (n start now : ℕ) (t : LoginThrottle)
    → now < start + window_ms
    → first_where (of_ip ip) t ≡ some (entry ip n start)
    → first_where (of_ip ip) (sweep now t) ≡ some (entry ip n start)
unfolding sweep
sweep-keeps ip n start now t h e = elim (Bool-cases (ltb max_entries (length t))) [
  | inl c ↦
      rw c (
        first_where-delete_other (of_ip ip) (has_elapsed now) t (entry ip n start) e (ground arith))
  | inr c ↦ rw c e
]

-- And so does a check of another address.
check_other-keeps :
    (ip other : String) (now : ℕ) (found : Option ThrottleEntry) (t : LoginThrottle)
    → str_eq other ip ≡ false
    → first_where (of_ip ip) (check_entry other now found t).1 ≡ first_where (of_ip ip) t
unfolding check_entry
check_other-keeps ip other now none t o = refl
check_other-keeps ip other now (some e) t o = elim (Bool-cases (has_elapsed now e)) [
  | inl h ↦ rw h (first_where-delete_ne (of_ip ip) (of_ip other) (λ x p. not_other x p) t)
  | inr h ↦ ground (arith, h)
]
  where
    not_other : (x : ThrottleEntry) → of_ip ip x ≡ true → of_ip other x ≡ false
    not_other x p = ground (arith, eq_iff other ip, eq_iff x.ip ip, eq_iff x.ip other)

check_own-keeps :
    (ip : String) (n start now : ℕ) (t : LoginThrottle)
    → now < start + window_ms
    → (check_entry ip now (some (entry ip n start)) t).1 ≡ t
unfolding check_entry
check_own-keeps ip n start now t h = ground arith

check-keeps :
    (ip any : String) (n start now : ℕ) (t : LoginThrottle)
    → now < start + window_ms
    → first_where (of_ip ip) t ≡ some (entry ip n start)
    → first_where (of_ip ip) (check any now t).1 ≡ some (entry ip n start)
unfolding check
check-keeps ip any n start now t h e =
    let kept = sweep-keeps ip n start now t h e in
    elim (Bool-cases (str_eq any ip)) [
      | inr o ↦
          check_other-keeps ip any now (first_where (of_ip any) (sweep now t)) (sweep now t) o
          ∙ kept
      | inl s ↦ rw ((eq_iff any ip).0 s, kept, check_own-keeps ip n start now (sweep now t) h) kept
    ]

failed-counted :
    (ip : String) (now : ℕ) (e : ThrottleEntry) (t : LoginThrottle)
    → failed_entry ip now (first_where (of_ip ip) t) ≡ e
    → of_ip ip e ≡ true
    → first_where (of_ip ip) (record_failure ip now t) ≡ some e
unfolding record_failure
failed-counted ip now e t f o =
    rw f (first_where-map_set_same (of_ip ip) (of_ip ip) e o (λ x. refl) t)

failed_other-keeps :
    (ip other : String) (now : ℕ) (t : LoginThrottle)
    → str_eq other ip ≡ false
    → first_where (of_ip ip) (record_failure other now t) ≡ first_where (of_ip ip) t
unfolding record_failure
failed_other-keeps ip other now t o =
    first_where-map_set_other (of_ip ip) (of_ip other)
      (failed_entry other now (first_where (of_ip other) t))
      (of_ip_other ip other (failed_entry other now (first_where (of_ip other) t)) o (
        rw (of_failed_entry other now (first_where (of_ip other) t)) ((eq_iff other other).1 refl)))
      (λ x. of_ip_other ip other x o) t

-- The entry of the address counts its failures, from the first one on.
pub Attempts-counted :
    (ip : String) (start n : ℕ) (t : LoginThrottle)
    → Attempts ip start n t
    → first_where (of_ip ip) t ≡ some (entry ip n start)
unfolding failed_entry record_success
Attempts-counted ip start n t (first_failed t₀ new) =
    failed-counted ip start (entry ip 1 start) t₀ (rw (new, failed_entry) refl)
      (of_ip_self ip 1 start)
Attempts-counted ip start n t (failed_again m now t₀ h a) =
    failed-counted ip now (entry ip (suc m) start) t₀
      (rw (Attempts-counted ip start m t₀ a) (counts m now h)) (of_ip_self ip (suc m) start)
  where
    counts :
        (m now : ℕ)
        → now < start + window_ms
        → failed_entry ip now (some (entry ip m start)) ≡ entry ip (suc m) start
    counts m now h = unfold failed_entry in ground arith
Attempts-counted ip start n t (other_failed m now other t₀ o a) =
    failed_other-keeps ip other now t₀ o ∙ Attempts-counted ip start m t₀ a
Attempts-counted ip start n t (other_succeeded m other t₀ o a) =
    first_where-delete_other (of_ip ip) (of_ip other) t₀ (entry ip m start)
      (Attempts-counted ip start m t₀ a)
      (ground (arith, o, eq_iff other ip, eq_iff ip other, eq_iff ip ip))
Attempts-counted ip start n t (was_checked m now any t₀ h a) =
    check-keeps ip any m start now t₀ h (Attempts-counted ip start m t₀ a)

-- After ten failed logins from an address, a login from there with whatever name and password,
-- at an instant within fifteen minutes of the first failure, is answered that it comes too early,
-- with a wait of 1 to 900 seconds, whatever other addresses did in between.
pub ten_failures_lock :
    (verify : String → String → Bool) (user : Option AuthUserRow) (l : Login) (c : String × String)
    (start : ℕ) (t : LoginThrottle)
    → Attempts l.ip start max_failures t
    → l.credentials ≡ some c
    → start ≤ l.now
    → l.now < start + window_ms
    → (wait : ℕ) × ((login verify user l t).0 ≡ too_many wait) × (1 ≤ wait) × (wait ≤ 900)
unfolding login check
ten_failures_lock verify user l c start t a k lo hi =
    let kept =
      sweep-keeps l.ip max_failures start l.now t hi
        (Attempts-counted l.ip start max_failures t a) in
    rw (k, kept) (locked (sweep l.now t))
  where
    locked :
        (s : LoginThrottle)
        → (wait : ℕ) × ((throttled verify user l c
              (check_entry l.ip l.now (some (entry l.ip max_failures start)) s)).0
            ≡ too_many wait)
          × (1 ≤ wait)
          × (wait ≤ 900)
    locked s = (
      wait_sec l.now (entry l.ip max_failures start),
      unfold throttled in unfold check_entry in ground arith,
      unfold wait_sec in ground arith,
      unfold wait_sec in ground arith,
    )
