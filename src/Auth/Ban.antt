-- ===== src/Auth/Ban.antt =====
-- The list of the stations that failed to log in.
use native.Mathlib.Nat.{mul-le-mul}
use lucidac_firmware.Common.{
  ℕ, ◌*◌, ◌<◌, ◌≤◌, ◌≡◌, refl, ◌==◌, leb, true, false, List, [], ◌∷◌, ◌++◌, Option, none, some,
  length, length-append, length-drop, drop, arith, All, Bool-cases, inl, inr,
}
use lucidac_firmware.Auth.{
  EndpointInformation, max_waiting_time, expired, remove_expired, clean, count_failure,
  failure_time,
}

remove_expired-length :
    (now : ℕ) (es : List EndpointInformation) → length (remove_expired now es) ≤ length es
remove_expired-length now [] = omega arith
remove_expired-length now (e ∷ es) =
    elim (Bool-cases (expired now e.last_failure max_waiting_time)) [
      | inl out ↦ rw out (omega (arith, remove_expired-length now es))
      | inr stay ↦ rw stay (omega (arith, remove_expired-length now es))
    ]

count_failure-length :
    (ip : ℕ) (es : List EndpointInformation) → length (count_failure ip es).0 ≡ length es
count_failure-length ip [] = refl
count_failure-length ip (e ∷ es) = elim (Bool-cases (e.ip == ip)) [
  | inl hit ↦ rw hit refl
  | inr miss ↦ rw miss (omega (arith, count_failure-length ip es))
]

clean-length :
    (now : ℕ) (es : List EndpointInformation) → length es ≤ 20 → length (clean now es) < 20
unfolding clean
clean-length now es h = elim (Bool-cases (leb 20 (length es))) [
  | inl full ↦
      rw full
        (omega (arith, remove_expired-length now (drop 1 es), length-drop 1 es, full_lem full))
  | inr room ↦ rw room (omega (arith, remove_expired-length now es, room_lem room))
]
  where
    full_lem : leb 20 (length es) ≡ true → 20 ≤ length es
    full_lem e = ground arith

    room_lem : leb 20 (length es) ≡ false → length es < 20
    room_lem e = ground arith

-- A counter of failures is a `uint8_t`.
abbrev pub IsCounter : EndpointInformation → Type 0
IsCounter e = e.failures < 256

remove_expired-All :
    (now : ℕ) (es : List EndpointInformation)
    → All IsCounter es
    → All IsCounter (remove_expired now es)
remove_expired-All now [] h = tt
remove_expired-All now (e ∷ es) (he, h) =
    elim (Bool-cases (expired now e.last_failure max_waiting_time)) [
      | inl out ↦ rw out (remove_expired-All now es h)
      | inr stay ↦ rw stay (he, remove_expired-All now es h)
    ]

clean-All :
    (now : ℕ) (es : List EndpointInformation) → All IsCounter es → All IsCounter (clean now es)
unfolding clean
clean-All now es h = elim (Bool-cases (leb 20 (length es))) [
  | inl full ↦ rw full (remove_expired-All now (drop 1 es) (dropped es h))
  | inr room ↦ rw room (remove_expired-All now es h)
]
  where
    dropped : (xs : List EndpointInformation) → All IsCounter xs → All IsCounter (drop 1 xs)
    dropped [] a = tt
    dropped (x ∷ xs) a = a.1

abbrev IsAnswer : Option ℕ → Type 0
IsAnswer none = Unit
IsAnswer (some n) = n < 256

count_failure-All :
    (ip : ℕ) (es : List EndpointInformation)
    → All IsCounter es
    → All IsCounter (count_failure ip es).0 × IsAnswer (count_failure ip es).1
count_failure-All ip [] h = (tt, tt)
count_failure-All ip (e ∷ es) (he, h) = elim (Bool-cases (e.ip == ip)) [
  | inl hit ↦ rw hit ((omega arith, h), omega arith)
  | inr miss ↦ rw miss ((he, (count_failure-All ip es h).0), (count_failure-All ip es h).1)
]

square : (n : ℕ) → n < 256 → n * n * 100 ≤ 6502500
square n h = omega (arith, mul-le-mul below below)
  where
    below : n ≤ 255
    below = omega arith

abbrev pub IsBounded : List EndpointInformation × ℕ → Type 0
IsBounded r = (length r.0 ≤ 20) × All IsCounter r.0 × (r.1 ≤ 6502500)

-- However often stations fail to log in, at most 20 of them are remembered, each with a counter of
-- eight bits, and the waiting time is at most 6502500 milliseconds.
failure_time-bounds :
    (now ip : ℕ) (endpoints : List EndpointInformation)
    → length endpoints ≤ 20
    → All IsCounter endpoints
    → IsBounded (failure_time now ip endpoints)
unfolding failure_time
failure_time-bounds now ip endpoints l h =
    let cleaned = clean now endpoints in
    answered (count_failure ip cleaned)
      (omega (arith, count_failure-length ip cleaned, clean-length now endpoints l))
      (count_failure-All ip cleaned (clean-All now endpoints h)).0
      (count_failure-All ip cleaned (clean-All now endpoints h)).1
  where
    answered :
        (r : List EndpointInformation × Option ℕ)
        → length r.0 < 20
        → All IsCounter r.0
        → IsAnswer r.1
        → IsBounded (elim r.1 as (λ x. List EndpointInformation × ℕ) [
          | some failures ↦ (r.0, failures * failures * 100)
          | none ↦ (r.0 ++ (record { ip = ip; last_failure = now; failures = 1 } ∷ []), 1 * 1 * 100)
        ])
    answered (es, none) l a n = (
      omega
          (arith, l, length-append es (record { ip = ip; last_failure = now; failures = 1 } ∷ [])),
      snoc es a,
      omega arith,
    )
      where
        snoc :
            (xs : List EndpointInformation)
            → All IsCounter xs
            → All IsCounter (xs ++ (record { ip = ip; last_failure = now; failures = 1 } ∷ []))
        snoc [] b = (omega arith, tt)
        snoc (x ∷ xs) b = (b.0, snoc xs b.1)
    answered (es, some failures) l a n = (omega arith, a, square failures n)
