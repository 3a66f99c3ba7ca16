-- ===== src/Auth/Rights.antt =====
-- What a login does to the rights of a connection, and who may take and give back the lock.
use Prim.Native.String.{String}
use text.Mathlib.Text.{◌==◌ as str_eq}
use lucidac_firmware.Common.{
  ℕ, ◌≡◌, ◌⊎◌, refl, Bool, true, false, not, ◌&&◌, ◌||◌, if◌then◌else◌, List, arith, Bool-cases,
  inl, inr, ap, ◌∙◌,
}
use lucidac_firmware.Json.{JsonApi}
use lucidac_firmware.Run.{field}
use lucidac_firmware.Auth.{
  SecurityLevel, requires_admin, requires_login, requires_nothing, User, Gatekeeper, can_do,
  user_can_do, has_better_clearence_then, is_valid, login, lock_acquire, lock_release, shown_user,
  is_locked, check, expired, max_lock_duration, force_unlock, enable_lock,
}

module _ (unsafe_internet : Bool) (gate : Gatekeeper) where
  no_worse :
      (name other : User) (task : SecurityLevel)
      → has_better_clearence_then unsafe_internet gate name other ≡ false
      → can_do unsafe_internet gate name task ≡ true
      → can_do unsafe_internet gate other task ≡ true
  unfolding has_better_clearence_then can_do user_can_do
  no_worse name other requires_admin h p =
      admin_kept unsafe_internet (not gate.enable_auth) (not gate.enable_users) _ _ _ h p
    where
      admin_kept :
          (u a e n o r : Bool)
          → (((if u then true else a || (e || n)) && not o) || r) ≡ false
          → (if u then true else a || (e || n)) ≡ true
          → (if u then true else a || (e || o)) ≡ true
      admin_kept u a e n o r h p = ground arith
  no_worse name other requires_login h p =
      login_kept unsafe_internet (not gate.enable_auth) (not gate.enable_users) _ _ _ h p
    where
      login_kept :
          (u a e n o r : Bool)
          → (r || ((if u then true else a || (e || n)) && not o)) ≡ false
          → (if u then true else a || (e || n)) ≡ true
          → (if u then true else a || (e || o)) ≡ true
      login_kept u a e n o r h p = ground arith
  no_worse name other requires_nothing h p = p

module _ {F V : Type 0} (js : JsonApi F V) (unsafe_internet : Bool) where
  login_cases :
      (gate : Gatekeeper) (msg : List (String × V)) (name : User)
      → ((login js unsafe_internet gate msg name).0 ≡ name)
        ⊎ ((has_better_clearence_then unsafe_internet gate name (js.to_text (field js "user" msg))
              ≡ false)
            × ((login js unsafe_internet gate msg name).0 ≡ js.to_text (field js "user" msg)))
  unfolding login
  login_cases gate msg name =
      branches (not gate.enable_auth && not gate.enable_users)
        (has_better_clearence_then unsafe_internet gate name (js.to_text (field js "user" msg)))
        (not (
          is_valid gate.users (js.to_text (field js "user" msg))
            (js.to_text (field js "password" msg))))
        name (js.to_text (field js "user" msg))
    where
      chosen : Bool → Bool → Bool → User → User → User × ℕ
      chosen off better invalid old new =
          if off
          then (old, 10)
          else if better
          then (old, 1)
          else if invalid
          then (old, 2)
          else (new, 0)

      branches :
          (off better invalid : Bool) (old new : User)
          → ((chosen off better invalid old new).0 ≡ old)
            ⊎ ((better ≡ false) × ((chosen off better invalid old new).0 ≡ new))
      branches true better invalid old new = inl refl
      branches false true invalid old new = inl refl
      branches false false true old new = inl refl
      branches false false false old new = inr (refl, refl)

  -- No login takes rights away: whatever the user of a connection was allowed to do before a login,
  -- the user of the connection afterwards is allowed to do, whether the login succeeds or is refused.
  pub login-keeps_rights :
      (gate : Gatekeeper) (msg : List (String × V)) (name : User) (task : SecurityLevel)
      → can_do unsafe_internet gate name task ≡ true
      → can_do unsafe_internet gate (login js unsafe_internet gate msg name).0 task ≡ true
  login-keeps_rights gate msg name task p = elim (login_cases gate msg name) [
    | inl same ↦ ap (λ u. can_do unsafe_internet gate u task) same ∙ p
    | inr (fair, new) ↦
        ap (λ u. can_do unsafe_internet gate u task) new
        ∙ no_worse unsafe_internet gate name (js.to_text (field js "user" msg)) task fair p
  ]

-- While the lock is held and has not expired, nobody can acquire it, its holder included, and an
-- attempt changes nothing; a user who is neither the holder nor allowed to do what an administrator
-- may cannot give it back, provided that the login of users is enabled. Once the lock has expired,
-- anybody acquires it.
lock_lem :
    (unsafe_internet : Bool) (now : ℕ) (gate : Gatekeeper) (name : User)
    → str_eq gate.lock.holder "" ≡ false
    → gate.enable_users ≡ true
    → str_eq (shown_user name) gate.lock.holder ≡ false
    → can_do unsafe_internet gate name requires_admin ≡ false
    → (lock_release unsafe_internet gate name ≡ (gate, 1))
      × (((expired now gate.lock.locked_at max_lock_duration ≡ false)
            × (lock_acquire unsafe_internet now gate name ≡ (gate, 1)))
          ⊎ ((expired now gate.lock.locked_at max_lock_duration ≡ true)
              × (lock_acquire unsafe_internet now gate name ≡ (
                record gate { lock = record { holder = shown_user name; locked_at = now } },
                0,
              ))))
unfolding lock_release lock_acquire is_locked check enable_lock
lock_lem unsafe_internet now gate name held on other weak = (
  release gate.enable_users _ _ on other weak,
  elim (Bool-cases (expired now gate.lock.locked_at max_lock_duration)) [
    | inr e ↦ inl (e, ap attempt e ∙ refused (str_eq gate.lock.holder "") held)
    | inl e ↦ inr (e, ap attempt e)
  ],
)
  where
    release :
        (a b c : Bool)
        → a ≡ true
        → b ≡ false
        → c ≡ false
        → ◌≡◌ {A = Gatekeeper × ℕ}
            (if not a || (b || c)
              then (record gate { lock = force_unlock gate.lock }, 0)
              else (gate, 1))
            (gate, 1)
    release a b c p q r = rw (p, q, r) refl

    -- The attempt, by whether the lock has expired.
    attempt : Bool → Gatekeeper × ℕ
    attempt out =
        let lock' = if out then record gate.lock { holder = "" } else gate.lock in
        if not (str_eq lock'.holder "")
        then (record gate { lock = lock' }, 1)
        else (record gate { lock = record { holder = shown_user name; locked_at = now } }, 0)

    attempt_held : Bool → Gatekeeper × ℕ
    attempt_held b =
        if not b
        then (gate, 1)
        else (record gate { lock = record { holder = shown_user name; locked_at = now } }, 0)

    refused : (b : Bool) → b ≡ false → attempt_held b ≡ (gate, 1)
    refused b p = rw p refl
