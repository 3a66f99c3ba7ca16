-- ===== src/Protocol/Clearance.antt =====
-- Who may start which handler.
use Prim.Native.String.{String}
use text.Mathlib.Text.{◌==◌ as str_eq}
use text.Mathlib.TextEquality.{eq_iff}
use mathlib.Core.Option.{some-injective, some-ne-none}
use lucidac_firmware.Common.{
  ◌≡◌, ◌⊎◌, refl, sym, subst, ap, ◌∙◌, Bool, true, false, ◌&&◌, ◌||◌, if◌then◌else◌, List, [], ◌∷◌,
  Option, some, any, arith, Bool-cases, Option-cases, inl, inr, negsuc, and_true, not, none, ℕ, ◌≢◌,
}
use lucidac_firmware.CBlock.Config.{member}
use lucidac_firmware.Auth.{
  SecurityLevel, requires_admin, requires_login, requires_nothing, Gatekeeper, User, can_do,
  user_can_do,
}
use lucidac_firmware.Protocol.{
  MessageHandler, Registry, RegistryEntry, Reply, code_of, lookup, required_clearance,
  handle_message, set_prefixed,
}
use lucidac_firmware.Protocol.Table.{HandlerClass, register, init}

-- The messages that are handled without a login.
abbrev pub open_messages : List String
open_messages =
    "ping" ∷ "help" ∷ "one_shot_daq" ∷ "manual_mode" ∷ "net_status" ∷ "login" ∷ "sys_ident" ∷ []

abbrev pub is_open : String → Bool
is_open t = any (λ k. str_eq k t) open_messages

-- Whether a level asks for a login at least.
abbrev asks_login : SecurityLevel → Bool
asks_login requires_admin = true
asks_login requires_login = true
asks_login requires_nothing = false

module _ {H : Type 0} where
  abbrev closed_or_open : String × RegistryEntry H → Bool
  closed_or_open (name, e) = asks_login e.clearance || is_open name

  abbrev all_checked : List (String × RegistryEntry H) → Bool
  all_checked [] = true
  all_checked (e ∷ es) = closed_or_open e && all_checked es

  member_checked :
      (es : List (String × RegistryEntry H)) (t : String) (e : RegistryEntry H)
      → all_checked es ≡ true
      → member t es ≡ some e
      → (asks_login e.clearance || is_open t) ≡ true
  member_checked [] t e h f = absurd (some-ne-none e (sym f))
  member_checked ((n, x) ∷ es) t e h f = elim (Bool-cases (str_eq n t)) [
    | inl same ↦
        let names = (eq_iff n t).0 same in
        let entry = some-injective x e (here same f) in
        subst (λ y. (asks_login y.clearance || is_open t) ≡ true) entry
          (subst (λ k. (asks_login x.clearance || is_open k) ≡ true) names (and_true _ _ h).0)
    | inr other ↦ member_checked es t e (and_true _ _ h).1 (there other f)
  ]
    where
      here :
          str_eq n t ≡ true
          → ◌≡◌ {A = Option (RegistryEntry H)} (if str_eq n t then some x else member t es) (some e)
          → ◌≡◌ {A = Option (RegistryEntry H)} (some x) (some e)
      here same f = ap (λ b. if b then some x else member t es) (sym same) ∙ f

      there :
          str_eq n t ≡ false
          → ◌≡◌ {A = Option (RegistryEntry H)} (if str_eq n t then some x else member t es) (some e)
          → member t es ≡ some e
      there other f = ap (λ b. if b then some x else member t es) (sym other) ∙ f

module _ {H : Type 0} (make : HandlerClass → H) where
  init_checked : (write_eeprom : Bool) → all_checked (init make write_eeprom).entries ≡ true
  unfolding init register set_prefixed
  init_checked true = refl
  init_checked false = refl

nobody_refused : (level : SecurityLevel) → asks_login level ≡ true → user_can_do "" level ≡ false
unfolding user_can_do
nobody_refused requires_admin h = refl
nobody_refused requires_login h = refl
nobody_refused requires_nothing h = ground arith

module _ {S V : Type 0} (gate : S → Gatekeeper) (error_text : String → V)
    (make : HandlerClass → MessageHandler S V) where
  abbrev pub IsRefused : S → User → Reply V × (S × User) → Type 0
  IsRefused s u r = (r.1 ≡ (s, u)) × ((code_of r.0 ≡ negsuc 9) ⊎ (code_of r.0 ≡ negsuc 19))

  not_cleared-IsRefused :
      (r : Registry (MessageHandler S V)) (t : String) (msg : List (String × V)) (u : User) (s : S)
      → can_do false (gate s) u (required_clearance r t) ≡ false
      → IsRefused s u (handle_message false gate error_text r t msg u s)
  unfolding handle_message
  not_cleared-IsRefused r t msg u s h = elim (Option-cases (lookup r t)) [
    | inl e ↦ rw (e, handle_message) (refl, inl refl)
    | inr (x, e) ↦ rw (e, handle_message, h) (refl, inr refl)
  ]

  unknown-IsRefused :
      (r : Registry (MessageHandler S V)) (t : String) (msg : List (String × V)) (u : User) (s : S)
      → member t r.entries ≡ none
      → IsRefused s u (handle_message false gate error_text r t msg u s)
  unfolding handle_message lookup
  unknown-IsRefused r t msg u s e = rw (handle_message, lookup, e) (refl, inl refl)

  clearance_of :
      (r : Registry (MessageHandler S V)) (t : String) (e : RegistryEntry (MessageHandler S V))
      → member t r.entries ≡ some e
      → required_clearance r t ≡ e.clearance
  unfolding required_clearance
  clearance_of r t e f = rw (required_clearance, f) refl

  nobody_cannot :
      (s : S) (level : SecurityLevel)
      → (gate s).enable_auth ≡ true
      → (gate s).enable_users ≡ true
      → asks_login level ≡ true
      → can_do false (gate s) "" level ≡ false
  unfolding can_do
  nobody_cannot s level a u h =
      both (gate s).enable_auth (gate s).enable_users (user_can_do "" level) a u
        (nobody_refused level h)
    where
      both : (x y z : Bool) → x ≡ true → y ≡ true → z ≡ false → (not x || (not y || z)) ≡ false
      both x y z p q r = ground arith

  -- While authentication and users are enabled, and in a build without ANABRID_UNSAFE_INTERNET, a
  -- message of a connection without a login, also where no users are stored, runs no handler, except for the seven messages ping,
  -- help, one_shot_daq, manual_mode, net_status, login and sys_ident: for every other type, known or
  -- not, nothing changes and the code is -10 or -20. This holds of the registry that the firmware
  -- fills, with and without the handlers of ANABRID_WRITE_EEPROM, and whatever the handlers do.
  pub handle_message-anonymous :
      (write_eeprom : Bool) (t : String) (msg : List (String × V)) (s : S)
      → (gate s).enable_auth ≡ true
      → (gate s).enable_users ≡ true
      → is_open t ≡ false
      → IsRefused s "" (handle_message false gate error_text (init make write_eeprom) t msg "" s)
  handle_message-anonymous write_eeprom t msg s a u closed =
      elim (Option-cases (member t (init make write_eeprom).entries)) [
        | inl none_ ↦ unknown-IsRefused (init make write_eeprom) t msg "" s none_
        | inr (e, f) ↦ not_cleared-IsRefused (init make write_eeprom) t msg "" s (
            ap (λ l. can_do false (gate s) "" l) (clearance_of (init make write_eeprom) t e f)
            ∙ nobody_cannot s e.clearance a u (
                only_left _ _
                  (member_checked (init make write_eeprom).entries t e
                    (init_checked make write_eeprom) f)
                  closed))
      ]
    where
      only_left : (x y : Bool) → (x || y) ≡ true → y ≡ false → x ≡ true
      only_left x y p q = ground arith

module _ {H : Type 0} where
  abbrev handler_of : Option (RegistryEntry H) → Option H
  handler_of none = none
  handler_of (some e) = some e.handler

  abbrev pub first_or : Option H → Bool → H → Option H
  first_or (some old) b h = some old
  first_or none b h = if b then some h else none

  lookup-handler_of : (r : Registry H) (k : String) → lookup r k ≡ handler_of (member k r.entries)
  unfolding lookup
  lookup-handler_of r k = of_member (member k r.entries)
    where
      of_member :
          (o : Option (RegistryEntry H))
          → elim o as (λ x. Option H) [ none ↦ none | some e ↦ some e.handler ] ≡ handler_of o
      of_member none = refl
      of_member (some e) = refl

  kept :
      (o : Option (RegistryEntry H)) (b : Bool) (h : H)
      → (b ≡ true → o ≢ none)
      → handler_of o ≡ first_or (handler_of o) b h
  kept none true h c = absurd (c refl refl)
  kept none false h c = refl
  kept (some e) b h c = refl

  added :
      (o : Option (RegistryEntry H)) (b : Bool) (e : RegistryEntry H)
      → (b ≡ true → o ≡ none)
      → handler_of (if b then some e else o) ≡ first_or (handler_of o) b e.handler
  added none true e c = refl
  added none false e c = refl
  added (some x) true e c = absurd (some-ne-none x (c refl))
  added (some x) false e c = refl

  same_member :
      (es : List (String × RegistryEntry H)) (t k : String)
      → str_eq t k ≡ true
      → member t es ≡ member k es
  same_member es t k e = ap (λ x. member x es) ((eq_iff t k).0 e)

  -- Registering a handler never replaces one: every type that had a handler keeps it, the new type
  -- gets the new handler if it had none, and no other type gets any.
  lookup-set_prefixed :
      (r : Registry H) (t k : String) (p : ℕ) (h : H) (level : SecurityLevel)
      → lookup (set_prefixed r t p h level).0 k ≡ first_or (lookup r k) (str_eq t k) h
  unfolding set_prefixed
  lookup-set_prefixed r t k p h level =
      lookup-handler_of (set_prefixed r t p h level).0 k
      ∙ (elim (Option-cases (member t r.entries)) [
        | inr (e, f) ↦ rw f (
            kept (member k r.entries) (str_eq t k) h
              (λ b n. some-ne-none e (sym f ∙ (same_member r.entries t k b ∙ n))))
        | inl f ↦ rw f (
            added (member k r.entries) (str_eq t k)
              record { handler = h; clearance = level; result_prefix = p }
              (λ b. sym (same_member r.entries t k b) ∙ f))
      ]
          ∙ sym (ap (λ o. first_or o (str_eq t k) h) (lookup-handler_of r k)))
