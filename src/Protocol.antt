-- ===== src/Protocol.antt =====
-- The registry of message handlers and the handling of one message: registry.h, registry.cpp,
-- handler.h and protocol.cpp of lib/communication/src/protocol.
pub mod Table
pub mod Clearance
mod Tests
use Prim.Native.String.{String}
use text.Mathlib.Text.{◌==◌ as str_eq}
use lucidac_firmware.Common.{
  ℕ, ◌+◌, Bool, true, false, not, if◌then◌else◌, List, [], ◌∷◌, ◌++◌, map, Option, none, some, ℤ,
  pos, negsuc, eq_ℕ,
}
use lucidac_firmware.Json.{is_some}
use lucidac_firmware.CBlock.Config.{member}
use lucidac_firmware.Auth.{SecurityLevel, requires_nothing, Gatekeeper, User, can_do}

-- What a `handle` method returns: the code, the members of its answer, the state and the user of the
-- connection afterwards.
pub record Handled (S V : Type 0) : Type 0 where
  pub code : ℤ
  pub msg_out : List (String × V)
  pub state : S
  pub user : User

-- `MessageHandler` with its three `handle` methods; S is all that handlers read and change. The
-- prefix is a member of the registry's entry.
pub record MessageHandler (S V : Type 0) : Type 0 where
  pub handle : List (String × V) → S → ℤ × (List (String × V) × S)
  pub handle_user : List (String × V) → User → S → Handled S V
  pub handle_streaming : List (String × V) → S → ℤ × (List (String × V) × S)

abbrev pub not_implemented : ℤ
not_implemented = negsuc 98

abbrev pub is_not_implemented : ℤ → Bool
is_not_implemented (pos n) = false
is_not_implemented (negsuc n) = is_98 n
  where
    is_98 : ℕ → Bool
    is_98 n = eq_ℕ (pos n) 98

-- `MessageHandler::error`.
unfoldable pub error : ℕ → ℕ → ℕ
error result_prefix internal_code =
    if eq_ℕ (pos internal_code) 0 then 0 else result_prefix + internal_code

pub record RegistryEntry (H : Type 0) : Type 0 where
  pub handler : H
  pub clearance : SecurityLevel
  pub result_prefix : ℕ

pub record Registry (H : Type 0) : Type 0 where
  pub entries : List (String × RegistryEntry H)
  pub result_code_counter : ℕ

abbrev pub result_code_increment : ℕ
result_code_increment = 100

module _ {H : Type 0} where
  abbrev pub empty_registry : Registry H
  empty_registry = record { entries = []; result_code_counter = 1 }

  unfoldable pub lookup : Registry H → String → Option H
  lookup r msg_type = elim (member msg_type r.entries) [ none ↦ none | some e ↦ some e.handler ]

  unfoldable pub required_clearance : Registry H → String → SecurityLevel
  required_clearance r msg_type = elim (member msg_type r.entries) [
    | none ↦ requires_nothing
    | some e ↦ e.clearance
  ]

  unfoldable pub set_prefixed : Registry H → String → ℕ → H → SecurityLevel → Registry H × Bool
  set_prefixed r msg_type result_code_prefix handler minimum_clearance =
      if is_some (member msg_type r.entries) then (r, false) else (
        record {
          entries =
              (
                msg_type,
                record {
                  handler = handler;
                  clearance = minimum_clearance;
                  result_prefix = result_code_prefix;
                },
              )
              ∷ r.entries;
          result_code_counter = result_code_prefix + result_code_increment;
        },
        true,
      )

  unfoldable pub set : Registry H → String → H → SecurityLevel → Registry H × Bool
  unfolding set_prefixed
  set r msg_type handler minimum_clearance =
      set_prefixed r msg_type r.result_code_counter handler minimum_clearance

-- The answer: `error` is the member "error" of the handler's answer, which is sent without "msg"
-- when the code is not zero. The measured times are left out.
pub data Reply (V : Type 0) : Type 0 where
  answered : ℤ → List (String × V) → Reply V
  failed : ℤ → Option V → Reply V
  streamed : ℤ → List (String × V) → Reply V

abbrev pub code_of : {V : Type 0} → Reply V → ℤ
code_of (answered c m) = c
code_of (failed c e) = c
code_of (streamed c m) = c

module _ {S V : Type 0} (unsafe_internet : Bool) (gate : S → Gatekeeper)
    (error_text : String → V) where
  abbrev pub finished : ℤ → List (String × V) → Reply V
  finished code msg_out =
      if not (eq_ℕ code 0) then failed code (member "error" msg_out) else answered code msg_out

  -- The handler's methods, tried one after another.
  unfoldable pub run_handler :
      MessageHandler S V → List (String × V) → User → S → Reply V × (S × User)
  run_handler h msg_in user s =
      let (code, (msg_out, s')) = h.handle msg_in s in
      let r = h.handle_user msg_in user s' in
      let (code'', (msg_out'', s'')) = h.handle_streaming msg_in r.state in
      if not (is_not_implemented code)
      then (finished code msg_out, (s', user))
      else if not (is_not_implemented r.code)
      then (finished r.code r.msg_out, (r.state, r.user))
      else (streamed code'' (if is_not_implemented code'' then [] else msg_out''), (s'', r.user))

  unfoldable pub handle_message :
      Registry (MessageHandler S V) → String → List (String × V) → User → S → Reply V × (S × User)
  unfolding lookup required_clearance run_handler
  handle_message registry msg_type msg_in user s = elim (lookup registry msg_type) [
    | none ↦ (
      failed (negsuc 9)
          (some (error_text "Unknown message type. Try this message: {'type':'help'}.")),
      (s, user),
    )
    | some h ↦
        if not (can_do unsafe_internet (gate s) user (required_clearance registry msg_type))
        then (failed (negsuc 19) (some (error_text "User is not authorized for action")), (s, user))
        else run_handler h msg_in user s
  ]
