-- ===== src/Protocol/Tests.antt =====
-- Messages to a registry of handlers, and the theorems about it at these.
use lucidac_firmware.Common.{ℕ, suc, refl, true, false, [], ◌∷◌, pos}
use lucidac_firmware.Samples.{Value, text}
use lucidac_firmware.Auth.{Gatekeeper}
use lucidac_firmware.Protocol.{MessageHandler, handle_message, not_implemented}
use lucidac_firmware.Protocol.Table.{HandlerClass, init}
use lucidac_firmware.Protocol.Clearance.{IsRefused, handle_message-anonymous}

abbrev gate : ℕ → Gatekeeper
gate n = record {
  enable_auth = true;
  enable_users = true;
  users = ("admin", "secret") ∷ [];
  lock = record { holder = ""; locked_at = 0 };
}

-- A handler that counts its calls, by its last method only.
abbrev counting : HandlerClass → MessageHandler ℕ Value
counting c = record {
  handle = λ msg n. (not_implemented, ([], n));
  handle_user = λ msg u n. record { code = not_implemented; msg_out = []; state = n; user = u };
  handle_streaming = λ msg n. (pos 0, ([], suc n));
}

handle_message-anonymous_example :
    IsRefused gate text counting 3 ""
      (handle_message false gate text (init counting true) "sys_reset_permanent" [] "" 3)
handle_message-anonymous_example =
    handle_message-anonymous gate text counting true "sys_reset_permanent" [] 3 refl refl refl
