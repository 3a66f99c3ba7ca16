-- ===== src/Status.antt =====
-- utils::status of lib/controller/src/utils/error.h. The message texts are left out.
use lucidac_firmware.Common.{Bool, true, false, ℤ, pos, negsuc, eq_ℕ}

pub record Status : Type 0 where
  pub code : ℤ

-- `explicit status(bool code)`.
abbrev pub of_bool : Bool → Status
of_bool true = record { code = pos 0 }
of_bool false = record { code = pos 1 }

abbrev pub success : Status
success = record { code = pos 0 }

abbrev pub failure : Status
failure = record { code = negsuc 0 }

-- `explicit status(const char *msg)`, a message without format arguments.
abbrev pub message : Status
message = record { code = negsuc 1 }

-- `status(const char *format, Args... args)` goes on to `status(std::string msg)`.
abbrev pub formatted : Status
formatted = record { code = negsuc 0 }

abbrev pub is_ok : Status → Bool
is_ok s = eq_ℕ s.code 0
