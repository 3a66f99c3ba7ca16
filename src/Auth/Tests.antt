-- ===== src/Auth/Tests.antt =====
-- Runs of the login, of the lock and of the list of stations, and the theorems about them at these.
use Prim.Native.String.{String}
use lucidac_firmware.Common.{◌≡◌, refl, true, false, List, [], ◌∷◌}
use lucidac_firmware.Samples.{Value, text, plain}
use lucidac_firmware.Auth.{Gatekeeper, requires_admin, requires_login, can_do, login, user_can_do}
use lucidac_firmware.Auth.Rights.{login-keeps_rights}

abbrev gate : Gatekeeper
gate = record {
  enable_auth = true;
  enable_users = true;
  users = ("admin", "secret") ∷ ("user", "word") ∷ [];
  lock = record { holder = "user"; locked_at = 1000 };
}

abbrev credentials : List (String × Value)
credentials = ("user", text "admin") ∷ ("password", text "secret") ∷ []

user_may : can_do false gate "user" requires_login ≡ true
unfolding can_do user_can_do
user_may = refl

login-keeps_rights_example :
    can_do false gate (login plain false gate credentials "user").0 requires_login ≡ true
login-keeps_rights_example =
    login-keeps_rights plain false gate credentials "user" requires_login user_may

nobody_may_not : can_do false gate "" requires_admin ≡ false
unfolding can_do user_can_do
nobody_may_not = refl
