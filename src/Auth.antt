-- ===== src/Auth.antt =====
-- Users, their rights, and the lock of a device: lib/communication/src/net/auth.h and auth.cpp. Times
-- are milliseconds as `uint32_t`; `now` is what `millis()` gives. The messages of errors are left
-- out, and so is the whitelist, which nothing reads.
pub mod Rights
pub mod Ban
mod Tests
use Prim.Native.String.{String}
use text.Mathlib.Text.{◌==◌ as str_eq}
use lucidac_firmware.Common.{
  ℕ, ◌+◌, ◌*◌, ◌-◌, ◌%◌, ◌^◌, ◌==◌, leb, Bool, true, false, not, ◌&&◌, ◌||◌, if◌then◌else◌, List,
  [], ◌∷◌, ◌++◌, Option, none, some, length, drop,
}
use lucidac_firmware.Json.{JsonApi}
use lucidac_firmware.Run.{field}
use lucidac_firmware.CBlock.Config.{member}

pub data SecurityLevel : Type 0 where
  requires_admin requires_login requires_nothing : SecurityLevel

-- The empty name stands for nobody.
abbrev pub User : Type 0
User = String

abbrev pub admin : User
admin = "admin"

abbrev pub user : User
user = "user"

-- `UserPasswordAuthentification::db`: `std::map` holds each name once.
abbrev pub Db : Type 0
Db = List (String × String)

-- `db[name] = password`.
abbrev pub db_set : Db → String → String → Db
db_set [] name password = (name, password) ∷ []
db_set ((n, p) ∷ db) name password =
    if str_eq n name then (n, password) ∷ db else (n, p) ∷ db_set db name password

unfoldable pub is_valid : Db → User → String → Bool
is_valid db name password = elim (member name db) [ none ↦ false | some p ↦ str_eq p password ]

-- `UserPasswordAuthentification::can_do`.
unfoldable pub user_can_do : User → SecurityLevel → Bool
user_can_do name requires_admin = str_eq name admin
user_can_do name requires_login = not (str_eq name "")
user_can_do name requires_nothing = true

-- The two passwords that the vendor put into the device.
unfoldable pub reset_defaults : String → String → Db
reset_defaults admin_password user_password =
    let db = if not (str_eq admin_password "") then db_set [] admin admin_password else [] in
    if not (str_eq user_password "") then db_set db user user_password else db

-- `duration::expired`.
abbrev pub expired : ℕ → ℕ → ℕ → Bool
expired now last_time period = leb period ((now + 2 ^ 32 - last_time) % 2 ^ 32)

pub record DeviceLock : Type 0 where
  pub holder : User
  pub locked_at : ℕ

abbrev pub max_lock_duration : ℕ
max_lock_duration = 180000

unfoldable pub check : ℕ → DeviceLock → DeviceLock
check now lock =
    if expired now lock.locked_at max_lock_duration then record lock { holder = "" } else lock

unfoldable pub is_locked : ℕ → DeviceLock → DeviceLock × Bool
unfolding check
is_locked now lock = let lock' = check now lock in (lock', not (str_eq lock'.holder ""))

unfoldable pub enable_lock : ℕ → User → DeviceLock → DeviceLock
enable_lock now name lock = record { holder = name; locked_at = now }

unfoldable pub force_unlock : DeviceLock → DeviceLock
force_unlock lock = record lock { holder = "" }

pub record Gatekeeper : Type 0 where
  pub enable_auth : Bool
  pub enable_users : Bool
  pub users : Db
  pub lock : DeviceLock

module _ (unsafe_internet : Bool) (gate : Gatekeeper) where
  -- `AuthentificationContext::can_do`, with the build flag ANABRID_UNSAFE_INTERNET.
  unfoldable pub can_do : User → SecurityLevel → Bool
  unfolding user_can_do
  can_do name task =
      if unsafe_internet
      then true
      else not gate.enable_auth || (not gate.enable_users || user_can_do name task)

  unfoldable pub has_better_clearence_then : User → User → Bool
  unfolding can_do user_can_do
  has_better_clearence_then name other =
      (can_do name requires_admin && not (user_can_do other requires_admin))
      || (can_do name requires_login && not (user_can_do other requires_login))

-- `AuthentificationContext::user`.
abbrev pub shown_user : User → User
shown_user name = if str_eq name "" then "[nobody]" else name

module _ {F V : Type 0} (js : JsonApi F V) (unsafe_internet : Bool) where
  -- The user of the connection afterwards, and the result.
  unfoldable pub login : Gatekeeper → List (String × V) → User → User × ℕ
  unfolding has_better_clearence_then is_valid
  login gate msg_in name =
      if not gate.enable_auth && not gate.enable_users
      then (name, 10)
      else let new_user = js.to_text (field js "user" msg_in) in
        if has_better_clearence_then unsafe_internet gate name new_user
        then (name, 1)
        else if not (is_valid gate.users new_user (js.to_text (field js "password" msg_in)))
        then (name, 2)
        else (new_user, 0)

module _ (unsafe_internet : Bool) where
  unfoldable pub lock_acquire : ℕ → Gatekeeper → User → Gatekeeper × ℕ
  unfolding is_locked enable_lock
  lock_acquire now gate name =
      let (lock', locked) = is_locked now gate.lock in
      if locked
      then (record gate { lock = lock' }, 1)
      else (record gate { lock = enable_lock now (shown_user name) lock' }, 0)

  unfoldable pub lock_release : Gatekeeper → User → Gatekeeper × ℕ
  unfolding can_do force_unlock
  lock_release gate name =
      if not gate.enable_users
        || (str_eq (shown_user name) gate.lock.holder
            || can_do unsafe_internet gate name requires_admin)
      then (record gate { lock = force_unlock gate.lock }, 0)
      else (gate, 1)

-- `FailToBan::EndpointInformation`, the address as a number.
pub record EndpointInformation : Type 0 where
  pub ip : ℕ
  pub last_failure : ℕ
  pub failures : ℕ

abbrev pub max_known_stations : ℕ
max_known_stations = 20

abbrev pub max_waiting_time : ℕ
max_waiting_time = 10000

-- `remove_if`.
abbrev pub remove_expired : ℕ → List EndpointInformation → List EndpointInformation
remove_expired now [] = []
remove_expired now (e ∷ es) =
    let rest = remove_expired now es in
    if expired now e.last_failure max_waiting_time then rest else e ∷ rest

unfoldable pub clean : ℕ → List EndpointInformation → List EndpointInformation
clean now endpoints =
    remove_expired now
      (if leb max_known_stations (length endpoints) then drop 1 endpoints else endpoints)

-- The increment of the endpoint that `find` gives, a `uint8_t`, and its value afterwards.
abbrev pub count_failure : ℕ → List EndpointInformation → List EndpointInformation × Option ℕ
count_failure ip [] = ([], none)
count_failure ip (e ∷ es) =
    let (es', found) = count_failure ip es in
    let failures = (e.failures + 1) % 2 ^ 8 in
    if e.ip == ip then (record e { failures = failures } ∷ es, some failures) else (e ∷ es', found)

-- The list of endpoints, and the waiting time in milliseconds.
unfoldable pub failure_time : ℕ → ℕ → List EndpointInformation → List EndpointInformation × ℕ
unfolding clean
failure_time now ip endpoints =
    let (counted, found) = count_failure ip (clean now endpoints) in
    elim found [
      | some failures ↦ (counted, failures * failures * 100)
      | none ↦ (counted ++ (record { ip = ip; last_failure = now; failures = 1 } ∷ []), 1 * 1 * 100)
    ]
