-- ===== src/Protocol/Table.antt =====
-- The handlers that the firmware registers: `DynamicRegistry::init` of
-- lib/communication/src/protocol/registry.cpp.
use Prim.Native.String.{String}
use lucidac_firmware.Common.{ℕ, Bool, if◌then◌else◌, List, [], ◌∷◌, ◌++◌}
use lucidac_firmware.Protocol.{Registry, empty_registry, set_prefixed}
use lucidac_firmware.Auth.{SecurityLevel, requires_admin, requires_login, requires_nothing}

-- The classes of the handlers.
pub data HandlerClass : Type 0 where
  ping_request help reset_request set_config get_config get_entities start_run_request :
      HandlerClass
  stop_run_request oneshot_daq manual_control get_overload_status : HandlerClass
  get_network_settings set_network_settings reset_network_settings network_status : HandlerClass
  login_handler lock_acquire lock_release get_system_ident reboot syslog system_stats : HandlerClass
  read_system_ident reset_system_ident write_system_ident load_plugin unload_plugin : HandlerClass
  flasher_init flasher_data flasher_abort flasher_complete : HandlerClass

-- A call of `set`.
pub record Registration : Type 0 where
  pub name : String
  pub result_prefix : ℕ
  pub handler : HandlerClass
  pub clearance : SecurityLevel

abbrev registration : String → ℕ → HandlerClass → SecurityLevel → Registration
registration n p h c = record { name = n; result_prefix = p; handler = h; clearance = c }

abbrev pub first_registrations : List Registration
first_registrations =
    registration "ping" 100 ping_request requires_nothing
    ∷ registration "help" 200 help requires_nothing
    ∷ registration "reset_circuit" 300 reset_request requires_login
    ∷ registration "set_circuit" 400 set_config requires_login
    ∷ registration "get_circuit" 500 get_config requires_login
    ∷ registration "get_entities" 600 get_entities requires_login
    ∷ registration "start_run" 700 start_run_request requires_login
    ∷ registration "stop_run" 780 stop_run_request requires_login
    ∷ registration "one_shot_daq" 800 oneshot_daq requires_nothing
    ∷ registration "manual_mode" 900 manual_control requires_nothing
    ∷ registration "overload_status" 1000 get_overload_status requires_login
    ∷ registration "net_get" 6000 get_network_settings requires_admin
    ∷ registration "net_set" 6100 set_network_settings requires_admin
    ∷ registration "net_reset" 6200 reset_network_settings requires_admin
    ∷ registration "net_status" 6300 network_status requires_nothing
    ∷ registration "login" 3100 login_handler requires_nothing
    ∷ registration "lock_acquire" 3200 lock_acquire requires_login
    ∷ registration "lock_release" 3300 lock_release requires_login
    ∷ registration "sys_ident" 3400 get_system_ident requires_nothing
    ∷ registration "sys_reboot" 3500 reboot requires_admin
    ∷ registration "sys_log" 3600 syslog requires_login
    ∷ registration "sys_stats" 3700 system_stats requires_login
    ∷ []

-- With ANABRID_WRITE_EEPROM only.
abbrev pub permanent_registrations : List Registration
permanent_registrations =
    registration "sys_read_permanent" 3700 read_system_ident requires_admin
    ∷ registration "sys_reset_permanent" 3800 reset_system_ident requires_admin
    ∷ registration "sys_write_permanent" 3900 write_system_ident requires_admin
    ∷ []

abbrev pub last_registrations : List Registration
last_registrations =
    registration "load_plugin" 4100 load_plugin requires_admin
    ∷ registration "unload_plugin" 4200 unload_plugin requires_admin
    ∷ registration "ota_update_init" 5000 flasher_init requires_admin
    ∷ registration "ota_update_stream" 5100 flasher_data requires_admin
    ∷ registration "ota_update_abort" 5200 flasher_abort requires_admin
    ∷ registration "ota_update_complete" 5300 flasher_complete requires_admin
    ∷ []

abbrev pub registrations : Bool → List Registration
registrations write_eeprom =
    first_registrations
    ++ ((if write_eeprom then permanent_registrations else []) ++ last_registrations)

module _ {H : Type 0} (make : HandlerClass → H) where
  -- The calls of `set` one after another; the results are ignored.
  unfoldable pub register : List Registration → Registry H → Registry H
  unfolding set_prefixed
  register [] r = r
  register (x ∷ xs) r =
      register xs (set_prefixed r x.name x.result_prefix (make x.handler) x.clearance).0

  unfoldable pub init : Bool → Registry H
  unfolding register
  init write_eeprom = register (registrations write_eeprom) empty_registry
