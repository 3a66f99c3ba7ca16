-- ===== src/Bus/Functions.antt =====
-- lib/hal-lucidac/src/bus/bus.cpp and bus/functions.cpp.
-- A `Call` is one use of a function of the bus; `events` lists what it does to the pins and the
-- SPI in order. SPI settings are left out. Drivers run in `Bus`, which writes the calls to a log
-- and reads what the other side answers from an `Env`.
use lucidac_firmware.Common.{ℕ, zero, suc, Bool, List, [], ◌∷◌, ◌++◌}

pub data Level : Type 0 where
  low high : Level

pub data Pin : Type 0 where
  addr_cs addr_latch addr_reset : Pin

-- A `command` is a byte and a 16-bit word behind it, while the function stays selected.
pub data Payload : Type 0 where
  word8 word16 word32 : ℕ → Payload
  command : ℕ → ℕ → Payload
  bytes : List ℕ → Payload

pub data Event : Type 0 where
  begin_transaction end_transaction : Event
  digital_write : Pin → Level → Event
  spi : Payload → Event
  delay_ns : ℕ → Event

unfoldable pub address_function : ℕ → List Event
address_function address =
    begin_transaction
    ∷ delay_ns 200
    ∷ digital_write addr_cs low
    ∷ delay_ns 200
    ∷ spi (word16 address)
    ∷ delay_ns 200
    ∷ digital_write addr_cs high
    ∷ delay_ns 200
    ∷ end_transaction
    ∷ []

unfoldable pub activate_address : List Event
activate_address = digital_write addr_latch high ∷ delay_ns 200 ∷ digital_write addr_latch low ∷ []

unfoldable pub deactivate_address : List Event
unfolding activate_address
deactivate_address =
    digital_write addr_reset low
    ∷ delay_ns 200
    ∷ (activate_address ++ delay_ns 200 ∷ digital_write addr_reset high ∷ [])

unfoldable pub begin_communication : ℕ → List Event
unfolding address_function activate_address
begin_communication address = address_function address ++ begin_transaction ∷ activate_address

unfoldable pub end_communication : List Event
unfolding deactivate_address
end_communication = deactivate_address ++ end_transaction ∷ []

-- `wait` is a delay that a driver makes between two uses of the bus, in nanoseconds. A transfer's
-- first number is the delay between the selection of the function and the data.
pub data Call : Type 0 where
  trigger : ℕ → Call
  transfer : ℕ → ℕ → Payload → Call
  wait : ℕ → Call

-- `TriggerFunction::trigger` and the four `DataFunction::transfer`.
unfoldable pub events : Call → List Event
unfolding address_function activate_address deactivate_address begin_communication end_communication
events (trigger address) =
    address_function address ++ (activate_address ++ delay_ns 84 ∷ deactivate_address)
events (transfer address zero p) = begin_communication address ++ spi p ∷ end_communication
events (transfer address (suc d) p) =
    begin_communication address ++ delay_ns (suc d) ∷ spi p ∷ end_communication
events (wait ns) = delay_ns ns ∷ []

-- The build flag ANABRID_PEDANTIC, and the other side of the bus: the word or the bytes that the
-- last call of a log shifts in (of a command, the 16-bit word).
pub record Env : Type 0 where
  pub pedantic : Bool
  pub miso : List Call → ℕ
  pub miso_bytes : List Call → List ℕ

-- Newest call first.
abbrev pub Bus {ℓ} : Type ℓ → Type ℓ
Bus A = List Call → A × List Call

infixl 5 ◌>>=◌ ◌>>◌
abbrev pub ◌>>=◌ {ℓ κ} : {A : Type ℓ} {B : Type κ} → Bus A → (A → Bus B) → Bus B
◌>>=◌ m f log = let (a, log') = m log in f a log'

abbrev pub ◌>>◌ {ℓ κ} : {A : Type ℓ} {B : Type κ} → Bus A → Bus B → Bus B
m >> k = m >>= λ _. k

abbrev pub pure {ℓ} : {A : Type ℓ} → A → Bus A
pure a log = (a, log)

abbrev pub fire : ℕ → Bus (Unit {0})
fire address log = (tt, trigger address ∷ log)

abbrev pub pause : ℕ → Bus (Unit {0})
pause ns log = (tt, wait ns ∷ log)

module _ (env : Env) where
  open env use {pedantic, miso, miso_bytes}

  abbrev pub exchange : ℕ → Payload → Bus ℕ
  exchange address p log = let log' = transfer address 0 p ∷ log in (miso log', log')

  abbrev pub exchange_bytes : ℕ → List ℕ → Bus (List ℕ)
  exchange_bytes address p log =
      let log' = transfer address 0 (bytes p) ∷ log in (miso_bytes log', log')
