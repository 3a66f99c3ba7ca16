-- ===== src/Bus/Wires.antt =====
-- The bus as its wires see it: a selection register behind chip select, a latch that copies it to
-- the address lines on a rising edge (or clears them while reset is low), and the SPI. Against it
-- the calls of bus.cpp and bus/functions.cpp are what they say: one activation of one address, and
-- one payload to the function at that address.
use lucidac_firmware.Common.{
  ℕ, zero, suc, Bool, true, false, List, [], ◌∷◌, ◌++◌, Option, none, some, ◌≡◌, refl,
  if◌then◌else◌,
}
use mathlib.Core.List.{append_assoc}
use lucidac_firmware.Bus.Functions.{
  Level, low, high, addr_cs, addr_latch, addr_reset, Payload, word8, word16, word32, command, bytes,
  Event, begin_transaction, end_transaction, digital_write, spi, delay_ns, Call, trigger, transfer,
  wait, events,
}

-- What reaches the functions: an address becomes active, or a payload arrives at the active one.
pub data Effect : Type 0 where
  activated : ℕ → Effect
  received : Option ℕ → Payload → Effect

-- `fault` is set by a transaction that is opened twice or closed twice, and by SPI data outside one.
pub record Wires : Type 0 where
  pub cs : Level
  pub latch : Level
  pub reset : Level
  pub shifted : ℕ
  pub active : Option ℕ
  pub in_transaction : Bool
  pub fault : Bool

abbrev latch_rises : Wires → Level → Wires × List Effect
latch_rises w low = (record w { latch = high; active = none }, [])
latch_rises w high = (record w { latch = high; active = some w.shifted }, activated w.shifted ∷ [])

-- With chip select low the selection register listens, else the active function does.
abbrev arrives : Wires → Level → Payload → Wires × List Effect
arrives w low (word16 a) = (record w { shifted = a }, [])
arrives w low (word8 d) = (record w { fault = true }, [])
arrives w low (word32 d) = (record w { fault = true }, [])
arrives w low (command r d) = (record w { fault = true }, [])
arrives w low (bytes d) = (record w { fault = true }, [])
arrives w high p = (w, received w.active p ∷ [])

abbrev pub on_event : Wires → Event → Wires × List Effect
on_event w begin_transaction =
    (if w.in_transaction then record w { fault = true } else record w { in_transaction = true }, [])
on_event w end_transaction = (
  if w.in_transaction then record w { in_transaction = false } else record w { fault = true },
  [],
)
on_event w (digital_write addr_cs l) = (record w { cs = l }, [])
on_event w (digital_write addr_reset l) = (record w { reset = l }, [])
on_event w (digital_write addr_latch low) = (record w { latch = low }, [])
on_event w (digital_write addr_latch high) = latch_rises w w.reset
on_event w (spi p) = if w.in_transaction then arrives w w.cs p else (record w { fault = true }, [])
on_event w (delay_ns n) = (w, [])

abbrev pub on_events : Wires → List Event → Wires × List Effect
on_events w [] = (w, [])
on_events w (e ∷ es) =
    let (w', now) = on_event w e in let (w'', later) = on_events w' es in (w'', now ++ later)

-- Between two calls no address is active and every pin is at rest.
abbrev pub at_rest : ℕ → Wires
at_rest shifted = record {
  cs = high;
  latch = low;
  reset = high;
  shifted = shifted;
  active = none;
  in_transaction = false;
  fault = false;
}

-- What a call is for.
abbrev pub purpose : Call → List Effect
purpose (trigger a) = activated a ∷ []
purpose (transfer a d p) = activated a ∷ received (some a) p ∷ []
purpose (wait n) = []

abbrev last_address : ℕ → Call → ℕ
last_address n (trigger a) = a
last_address n (transfer a d p) = a
last_address n (wait ns) = n

on_call :
    (n : ℕ) (c : Call) → on_events (at_rest n) (events c) ≡ (at_rest (last_address n c), purpose c)
unfolding events
on_call n (trigger a) = refl
on_call n (transfer a zero p) = refl
on_call n (transfer a (suc d) p) = refl
on_call n (wait ns) = refl

on_events-append :
    (w : Wires) (es fs : List Event)
    → on_events w (es ++ fs) ≡ (
        let (w', now) = on_events w es in let (w'', later) = on_events w' fs in (w'', now ++ later))
on_events-append w [] fs = refl
on_events-append w (e ∷ es) fs = rw (on_events-append (on_event w e).0 es fs, append_assoc)

-- The events of a sequence of calls, first call first.
abbrev pub all_events : List Call → List Event
all_events [] = []
all_events (c ∷ cs) = events c ++ all_events cs

abbrev pub all_purposes : List Call → List Effect
all_purposes [] = []
all_purposes (c ∷ cs) = purpose c ++ all_purposes cs

abbrev pub last_addressed : ℕ → List Call → ℕ
last_addressed n [] = n
last_addressed n (c ∷ cs) = last_addressed (last_address n c) cs

-- Whatever calls are made one after another, each trigger makes its address active once, each
-- transfer makes its address active once and brings its payload to that address alone, in the order
-- of the calls and with nothing besides; afterwards no address is active, all pins are at rest and
-- no SPI transaction was left open, opened twice or closed twice.
pub on_events-all_events :
    (n : ℕ) (cs : List Call)
    → on_events (at_rest n) (all_events cs) ≡ (at_rest (last_addressed n cs), all_purposes cs)
on_events-all_events n [] = refl
on_events-all_events n (c ∷ cs) = rw (
  on_events-append (at_rest n) (events c) (all_events cs),
  on_call n c,
  on_events-all_events (last_address n c) cs,
)
