-- ===== src/Bus/Tests.antt =====
-- Runs of the bus at concrete addresses, and the theorems about it at these.
use lucidac_firmware.Common.{◌≡◌, refl, List, [], ◌∷◌}
use lucidac_firmware.Bus.{idx_to_addr}
use lucidac_firmware.Bus.Functions.{Call, trigger, transfer, wait, word8, word32}
use lucidac_firmware.Bus.Wires.{
  on_events, at_rest, all_events, last_addressed, all_purposes, on_events-all_events,
}

address_of_iblock : idx_to_addr 0 2 5 ≡ 0x050A
unfolding idx_to_addr
address_of_iblock = refl

abbrev calls : List Call
calls = trigger 0x040A ∷ wait 420 ∷ transfer 0x020A 0 (word32 7) ∷ transfer 0x0109 15 (word8 3) ∷ []

on_events-all_events_example :
    on_events (at_rest 0) (all_events calls)
    ≡ (at_rest (last_addressed 0 calls), all_purposes calls)
on_events-all_events_example = on_events-all_events 0 calls
