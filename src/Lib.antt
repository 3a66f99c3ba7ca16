-- ===== src/Lib.antt =====
-- The LUCIDAC firmware: the digital bus, the function blocks of a cluster and the routes between them,
-- the queue of runs, the messages with the rights of their senders, and the code that is loaded over
-- messages: plugins and firmware upgrades.
--
-- The LUCIDAC is an analog computer whose signals are routed by digitally set blocks. In a cluster a
-- signal passes the U-block (16 inputs onto 32 lanes), a coefficient of the C-block on each lane, and
-- the I-block (32 lanes summed into 16 outputs); the SH-block compensates offsets and measures gains.
-- Software changes the blocks' states in memory, and `write_to_hardware` sends them to shift registers,
-- switch matrices and converters over an SPI bus whose functions are selected by addresses. States are
-- also read from JSON and written to it. Clients send messages, whose handlers are looked up in a
-- registry and run if the sender's login allows it; one of them puts runs into a queue, whose front
-- the main loop executes. Others load a plugin into memory, or an image of the firmware into the free
-- part of the flash, from where it is moved over the program.
--
-- Which file models which part (paths from the repository's root):
-- - Bus: lib/hal-lucidac/src/bus/bus.h and bus.cpp, the arithmetic of addresses, with
--   Bus/Addressing; Bus/Functions: bus/functions.cpp, each use of the bus as the events on pins and
--   SPI, and a monad `Bus` in which drivers write their calls to a log and read the answers from an
--   `Env`; Bus/Wires: an independent reading of the pins that decodes the events.
-- - Chips: SR74HCT595.cpp, AD5452.cpp, DAC60508.cpp and SR74HC16X.cpp of
--   lib/hal-lucidac/src/chips.
-- - Status, Json, Float: utils::status of lib/controller/src/utils/error.h, and what the code uses of
--   ArduinoJson, `std::stoul` and `float`. The last three are parameters (`JsonApi`, `FloatApi`); the
--   laws of the JSON values are `JsonLaws`. Samples holds concrete instances of them for the tests.
-- - IsNumber: lib/controller/src/utils/is_number.cpp.
-- - Entity: versions, classifiers and reset actions of lib/platform-lucidac/src/entity.
-- - UBlock: lib/platform-lucidac/src/block/ublock.h, ublock.tpl.h and ublock.cpp. The state is the
--   record `UBlock`, each method a function of the same name that returns the new state and the
--   method's result. Children: Hardware (how the 20 bytes of the matrix and the mode register are
--   made and sent), Config (JSON), and the theorems in Connect, Invariant, Reachable, Signals,
--   Bytes, Matrix, Constants and RoundTrip.
-- - IBlock: iblock.h and iblock.cpp; Hardware (the command words of the four switch matrices and the
--   register of the upscaling), Config (JSON), and the theorems in Connections, Invariant, Reachable
--   and the other children.
-- - CBlock: cblock.h and cblock.cpp; Config (JSON), and the theorems in Range and Coefficients.
-- - MIntBlock: the integrator block of mblock.h, mblock.cpp and mblock_int.cpp; Config (JSON), and the
--   theorems in Valid, Range, Written and RoundTrip.
-- - MMulBlock: the multiplier block of mblock.h and mblock_mul.cpp, and the factory of mblock.cpp;
--   Config (JSON), Search (the search for the input offsets in `calibrate`, on fuel; one round more
--   than the steps that leave the supported range is enough), and Ends, Settled and Accepted.
-- - ShBlock, CtrlBlock: shblock.h, shblock.cpp, ctrlblock.h and ctrlblock.cpp.
-- - Cluster: lib/platform-lucidac/src/carrier/cluster.h and cluster.cpp, which composes the four
--   blocks' methods into routes; Calibration: its two calibration procedures as chains of steps that
--   return early; Steps, Restore and Routes: the theorems.
-- - DaqConfig: the request for data acquisition of lib/computation/src/daq/base.h and base.cpp; Valid.
-- - Run: lib/computation/src/run/run.h and run.cpp. RunManager: run_manager.h and run_manager.cpp, the
--   queue and what puts runs into it and takes them off; Traditional and Flexio: the two ways to
--   execute a run, as lists of actions that depend on the answers of a `Machine`; the theorems are in
--   Timing, Memory, Termination, Liveness and Invariant.
-- - Auth: lib/communication/src/net/auth.h and auth.cpp; Rights and Ban.
-- - Protocol: registry.h, registry.cpp, handler.h and `handleMessage` of protocol.cpp, all of
--   lib/communication/src/protocol; Table: the handlers that the firmware registers; Clearance.
-- - Lucidac: the ADC channels of carrier.h and carrier.cpp of lib/platform-lucidac/src/carrier, and
--   lib/platform-lucidac/src/lucidac/lucidac.h and lucidac.cpp; Config (JSON), Channels and Mux.
-- - Flash: the functions of lib/controller/src/ota/flasher.cpp that search, erase and write the flash,
--   over the words of the flash as a parameter and with a log of the calls; Words (where the buffer
--   lies, what a written block leaves), Laws, Move, and Memory (a concrete flash for the tests).
--   FirmwareFlasher: the messages of an upgrade in flasher.h and flasher.cpp; Chunks, Sound, Reachable,
--   Upload and Installed.
-- - PluginLoader: plugin.h and plugin.cpp of lib/controller/src/plugin, with utils/align.h and the
--   comparison of hashes in utils/dcp.h; Bounds, Valid and Life.
-- - Uuid: uuid.h and uuid.cpp of lib/controller/src/utils; RoundTrip.
-- - Common: lists indexed by native numbers, bits of numbers, integers, Boolean tests.
--
-- A `uint8_t` or `uint32_t` is a natural number; where the code can leave its range, the reduction
-- is written out (`% 2 ^ 8`). Reads out of an array's bounds that the code permits are given the
-- value stated at the definition. Loops run over a list of indices or of JSON values, but for the
-- search of MMulBlock and for the loop that streams the data of a run, which waits for the hardware
-- and takes fuel: any fuel above the round in which the hardware says that the run is done is enough
-- (RunManager/Termination). The loops over the flash recurse on the number of words or sectors that
-- are left, which their bounds give; the search for the end of the program recurses on the address,
-- and is left where a word is not erased. A method with a leading underscore carries `unchecked` in
-- its name, and of two overloads one has a longer name. The build flag ANABRID_PEDANTIC is
-- `pedantic` of `Env`: with it, registers are read back and compared.
--
-- Not modelled: texts of messages (but for a carrier's status), logging, SPI settings, the start-
-- up of the hardware and the detection of blocks; the rest of the calibration of a multiplier
-- block and its copy in the EEPROM, the calibration of a carrier and the front panel; data
-- acquisition and mode control, which fill registers of the processor's units (the calibration
-- takes the means of samples as a parameter, runs the answers of the machine); the bodies of the
-- message handlers (a message is handled with any handlers), the notifications of runs, network
-- and settings; the reports on an upgrade and on the plugin loader, and what a plugin does; and
-- the vendored libraries, among them the base64 decoder and the hashes, which are parameters.
pub mod Common
pub mod Flash
pub mod FirmwareFlasher
pub mod PluginLoader
pub mod Uuid
pub mod Float
pub mod Status
pub mod IsNumber
pub mod Json
pub mod Protocol
pub mod Run
pub mod RunManager
pub mod Samples
pub mod Auth
pub mod Bus
pub mod Chips
pub mod DaqConfig
pub mod Entity
pub mod UBlock
pub mod IBlock
pub mod CBlock
pub mod Lucidac
pub mod MIntBlock
pub mod MMulBlock
pub mod ShBlock
pub mod CtrlBlock
pub mod Cluster
