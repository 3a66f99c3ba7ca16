-- ===== src/PluginLoader.antt =====
-- Plugins, which are machine code that a client sends: lib/controller/src/plugin/plugin.h and
-- plugin.cpp, with utils/align.h and the comparison of hashes of utils/dcp.h. The base64 decoder is a
-- copy of another project's code and a parameter; texts of errors are left out, and so is the report
-- on the loader.
pub mod Bounds
pub mod Valid
pub mod Life
mod Tests
use Prim.Native.String.{String, len}
use Prim.Native.Char.{code}
use text.Mathlib.Text.{◌==◌ as str_eq}
use lucidac_firmware.Common.{
  ℕ, ◌+◌, ◌-◌, ◌*◌, ◌/◌, ◌%◌, ◌^◌, ◌==◌, ltb, bit_and, bit_not, Bool, true, false, not, ◌&&◌,
  if◌then◌else◌, List, [], ◌∷◌, Option, none, some, length,
}
use lucidac_firmware.Json.{JsonApi, or_else, is_some}
use lucidac_firmware.CBlock.Config.{member}

-- Addresses are 32-bit numbers.
abbrev pub align : ℕ → ℕ → ℕ
align base exp = bit_and ((base + exp - 1) % 2 ^ 32) (bit_not 32 (exp - 1))

abbrev pub disalignment : ℕ → ℕ → ℕ
disalignment base exp = (align base exp + 2 ^ 32 - base) % 2 ^ 32

-- The address to jump to, or `none` for the null pointer.
unfoldable pub assert_callable : ℕ → Option ℕ
assert_callable addr = if not (disalignment addr 4 == 0) then none else some ((addr + 1) % 2 ^ 32)

-- The shorter text is the start of the longer one.
abbrev pub starts : String → String → Bool
starts String.[] t = true
starts (String.◌∷◌ c s) String.[] = false
starts (String.◌∷◌ c s) (String.◌∷◌ d t) = code c == code d && starts s t

unfoldable pub sha256_test_short : String → String → Bool
sha256_test_short a b = if ltb (len b) (len a) then starts b a else starts a b

pub data Returns : Type 0 where
  none_ bool_ int_ string_ json_object : Returns

pub record Function : Type 0 where
  pub addr : ℕ
  pub ret_type : Returns

pub record Plugin : Type 0 where
  pub load_addr : ℕ
  pub size : ℕ
  pub entry : Function
  pub exit : Option Function

pub record SinglePluginLoader : Type 0 where
  pub plugin : Option Plugin
  pub load_addr : ℕ
  pub memsize : ℕ

-- Bytes written from an address on, and a jump to an address.
pub data Event : Type 0 where
  wrote : ℕ → List ℕ → Event
  called : ℕ → Returns → Event

-- A code, or the use of an empty `optional`.
pub data Reply : Type 0 where
  code_ : ℕ → Reply
  empty_optional_used : Reply

-- The storage of `GlobalPluginLoader`, at the address that the linker gives it.
abbrev pub the_memsize : ℕ
the_memsize = 1024

unfoldable pub global_plugin_loader : Bool → ℕ → SinglePluginLoader
global_plugin_loader enabled storage =
    if enabled
    then record {
      plugin = none;
      load_addr = align storage 4;
      memsize = the_memsize - disalignment storage 4;
    }
    else record { plugin = none; load_addr = 0; memsize = 0 }

abbrev pub plugin_can_load : Plugin → Bool
plugin_can_load p = if p.load_addr == 0 then true else not (p.size == 0)

abbrev pub can_load_with : Option Plugin → ℕ → Bool
can_load_with (some p) load_addr = plugin_can_load p
can_load_with none load_addr = not (load_addr == 0)

unfoldable pub can_load : SinglePluginLoader → Bool
can_load l = can_load_with l.plugin l.load_addr

-- The comment says that 0 is a success.
unfoldable pub load : SinglePluginLoader → Plugin → SinglePluginLoader × ℕ
load l new_plugin =
    if is_some l.plugin
    then (l, 1)
    else if ltb l.memsize new_plugin.size
    then (l, 2)
    else (record l { plugin = some new_plugin }, 1)

unfoldable pub unload : SinglePluginLoader → SinglePluginLoader
unload l = record l { plugin = none }

-- What the loader has from elsewhere: the conversion of a value that `is<int>()` to an address, the
-- conversion of any value to one, the comparison of a value with an address, the hash of the running
-- firmware as text, and the base64 decoder (text and size of the target).
pub record LoaderEnv (V : Type 0) : Type 0 where
  pub int_addr? : V → Option ℕ
  pub to_addr : V → ℕ
  pub is_addr : V → ℕ → Bool
  pub firmware_hash : String
  pub decode : String → ℕ → List ℕ

module _ {F V : Type 0} (js : JsonApi F V) (env : LoaderEnv V) where
  abbrev pub at : String → List (String × V) → V
  at name msg = or_else (member name msg) js.null

  abbrev pub returns_of : V → Returns
  returns_of v = elim (js.text? v) [
    | none ↦ none_
    | some s ↦
        if str_eq s "JsonObject"
        then json_object
        else if str_eq s "String"
        then string_
        else if str_eq s "Int"
        then int_
        else if str_eq s "Bool"
        then bool_
        else none_
  ]

  -- `convertFromJson` into a new `Function`.
  unfoldable pub function_of : V → Function
  function_of src = elim (env.int_addr? src) [
    | some a ↦ record { addr = a; ret_type = none_ }
    | none ↦ elim (js.object? src) [
      | none ↦ record { addr = 0; ret_type = none_ }
      | some o ↦ record {
        addr = env.to_addr (at "point" o);
        ret_type = returns_of (at "returns" o);
      }
    ]
  ]

  abbrev pub exit_of : List (String × V) → Option Function
  exit_of msg = elim (member "exit" msg) [ none ↦ none | some v ↦ some (function_of v) ]

  abbrev pub payload_of : List (String × V) → String
  payload_of msg = js.to_text (at "payload" msg)

  abbrev pub new_plugin : SinglePluginLoader → List (String × V) → Plugin
  new_plugin l msg = record {
    load_addr = l.load_addr;
    size = len (payload_of msg) / 4 * 3;
    entry = function_of (at "entry" msg);
    exit = exit_of msg;
  }

  -- What is done is listed first event first.
  abbrev pub Handled : Type 0
  Handled = (Reply × SinglePluginLoader) × List Event

  abbrev pub left_loaded : List (String × V) → SinglePluginLoader → SinglePluginLoader
  left_loaded msg l = if is_some (member "immediately_unload" msg) then unload l else l

  -- The jump into the plugin in the slot, after an event, with the address that can be called.
  abbrev pub jump_to : List (String × V) → SinglePluginLoader → Plugin → Event → Option ℕ → Handled
  jump_to msg l p e none = ((code_ 8, unload l), e ∷ [])
  jump_to msg l p e (some a) = ((code_ 0, left_loaded msg l), e ∷ called a p.entry.ret_type ∷ [])

  abbrev pub jump : List (String × V) → SinglePluginLoader → Option Plugin → Event → Handled
  jump msg l none e = ((empty_optional_used, l), e ∷ [])
  jump msg l (some p) e =
      jump_to msg l p e (assert_callable ((p.load_addr + p.entry.addr) % 2 ^ 32))

  abbrev pub submit : List (String × V) → SinglePluginLoader → Plugin → Handled
  submit msg l p =
      let (l', result) = load l p in
      let bytes = env.decode (payload_of msg) p.size in
      if result == 0
      then ((code_ 6, l'), [])
      else if not (length bytes == p.size)
      then ((code_ 7, unload l'), wrote p.load_addr bytes ∷ [])
      else jump msg l' l'.plugin (wrote p.load_addr bytes)

  unfoldable pub load_and_execute : SinglePluginLoader → List (String × V) → Handled
  unfolding can_load load unload assert_callable function_of sha256_test_short
  load_and_execute l msg =
      if is_some l.plugin
      then ((code_ 1, l), [])
      else if not (can_load l)
      then ((code_ 2, l), [])
      else if not (is_some (member "entry" msg))
      then ((code_ 3, l), [])
      else if not (env.is_addr (at "load_addr" msg) l.load_addr)
      then ((code_ 4, l), [])
      else if sha256_test_short (js.to_text (at "firmware_sha256" msg)) env.firmware_hash
      then ((code_ 5, l), [])
      else submit msg l (new_plugin l msg)

  abbrev pub leave_at : SinglePluginLoader → Function → Option ℕ → Handled
  leave_at l f none = ((code_ 10, unload l), [])
  leave_at l f (some a) = ((code_ 0, unload l), called a f.ret_type ∷ [])

  abbrev pub leave : SinglePluginLoader → Plugin → Option Function → Handled
  leave l p none = ((code_ 0, unload l), [])
  leave l p (some f) = leave_at l f (assert_callable ((p.load_addr + f.addr) % 2 ^ 32))

  unfoldable pub unload_message : SinglePluginLoader → Handled
  unfolding unload assert_callable
  unload_message l = elim l.plugin [ none ↦ ((code_ 9, l), []) | some p ↦ leave l p p.exit ]
