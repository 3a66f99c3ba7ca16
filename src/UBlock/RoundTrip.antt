-- ===== src/UBlock/RoundTrip.antt =====
-- What becomes of the configuration that a U-block prints when a U-block reads it.
use mathlib.Core.List.{append_assoc}
use lucidac_firmware.Common.{
  ℕ, suc, ◌+◌, ◌<◌, ◌≡◌, sym, ap, subst, arith, true, false, List, [], ◌∷◌, ◌++◌, map, ℤ, pos,
  negsuc, int8_small, length, length-append, length-map, get_or, set, get_or-append, set-append,
  replicate, All,
}
use lucidac_firmware.Float.{FloatApi, zero_float, one_float}
use lucidac_firmware.Status.{message}
use lucidac_firmware.Json.{JsonApi, JsonLaws, returned, ok, passed, for_each}
use lucidac_firmware.UBlock.{
  UBlock, ReferenceMagnitude, analog_input, disconnected, connect, reset_connections,
  io_sanity_check, is_output_connected_unchecked, connect_unchecked,
}
use lucidac_firmware.UBlock.Connect.{connect_lem}
use lucidac_firmware.UBlock.Invariant.{IsValid, IsEntry}
use lucidac_firmware.UBlock.Config.{
  config_output, config_outputs_array, config_outputs_from_json, config_self_from_json,
  config_self_to_json, output_to_json, constant_to_json, config_constants_from_json,
}

-- A block in analog mode with a given map.
abbrev analog : List ℤ → ReferenceMagnitude → UBlock
analog m ref = record {
  output_input_map = m;
  ref_magnitude = ref;
  a_side_mode = analog_input;
  b_side_mode = analog_input;
}

connect-analog :
    (m : List ℤ) (ref : ReferenceMagnitude) (i o : ℕ)
    → i < 16
    → o < 32
    → get_or m o disconnected ≡ disconnected
    → connect (analog m ref) i o false ≡ (analog (set m o (pos i)) ref, true)
unfolding io_sanity_check is_output_connected_unchecked connect_unchecked
connect-analog m ref i o hi ho e = rw connect_lem (ground (arith, e, int8_small i (omega arith)))

length-snoc : (xs : List ℤ) (z : ℤ) → length (xs ++ (z ∷ [])) ≡ suc (length xs)
length-snoc xs z = omega (arith, length-append xs (z ∷ []))

module _ {F V : Type 0} (fl : FloatApi F) (js : JsonApi F V) (laws : JsonLaws js) where
  -- One round of the loop puts the entry in its place.
  read_entry :
      (done r : List ℤ) (z : ℤ) (ref : ReferenceMagnitude)
      → length done < 32
      → IsEntry z
      → config_output fl js
          (output_to_json fl js z)
          (analog (done ++ (disconnected ∷ r)) ref, length done)
        ≡ ((analog (done ++ (z ∷ r)) ref, suc (length done)), ok)
  unfolding config_output
  read_entry done r (pos n) ref l h =
      rw
        (
          laws.uint8-is_null n,
          laws.uint8-uint8 n (omega (arith, h)),
          connect-analog (done ++ (disconnected ∷ r)) ref n (length done) h l
              (get_or-append done disconnected r disconnected),
          set-append done disconnected r (pos n),
        )
        (ap (λ t. ((analog (done ++ (pos n ∷ r)) ref, t), ok)) (omega arith))
  read_entry done r (negsuc n) ref l h =
      rw (laws.null-is_null, h)
        (ap (λ t. ((analog (done ++ (disconnected ∷ r)) ref, t), ok)) (omega arith))

  -- The outputs from `length done` on are still to be read.
  restore :
      (done rest : List ℤ) (ref : ReferenceMagnitude)
      → length done + length rest ≡ 32
      → All IsEntry rest
      → for_each
          (config_output fl js)
          (map (output_to_json fl js) rest)
          (analog (done ++ replicate (length rest) disconnected) ref, length done)
        ≡ ((analog (done ++ rest) ref, 32), ok)
  restore done [] ref l h = ap (λ t. ((analog (done ++ []) ref, t), ok)) (omega arith)
  restore done (z ∷ rest) ref l h =
      let ih =
        restore (done ++ (z ∷ [])) rest ref (omega (arith, length-append done (z ∷ []))) h.1 in
      rw (read_entry done (replicate (length rest) disconnected) z ref (omega arith) h.0)
        (simp (append_assoc, length-snoc done z) at ih)

  array_analog :
      (u : UBlock) (m : List ℤ) (ref : ReferenceMagnitude)
      → IsValid u
      → config_outputs_array fl js (analog m ref) (map (output_to_json fl js) u.output_input_map)
        ≡ (analog u.output_input_map ref, ok)
  unfolding config_outputs_array reset_connections
  array_analog u m ref valid =
      let start =
        ap
          (λ n.
            for_each (config_output fl js) (map (output_to_json fl js) u.output_input_map)
              (analog (replicate n disconnected) ref, 0))
          (sym valid.size) in
      rw (
        length-map (output_to_json fl js) u.output_input_map,
        valid.size,
        start,
        restore [] u.output_input_map ref (omega (arith, valid.size)) valid.entries,
      )

  restore_analog :
      (u : UBlock) (m : List ℤ) (ref : ReferenceMagnitude)
      → IsValid u
      → config_outputs_from_json fl js
          (analog m ref)
          (js.of_array (map (output_to_json fl js) u.output_input_map))
        ≡ (analog u.output_input_map ref, ok)
  unfolding config_outputs_from_json
  restore_analog u m ref valid =
      rw
        (laws.array-array (map (output_to_json fl js) u.output_input_map), config_outputs_from_json)
        (array_analog u m ref valid)

  -- The outputs array that a valid block prints is read back by any block whose two sides are in
  -- analog mode: reading succeeds, the whole map is the printed block's (whatever it was before), and
  -- the reader keeps its modes and its reference magnitude.
  pub config_outputs-to_json :
      (u w : UBlock)
      → IsValid u
      → w.a_side_mode ≡ analog_input
      → w.b_side_mode ≡ analog_input
      → config_outputs_from_json fl js w
          (js.of_array (map (output_to_json fl js) u.output_input_map))
        ≡ (record w { output_input_map = u.output_input_map }, ok)
  config_outputs-to_json u w valid a b =
      subst
        (λ t.
          config_outputs_from_json fl js t
            (js.of_array (map (output_to_json fl js) u.output_input_map))
          ≡ (record t { output_input_map = u.output_input_map }, ok))
        (λ i. record {
          output_input_map = w.output_input_map;
          ref_magnitude = w.ref_magnitude;
          a_side_mode = sym a i;
          b_side_mode = sym b i;
        })
        (restore_analog u w.output_input_map w.ref_magnitude valid)

  zero_refused :
      (w : UBlock)
      → fl.eq (fl.fabs (zero_float fl)) (fl.lit (pos 1) 1) ≡ false
      → fl.eq (fl.fabs (zero_float fl)) (one_float fl) ≡ false
      → (config_constants_from_json fl js w (js.of_bool false)).1 ≡ returned message
  unfolding config_constants_from_json
  zero_refused w tenth unit = rw (laws.bool-is_null false, laws.bool-bool false, tenth, unit)

  -- A block whose b side is in analog mode prints the constant `false`, and no block accepts what it
  -- printed: reading ends with a status that is not a success. (0 is neither 0.1 nor 1.)
  pub config_self-to_json_refused :
      (u w : UBlock)
      → u.b_side_mode ≡ analog_input
      → fl.eq (fl.fabs (zero_float fl)) (fl.lit (pos 1) 1) ≡ false
      → fl.eq (fl.fabs (zero_float fl)) (one_float fl) ≡ false
      → passed (config_self_from_json fl js w (config_self_to_json fl js u)).1 ≡ false
  unfolding config_self_from_json config_self_to_json
  config_self-to_json_refused u w b tenth unit =
      let e : constant_to_json fl js u ≡ js.of_bool false = rw b in
      rw e (
        ground (
          arith,
          zero_refused
              (config_outputs_from_json fl js w
                (js.of_array (map (output_to_json fl js) u.output_input_map))).0
              tenth unit,
        ))
