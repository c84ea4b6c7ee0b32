-- ===== src/Debugfiles/Apply.antt =====
-- internal/app/debugfiles/apply.go: the frames of an event with the functions that the stored symbols
-- name. The artifact vault is a parameter: the keys that it lists for the project, and the content
-- of each, of which no more is read than the limit and one byte.
use gopnique.Base.{
  ℕ, ◌-◌, List, [], ◌∷◌, Option, none, some, ltb, leb, ◌==◌, is_empty, if◌then◌else◌,
}
use gopnique.Base.Result.{Result, ok, err}
use gopnique.Base.Text.{Text, text_eq, byte_len}
use gopnique.Domain.Native.{
  DebugIdentifier, NativeModule, NativeFrame, new_native_frame_with_module,
}
use gopnique.Debugfiles.Breakpad.{BreakpadSymbols, parse_breakpad_symbols, lookup}

unfoldable pub native_module_for_debug_id :
    List NativeModule → DebugIdentifier → Option NativeModule
native_module_for_debug_id [] debug_id = none
native_module_for_debug_id (m ∷ modules) debug_id =
    let rest = native_module_for_debug_id modules debug_id in
    if text_eq m.debug_id.value debug_id.value then some m else rest

unfoldable pub native_instruction_offset : NativeFrame → Option NativeModule → Option ℕ
native_instruction_offset frame none = some frame.instruction_addr
native_instruction_offset frame (some m) =
    if ltb frame.instruction_addr m.image_addr
    then none
    else if m.image_size == 0
    then some (frame.instruction_addr - m.image_addr)
    else if leb m.image_size (frame.instruction_addr - m.image_addr)
    then none
    else some (frame.instruction_addr - m.image_addr)

unfoldable pub native_frame_package : NativeFrame → Option NativeModule → Text
native_frame_package frame m =
    if is_empty frame.pkg then elim m [ none ↦ [] | some m' ↦ m'.code_file ] else frame.pkg

abbrev pub to_option : {A : Type 0} → Result A → Option A
to_option (ok a) = some a
to_option (err e) = none

abbrev pub debug_file_max_bytes : ℕ
debug_file_max_bytes = 268435456

module _ (lower : ℕ → ℕ) {Key : Type 0} (list_artifacts : Result (List Key))
    (get_artifact : Key → Result Text) where
  abbrev parse_payload : Result Text → Result BreakpadSymbols
  parse_payload (err e) = err e
  parse_payload (ok payload) =
      if ltb debug_file_max_bytes (byte_len payload)
      then err "debug file is too large"
      else parse_breakpad_symbols lower payload

  unfoldable pub open_breakpad_symbols : Key → Result BreakpadSymbols
  open_breakpad_symbols key = parse_payload (get_artifact key)

  unfoldable pub find_in : List Key → DebugIdentifier → Result BreakpadSymbols
  find_in [] debug_id = err "debug file not found"
  find_in (key ∷ keys) debug_id =
      let rest = find_in keys debug_id in
      elim (open_breakpad_symbols key) [
        | err e ↦ rest
        | ok symbols ↦ if text_eq symbols.debug_id.value debug_id.value then ok symbols else rest
      ]

  unfoldable pub find_breakpad_symbols : DebugIdentifier → Result BreakpadSymbols
  find_breakpad_symbols debug_id = elim list_artifacts [
    | err e ↦ err e
    | ok keys ↦ find_in keys debug_id
  ]

module _ (find : DebugIdentifier → Result BreakpadSymbols) where
  abbrev pub symbol_at : DebugIdentifier → Option ℕ → Option Text
  symbol_at debug_id none = none
  symbol_at debug_id (some offset) = elim (find debug_id) [
    | err e ↦ none
    | ok symbols ↦ lookup symbols.functions offset
  ]

  abbrev pub with_function : NativeFrame → Option NativeModule → Option Text → Option NativeFrame
  with_function frame m none = none
  with_function frame m (some function) = to_option (
      new_native_frame_with_module frame.instruction_addr frame.module_debug_id function
        (native_frame_package frame m))

  -- none if the frame stays as it is
  unfoldable pub symbolicate_single_frame : List NativeModule → NativeFrame → Option NativeFrame
  symbolicate_single_frame modules frame =
      let m = native_module_for_debug_id modules frame.module_debug_id in
      if frame.has_module
      then with_function frame m
          (symbol_at frame.module_debug_id (native_instruction_offset frame m))
      else none

  -- `ApplyToCanonicalEvent`, on the frames of an event
  unfoldable pub apply_to_frames : List NativeModule → List NativeFrame → List NativeFrame
  apply_to_frames modules [] = []
  apply_to_frames modules (frame ∷ frames) =
      let rest = apply_to_frames modules frames in
      elim (symbolicate_single_frame modules frame) [
        | none ↦ frame ∷ rest
        | some updated ↦ updated ∷ rest
      ]
