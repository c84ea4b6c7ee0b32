-- ===== src/Debugfiles/Tests.antt =====
-- A small symbol file and a frame that it names, with the theorems at them.
use gopnique.Base.{
  ℕ, zero, suc, ◌+◌, ◌≡◌, ◌<◌, ◌⊎◌, refl, true, List, [], ◌∷◌, ◌++◌, none, some, All,
}
use gopnique.Base.Result.{Result, ok}
use gopnique.Base.Text.{
  Text, codes, text_eq, is_space, trim_space, trim_left, trim_right, valid_utf8, byte_len,
  remove_all, to_lower, split_by, split, fields, join, has_prefix,
}
use gopnique.Domain.Native.{
  DebugIdentifier, NativeModule, NativeFrame, is_hex_digit, visible_string, new_debug_identifier,
  normalize_native_function, normalize_native_package, new_native_frame,
  new_native_frame_with_module,
}
use gopnique.Domain.Native.Canonical.{IsCanonical}
use gopnique.Debugfiles.Breakpad.{
  BreakpadFunction, BreakpadSymbols, parse_digits, parse_breakpad_hex, function_at,
  parse_breakpad_function, parse_breakpad_module, parse_line, parse_lines, parse_breakpad_symbols,
  contains, lookup,
}
use gopnique.Debugfiles.Apply.{
  native_module_for_debug_id, native_instruction_offset, native_frame_package,
  open_breakpad_symbols, find_in, find_breakpad_symbols, symbolicate_single_frame, apply_to_frames,
}
use gopnique.Debugfiles.Lookup.{Covers, lookup_first}
use gopnique.Debugfiles.Table.{IsSound, parse_breakpad_symbols-ok}
use gopnique.Debugfiles.Offsets.{native_instruction_offset-some}
use gopnique.Debugfiles.Frames.{IsSymbolicated, symbolicate_single_frame-some}

running : Unit {0}
unfolding text_eq is_space trim_space trim_left trim_right valid_utf8 byte_len remove_all to_lower
    split_by split fields join has_prefix is_hex_digit visible_string new_debug_identifier
    normalize_native_function normalize_native_package new_native_frame new_native_frame_with_module
    parse_digits parse_breakpad_hex function_at parse_breakpad_function parse_breakpad_module
    parse_line parse_lines parse_breakpad_symbols contains lookup native_module_for_debug_id
    native_instruction_offset native_frame_package open_breakpad_symbols find_in
    find_breakpad_symbols symbolicate_single_frame apply_to_frames
running = tt

abbrev payload : Text
payload =
    codes
      "MODULE Linux x86_64 0403020106050807090A0B0C0D0E0FFF1 app\nFUNC 100 20 0 main\nFUNC m 0x200 0 0 tail call\nFUNC zz 1 0 bad\n"

abbrev app_id : DebugIdentifier
app_id = record { value = codes "0403020106050807090a0b0c0d0e0fff1" }

abbrev app_functions : List BreakpadFunction
app_functions =
    record { address = 0x100; size = 0x20; name = codes "main" }
    ∷ record { address = 0x200; size = 0; name = codes "tail call" }
    ∷ []

abbrev app_symbols : BreakpadSymbols
app_symbols = record { debug_id = app_id; code_file = codes "app"; functions = app_functions }

abbrev keep : ℕ → ℕ
keep c = c

payload-parsed : parse_breakpad_symbols keep payload ≡ ok app_symbols
unfolding running
payload-parsed = refl

parse_breakpad_symbols-ok_example : IsCanonical app_id.value × All IsSound app_functions
parse_breakpad_symbols-ok_example =
    parse_breakpad_symbols-ok keep payload app_symbols payload-parsed

end_of_main : lookup app_functions 0x120 ≡ none
unfolding running
end_of_main = refl

lookup_first_example :
    ((lookup app_functions 0x200 ≡ none) × All (λ f. ¬ (Covers f 0x200)) app_functions)
    ⊎ ((f : BreakpadFunction) × (before : List BreakpadFunction) × (after : List BreakpadFunction)
        × (lookup app_functions 0x200 ≡ some f.name)
        × (app_functions ≡ before ++ f ∷ after)
        × Covers f 0x200
        × All (λ g. ¬ (Covers g 0x200)) before)
lookup_first_example = lookup_first app_functions 0x200

-- two stored files, the first of them broken
abbrev stored : ℕ → Result Text
stored zero = ok (codes "no symbols")
stored (suc n) = ok payload

abbrev find : DebugIdentifier → Result BreakpadSymbols
find = find_breakpad_symbols keep (ok (0 ∷ 1 ∷ [])) stored

found : find app_id ≡ ok app_symbols
unfolding running
found = refl

abbrev app_module : NativeModule
app_module = record {
  debug_id = app_id;
  code_file = codes "app";
  image_addr = 0x4000;
  image_size = 0x1000;
}

abbrev raw_frame : NativeFrame
raw_frame = record {
  instruction_addr = 0x4110;
  module_debug_id = app_id;
  has_module = true;
  function = [];
  pkg = [];
}

abbrev main_frame : NativeFrame
main_frame = record {
  instruction_addr = 0x4110;
  module_debug_id = app_id;
  has_module = true;
  function = codes "main";
  pkg = codes "app";
}

raw_frame-named : symbolicate_single_frame find (app_module ∷ []) raw_frame ≡ some main_frame
unfolding running
raw_frame-named = refl

raw_frame-offset : native_instruction_offset raw_frame (some app_module) ≡ some 0x110
unfolding running
raw_frame-offset = refl

native_instruction_offset-some_example :
    (raw_frame.instruction_addr ≡ 0x4000 + 0x110)
    × ((app_module.image_size ≡ 0) ⊎ (0x110 < app_module.image_size))
native_instruction_offset-some_example =
    native_instruction_offset-some raw_frame app_module 0x110 raw_frame-offset

symbolicate_single_frame-some_example : IsSymbolicated find (app_module ∷ []) raw_frame main_frame
symbolicate_single_frame-some_example =
    symbolicate_single_frame-some find (app_module ∷ []) raw_frame main_frame raw_frame-named
