-- ===== src/Domain/Native.antt =====
-- internal/domain: debug identifiers (debugfile.go), native modules (native_module.go) and native
-- frames (native_frame.go).
pub mod Canonical
use gopnique.Base.{
  ℕ, Bool, true, false, not, ◌||◌, ◌&&◌, leb, ltb, ◌==◌, if◌then◌else◌, all, is_empty, [],
}
use gopnique.Base.Result.{Result, ok, ◌>>=◌, ◌>>◌, reject_if}
use gopnique.Base.Text.{Text, trim_space, valid_utf8, byte_len, remove_all, to_lower}

pub record DebugIdentifier : Type 0 where
  pub value : Text

pub record NativeModule : Type 0 where
  pub debug_id : DebugIdentifier
  pub code_file : Text
  pub image_addr : ℕ  -- uint64
  pub image_size : ℕ  -- uint64

pub record NativeFrame : Type 0 where
  pub instruction_addr : ℕ  -- uint64
  pub module_debug_id : DebugIdentifier
  pub has_module : Bool
  pub function : Text
  pub pkg : Text

unfoldable pub is_hex_digit : ℕ → Bool
is_hex_digit c = leb b'0' c && leb c b'9' || leb b'a' c && leb c b'f'

unfoldable pub visible_string : Text → Bool
visible_string s = all (λ c. not (ltb c 0x20 || c == 0x7f)) s

abbrev pub debug_identifier_min_hex_bytes : ℕ
debug_identifier_min_hex_bytes = 32

abbrev pub debug_identifier_max_hex_bytes : ℕ
debug_identifier_max_hex_bytes = 40

unfoldable pub new_debug_identifier : (ℕ → ℕ) → Text → Result DebugIdentifier
new_debug_identifier lower input = do
  let value = trim_space input
  reject_if (is_empty value) "debug identifier is required"
  let normalized = to_lower lower (remove_all b'-' value)
  reject_if (ltb (byte_len normalized) debug_identifier_min_hex_bytes)
      "debug identifier is too short"
  reject_if (ltb debug_identifier_max_hex_bytes (byte_len normalized))
      "debug identifier is too long"
  reject_if (not (all is_hex_digit normalized)) "debug identifier must be hexadecimal"
  ok (record { value = normalized })

abbrev native_code_file_max_bytes : ℕ
native_code_file_max_bytes = 1024

unfoldable pub normalize_native_code_file : Text → Result Text
normalize_native_code_file input = do
  let value = trim_space input
  reject_if (is_empty value) "native module requires code file"
  reject_if (not (valid_utf8 value)) "native module code file must be valid utf-8"
  reject_if (ltb native_code_file_max_bytes (byte_len value)) "native module code file is too long"
  reject_if (not (visible_string value))
      "native module code file must not contain control characters"
  ok value

unfoldable pub new_native_module : DebugIdentifier → Text → ℕ → ℕ → Result NativeModule
new_native_module debug_id code_file image_addr image_size = do
  reject_if (is_empty debug_id.value) "native module requires debug identifier"
  normalized ← normalize_native_code_file code_file
  ok (record {
    debug_id = debug_id;
    code_file = normalized;
    image_addr = image_addr;
    image_size = image_size;
  })

abbrev native_function_max_bytes : ℕ
native_function_max_bytes = 512

abbrev native_package_max_bytes : ℕ
native_package_max_bytes = 512

unfoldable pub normalize_native_function : Text → Result Text
normalize_native_function input =
    let value = trim_space input in
    let checked : Result Text = do
      reject_if (not (valid_utf8 value)) "native frame function must be valid utf-8"
      reject_if (ltb native_function_max_bytes (byte_len value)) "native frame function is too long"
      reject_if (not (visible_string value))
          "native frame function must not contain control characters"
      ok value
    in if is_empty value then ok value else checked

unfoldable pub normalize_native_package : Text → Result Text
normalize_native_package input =
    let value = trim_space input in
    let checked : Result Text = do
      reject_if (not (valid_utf8 value)) "native frame package must be valid utf-8"
      reject_if (ltb native_package_max_bytes (byte_len value)) "native frame package is too long"
      reject_if (not (visible_string value))
          "native frame package must not contain control characters"
      ok value
    in if is_empty value then ok value else checked

abbrev no_debug_identifier : DebugIdentifier
no_debug_identifier = record { value = [] }

unfoldable pub new_native_frame : ℕ → Text → Text → Result NativeFrame
new_native_frame instruction_addr function pkg = do
  normalized_function ← normalize_native_function function
  normalized_package ← normalize_native_package pkg
  ok (record {
    instruction_addr = instruction_addr;
    module_debug_id = no_debug_identifier;
    has_module = false;
    function = normalized_function;
    pkg = normalized_package;
  })

unfoldable pub new_native_frame_with_module : ℕ → DebugIdentifier → Text → Text → Result NativeFrame
new_native_frame_with_module instruction_addr module_debug_id function pkg = do
  reject_if (is_empty module_debug_id.value) "native frame module debug identifier is required"
  frame ← new_native_frame instruction_addr function pkg
  ok (record frame { module_debug_id = module_debug_id; has_module = true })
