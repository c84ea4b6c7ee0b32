-- ===== src/Domain/JsFrames.antt =====
-- internal/domain/js_stacktrace_frame.go and sourcemap.go: JavaScript frames, and the names that
-- tell source maps apart.
use gopnique.Base.{
  ℕ, Bool, not, ◌||◌, [], ◌∷◌, ◌++◌, Option, none, some, ltb, is_empty, if◌then◌else◌,
}
use gopnique.Base.Int.{ℤ, pos, ltbℤ}
use gopnique.Base.Result.{Result, ok, ◌>>=◌, ◌>>◌, reject_if}
use gopnique.Base.Text.{Text, codes, trim_space, valid_utf8, byte_len, has_prefix, contains_any}
use gopnique.Domain.Native.{visible_string}
use Prim.Native.String.{String}

pub record JsStacktraceResolution : Type 0 where
  pub source : Text
  pub symbol : Text
  pub original_line : ℤ
  pub original_column : ℤ

pub record JsStacktraceFrame : Type 0 where
  pub abs_path : Text
  pub function : Text
  pub generated_line : ℤ
  pub generated_column : ℤ
  pub resolution : Option JsStacktraceResolution

-- the checks that the values here share, with the messages of each
abbrev checked_text : ℕ → String → String → String → Text → Result Text
checked_text most not_utf8 too_long has_control value = do
  reject_if (not (valid_utf8 value)) not_utf8
  reject_if (ltb most (byte_len value)) too_long
  reject_if (not (visible_string value)) has_control
  ok value

unfoldable pub normalize_js_abs_path : Text → Result Text
normalize_js_abs_path input = do
  let value = trim_space input
  reject_if (is_empty value) "js stacktrace frame abs path is required"
  checked_text 1024 "js stacktrace frame abs path must be valid utf-8"
      "js stacktrace frame abs path is too long"
      "js stacktrace frame abs path must not contain control characters" value

unfoldable pub normalize_js_function : Text → Result Text
normalize_js_function input =
    let value = trim_space input in
    if is_empty value
    then ok []
    else checked_text 256 "js stacktrace frame function must be valid utf-8"
        "js stacktrace frame function is too long"
        "js stacktrace frame function must not contain control characters" value

unfoldable pub normalize_js_resolved_source : Text → Result Text
normalize_js_resolved_source input = do
  let value = trim_space input
  reject_if (is_empty value) "js stacktrace resolution source is required"
  checked_text 1024 "js stacktrace resolution source must be valid utf-8"
      "js stacktrace resolution source is too long"
      "js stacktrace resolution source must not contain control characters" value

unfoldable pub normalize_js_resolved_symbol : Text → Result Text
normalize_js_resolved_symbol input =
    let value = trim_space input in
    if is_empty value
    then ok []
    else checked_text 256 "js stacktrace resolution symbol must be valid utf-8"
        "js stacktrace resolution symbol is too long"
        "js stacktrace resolution symbol must not contain control characters" value

unfoldable pub new_unresolved_js_stacktrace_frame : Text → Text → ℤ → ℤ → Result JsStacktraceFrame
new_unresolved_js_stacktrace_frame abs_path function generated_line generated_column = do
  normalized_abs_path ← normalize_js_abs_path abs_path
  normalized_function ← normalize_js_function function
  reject_if (ltbℤ generated_line (pos 1)) "js stacktrace frame generated line must be at least 1"
  reject_if (ltbℤ generated_column (pos 0))
      "js stacktrace frame generated column must not be negative"
  ok (record {
    abs_path = normalized_abs_path;
    function = normalized_function;
    generated_line = generated_line;
    generated_column = generated_column;
    resolution = none;
  })

unfoldable pub new_js_stacktrace_resolution : Text → Text → ℤ → ℤ → Result JsStacktraceResolution
new_js_stacktrace_resolution source symbol original_line original_column = do
  normalized_source ← normalize_js_resolved_source source
  normalized_symbol ← normalize_js_resolved_symbol symbol
  reject_if (ltbℤ original_line (pos 1)) "js stacktrace resolution original line must be at least 1"
  reject_if (ltbℤ original_column (pos 0))
      "js stacktrace resolution original column must not be negative"
  ok (record {
    source = normalized_source;
    symbol = normalized_symbol;
    original_line = original_line;
    original_column = original_column;
  })

unfoldable pub new_resolved_js_stacktrace_frame :
    Text → Text → ℤ → ℤ → Text → Text → ℤ → ℤ → Result JsStacktraceFrame
new_resolved_js_stacktrace_frame abs_path function generated_line generated_column source symbol
      line column =
    do
      frame ← new_unresolved_js_stacktrace_frame abs_path function generated_line generated_column
      resolution ← new_js_stacktrace_resolution source symbol line column
      ok (record frame { resolution = some resolution })

unfoldable pub new_release_name : Text → Result Text
new_release_name input = do
  let value = trim_space input
  reject_if (is_empty value) "release is required"
  checked_text 200 "release must be valid utf-8" "release is too long"
      "release must not contain control characters" value

unfoldable pub new_optional_dist_name : Text → Result Text
new_optional_dist_name input =
    let value = trim_space input in
    if is_empty value
    then ok []
    else checked_text 64 "dist must be valid utf-8" "dist is too long"
        "dist must not contain control characters" value

unfoldable pub contains_text : Text → Text → Bool
contains_text part [] = is_empty part
contains_text part (c ∷ s) = has_prefix part (c ∷ s) || contains_text part s

unfoldable pub new_source_map_file_name : Text → Result Text
new_source_map_file_name input = do
  let value = trim_space input
  reject_if (is_empty value) "source map file name is required"
  name ←
      checked_text 512 "source map file name must be valid utf-8" "source map file name is too long"
        "source map file name must not contain control characters" value
  reject_if (contains_any (b'\\' ∷ 0 ∷ []) name)
      "source map file name must not contain backslashes or null bytes"
  reject_if (contains_text (codes "..") name) "source map file name must not traverse paths"
  reject_if (has_prefix (codes "/") name) "source map file name must be relative"
  ok name

pub record SourceMapIdentity : Type 0 where
  pub release : Text
  pub dist : Text
  pub file_name : Text

unfoldable pub new_source_map_identity : Text → Text → Text → Result SourceMapIdentity
new_source_map_identity release dist file_name = do
  reject_if (is_empty release) "source map identity requires release"
  reject_if (is_empty file_name) "source map identity requires file name"
  ok (record { release = release; dist = dist; file_name = file_name })

-- `ArtifactName` of an identity; `hex_digest` is SHA-256, written in hexadecimal
unfoldable pub source_map_artifact_name : (Text → Text) → SourceMapIdentity → Text
source_map_artifact_name hex_digest identity =
    hex_digest (identity.release ++ 0x1f ∷ identity.dist ++ 0x1f ∷ identity.file_name)
    ++ codes ".map"
