-- ===== src/Debugfiles/Breakpad.antt =====
-- internal/app/debugfiles/breakpad.go: the parser of Breakpad symbol files, and the lookup of the
-- function at an offset. The payload is a Go string (`Text`); an address is a uint64.
use gopnique.Base.{
  ℕ, ◌+◌, ◌-◌, ◌*◌, ◌^◌, Bool, false, ◌&&◌, List, [], ◌∷◌, ◌++◌, Option, none, some, ltb, leb, ◌==◌,
  length, drop, get_elem?, is_empty, if◌then◌else◌,
}
use gopnique.Base.Maybe.{◌>>=◌}
use gopnique.Base.Result.{Result, ok, err}
use gopnique.Base.Text.{Text, codes, text_eq, trim_space, byte_len, has_prefix, split, fields, join}
use gopnique.Domain.Native.{DebugIdentifier, new_debug_identifier}

pub record BreakpadFunction : Type 0 where
  pub address : ℕ  -- uint64
  pub size : ℕ  -- uint64
  pub name : Text

pub record BreakpadSymbols : Type 0 where
  pub debug_id : DebugIdentifier
  pub code_file : Text
  pub functions : List BreakpadFunction

abbrev pub no_symbols : BreakpadSymbols
no_symbols = record { debug_id = record { value = [] }; code_file = []; functions = [] }

abbrev hex_value : ℕ → Option ℕ
hex_value c =
    if leb b'0' c && leb c b'9'
    then some (c - b'0')
    else if leb b'a' c && leb c b'f'
    then some (c - b'a' + 10)
    else if leb b'A' c && leb c b'F'
    then some (c - b'A' + 10)
    else none

-- `strconv.ParseUint(s, 16, 64)`: at least one digit, and less than 2 ^ 64
unfoldable pub parse_digits : ℕ → Text → Option ℕ
parse_digits value [] = if ltb value (2 ^ 64) then some value else none
parse_digits value (c ∷ s) = hex_value c >>= λ d. parse_digits (value * 16 + d) s

abbrev pub parse_uint : Text → Option ℕ
parse_uint s = if is_empty s then none else parse_digits 0 s

abbrev trim_prefix : Text → Text → Text
trim_prefix prefix s = if has_prefix prefix s then drop (length prefix) s else s

unfoldable pub parse_breakpad_hex : Text → Option ℕ
parse_breakpad_hex input =
    parse_uint (trim_prefix (codes "0X") (trim_prefix (codes "0x") (trim_space input)))

-- the words behind the one at `offset + 2`, as a name; none if it is empty
abbrev pub function_name : ℕ → List Text → Option Text
function_name offset words =
    let name = trim_space (join b' ' (drop (offset + 3) words)) in
    if is_empty name then none else some name

-- behind the optional `m` that marks a function of several names
unfoldable pub function_at : ℕ → List Text → Option BreakpadFunction
function_at offset words =
    if ltb (length words) (offset + 4)
    then none
    else (get_elem? words offset >>= λ address_word. parse_breakpad_hex address_word >>= λ address.
        get_elem? words (offset + 1) >>= λ size_word. parse_breakpad_hex size_word >>= λ size.
        function_name offset words >>= λ name.
        some (record { address = address; size = size; name = name }))

abbrev pub is_word : ℕ → Text → List Text → Bool
is_word i word words = elim (get_elem? words i) [ none ↦ false | some w ↦ text_eq w word ]

unfoldable pub parse_breakpad_function : Text → Option BreakpadFunction
parse_breakpad_function line =
    let words = fields line in
    if is_word 1 (codes "m") words then function_at 2 words else function_at 1 words

-- the symbols with the header of a MODULE line
abbrev pub with_header :
    BreakpadSymbols → List Text → Result DebugIdentifier → Result BreakpadSymbols
with_header symbols words (err e) = err e
with_header symbols words (ok debug_id) = ok (record {
  debug_id = debug_id;
  code_file = join b' ' (drop 4 words);
  functions = symbols.functions;
})

unfoldable pub parse_breakpad_module : (ℕ → ℕ) → BreakpadSymbols → Text → Result BreakpadSymbols
parse_breakpad_module lower symbols line =
    let words = fields line in
    if ltb (length words) 5
    then err "breakpad module header is invalid"
    else elim (get_elem? words 3) [
      | none ↦ err "breakpad module header is invalid"
      | some word ↦ with_header symbols words (new_debug_identifier lower word)
    ]

abbrev pub add_function : BreakpadSymbols → Option BreakpadFunction → BreakpadSymbols
add_function symbols none = symbols
add_function symbols (some function) = record {
  debug_id = symbols.debug_id;
  code_file = symbols.code_file;
  functions = symbols.functions ++ function ∷ [];
}

-- one line of the loop
unfoldable pub parse_line : (ℕ → ℕ) → BreakpadSymbols → Text → Result BreakpadSymbols
parse_line lower symbols raw =
    let line = trim_space raw in
    if is_empty line
    then ok symbols
    else if has_prefix (codes "MODULE ") line
    then parse_breakpad_module lower symbols line
    else if has_prefix (codes "FUNC ") line
    then ok (add_function symbols (parse_breakpad_function line))
    else ok symbols

abbrev pub max_line_bytes : ℕ
max_line_bytes = 1048576

-- A line that does not fit the scanner's buffer ends the loop.
unfoldable pub parse_lines : (ℕ → ℕ) → BreakpadSymbols → List Text → Result BreakpadSymbols
parse_lines lower symbols [] = ok symbols
parse_lines lower symbols (line ∷ lines) =
    if leb max_line_bytes (byte_len line)
    then err "bufio.Scanner: token too long"
    else elim (parse_line lower symbols line) [
      | err e ↦ err e
      | ok next ↦ parse_lines lower next lines
    ]

abbrev pub require_header : Result BreakpadSymbols → Result BreakpadSymbols
require_header (err e) = err e
require_header (ok symbols) =
    if is_empty symbols.debug_id.value
    then err "breakpad symbols require module header"
    else ok symbols

unfoldable pub parse_breakpad_symbols : (ℕ → ℕ) → Text → Result BreakpadSymbols
parse_breakpad_symbols lower payload =
    require_header (parse_lines lower no_symbols (split b'\n' payload))

unfoldable pub contains : BreakpadFunction → ℕ → Bool
contains function offset =
    if ltb offset function.address
    then false
    else if function.size == 0
    then offset == function.address
    else ltb (offset - function.address) function.size

unfoldable pub lookup : List BreakpadFunction → ℕ → Option Text
lookup [] offset = none
lookup (function ∷ functions) offset =
    let rest = lookup functions offset in
    if contains function offset then some function.name else rest
