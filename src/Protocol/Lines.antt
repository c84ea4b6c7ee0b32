-- ===== src/Protocol/Lines.antt =====
-- Reading of bytes in envelope.go. A reader is the bytes that are left. `bufio.Reader.ReadLine` drops the
-- line's end, "\n" or "\r\n"; a last line with no end is given without an error, except where it ends
-- with the reader's buffer, which the parameter `at_buffer_end` tells: then the end of the file is
-- reported with it.
use gopnique.Base.{
  ℕ, zero, suc, Bool, true, false, ◌||◌, List, [], ◌∷◌, Option, none, some, String, ltb, ◌==◌,
  length, is_empty, if◌then◌else◌,
}
use gopnique.Base.Result.{Result, ok, err}

abbrev pub Bytes : Type 0
Bytes = List ℕ

-- what a call of `readLimitedLine` gives: the line, whether the end of the file came with it, and what
-- is left
pub record Line : Type 0 where
  pub line : Bytes
  pub at_eof : Bool
  pub rest : Bytes

-- `bytes.TrimSuffix` by one byte
unfoldable pub trim_byte : ℕ → Bytes → Bytes
trim_byte c [] = []
trim_byte c (d ∷ []) = if d == c then [] else d ∷ []
trim_byte c (d ∷ e ∷ s) = d ∷ trim_byte c (e ∷ s)

-- the bytes before the first newline, those behind it, and whether there is one
unfoldable pub cut_line : Bytes → Bytes × Bool × Bytes
cut_line [] = ([], false, [])
cut_line (c ∷ s) =
    let rest = cut_line s in if c == b'\n' then ([], true, s) else (c ∷ rest.0, rest.1, rest.2)

abbrev pub line_of : (Bytes → Bool) → Bytes × Bool × Bytes → Line
line_of at_buffer_end (line, true, rest) = record {
  line = trim_byte b'\r' line;
  at_eof = false;
  rest = rest;
}
line_of at_buffer_end (line, false, rest) = record {
  line = line;
  at_eof = is_empty line || at_buffer_end line;
  rest = rest;
}

unfoldable pub read_limited_line : (Bytes → Bool) → ℕ → String → Bytes → Result Line
read_limited_line at_buffer_end limit message input =
    let next = line_of at_buffer_end (cut_line input) in
    if ltb limit (length next.line) then err message else ok next

-- the two `TrimSuffix` behind a read
abbrev pub trim_line : Bytes → Bytes
trim_line line = trim_byte b'\r' (trim_byte b'\n' line)

abbrev pub drop_newline : Bytes → Bytes
drop_newline [] = []
drop_newline (c ∷ s) = if c == b'\n' then s else c ∷ s

unfoldable pub consume_trailing_newline : Bytes → Bytes
consume_trailing_newline [] = []
consume_trailing_newline (c ∷ s) = if c == b'\r' then drop_newline s else drop_newline (c ∷ s)

-- `io.ReadFull` of so many bytes
unfoldable pub read_full : ℕ → Bytes → Option (Bytes × Bytes)
read_full zero s = some ([], s)
read_full (suc n) [] = none
read_full (suc n) (c ∷ s) = elim (read_full n s) [
  | none ↦ none
  | some (p, rest) ↦ some (c ∷ p, rest)
]
