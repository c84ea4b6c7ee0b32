-- ===== src/Sourcemap/Mappings.antt =====
-- `decodeMappings` and `ParseSourceMap` of internal/app/sourcemaps/parser.go.
use gopnique.Base.{Bool, true, false, not, List, [], ◌∷◌, ◌++◌, ◌==◌, if◌then◌else◌, is_empty, map}
use gopnique.Base.Int.{ℤ, pos, negsuc, add64, ltbℤ}
use gopnique.Base.Result.{Result, ok, ◌>>=◌, ◌>>◌, reject_if}
use gopnique.Base.Text.{Text, split, ends_with}
use gopnique.Sourcemap.Vlq.{decode_segment}

pub record Segment : Type 0 where
  pub generated_column : ℤ
  pub source_index : ℤ
  pub original_line : ℤ
  pub original_column : ℤ
  pub name_index : ℤ

pub record GeneratedLine : Type 0 where
  pub segments : List Segment

pub record SourceMap : Type 0 where
  pub sources : List Text
  pub names : List Text
  pub lines : List GeneratedLine

pub record RawSourceMap : Type 0 where
  pub version : ℤ
  pub source_root : Text
  pub sources : List Text
  pub names : List Text
  pub mappings : Text

-- `noIndex`
abbrev pub no_index : ℤ
no_index = negsuc 0

-- the four running values of `decodeMappings` that go from line to line
pub record Cursor : Type 0 where
  pub source_index : ℤ
  pub original_line : ℤ
  pub original_column : ℤ
  pub name_index : ℤ

abbrev pub start_cursor : Cursor
start_cursor = record {
  source_index = pos 0;
  original_line = pos 0;
  original_column = pos 0;
  name_index = pos 0;
}

abbrev bare : ℤ → Segment
bare column = record {
  generated_column = column;
  source_index = no_index;
  original_line = no_index;
  original_column = no_index;
  name_index = no_index;
}

abbrev move : Cursor → ℤ → ℤ → ℤ → Cursor
move c source line column = record c {
  source_index = add64 c.source_index source;
  original_line = add64 c.original_line line;
  original_column = add64 c.original_column column;
}

abbrev placed : ℤ → Cursor → Segment
placed column c = record {
  generated_column = column;
  source_index = c.source_index;
  original_line = c.original_line;
  original_column = c.original_column;
  name_index = no_index;
}

-- One round of the loop over segments: the new column, cursor and segment. `decodeSegment` gives
-- one, four or five fields, so the last clause stands for no input.
unfoldable pub apply_fields : ℤ → Cursor → List ℤ → ℤ × Cursor × Segment
apply_fields column c (a ∷ []) = let column' = add64 column a in (column', c, bare column')
apply_fields column c (a ∷ source ∷ line ∷ col ∷ []) =
    let column' = add64 column a in
    let c' = move c source line col in (column', c', placed column' c')
apply_fields column c (a ∷ source ∷ line ∷ col ∷ name ∷ []) =
    let column' = add64 column a in
    let moved = move c source line col in
    let c' = record moved { name_index = add64 c.name_index name } in
    (column', c', record (placed column' moved) { name_index = c'.name_index })
apply_fields column c fields = (column, c, bare column)

-- the loop over the raw segments of one line
unfoldable pub decode_line : ℤ → Cursor → List Text → Result (Cursor × List Segment)
decode_line column c [] = ok (c, [])
decode_line column c (raw ∷ raws) = elim (is_empty raw) [
  | true ↦ decode_line column c raws
  | false ↦ do
    values ← decode_segment raw
    let (column', c', segment) = apply_fields column c values
    (c'', segments) ← decode_line column' c' raws
    ok (c'', segment ∷ segments)
]

-- `sort.SliceStable` by generated column; a stable sort has one result, whatever its method
unfoldable pub insert_segment : Segment → List Segment → List Segment
insert_segment s [] = s ∷ []
insert_segment s (t ∷ ts) =
    let later = insert_segment s ts in
    if ltbℤ t.generated_column s.generated_column then t ∷ later else s ∷ t ∷ ts

unfoldable pub sort_segments : List Segment → List Segment
sort_segments [] = []
sort_segments (s ∷ ss) = insert_segment s (sort_segments ss)

-- the loop over the lines
unfoldable pub decode_lines : Cursor → List Text → Result (List GeneratedLine)
decode_lines c [] = ok []
decode_lines c (raw ∷ raws) = elim (is_empty raw) [
  | true ↦ do lines ← decode_lines c raws; ok (record { segments = [] } ∷ lines)
  | false ↦ do
    (c', segments) ← decode_line (pos 0) c (split b',' raw)
    lines ← decode_lines c' raws
    ok (record { segments = sort_segments segments } ∷ lines)
]

unfoldable pub decode_mappings : Text → Result (List GeneratedLine)
decode_mappings [] = ok []
decode_mappings (c ∷ input) = decode_lines start_cursor (split b';' (c ∷ input))

unfoldable pub join_source_root : Text → Text → Text
join_source_root root source = if ends_with b'/' root then root ++ source else root ++ b'/' ∷ source

abbrev pub is_version_three : ℤ → Bool
is_version_three (pos n) = n == 3
is_version_three (negsuc n) = false

-- `unmarshal` is `json.Unmarshal` into `rawSourceMap`.
unfoldable pub parse_source_map : (Text → Result RawSourceMap) → Text → Result SourceMap
parse_source_map unmarshal payload = do
  reject_if (is_empty payload) "source map payload is empty"
  raw ← unmarshal payload
  reject_if (not (is_version_three raw.version)) "unsupported source map version"
  let sources =
      map
        (λ value.
          if is_empty raw.source_root then value else join_source_root raw.source_root value)
        raw.sources
  lines ← decode_mappings raw.mappings
  ok (record { sources = sources; names = raw.names; lines = lines })
