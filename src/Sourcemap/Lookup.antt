-- ===== src/Sourcemap/Lookup.antt =====
-- internal/app/sourcemaps/lookup.go: the original position of a generated one.
use gopnique.Base.{
  ℕ, zero, suc, ◌+◌, ◌-◌, ◌/◌, Bool, true, false, not, List, [], Option, none, some, ltb, ◌==◌,
  if◌then◌else◌, length, get_elem?,
}
use gopnique.Base.Int.{ℤ, pos, negsuc, ltbℤ}
use gopnique.Base.Text.{Text}
use gopnique.Sourcemap.Mappings.{Segment, GeneratedLine, SourceMap}

pub record GeneratedPosition : Type 0 where
  pub line : ℤ
  pub column : ℤ

pub record ResolvedFrame : Type 0 where
  pub source : Text
  pub name : Text
  pub original_line : ℤ
  pub original_column : ℤ
  pub has_name : Bool

-- `(frame, true)`, `(ResolvedFrame{}, false)`, or an index out of range at run time.
pub data Outcome : Type 0 where
  found : ResolvedFrame → Outcome
  missing : Outcome
  panicked : Outcome

-- The loop of `sort.Search`, which halves `j - i`.
unfoldable pub search_loop : ℕ → ℕ → ℕ → (ℕ → Bool) → ℕ
search_loop zero i j f = i
search_loop (suc fuel) i j f =
    let h = (i + j) / 2 in
    let right = search_loop fuel (h + 1) j f in
    let left = search_loop fuel i h f in if ltb i j then (if not (f h) then right else left) else i

-- `sort.Search`, with fuel for every round
unfoldable pub search : ℕ → (ℕ → Bool) → ℕ
search n f = search_loop (suc n) 0 n f

-- the test of `LookupFrame`; `sort.Search` asks it below the length only
unfoldable pub is_beyond : List Segment → ℤ → ℕ → Bool
is_beyond segments column index = elim (get_elem? segments index) [
  | none ↦ true
  | some s ↦ ltbℤ column s.generated_column
]

-- the segment in front of the candidate
unfoldable pub choose : List Segment → ℤ → Option Segment
choose segments column =
    let candidate = search (length segments) (is_beyond segments column) in
    if candidate == 0 then none else get_elem? segments (candidate - 1)

-- Reading a Go slice at an int that was tested against -1 and the length: below -1 it panics.
pub data Entry : Type 0 where
  entry : Text → Entry
  absent : Entry
  out_of_range : Entry

unfoldable pub read_entry : List Text → ℤ → Entry
read_entry texts (pos n) = elim (get_elem? texts n) [ none ↦ absent | some t ↦ entry t ]
read_entry texts (negsuc zero) = absent
read_entry texts (negsuc (suc n)) = out_of_range

-- the frame, once its source is known
abbrev with_name : Segment → Text → Entry → Outcome
with_name chosen source (entry name) = found (record {
  source = source;
  name = name;
  original_line = chosen.original_line;
  original_column = chosen.original_column;
  has_name = true;
})
with_name chosen source absent = found (record {
  source = source;
  name = [];
  original_line = chosen.original_line;
  original_column = chosen.original_column;
  has_name = false;
})
with_name chosen source out_of_range = panicked

abbrev with_source : SourceMap → Segment → Entry → Outcome
with_source sm chosen (entry source) =
    with_name chosen source (read_entry sm.names chosen.name_index)
with_source sm chosen absent = missing
with_source sm chosen out_of_range = panicked

unfoldable pub resolve : SourceMap → Segment → Outcome
resolve sm chosen = with_source sm chosen (read_entry sm.sources chosen.source_index)

abbrev pub line_at : SourceMap → ℤ → Option GeneratedLine
line_at sm (pos n) = get_elem? sm.lines n
line_at sm (negsuc n) = none

unfoldable pub lookup_frame : SourceMap → GeneratedPosition → Outcome
lookup_frame sm position = elim (line_at sm position.line) [
  | none ↦ missing
  | some line ↦ elim (choose line.segments position.column) [
    | none ↦ missing
    | some chosen ↦ resolve sm chosen
  ]
]
