-- ===== src/Sourcemap/Sorted.antt =====
-- `decodeMappings` leaves every line sorted, and loses no segment.
use gopnique.Base.{
  ◌≡◌, refl, Bool, true, false, List, [], ◌∷◌, arith, if◌then◌else◌, length, All, Bool-cases, inl,
  inr, is_empty,
}
use gopnique.Base.Int.{ℤ, pos, ltbℤ, ◌≤ℤ◌}
use gopnique.Base.Result.{ok, >>=-eq-ok}
use gopnique.Base.Text.{Text, split}
use gopnique.Sourcemap.Mappings.{
  Segment, GeneratedLine, Cursor, start_cursor, insert_segment, sort_segments, decode_line,
  decode_lines, decode_mappings,
}
use gopnique.Sourcemap.Search.{IsSorted}

-- the two columns are equal
abbrev same_column : ℤ → ℤ → Bool
same_column a b = if ltbℤ a b then false else if ltbℤ b a then false else true

-- the segments at one generated column, in order
abbrev pub at_column : ℤ → List Segment → List Segment
at_column column [] = []
at_column column (s ∷ ss) =
    let rest = at_column column ss in
    if same_column column s.generated_column then s ∷ rest else rest

All-insert_segment {ℓ} :
    (P : Segment → Type ℓ) (s : Segment) (ss : List Segment)
    → P s
    → All P ss
    → All P (insert_segment s ss)
unfolding insert_segment
All-insert_segment P s [] p a = (p, tt)
All-insert_segment P s (t ∷ ts) p a =
    elim (Bool-cases (ltbℤ t.generated_column s.generated_column)) [
      | inl e ↦ rw e (a.0, All-insert_segment P s ts p a.1)
      | inr e ↦ rw e (p, a)
    ]

le_of_sorted :
    (s t : Segment) (ts : List Segment)
    → s.generated_column ≤ℤ t.generated_column
    → All (λ u. t.generated_column ≤ℤ u.generated_column) ts
    → All (λ u. s.generated_column ≤ℤ u.generated_column) ts
le_of_sorted s t [] h a = tt
le_of_sorted s t (u ∷ us) h a = (omega arith, le_of_sorted s t us h a.1)

insert_segment-IsSorted :
    (s : Segment) (ss : List Segment) → IsSorted ss → IsSorted (insert_segment s ss)
unfolding insert_segment
insert_segment-IsSorted s [] h = (tt, tt)
insert_segment-IsSorted s (t ∷ ts) h =
    elim (Bool-cases (ltbℤ t.generated_column s.generated_column)) [
      | inl e ↦ rw e (
        All-insert_segment (λ u. t.generated_column ≤ℤ u.generated_column) s ts (ground arith) h.0,
        insert_segment-IsSorted s ts h.1,
      )
      | inr e ↦
          let le : s.generated_column ≤ℤ t.generated_column = ground arith in
          rw e ((le, le_of_sorted s t ts le h.0), h)
    ]

pub sort_segments-IsSorted : (ss : List Segment) → IsSorted (sort_segments ss)
unfolding sort_segments
sort_segments-IsSorted [] = tt
sort_segments-IsSorted (s ∷ ss) =
    insert_segment-IsSorted s (sort_segments ss) (sort_segments-IsSorted ss)

at_column-insert_segment :
    (column : ℤ) (s : Segment) (ss : List Segment)
    → at_column column (insert_segment s ss) ≡ at_column column (s ∷ ss)
unfolding insert_segment
at_column-insert_segment column s [] = refl
at_column-insert_segment column s (t ∷ ts) = ground (arith, at_column-insert_segment column s ts)

pub at_column-sort_segments :
    (column : ℤ) (ss : List Segment) → at_column column (sort_segments ss) ≡ at_column column ss
unfolding sort_segments
at_column-sort_segments column [] = refl
at_column-sort_segments column (s ∷ ss) =
    ground (
      arith,
      at_column-sort_segments column ss,
      at_column-insert_segment column s (sort_segments ss),
    )

-- The sort of a line's segments puts the columns in ascending order and, for every column, keeps
-- the segments at it, in the order of the file.
pub sort_segments_stable :
    (ss : List Segment) (column : ℤ)
    → IsSorted (sort_segments ss) × (at_column column (sort_segments ss) ≡ at_column column ss)
sort_segments_stable ss column = (sort_segments-IsSorted ss, at_column-sort_segments column ss)

decode_lines-IsSorted :
    (c : Cursor) (raws : List Text) (lines : List GeneratedLine)
    → decode_lines c raws ≡ ok lines
    → All (λ l. IsSorted l.segments) lines × (length lines ≡ length raws)
unfolding decode_lines
decode_lines-IsSorted c [] lines h = let e : [] ≡ lines = ground arith in rw (← e) (tt, refl)
decode_lines-IsSorted c (raw ∷ raws) lines h = elim (Bool-cases (is_empty raw)) [
  | inl e ↦
      let (rest, p, q) = >>=-eq-ok (decode_lines c raws) _ (rw (e, decode_lines) at h) in
      let (sorted, long) = decode_lines-IsSorted c raws rest p in
      let same : record { segments = [] } ∷ rest ≡ lines = ground arith in
      rw (← same) ((tt, sorted), omega arith)
  | inr e ↦
      let (found, _, h1) =
        >>=-eq-ok (decode_line (pos 0) c (split b',' raw)) _ (rw (e, decode_lines) at h) in
      let (rest, p, q) = >>=-eq-ok (decode_lines found.0 raws) _ h1 in
      let (sorted, long) = decode_lines-IsSorted found.0 raws rest p in
      let same : record { segments = sort_segments found.1 } ∷ rest ≡ lines = ground arith in
      rw (← same) ((sort_segments-IsSorted found.1, sorted), omega arith)
]

-- Decoded mappings have one line for each part between semicolons (none for the empty text), and
-- every line is sorted by generated column.
pub decode_mappings-IsSorted :
    (input : Text) (lines : List GeneratedLine)
    → decode_mappings input ≡ ok lines
    → All (λ l. IsSorted l.segments) lines
      × (length lines ≡ (if is_empty input then 0 else length (split b';' input)))
unfolding decode_mappings
decode_mappings-IsSorted [] lines h = let e : [] ≡ lines = ground arith in rw (← e) (tt, refl)
decode_mappings-IsSorted (c ∷ input) lines h =
    decode_lines-IsSorted start_cursor (split b';' (c ∷ input)) lines h
