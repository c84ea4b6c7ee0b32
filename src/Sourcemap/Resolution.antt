-- ===== src/Sourcemap/Resolution.antt =====
-- `LookupFrame` on a source map that `ParseSourceMap` returned.
use gopnique.Base.{
  ℕ, zero, suc, ◌≡◌, ◌↔◌, ◌⊎◌, refl, not, List, [], ◌∷◌, none, some, arith, get_elem?, All,
  Option-cases, inl, inr, is_empty,
}
use gopnique.Base.Int.{ℤ, pos, negsuc}
use gopnique.Base.Result.{Result, ok, >>=-eq-ok, reject_if}
use gopnique.Base.Text.{Text}
use gopnique.Sourcemap.Mappings.{
  Segment, GeneratedLine, SourceMap, RawSourceMap, parse_source_map, decode_mappings,
  is_version_three,
}
use gopnique.Sourcemap.Lookup.{
  GeneratedPosition, Outcome, missing, panicked, Entry, entry, absent, out_of_range, choose,
  resolve, read_entry, lookup_frame, line_at,
}
use gopnique.Sourcemap.Search.{IsSorted, last_at_or_before, choose-last_at_or_before}
use gopnique.Sourcemap.Sorted.{decode_mappings-IsSorted}

-- The lookup by a scan of the line instead of a binary search.
abbrev pub scan_line : SourceMap → List Segment → ℤ → Outcome
scan_line sm segments column = elim (last_at_or_before segments column) [
  | none ↦ missing
  | some chosen ↦ resolve sm chosen
]

abbrev pub lookup_by_scan : SourceMap → GeneratedPosition → Outcome
lookup_by_scan sm position = elim (line_at sm position.line) [
  | none ↦ missing
  | some line ↦ scan_line sm line.segments position.column
]

IsSorted-get_elem? :
    (lines : List GeneratedLine) (n : ℕ) (l : GeneratedLine)
    → All (λ l. IsSorted l.segments) lines
    → get_elem? lines n ≡ some l
    → IsSorted l.segments
IsSorted-get_elem? [] n l a h = cc
IsSorted-get_elem? (k ∷ ks) zero l a h = let e : k ≡ l = ground arith in rw (← e) a.0
IsSorted-get_elem? (k ∷ ks) (suc n) l a h = IsSorted-get_elem? ks n l a.1 h

line_at-IsSorted :
    (sm : SourceMap) (i : ℤ) (l : GeneratedLine)
    → All (λ l. IsSorted l.segments) sm.lines
    → line_at sm i ≡ some l
    → IsSorted l.segments
line_at-IsSorted sm (pos n) l a h = IsSorted-get_elem? sm.lines n l a h
line_at-IsSorted sm (negsuc n) l a h = cc

sorted_lookup :
    (sm : SourceMap) (p : GeneratedPosition)
    → All (λ l. IsSorted l.segments) sm.lines
    → lookup_frame sm p ≡ lookup_by_scan sm p
unfolding lookup_frame
sorted_lookup sm p a = elim (Option-cases (line_at sm p.line)) [
  | inl e ↦ ground (arith, e)
  | inr (l, e) ↦
      ground
        (arith, e, choose-last_at_or_before l.segments p.column (line_at-IsSorted sm p.line l a e))
]

parsed_lines :
    (unmarshal : Text → Result RawSourceMap) (payload : Text) (sm : SourceMap)
    → parse_source_map unmarshal payload ≡ ok sm
    → All (λ l. IsSorted l.segments) sm.lines
unfolding parse_source_map
parsed_lines unmarshal payload sm h =
    let (_, _, h1) = >>=-eq-ok (reject_if (is_empty payload) "source map payload is empty") _ h in
    let (raw, _, h2) = >>=-eq-ok (unmarshal payload) _ h1 in
    let (_, _, h3) =
      >>=-eq-ok (reject_if (not (is_version_three raw.version)) "unsupported source map version") _
        h2 in
    let (lines, p, q) = >>=-eq-ok (decode_mappings raw.mappings) _ h3 in
    let same : lines ≡ sm.lines = ground arith in
    rw (← same) (decode_mappings-IsSorted raw.mappings lines p).0

-- On every source map that parses, a lookup resolves the last segment of the line that lies at or
-- before the column; with no such line or no such segment nothing is found.
pub lookup_frame-lookup_by_scan :
    (unmarshal : Text → Result RawSourceMap) (payload : Text) (sm : SourceMap)
    (p : GeneratedPosition)
    → parse_source_map unmarshal payload ≡ ok sm
    → lookup_frame sm p ≡ lookup_by_scan sm p
lookup_frame-lookup_by_scan unmarshal payload sm p h =
    sorted_lookup sm p (parsed_lines unmarshal payload sm h)

-- An index below -1, which `LookupFrame` does not test for.
abbrev pub IsBelow : ℤ → Type 0
IsBelow i = (n : ℕ) × (i ≡ negsuc (suc n))

read_entry-IsBelow : (texts : List Text) (i : ℤ) → read_entry texts i ≡ out_of_range → IsBelow i
unfolding read_entry
read_entry-IsBelow texts (pos n) h = absurd (ground arith)
read_entry-IsBelow texts (negsuc zero) h = cc
read_entry-IsBelow texts (negsuc (suc n)) h = (n, refl)

IsBelow-read_entry : (texts : List Text) (i : ℤ) → IsBelow i → read_entry texts i ≡ out_of_range
unfolding read_entry
IsBelow-read_entry texts i (n, e) = rw e

resolve_to :
    (sm : SourceMap) (s : Segment)
    → resolve sm s ≡ panicked
    → IsBelow s.source_index
      ⊎ ((source : Text) × (read_entry sm.sources s.source_index ≡ entry source)
          × IsBelow s.name_index)
unfolding resolve
resolve_to sm s h = elim (Entry-cases (read_entry sm.sources s.source_index)) [
  | inl p ↦ inl (read_entry-IsBelow sm.sources s.source_index p)
  | inr (inl p) ↦ absurd (cc (rw (p, resolve) at h))
  | inr (inr (source, p)) ↦ elim (Entry-cases (read_entry sm.names s.name_index)) [
    | inl q ↦ inr (source, p, read_entry-IsBelow sm.names s.name_index q)
    | inr (inl q) ↦ absurd (cc (rw q at (rw (p, resolve) at h)))
    | inr (inr (name, q)) ↦ absurd (cc (rw q at (rw (p, resolve) at h)))
  ]
]
  where
    Entry-cases : (e : Entry) → (e ≡ out_of_range) ⊎ ((e ≡ absent) ⊎ ((t : Text) × (e ≡ entry t)))
    Entry-cases (entry t) = inr (inr (t, refl))
    Entry-cases absent = inr (inl refl)
    Entry-cases out_of_range = inl refl

resolve_from :
    (sm : SourceMap) (s : Segment)
    → IsBelow s.source_index
      ⊎ ((source : Text) × (read_entry sm.sources s.source_index ≡ entry source)
          × IsBelow s.name_index)
    → resolve sm s ≡ panicked
unfolding resolve
resolve_from sm s (inl b) = rw (IsBelow-read_entry sm.sources s.source_index b)
resolve_from sm s (inr (source, p, b)) = rw p (rw (IsBelow-read_entry sm.names s.name_index b))

-- Resolving a segment panics exactly when its source index lies below -1, or its source is there
-- and its name index lies below -1.
pub resolve-eq-panicked_iff :
    (sm : SourceMap) (s : Segment)
    → (resolve sm s ≡ panicked) ↔ (
        IsBelow s.source_index
        ⊎ ((source : Text) × (read_entry sm.sources s.source_index ≡ entry source)
            × IsBelow s.name_index))
resolve-eq-panicked_iff sm s = (resolve_to sm s, resolve_from sm s)

-- A lookup that chooses a segment whose source index lies below -1 panics.
pub lookup_frame_panics :
    (sm : SourceMap) (p : GeneratedPosition) (line : GeneratedLine) (s : Segment)
    → line_at sm p.line ≡ some line
    → choose line.segments p.column ≡ some s
    → IsBelow s.source_index
    → lookup_frame sm p ≡ panicked
unfolding lookup_frame
lookup_frame_panics sm p line s e f b = ground (arith, e, f, resolve_from sm s (inl b))
