-- ===== src/Sourcemap/Tests.antt =====
-- Small source maps, and the theorems at them.
use gopnique.Base.{
  ℕ, ◌≡◌, ◌⊎◌, String, refl, true, List, [], ◌∷◌, arith, length, All, inl, inr, is_empty,
  if◌then◌else◌,
}
use gopnique.Base.Int.{ℤ, pos, negsuc, add64}
use gopnique.Base.Result.{Result, ok, err}
use gopnique.Base.Text.{Text, codes, split, split_by, ends_with}
use gopnique.Sourcemap.Vlq.{
  base64_decode, index_of, finish, vlq_loop, decode_vlq, segment_fields, decode_segment,
}
use gopnique.Sourcemap.Mappings.{
  Segment, GeneratedLine, SourceMap, RawSourceMap, apply_fields, decode_line, insert_segment,
  sort_segments, decode_lines, decode_mappings, join_source_root, parse_source_map,
}
use gopnique.Sourcemap.Lookup.{
  GeneratedPosition, found, missing, panicked, search_loop, search, is_beyond, choose, read_entry,
  resolve, lookup_frame,
}
use gopnique.Sourcemap.Search.{IsSorted}
use gopnique.Sourcemap.Sorted.{decode_mappings-IsSorted}
use gopnique.Sourcemap.Resolution.{lookup_by_scan, lookup_frame-lookup_by_scan}
use gopnique.Sourcemap.RoundTrip.{
  encode_digits, encode_vlq, encode_segment, decode_segment-encode_segment,
}
use gopnique.Sourcemap.Termination.{segment_fields_ends}

-- everything that runs in a test
running : Unit {0}
unfolding index_of base64_decode finish vlq_loop decode_vlq segment_fields decode_segment add64
    apply_fields decode_line insert_segment sort_segments decode_lines decode_mappings
    join_source_root parse_source_map search_loop search is_beyond choose read_entry resolve
    lookup_frame split split_by ends_with encode_digits encode_vlq encode_segment
running = tt

reads_numbers :
    decode_segment (codes "gBAAkBD") ≡ ok (pos 16 ∷ pos 0 ∷ pos 0 ∷ pos 18 ∷ negsuc 0 ∷ [])
unfolding running
reads_numbers = refl

no_digit : decode_segment (codes "A!") ≡ err "invalid vlq character"
unfolding running
no_digit = refl

unfinished : decode_segment (codes "Ag") ≡ err "unexpected end of vlq"
unfolding running
unfinished = refl

two_fields : decode_segment (codes "AA") ≡ err "invalid source map segment field count"
unfolding running
two_fields = refl

abbrev raw : Text → RawSourceMap
raw mappings = record {
  version = pos 3;
  source_root = codes "src";
  sources = codes "a.ts" ∷ codes "b.ts" ∷ [];
  names = codes "main" ∷ [];
  mappings = mappings;
}

abbrev decoded : Text → Text → Result RawSourceMap
decoded mappings payload = ok (raw mappings)

-- The third segment of the first line lies in front of the second.
abbrev sample : Text
sample = codes "AAAA,UACIA,FCAG;;KAAA"

abbrev seg : ℕ → ℤ → ℤ → ℤ → ℤ → Segment
seg column source line col name = record {
  generated_column = pos column;
  source_index = source;
  original_line = line;
  original_column = col;
  name_index = name;
}

abbrev sample_map : SourceMap
sample_map = record {
  sources = codes "src/a.ts" ∷ codes "src/b.ts" ∷ [];
  names = codes "main" ∷ [];
  lines =
      record {
        segments =
            seg 0 (pos 0) (pos 0) (pos 0) (negsuc 0)
            ∷ seg 8 (pos 1) (pos 1) (pos 7) (negsuc 0)
            ∷ seg 10 (pos 0) (pos 1) (pos 4) (pos 0)
            ∷ [];
      }
      ∷ record { segments = [] }
      ∷ record { segments = seg 5 (pos 1) (pos 1) (pos 7) (negsuc 0) ∷ [] }
      ∷ [];
}

sample_parses : parse_source_map (decoded sample) (codes "{}") ≡ ok sample_map
unfolding running
sample_parses = refl

abbrev at : ℕ → ℕ → GeneratedPosition
at line column = record { line = pos line; column = pos column }

sample_lookup :
    lookup_frame sample_map (at 0 12)
    ≡ found (record {
      source = codes "src/a.ts";
      name = codes "main";
      original_line = pos 1;
      original_column = pos 4;
      has_name = true;
    })
unfolding running
sample_lookup = refl

sample_misses :
    (lookup_frame sample_map (at 2 4) ≡ missing)
    × (lookup_frame sample_map (at 1 4) ≡ missing)
    × (lookup_frame sample_map (at 3 4) ≡ missing)
unfolding running
sample_misses = (refl, refl, refl)

lookup_frame-lookup_by_scan_example :
    lookup_frame sample_map (at 0 9) ≡ lookup_by_scan sample_map (at 0 9)
lookup_frame-lookup_by_scan_example =
    lookup_frame-lookup_by_scan (decoded sample) (codes "{}") sample_map (at 0 9) sample_parses

abbrev four : List ℤ
four = pos 7 ∷ negsuc 4 ∷ pos 100000 ∷ pos 0 ∷ []

decode_segment-encode_segment_example : decode_segment (encode_segment four) ≡ ok four
decode_segment-encode_segment_example =
    decode_segment-encode_segment four (omega arith) (inr (inl refl))

segment_fields_ends_example :
    (((fields : List ℤ) × (segment_fields 9 (codes "gBAAkBD") ≡ ok fields))
      ⊎ ((rest : Text) × (e : String) × (decode_vlq rest ≡ err e)
          × (segment_fields 9 (codes "gBAAkBD") ≡ err e)))
    × (segment_fields 9 (codes "gBAAkBD") ≡ segment_fields 20 (codes "gBAAkBD"))
segment_fields_ends_example = segment_fields_ends 9 20 (codes "gBAAkBD") (omega arith) (omega arith)

decode_mappings-IsSorted_example :
    All (λ l. IsSorted l.segments) sample_map.lines
    × (length sample_map.lines ≡ (if is_empty sample then 0 else length (split b';' sample)))
unfolding running
decode_mappings-IsSorted_example = decode_mappings-IsSorted sample sample_map.lines refl

-- The source index goes to -2 in the first segment.
abbrev hostile : Text
hostile = codes "AFAA"

abbrev hostile_line : GeneratedLine
hostile_line = record { segments = seg 0 (negsuc 1) (pos 0) (pos 0) (negsuc 0) ∷ [] }

abbrev hostile_map : SourceMap
hostile_map = record sample_map { lines = hostile_line ∷ [] }

hostile_parses : parse_source_map (decoded hostile) (codes "{}") ≡ ok hostile_map
unfolding running
hostile_parses = refl

-- The lookup indexes the sources with it.
lookup_panics : lookup_frame hostile_map (at 0 3) ≡ panicked
unfolding running
lookup_panics = refl
