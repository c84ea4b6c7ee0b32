-- ===== src/Sourcemap/Apply/Tests.antt =====
-- Two frames of an event with a stored source map: one lies in it, the other behind a path that names
-- no file.
use gopnique.Base.{◌≡◌, refl, List, [], ◌∷◌, ◌++◌, some, none, ◌⊎◌, if◌then◌else◌}
use gopnique.Base.Int.{pos, add64}
use gopnique.Base.Result.{ok}
use gopnique.Base.Text.{
  Text, codes, text_eq, is_space, trim_left, trim_right, trim_space, valid_utf8, byte_len,
  contains_any, has_prefix, split, split_by, ends_with,
}
use gopnique.Domain.Native.{visible_string}
use gopnique.Domain.JsFrames.{
  JsStacktraceFrame, normalize_js_abs_path, normalize_js_function, normalize_js_resolved_source,
  normalize_js_resolved_symbol, new_unresolved_js_stacktrace_frame, new_js_stacktrace_resolution,
  new_resolved_js_stacktrace_frame, new_release_name, new_optional_dist_name, contains_text,
  new_source_map_file_name, new_source_map_identity, source_map_artifact_name,
}
use gopnique.Sourcemap.Vlq.{
  base64_decode, index_of, finish, vlq_loop, decode_vlq, segment_fields, decode_segment,
}
use gopnique.Sourcemap.Mappings.{
  apply_fields, decode_line, insert_segment, sort_segments, decode_lines, decode_mappings,
  join_source_root, parse_source_map,
}
use gopnique.Sourcemap.Lookup.{
  search_loop, search, is_beyond, choose, read_entry, resolve, lookup_frame,
}
use gopnique.Sourcemap.Apply.{
  Service, load, resolve_position, source_map_file_name_from_abs_path, with_position,
  resolve_single_frame, apply_to_frames, first_dist_tag, apply_to_canonical_event,
}
use gopnique.Sourcemap.Apply.Resolved.{AllApplied, apply_to_canonical_event-AllApplied}

running : Unit {0}
unfolding index_of base64_decode finish vlq_loop decode_vlq segment_fields decode_segment add64
    apply_fields decode_line insert_segment sort_segments decode_lines decode_mappings
    join_source_root parse_source_map search_loop search is_beyond choose read_entry resolve
    lookup_frame split split_by ends_with text_eq is_space trim_left trim_right trim_space
    valid_utf8 byte_len contains_any has_prefix visible_string normalize_js_abs_path
    normalize_js_function normalize_js_resolved_source normalize_js_resolved_symbol
    new_unresolved_js_stacktrace_frame new_js_stacktrace_resolution new_resolved_js_stacktrace_frame
    new_release_name new_optional_dist_name contains_text new_source_map_file_name
    new_source_map_identity source_map_artifact_name load resolve_position
    source_map_file_name_from_abs_path with_position resolve_single_frame apply_to_frames
    first_dist_tag apply_to_canonical_event
running = tt

-- one map, stored under the name of its identity
abbrev service : Service
service = record {
  get_artifact = λ organization project name.
      if text_eq name (codes "1.0" ++ 0x1f ∷ codes "web" ++ 0x1f ∷ codes "app.js.map")
      then ok (some (codes "AAAA,UACIA"))
      else ok none;
  hex_digest = λ s. s;
  unmarshal = λ payload. ok (record {
    version = pos 3;
    source_root = codes "src";
    sources = codes "a.ts" ∷ codes "b.ts" ∷ [];
    names = codes "main" ∷ [];
    mappings = payload;
  });
  parse_url = λ s. none;
}

abbrev frame : Text → JsStacktraceFrame
frame path = record {
  abs_path = path;
  function = codes "f";
  generated_line = pos 1;
  generated_column = pos 12;
  resolution = none;
}

abbrev tags : Text → Text
tags key = if text_eq key (codes "sentry.dist") then codes " web " else []

abbrev frames : List JsStacktraceFrame
frames = frame (codes "app.js") ∷ frame (codes "../app.js") ∷ []

abbrev updated : List JsStacktraceFrame
updated =
    record (frame (codes "app.js")) {
      resolution = some (record {
        source = codes "src/a.ts";
        symbol = codes "main";
        original_line = pos 2;
        original_column = pos 4;
      });
    }
    ∷ frame (codes "../app.js")
    ∷ []

applies :
    apply_to_canonical_event service (codes "o") (codes "p") (codes "1.0") tags frames
    ≡ some updated
unfolding running
applies = refl

apply_to_canonical_event-AllApplied_example :
    (updated ≡ frames)
    ⊎ ((name : Text) × (dist : Text) × (new_release_name (codes "1.0") ≡ ok name)
        × (new_optional_dist_name (first_dist_tag tags) ≡ ok dist)
        × AllApplied service (codes "o") (codes "p") name dist frames updated)
apply_to_canonical_event-AllApplied_example =
    apply_to_canonical_event-AllApplied service (codes "o") (codes "p") (codes "1.0") tags frames
      updated applies
