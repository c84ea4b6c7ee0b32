-- ===== src/Sourcemap/Apply.antt =====
-- internal/app/sourcemaps/apply.go and service.go (`Load`, `Resolve`): the JavaScript frames of an
-- event with their original positions. The artifact vault, SHA-256, `url.Parse` and `json.Unmarshal`
-- are parameters. A lookup may panic (Sourcemap/Lookup.antt), and the panic is not caught here.
pub mod Resolved
mod Tests
use gopnique.Base.{
  ℕ, Bool, true, false, not, ◌==◌, ◌&&◌, ◌||◌, List, [], ◌∷◌, Option, none, some, ltb, is_empty,
  if◌then◌else◌,
}
use gopnique.Base.Int.{ℤ, pos, negsuc, add64}
use gopnique.Base.Result.{Result, ok, err, ◌>>=◌, ◌>>◌, reject_if}
use gopnique.Base.Text.{Text, codes, trim_space, byte_len}
use gopnique.Domain.JsFrames.{
  JsStacktraceFrame, JsStacktraceResolution, new_resolved_js_stacktrace_frame, new_release_name,
  new_optional_dist_name, new_source_map_file_name, SourceMapIdentity, new_source_map_identity,
  source_map_artifact_name,
}
use gopnique.Sourcemap.Mappings.{SourceMap, RawSourceMap, parse_source_map}
use gopnique.Sourcemap.Lookup.{
  GeneratedPosition, ResolvedFrame, Outcome, found, missing, panicked, lookup_frame,
}

-- `url.URL`, as far as it is read
pub record UrlParts : Type 0 where
  pub scheme : Text
  pub host : Text
  pub path : Text

abbrev source_map_max_bytes : ℕ
source_map_max_bytes = 67108864

-- The vault holds, for an organization, a project and a name, a content, nothing, or an error; of a
-- content no more is read than the limit and one byte.
pub record Service : Type 0 where
  pub get_artifact : Text → Text → Text → Result (Option Text)
  pub hex_digest : Text → Text
  pub unmarshal : Text → Result RawSourceMap
  pub parse_url : Text → Option UrlParts

abbrev parse_payload : Service → Option Text → Result SourceMap
parse_payload service none = err "source map not found"
parse_payload service (some payload) =
    if ltb source_map_max_bytes (byte_len payload)
    then err "source map exceeds size limit"
    else parse_source_map service.unmarshal payload

unfoldable pub load : Service → Text → Text → SourceMapIdentity → Result SourceMap
load service organization_id project_id identity = do
  reject_if (is_empty organization_id) "artifact key requires organization id"
  reject_if (is_empty project_id) "artifact key requires project id"
  body ←
      service.get_artifact organization_id project_id
        (source_map_artifact_name service.hex_digest identity)
  parse_payload service body

-- `Resolve`, which panics where the lookup does
unfoldable pub resolve_position :
    Service → Text → Text → SourceMapIdentity → GeneratedPosition → Outcome
resolve_position service organization_id project_id identity position =
    elim (load service organization_id project_id identity) [
      | err e ↦ missing
      | ok loaded ↦ lookup_frame loaded position
    ]

abbrev trim_slash : Text → Text
trim_slash [] = []
trim_slash (c ∷ s) = if c == b'/' then s else c ∷ s

abbrev candidate_of : Text → Option UrlParts → Text
candidate_of trimmed none = trimmed
candidate_of trimmed (some parsed) =
    if (not (is_empty parsed.scheme) || not (is_empty parsed.host)) && not (is_empty parsed.path)
    then trim_slash parsed.path
    else trimmed

unfoldable pub source_map_file_name_from_abs_path : Service → Text → Result Text
source_map_file_name_from_abs_path service abs_path = do
  let trimmed = trim_space abs_path
  reject_if (is_empty trimmed) "abs path is empty"
  new_source_map_file_name (candidate_of trimmed (service.parse_url trimmed))

-- `(frame, false)`, `(resolved, true)`, or a panic
pub data Applied : Type 0 where
  kept : Applied
  replaced : JsStacktraceFrame → Applied
  stopped : Applied

abbrev pub applied : Result JsStacktraceFrame → Applied
applied (err e) = kept
applied (ok resolved) = replaced resolved

-- the frame that `NewResolvedJsStacktraceFrame` makes of what a lookup found
unfoldable pub with_position : JsStacktraceFrame → Outcome → Applied
with_position frame missing = kept
with_position frame panicked = stopped
with_position frame (found at_) = applied (
    new_resolved_js_stacktrace_frame frame.abs_path frame.function frame.generated_line
      frame.generated_column at_.source (if at_.has_name then at_.name else frame.function)
      (add64 at_.original_line (pos 1)) at_.original_column)

module _ (service : Service) (organization_id project_id : Text) where
  abbrev pub identity_of : Text → Text → JsStacktraceFrame → Result SourceMapIdentity
  identity_of release dist frame = do
    file_name ← source_map_file_name_from_abs_path service frame.abs_path
    new_source_map_identity release dist file_name

  -- the frame of an identity
  abbrev pub with_identity : JsStacktraceFrame → Result SourceMapIdentity → Applied
  with_identity frame (err e) = kept
  with_identity frame (ok identity) = with_position frame (
      resolve_position service organization_id project_id identity
        (record { line = add64 frame.generated_line (negsuc 0); column = frame.generated_column }))

  abbrev pub unless_resolved : Option JsStacktraceResolution → Applied → Applied
  unless_resolved (some resolution) rest = kept
  unless_resolved none rest = rest

  unfoldable pub resolve_single_frame : Text → Text → JsStacktraceFrame → Applied
  resolve_single_frame release dist frame =
      unless_resolved frame.resolution (with_identity frame (identity_of release dist frame))

  abbrev pub cons_applied :
      JsStacktraceFrame
      → Applied
      → Option (List JsStacktraceFrame)
      → Option (List JsStacktraceFrame)
  cons_applied frame stopped rest = none
  cons_applied frame applied none = none
  cons_applied frame kept (some frames) = some (frame ∷ frames)
  cons_applied frame (replaced resolved) (some frames) = some (resolved ∷ frames)

  -- the loop of `ApplyToCanonicalEvent`; nothing comes out when a lookup panics
  unfoldable pub apply_to_frames :
      Text → Text → List JsStacktraceFrame → Option (List JsStacktraceFrame)
  apply_to_frames release dist [] = some []
  apply_to_frames release dist (frame ∷ frames) =
      cons_applied frame (resolve_single_frame release dist frame)
        (apply_to_frames release dist frames)

-- The value of a tag that is missing is empty.
unfoldable pub first_dist_tag : (Text → Text) → Text
first_dist_tag tags =
    let dist = trim_space (tags (codes "dist")) in
    let sentry_dist = trim_space (tags (codes "sentry.dist")) in
    if not (is_empty dist)
    then dist
    else if not (is_empty sentry_dist)
    then sentry_dist
    else trim_space (tags (codes "sentry_dist"))

-- `ApplyToCanonicalEvent` for a service that is not nil: the frames of the event that it returns. An
-- event that is returned as it is has its frames.
unfoldable pub apply_to_canonical_event :
    Service
    → Text
    → Text
    → Text
    → (Text → Text)
    → List JsStacktraceFrame
    → Option (List JsStacktraceFrame)
apply_to_canonical_event service organization_id project_id release tags frames =
    elim (new_release_name release) [
      | err e ↦ some frames
      | ok name ↦ elim (new_optional_dist_name (first_dist_tag tags)) [
        | err e ↦ some frames
        | ok dist ↦ apply_to_frames service organization_id project_id name dist frames
      ]
    ]
