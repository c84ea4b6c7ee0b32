-- ===== src/Sourcemap/Apply/Resolved.antt =====
-- What becomes of the frames of an event.
use gopnique.Base.{
  ◌≤◌, ◌≡◌, refl, sym, ap, ◌∙◌, subst, ◌⊎◌, inl, inr, arith, false, List, [], ◌∷◌, Option, none,
  some, is_empty,
}
use gopnique.Base.Int.{ℤ, pos, negsuc, pos_part, add64, ltbℤ}
use gopnique.Base.Result.{Result, ok, err, >>=-eq-ok, Result-cases, reject_if, ◌>>◌}
use gopnique.Base.Text.{Text, trim_space}
use gopnique.Domain.JsFrames.{
  JsStacktraceFrame, JsStacktraceResolution, normalize_js_abs_path, normalize_js_function,
  normalize_js_resolved_source, normalize_js_resolved_symbol, new_unresolved_js_stacktrace_frame,
  new_js_stacktrace_resolution, new_resolved_js_stacktrace_frame, new_release_name,
  new_optional_dist_name, SourceMapIdentity,
}
use gopnique.Sourcemap.Lookup.{ResolvedFrame, Outcome, found, missing, panicked}
use gopnique.Sourcemap.Apply.{
  Service, resolve_position, Applied, kept, replaced, stopped, applied, with_identity,
  unless_resolved, identity_of, with_position, resolve_single_frame, cons_applied, apply_to_frames,
  first_dist_tag, apply_to_canonical_event,
}

unresolved-ok :
    (abs_path function : Text) (line column : ℤ) (frame : JsStacktraceFrame)
    → new_unresolved_js_stacktrace_frame abs_path function line column ≡ ok frame
    → (frame.generated_line ≡ line) × (frame.generated_column ≡ column)
unfolding new_unresolved_js_stacktrace_frame
unresolved-ok abs_path function line column frame h =
    let (path, e1, h1) = >>=-eq-ok (normalize_js_abs_path abs_path) _ h in
    let (name, e2, h2) = >>=-eq-ok (normalize_js_function function) _ h1 in ground arith

source-ok :
    (input source : Text)
    → normalize_js_resolved_source input ≡ ok source
    → (source ≡ trim_space input) × (is_empty source ≡ false)
unfolding normalize_js_resolved_source
source-ok input source h = ground arith

-- the checks of the numbers
positions-ok :
    (s n : Text) (line column : ℤ) (r : JsStacktraceResolution)
    → (do
      reject_if (ltbℤ line (pos 1)) "js stacktrace resolution original line must be at least 1"
      reject_if
          (ltbℤ column (pos 0))
          "js stacktrace resolution original column must not be negative"
      ok (record { source = s; symbol = n; original_line = line; original_column = column }))
      ≡ ok r
    → (r.source ≡ s) × (r.original_line ≡ line) × (1 ≤ pos_part line) × (r.original_column ≡ column)
positions-ok s n line column r h = ground arith

resolution-ok :
    (source symbol : Text) (line column : ℤ) (r : JsStacktraceResolution)
    → new_js_stacktrace_resolution source symbol line column ≡ ok r
    → (r.source ≡ trim_space source)
      × (is_empty r.source ≡ false)
      × (r.original_line ≡ line)
      × (1 ≤ pos_part line)
      × (r.original_column ≡ column)
unfolding new_js_stacktrace_resolution
resolution-ok source symbol line column r h =
    let (s, e1, h1) = >>=-eq-ok (normalize_js_resolved_source source) _ h in
    let (n, e2, h2) = >>=-eq-ok (normalize_js_resolved_symbol symbol) _ h1 in
    let (same, some_) = source-ok source s e1 in
    let (from, lines, least, columns) = positions-ok s n line column r h2 in
    (from ∙ same, ap is_empty from ∙ some_, lines, least, columns)

-- how a frame that is replaced stands to the frame that was there and to what the lookup found
pub record IsResolved (frame : JsStacktraceFrame) (at_ : ResolvedFrame)
    (resolved : JsStacktraceFrame) : Type 0 where
  pub was_open : frame.resolution ≡ none
  pub line : resolved.generated_line ≡ frame.generated_line
  pub column : resolved.generated_column ≡ frame.generated_column
  pub resolution : JsStacktraceResolution
  pub is_set : resolved.resolution ≡ some resolution
  pub source : resolution.source ≡ trim_space at_.source
  pub has_source : is_empty resolution.source ≡ false
  pub original_line : resolution.original_line ≡ add64 at_.original_line (pos 1)
  pub least : 1 ≤ pos_part resolution.original_line
  pub original_column : resolution.original_column ≡ at_.original_column

new_resolved_js_stacktrace_frame-IsResolved :
    (frame : JsStacktraceFrame) (symbol : Text) (at_ : ResolvedFrame) (resolved : JsStacktraceFrame)
    → frame.resolution ≡ none
    → new_resolved_js_stacktrace_frame frame.abs_path frame.function frame.generated_line
        frame.generated_column at_.source symbol
        (add64 at_.original_line (pos 1))
        at_.original_column
      ≡ ok resolved
    → IsResolved frame at_ resolved
unfolding new_resolved_js_stacktrace_frame
new_resolved_js_stacktrace_frame-IsResolved frame symbol at_ resolved open_ h =
    let (base, e1, h1) =
      >>=-eq-ok
        (new_unresolved_js_stacktrace_frame frame.abs_path frame.function frame.generated_line
          frame.generated_column)
        _ h in
    let (r, e2, h2) =
      >>=-eq-ok
        (new_js_stacktrace_resolution at_.source symbol (add64 at_.original_line (pos 1))
          at_.original_column)
        _ h1 in
    let (line, column) =
      unresolved-ok frame.abs_path frame.function frame.generated_line frame.generated_column base
        e1 in
    let (from, some_, lines, least, columns) =
      resolution-ok at_.source symbol (add64 at_.original_line (pos 1)) at_.original_column r e2 in
    let same : record base { resolution = some r } ≡ resolved = cc h2 in
    record {
      was_open = open_;
      line = sym (ap (λ f. f.generated_line) same) ∙ line;
      column = sym (ap (λ f. f.generated_column) same) ∙ column;
      resolution = r;
      is_set = sym (ap (λ f. f.resolution) same);
      source = from;
      has_source = some_;
      original_line = lines;
      least = rw lines least;
      original_column = columns;
    }

applied-replaced :
    (r : Result JsStacktraceFrame) (resolved : JsStacktraceFrame)
    → applied r ≡ replaced resolved
    → r ≡ ok resolved
applied-replaced (err e) resolved h = cc h
applied-replaced (ok f) resolved h = cc h

with_position-replaced :
    (frame : JsStacktraceFrame) (outcome : Outcome) (resolved : JsStacktraceFrame)
    → frame.resolution ≡ none
    → with_position frame outcome ≡ replaced resolved
    → (at_ : ResolvedFrame) × (outcome ≡ found at_) × IsResolved frame at_ resolved
unfolding with_position
with_position-replaced frame missing resolved open_ h = cc h
with_position-replaced frame panicked resolved open_ h = cc h
with_position-replaced frame (found at_) resolved open_ h = (
  at_,
  refl,
  new_resolved_js_stacktrace_frame-IsResolved frame _ at_ resolved open_
      (applied-replaced _ resolved h),
)

module _ (service : Service) (organization_id project_id : Text) where
  -- the frame that the vault's source map has for a frame of an event
  abbrev pub HasPosition : Text → Text → JsStacktraceFrame → ResolvedFrame → Type 0
  HasPosition release dist frame at_ =
      (identity : SourceMapIdentity) × (identity_of service organization_id project_id release dist
          frame
        ≡ ok identity)
      × (resolve_position service organization_id project_id identity (record {
        line = add64 frame.generated_line (negsuc 0);
        column = frame.generated_column;
      })
          ≡ found at_)

  -- A frame is as it was, or resolved by a source map.
  abbrev pub IsApplied : Text → Text → JsStacktraceFrame → JsStacktraceFrame → Type 0
  IsApplied release dist frame g =
      (g ≡ frame)
      ⊎ ((at_ : ResolvedFrame) × HasPosition release dist frame at_ × IsResolved frame at_ g)

  abbrev pub AllApplied : Text → Text → List JsStacktraceFrame → List JsStacktraceFrame → Type 0
  AllApplied release dist [] [] = Unit
  AllApplied release dist [] (g ∷ gs) = ⊥
  AllApplied release dist (f ∷ fs) [] = ⊥
  AllApplied release dist (f ∷ fs) (g ∷ gs) =
      IsApplied release dist f g × AllApplied release dist fs gs

  resolve_single_frame-replaced :
      (release dist : Text) (frame resolved : JsStacktraceFrame)
      → resolve_single_frame service organization_id project_id release dist frame
        ≡ replaced resolved
      → (at_ : ResolvedFrame) × HasPosition release dist frame at_ × IsResolved frame at_ resolved
  unfolding resolve_single_frame
  resolve_single_frame-replaced release dist frame resolved h =
      open-replaced frame.resolution
        (identity_of service organization_id project_id release dist frame) refl refl h
    where
      open-replaced :
          (r : Option JsStacktraceResolution) (i : Result SourceMapIdentity)
          → frame.resolution ≡ r
          → identity_of service organization_id project_id release dist frame ≡ i
          → unless_resolved service organization_id project_id r
              (with_identity service organization_id project_id frame i)
            ≡ replaced resolved
          → (at_ : ResolvedFrame) × HasPosition release dist frame at_
            × IsResolved frame at_ resolved
      open-replaced (some r) i open_ e g = cc g
      open-replaced none (err m) open_ e g = cc g
      open-replaced none (ok identity) open_ e g =
          let (at_, looked, is_) = with_position-replaced frame _ resolved open_ g in
          (at_, (identity, e, looked), is_)

  apply_to_frames-AllApplied :
      (release dist : Text) (frames updated : List JsStacktraceFrame)
      → apply_to_frames service organization_id project_id release dist frames ≡ some updated
      → AllApplied release dist frames updated
  unfolding apply_to_frames
  apply_to_frames-AllApplied release dist [] [] h = tt
  apply_to_frames-AllApplied release dist [] (g ∷ gs) h = cc h
  apply_to_frames-AllApplied release dist (f ∷ fs) updated h =
      cons-AllApplied (resolve_single_frame service organization_id project_id release dist f)
        (apply_to_frames service organization_id project_id release dist fs) updated refl
        (apply_to_frames-AllApplied release dist fs) h
    where
      cons-AllApplied :
          (a : Applied) (rest : Option (List JsStacktraceFrame)) (updated : List JsStacktraceFrame)
          → resolve_single_frame service organization_id project_id release dist f ≡ a
          → ((gs : List JsStacktraceFrame) → rest ≡ some gs → AllApplied release dist fs gs)
          → cons_applied service organization_id project_id f a rest ≡ some updated
          → AllApplied release dist (f ∷ fs) updated
      cons-AllApplied stopped rest updated e all_ g = cc g
      cons-AllApplied kept none updated e all_ g = cc g
      cons-AllApplied (replaced resolved) none updated e all_ g = cc g
      cons-AllApplied kept (some gs) updated e all_ g =
          let same : f ∷ gs ≡ updated = cc g in
          subst (AllApplied release dist (f ∷ fs)) same (inl refl, all_ gs refl)
      cons-AllApplied (replaced resolved) (some gs) updated e all_ g =
          let same : resolved ∷ gs ≡ updated = cc g in
          subst (AllApplied release dist (f ∷ fs)) same
            (inr (resolve_single_frame-replaced release dist f resolved e), all_ gs refl)

  -- When source maps are applied to an event and no lookup panics, the frames of the event stay in
  -- their order and number. Each is as it was, or was unresolved and keeps its generated line and
  -- column; it then has the source that the lookup found for its position in the source map of its
  -- identity, which is not empty, the line after the one found, which is at least 1, and the
  -- column found. Without a release and a distribution that are accepted all frames are as they were.
  pub apply_to_canonical_event-AllApplied :
      (release : Text) (tags : Text → Text) (frames updated : List JsStacktraceFrame)
      → apply_to_canonical_event service organization_id project_id release tags frames
        ≡ some updated
      → (updated ≡ frames)
        ⊎ ((name : Text) × (dist : Text) × (new_release_name release ≡ ok name)
            × (new_optional_dist_name (first_dist_tag tags) ≡ ok dist)
            × AllApplied name dist frames updated)
  unfolding apply_to_canonical_event
  apply_to_canonical_event-AllApplied release tags frames updated h =
      elim (Result-cases (new_release_name release)) [
        | inr (m, e) ↦ inl (cc (rw (e, apply_to_canonical_event) at h))
        | inl (name, e) ↦ elim (Result-cases (new_optional_dist_name (first_dist_tag tags))) [
          | inr (m, e2) ↦ inl (cc (rw (e, e2, apply_to_canonical_event) at h))
          | inl (dist, e2) ↦ inr (
            name,
            dist,
            e,
            e2,
            apply_to_frames-AllApplied name dist frames updated
                (rw (e, e2, apply_to_canonical_event) at h),
          )
        ]
      ]
