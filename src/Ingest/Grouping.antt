-- ===== src/Ingest/Grouping.antt =====
-- internal/plans/grouping/grouping.go: the fingerprint of an event. `json.Marshal` of the parts, the
-- hexadecimal SHA-256 of a string and Unicode's lower case are parameters.
use gopnique.Base.{ℕ, List, [], ◌∷◌, ◌++◌, is_empty, if◌then◌else◌}
use gopnique.Base.Result.{Result, ◌>>=◌}
use gopnique.Base.Text.{Text, codes, text_eq, trim_space}
use gopnique.Domain.Event.{
  EventKind, error_kind, default_kind, transaction_kind, other_kind, CanonicalEvent, Fingerprint,
  new_fingerprint,
}

pub record Source : Type 0 where
  pub kind : Text
  pub parts : List Text

unfoldable pub expand_default : List Text → List Text → List Text
expand_default [] defaults = []
expand_default (part ∷ parts) defaults =
    let rest = expand_default parts defaults in
    if text_eq (trim_space part) (codes "{{ default }}") then defaults ++ rest else part ∷ rest

abbrev source_of_kind : EventKind → CanonicalEvent → Source
source_of_kind error_kind event = record {
  kind = codes "exception";
  parts = event.default_grouping_parts;
}
source_of_kind default_kind event = record {
  kind = codes "message";
  parts = event.default_grouping_parts;
}
source_of_kind transaction_kind event = record {
  kind = codes "transaction";
  parts = event.default_grouping_parts;
}
source_of_kind (other_kind k) event = record { kind = codes "unknown"; parts = event.title ∷ [] }

unfoldable pub source_for : CanonicalEvent → Source
source_for event =
    if is_empty event.explicit_fingerprint then source_of_kind event.kind event else record {
      kind = codes "explicit";
      parts = expand_default event.explicit_fingerprint event.default_grouping_parts;
    }

abbrev pub kind_text : EventKind → Text
kind_text error_kind = codes "error"
kind_text default_kind = codes "default"
kind_text transaction_kind = codes "transaction"
kind_text (other_kind k) = k

abbrev pub algorithm : Text
algorithm = codes "grouping-v0"

module _ (marshal : List Text → Result Text) where
  unfoldable pub canonical_string : CanonicalEvent → Result Text
  canonical_string event =
      let source = source_for event in
      marshal source.parts >>= λ encoded_parts. Result.ok (
        algorithm
        ++ codes "\nproject:"
        ++ event.project_id
        ++ codes "\nkind:"
        ++ kind_text event.kind
        ++ codes "\nsource:"
        ++ source.kind
        ++ codes "\nparts:"
        ++ encoded_parts)

  unfoldable pub compute_fingerprint : (ℕ → ℕ) → (Text → Text) → CanonicalEvent → Result Fingerprint
  compute_fingerprint lower sha256_hex event =
      canonical_string event >>= λ canonical. new_fingerprint lower algorithm (sha256_hex canonical)
