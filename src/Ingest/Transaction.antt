-- ===== src/Ingest/Transaction.antt =====
-- internal/adapters/postgres/store.go, `Store.Run`: a program inside a transaction; and the whole of
-- `ingestCanonicalEvent` (internal/app/ingest/workflow.go). The connection pool is a parameter.
pub mod Delivery
pub mod Replay
pub mod Twice
use gopnique.Base.{ℕ, List}
use gopnique.Base.Action.{Action}
use gopnique.Base.Result.{Result, ok, err, ◌>>=◌}
use gopnique.Base.Text.{Text}
use gopnique.Domain.Event.{CanonicalEvent, Fingerprint}
use gopnique.Ingest.Grouping.{compute_fingerprint}
use gopnique.Ingest.Workflow.{
  AcceptedEvent, IngestReceipt, Ports, AppendEffect, new_accepted_event, ingest_program,
}

-- `BeginTx` on the committed state, and `Commit` of a transaction's state over it. `Rollback` drops
-- the transaction's state; its error is ignored.
pub record Pool (S : Type 0) : Type 0 where
  pub begin_tx : S → Result S
  pub commit : S → S → Result (Unit {0}) × S

module _ {S : Type 0} (pool : Pool S) where
  abbrev pub committed : {A : Type 0} → A → Result (Unit {0}) × S → Result A × S
  committed value (ok u, s) = (ok value, s)
  committed value (err e, s) = (err e, s)

  abbrev pub after_program : {A : Type 0} → S → Result A × S → Result A × S
  after_program s (err e, work) = (err e, s)
  after_program s (ok value, work) = committed value (pool.commit s work)

  abbrev pub in_tx : {A : Type 0} → S → Action S A → Result S → Result A × S
  in_tx s program (err e) = (err e, s)
  in_tx s program (ok work) = after_program s (program work)

  unfoldable pub run : {A : Type 0} → Action S A → Action S A
  run program s = in_tx s program (pool.begin_tx s)

  abbrev pub run_accepted : Ports S → AppendEffect S → Result AcceptedEvent → Action S IngestReceipt
  run_accepted ports append_effect (err e) s = (err e, s)
  run_accepted ports append_effect (ok accepted) s =
      run (ingest_program ports append_effect accepted) s

  unfoldable pub ingest_canonical_event :
      (List Text → Result Text)
      → (ℕ → ℕ)
      → (Text → Text)
      → Ports S
      → AppendEffect S
      → CanonicalEvent
      → Action S IngestReceipt
  ingest_canonical_event marshal lower sha256_hex ports append_effect event =
      run_accepted ports append_effect
        (compute_fingerprint marshal lower sha256_hex event >>= new_accepted_event event)
