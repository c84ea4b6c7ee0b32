-- ===== src/Ingest/Transaction/Twice.antt =====
-- An event that is delivered twice to the store.
use gopnique.Base.Result.{Result}
use gopnique.Base.Text.{Text}
