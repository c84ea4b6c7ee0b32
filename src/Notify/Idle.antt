-- ===== src/Notify/Idle.antt =====
-- Intents that no claim takes up: the delivered ones, and those that were left in delivery.
use gopnique.Base.{◌≡◌, sym, ◌∙◌, subst, false, List, [], ◌∷◌, some}
use gopnique.Base.Text.{Text}
use gopnique.Outbound.{Net, Resolver}
use gopnique.Notify.Outbox.{Intent, Db, ids, awaits}
use gopnique.Notify.Lease.{find_intent, IsKeyed, Same, deliver_batch-Same, awaits-claimable_ids}
use gopnique.Notify.Runs.{Batch, run_batch, run_batches, by_channel}

module _ (net : Net) (resolver : Resolver) where
  -- A batch leaves alone what is neither pending nor failed.
  run_batch-Same :
      (b : Batch) (db : Db) (x : Text) (r : Intent)
      → IsKeyed (ids db.intents)
      → find_intent x db.intents ≡ some r
      → awaits r.status ≡ false
      → Same x db (run_batch net resolver b db).1
  run_batch-Same b db x r keyed found idle =
      by_channel net resolver
        (λ p command act.
          (db : Db)
          → IsKeyed (ids db.intents)
          → find_intent x db.intents ≡ some r
          → Same x db (act db).1)
        (λ T R F p read delivered_row failed_row marks attempt command db keyed found.
          deliver_batch-Same p read delivered_row failed_row marks attempt command x db (
            awaits-claimable_ids p read delivered_row failed_row marks attempt command x db r keyed
              found idle))
        b db keyed found

  -- Whatever batches of whatever channels are run, and whichever of their statements fail: an intent
  -- that is delivered or in delivery stays as it is to the last column, so a delivered one is never
  -- sent again, and one that was left in delivery is never taken up again, at whatever times after its
  -- `locked_until` the batches run.
  pub run_batches-idle :
      (bs : List Batch) (db : Db) (x : Text) (r : Intent)
      → IsKeyed (ids db.intents)
      → find_intent x db.intents ≡ some r
      → awaits r.status ≡ false
      → find_intent x (run_batches net resolver bs db).intents ≡ some r
  unfolding run_batches
  run_batches-idle [] db x r keyed found idle = found
  run_batches-idle (b ∷ bs) db x r keyed found idle =
      let (same, keys, _) = run_batch-Same b db x r keyed found idle in
      run_batches-idle bs (run_batch net resolver b db).1 x r (subst IsKeyed (sym keys) keyed)
        (same ∙ found) idle
