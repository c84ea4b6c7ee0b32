-- ===== src/Notify/Report.antt =====
-- The receipt of a batch, for any outbox and whatever fails.
use gopnique.Base.{ℕ, suc, ◌+◌, ◌≡◌, refl, List, [], ◌∷◌, length, arith, ◌∙◌, sym, ap}
use gopnique.Base.Result.{Result, ok, err}
use gopnique.Notify.Ports.{Delivery}
use gopnique.Notify.Batch.{
  BatchCommand, BatchReceipt, OutboxPort, Attempt, sent, not_sent, after_mark, settle_attempt,
  deliver_delivery, deliver_deliveries, after_claim, deliver_batch,
}

-- how many deliveries are accounted for
abbrev pub settled : BatchReceipt → ℕ
settled receipt = receipt.delivered + receipt.failed

module _ {S T R F : Type 0} (outbox : OutboxPort S T R F) (attempt : Delivery T → Attempt R F)
    (command : BatchCommand) where
  -- one more settled, the same claimed
  OneMore : BatchReceipt → BatchReceipt → Type 0
  OneMore receipt next = (settled next ≡ suc (settled receipt)) × (next.claimed ≡ receipt.claimed)

  deliver_delivery-OneMore :
      (d : Delivery T) (receipt : BatchReceipt) (s : S)
      → OneMore receipt (deliver_delivery outbox attempt command d receipt s).0
  unfolding deliver_delivery OneMore
  deliver_delivery-OneMore d receipt s = by_attempt (attempt d)
    where
      marked :
          (m : Result (Unit {0}) × S)
          → OneMore receipt (after_mark outbox attempt command receipt m).0
      marked (ok u, t) = omega arith
      marked (err e, t) = omega arith

      by_attempt :
          (a : Attempt R F)
          → OneMore receipt (settle_attempt outbox attempt command d.intent_id a receipt s).0
      by_attempt (sent note) = marked (outbox.mark_delivered d.intent_id command.now note s)
      by_attempt (not_sent reason) = omega arith

  deliver_deliveries-settled :
      (ds : List (Delivery T)) (receipt : BatchReceipt) (s : S)
      → (settled (deliver_deliveries outbox attempt command ds receipt s).0
          ≡ settled receipt + length ds)
        × ((deliver_deliveries outbox attempt command ds receipt s).0.claimed ≡ receipt.claimed)
  unfolding deliver_deliveries OneMore
  deliver_deliveries-settled [] receipt s = (omega arith, refl)
  deliver_deliveries-settled (d ∷ ds) receipt s =
      let next = deliver_delivery outbox attempt command d receipt s in
      let (one, same) = deliver_delivery-OneMore d receipt s in
      let (rest, kept) = deliver_deliveries-settled ds next.0 next.1 in (omega arith, kept ∙ same)

  -- A batch that gives a receipt has settled every delivery that it claimed, as delivered or as
  -- failed, and has counted each once.
  pub deliver_batch-settled :
      (s : S) (receipt : BatchReceipt) (t : S)
      → deliver_batch outbox attempt command s ≡ (ok receipt, t)
      → (ds : List (Delivery T)) × (u : S) × (outbox.claim command.now command.limit s ≡ (ok ds, u))
        × (receipt.claimed ≡ length ds)
        × (receipt.delivered + receipt.failed ≡ length ds)
  unfolding deliver_batch
  deliver_batch-settled s receipt t h = after (outbox.claim command.now command.limit s) refl h
    where
      after :
          (m : Result (List (Delivery T)) × S)
          → outbox.claim command.now command.limit s ≡ m
          → after_claim outbox attempt command m ≡ (ok receipt, t)
          → (ds : List (Delivery T)) × (u : S) × (outbox.claim command.now command.limit s
              ≡ (ok ds, u))
            × (receipt.claimed ≡ length ds)
            × (receipt.delivered + receipt.failed ≡ length ds)
      after (err e, u) at_ g = absurd (cc g)
      after (ok ds, u) at_ g =
          let start : BatchReceipt = record { claimed = length ds; delivered = 0; failed = 0 } in
          let (all_, same) = deliver_deliveries-settled ds start u in
          let made : (deliver_deliveries outbox attempt command ds start u).0 ≡ receipt = cc g in
          (
            ds,
            u,
            at_,
            ap (λ (r : BatchReceipt). r.claimed) (sym made) ∙ same,
            ap settled (sym made) ∙ all_ ∙ omega arith,
          )
