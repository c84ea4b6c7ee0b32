-- ===== src/Notify/Batch.antt =====
-- internal/app/notifications/workflow.go: the batch that the eight channels share. A channel brings
-- its outbox and what it tries with a delivery; the rest is the same code for each.
use gopnique.Base.{ℕ, ◌+◌, ◌==◌, List, [], ◌∷◌, length, is_empty, Bool, true, false}
use gopnique.Base.Action.{Action}
use gopnique.Base.Int.{ℤ, pos, ltbℤ}
use gopnique.Base.Result.{Result, ok, err, ◌>>◌, reject_if}
use gopnique.Base.Text.{Text, codes}
use gopnique.Outbound.{Net, Resolver, DestinationUrl, validate_resolved_destination}
use gopnique.Notify.Ports.{
  Delivery, Message, MessageReceipt, StatusReceipt, Payload, new_failed_receipt,
}

-- `TelegramBatchCommand` and the others; the zero time is 0
pub record BatchCommand : Type 0 where
  pub now : ℕ
  pub limit : ℤ
  pub public_url : Text

pub record BatchReceipt : Type 0 where
  pub claimed : ℕ
  pub delivered : ℕ
  pub failed : ℕ

unfoldable pub new_batch_command : ℕ → ℤ → Text → Result BatchCommand
new_batch_command now limit public_url = do
  reject_if (now == 0) "batch time is required"
  reject_if (ltbℤ limit (pos 1)) "batch limit must be positive"
  reject_if (is_empty public_url) "public url is required"
  ok (record { now = now; limit = limit; public_url = public_url })

-- the ports: `TelegramOutbox` and the others. `R` is what is noted of a delivery, `F` of a failure.
pub record OutboxPort (S T R F : Type 0) : Type 0 where
  pub claim : ℕ → ℤ → Action S (List (Delivery T))
  pub mark_delivered : Text → ℕ → R → Action S (Unit {0})
  pub mark_failed : Text → ℕ → F → Action S (Unit {0})

-- how far a delivery came before its mark
pub data Attempt (R F : Type 0) : Type 0 where
  sent : R → Attempt R F
  not_sent : F → Attempt R F

abbrev pub one_failed : BatchReceipt → BatchReceipt
one_failed receipt = record receipt { failed = receipt.failed + 1 }

abbrev pub one_delivered : BatchReceipt → BatchReceipt
one_delivered receipt = record receipt { delivered = receipt.delivered + 1 }

module _ {S T R F : Type 0} (outbox : OutboxPort S T R F) (attempt : Delivery T → Attempt R F)
    (command : BatchCommand) where
  -- the error of the mark is dropped
  abbrev pub mark_failure : Text → F → BatchReceipt → S → BatchReceipt × S
  mark_failure intent_id reason receipt s =
      (one_failed receipt, (outbox.mark_failed intent_id command.now reason s).1)

  abbrev pub after_mark : BatchReceipt → Result (Unit {0}) × S → BatchReceipt × S
  after_mark receipt (ok u, s) = (one_delivered receipt, s)
  after_mark receipt (err e, s) = (one_failed receipt, s)

  abbrev pub settle_attempt : Text → Attempt R F → BatchReceipt → S → BatchReceipt × S
  settle_attempt intent_id (sent note) receipt s =
      after_mark receipt (outbox.mark_delivered intent_id command.now note s)
  settle_attempt intent_id (not_sent reason) receipt s = mark_failure intent_id reason receipt s

  unfoldable pub deliver_delivery : Delivery T → BatchReceipt → S → BatchReceipt × S
  deliver_delivery delivery receipt s =
      settle_attempt delivery.intent_id (attempt delivery) receipt s

  unfoldable pub deliver_deliveries : List (Delivery T) → BatchReceipt → S → BatchReceipt × S
  deliver_deliveries [] receipt s = (receipt, s)
  deliver_deliveries (delivery ∷ deliveries) receipt s =
      let next = deliver_delivery delivery receipt s in deliver_deliveries deliveries next.0 next.1

  abbrev pub after_claim : Result (List (Delivery T)) × S → Result BatchReceipt × S
  after_claim (err e, s) = (err e, s)
  after_claim (ok deliveries, s) =
      let done =
        deliver_deliveries deliveries
          (record { claimed = length deliveries; delivered = 0; failed = 0 }) s in
      (ok done.0, done.1)

  unfoldable pub deliver_batch : Action S BatchReceipt
  deliver_batch s = after_claim (outbox.claim command.now command.limit s)

-- Telegram and email: the message, the sending
module _ {T P : Type 0} (make_message : Delivery T → Text → Result (Message T P))
    (send : Message T P → Result MessageReceipt) (public_url : Text) where
  abbrev pub after_send : Result MessageReceipt → Attempt MessageReceipt Text
  after_send (err e) = not_sent (codes e)
  after_send (ok receipt) = sent receipt

  abbrev pub send_made : Result (Message T P) → Attempt MessageReceipt Text
  send_made (err e) = not_sent (codes e)
  send_made (ok message) = after_send (send message)

  unfoldable pub message_attempt : Delivery T → Attempt MessageReceipt Text
  message_attempt delivery = send_made (make_message delivery public_url)

-- the URL channels: the destination is resolved again, the message, the sending, the answer's status
module _ {T : Type 0} (net : Net) (resolver : Resolver) (destination : T → DestinationUrl)
    (make_message : Delivery T → Text → Result (Message T Payload))
    (send : Message T Payload → Result StatusReceipt) (public_url : Text) where
  abbrev pub by_status : Bool → StatusReceipt → Attempt StatusReceipt StatusReceipt
  by_status true receipt = sent receipt
  by_status false receipt = not_sent receipt

  abbrev pub after_answer : Result StatusReceipt → Attempt StatusReceipt StatusReceipt
  after_answer (err e) = not_sent (new_failed_receipt 0 (codes e))
  after_answer (ok receipt) = by_status receipt.delivered receipt

  abbrev pub send_to_url : Result (Message T Payload) → Attempt StatusReceipt StatusReceipt
  send_to_url (err e) = not_sent (new_failed_receipt 0 (codes e))
  send_to_url (ok message) = after_answer (send message)

  abbrev pub resolved_attempt :
      Delivery T → Result DestinationUrl → Attempt StatusReceipt StatusReceipt
  resolved_attempt delivery (err e) = not_sent (new_failed_receipt 0 (codes e))
  resolved_attempt delivery (ok resolved) = send_to_url (make_message delivery public_url)

  unfoldable pub url_attempt : Delivery T → Attempt StatusReceipt StatusReceipt
  url_attempt delivery =
      resolved_attempt delivery
        (validate_resolved_destination net resolver (destination delivery.target))
