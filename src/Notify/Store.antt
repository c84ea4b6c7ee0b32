-- ===== src/Notify/Store.antt =====
-- internal/adapters/postgres/notifications.go: claims and marks. The statements of the eight channels
-- differ in the provider, the table of destinations and the columns that they clear.
use gopnique.Base.{ℕ, ◌+◌, ◌*◌, Bool, List, [], ◌∷◌, none, some, take}
use gopnique.Base.Action.{Action, ◌>>=◌, lift}
use gopnique.Base.Int.{ℤ, pos_part}
use gopnique.Base.Result.{Result, ok, err}
use gopnique.Base.Text.{Text}
use gopnique.Notify.Outbox.{
  Provider, telegram, webhook, email, discord, google_chat, ntfy, microsoft_teams, zulip,
  delivering, Intent, Db, minute, claimable, select, update_where, elem, ids, sort_by, statement,
}
use gopnique.Notify.Ports.{
  Delivery, TelegramDelivery, EmailDelivery, WebhookDelivery, NtfyDelivery, ZulipDelivery,
}

-- `set` of the claims: `last_error` is cleared always, the other two columns by channel
abbrev cleared : Provider → Intent → Intent
cleared telegram r = record r { last_error = none }
cleared email r = record r { provider_message_id = none; last_error = none }
cleared p r = record r { provider_status_code = none; last_error = none }

unfoldable pub claimed : Provider → ℕ → Intent → Intent
claimed p now r = record (cleared p r) {
  status = delivering;
  attempts = r.attempts + 1;
  locked_until = some (now + 1 * minute);
}

-- the ids that the subquery `claimable` gives, oldest first
abbrev pub claimable_ids : (Provider → Text → Bool) → Provider → ℕ → ℕ → List Intent → List Text
claimable_ids enabled p now limit rows = ids (take limit (select (claimable enabled p now) rows))

abbrev pub claim_rows : (Provider → Text → Bool) → Provider → ℕ → ℕ → List Intent → List Intent
claim_rows enabled p now limit rows =
    update_where (λ r. elem r.id_ (claimable_ids enabled p now limit rows)) (claimed p now) rows

-- what the statement returns: the rows that it changed, by the last sighting of their issues
abbrev pub returned_rows :
    (Provider → Text → Bool) → (Text → ℕ) → Provider → ℕ → ℕ → List Intent → List Intent
returned_rows enabled last_seen_at p now limit rows =
    sort_by (λ r. last_seen_at r.issue_id)
      (select (λ r. elem r.id_ (claimable_ids enabled p now limit rows))
        (claim_rows enabled p now limit rows))

-- A row joined with its destination, event and issue is read into a delivery (`scanWebhookDelivery`
-- and its like, a parameter); the first row that cannot be read ends the claim, which stays in force.
module _ {T : Type 0} (read : Intent → Result (Delivery T)) where
  abbrev pub read_onto :
      Intent → Result (Delivery T) → Result (List (Delivery T)) → Result (List (Delivery T))
  read_onto r (err e) rest = err e
  read_onto r (ok d) (err e) = err e
  read_onto r (ok d) (ok ds) = ok (record d { intent_id = r.id_ } ∷ ds)

  unfoldable pub read_rows : List Intent → Result (List (Delivery T))
  read_rows [] = ok []
  read_rows (r ∷ rows) = read_onto r (read r) (read_rows rows)

  unfoldable pub claim_deliveries : Provider → ℕ → ℤ → Action Db (List (Delivery T))
  claim_deliveries p now limit db =
      (statement (returned_rows db.enabled db.last_seen_at p now (pos_part limit))
            (claim_rows db.enabled p now (pos_part limit))
          >>= (λ rows. lift (read_rows rows)))
        db

abbrev pub claim_telegram_deliveries :
    (Intent → Result TelegramDelivery) → ℕ → ℤ → Action Db (List TelegramDelivery)
claim_telegram_deliveries read = claim_deliveries read telegram

abbrev pub claim_webhook_deliveries :
    (Intent → Result WebhookDelivery) → ℕ → ℤ → Action Db (List WebhookDelivery)
claim_webhook_deliveries read = claim_deliveries read webhook

abbrev pub claim_email_deliveries :
    (Intent → Result EmailDelivery) → ℕ → ℤ → Action Db (List EmailDelivery)
claim_email_deliveries read = claim_deliveries read email

abbrev pub claim_discord_deliveries :
    (Intent → Result WebhookDelivery) → ℕ → ℤ → Action Db (List WebhookDelivery)
claim_discord_deliveries read = claim_deliveries read discord

abbrev pub claim_google_chat_deliveries :
    (Intent → Result WebhookDelivery) → ℕ → ℤ → Action Db (List WebhookDelivery)
claim_google_chat_deliveries read = claim_deliveries read google_chat

abbrev pub claim_ntfy_deliveries :
    (Intent → Result NtfyDelivery) → ℕ → ℤ → Action Db (List NtfyDelivery)
claim_ntfy_deliveries read = claim_deliveries read ntfy

abbrev pub claim_teams_deliveries :
    (Intent → Result WebhookDelivery) → ℕ → ℤ → Action Db (List WebhookDelivery)
claim_teams_deliveries read = claim_deliveries read microsoft_teams

abbrev pub claim_zulip_deliveries :
    (Intent → Result ZulipDelivery) → ℕ → ℤ → Action Db (List ZulipDelivery)
claim_zulip_deliveries read = claim_deliveries read zulip
