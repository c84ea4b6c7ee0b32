-- ===== src/Notify/Batches.antt =====
-- internal/app/notifications/workflow.go: the batches of the eight channels, on the outbox of
-- internal/adapters/postgres/notifications.go.
use gopnique.Base.{ℕ}
use gopnique.Base.Action.{Action}
use gopnique.Base.Int.{ℤ}
use gopnique.Base.Result.{Result}
use gopnique.Base.Text.{Text}
use gopnique.Outbound.{Net, Resolver, DestinationUrl}
use gopnique.Notify.Ports.{
  MessageReceipt, StatusReceipt, NtfyTarget, ZulipTarget, TelegramDelivery, EmailDelivery,
  WebhookDelivery, NtfyDelivery, ZulipDelivery, TelegramMessage, EmailMessage, WebhookMessage,
  NtfyMessage, ZulipMessage,
}
use gopnique.Notify.Messages.{
  telegram_message, email_message, webhook_message, discord_message, google_chat_message,
  ntfy_message, teams_message, zulip_message,
}
use gopnique.Notify.Outbox.{Intent, Db}
use gopnique.Notify.Store.{
  claim_telegram_deliveries, claim_webhook_deliveries, claim_email_deliveries,
  claim_discord_deliveries, claim_google_chat_deliveries, claim_ntfy_deliveries,
  claim_teams_deliveries, claim_zulip_deliveries,
}
use gopnique.Notify.Marks.{
  mark_telegram_delivered, mark_webhook_delivered, mark_email_delivered, mark_discord_delivered,
  mark_google_chat_delivered, mark_ntfy_delivered, mark_teams_delivered, mark_zulip_delivered,
  mark_telegram_failed, mark_webhook_failed, mark_email_failed, mark_discord_failed,
  mark_google_chat_failed, mark_ntfy_failed, mark_teams_failed, mark_zulip_failed,
}
use gopnique.Notify.Batch.{
  BatchCommand, BatchReceipt, OutboxPort, new_batch_command, deliver_delivery, deliver_batch,
  message_attempt, url_attempt,
}

abbrev pub telegram_outbox :
    (Intent → Result TelegramDelivery) → OutboxPort Db Text MessageReceipt Text
telegram_outbox read = record {
  claim = claim_telegram_deliveries read;
  mark_delivered = mark_telegram_delivered;
  mark_failed = mark_telegram_failed;
}

module _ (read : Intent → Result TelegramDelivery) (send : TelegramMessage → Result MessageReceipt)
    (command : BatchCommand) where
  abbrev pub deliver_telegram_delivery : TelegramDelivery → BatchReceipt → Db → BatchReceipt × Db
  deliver_telegram_delivery =
      deliver_delivery (telegram_outbox read)
        (message_attempt telegram_message send command.public_url) command

  abbrev pub deliver_telegram_batch : Action Db BatchReceipt
  deliver_telegram_batch =
      deliver_batch (telegram_outbox read)
        (message_attempt telegram_message send command.public_url) command

abbrev pub webhook_outbox :
    (Intent → Result WebhookDelivery) → OutboxPort Db DestinationUrl StatusReceipt StatusReceipt
webhook_outbox read = record {
  claim = claim_webhook_deliveries read;
  mark_delivered = mark_webhook_delivered;
  mark_failed = mark_webhook_failed;
}

module _ (read : Intent → Result WebhookDelivery) (net : Net) (resolver : Resolver)
    (send : WebhookMessage → Result StatusReceipt) (command : BatchCommand) where
  abbrev pub deliver_webhook_delivery : WebhookDelivery → BatchReceipt → Db → BatchReceipt × Db
  deliver_webhook_delivery =
      deliver_delivery (webhook_outbox read)
        (url_attempt net resolver (λ url. url) webhook_message send command.public_url) command

  abbrev pub deliver_webhook_batch : Action Db BatchReceipt
  deliver_webhook_batch =
      deliver_batch (webhook_outbox read)
        (url_attempt net resolver (λ url. url) webhook_message send command.public_url) command

abbrev pub email_outbox : (Intent → Result EmailDelivery) → OutboxPort Db Text MessageReceipt Text
email_outbox read = record {
  claim = claim_email_deliveries read;
  mark_delivered = mark_email_delivered;
  mark_failed = mark_email_failed;
}

module _ (read : Intent → Result EmailDelivery) (send : EmailMessage → Result MessageReceipt)
    (command : BatchCommand) where
  abbrev pub deliver_email_delivery : EmailDelivery → BatchReceipt → Db → BatchReceipt × Db
  deliver_email_delivery =
      deliver_delivery (email_outbox read) (message_attempt email_message send command.public_url)
        command

  abbrev pub deliver_email_batch : Action Db BatchReceipt
  deliver_email_batch =
      deliver_batch (email_outbox read) (message_attempt email_message send command.public_url)
        command

abbrev pub discord_outbox :
    (Intent → Result WebhookDelivery) → OutboxPort Db DestinationUrl StatusReceipt StatusReceipt
discord_outbox read = record {
  claim = claim_discord_deliveries read;
  mark_delivered = mark_discord_delivered;
  mark_failed = mark_discord_failed;
}

module _ (read : Intent → Result WebhookDelivery) (net : Net) (resolver : Resolver)
    (send : WebhookMessage → Result StatusReceipt) (command : BatchCommand) where
  abbrev pub deliver_discord_delivery : WebhookDelivery → BatchReceipt → Db → BatchReceipt × Db
  deliver_discord_delivery =
      deliver_delivery (discord_outbox read)
        (url_attempt net resolver (λ url. url) discord_message send command.public_url) command

  abbrev pub deliver_discord_batch : Action Db BatchReceipt
  deliver_discord_batch =
      deliver_batch (discord_outbox read)
        (url_attempt net resolver (λ url. url) discord_message send command.public_url) command

abbrev pub google_chat_outbox :
    (Intent → Result WebhookDelivery) → OutboxPort Db DestinationUrl StatusReceipt StatusReceipt
google_chat_outbox read = record {
  claim = claim_google_chat_deliveries read;
  mark_delivered = mark_google_chat_delivered;
  mark_failed = mark_google_chat_failed;
}

module _ (read : Intent → Result WebhookDelivery) (net : Net) (resolver : Resolver)
    (send : WebhookMessage → Result StatusReceipt) (command : BatchCommand) where
  abbrev pub deliver_google_chat_delivery : WebhookDelivery → BatchReceipt → Db → BatchReceipt × Db
  deliver_google_chat_delivery =
      deliver_delivery (google_chat_outbox read)
        (url_attempt net resolver (λ url. url) google_chat_message send command.public_url) command

  abbrev pub deliver_google_chat_batch : Action Db BatchReceipt
  deliver_google_chat_batch =
      deliver_batch (google_chat_outbox read)
        (url_attempt net resolver (λ url. url) google_chat_message send command.public_url) command

abbrev pub ntfy_outbox :
    (Intent → Result NtfyDelivery) → OutboxPort Db NtfyTarget StatusReceipt StatusReceipt
ntfy_outbox read = record {
  claim = claim_ntfy_deliveries read;
  mark_delivered = mark_ntfy_delivered;
  mark_failed = mark_ntfy_failed;
}

module _ (read : Intent → Result NtfyDelivery) (net : Net) (resolver : Resolver)
    (send : NtfyMessage → Result StatusReceipt) (command : BatchCommand) where
  abbrev pub deliver_ntfy_delivery : NtfyDelivery → BatchReceipt → Db → BatchReceipt × Db
  deliver_ntfy_delivery =
      deliver_delivery (ntfy_outbox read)
        (url_attempt net resolver (λ t. t.destination_url) ntfy_message send command.public_url)
        command

  abbrev pub deliver_ntfy_batch : Action Db BatchReceipt
  deliver_ntfy_batch =
      deliver_batch (ntfy_outbox read)
        (url_attempt net resolver (λ t. t.destination_url) ntfy_message send command.public_url)
        command

abbrev pub teams_outbox :
    (Intent → Result WebhookDelivery) → OutboxPort Db DestinationUrl StatusReceipt StatusReceipt
teams_outbox read = record {
  claim = claim_teams_deliveries read;
  mark_delivered = mark_teams_delivered;
  mark_failed = mark_teams_failed;
}

module _ (read : Intent → Result WebhookDelivery) (net : Net) (resolver : Resolver)
    (send : WebhookMessage → Result StatusReceipt) (command : BatchCommand) where
  abbrev pub deliver_teams_delivery : WebhookDelivery → BatchReceipt → Db → BatchReceipt × Db
  deliver_teams_delivery =
      deliver_delivery (teams_outbox read)
        (url_attempt net resolver (λ url. url) teams_message send command.public_url) command

  abbrev pub deliver_teams_batch : Action Db BatchReceipt
  deliver_teams_batch =
      deliver_batch (teams_outbox read)
        (url_attempt net resolver (λ url. url) teams_message send command.public_url) command

abbrev pub zulip_outbox :
    (Intent → Result ZulipDelivery) → OutboxPort Db ZulipTarget StatusReceipt StatusReceipt
zulip_outbox read = record {
  claim = claim_zulip_deliveries read;
  mark_delivered = mark_zulip_delivered;
  mark_failed = mark_zulip_failed;
}

module _ (read : Intent → Result ZulipDelivery) (net : Net) (resolver : Resolver)
    (send : ZulipMessage → Result StatusReceipt) (command : BatchCommand) where
  abbrev pub deliver_zulip_delivery : ZulipDelivery → BatchReceipt → Db → BatchReceipt × Db
  deliver_zulip_delivery =
      deliver_delivery (zulip_outbox read)
        (url_attempt net resolver (λ t. t.destination_url) zulip_message send command.public_url)
        command

  abbrev pub deliver_zulip_batch : Action Db BatchReceipt
  deliver_zulip_batch =
      deliver_batch (zulip_outbox read)
        (url_attempt net resolver (λ t. t.destination_url) zulip_message send command.public_url)
        command

abbrev pub new_telegram_batch_command : ℕ → ℤ → Text → Result BatchCommand
new_telegram_batch_command = new_batch_command

abbrev pub new_webhook_batch_command : ℕ → ℤ → Text → Result BatchCommand
new_webhook_batch_command = new_batch_command

abbrev pub new_email_batch_command : ℕ → ℤ → Text → Result BatchCommand
new_email_batch_command = new_batch_command

abbrev pub new_discord_batch_command : ℕ → ℤ → Text → Result BatchCommand
new_discord_batch_command = new_batch_command

abbrev pub new_google_chat_batch_command : ℕ → ℤ → Text → Result BatchCommand
new_google_chat_batch_command = new_batch_command

abbrev pub new_ntfy_batch_command : ℕ → ℤ → Text → Result BatchCommand
new_ntfy_batch_command = new_batch_command

abbrev pub new_teams_batch_command : ℕ → ℤ → Text → Result BatchCommand
new_teams_batch_command = new_batch_command

abbrev pub new_zulip_batch_command : ℕ → ℤ → Text → Result BatchCommand
new_zulip_batch_command = new_batch_command
