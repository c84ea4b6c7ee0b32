-- ===== src/Notify/Runs.antt =====
-- Batches of all channels, one after the other, as the worker runs them (internal/runtime/worker).
use gopnique.Base.{ℕ, List, [], ◌∷◌, ◌≡◌}
use gopnique.Base.Action.{Action}
use gopnique.Base.Result.{Result, ok}
use gopnique.Base.Text.{Text}
use gopnique.Outbound.{Net, Resolver, DestinationUrl}
use gopnique.Notify.Ports.{
  Delivery, MessageReceipt, StatusReceipt, NtfyTarget, ZulipTarget, TelegramDelivery, EmailDelivery,
  WebhookDelivery, NtfyDelivery, ZulipDelivery, TelegramMessage, EmailMessage, WebhookMessage,
  NtfyMessage, ZulipMessage,
}
use gopnique.Notify.Messages.{
  telegram_message, email_message, webhook_message, discord_message, google_chat_message,
  ntfy_message, teams_message, zulip_message,
}
use gopnique.Notify.Outbox.{
  Provider, telegram, webhook, email, discord, google_chat, ntfy, microsoft_teams, zulip, Intent,
  Db,
}
use gopnique.Notify.Marks.{
  telegram_delivered, email_delivered, status_delivered, telegram_failed, email_failed,
  status_failed,
}
use gopnique.Notify.Batch.{
  BatchCommand, BatchReceipt, Attempt, deliver_batch, message_attempt, url_attempt,
}
use gopnique.Notify.Batches.{
  deliver_telegram_batch, deliver_webhook_batch, deliver_email_batch, deliver_discord_batch,
  deliver_google_chat_batch, deliver_ntfy_batch, deliver_teams_batch, deliver_zulip_batch,
}
use gopnique.Notify.Channel.{IsMarks, db_outbox, telegram-IsMarks, email-IsMarks, status-IsMarks}

-- a batch of a channel: how its rows are read, what its sender answers, and the command
pub data Batch : Type 0 where
  telegram_batch :
      (Intent → Result TelegramDelivery)
      → (TelegramMessage → Result MessageReceipt)
      → BatchCommand
      → Batch
  webhook_batch :
      (Intent → Result WebhookDelivery)
      → (WebhookMessage → Result StatusReceipt)
      → BatchCommand
      → Batch
  email_batch :
      (Intent → Result EmailDelivery)
      → (EmailMessage → Result MessageReceipt)
      → BatchCommand
      → Batch
  discord_batch :
      (Intent → Result WebhookDelivery)
      → (WebhookMessage → Result StatusReceipt)
      → BatchCommand
      → Batch
  google_chat_batch :
      (Intent → Result WebhookDelivery)
      → (WebhookMessage → Result StatusReceipt)
      → BatchCommand
      → Batch
  ntfy_batch :
      (Intent → Result NtfyDelivery) → (NtfyMessage → Result StatusReceipt) → BatchCommand → Batch
  teams_batch :
      (Intent → Result WebhookDelivery)
      → (WebhookMessage → Result StatusReceipt)
      → BatchCommand
      → Batch
  zulip_batch :
      (Intent → Result ZulipDelivery) → (ZulipMessage → Result StatusReceipt) → BatchCommand → Batch

abbrev pub provider_of : Batch → Provider
provider_of (telegram_batch read send command) = telegram
provider_of (webhook_batch read send command) = webhook
provider_of (email_batch read send command) = email
provider_of (discord_batch read send command) = discord
provider_of (google_chat_batch read send command) = google_chat
provider_of (ntfy_batch read send command) = ntfy
provider_of (teams_batch read send command) = microsoft_teams
provider_of (zulip_batch read send command) = zulip

abbrev pub command_of : Batch → BatchCommand
command_of (telegram_batch read send command) = command
command_of (webhook_batch read send command) = command
command_of (email_batch read send command) = command
command_of (discord_batch read send command) = command
command_of (google_chat_batch read send command) = command
command_of (ntfy_batch read send command) = command
command_of (teams_batch read send command) = command
command_of (zulip_batch read send command) = command

-- Every row that the batch may meet can be read.
abbrev pub IsReadable : Batch → Type 0
IsReadable (telegram_batch read send command) =
    (r : Intent) → (d : TelegramDelivery) × (read r ≡ ok d)
IsReadable (webhook_batch read send command) =
    (r : Intent) → (d : WebhookDelivery) × (read r ≡ ok d)
IsReadable (email_batch read send command) = (r : Intent) → (d : EmailDelivery) × (read r ≡ ok d)
IsReadable (discord_batch read send command) =
    (r : Intent) → (d : WebhookDelivery) × (read r ≡ ok d)
IsReadable (google_chat_batch read send command) =
    (r : Intent) → (d : WebhookDelivery) × (read r ≡ ok d)
IsReadable (ntfy_batch read send command) = (r : Intent) → (d : NtfyDelivery) × (read r ≡ ok d)
IsReadable (teams_batch read send command) = (r : Intent) → (d : WebhookDelivery) × (read r ≡ ok d)
IsReadable (zulip_batch read send command) = (r : Intent) → (d : ZulipDelivery) × (read r ≡ ok d)

module _ (net : Net) (resolver : Resolver) where
  unfoldable pub run_batch : Batch → Action Db BatchReceipt
  run_batch (telegram_batch read send command) = deliver_telegram_batch read send command
  run_batch (webhook_batch read send command) = deliver_webhook_batch read net resolver send command
  run_batch (email_batch read send command) = deliver_email_batch read send command
  run_batch (discord_batch read send command) = deliver_discord_batch read net resolver send command
  run_batch (google_chat_batch read send command) =
      deliver_google_chat_batch read net resolver send command
  run_batch (ntfy_batch read send command) = deliver_ntfy_batch read net resolver send command
  run_batch (teams_batch read send command) = deliver_teams_batch read net resolver send command
  run_batch (zulip_batch read send command) = deliver_zulip_batch read net resolver send command

  -- one after the other, whatever each returns
  unfoldable pub run_batches : List Batch → Db → Db
  run_batches [] db = db
  run_batches (b ∷ bs) db = run_batches bs (run_batch b db).1

  module _ {ℓ} (P : Provider → BatchCommand → Action Db BatchReceipt → Type ℓ) where
    -- What holds of the batch of every channel with proper marks holds of these.
    pub by_channel :
        ((T R F : Type 0) (p : Provider) (read : Intent → Result (Delivery T))
            (delivered_row : ℕ → R → Intent → Intent) (failed_row : ℕ → F → Intent → Intent)
          → IsMarks delivered_row failed_row
          → (attempt : Delivery T → Attempt R F) (command : BatchCommand)
          → P p command (deliver_batch (db_outbox p read delivered_row failed_row) attempt command))
        → (b : Batch) → P (provider_of b) (command_of b) (run_batch b)
    unfolding run_batch
    by_channel f (telegram_batch read send command) =
        f Text MessageReceipt Text telegram read telegram_delivered telegram_failed telegram-IsMarks
          (message_attempt telegram_message send command.public_url) command
    by_channel f (webhook_batch read send command) =
        f DestinationUrl StatusReceipt StatusReceipt webhook read status_delivered status_failed
          status-IsMarks
          (url_attempt net resolver (λ url. url) webhook_message send command.public_url) command
    by_channel f (email_batch read send command) =
        f Text MessageReceipt Text email read email_delivered email_failed email-IsMarks
          (message_attempt email_message send command.public_url) command
    by_channel f (discord_batch read send command) =
        f DestinationUrl StatusReceipt StatusReceipt discord read status_delivered status_failed
          status-IsMarks
          (url_attempt net resolver (λ url. url) discord_message send command.public_url) command
    by_channel f (google_chat_batch read send command) =
        f DestinationUrl StatusReceipt StatusReceipt google_chat read status_delivered status_failed
          status-IsMarks
          (url_attempt net resolver (λ url. url) google_chat_message send command.public_url)
          command
    by_channel f (ntfy_batch read send command) =
        f NtfyTarget StatusReceipt StatusReceipt ntfy read status_delivered status_failed
          status-IsMarks
          (url_attempt net resolver (λ t. t.destination_url) ntfy_message send command.public_url)
          command
    by_channel f (teams_batch read send command) =
        f DestinationUrl StatusReceipt StatusReceipt microsoft_teams read status_delivered
          status_failed status-IsMarks
          (url_attempt net resolver (λ url. url) teams_message send command.public_url) command
    by_channel f (zulip_batch read send command) =
        f ZulipTarget StatusReceipt StatusReceipt zulip read status_delivered status_failed
          status-IsMarks
          (url_attempt net resolver (λ t. t.destination_url) zulip_message send command.public_url)
          command

    pub by_readable :
        ((T R F : Type 0) (p : Provider) (read : Intent → Result (Delivery T))
          → ((r : Intent) → (d : Delivery T) × (read r ≡ ok d))
          → (delivered_row : ℕ → R → Intent → Intent) (failed_row : ℕ → F → Intent → Intent)
          → IsMarks delivered_row failed_row
          → (attempt : Delivery T → Attempt R F) (command : BatchCommand)
          → P p command (deliver_batch (db_outbox p read delivered_row failed_row) attempt command))
        → (b : Batch) → IsReadable b
        → P (provider_of b) (command_of b) (run_batch b)
    unfolding run_batch
    by_readable f (telegram_batch read send command) readable =
        f Text MessageReceipt Text telegram read readable telegram_delivered telegram_failed
          telegram-IsMarks (message_attempt telegram_message send command.public_url) command
    by_readable f (webhook_batch read send command) readable =
        f DestinationUrl StatusReceipt StatusReceipt webhook read readable status_delivered
          status_failed status-IsMarks
          (url_attempt net resolver (λ url. url) webhook_message send command.public_url) command
    by_readable f (email_batch read send command) readable =
        f Text MessageReceipt Text email read readable email_delivered email_failed email-IsMarks
          (message_attempt email_message send command.public_url) command
    by_readable f (discord_batch read send command) readable =
        f DestinationUrl StatusReceipt StatusReceipt discord read readable status_delivered
          status_failed status-IsMarks
          (url_attempt net resolver (λ url. url) discord_message send command.public_url) command
    by_readable f (google_chat_batch read send command) readable =
        f DestinationUrl StatusReceipt StatusReceipt google_chat read readable status_delivered
          status_failed status-IsMarks
          (url_attempt net resolver (λ url. url) google_chat_message send command.public_url)
          command
    by_readable f (ntfy_batch read send command) readable =
        f NtfyTarget StatusReceipt StatusReceipt ntfy read readable status_delivered status_failed
          status-IsMarks
          (url_attempt net resolver (λ t. t.destination_url) ntfy_message send command.public_url)
          command
    by_readable f (teams_batch read send command) readable =
        f DestinationUrl StatusReceipt StatusReceipt microsoft_teams read readable status_delivered
          status_failed status-IsMarks
          (url_attempt net resolver (λ url. url) teams_message send command.public_url) command
    by_readable f (zulip_batch read send command) readable =
        f ZulipTarget StatusReceipt StatusReceipt zulip read readable status_delivered status_failed
          status-IsMarks
          (url_attempt net resolver (λ t. t.destination_url) zulip_message send command.public_url)
          command
