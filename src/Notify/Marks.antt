-- ===== src/Notify/Marks.antt =====
-- internal/adapters/postgres/notifications.go: `MarkTelegramDelivered` to `MarkZulipDelivered` and
-- `MarkTelegramFailed` to `MarkZulipFailed`. Those of the six URL channels are the same statement.
use gopnique.Base.{ℕ, ◌+◌, ◌-◌, ◌*◌, ◌^◌, Option, none, some, min, ◌==◌, if◌then◌else◌}
use gopnique.Base.Action.{Action}
use gopnique.Base.Text.{Text}
use gopnique.Notify.Outbox.{delivered, failed, Intent, Db, minute, update_where, has_id, statement}
use gopnique.Notify.Ports.{MessageReceipt, StatusReceipt}

-- `update notification_intents set … where id = $1`
abbrev pub update_intent : Text → (Intent → Intent) → Action Db (Unit {0})
update_intent intent_id change = statement (λ _. tt) (update_where (has_id intent_id) change)

unfoldable pub telegram_delivered : ℕ → MessageReceipt → Intent → Intent
telegram_delivered now receipt r = record r {
  status = delivered;
  locked_until = none;
  delivered_at = some now;
  provider_message_id = some receipt.provider_message_id;
  last_error = none;
}

unfoldable pub email_delivered : ℕ → MessageReceipt → Intent → Intent
email_delivered now receipt r = record r {
  status = delivered;
  locked_until = none;
  delivered_at = some now;
  provider_message_id = some receipt.provider_message_id;
  provider_status_code = none;
  last_error = none;
}

unfoldable pub status_delivered : ℕ → StatusReceipt → Intent → Intent
status_delivered now receipt r = record r {
  status = delivered;
  locked_until = none;
  delivered_at = some now;
  provider_status_code = some receipt.status;
  provider_message_id = none;
  last_error = none;
}

-- `least(60, (1 << least(greatest(attempts - 1, 0), 6)))`, in minutes
unfoldable pub retry_delay : ℕ → ℕ
retry_delay attempts = min 60 (2 ^ min (attempts - 1) 6)

-- `$2 + make_interval(mins => …)`, where `$2` is a minute from now
abbrev pub next_attempt : ℕ → ℕ → ℕ
next_attempt now attempts = now + 1 * minute + retry_delay attempts * minute

-- `nullif(status, 0)`
abbrev pub nullif_zero : ℕ → Option ℕ
nullif_zero status = if status == 0 then none else some status

unfoldable pub telegram_failed : ℕ → Text → Intent → Intent
telegram_failed now reason r = record r {
  status = failed;
  locked_until = none;
  next_attempt_at = next_attempt now r.attempts;
  last_error = some reason;
}

unfoldable pub email_failed : ℕ → Text → Intent → Intent
email_failed now reason r = record r {
  status = failed;
  locked_until = none;
  next_attempt_at = next_attempt now r.attempts;
  provider_message_id = none;
  provider_status_code = none;
  last_error = some reason;
}

unfoldable pub status_failed : ℕ → StatusReceipt → Intent → Intent
status_failed now receipt r = record r {
  status = failed;
  locked_until = none;
  next_attempt_at = next_attempt now r.attempts;
  provider_status_code = nullif_zero receipt.status;
  last_error = some receipt.reason;
}

abbrev pub mark_telegram_delivered : Text → ℕ → MessageReceipt → Action Db (Unit {0})
mark_telegram_delivered intent_id now receipt =
    update_intent intent_id (telegram_delivered now receipt)

abbrev pub mark_email_delivered : Text → ℕ → MessageReceipt → Action Db (Unit {0})
mark_email_delivered intent_id now receipt = update_intent intent_id (email_delivered now receipt)

abbrev pub mark_webhook_delivered : Text → ℕ → StatusReceipt → Action Db (Unit {0})
mark_webhook_delivered intent_id now receipt =
    update_intent intent_id (status_delivered now receipt)

abbrev pub mark_telegram_failed : Text → ℕ → Text → Action Db (Unit {0})
mark_telegram_failed intent_id now reason = update_intent intent_id (telegram_failed now reason)

abbrev pub mark_email_failed : Text → ℕ → Text → Action Db (Unit {0})
mark_email_failed intent_id now reason = update_intent intent_id (email_failed now reason)

abbrev pub mark_webhook_failed : Text → ℕ → StatusReceipt → Action Db (Unit {0})
mark_webhook_failed intent_id now receipt = update_intent intent_id (status_failed now receipt)

abbrev pub mark_discord_delivered : Text → ℕ → StatusReceipt → Action Db (Unit {0})
mark_discord_delivered intent_id now receipt =
    update_intent intent_id (status_delivered now receipt)

abbrev pub mark_discord_failed : Text → ℕ → StatusReceipt → Action Db (Unit {0})
mark_discord_failed intent_id now receipt = update_intent intent_id (status_failed now receipt)

abbrev pub mark_google_chat_delivered : Text → ℕ → StatusReceipt → Action Db (Unit {0})
mark_google_chat_delivered intent_id now receipt =
    update_intent intent_id (status_delivered now receipt)

abbrev pub mark_google_chat_failed : Text → ℕ → StatusReceipt → Action Db (Unit {0})
mark_google_chat_failed intent_id now receipt = update_intent intent_id (status_failed now receipt)

abbrev pub mark_ntfy_delivered : Text → ℕ → StatusReceipt → Action Db (Unit {0})
mark_ntfy_delivered intent_id now receipt = update_intent intent_id (status_delivered now receipt)

abbrev pub mark_ntfy_failed : Text → ℕ → StatusReceipt → Action Db (Unit {0})
mark_ntfy_failed intent_id now receipt = update_intent intent_id (status_failed now receipt)

abbrev pub mark_teams_delivered : Text → ℕ → StatusReceipt → Action Db (Unit {0})
mark_teams_delivered intent_id now receipt = update_intent intent_id (status_delivered now receipt)

abbrev pub mark_teams_failed : Text → ℕ → StatusReceipt → Action Db (Unit {0})
mark_teams_failed intent_id now receipt = update_intent intent_id (status_failed now receipt)

abbrev pub mark_zulip_delivered : Text → ℕ → StatusReceipt → Action Db (Unit {0})
mark_zulip_delivered intent_id now receipt = update_intent intent_id (status_delivered now receipt)

abbrev pub mark_zulip_failed : Text → ℕ → StatusReceipt → Action Db (Unit {0})
mark_zulip_failed intent_id now receipt = update_intent intent_id (status_failed now receipt)
