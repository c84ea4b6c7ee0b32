-- ===== src/Notify/Messages.antt =====
-- The messages of internal/app/notifications/workflow.go, `telegramMessage` to `zulipMessage`.
use gopnique.Base.{◌++◌, is_empty}
use gopnique.Base.Result.{Result, ok, ◌>>=◌, ◌>>◌, reject_if}
use gopnique.Base.Text.{Text, codes}
use gopnique.Notify.Plan.{
  IssueOpened, base_url, new_issue_opened, telegram_issue_opened_text, email_issue_opened_message,
}
use gopnique.Notify.Ports.{
  Delivery, Message, Payload, TelegramDelivery, EmailDelivery, WebhookDelivery, NtfyDelivery,
  ZulipDelivery, TelegramMessage, EmailMessage, WebhookMessage, NtfyMessage, ZulipMessage,
}

unfoldable pub telegram_message : TelegramDelivery → Text → Result TelegramMessage
telegram_message delivery public_url = do
  opened ← new_issue_opened delivery.event delivery.issue_id delivery.issue_short_id
  text ← telegram_issue_opened_text opened public_url
  ok (record { intent_id = delivery.intent_id; target = delivery.target; payload = text })

unfoldable pub email_message : EmailDelivery → Text → Result EmailMessage
email_message delivery public_url = do
  opened ← new_issue_opened delivery.event delivery.issue_id delivery.issue_short_id
  message ← email_issue_opened_message opened public_url
  ok (record {
    intent_id = delivery.intent_id;
    target = delivery.target;
    payload = record { subject = message.subject; body = message.body };
  })

unfoldable pub url_payload : IssueOpened → Text → Payload
url_payload opened base = record {
  event_id = opened.event.event_id;
  issue_id = opened.issue_id;
  issue_short_id = opened.issue_short_id;
  title = opened.event.title;
  level = opened.event.level;
  platform = opened.event.platform;
  issue_url = base ++ codes "/issues/" ++ opened.issue_id;
}

module _ {T : Type 0} where
  -- the body that the messages of the six URL channels share, line for line
  unfoldable pub url_message : Delivery T → Text → Result (Message T Payload)
  url_message delivery public_url = do
    opened ← new_issue_opened delivery.event delivery.issue_id delivery.issue_short_id
    let base = base_url public_url
    reject_if (is_empty base) "public url is required"
    ok (record {
      intent_id = delivery.intent_id;
      target = delivery.target;
      payload = url_payload opened base;
    })

abbrev pub webhook_message : WebhookDelivery → Text → Result WebhookMessage
webhook_message = url_message

abbrev pub discord_message : WebhookDelivery → Text → Result WebhookMessage
discord_message = url_message

abbrev pub google_chat_message : WebhookDelivery → Text → Result WebhookMessage
google_chat_message = url_message

abbrev pub ntfy_message : NtfyDelivery → Text → Result NtfyMessage
ntfy_message = url_message

abbrev pub teams_message : WebhookDelivery → Text → Result WebhookMessage
teams_message = url_message

abbrev pub zulip_message : ZulipDelivery → Text → Result ZulipMessage
zulip_message = url_message
