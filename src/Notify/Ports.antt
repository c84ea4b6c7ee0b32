-- ===== src/Notify/Ports.antt =====
-- internal/app/notifications/ports.go: what the eight channels hand over. A channel differs from the
-- others by its target (chat, address, URL, and what goes with it) and by its payload.
use gopnique.Base.{ℕ, Bool, true, false, []}
use gopnique.Base.Int.{ℤ}
use gopnique.Base.Text.{Text}
use gopnique.Domain.Event.{CanonicalEvent}
use gopnique.Outbound.{DestinationUrl}

pub record Delivery (T : Type 0) : Type 0 where
  pub intent_id : Text
  pub target : T
  pub event : CanonicalEvent
  pub issue_id : Text
  pub issue_short_id : ℤ

pub record NtfyTarget : Type 0 where
  pub destination_url : DestinationUrl
  pub topic : Text

pub record ZulipTarget : Type 0 where
  pub destination_url : DestinationUrl
  pub bot_email : Text
  pub api_key : Text
  pub stream : Text
  pub topic : Text

-- `WebhookPayload`, and those of Discord, Google Chat, ntfy, Teams and Zulip, which have its fields
pub record Payload : Type 0 where
  pub event_id : Text
  pub issue_id : Text
  pub issue_short_id : ℤ
  pub title : Text
  pub level : Text
  pub platform : Text
  pub issue_url : Text

pub record Message (T P : Type 0) : Type 0 where
  pub intent_id : Text
  pub target : T
  pub payload : P

pub record EmailContent : Type 0 where
  pub subject : Text
  pub body : Text

-- `TelegramSendReceipt`, `EmailSendReceipt`
pub record MessageReceipt : Type 0 where
  pub provider_message_id : Text

-- `WebhookSendReceipt` and the five others for URLs
pub record StatusReceipt : Type 0 where
  pub delivered : Bool
  pub status : ℕ
  pub reason : Text

abbrev pub new_delivered_receipt : ℕ → StatusReceipt
new_delivered_receipt status = record { delivered = true; status = status; reason = [] }

abbrev pub new_failed_receipt : ℕ → Text → StatusReceipt
new_failed_receipt status reason = record { delivered = false; status = status; reason = reason }

abbrev pub TelegramDelivery : Type 0
TelegramDelivery = Delivery Text

abbrev pub EmailDelivery : Type 0
EmailDelivery = Delivery Text

abbrev pub WebhookDelivery : Type 0
WebhookDelivery = Delivery DestinationUrl

abbrev pub NtfyDelivery : Type 0
NtfyDelivery = Delivery NtfyTarget

abbrev pub ZulipDelivery : Type 0
ZulipDelivery = Delivery ZulipTarget

abbrev pub TelegramMessage : Type 0
TelegramMessage = Message Text Text

abbrev pub EmailMessage : Type 0
EmailMessage = Message Text EmailContent

abbrev pub WebhookMessage : Type 0
WebhookMessage = Message DestinationUrl Payload

abbrev pub NtfyMessage : Type 0
NtfyMessage = Message NtfyTarget Payload

abbrev pub ZulipMessage : Type 0
ZulipMessage = Message ZulipTarget Payload
