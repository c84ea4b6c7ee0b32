-- ===== src/Notify/Outbox.antt =====
-- The table notification_intents, as internal/adapters/postgres/notifications.go uses it. A time is the
-- number of microseconds since the zero time of Go. `intents` holds the rows in the order of
-- `created_at`; the columns organization_id and project_id, which no statement here reads, are left
-- out. Every statement commits by itself, and may fail: `outages` says which of the next ones do.
use gopnique.Base.{
  ℕ, Bool, true, false, ◌&&◌, ◌||◌, List, [], ◌∷◌, Option, none, some, String, leb, ltb,
  if◌then◌else◌,
}
use gopnique.Base.Action.{Action}
use gopnique.Base.Result.{ok, err}
use gopnique.Base.Text.{Text, codes, text_eq}

pub data Provider : Type 0 where
  telegram : Provider
  webhook : Provider
  email : Provider
  discord : Provider
  google_chat : Provider
  ntfy : Provider
  microsoft_teams : Provider
  zulip : Provider

-- `AlertActionProvider.String`
unfoldable pub provider_string : Provider → Text
provider_string telegram = codes "telegram"
provider_string webhook = codes "webhook"
provider_string email = codes "email"
provider_string discord = codes "discord"
provider_string google_chat = codes "google_chat"
provider_string ntfy = codes "ntfy"
provider_string microsoft_teams = codes "microsoft_teams"
provider_string zulip = codes "zulip"

unfoldable pub same_provider : Provider → Provider → Bool
same_provider telegram telegram = true
same_provider webhook webhook = true
same_provider email email = true
same_provider discord discord = true
same_provider google_chat google_chat = true
same_provider ntfy ntfy = true
same_provider microsoft_teams microsoft_teams = true
same_provider zulip zulip = true
same_provider p q = false

pub data IntentStatus : Type 0 where
  pending : IntentStatus
  delivering : IntentStatus
  delivered : IntentStatus
  failed : IntentStatus

pub record Intent : Type 0 where
  pub id_ : Text
  pub issue_id : Text
  pub event_id : Text
  pub provider : Provider
  pub destination_id : Text
  pub status : IntentStatus
  pub dedupe_key : Text
  pub attempts : ℕ
  pub next_attempt_at : ℕ
  pub locked_until : Option ℕ
  pub delivered_at : Option ℕ
  pub provider_message_id : Option Text
  pub provider_status_code : Option ℕ
  pub last_error : Option Text

-- The database: the outbox, which destinations are enabled, when an issue was last seen, and for
-- each statement to come whether it fails and how; past the end of the list none does.
pub record Db : Type 0 where
  pub intents : List Intent
  pub enabled : Provider → Text → Bool
  pub last_seen_at : Text → ℕ
  pub outages : List (Option String)

abbrev pub minute : ℕ
minute = 60000000

-- `status in ('pending', 'failed')`
abbrev pub awaits : IntentStatus → Bool
awaits pending = true
awaits delivering = false
awaits delivered = false
awaits failed = true

-- `locked_until is null or locked_until < $1`
abbrev pub lock_expired : ℕ → Option ℕ → Bool
lock_expired now none = true
lock_expired now (some until) = ltb until now

-- the `where` of the claims
unfoldable pub claimable : (Provider → Text → Bool) → Provider → ℕ → Intent → Bool
claimable enabled p now r =
    same_provider r.provider p
    && enabled p r.destination_id
    && awaits r.status
    && leb r.next_attempt_at now
    && lock_expired now r.locked_until

module _ {A : Type 0} where
  -- `where` without an order
  unfoldable pub select : (A → Bool) → List A → List A
  select test [] = []
  select test (r ∷ rows) = let rest = select test rows in if test r then r ∷ rest else rest

  -- `update … set … where`
  unfoldable pub update_where : (A → Bool) → (A → A) → List A → List A
  update_where test change [] = []
  update_where test change (r ∷ rows) =
      (if test r then change r else r) ∷ update_where test change rows

unfoldable pub elem : Text → List Text → Bool
elem x [] = false
elem x (y ∷ ys) = text_eq x y || elem x ys

abbrev pub has_id : Text → Intent → Bool
has_id x r = text_eq r.id_ x

abbrev pub ids : List Intent → List Text
ids [] = []
ids (r ∷ rows) = r.id_ ∷ ids rows

-- `order by last_seen_at desc`
unfoldable pub insert_by : (Intent → ℕ) → Intent → List Intent → List Intent
insert_by key r [] = r ∷ []
insert_by key r (q ∷ rows) =
    let rest = insert_by key r rows in if ltb (key r) (key q) then q ∷ rest else r ∷ q ∷ rows

unfoldable pub sort_by : (Intent → ℕ) → List Intent → List Intent
sort_by key [] = []
sort_by key (r ∷ rows) = insert_by key r (sort_by key rows)

module _ {A : Type 0} where
  -- one statement: it gives `answer` and makes `change`, or fails and changes nothing
  abbrev pub run_statement :
      List (Option String) → (List Intent → A) → (List Intent → List Intent) → Action Db A
  run_statement [] answer change db =
      (ok (answer db.intents), record db { intents = change db.intents })
  run_statement (none ∷ outages) answer change db =
      (ok (answer db.intents), record db { intents = change db.intents; outages = outages })
  run_statement (some e ∷ outages) answer change db = (err e, record db { outages = outages })

  unfoldable pub statement : (List Intent → A) → (List Intent → List Intent) → Action Db A
  statement answer change db = run_statement db.outages answer change db
