-- ===== src/Notify/Plan.antt =====
-- internal/plans/notifyplan/telegram.go, with `NewNotificationSubject` and `NewNotificationText` of
-- internal/domain/notification.go: the texts that announce an opened issue.
use gopnique.Base.{
  ℕ, zero, suc, ◌+◌, ◌/◌, ◌%◌, not, ◌&&◌, List, [], ◌∷◌, ◌++◌, ltb, leb, ◌==◌, length, take,
  is_empty, if◌then◌else◌,
}
use gopnique.Base.Int.{ℤ, pos, negsuc, ltbℤ}
use gopnique.Base.Result.{Result, ok, ◌>>=◌, ◌>>◌, reject_if}
use gopnique.Base.Text.{Text, codes, trim_space, contains_any}
use gopnique.Domain.Event.{CanonicalEvent, creates_issue}

pub record IssueOpened : Type 0 where
  pub event : CanonicalEvent
  pub issue_id : Text
  pub issue_short_id : ℤ

pub record EmailIssueOpened : Type 0 where
  pub subject : Text
  pub body : Text

unfoldable pub new_issue_opened : CanonicalEvent → Text → ℤ → Result IssueOpened
new_issue_opened event issue_id issue_short_id = do
  reject_if (not (creates_issue event.kind)) "issue event is required"
  reject_if (is_empty issue_id) "issue id is required"
  reject_if (ltbℤ issue_short_id (pos 1)) "issue short id must be positive"
  ok (record { event = event; issue_id = issue_id; issue_short_id = issue_short_id })

-- `%d`: the decimal digits, on one digit more than are needed
abbrev digits_onto : ℕ → ℕ → Text → Text
digits_onto zero n rest = rest
digits_onto (suc fuel) n rest =
    let more = digits_onto fuel (n / 10) ((b'0' + n % 10) ∷ rest) in
    if ltb n 10 then (b'0' + n) ∷ rest else more

unfoldable pub decimal : ℤ → Text
decimal (pos n) = digits_onto 20 n []
decimal (negsuc n) = b'-' ∷ digits_onto 20 (suc n) []

-- `strings.TrimRight(s, "/")`
unfoldable pub trim_slashes : Text → Text
trim_slashes [] = []
trim_slashes (c ∷ s) =
    let rest = trim_slashes s in if is_empty rest && c == b'/' then [] else c ∷ rest

unfoldable pub base_url : Text → Text
base_url public_url = trim_slashes (trim_space public_url)

unfoldable pub new_notification_subject : Text → Result Text
new_notification_subject input = do
  let value = trim_space input
  reject_if (is_empty value) "notification subject is required"
  reject_if (contains_any (codes "\r\n") value) "notification subject cannot contain line breaks"
  reject_if (ltb 240 (length value)) "notification subject is too long"
  ok value

unfoldable pub new_notification_text : Text → Result Text
new_notification_text input = do
  let value = trim_space input
  reject_if (is_empty value) "notification text is required"
  reject_if (ltb 4096 (length value)) "notification text is too long"
  ok value

abbrev pub concat : List Text → Text
concat [] = []
concat (s ∷ texts) = s ++ concat texts

unfoldable pub telegram_body : IssueOpened → Text → Text
telegram_body opened base = concat (
    codes "New issue #"
    ∷ decimal opened.issue_short_id
    ∷ codes "\n"
    ∷ opened.event.title
    ∷ codes "\nLevel: "
    ∷ opened.event.level
    ∷ codes "\nEvent: "
    ∷ opened.event.event_id
    ∷ codes "\n"
    ∷ base
    ∷ codes "/issues/"
    ∷ opened.issue_id
    ∷ [])

unfoldable pub telegram_issue_opened_text : IssueOpened → Text → Result Text
telegram_issue_opened_text opened public_url = do
  let base = base_url public_url
  reject_if (is_empty base) "public url is required"
  new_notification_text (telegram_body opened base)

-- `[]rune` and back changes a byte in no valid encoding to U+FFFD
abbrev pub rune_of : ℕ → ℕ
rune_of c = if ltb c 0x110000 then c else 0xfffd

abbrev pub runes : Text → Text
runes [] = []
runes (c ∷ s) = rune_of c ∷ runes s

unfoldable pub trim_subject_title : Text → ℕ → Text
trim_subject_title input limit =
    let text = runes (trim_space input) in if leb (length text) limit then text else take limit text

unfoldable pub email_issue_opened_subject : IssueOpened → Result Text
email_issue_opened_subject opened = new_notification_subject (
    concat (
      codes "New issue #"
      ∷ decimal opened.issue_short_id
      ∷ codes ": "
      ∷ trim_subject_title opened.event.title 160
      ∷ []))

unfoldable pub email_body : IssueOpened → Text → Text
email_body opened base = concat (
    codes "New issue #"
    ∷ decimal opened.issue_short_id
    ∷ codes "\n\nTitle: "
    ∷ opened.event.title
    ∷ codes "\nLevel: "
    ∷ opened.event.level
    ∷ codes "\nPlatform: "
    ∷ opened.event.platform
    ∷ codes "\nEvent: "
    ∷ opened.event.event_id
    ∷ codes "\nIssue: "
    ∷ base
    ∷ codes "/issues/"
    ∷ opened.issue_id
    ∷ [])

unfoldable pub email_issue_opened_message : IssueOpened → Text → Result EmailIssueOpened
email_issue_opened_message opened public_url = do
  let base = base_url public_url
  reject_if (is_empty base) "public url is required"
  subject ← email_issue_opened_subject opened
  body ← new_notification_text (email_body opened base)
  ok (record { subject = subject; body = body })
