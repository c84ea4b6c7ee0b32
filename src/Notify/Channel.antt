-- ===== src/Notify/Channel.antt =====
-- What the outboxes of the eight channels have in common, as parameters: the provider, the reading of
-- a row, and the two marks.
use gopnique.Base.{ℕ, suc, ◌+◌, zero, ◌-◌, ◌^◌, min, ◌*◌, ◌≤◌, ◌≡◌, refl, arith, none, some}
use gopnique.Base.Result.{Result}
use gopnique.Notify.Outbox.{Provider, Intent, delivered, failed, Db, minute}
use gopnique.Notify.Store.{claim_deliveries}
use gopnique.Notify.Marks.{
  update_intent, telegram_delivered, email_delivered, status_delivered, telegram_failed,
  email_failed, status_failed, retry_delay,
}
use gopnique.Notify.Ports.{Delivery}
use gopnique.Notify.Batch.{OutboxPort}

-- `c` is the row of `r` after it was taken up once and delivered at `now`.
pub record WasDelivered (now : ℕ) (r c : Intent) : Type 0 where
  pub same_id : c.id_ ≡ r.id_
  pub same_provider : c.provider ≡ r.provider
  pub same_destination : c.destination_id ≡ r.destination_id
  pub counted : c.attempts ≡ suc r.attempts
  pub status : c.status ≡ delivered
  pub unlocked : c.locked_until ≡ none
  pub at_ : c.delivered_at ≡ some now

-- `c` is the row of `r` after it was taken up once and failed at `now`: it waits for two minutes at
-- least and for 61 at most.
pub record WasFailed (now : ℕ) (r c : Intent) : Type 0 where
  pub same_id : c.id_ ≡ r.id_
  pub same_provider : c.provider ≡ r.provider
  pub same_destination : c.destination_id ≡ r.destination_id
  pub counted : c.attempts ≡ suc r.attempts
  pub status : c.status ≡ failed
  pub unlocked : c.locked_until ≡ none
  pub not_before : now + 2 * minute ≤ c.next_attempt_at
  pub not_after : c.next_attempt_at ≤ now + 61 * minute

-- `c` is the row of `r` while it is being delivered, or later in the same batch.
pub record IsTaken (r c : Intent) : Type 0 where
  pub same_id : c.id_ ≡ r.id_
  pub same_provider : c.provider ≡ r.provider
  pub same_destination : c.destination_id ≡ r.destination_id
  pub counted : c.attempts ≡ suc r.attempts

pub record IsMarks {R F : Type 0} (delivered_row : ℕ → R → Intent → Intent)
    (failed_row : ℕ → F → Intent → Intent) : Type 0 where
  pub delivers :
      (now : ℕ) (note : R) (r c : Intent)
      → IsTaken r c
      → WasDelivered now r (delivered_row now note c)
  pub fails :
      (now : ℕ) (reason : F) (r c : Intent)
      → IsTaken r c
      → WasFailed now r (failed_row now reason c)
  pub delivered_id : (now : ℕ) (note : R) (c : Intent) → (delivered_row now note c).id_ ≡ c.id_
  pub failed_id : (now : ℕ) (reason : F) (c : Intent) → (failed_row now reason c).id_ ≡ c.id_

module _ {T R F : Type 0} (p : Provider) (read : Intent → Result (Delivery T))
    (delivered_row : ℕ → R → Intent → Intent) (failed_row : ℕ → F → Intent → Intent) where
  abbrev pub db_outbox : OutboxPort Db T R F
  db_outbox = record {
    claim = claim_deliveries read p;
    mark_delivered = λ intent_id now note. update_intent intent_id (delivered_row now note);
    mark_failed = λ intent_id now reason. update_intent intent_id (failed_row now reason);
  }

pow-le-pow : (j k : ℕ) → j ≤ k → 2 ^ j ≤ 2 ^ k
pow-le-pow zero zero h = omega arith
pow-le-pow zero (suc k) h = omega (arith, pow-le-pow zero k (omega arith))
pow-le-pow (suc j) zero h = absurd (omega arith)
pow-le-pow (suc j) (suc k) h = omega (arith, pow-le-pow j k (omega arith))

-- The delay before the next attempt, from a minute after the failure on, is one to sixty minutes.
pub retry_delay_bounds : (attempts : ℕ) → (1 ≤ retry_delay attempts) × (retry_delay attempts ≤ 60)
unfolding retry_delay
retry_delay_bounds attempts =
    let some_ = pow-le-pow 0 (min (attempts - 1) 6) (omega arith) in (omega arith, omega arith)

-- It never gets shorter from one attempt to the next.
pub retry_delay_mono : (a b : ℕ) → a ≤ b → retry_delay a ≤ retry_delay b
unfolding retry_delay
retry_delay_mono a b h =
    let grows = pow-le-pow (min (a - 1) 6) (min (b - 1) 6) (omega arith) in omega arith

pub telegram-IsMarks : IsMarks telegram_delivered telegram_failed
unfolding telegram_delivered telegram_failed
telegram-IsMarks = record {
  delivers = λ now note r c t. ground arith;
  fails = λ now reason r c t. ground (arith, retry_delay_bounds c.attempts);
  delivered_id = λ now note c. refl;
  failed_id = λ now reason c. refl;
}

pub email-IsMarks : IsMarks email_delivered email_failed
unfolding email_delivered email_failed
email-IsMarks = record {
  delivers = λ now note r c t. ground arith;
  fails = λ now reason r c t. ground (arith, retry_delay_bounds c.attempts);
  delivered_id = λ now note c. refl;
  failed_id = λ now reason c. refl;
}

pub status-IsMarks : IsMarks status_delivered status_failed
unfolding status_delivered status_failed
status-IsMarks = record {
  delivers = λ now note r c t. ground arith;
  fails = λ now reason r c t. ground (arith, retry_delay_bounds c.attempts);
  delivered_id = λ now note c. refl;
  failed_id = λ now reason c. refl;
}
