-- ===== src/Notify/Settle.antt =====
-- A batch on a database whose statements succeed: what becomes of the rows that it takes up.
use gopnique.Base.{
  ℕ, ◌≡◌, refl, sym, ◌∙◌, ap, subst, Bool, true, false, ◌||◌, List, [], ◌∷◌, Option, String, length,
  ◌⊎◌, inl, inr, arith, Bool-cases, if◌then◌else◌,
}
use gopnique.Base.Int.{ℤ, pos_part}
use gopnique.Base.Result.{Result, ok}
use gopnique.Base.Text.{Text, text_eq}
use gopnique.Notify.Outbox.{
  Provider, telegram, email, Intent, Db, update_where, select, elem, has_id, ids, claimable,
  run_statement, statement,
}
use gopnique.Notify.Store.{
  claimed, claimable_ids, claim_rows, returned_rows, read_rows, claim_deliveries,
}
use gopnique.Notify.Ports.{Delivery}
use gopnique.Notify.Batch.{
  BatchCommand, BatchReceipt, Attempt, sent, not_sent, settle_attempt, deliver_delivery,
  deliver_deliveries, deliver_batch,
}
use gopnique.Notify.Channel.{WasDelivered, WasFailed, IsTaken, IsMarks, db_outbox}
use gopnique.Notify.Rows.{
  All2, All2-map, All2-update_where, update_where-All2, ids-update_where, elem-sort_by, elem-query,
  elem-select_wanted,
}

abbrev pub with_rows : List Intent → Db → Db
with_rows rows db = record db { intents = rows }

module _ {A : Type 0} (answer : List Intent → A) (change : List Intent → List Intent) where
  run_statement-nil :
      (outages : List (Option String)) (db : Db)
      → outages ≡ []
      → run_statement outages answer change db
        ≡ (ok (answer db.intents), with_rows (change db.intents) db)
  run_statement-nil [] db h = refl
  run_statement-nil (o ∷ outages) db h = cc h

  pub statement-nil :
      (db : Db)
      → db.outages ≡ []
      → statement answer change db ≡ (ok (answer db.intents), with_rows (change db.intents) db)
  unfolding statement
  statement-nil db h = run_statement-nil db.outages db h

module _ {T : Type 0} where
  abbrev pub delivery_ids : List (Delivery T) → List Text
  delivery_ids [] = []
  delivery_ids (d ∷ ds) = d.intent_id ∷ delivery_ids ds

-- taken up once, and delivered or failed
abbrev pub Done : ℕ → Intent → Intent → Type 0
Done now r c = WasDelivered now r c ⊎ WasFailed now r c

-- What a batch makes of a row, by whether the claim takes it.
abbrev pub Outcome : ℕ → List Text → Intent → Intent → Type 0
Outcome now wanted r c =
    ((elem r.id_ wanted ≡ true) × Done now r c) ⊎ ((elem r.id_ wanted ≡ false) × (c ≡ r))

-- The same while the deliveries `rest` are still to be made.
abbrev Held : ℕ → List Text → List Text → Intent → Intent → Type 0
Held now wanted rest r c =
    ((elem r.id_ wanted ≡ true) × IsTaken r c × ((elem r.id_ rest ≡ true) ⊎ Done now r c))
    ⊎ ((elem r.id_ wanted ≡ false) × (elem r.id_ rest ≡ false) × (c ≡ r))

Done-IsTaken : (now : ℕ) (r c : Intent) → Done now r c → IsTaken r c
Done-IsTaken now r c (inl d) = ground arith
Done-IsTaken now r c (inr d) = ground arith

or-true : (a b : Bool) → a || b ≡ true → a ≡ false → b ≡ true
or-true a b h e = ground arith

pub or-false : (a b : Bool) → a || b ≡ false → (a ≡ false) × (b ≡ false)
or-false a b h = ground arith

module _ (now : ℕ) (wanted : List Text) (x : Text) (rest : List Text) (change : Intent → Intent)
    (done : (r c : Intent) → IsTaken r c → Done now r (change c)) where
  Held-step :
      (r c : Intent)
      → Held now wanted (x ∷ rest) r c
      → Held now wanted rest r (if has_id x c then change c else c)
  unfolding elem
  Held-step r c (inl (w, t, state)) = elim (Bool-cases (text_eq c.id_ x)) [
    | inl e ↦ rw e (inl (w, Done-IsTaken now r (change c) (done r c t), inr (done r c t)))
    | inr e ↦ rw e (inl (w, t, still (ap (λ y. text_eq y x) (sym t.same_id) ∙ e) state))
  ]
    where
      still :
          text_eq r.id_ x ≡ false
          → (text_eq r.id_ x || elem r.id_ rest ≡ true) ⊎ Done now r c
          → (elem r.id_ rest ≡ true) ⊎ Done now r c
      still other (inl e) = inl (or-true _ _ e other)
      still other (inr d) = inr d
  Held-step r c (inr (w, e, same)) =
      let (other, gone) = or-false (text_eq r.id_ x) (elem r.id_ rest) e in
      rw (ap (λ q. text_eq q.id_ x) same ∙ other) (inr (w, gone, same))

module _ {T R F : Type 0} (p : Provider) (read : Intent → Result (Delivery T))
    (delivered_row : ℕ → R → Intent → Intent) (failed_row : ℕ → F → Intent → Intent)
    (marks : IsMarks delivered_row failed_row) (attempt : Delivery T → Attempt R F)
    (command : BatchCommand) where
  -- a delivery is an update of the row with its identifier
  deliver_delivery-update :
      (d : Delivery T) (receipt : BatchReceipt) (db : Db)
      → db.outages ≡ []
      → (change : Intent → Intent) × ((r c : Intent) → IsTaken r c → Done command.now r (change c))
        × ((deliver_delivery
              (db_outbox p read delivered_row failed_row)
              attempt
              command
              d
              receipt
              db).1
            ≡ with_rows (update_where (has_id d.intent_id) change db.intents) db)
  unfolding deliver_delivery
  deliver_delivery-update d receipt db none_ = by_attempt (attempt d)
    where
      by_attempt :
          (a : Attempt R F)
          → (change : Intent → Intent) × ((r c : Intent)
              → IsTaken r c
              → Done command.now r (change c))
            × ((settle_attempt
                  (db_outbox p read delivered_row failed_row)
                  attempt
                  command
                  d.intent_id
                  a
                  receipt
                  db).1
                ≡ with_rows (update_where (has_id d.intent_id) change db.intents) db)
      by_attempt (sent note) = (
        delivered_row command.now note,
        λ r c t. inl (marks.delivers command.now note r c t),
        rw
            (statement-nil (λ _. tt)
              (update_where (has_id d.intent_id) (delivered_row command.now note)) db none_)
            refl,
      )
      by_attempt (not_sent reason) = (
        failed_row command.now reason,
        λ r c t. inr (marks.fails command.now reason r c t),
        rw
            (statement-nil (λ _. tt)
              (update_where (has_id d.intent_id) (failed_row command.now reason)) db none_)
            refl,
      )

  deliver_deliveries-Held :
      (wanted : List Text) (rows : List Intent) (ds : List (Delivery T)) (receipt : BatchReceipt)
      (db : Db)
      → db.outages ≡ []
      → All2 (Held command.now wanted (delivery_ids ds)) rows db.intents
      → (rows' : List Intent) × ((deliver_deliveries
            (db_outbox p read delivered_row failed_row)
            attempt
            command
            ds
            receipt
            db).1
          ≡ with_rows rows' db)
        × All2 (Held command.now wanted []) rows rows'
  unfolding deliver_deliveries
  deliver_deliveries-Held wanted rows [] receipt db none_ held = (db.intents, refl, held)
  deliver_deliveries-Held wanted rows (d ∷ ds) receipt db none_ held =
      let (change, done, e) = deliver_delivery-update d receipt db none_ in
      let next =
        (deliver_delivery (db_outbox p read delivered_row failed_row) attempt command d receipt
          db).0 in
      subst
        (λ (t : Db).
          (rows' : List Intent) × ((deliver_deliveries (db_outbox p read delivered_row failed_row)
              attempt command ds next t).1
            ≡ with_rows rows' db)
          × All2 (Held command.now wanted []) rows rows')
        (sym e)
        (deliver_deliveries-Held wanted rows ds next
          (with_rows (update_where (has_id d.intent_id) change db.intents) db) none_
          (All2-update_where (has_id d.intent_id) change
            (Held-step command.now wanted d.intent_id (delivery_ids ds) change done) held))

module _ {T : Type 0} (read : Intent → Result (Delivery T))
    (readable : (r : Intent) → (d : Delivery T) × (read r ≡ ok d)) where
  read_rows-ids :
      (rows : List Intent)
      → (ds : List (Delivery T)) × (read_rows read rows ≡ ok ds) × (delivery_ids ds ≡ ids rows)
  unfolding read_rows
  read_rows-ids [] = ([], refl, refl)
  read_rows-ids (r ∷ rows) =
      let (d, e) = readable r in
      let (ds, es, same) = read_rows-ids rows in
      (record d { intent_id = r.id_ } ∷ ds, rw e (rw es refl), ap (λ l. r.id_ ∷ l) same)

  claim_deliveries-ids :
      (p : Provider) (now : ℕ) (limit : ℤ) (db : Db)
      → db.outages ≡ []
      → (ds : List (Delivery T)) × (claim_deliveries read p now limit db
          ≡ (ok ds, with_rows (claim_rows db.enabled p now (pos_part limit) db.intents) db))
        × (delivery_ids ds
            ≡ ids (returned_rows db.enabled db.last_seen_at p now (pos_part limit) db.intents))
  unfolding claim_deliveries
  claim_deliveries-ids p now limit db none_ =
      let rows = returned_rows db.enabled db.last_seen_at p now (pos_part limit) db.intents in
      let (ds, e, same) = read_rows-ids rows in
      (
        ds,
        rw
            (statement-nil (returned_rows db.enabled db.last_seen_at p now (pos_part limit))
              (claim_rows db.enabled p now (pos_part limit)) db none_)
            (rw e refl),
        same,
      )

pub claimed-id : (p : Provider) (now : ℕ) (r : Intent) → (claimed p now r).id_ ≡ r.id_
unfolding claimed
claimed-id telegram now r = refl
claimed-id email now r = refl
claimed-id p now r = refl

claimed-IsTaken : (p : Provider) (now : ℕ) (r : Intent) → IsTaken r (claimed p now r)
unfolding claimed
claimed-IsTaken telegram now r = ground arith
claimed-IsTaken email now r = ground arith
claimed-IsTaken p now r = ground arith

-- The claim returns the rows that it locks.
pub elem-returned_rows :
    (enabled : Provider → Text → Bool) (last_seen_at : Text → ℕ) (p : Provider) (now limit : ℕ)
    (rows : List Intent) (x : Text)
    → elem x (ids (returned_rows enabled last_seen_at p now limit rows))
      ≡ elem x (claimable_ids enabled p now limit rows)
elem-returned_rows enabled last_seen_at p now limit rows x =
    let wanted = claimable_ids enabled p now limit rows in
    let table = claim_rows enabled p now limit rows in
    let same_ids : ids table ≡ ids rows = ids-update_where _ _ rows (claimed-id p now) in
    elem-sort_by (λ r. last_seen_at r.issue_id) x (select (λ r. elem r.id_ wanted) table)
    ∙ elem-select_wanted x wanted table
        (λ h. ap (elem x) same_ids ∙ elem-query x (claimable enabled p now) limit rows h)

module _ {T R F : Type 0} (p : Provider) (read : Intent → Result (Delivery T))
    (readable : (r : Intent) → (d : Delivery T) × (read r ≡ ok d))
    (delivered_row : ℕ → R → Intent → Intent) (failed_row : ℕ → F → Intent → Intent)
    (marks : IsMarks delivered_row failed_row) (attempt : Delivery T → Attempt R F)
    (command : BatchCommand) where
  -- A row after the claim
  Held-claimed :
      (wanted taken : List Text) (r : Intent)
      → elem r.id_ taken ≡ elem r.id_ wanted
      → Held command.now wanted taken r (if elem r.id_ wanted then claimed p command.now r else r)
  Held-claimed wanted taken r h = elim (Bool-cases (elem r.id_ wanted)) [
    | inl e ↦ rw e (inl (refl, claimed-IsTaken p command.now r, inl (h ∙ e)))
    | inr e ↦ rw e (inr (refl, h ∙ e, refl))
  ]

  Held-over :
      (wanted : List Text) (r c : Intent)
      → Held command.now wanted [] r c
      → Outcome command.now wanted r c
  unfolding elem
  Held-over wanted r c (inl (w, t, inl e)) = cc e
  Held-over wanted r c (inl (w, t, inr d)) = inl (w, d)
  Held-over wanted r c (inr (w, e, same)) = inr (w, same)

  -- A batch touches the rows that its claim selects and no other, and each of these ends up as
  -- delivered or failed.
  pub deliver_batch-Outcome :
      (db : Db)
      → db.outages ≡ []
      → (receipt : BatchReceipt) × (rows' : List Intent) × (deliver_batch
            (db_outbox p read delivered_row failed_row)
            attempt
            command
            db
          ≡ (ok receipt, with_rows rows' db))
        × All2
            (Outcome command.now
              (claimable_ids db.enabled p command.now (pos_part command.limit) db.intents))
            db.intents
            rows'
  unfolding deliver_batch
  deliver_batch-Outcome db none_ =
      let limit = pos_part command.limit in
      let wanted = claimable_ids db.enabled p command.now limit db.intents in
      let (ds, e, same) = claim_deliveries-ids read readable p command.now command.limit db none_ in
      let start : BatchReceipt = record { claimed = length ds; delivered = 0; failed = 0 } in
      let table = claim_rows db.enabled p command.now limit db.intents in
      let (rows', e', held) =
        deliver_deliveries-Held p read delivered_row failed_row marks attempt command wanted
          db.intents ds start (with_rows table db) none_
          (update_where-All2 (λ r. elem r.id_ wanted) (claimed p command.now) db.intents
            (λ r. Held-claimed wanted (delivery_ids ds) r (
              ap (elem r.id_) same
              ∙ elem-returned_rows db.enabled db.last_seen_at p command.now limit db.intents
                  r.id_))) in
      let (receipt, _) =
        deliver_deliveries (db_outbox p read delivered_row failed_row) attempt command ds start
          (with_rows table db) in
      (receipt, rows', rw e (ap (λ t. (ok receipt, t)) e'), All2-map (Held-over wanted) held)
