-- ===== src/Notify/Lease.antt =====
-- Rows that a batch does not take up, on a database whose statements may fail at any point.
use gopnique.Base.{
  ℕ, ◌≡◌, refl, sym, ◌∙◌, ap, Bool, true, false, ◌||◌, List, [], ◌∷◌, Option, String, none, some,
  length, inl, inr, arith, Bool-cases, if◌then◌else◌,
}
use gopnique.Base.Action.{continue_with, lift}
use gopnique.Base.Int.{pos_part}
use gopnique.Base.Result.{Result, ok, err}
use gopnique.Base.Text.{Text, text_eq}
use gopnique.Base.Text.Laws.{text_eq→eq, text_eq_self}
use gopnique.Notify.Outbox.{
  Provider, Intent, Db, update_where, select, elem, has_id, ids, claimable, awaits, run_statement,
  statement,
}
use gopnique.Notify.Store.{
  claimed, claimable_ids, claim_rows, returned_rows, read_onto, read_rows, claim_deliveries,
}
use gopnique.Notify.Marks.{update_intent}
use gopnique.Notify.Ports.{Delivery}
use gopnique.Notify.Batch.{
  BatchCommand, BatchReceipt, Attempt, sent, not_sent, settle_attempt, after_mark, deliver_delivery,
  deliver_deliveries, after_claim, deliver_batch,
}
use gopnique.Notify.Channel.{IsMarks, db_outbox}
use gopnique.Notify.Settle.{or-false, delivery_ids, elem-returned_rows, claimed-id}
use gopnique.Notify.Rows.{ids-update_where, elem-select_not, elem-take_not}

some_inj : {A : Type 0} {a b : A} → some a ≡ some b → a ≡ b
some_inj h = cc h

-- the row with an identifier
unfoldable pub find_intent : Text → List Intent → Option Intent
find_intent x [] = none
find_intent x (r ∷ rows) = let rest = find_intent x rows in if text_eq r.id_ x then some r else rest

-- `id` is the primary key
abbrev pub IsKeyed : List Text → Type 0
IsKeyed [] = Unit
IsKeyed (x ∷ xs) = (elem x xs ≡ false) × IsKeyed xs

pub not_eq_sym : (x y : Text) → text_eq y x ≡ false → text_eq x y ≡ false
not_eq_sym x y h = elim (Bool-cases (text_eq x y)) [
  | inl e ↦ absurd (cc (h, text_eq_self y, ap (text_eq y) (text_eq→eq x y e)))
  | inr e ↦ e
]

module _ (x : Text) where
  find-update_where :
      (test : Intent → Bool) (change : Intent → Intent) (rows : List Intent)
      → ((r : Intent) → (change r).id_ ≡ r.id_)
      → ((r : Intent) → text_eq r.id_ x ≡ true → test r ≡ false)
      → find_intent x (update_where test change rows) ≡ find_intent x rows
  unfolding find_intent update_where
  find-update_where test change [] same other = refl
  find-update_where test change (r ∷ rows) same other = elim (Bool-cases (text_eq r.id_ x)) [
    | inl e ↦ rw (other r e) (rw e refl)
    | inr e ↦ elim (Bool-cases (test r)) [
      | inl h ↦ rw h (
          rw (ap (λ y. text_eq y x) (same r))
            (rw e (find-update_where test change rows same other)))
      | inr h ↦ rw h (rw e (find-update_where test change rows same other))
    ]
  ]

  -- The row that a key names is in a selection only if it passes the test.
  not_selected :
      (test : Intent → Bool) (rows : List Intent) (r : Intent)
      → IsKeyed (ids rows)
      → find_intent x rows ≡ some r
      → test r ≡ false
      → elem x (ids (select test rows)) ≡ false
  unfolding elem select find_intent
  not_selected test [] r keyed found fails = cc found
  not_selected test (q ∷ rows) r keyed found fails = elim (Bool-cases (text_eq q.id_ x)) [
    | inl e ↦
        let same : q ≡ r = some_inj (rw e at found) in
        rw (ap test same ∙ fails) (
          elem-select_not x test rows
            (ap (λ y. elem y (ids rows)) (sym (text_eq→eq q.id_ x e)) ∙ keyed.0))
    | inr e ↦
        let rest = not_selected test rows r keyed.1 (rw e at found) fails in
        elim (Bool-cases (test q)) [
          | inl h ↦ rw h (rw (not_eq_sym x q.id_ e) rest)
          | inr h ↦ rw h rest
        ]
  ]

-- The row `x` is as it was, the keys are, and of what a call gives nothing is for `x`.
module _ {T : Type 0} (x : Text) where
  abbrev NotFor : Result (List (Delivery T)) → Type 0
  NotFor (err e) = Unit
  NotFor (ok ds) = elem x (delivery_ids ds) ≡ false

  read_rows-NotFor :
      (read : Intent → Result (Delivery T)) (rows : List Intent)
      → elem x (ids rows) ≡ false
      → NotFor (read_rows read rows)
  unfolding read_rows elem
  read_rows-NotFor read [] h = refl
  read_rows-NotFor read (r ∷ rows) h =
      onto (read r) (read_rows read rows) (read_rows-NotFor read rows (tail_not _ _ h))
    where
      tail_not : (a b : Bool) → a || b ≡ false → b ≡ false
      tail_not a b g = ground arith

      head_not : (a b : Bool) → a || b ≡ false → a ≡ false
      head_not a b g = ground arith

      onto :
          (d : Result (Delivery T)) (rest : Result (List (Delivery T)))
          → NotFor rest
          → NotFor (read_onto read r d rest)
      onto (err e) rest g = tt
      onto (ok d) (err e) g = tt
      onto (ok d) (ok ds) g = rw (head_not (text_eq x r.id_) (elem x (ids rows)) h) g

abbrev pub Same : Text → Db → Db → Type 0
Same x db t =
    (find_intent x t.intents ≡ find_intent x db.intents)
    × (ids t.intents ≡ ids db.intents)
    × (t.enabled ≡ db.enabled)

module _ {T R F : Type 0} (p : Provider) (read : Intent → Result (Delivery T))
    (delivered_row : ℕ → R → Intent → Intent) (failed_row : ℕ → F → Intent → Intent)
    (marks : IsMarks delivered_row failed_row) (attempt : Delivery T → Attempt R F)
    (command : BatchCommand) (x : Text) where
  mark-Same :
      (y : Text) (change : Intent → Intent) (db : Db)
      → ((r : Intent) → (change r).id_ ≡ r.id_)
      → text_eq x y ≡ false
      → Same x db (update_intent y change db).1
  unfolding statement
  mark-Same y change db same other = by_outage db.outages
    where
      keeps : find_intent x (update_where (has_id y) change db.intents) ≡ find_intent x db.intents
      keeps =
          find-update_where x (has_id y) change db.intents same
            (λ r e. ap (λ z. text_eq z y) (text_eq→eq r.id_ x e) ∙ other)

      keeps_ids : ids (update_where (has_id y) change db.intents) ≡ ids db.intents
      keeps_ids = ids-update_where (has_id y) change db.intents same

      by_outage :
          (o : List (Option String))
          → Same x db (run_statement o (λ _. tt) (update_where (has_id y) change) db).1
      by_outage [] = (keeps, keeps_ids, refl)
      by_outage (none ∷ o) = (keeps, keeps_ids, refl)
      by_outage (some e ∷ o) = (refl, refl, refl)

  deliver_delivery-Same :
      (d : Delivery T) (receipt : BatchReceipt) (db : Db)
      → text_eq x d.intent_id ≡ false
      → Same x db
          (deliver_delivery
            (db_outbox p read delivered_row failed_row)
            attempt
            command
            d
            receipt
            db).1
  unfolding deliver_delivery
  deliver_delivery-Same d receipt db other = by_attempt (attempt d)
    where
      dropped :
          (m : Result (Unit {0}) × Db)
          → Same x db m.1
          → Same x db
              (after_mark (db_outbox p read delivered_row failed_row) attempt command receipt m).1
      dropped (ok u, t) h = h
      dropped (err e, t) h = h

      by_attempt :
          (a : Attempt R F)
          → Same x db
              (settle_attempt
                (db_outbox p read delivered_row failed_row)
                attempt
                command
                d.intent_id
                a
                receipt
                db).1
      by_attempt (sent note) =
          dropped (update_intent d.intent_id (delivered_row command.now note) db) (
            mark-Same d.intent_id (delivered_row command.now note) db
              (marks.delivered_id command.now note) other)
      by_attempt (not_sent reason) =
          mark-Same d.intent_id (failed_row command.now reason) db
            (marks.failed_id command.now reason) other

  deliver_deliveries-Same :
      (ds : List (Delivery T)) (receipt : BatchReceipt) (db : Db)
      → elem x (delivery_ids ds) ≡ false
      → Same x db
          (deliver_deliveries
            (db_outbox p read delivered_row failed_row)
            attempt
            command
            ds
            receipt
            db).1
  unfolding deliver_deliveries elem
  deliver_deliveries-Same [] receipt db h = (refl, refl, refl)
  deliver_deliveries-Same (d ∷ ds) receipt db h =
      let (other, rest) = or-false (text_eq x d.intent_id) (elem x (delivery_ids ds)) h in
      let next =
        deliver_delivery (db_outbox p read delivered_row failed_row) attempt command d receipt db in
      let (f, g, e) = deliver_delivery-Same d receipt db other in
      let (f', g', e') = deliver_deliveries-Same ds next.0 next.1 rest in (f' ∙ f, g' ∙ g, e' ∙ e)

  claim_deliveries-Same :
      (db : Db)
      → elem x (claimable_ids db.enabled p command.now (pos_part command.limit) db.intents) ≡ false
      → Same x db (claim_deliveries read p command.now command.limit db).1
        × NotFor x (claim_deliveries read p command.now command.limit db).0
  unfolding claim_deliveries statement
  claim_deliveries-Same db h = by_outage db.outages
    where
      limit : ℕ
      limit = pos_part command.limit

      answer : List Intent → List Intent
      answer = returned_rows db.enabled db.last_seen_at p command.now limit

      change : List Intent → List Intent
      change = claim_rows db.enabled p command.now limit

      keeps : find_intent x (change db.intents) ≡ find_intent x db.intents
      keeps =
          find-update_where x _ (claimed p command.now) db.intents (claimed-id p command.now)
            (λ r e.
              ap (λ z. elem z (claimable_ids db.enabled p command.now limit db.intents))
                (text_eq→eq r.id_ x e)
              ∙ h)

      keeps_ids : ids (change db.intents) ≡ ids db.intents
      keeps_ids = ids-update_where _ (claimed p command.now) db.intents (claimed-id p command.now)

      not_for : NotFor x (read_rows read (answer db.intents))
      not_for =
          read_rows-NotFor x read (answer db.intents)
            (elem-returned_rows db.enabled db.last_seen_at p command.now limit db.intents x ∙ h)

      by_outage :
          (o : List (Option String))
          → Same x db
              (continue_with
                (run_statement o answer change db)
                (λ rows. lift (read_rows read rows))).1
            × NotFor x
                (continue_with
                  (run_statement o answer change db)
                  (λ rows. lift (read_rows read rows))).0
      by_outage [] = ((keeps, keeps_ids, refl), not_for)
      by_outage (none ∷ o) = ((keeps, keeps_ids, refl), not_for)
      by_outage (some e ∷ o) = ((refl, refl, refl), tt)

  pub deliver_batch-Same :
      (db : Db)
      → elem x (claimable_ids db.enabled p command.now (pos_part command.limit) db.intents) ≡ false
      → Same x db (deliver_batch (db_outbox p read delivered_row failed_row) attempt command db).1
  unfolding deliver_batch
  deliver_batch-Same db h =
      let (same, not_for) = claim_deliveries-Same db h in
      after (claim_deliveries read p command.now command.limit db) same not_for
    where
      after :
          (m : Result (List (Delivery T)) × Db)
          → Same x db m.1
          → NotFor x m.0
          → Same x db (after_claim (db_outbox p read delivered_row failed_row) attempt command m).1
      after (err e, t) same h = same
      after (ok ds, t) same h =
          let (f, g, e) =
            deliver_deliveries-Same ds (record { claimed = length ds; delivered = 0; failed = 0 }) t
              h in
          (f ∙ same.0, g ∙ same.1, e ∙ same.2)

  -- A row whose status is neither pending nor failed is not selected.
  pub awaits-claimable_ids :
      (db : Db) (r : Intent)
      → IsKeyed (ids db.intents)
      → find_intent x db.intents ≡ some r
      → awaits r.status ≡ false
      → elem x (claimable_ids db.enabled p command.now (pos_part command.limit) db.intents) ≡ false
  unfolding claimable
  awaits-claimable_ids db r keyed found idle =
      elem-take_not x (pos_part command.limit)
        (select (claimable db.enabled p command.now) db.intents)
        (not_selected x (claimable db.enabled p command.now) db.intents r keyed found
          (ground arith))
