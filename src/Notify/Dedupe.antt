-- ===== src/Notify/Dedupe.antt =====
-- What `EnqueueIssueOpened` adds to the outbox.
use gopnique.Base.{
  ℕ, ◌+◌, ◌≡◌, refl, sym, ◌∙◌, ap, subst, Bool, true, false, ◌||◌, List, [], ◌∷◌, ◌++◌, Option,
  none, some, String, length, append-nil, append_assoc, All, All-append, arith, Bool-cases, inl,
  inr, length-append, if◌then◌else◌,
}
use gopnique.Base.Action.{Action, ◌>>=◌, lift, return_, >>=-eq-ok}
use gopnique.Base.Result.{Result, ok}
use gopnique.Base.Text.{Text, codes, text_eq}
use gopnique.Ingest.Workflow.{AcceptedEvent, IssueChange, IssueOpenedEnqueueResult}
use gopnique.Notify.Outbox.{provider_string, pending, Intent, Db, elem, run_statement, statement}
use gopnique.Notify.Lease.{IsKeyed, not_eq_sym}
use gopnique.Notify.Enqueue.{
  DestinationAction, dedupe_keys, new_intent, insert_row, rows_affected, insert_notification_intent,
  enqueue_for, enqueue_issue_opened,
}

-- a row that waits for its first delivery, under the key of its provider, destination and issue
pub record IsNew (change : IssueChange) (now : ℕ) (r : Intent) : Type 0 where
  pub status : r.status ≡ pending
  pub issue_id : r.issue_id ≡ change.issue_id
  pub key :
      r.dedupe_key
      ≡ provider_string r.provider
        ++ (codes ":issue-opened:" ++ (r.destination_id ++ (codes ":" ++ change.issue_id)))
  pub attempts : r.attempts ≡ 0
  pub next_attempt_at : r.next_attempt_at ≡ now
  pub locked_until : r.locked_until ≡ none

-- `after` is `before` with `count` new rows behind, and the keys are distinct if they were.
pub record Grown (change : IssueChange) (now : ℕ) (before after : List Intent) (count : ℕ)
    : Type 0 where
  pub added : List Intent
  pub all_rows : after ≡ before ++ added
  pub counted : length added ≡ count
  pub new_ : All (IsNew change now) added
  pub distinct : IsKeyed (dedupe_keys before) → IsKeyed (dedupe_keys after)

elem-append_last :
    (x : Text) (rows : List Intent) (r : Intent)
    → elem x (dedupe_keys rows) ≡ false
    → text_eq x r.dedupe_key ≡ false
    → elem x (dedupe_keys (rows ++ r ∷ [])) ≡ false
unfolding elem
elem-append_last x [] r h g = rw g refl
elem-append_last x (q ∷ rows) r h g = ground (arith, elem-append_last x rows r)

IsKeyed-append :
    (rows : List Intent) (r : Intent)
    → IsKeyed (dedupe_keys rows)
    → elem r.dedupe_key (dedupe_keys rows) ≡ false
    → IsKeyed (dedupe_keys (rows ++ r ∷ []))
unfolding elem
IsKeyed-append [] r h g = (refl, tt)
IsKeyed-append (q ∷ rows) r (h, hs) g =
    let (other, rest) = parts _ _ g in
    (
      elem-append_last q.dedupe_key rows r h (not_eq_sym q.dedupe_key r.dedupe_key other),
      IsKeyed-append rows r hs rest,
    )
  where
    parts : (a b : Bool) → a || b ≡ false → (a ≡ false) × (b ≡ false)
    parts a b e = ground arith

module _ (change : IssueChange) (now : ℕ) where
  insert_row-Grown :
      (r : Intent) (rows : List Intent)
      → IsNew change now r
      → Grown change now rows (insert_row r rows) (rows_affected r rows)
  insert_row-Grown r rows is_new = elim (Bool-cases (elem r.dedupe_key (dedupe_keys rows))) [
    | inl e ↦ rw e (record {
      added = [];
      all_rows = sym (append-nil rows);
      counted = refl;
      new_ = tt;
      distinct = λ k. k;
    })
    | inr e ↦ rw e (record {
      added = r ∷ [];
      all_rows = refl;
      counted = refl;
      new_ = (is_new, tt);
      distinct = λ k. IsKeyed-append rows r k e;
    })
  ]

  Grown-Grown :
      (a b c : List Intent) (m n : ℕ)
      → Grown change now a b m
      → Grown change now b c n
      → Grown change now a c (m + n)
  Grown-Grown a b c m n g h = record {
    added = g.added ++ h.added;
    all_rows = h.all_rows ∙ ap (λ l. l ++ h.added) g.all_rows ∙ append_assoc a g.added h.added;
    counted = omega (arith, length-append g.added h.added, g.counted, h.counted);
    new_ = All-append (IsNew change now) g.added h.added g.new_ h.new_;
    distinct = λ k. h.distinct (g.distinct k);
  }

  insert-Grown :
      (intent_id : Text) (destination : DestinationAction) (row_id : Text) (db t : Db) (n : ℕ)
      → insert_notification_intent intent_id destination row_id change now db ≡ (ok n, t)
      → Grown change now db.intents t.intents n
  unfolding insert_notification_intent statement
  insert-Grown intent_id destination row_id db t n h = by_outage db.outages h
    where
      r : Intent
      r = new_intent intent_id destination row_id change now

      grown : Grown change now db.intents (insert_row r db.intents) (rows_affected r db.intents)
      grown = insert_row-Grown r db.intents (record {
        status = refl;
        issue_id = refl;
        key = refl;
        attempts = refl;
        next_attempt_at = refl;
        locked_until = refl;
      })

      made :
          (u : Db)
          → u.intents ≡ insert_row r db.intents
          → ◌≡◌ {A = Result ℕ × Db} (ok (rows_affected r db.intents), u) (ok n, t)
          → Grown change now db.intents t.intents n
      made u e g =
          let same : rows_affected r db.intents ≡ n = cc g in
          let rows_ : insert_row r db.intents ≡ t.intents =
            sym e ∙ ap (λ (m : Result ℕ × Db). m.1.intents) g in
          subst (λ k. Grown change now db.intents t.intents k) same
            (subst (λ l. Grown change now db.intents l (rows_affected r db.intents)) rows_ grown)

      by_outage :
          (o : List (Option String))
          → run_statement o (rows_affected r) (insert_row r) db ≡ (ok n, t)
          → Grown change now db.intents t.intents n
      by_outage [] g = made _ refl g
      by_outage (none ∷ o) g = made _ refl g
      by_outage (some e ∷ o) g = absurd (cc g)

  nothing-Grown : (rows : List Intent) → Grown change now rows rows 0
  nothing-Grown rows = record {
    added = [];
    all_rows = sym (append-nil rows);
    counted = refl;
    new_ = tt;
    distinct = λ k. k;
  }

module _ (random_uuid : ℕ → Result Text) (event_row_id : Text → Text → Result Text)
    (destinations_of : Text → Result (List DestinationAction)) (now : ℕ) where
  lift-same : {A : Type 0} (m : Result A) (a : A) (s t : Db) → lift m s ≡ (ok a, t) → s ≡ t
  lift-same m a s t h = ap (λ p. p.1) h

  enqueue_for-Grown :
      (row_id : Text) (change : IssueChange) (count : ℕ) (destinations : List DestinationAction)
      (db t : Db) (result : IssueOpenedEnqueueResult)
      → enqueue_for random_uuid event_row_id destinations_of now row_id change count destinations db
        ≡ (ok result, t)
      → (n : ℕ) × (result.count ≡ count + n) × Grown change now db.intents t.intents n
  unfolding enqueue_for
  enqueue_for-Grown row_id change count [] db t result h =
      let same : result ≡ record { count = count } = cc h in
      (
        0,
        omega (arith, ap (λ (r : IssueOpenedEnqueueResult). r.count) same),
        subst (λ (u : Db). Grown change now db.intents u.intents 0) (ap (λ m. m.1) h)
            (nothing-Grown change now db.intents),
      )
  enqueue_for-Grown row_id change count (destination ∷ destinations) db t result h =
      let (intent_id, db1, e1, h1) = >>=-eq-ok (lift (random_uuid (length destinations))) _ db h in
      let (inserted, db2, e2, h2) =
        >>=-eq-ok (insert_notification_intent intent_id destination row_id change now) _ db1 h1 in
      let (n, total, rest) =
        enqueue_for-Grown row_id change (count + inserted) destinations db2 t result h2 in
      let first =
        subst (λ (u : Db). Grown change now u.intents db2.intents inserted)
          (sym (lift-same (random_uuid (length destinations)) intent_id db db1 e1))
          (insert-Grown change now intent_id destination row_id db1 db2 inserted e2) in
      (
        inserted + n,
        omega arith,
        Grown-Grown change now db.intents db2.intents t.intents inserted n first rest,
      )

  -- An announcement that comes to an end added as many rows to the outbox as it reports, each of them
  -- waiting for its first delivery at once under a key that spells its provider, its destination and
  -- the issue, and changed no other row; keys that were distinct still are.
  pub enqueue_issue_opened-Grown :
      (event : AcceptedEvent) (change : IssueChange) (db t : Db) (result : IssueOpenedEnqueueResult)
      → enqueue_issue_opened random_uuid event_row_id destinations_of now event change db
        ≡ (ok result, t)
      → Grown change now db.intents t.intents result.count
  unfolding enqueue_issue_opened
  enqueue_issue_opened-Grown event change db t result h = by_created change.created h
    where
      announced : Action Db IssueOpenedEnqueueResult
      announced = lift (event_row_id event.event.project_id event.event.event_id) >>= λ row_id.
          lift (destinations_of event.event.project_id) >>= λ destinations.
          enqueue_for random_uuid event_row_id destinations_of now row_id change 0 destinations

      by_created :
          (created : Bool)
          → (if created then announced else return_ (record { count = 0 })) db ≡ (ok result, t)
          → Grown change now db.intents t.intents result.count
      by_created true h =
          let (row_id, db1, e1, h1) =
            >>=-eq-ok (lift (event_row_id event.event.project_id event.event.event_id)) _ db h in
          let (destinations, db2, e2, h2) =
            >>=-eq-ok (lift (destinations_of event.event.project_id)) _ db1 h1 in
          let (n, total, grown) = enqueue_for-Grown row_id change 0 destinations db2 t result h2 in
          let same : db2 ≡ db = sym (
            lift-same (event_row_id event.event.project_id event.event.event_id) row_id db db1 e1
            ∙ lift-same (destinations_of event.event.project_id) destinations db1 db2 e2) in
          subst (λ (u : Db). Grown change now u.intents t.intents result.count) same
            (subst (Grown change now db2.intents t.intents) (omega arith) grown)
      by_created false h =
          let none_ : record { count = 0 } ≡ result = cc h in
          subst (λ (r : IssueOpenedEnqueueResult). Grown change now db.intents t.intents r.count)
            none_
            (subst (λ (u : Db). Grown change now db.intents u.intents 0)
              (ap (λ (m : Result IssueOpenedEnqueueResult × Db). m.1) h)
              (nothing-Grown change now db.intents))
