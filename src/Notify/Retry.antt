-- ===== src/Notify/Retry.antt =====
-- Intents that are taken up: the next batch takes an intent that waits, and failures wait for an hour
-- at most.
use gopnique.Base.{
  ℕ, suc, ◌+◌, ◌*◌, ◌≤◌, ◌≡◌, refl, sym, ◌∙◌, ap, subst, Bool, true, List, [], ◌∷◌, none, some,
  length, take_all, ◌⊎◌, inl, inr, arith, Bool-cases,
}
use gopnique.Base.Int.{pos_part}
use gopnique.Base.Result.{ok}
use gopnique.Base.Text.{Text, text_eq}
use gopnique.Base.Text.Laws.{text_eq→eq, text_eq_self}
use gopnique.Outbound.{Net, Resolver}
use gopnique.Notify.Outbox.{
  Provider, delivered, Intent, Db, minute, ids, awaits, elem, select, claimable, same_provider,
}
use gopnique.Notify.Store.{claimable_ids}
use gopnique.Notify.Batch.{BatchReceipt}
use gopnique.Notify.Channel.{WasFailed}
use gopnique.Notify.Rows.{All2, none_left, both}
use gopnique.Notify.Settle.{with_rows, Outcome, deliver_batch-Outcome}
use gopnique.Notify.Lease.{find_intent, IsKeyed}
use gopnique.Notify.Runs.{
  Batch, provider_of, command_of, IsReadable, run_batch, run_batches, by_readable,
}
use gopnique.Notify.Idle.{run_batches-idle}

length-select :
    (test : Intent → Bool) (rows : List Intent) → length (select test rows) ≤ length rows
unfolding select
length-select test [] = omega arith
length-select test (r ∷ rows) = ground (arith, length-select test rows)

elem-selected :
    (x : Text) (test : Intent → Bool) (rows : List Intent) (r : Intent)
    → find_intent x rows ≡ some r
    → test r ≡ true
    → elem x (ids (select test rows)) ≡ true
unfolding elem select find_intent
elem-selected x test [] r found h = cc found
elem-selected x test (q ∷ rows) r found h = elim (Bool-cases (text_eq q.id_ x)) [
  | inl e ↦
      let same : q ≡ r = cc (rw e at found) in
      rw (ap test same ∙ h)
        (rw (ap (λ y. text_eq y q.id_) (sym (text_eq→eq q.id_ x e)) ∙ text_eq_self q.id_) refl)
  | inr e ↦
      let rest = elem-selected x test rows r (rw e at found) h in
      elim (Bool-cases (test q)) [ inl t ↦ rw t (ground (arith, rest)) | inr t ↦ rw t rest ]
]

-- an intent that waits, from a time on
pub record Waits (enabled : Provider → Text → Bool) (p : Provider) (time : ℕ) (r : Intent)
    : Type 0 where
  pub for_provider : same_provider r.provider p ≡ true
  pub enabled_ : enabled p r.destination_id ≡ true
  pub status : awaits r.status ≡ true
  pub due : r.next_attempt_at ≤ time
  pub unlocked : r.locked_until ≡ none

claimable-Waits :
    (enabled : Provider → Text → Bool) (p : Provider) (time now : ℕ) (r : Intent)
    → Waits enabled p time r
    → time ≤ now
    → claimable enabled p now r ≡ true
unfolding claimable
claimable-Waits enabled p time now r w h = ground arith

-- With room for all rows, a claim takes every intent that waits.
Waits-claimable_ids :
    (db : Db) (p : Provider) (time now limit : ℕ) (x : Text) (r : Intent)
    → find_intent x db.intents ≡ some r
    → Waits db.enabled p time r
    → time ≤ now
    → length db.intents ≤ limit
    → elem x (claimable_ids db.enabled p now limit db.intents) ≡ true
Waits-claimable_ids db p time now limit x r found w h room =
    let fits = length-select (claimable db.enabled p now) db.intents in
    rw (take_all limit (select (claimable db.enabled p now) db.intents) (omega arith)) (
      elem-selected x (claimable db.enabled p now) db.intents r found
        (claimable-Waits db.enabled p time now r w h))

Outcome-id : (now : ℕ) (wanted : List Text) (r c : Intent) → Outcome now wanted r c → c.id_ ≡ r.id_
Outcome-id now wanted r c (inl (w, inl d)) = d.same_id
Outcome-id now wanted r c (inl (w, inr d)) = d.same_id
Outcome-id now wanted r c (inr (w, e)) = ap (λ q. q.id_) e

All2-ids :
    (now : ℕ) (wanted : List Text) {rows rows' : List Intent}
    → All2 (Outcome now wanted) rows rows'
    → ids rows' ≡ ids rows
All2-ids now wanted none_left = refl
All2-ids now wanted (both {x} {y} o os) = cc (Outcome-id now wanted x y o, All2-ids now wanted os)

All2-length :
    (now : ℕ) (wanted : List Text) {rows rows' : List Intent}
    → All2 (Outcome now wanted) rows rows'
    → length rows' ≡ length rows
All2-length now wanted none_left = refl
All2-length now wanted (both o os) = ap suc (All2-length now wanted os)

find-All2 :
    (now : ℕ) (wanted : List Text) (x : Text) (r : Intent) {rows rows' : List Intent}
    → All2 (Outcome now wanted) rows rows'
    → find_intent x rows ≡ some r
    → (c : Intent) × (find_intent x rows' ≡ some c) × Outcome now wanted r c × (r.id_ ≡ x)
unfolding find_intent
find-All2 now wanted x r none_left found = cc found
find-All2 now wanted x r (both {x = q} {y = c} o os) found = elim (Bool-cases (text_eq q.id_ x)) [
  | inl e ↦
      let same : q ≡ r = cc (rw e at found) in
      (
        c,
        rw (ap (λ y. text_eq y x) (Outcome-id now wanted q c o) ∙ e) refl,
        subst (λ z. Outcome now wanted z c) same o,
        ap (λ z. z.id_) (sym same) ∙ text_eq→eq q.id_ x e,
      )
  | inr e ↦
      let (d, f, o', named) = find-All2 now wanted x r os (rw e at found) in
      (d, rw (ap (λ y. text_eq y x) (Outcome-id now wanted q c o) ∙ e) f, o', named)
]

-- Batches for one provider, an hour and a minute apart, the first not before `time`; each can read its
-- rows and has room for `n` of them.
abbrev pub IsSpaced : Provider → ℕ → ℕ → List Batch → Type 0
IsSpaced p n time [] = Unit
IsSpaced p n time (b ∷ bs) =
    (provider_of b ≡ p)
    × IsReadable b
    × (time ≤ (command_of b).now)
    × (n ≤ pos_part (command_of b).limit)
    × IsSpaced p n ((command_of b).now + 61 * minute) bs

-- What has become of a row after some attempts.
abbrev pub IsRetried : ℕ → Intent → Intent → Type 0
IsRetried attempts r c =
    (c.status ≡ delivered) ⊎ ((c.attempts ≡ r.attempts + attempts) × (awaits c.status ≡ true))

module _ (net : Net) (resolver : Resolver) where
  -- Where no statement fails and every row can be read, a batch of any channel gives a receipt, and
  -- leaves the table with the same rows but for those that its claim selects: each of these was taken up
  -- once more and is delivered, or failed and waits for two minutes to 61.
  pub run_batch-Outcome :
      (b : Batch) (db : Db)
      → IsReadable b
      → db.outages ≡ []
      → (receipt : BatchReceipt) × (rows' : List Intent) × (run_batch net resolver b db
          ≡ (ok receipt, with_rows rows' db))
        × All2
            (Outcome (command_of b).now (
              claimable_ids db.enabled
                (provider_of b)
                (command_of b).now
                (pos_part (command_of b).limit)
                db.intents))
            db.intents
            rows'
  run_batch-Outcome b db readable none_ =
      by_readable net resolver
        (λ p command act.
          (db : Db)
          → db.outages ≡ []
          → (receipt : BatchReceipt) × (rows' : List Intent) × (act db
              ≡ (ok receipt, with_rows rows' db))
            × All2
                (Outcome command.now
                  (claimable_ids db.enabled p command.now (pos_part command.limit) db.intents))
                db.intents rows')
        (λ T R F p read readable delivered_row failed_row marks attempt command.
          deliver_batch-Outcome p read readable delivered_row failed_row marks attempt command)
        b readable db none_

  WasFailed-Waits :
      (enabled : Provider → Text → Bool) (p : Provider) (time now : ℕ) (r c : Intent)
      → Waits enabled p time r
      → WasFailed now r c
      → Waits enabled p (now + 61 * minute) c
  WasFailed-Waits enabled p time now r c w f = record {
    for_provider = ap (λ q. same_provider q p) f.same_provider ∙ w.for_provider;
    enabled_ = ap (enabled p) f.same_destination ∙ w.enabled_;
    status = ap awaits f.status;
    due = f.not_after;
    unlocked = f.unlocked;
  }

  -- An intent that waits is tried again by every batch of a series for its provider until it is
  -- delivered, if no statement fails, every row can be read, the batches are 61 minutes apart and the
  -- limit of each is at least the number of intents in the outbox: it ends up as delivered, or every
  -- batch has made one attempt and it waits for the next.
  pub run_batches-IsRetried :
      (bs : List Batch) (db : Db) (p : Provider) (time : ℕ) (x : Text) (r : Intent)
      → db.outages ≡ []
      → IsKeyed (ids db.intents)
      → find_intent x db.intents ≡ some r
      → Waits db.enabled p time r
      → IsSpaced p (length db.intents) time bs
      → (c : Intent) × (find_intent x (run_batches net resolver bs db).intents ≡ some c)
        × IsRetried (length bs) r c
  unfolding run_batches
  run_batches-IsRetried [] db p time x r none_ keyed found w spaced =
      (r, found, inr (omega arith, w.status))
  run_batches-IsRetried (b ∷ bs) db p time x r none_ keyed found w
        (for_p, readable, h, room, spaced) =
      let command = command_of b in
      let wanted =
        claimable_ids db.enabled (provider_of b) command.now (pos_part command.limit) db.intents in
      let (receipt, rows', e, outcome) = run_batch-Outcome b db readable none_ in
      let (c, found', o, named) = find-All2 command.now wanted x r outcome found in
      let taken : elem x wanted ≡ true =
        Waits-claimable_ids db (provider_of b) time command.now (pos_part command.limit) x r found
          (subst (λ q. Waits db.enabled q time r) (sym for_p) w) h room in
      let after : Db = with_rows rows' db in
      let keyed' : IsKeyed (ids rows') =
        subst IsKeyed (sym (All2-ids command.now wanted outcome)) keyed in
      let goes_on : (o : Outcome command.now wanted r c)
          → (d : Intent) × (find_intent x (run_batches net resolver bs after).intents ≡ some d)
            × IsRetried (suc (length bs)) r d =
        λ o. elim o [
          | inl (yes_, inl d) ↦ (
            c,
            run_batches-idle net resolver bs after x c keyed' found' (ap awaits d.status),
            inl d.status,
          )
          | inl (yes_, inr f) ↦
              let (d, g, retried) =
                run_batches-IsRetried bs after p (command.now + 61 * minute) x c none_ keyed' found'
                  (WasFailed-Waits db.enabled p time command.now r c w f)
                  (subst (λ n. IsSpaced p n (command.now + 61 * minute) bs)
                    (sym (All2-length command.now wanted outcome)) spaced) in
              (d, g, counted r c d (length bs) f.counted retried)
          | inr (no_, same) ↦ absurd (cc (taken, no_, named))
        ] in
      subst
        (λ (t : Db).
          (d : Intent) × (find_intent x (run_batches net resolver bs t).intents ≡ some d)
          × IsRetried (suc (length bs)) r d)
        (ap (λ m. m.1) (sym e)) (goes_on o)
    where
      counted :
          (r c d : Intent) (n : ℕ)
          → c.attempts ≡ suc r.attempts
          → IsRetried n c d
          → IsRetried (suc n) r d
      counted r c d n one (inl e) = inl e
      counted r c d n one (inr (e, a)) = inr (omega arith, a)
