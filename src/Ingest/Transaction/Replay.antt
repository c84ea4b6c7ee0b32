-- ===== src/Ingest/Transaction/Replay.antt =====
-- What a transaction that succeeds leaves behind.
use gopnique.Base.{◌≡◌, refl, sym, ap, ◌∙◌, arith}
use gopnique.Base.Action.{Action}
use gopnique.Base.Result.{Result, ok, err}
use gopnique.Ingest.Transaction.{Pool, committed, after_program, in_tx, run}

-- `BeginTx` hands out the committed state, and a `Commit` without an error publishes the state of
-- the transaction. Nothing is said of a commit that fails: its connection may have been lost behind it.
pub record IsAtomic {S : Type 0} (pool : Pool S) : Type 0 where
  pub begins : (s work : S) → pool.begin_tx s ≡ ok work → work ≡ s
  pub publishes : (s work t : S) → pool.commit s work ≡ (ok tt, t) → t ≡ work

module _ {S : Type 0} (pool : Pool S) (atomic : IsAtomic pool) where
  commit-ok :
      {A : Type 0} (a b : A) (s work : S) (c : Result (Unit {0}) × S)
      → pool.commit s work ≡ c
      → (t : S) → committed pool a c ≡ (ok b, t)
      → (a ≡ b) × (t ≡ work)
  commit-ok a b s work (ok u, w) h t g =
      (ground arith, ap (λ p. p.1) (sym g) ∙ atomic.publishes s work w h)
  commit-ok a b s work (err x, w) h t g = cc g

  after_program-ok :
      {A : Type 0} (s : S) (r : Result A × S) (a : A) (t : S)
      → after_program pool s r ≡ (ok a, t)
      → r ≡ (ok a, t)
  after_program-ok s (err x, work) a t h = cc h
  after_program-ok s (ok b, work) a t h =
      let (p, q) = commit-ok b a s work (pool.commit s work) refl t h in cc (p, q)

  in_tx-ok :
      {A : Type 0} (program : Action S A) (s : S) (b : Result S) (a : A) (t : S)
      → pool.begin_tx s ≡ b
      → in_tx pool s program b ≡ (ok a, t)
      → program s ≡ (ok a, t)
  in_tx-ok program s (err x) a t g h = cc h
  in_tx-ok program s (ok work) a t g h =
      rw (← atomic.begins s work g) (after_program-ok s (program work) a t h)

  pub run-ok :
      {A : Type 0} (program : Action S A) (s : S) (a : A) (t : S)
      → run pool program s ≡ (ok a, t)
      → program s ≡ (ok a, t)
  unfolding run
  run-ok program s a t h = in_tx-ok program s (pool.begin_tx s) a t refl h
