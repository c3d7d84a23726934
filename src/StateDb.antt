-- ===== src/StateDb.antt =====
-- `StateDatabase.atomic` of src/state-db.ts. The tables of one bucket and their reads and writes are
-- in Base/Table.antt. SQLite is a parameter: what `BEGIN IMMEDIATE`, `COMMIT` and `ROLLBACK` do to
-- its state, with their documented effect on the rows as hypotheses.
use chatgpt_web_agent.Base.{
  ℕ, zero, suc, ◌+◌, ◌-◌, String, Result, ok, err, ◌≡◌, refl, sym, ap, subst, ◌∙◌, arith,
}

-- A connection: SQLite's state and how many calls of `atomic` are running.
pub record Connection (S : Type 0) : Type 0 where
  pub sqlite : S
  pub depth : ℕ

-- Each command returns or throws, and leaves a state.
pub record Commands (S : Type 0) : Type 0 where
  pub begin : S → Result (Unit {0}) × S
  pub commit : S → Result (Unit {0}) × S
  pub rollback : S → Result (Unit {0}) × S

-- A body reads and writes the connection, and returns or throws.
abbrev pub Body : Type 0 → Type 0 → Type 0
Body S A = Connection S → Result A × Connection S

-- The connection on which the body of the outermost `atomic` runs.
abbrev pub opened : {S : Type 0} → Commands S → Connection S → Connection S
opened cmd c = record { sqlite = (cmd.begin c.sqlite).1; depth = c.depth + 1 }

-- The error that the `catch` throws: the first one, or that of a failed `ROLLBACK`.
abbrev thrown : String → Result (Unit {0}) → String
thrown e (ok _) = e
thrown e (err e') = e'

module _ {S A : Type 0} (cmd : Commands S) where
  -- The `catch` and the `finally`
  unfoldable pub roll_back : String → Connection S → Result A × Connection S
  roll_back e c = (
    err (thrown e (cmd.rollback c.sqlite).0),
    record { sqlite = (cmd.rollback c.sqlite).1; depth = c.depth - 1 },
  )

  -- After `COMMIT`: it may have failed.
  unfoldable pub after_commit : A → ℕ → Result (Unit {0}) × S → Result A × Connection S
  after_commit a depth (ok _, s) = (ok a, record { sqlite = s; depth = depth - 1 })
  after_commit a depth (err e, s) = roll_back e (record { sqlite = s; depth = depth })

  unfoldable pub close_transaction : Result A × Connection S → Result A × Connection S
  close_transaction (ok a, c) = after_commit a c.depth (cmd.commit c.sqlite)
  close_transaction (err e, c) = roll_back e c

  -- After `BEGIN IMMEDIATE`: it may have failed.
  unfoldable pub after_begin : Body S A → Connection S → Result (Unit {0}) → Result A × Connection S
  after_begin body c (ok _) = close_transaction (body (opened cmd c))
  after_begin body c (err e) = (err e, record c { sqlite = (cmd.begin c.sqlite).1 })

  unfoldable pub atomic_at : ℕ → Body S A → Body S A
  atomic_at zero body c = after_begin body c (cmd.begin c.sqlite).0
  atomic_at (suc n) body c = body c

  unfoldable pub atomic : Body S A → Body S A
  atomic body c = atomic_at c.depth body c

-- What is relied on: `rows` are the rows that a read sees, `saved` those to which the transaction
-- goes back. A failed `BEGIN` changes no row; a failed `COMMIT` leaves the transaction to be rolled
-- back; and after `ROLLBACK`, which fails only where SQLite has rolled back on its own, the rows are
-- the saved ones.
pub record IsTransactional {S R : Type 0} (cmd : Commands S) (rows saved : S → R) : Type 0 where
  pub begin_rows : (s : S) → rows (cmd.begin s).1 ≡ rows s
  pub begin_saved : (s : S) → (cmd.begin s).0 ≡ ok tt → saved (cmd.begin s).1 ≡ rows s
  pub commit_rows : (s : S) → (cmd.commit s).0 ≡ ok tt → rows (cmd.commit s).1 ≡ rows s
  pub commit_saved :
      (s : S) (e : String) → (cmd.commit s).0 ≡ err e → saved (cmd.commit s).1 ≡ saved s
  pub rollback_rows : (s : S) → rows (cmd.rollback s).1 ≡ saved s

module _ {S R A : Type 0} (cmd : Commands S) (rows saved : S → R) where
  -- A body that, in a transaction, neither ends it nor leaves another one open.
  abbrev pub IsInner : Body S A → Type 0
  IsInner body =
      (n : ℕ) (c : Connection S)
      → c.depth ≡ suc n
      → ((body c).1.depth ≡ suc n) × (saved (body c).1.sqlite ≡ saved c.sqlite)

  -- What `atomic` comes to, where its body came to `inside`: it returns what the body returned, with
  -- the rows that the body left, or it throws, with the rows as before.
  pub data Outcome (before : Connection S) (inside : Result A × Connection S)
      : Result A × Connection S → Type 0 where
    committed :
        {a : A} {after : Connection S}
        → inside.0 ≡ ok a
        → after.depth ≡ before.depth
        → rows after.sqlite ≡ rows inside.1.sqlite
        → Outcome before inside (ok a, after)
    rolled_back :
        {e : String} {after : Connection S}
        → after.depth ≡ before.depth
        → rows after.sqlite ≡ rows before.sqlite
        → Outcome before inside (err e, after)

  roll_back-Outcome :
      (before : Connection S) (inside : Result A × Connection S) (e : String) (c : Connection S)
      → IsTransactional cmd rows saved
      → c.depth ≡ before.depth + 1
      → saved c.sqlite ≡ rows before.sqlite
      → Outcome before inside (roll_back cmd e c)
  unfolding roll_back
  roll_back-Outcome before inside e c h depth kept =
      rolled_back (omega (arith, depth)) (h.rollback_rows c.sqlite ∙ kept)

  after_commit-Outcome :
      (before c : Connection S) (a : A) (r : Result (Unit {0}) × S)
      → cmd.commit c.sqlite ≡ r
      → IsTransactional cmd rows saved
      → c.depth ≡ before.depth + 1
      → saved c.sqlite ≡ rows before.sqlite
      → Outcome before (ok a, c) (after_commit cmd a c.depth r)
  unfolding after_commit
  after_commit-Outcome before c a (ok _, s) done h depth kept =
      committed refl (omega (arith, depth))
        (sym (ap (λ x. rows x.1) done) ∙ h.commit_rows c.sqlite (ap (λ x. x.0) done))
  after_commit-Outcome before c a (err e, s) failed h depth kept =
      roll_back-Outcome before (ok a, c) e (record { sqlite = s; depth = c.depth }) h depth
        (sym (ap (λ x. saved x.1) failed) ∙ h.commit_saved c.sqlite e (ap (λ x. x.0) failed) ∙ kept)

  close_transaction-Outcome :
      (before : Connection S) (r : Result A × Connection S)
      → IsTransactional cmd rows saved
      → r.1.depth ≡ before.depth + 1
      → saved r.1.sqlite ≡ rows before.sqlite
      → Outcome before r (close_transaction cmd r)
  unfolding close_transaction
  close_transaction-Outcome before (ok a, c) h depth kept =
      after_commit-Outcome before c a (cmd.commit c.sqlite) refl h depth kept
  close_transaction-Outcome before (err e, c) h depth kept =
      roll_back-Outcome before (err e, c) e c h depth kept

  after_begin-Outcome :
      (body : Body S A) (c : Connection S) (r : Result (Unit {0}))
      → (cmd.begin c.sqlite).0 ≡ r
      → IsTransactional cmd rows saved
      → IsInner body
      → Outcome c (body (opened cmd c)) (after_begin cmd body c r)
  unfolding after_begin
  after_begin-Outcome body c (ok _) begun h inner =
      let (depth, kept) = inner c.depth (opened cmd c) (omega arith) in
      close_transaction-Outcome c (body (opened cmd c)) h (omega (arith, depth))
        (kept ∙ h.begin_saved c.sqlite begun)
  after_begin-Outcome body c (err e) failed h inner = rolled_back refl (h.begin_rows c.sqlite)

  -- With SQLite's documented effect on the rows, and a body that neither ends its transaction nor
  -- leaves one open: the outermost `atomic` returns only what its body returned, and with the rows as
  -- the body left them; where it throws, because the body did or because `BEGIN`, `COMMIT` or
  -- `ROLLBACK` failed, the rows are as they were before. Either way the depth is what it was.
  pub atomic-Outcome :
      (body : Body S A) (c : Connection S)
      → IsTransactional cmd rows saved
      → IsInner body
      → c.depth ≡ 0
      → Outcome c (body (opened cmd c)) (atomic cmd body c)
  unfolding atomic atomic_at
  atomic-Outcome body c h inner outer =
      subst (λ n. Outcome c (body (opened cmd c)) (atomic_at cmd n body c)) (sym outer)
        (after_begin-Outcome body c (cmd.begin c.sqlite).0 refl h inner)

  -- Inside a transaction, and with a body that neither ends it nor leaves another one open,
  -- `atomic` does what its body does, and the transaction stays open.
  pub atomic-IsInner :
      (body : Body S A) (n : ℕ) (c : Connection S)
      → IsInner body
      → c.depth ≡ suc n
      → (atomic cmd body c ≡ body c) × ((atomic cmd body c).1.depth ≡ suc n)
  unfolding atomic atomic_at
  atomic-IsInner body n c inner h =
      let same : atomic_at cmd c.depth body c ≡ body c = rw h refl in
      (same, ap (λ r. r.1.depth) same ∙ (inner n c h).0)
