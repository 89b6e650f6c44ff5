-- ===== src/Mempool/Add.antt =====
-- `AddTransaction`: what it does on every branch, and that it keeps the invariant.
use simple_blockchain_client.Account.View.{get_account-some, accounts}
use simple_blockchain_client.Platform.{Json, LevelDb}
use simple_blockchain_client.Mempool.View.{Has, table-insert, table-ensure_table}
use simple_blockchain_client.Exec.{
  nonce_too_low, duplicate_future, duplicate_pending, err, Error, ok, Result,
}
use simple_blockchain_client.Map.{lookup-insert, lookup, insert}
use simple_blockchain_client.Types.{Account, succ_u64, Transaction}
use simple_blockchain_client.Text.{Bytes}
use simple_blockchain_client.Mempool.{
  add_transaction, Json, LevelDb, true, false, none, add_ready, ltb, succ_u64, table, highest,
  lookup, insert, Mempool, add_locked, Queue,
}
use simple_blockchain_client.Prelude.{
  ap, true, false, none, arith, refl, ltb→lt, ==_iff, ◌≤◌, ◌⊎◌, ◌≢◌, ◌<◌, ◌&&◌, ltb, bytes_eq, ◌==◌,
  nat_eq, inl, if◌then◌else◌, Bool-cases, ◌≡◌, inr, Option-cases, ℕ, some,
}

-- One transaction put into a queue, every other one as before.
abbrev pub Stored : Transaction → Queue → Queue → Type 0
Stored tx q q' =
    (a : Bytes) (k : ℕ)
    → lookup k (table a q')
      ≡ (if tx.from == a && tx.nonce == k then some tx else lookup k (table a q))

abbrev pub SameQueue : Queue → Queue → Type 0
SameQueue q q' = (a : Bytes) (k : ℕ) → lookup k (table a q') ≡ lookup k (table a q)

-- The highest nonce that the account has used: in the database or among its pending transactions.
abbrev pub last_nonce : ℕ → Transaction → Mempool → ℕ
last_nonce db_nonce tx mp = highest db_nonce (table tx.from mp.pending)

-- The account has no transaction of this nonce.
abbrev pub IsFresh : Transaction → Mempool → Type 0
IsFresh tx mp =
    (lookup tx.nonce (table tx.from mp.pending) ≡ none)
    × (lookup tx.nonce (table tx.from mp.future) ≡ none)

-- What a call did: it took the next nonce, it kept a later one for the future, or it refused a
-- nonce that was taken or is too low, and stored nothing.
pub data Added (db_nonce : ℕ) (tx : Transaction) (mp : Mempool) (r : Result (Unit {0}))
    (mp' : Mempool) : Type 0 where
  next_nonce :
      r ≡ ok tt
      → IsFresh tx mp
      → tx.nonce ≡ succ_u64 (last_nonce db_nonce tx mp)
      → Stored tx mp.pending mp'.pending
      → SameQueue mp.future mp'.future
      → Added db_nonce tx mp r mp'
  later_nonce :
      r ≡ ok tt
      → IsFresh tx mp
      → last_nonce db_nonce tx mp < tx.nonce
      → tx.nonce ≢ succ_u64 (last_nonce db_nonce tx mp)
      → SameQueue mp.pending mp'.pending
      → Stored tx mp.future mp'.future
      → Added db_nonce tx mp r mp'
  refused :
      (e : Error)
      → r ≡ err e
      → (Has tx.nonce (table tx.from mp.pending) ⊎ Has tx.nonce (table tx.from mp.future))
        ⊎ (tx.nonce ≤ last_nonce db_nonce tx mp)
      → SameQueue mp.pending mp'.pending
      → SameQueue mp.future mp'.future
      → Added db_nonce tx mp r mp'

pub same : (q : Queue) → SameQueue q q
same q a k = refl

stored :
    (tx : Transaction) (q : Queue)
    → Stored tx q (insert tx.from (insert tx.nonce tx (table tx.from q)) q)
stored tx q a k =
    rw (table-insert a tx.from (insert tx.nonce tx (table tx.from q)) q)
      (elim (Bool-cases (tx.from == a)) [
        | inl same ↦
            let p = (==_iff tx.from a).0 same in
            rw (same, lookup-insert tx.nonce k tx (table tx.from q), p)
        | inr other ↦ rw other
      ])

abbrev put_tx : Transaction → Queue → Queue
put_tx tx q = insert tx.from (insert tx.nonce tx (table tx.from q)) q

-- One equation for each branch.
module _ (db_nonce : ℕ) (tx : Transaction) (mp : Mempool) where
  taken_pending :
      Has tx.nonce (table tx.from mp.pending)
      → add_ready db_nonce tx mp ≡ (err duplicate_pending, mp)
  unfolding add_ready
  taken_pending (other, taken) = ground arith

  module _ (fresh : lookup tx.nonce (table tx.from mp.pending) ≡ none) where
    taken_future :
        Has tx.nonce (table tx.from mp.future)
        → add_ready db_nonce tx mp ≡ (err duplicate_future, mp)
    unfolding add_ready
    taken_future (other, taken) = ground arith

    module _ (free : lookup tx.nonce (table tx.from mp.future) ≡ none) where
      at_next :
          (tx.nonce == succ_u64 (last_nonce db_nonce tx mp)) ≡ true
          → add_ready db_nonce tx mp ≡ (ok tt, record mp { pending = put_tx tx mp.pending })
      unfolding add_ready
      at_next e = ground arith

      module _ (not_next : (tx.nonce == succ_u64 (last_nonce db_nonce tx mp)) ≡ false) where
        at_later :
            ltb (last_nonce db_nonce tx mp) tx.nonce ≡ true
            → add_ready db_nonce tx mp ≡ (ok tt, record mp { future = put_tx tx mp.future })
        unfolding add_ready
        at_later e = ground arith

        at_low :
            ltb (last_nonce db_nonce tx mp) tx.nonce ≡ false
            → add_ready db_nonce tx mp ≡ (err nonce_too_low, mp)
        unfolding add_ready
        at_low e = ground arith

add_ready-Added :
    (db_nonce : ℕ) (tx : Transaction) (mp : Mempool)
    → Added db_nonce tx mp (add_ready db_nonce tx mp).0 (add_ready db_nonce tx mp).1
add_ready-Added db_nonce tx mp = elim (Option-cases (lookup tx.nonce (table tx.from mp.pending))) [
  | inr taken ↦
      rw (taken_pending db_nonce tx mp taken)
        (refused duplicate_pending refl (inl (inl taken)) (same mp.pending) (same mp.future))
  | inl fresh ↦ elim (Option-cases (lookup tx.nonce (table tx.from mp.future))) [
    | inr taken ↦
        rw (taken_future db_nonce tx mp fresh taken)
          (refused duplicate_future refl (inl (inr taken)) (same mp.pending) (same mp.future))
    | inl free ↦ elim (Bool-cases (tx.nonce == succ_u64 (last_nonce db_nonce tx mp))) [
      | inl next ↦ rw (at_next db_nonce tx mp fresh free next) (
          next_nonce refl (fresh, free) ((==_iff tx.nonce _).0 next) (stored tx mp.pending)
            (same mp.future))
      | inr not_next ↦ elim (Bool-cases (ltb (last_nonce db_nonce tx mp) tx.nonce)) [
        | inl later ↦ rw (at_later db_nonce tx mp fresh free not_next later) (
            later_nonce refl (fresh, free) (ltb→lt _ _ later)
              (λ e. cc ((==_iff tx.nonce _).1 e, not_next)) (same mp.pending) (stored tx mp.future))
        | inr low ↦
            rw (at_low db_nonce tx mp fresh free not_next low)
              (refused nonce_too_low refl (inr (ground arith)) (same mp.pending) (same mp.future))
      ]
    ]
  ]
]

-- The maps that a call makes for the account are empty, and nothing depends on them.
Added-ensured :
    (db_nonce : ℕ) (tx : Transaction) (mp : Mempool) (ready : Mempool) (r : Result (Unit {0}))
    (mp' : Mempool)
    → ((a : Bytes) → table a ready.pending ≡ table a mp.pending)
    → ((a : Bytes) → table a ready.future ≡ table a mp.future)
    → Added db_nonce tx ready r mp'
    → Added db_nonce tx mp r mp'
Added-ensured db_nonce tx mp ready r mp' hp hf (next_nonce done new next p f) =
    next_nonce done (rw (hp tx.from, hf tx.from) at new) (rw (hp tx.from) at next)
      (λ a k. rw (hp a) at (p a k)) (λ a k. rw (hf a) at (f a k))
Added-ensured db_nonce tx mp ready r mp' hp hf (later_nonce done new later not_next p f) =
    later_nonce done (rw (hp tx.from, hf tx.from) at new) (rw (hp tx.from) at later)
      (rw (hp tx.from) at not_next) (λ a k. rw (hp a) at (p a k)) (λ a k. rw (hf a) at (f a k))
Added-ensured db_nonce tx mp ready r mp' hp hf (refused e failed why p f) =
    refused e failed (rw (hp tx.from, hf tx.from) at why) (λ a k. rw (hp a) at (p a k))
      (λ a k. rw (hf a) at (f a k))

-- Every call of `AddTransaction` stores the transaction as pending exactly if its nonce follows the
-- last one, as future if it is later, and otherwise refuses it and stores nothing.
pub add_locked-Added :
    (db_nonce : ℕ) (tx : Transaction) (mp : Mempool)
    → Added db_nonce tx mp (add_locked db_nonce tx mp).0 (add_locked db_nonce tx mp).1
unfolding add_locked
add_locked-Added db_nonce tx mp =
    Added-ensured db_nonce tx mp _ _ _ (λ a. table-ensure_table a tx.from mp.pending)
      (λ a. table-ensure_table a tx.from mp.future) (add_ready-Added db_nonce tx _)

module _ ⦃L : LevelDb⦄ ⦃J : Json⦄ where
  open L use {Db}

  -- `AddTransaction` on an account of the database: exactly the nonce that follows the last one is
  -- pending, a later one is future, and what is refused leaves both queues as they were.
  pub add_transaction-Added :
      (tx : Transaction) (d : Db) (mp : Mempool) {a : Account}
      → accounts d tx.from ≡ some a
      → Added a.nonce tx mp (add_transaction tx d mp).0 (add_transaction tx d mp).1
  unfolding add_transaction
  add_transaction-Added tx d mp {a} known =
      rw (ap (λ (o : Result Account × Db). o.0) (get_account-some tx.from d known), add_transaction)
        (add_locked-Added a.nonce tx mp)
