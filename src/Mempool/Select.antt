-- ===== src/Mempool/Select.antt =====
-- `SelectTransactionsForBlock`: the run of pending transactions that follows an account's nonce.
use simple_blockchain_client.Mempool.View.{table-insert}
use simple_blockchain_client.Mempool.Sync.{HasRoom}
use simple_blockchain_client.Mempool.Promote.{erase-Each, length-erase, Each}
use simple_blockchain_client.Map.{lookup-erase, insert, erase, lookup}
use simple_blockchain_client.Types.{u64, succ_u64, Transaction}
use simple_blockchain_client.Text.{Bytes}
use simple_blockchain_client.Mempool.{
  Queue, ltb, leb, succ_u64, lookup, length, Mempool, table, Table,
}
use simple_blockchain_client.Prelude.{
  refl, ==_ne, ==_refl, ltb, inr, ◌&&◌, inl, ◌∙◌, leb, bytes_eq, Option-cases, ◌≢◌, sym, subst,
  nat_eq, if◌then◌else◌, arith, ◌≡◌, ◌+◌, ◌<◌, length, List, ◌∷◌, [], zero, suc, ℕ, none, some,
}

-- Its loop takes an entry out in each round but the last, so that one more round than the table has
-- entries is enough.
unfoldable pub select_run : ℕ → ℕ → Table → List Transaction × Table
select_run zero nonce pending_txs = ([], pending_txs)
select_run (suc fuel) nonce pending_txs = elim (lookup nonce pending_txs) [
  | none ↦ ([], pending_txs)
  | some tx ↦
      let (block_txs, left) = select_run fuel (succ_u64 nonce) (erase nonce pending_txs) in
      (tx ∷ block_txs, left)
]

unfoldable pub select_transactions_for_block : Bytes → ℕ → Mempool → List Transaction × Mempool
select_transactions_for_block account current_nonce mp = elim (lookup account mp.pending) [
  | none ↦ ([], mp)
  | some pending_txs ↦
      let (block_txs, left) =
        select_run (length pending_txs + 1) (succ_u64 current_nonce) pending_txs in
      (block_txs, record mp { pending = insert account left mp.pending })
]

run-stop : (fuel n : ℕ) (t : Table) → lookup n t ≡ none → select_run (suc fuel) n t ≡ ([], t)
unfolding select_run
run-stop fuel n t h = ground arith

run-take :
    (fuel n : ℕ) (t : Table) {tx : Transaction}
    → lookup n t ≡ some tx
    → select_run (suc fuel) n t ≡ (
      tx ∷ (select_run fuel (succ_u64 n) (erase n t)).0,
      (select_run fuel (succ_u64 n) (erase n t)).1,
    )
unfolding select_run
run-take fuel n t h = ground arith

-- Transactions that a table has at a nonce and the ones after it.
abbrev pub Consecutive : ℕ → List Transaction → Table → Type 0
Consecutive n [] t = Unit
Consecutive n (tx ∷ txs) t = (lookup n t ≡ some tx) × Consecutive (n + 1) txs t

lookup-erase_other : (n k : ℕ) (t : Table) → n < k → lookup k (erase n t) ≡ lookup k t
lookup-erase_other n k t h = rw (lookup-erase n k t) (ground arith)

Consecutive-erase :
    (n m : ℕ) (txs : List Transaction) (t : Table)
    → n < m
    → Consecutive m txs (erase n t)
    → Consecutive m txs t
Consecutive-erase n m [] t h c = tt
Consecutive-erase n m (tx ∷ txs) t h (here, c) =
    (sym (lookup-erase_other n m t h) ∙ here, Consecutive-erase n (m + 1) txs t (omega arith) c)

-- The longest run from a nonce, and what is left: everything else.
pub record IsRun (n : ℕ) (txs : List Transaction) (t t' : Table) : Type 0 where
  pub run : Consecutive n txs t
  pub ends : lookup (n + length txs) t ≡ none
  pub left_over :
      (k : ℕ) → lookup k t' ≡ (if leb n k && ltb k (n + length txs) then none else lookup k t)

stop-IsRun : (n : ℕ) (t : Table) → lookup n t ≡ none → IsRun n [] t t
stop-IsRun n t gap = record {
  run = tt;
  ends = subst (λ k. lookup k t ≡ none) (omega arith) gap;
  left_over = λ k. ground arith;
}

take-IsRun :
    (n : ℕ) (tx : Transaction) (txs : List Transaction) (t t' : Table)
    → lookup n t ≡ some tx
    → IsRun (n + 1) txs (erase n t) t'
    → IsRun n (tx ∷ txs) t t'
take-IsRun n tx txs t t' here r = record {
  run = (here, Consecutive-erase n (n + 1) txs t (omega arith) r.run);
  ends =
      subst (λ k. lookup k t ≡ none) (omega arith)
        (sym (lookup-erase_other n (n + 1 + length txs) t (omega arith)) ∙ r.ends);
  left_over = λ k. rw (r.left_over k, lookup-erase n k t) (ground arith);
}

select_run-IsRun :
    (fuel n : ℕ) (t : Table)
    → length t < fuel
    → Each (λ k x. k + 1 < u64) t
    → IsRun n (select_run fuel n t).0 t (select_run fuel n t).1
select_run-IsRun zero n t enough fits = absurd (omega arith)
select_run-IsRun (suc fuel) n t enough fits = elim (Option-cases (lookup n t)) [
  | inl gap ↦ rw (run-stop fuel n t gap) (stop-IsRun n t gap)
  | inr (tx, there) ↦
      let small = fits n tx there in
      let next : succ_u64 n ≡ n + 1 = omega arith in
      let rest =
        select_run-IsRun fuel (succ_u64 n) (erase n t) (omega (arith, length-erase n t (tx, there)))
          (erase-Each (λ k x. k + 1 < u64) n t fits) in
      rw (run-take fuel n t there) (
        take-IsRun n tx _ t _ there (
          subst
            (λ m.
              IsRun m (select_run fuel (succ_u64 n) (erase n t)).0 (erase n t)
                (select_run fuel (succ_u64 n) (erase n t)).1)
            next rest))
]

table-empty : (account : Bytes) (q : Queue) → lookup account q ≡ none → table account q ≡ []
unfolding table
table-empty account q h = rw (h, table)

table-there :
    (account : Bytes) (q : Queue) {t : Table} → lookup account q ≡ some t → table account q ≡ t
unfolding table
table-there account q h = rw (h, table)

lookup-nil : (n : ℕ) → lookup {V = Transaction} n [] ≡ none
unfolding lookup
lookup-nil n = refl

table-none :
    (n : ℕ) (account : Bytes) (q : Queue)
    → lookup account q ≡ none
    → lookup n (table account q) ≡ none
table-none n account q h =
    subst (λ t. lookup n t ≡ none) (sym (table-empty account q h)) (lookup-nil n)

-- If no nonce of the account is the greatest `uint64`, `SelectTransactionsForBlock` takes the longest
-- run of the account's pending transactions from the nonce after the one given, and leaves its other
-- transactions, those of every other account and the future ones as they were.
pub select_transactions_for_block-IsRun :
    (account : Bytes) (current_nonce : ℕ) (mp : Mempool)
    → HasRoom mp.pending
    → let (block_txs, mp') = select_transactions_for_block account current_nonce mp in
      IsRun
        (succ_u64 current_nonce)
        block_txs
        (table account mp.pending)
        (table account mp'.pending)
      × ((b : Bytes) → b ≢ account → table b mp'.pending ≡ table b mp.pending)
      × (mp'.future ≡ mp.future)
unfolding select_transactions_for_block
select_transactions_for_block-IsRun account current_nonce mp room =
    elim (Option-cases (lookup account mp.pending)) [
      | inl none_there ↦
          rw (none_there, select_transactions_for_block)
            (
              stop-IsRun (succ_u64 current_nonce) (table account mp.pending)
                  (table-none (succ_u64 current_nonce) account mp.pending none_there),
              (λ b other. refl),
              refl,
            )
      | inr (t, there) ↦
          let n = succ_u64 current_nonce in
          let left = (select_run (length t + 1) n t).1 in
          let here : table account mp.pending ≡ t = table-there account mp.pending there in
          let mine : table account (insert account left mp.pending) ≡ left =
            rw (table-insert account account left mp.pending, ==_refl account) in
          let r =
            select_run-IsRun (length t + 1) n t (omega arith)
              (subst (Each (λ k x. k + 1 < u64)) here (room account)) in
          rw (there, select_transactions_for_block)
            (
              subst
                  (λ u.
                    IsRun n (select_run (length t + 1) n t).0 u
                      (table account (insert account left mp.pending)))
                  (sym here) (subst (IsRun n (select_run (length t + 1) n t).0 t) (sym mine) r),
              (λ b other.
                  rw
                    (table-insert b account left mp.pending, ==_ne account b (λ e. other (sym e)))),
              refl,
            )
    ]
