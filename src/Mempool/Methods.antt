-- ===== src/Mempool/Methods.antt =====
-- The methods of the mempool that the program never calls: `GetPendingTransactions`,
-- `PromoteFutureToPending` and `CleanMempool` of blockchain/mempool.go. A range over a map visits the entries in
-- the order of the list that it is given.
use simple_blockchain_client.Types.{succ_u64, Transaction}
use simple_blockchain_client.Map.{erase, insert, lookup}
use simple_blockchain_client.Text.{Bytes}
use simple_blockchain_client.Mempool.{
  highest, table, succ_u64, map, lookup, keys, Transaction, Queue, Table, Mempool,
}
use simple_blockchain_client.Prelude.{
  nat_eq, ◌==◌, map, bytes_eq, if◌then◌else◌, Option, List, ◌∷◌, [], ℕ, none, some,
}

-- `GetPendingTransactions(account)`
unfoldable pub get_pending_transactions : Bytes → Mempool → List Transaction
get_pending_transactions account mp = map (λ e. e.1) (table account mp.pending)

-- `m[account][nonce] = tx`, which panics where the account has no map.
unfoldable pub put_nonce : Bytes → ℕ → Transaction → Queue → Option Queue
put_nonce account nonce tx queue = elim (lookup account queue) [
  | none ↦ none
  | some t ↦ some (insert account (insert nonce tx t) queue)
]

-- `delete(m[account], nonce)`
unfoldable pub delete_nonce : Bytes → ℕ → Queue → Queue
delete_nonce account nonce queue = elim (lookup account queue) [
  | none ↦ queue
  | some t ↦ insert account (erase nonce t) queue
]

-- The loop of `PromoteFutureToPending` over the entries of the account; `none` is a panic.
unfoldable pub promote_entries : Bytes → ℕ → Table → Mempool → Option Mempool
promote_entries account current_nonce [] mp = some mp
promote_entries account current_nonce ((nonce, tx) ∷ entries) mp =
    let moved : Option Mempool = elim (put_nonce account nonce tx mp.pending) [
      | none ↦ none
      | some pending ↦
          some (record { pending = pending; future = delete_nonce account nonce mp.future })
    ] in
    let promoted = if nonce == succ_u64 current_nonce then moved else some mp in
    elim promoted [ none ↦ none | some next ↦ promote_entries account current_nonce entries next ]

-- `PromoteFutureToPending(account, currentNonce)`
unfoldable pub promote_future_to_pending : Bytes → ℕ → Mempool → Option Mempool
promote_future_to_pending account current_nonce mp = elim (lookup account mp.future) [
  | none ↦ some mp
  | some future_txs ↦ promote_entries account current_nonce future_txs mp
]

-- The inner loop of `CleanMempool` over the entries of one account: the pending transactions of the
-- account, and the nonce that the loop has come to.
unfoldable pub clean_entries : Table → ℕ → Table → Table
clean_entries [] current_nonce pending = pending
clean_entries ((nonce, tx) ∷ entries) current_nonce pending =
    if nonce == succ_u64 current_nonce
    then clean_entries entries (succ_u64 current_nonce) (insert nonce tx pending)
    else clean_entries entries current_nonce pending

-- A round of `CleanMempool` on one account: the future transactions that the loop did not move are
-- deleted with the account's map.
unfoldable pub clean_account : Bytes → Mempool → Mempool
clean_account account mp = elim (lookup account mp.pending) [
  | none ↦ mp
  | some pending_txs ↦ record {
    pending =
        insert account (clean_entries (table account mp.future) (highest 0 pending_txs) pending_txs)
          mp.pending;
    future = erase account mp.future;
  }
]

unfoldable pub clean_accounts : List Bytes → Mempool → Mempool
clean_accounts [] mp = mp
clean_accounts (account ∷ accounts) mp = clean_accounts accounts (clean_account account mp)

-- `CleanMempool`
unfoldable pub clean_mempool : Mempool → Mempool
clean_mempool mp = clean_accounts (keys mp.future) mp
