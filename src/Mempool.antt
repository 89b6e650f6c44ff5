-- ===== src/Mempool.antt =====
-- blockchain/mempool.go: the pending and the future transactions of every account, by nonce. Each
-- method holds the lock from its first access to its last, so a call is one step.
pub mod View
pub mod Add
pub mod Keeps
pub mod Promote
pub mod Sync
pub mod Lowest
pub mod Select
pub mod Extract
pub mod Full
pub mod Clean
pub mod Methods
use simple_blockchain_client.Account.{get_account}
use simple_blockchain_client.Exec.{
  nonce_too_low, duplicate_future, ok, duplicate_pending, err, Exec,
}
use simple_blockchain_client.Types.{succ_u64, Transaction}
use simple_blockchain_client.Text.{Bytes}
use simple_blockchain_client.Platform.{Json, LevelDb}
use simple_blockchain_client.Map.{insert, erase, lookup, Map}
use simple_blockchain_client.Prelude.{
  ◌==◌, ◌++◌, nat_eq, leb, if◌then◌else◌, ◌∷◌, ◌+◌, ltb, length, bytes_eq, Bool, map, List, [],
  zero, suc, ℕ, none, some, true, false,
}

abbrev pub Table : Type 0
Table = Map ℕ Transaction

abbrev pub Queue : Type 0
Queue = Map Bytes Table

pub record Mempool : Type 0 where
  pub pending : Queue
  pub future : Queue

-- `InitMempool`
abbrev pub init_mempool : Mempool
init_mempool = record { pending = []; future = [] }

-- `m[account]`: the map of an account that has none is nil, and reads as an empty one.
unfoldable pub table : Bytes → Queue → Table
table account queue = elim (lookup account queue) [ none ↦ [] | some t ↦ t ]

-- `if _, exists := m[account]; !exists { m[account] = make(…) }`
unfoldable pub ensure_table : Bytes → Queue → Queue
ensure_table account queue = elim (lookup account queue) [
  | none ↦ insert account [] queue
  | some t ↦ queue
]

-- The highest nonce of a table, or the one given if none is higher.
unfoldable pub highest : ℕ → Table → ℕ
highest n [] = n
highest n ((nonce, tx) ∷ t) = highest (if ltb n nonce then nonce else n) t

-- `AddTransaction` once the account has both of its maps: the checks for a duplicate, and the
-- choice of the queue.
unfoldable pub add_ready : ℕ → Transaction → Exec Mempool Unit
add_ready db_nonce tx mp =
    let last = highest db_nonce (table tx.from mp.pending) in
    elim (lookup tx.nonce (table tx.from mp.pending)) [
      | some other ↦ (err duplicate_pending, mp)
      | none ↦ elim (lookup tx.nonce (table tx.from mp.future)) [
        | some other ↦ (err duplicate_future, mp)
        | none ↦
            if tx.nonce == succ_u64 last
            then (
              ok tt,
              record mp {
                pending = insert tx.from (insert tx.nonce tx (table tx.from mp.pending)) mp.pending;
              },
            )
            else if ltb last tx.nonce
            then (
              ok tt,
              record mp {
                future = insert tx.from (insert tx.nonce tx (table tx.from mp.future)) mp.future;
              },
            )
            else (err nonce_too_low, mp)
      ]
    ]

-- The part of `AddTransaction` behind the lock, with the account's nonce in the database.
unfoldable pub add_locked : ℕ → Transaction → Exec Mempool Unit
add_locked db_nonce tx mp =
    add_ready db_nonce tx (record {
      pending = ensure_table tx.from mp.pending;
      future = ensure_table tx.from mp.future;
    })

-- The loop of `SyncFutureToPending` over the nonces of one account. Each round takes an entry out
-- of the future table, so that one more round than it has entries is enough.
unfoldable pub promote : ℕ → ℕ → Table → Table → Table × Table
promote zero nonce pending future = (pending, future)
promote (suc fuel) nonce pending future = elim (lookup nonce future) [
  | none ↦ (pending, future)
  | some tx ↦ promote fuel (succ_u64 nonce) (insert nonce tx pending) (erase nonce future)
]

-- `if len(t) == 0 { delete(m, account) }`, on the map that has `t` for the account.
unfoldable pub put_or_drop : Bytes → Table → Queue → Queue
put_or_drop account [] queue = erase account queue
put_or_drop account (e ∷ t) queue = insert account (e ∷ t) queue

-- One round of `SyncFutureToPending` over the accounts.
unfoldable pub sync_account : Bytes → Mempool → Mempool
sync_account account mp =
    let pending = table account mp.pending in
    let future = table account mp.future in
    let (pending', future') =
      promote (length future + 1) (succ_u64 (highest 0 pending)) pending future in
    record {
      pending = insert account pending' mp.pending;
      future = put_or_drop account future' mp.future;
    }

unfoldable pub sync_accounts : List Bytes → Mempool → Mempool
sync_accounts [] mp = mp
sync_accounts (account ∷ accounts) mp = sync_accounts accounts (sync_account account mp)

unfoldable pub keys : Queue → List Bytes
keys [] = []
keys ((account, t) ∷ queue) = account ∷ keys queue

-- `SyncFutureToPending`
unfoldable pub sync_future_to_pending : Mempool → Mempool
sync_future_to_pending mp = sync_accounts (keys mp.future) mp

-- The entry with the lowest nonce: what the first of the sorted nonces leads to.
unfoldable pub lowest : ℕ × Transaction → Table → ℕ × Transaction
lowest e [] = e
lowest e (x ∷ t) = lowest (if ltb x.0 e.0 then x else e) t

-- One round of the inner loop of `ExtractTransactionsForBlock`, on an account with transactions.
unfoldable pub extract_from : Bytes → ℕ × Transaction → Table → Queue → Transaction × Queue
extract_from account e t queue =
    let (nonce, tx) = lowest e t in (tx, put_or_drop account (erase nonce (e ∷ t)) queue)

pub record Extraction : Type 0 where
  pub block_txs : List Transaction
  pub more : Bool
  pub queue : Queue

-- An account that has no transactions is passed over.
unfoldable pub visit : Bytes → Table → Extraction → Extraction
visit account [] s = s
visit account (e ∷ t) s =
    let (tx, queue') = extract_from account e t s.queue in
    record { block_txs = s.block_txs ++ tx ∷ []; more = true; queue = queue' }

-- The inner loop over the accounts, in the order that `range` gave; it breaks when the block is
-- full.
unfoldable pub extract_round : ℕ → List Bytes → Extraction → Extraction
extract_round max_txs [] s = s
extract_round max_txs (account ∷ accounts) s = elim (leb max_txs (length s.block_txs)) [
  | true ↦ s
  | false ↦ extract_round max_txs accounts (visit account (table account s.queue) s)
]

-- The outer loop. A round that is not the last takes a transaction.
unfoldable pub extract_rounds : ℕ → ℕ → List Bytes → Extraction → Extraction
extract_rounds zero max_txs accounts s = s
extract_rounds (suc fuel) max_txs accounts s = elim (ltb (length s.block_txs) max_txs) [
  | false ↦ s
  | true ↦
      let s' = extract_round max_txs accounts (record s { more = false }) in
      elim s'.more [ true ↦ extract_rounds fuel max_txs accounts s' | false ↦ s' ]
]

-- `ExtractTransactionsForBlock`; `accounts` are the keys of `pending` in the order of the range.
unfoldable pub extract_transactions_for_block :
    ℕ → List Bytes → Mempool → List Transaction × Mempool
extract_transactions_for_block max_txs accounts mp =
    let s =
      extract_rounds (max_txs + 1) max_txs accounts
        (record { block_txs = []; more = false; queue = mp.pending }) in
    (s.block_txs, record mp { pending = s.queue })

-- One nonce of one account taken out of a queue, and the account with it if that was its last.
unfoldable pub drop_nonce : Bytes → ℕ → Queue → Queue
drop_nonce account nonce queue = elim (lookup account queue) [
  | none ↦ queue
  | some t ↦ put_or_drop account (erase nonce t) queue
]

-- `CleanMempoolAfterReceiveBlock`
unfoldable pub clean_mempool_after_receive_block : List Transaction → Mempool → Mempool
clean_mempool_after_receive_block [] mp = mp
clean_mempool_after_receive_block (tx ∷ block_txs) mp =
    clean_mempool_after_receive_block block_txs (record {
      pending = drop_nonce tx.from tx.nonce mp.pending;
      future = drop_nonce tx.from tx.nonce mp.future;
    })

module _ ⦃L : LevelDb⦄ ⦃J : Json⦄ where
  open L use {Db}

  -- `AddTransaction`: the nonce of the account is read before the lock is taken.
  unfoldable pub add_transaction : Transaction → Db → Exec Mempool Unit
  add_transaction tx d mp = elim (get_account tx.from d).0 [
    | err e ↦ (err e, mp)
    | ok from_account ↦ add_locked from_account.nonce tx mp
  ]
