-- ===== src/Chain/Queues.antt =====
-- The two loops keep the invariant of the mempool.
use simple_blockchain_client.Mempool.Keeps.{add_transaction-IsValid}
use simple_blockchain_client.Mempool.Sync.{sync_future_to_pending-waiting}
use simple_blockchain_client.Exec.{Outcome-cases, ok}
use simple_blockchain_client.Transaction.{create_transaction}
use simple_blockchain_client.Block.{
  validate_received_block, reward_to_miner, create_new_block, block_batch, store_block,
}
use simple_blockchain_client.Mempool.Extract.{extract_transactions_for_block-IsTaken}
use simple_blockchain_client.Mempool.Clean.{clean_mempool_after_receive_block_exact, uses}
use simple_blockchain_client.Chain.{
  transactions_per_block, total_transactions, ltb, sync_future_to_pending, ok, Block, store_block,
  process_transaction, handle_validated, create_transaction, RawTransaction, Node, publish_block,
  process_message, keep_transaction, handle_transaction, handle_block, create_from, create_block,
  check_raw_transaction, accept_block,
}
use simple_blockchain_client.Map.{lookup}
use simple_blockchain_client.Types.{u64, Block, RawTransaction, Transaction}
use simple_blockchain_client.Text.{Bytes}
use simple_blockchain_client.Mempool.View.{IsValid}
use simple_blockchain_client.Platform.{Json, Crypto, LevelDb}
use simple_blockchain_client.Mempool.{
  sync_future_to_pending, table, extract_transactions_for_block, clean_mempool_after_receive_block,
  Queue, Mempool,
}
use simple_blockchain_client.Prelude.{
  sym, refl, ltb, inr, ◌==◌, inl, arith, ◌<◌, Option-cases, Bool-cases, subst, nat_eq,
  if◌then◌else◌, ◌≡◌, Option, List, Bool, ◌∷◌, [], ℕ, none, some, true, false,
}

-- A queue with some of its transactions gone.
abbrev Shrinks : Queue → Queue → Type 0
Shrinks q q' =
    (a : Bytes) (k : ℕ) (x : Transaction)
    → lookup k (table a q') ≡ some x
    → lookup k (table a q) ≡ some x

Shrinks-IsValid :
    (mp mp' : Mempool)
    → Shrinks mp.pending mp'.pending
    → Shrinks mp.future mp'.future
    → IsValid mp
    → IsValid mp'
Shrinks-IsValid mp mp' p f v = record {
  pending_keyed = λ a k x h. v.pending_keyed a k x (p a k x h);
  future_keyed = λ a k x h. v.future_keyed a k x (f a k x h);
  disjoint = λ a k (x, hx) (y, hy). v.disjoint a k (x, p a k x hx) (y, f a k y hy);
}

without :
    (c : Bool) (o o' : Option Transaction) (x : Transaction)
    → o' ≡ (if c then none else o)
    → o' ≡ some x
    → o ≡ some x
without true o o' x e h = cc
without false o o' x e h = cc

clean-IsValid :
    (block_txs : List Transaction) (mp : Mempool)
    → IsValid mp
    → IsValid (clean_mempool_after_receive_block block_txs mp)
clean-IsValid block_txs mp =
    Shrinks-IsValid mp (clean_mempool_after_receive_block block_txs mp)
      (λ a k x.
        without (uses block_txs a k) _ _ x
          (clean_mempool_after_receive_block_exact block_txs mp a k).0)
      (λ a k x.
        without (uses block_txs a k) _ _ x
          (clean_mempool_after_receive_block_exact block_txs mp a k).1)

extract-IsValid :
    (max_txs : ℕ) (accounts : List Bytes) (mp : Mempool)
    → IsValid mp
    → IsValid (extract_transactions_for_block max_txs accounts mp).1
extract-IsValid max_txs accounts mp v =
    let block_txs = (extract_transactions_for_block max_txs accounts mp).0 in
    let mp' = (extract_transactions_for_block max_txs accounts mp).1 in
    let (taken, kept) =
      extract_transactions_for_block-IsTaken max_txs accounts mp v.pending_keyed in
    Shrinks-IsValid mp mp' (λ a k x. without (uses block_txs a k) _ _ x (taken.removed a k))
      (λ a k x h. subst (λ q. lookup k (table a q) ≡ some x) kept h) v

module _ ⦃L : LevelDb⦄ ⦃C : Crypto⦄ ⦃J : Json⦄ where
  open L use {Db, write}
  open J use {unmarshal_block, unmarshal_raw_transaction, unmarshal_raw_transaction_nonce}

  accept_block-mempool :
      (b : Block) (n : Node)
      → (accept_block b n).1.mempool ≡ clean_mempool_after_receive_block b.transaction n.mempool
  unfolding accept_block store_block
  accept_block-mempool b n =
      elim (Option-cases (write (block_batch b) (reward_to_miner b.miner n.db).1)) [
        | inl refused ↦ rw (refused, accept_block, store_block)
        | inr (d', written) ↦ rw (written, accept_block, store_block)
      ]

  handle_block-IsValid :
      (content : Bytes) (n : Node) → IsValid n.mempool → IsValid (handle_block content n).1.mempool
  unfolding handle_block handle_validated
  handle_block-IsValid content n v = elim (Option-cases (unmarshal_block content)) [
    | inl bad ↦ rw (bad, handle_block) v
    | inr (b, read) ↦ elim (Outcome-cases (validate_received_block b n.db)) [
      | inl (u, d, passed) ↦
          rw (read, passed, handle_block, handle_validated)
            (subst IsValid (sym (accept_block-mempool b (record { db = d; mempool = n.mempool })))
              (clean-IsValid b.transaction n.mempool v))
      | inr (e, d, refused) ↦ rw (read, refused, handle_block, handle_validated) v
    ]
  ]

  check_raw_transaction-nonce :
      (raw : RawTransaction) (d : Db) {tx : Transaction} {json : Bytes} {d' : Db}
      → check_raw_transaction raw d ≡ (ok (tx, json), d')
      → tx.nonce ≡ raw.nonce
  unfolding check_raw_transaction create_transaction
  check_raw_transaction-nonce raw d h = ground arith

  keep_transaction-IsValid :
      (raw : RawTransaction) (d : Db) (mp : Mempool)
      → raw.nonce < u64
      → IsValid mp
      → IsValid (keep_transaction (check_raw_transaction raw d) mp).1.mempool
  unfolding keep_transaction
  keep_transaction-IsValid raw d mp fits v = elim (Outcome-cases (check_raw_transaction raw d)) [
    | inl ((tx, json), d', passed) ↦
        rw (passed, keep_transaction)
          (add_transaction-IsValid tx d' mp
            (let same = check_raw_transaction-nonce raw d passed in rw same fits) v)
    | inr (e, d', refused) ↦ rw (refused, keep_transaction) v
  ]

  handle_transaction-IsValid :
      (content : Bytes) (n : Node)
      → IsValid n.mempool
      → IsValid (handle_transaction content n).1.mempool
  unfolding handle_transaction process_transaction
  handle_transaction-IsValid content n v = elim (Option-cases (unmarshal_raw_transaction content)) [
    | inl bad ↦ rw (bad, handle_transaction, process_transaction) v
    | inr (raw, read) ↦
        rw (read, handle_transaction, process_transaction)
          (keep_transaction-IsValid raw n.db n.mempool
            (unmarshal_raw_transaction_nonce content read) v)
  ]

  -- Whatever message the processor handles, the mempool keeps its invariant.
  pub process_message-IsValid :
      (message : Bytes) (n : Node)
      → IsValid n.mempool
      → IsValid (process_message message n).1.mempool
  unfolding process_message
  process_message-IsValid [] n v = v
  process_message-IsValid (message_type ∷ content) n v = elim (Bool-cases (message_type == 0x01)) [
    | inl tx ↦ rw tx (handle_transaction-IsValid content n v)
    | inr other ↦ elim (Bool-cases (message_type == 0x02)) [
      | inl block ↦ rw (other, block) (handle_block-IsValid content n v)
      | inr neither ↦ rw (other, neither) v
    ]
  ]

  publish_block-mempool : (b : Block) (n : Node) → (publish_block b n).1.mempool ≡ n.mempool
  unfolding publish_block store_block
  publish_block-mempool b n = elim (Option-cases (write (block_batch b) n.db)) [
    | inl refused ↦ rw (refused, publish_block, store_block)
    | inr (d', written) ↦ rw (written, publish_block, store_block)
  ]

  create_from-mempool :
      (now : ℕ) (node_account : Bytes) (block_txs : List Transaction) (n : Node)
      → (create_from now node_account block_txs n).1.mempool ≡ n.mempool
  unfolding create_from
  create_from-mempool now node_account [] n = refl
  create_from-mempool now node_account (tx ∷ block_txs) n =
      elim (Option-cases (create_new_block now node_account (tx ∷ block_txs) n.db)) [
        | inl failed ↦ rw (failed, create_from)
        | inr (b, made) ↦ rw (made, create_from) (publish_block-mempool b n)
      ]

  -- A tick of the block creator keeps the invariant of the mempool, in whatever order the accounts
  -- are visited.
  pub create_block-IsValid :
      (now : ℕ) (node_account : Bytes) (order : Queue → List Bytes) (n : Node)
      → IsValid n.mempool
      → IsValid (create_block now node_account order n).1.mempool
  unfolding create_block
  create_block-IsValid now node_account order n v =
      let mp₁ = sync_future_to_pending n.mempool in
      let accounts = order mp₁.pending in
      let v₁ = (sync_future_to_pending-waiting n.mempool v).0 in
      elim (Bool-cases (ltb (total_transactions mp₁.pending) transactions_per_block)) [
        | inl few ↦ rw (few, create_block) v₁
        | inr enough ↦
            rw (enough, create_block)
              (subst IsValid (sym (create_from-mempool now node_account _ _))
                (extract-IsValid transactions_per_block accounts mp₁ v₁))
      ]
