-- ===== src/Chain/Tick.antt =====
-- The coins that a tick of the block creator makes.
use simple_blockchain_client.Block.Store.{write_block-accounts}
use simple_blockchain_client.Block.Create.{create_new_block-some}
use simple_blockchain_client.Mempool.Extract.{extract_transactions_for_block-IsTaken}
use simple_blockchain_client.Chain.Supply.{reward_to_miner-Minted, then-Minted, Minted}
use simple_blockchain_client.Transaction.{execute_transactions}
use simple_blockchain_client.Transaction.Supply.{
  execute_transactions_conserves, total-cong, IsAmong, IsDistinct,
}
use simple_blockchain_client.Map.{lookup}
use simple_blockchain_client.Account.View.{accounts}
use simple_blockchain_client.Mempool.Sync.{sync_future_to_pending-waiting, waiting}
use simple_blockchain_client.Types.{Transaction, Block}
use simple_blockchain_client.Mempool.View.{IsValid}
use simple_blockchain_client.Chain.{
  total_transactions, ltb, transactions_per_block, execute_transactions, sync_future_to_pending,
  Queue, Node, publish_block, create_from, create_block,
}
use simple_blockchain_client.Block.{
  last_block_left, create_new_block, block_batch, reward_to_miner, block_hash, store_block,
  next_block,
}
use simple_blockchain_client.Mempool.Promote.{or_else}
use simple_blockchain_client.Mempool.{table, sync_future_to_pending, Queue, Mempool}
use simple_blockchain_client.Text.{contains, Bytes}
use simple_blockchain_client.Platform.{Json, Crypto, LevelDb}
use simple_blockchain_client.Prelude.{
  ltb, Bool-cases, subst, inr, nat_eq, inl, ◌∙◌, Option-cases, ◌≢◌, sym, refl, All, ◌≡◌, Option,
  List, ◌∷◌, [], ℕ, none, some, true,
}

-- Every transaction that waits goes from one listed address to another.
abbrev pub WaitsWithin : List Bytes → Mempool → Type 0
WaitsWithin l mp =
    (a : Bytes) (k : ℕ) (tx : Transaction)
    → waiting mp a k ≡ some tx
    → (tx.from ≢ tx.to) × (contains tx.from l ≡ true) × (contains tx.to l ≡ true)

or_else-some : (o o' : Option Transaction) {a : Transaction} → o ≡ some a → or_else o o' ≡ some a
or_else-some none o' h = cc
or_else-some (some b) o' h = h

taken-IsAmong :
    (l : List Bytes) (mp : Mempool) (txs : List Transaction)
    → WaitsWithin l mp
    → All (λ tx. lookup tx.nonce (table tx.from mp.pending) ≡ some tx) txs
    → IsAmong l txs
taken-IsAmong l mp [] within h = tt
taken-IsAmong l mp (tx ∷ txs) within (here, h) =
    (within tx.from tx.nonce tx (or_else-some _ _ here), taken-IsAmong l mp txs within h)

sync-WaitsWithin :
    (l : List Bytes) (mp : Mempool)
    → IsValid mp
    → WaitsWithin l mp
    → WaitsWithin l (sync_future_to_pending mp)
sync-WaitsWithin l mp v within a k tx h =
    within a k tx (sym ((sync_future_to_pending-waiting mp v).1 a k) ∙ h)

module _ ⦃L : LevelDb⦄ ⦃C : Crypto⦄ ⦃J : Json⦄ where
  open L use {Db, write}

  store_block-accounts :
      (b : Block) (d : Db)
      → b.hash ≡ block_hash b
      → (j : Bytes) → accounts (store_block b d).1 j ≡ accounts d j
  unfolding store_block
  store_block-accounts b d named j = elim (Option-cases (write (block_batch b) d)) [
    | inl refused ↦ rw (refused, store_block)
    | inr (d', written) ↦ rw (written, store_block) (write_block-accounts b d named written j)
  ]

  publish_block-db :
      (b : Block) (n : Node)
      → (publish_block b n).1.db
        ≡ (reward_to_miner b.miner (execute_transactions b.transaction (store_block b n.db).1).1).1
  unfolding publish_block store_block
  publish_block-db b n = elim (Option-cases (write (block_batch b) n.db)) [
    | inl refused ↦ rw (refused, publish_block, store_block) (rw (refused, store_block))
    | inr (d', written) ↦ rw (written, publish_block, store_block) (rw (written, store_block))
  ]

  publish_block-Minted :
      (l : List Bytes) (b : Block) (n : Node)
      → IsDistinct l
      → contains b.miner l ≡ true
      → IsAmong l b.transaction
      → b.hash ≡ block_hash b
      → Minted l n.db (publish_block b n).1.db
  publish_block-Minted l b n distinct listed among named =
      let d₁ = (store_block b n.db).1 in
      let d₂ = (execute_transactions b.transaction d₁).1 in
      let kept = total-cong l (accounts d₁) (accounts n.db) (store_block-accounts b n.db named) in
      subst (Minted l n.db) (sym (publish_block-db b n)) (
        then-Minted l n.db d₂ _
          (execute_transactions_conserves l b.transaction d₁ distinct among ∙ kept)
          (reward_to_miner-Minted l b.miner d₂ distinct listed))

  next_block-named :
      (now : ℕ) (node_account : Bytes) (transactions : List Transaction) (root : Bytes)
      (last : Block)
      → let b = next_block now node_account transactions root last in
        (b.hash ≡ block_hash b) × (b.miner ≡ node_account) × (b.transaction ≡ transactions)
  unfolding next_block block_hash
  next_block-named now node_account transactions root last = (refl, refl, refl)

  create_from-Minted :
      (l : List Bytes) (now : ℕ) (node_account : Bytes) (block_txs : List Transaction) (n : Node)
      → IsDistinct l
      → contains node_account l ≡ true
      → IsAmong l block_txs
      → Minted l n.db (create_from now node_account block_txs n).1.db
  unfolding create_from
  create_from-Minted l now node_account [] n distinct listed among = inl refl
  create_from-Minted l now node_account (tx ∷ block_txs) n distinct listed among =
      elim (Option-cases (create_new_block now node_account (tx ∷ block_txs) n.db)) [
        | inl failed ↦ rw (failed, create_from) (inl refl)
        | inr (b, made) ↦
            let (root, built, same) =
              create_new_block-some now node_account (tx ∷ block_txs) n.db made in
            let (named, miner, txs) =
              next_block-named now node_account (tx ∷ block_txs) root (last_block_left n.db) in
            rw (made, create_from)
              (publish_block-Minted l b n distinct
                (subst (λ x. contains x.miner l ≡ true) (sym same) (rw miner listed))
                (subst (λ x. IsAmong l x.transaction) (sym same)
                  (subst (IsAmong l) (sym txs) among))
                (subst (λ x. x.hash ≡ block_hash x) (sym same) named))
      ]

  -- A tick of the block creator makes no coins, or 1000: over any distinct addresses with the node's
  -- and those of the waiting transactions, which go from one account to another, the sum of the
  -- balances stays as it was or goes up by the reward.
  pub create_block-Minted :
      (l : List Bytes) (now : ℕ) (node_account : Bytes) (order : Queue → List Bytes) (n : Node)
      → IsValid n.mempool
      → IsDistinct l
      → contains node_account l ≡ true
      → WaitsWithin l n.mempool
      → Minted l n.db (create_block now node_account order n).1.db
  unfolding create_block
  create_block-Minted l now node_account order n v distinct listed within =
      let mp₁ = sync_future_to_pending n.mempool in
      let v₁ = (sync_future_to_pending-waiting n.mempool v).0 in
      let taken =
        (extract_transactions_for_block-IsTaken transactions_per_block (order mp₁.pending) mp₁
          v₁.pending_keyed).0 in
      elim (Bool-cases (ltb (total_transactions mp₁.pending) transactions_per_block)) [
        | inl few ↦ rw (few, create_block) (inl refl)
        | inr enough ↦
            rw (enough, create_block)
              (create_from-Minted l now node_account _ _ distinct listed
                (taken-IsAmong l mp₁ _ (sync-WaitsWithin l n.mempool v within) taken.were_pending))
      ]
