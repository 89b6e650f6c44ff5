-- ===== src/Block/Validate.antt =====
-- What `validateReceivedBlock` accepts.
use simple_blockchain_client.Transaction.{process_transaction_from_block}
use simple_blockchain_client.Merkle.{build_merkle_tree}
use simple_blockchain_client.Transaction.Fields.{process_transaction_from_block_sound, IsVerified}
use simple_blockchain_client.Exec.{
  merkle_mismatch, block_hash_mismatch, lift, raise_if-ok, raise_if, stale_timestamp, continue-ok,
  ok, err,
}
use simple_blockchain_client.Types.{Transaction, Block}
use simple_blockchain_client.Block.{
  merkle_mismatch, block_hash_mismatch, true, false, lift, trimmed_hashes,
  process_transaction_from_block, raise_if, build_merkle_tree, stale_timestamp, block_hash, ok, err,
  last_block_left, Transaction, validate_received_block, validate_block_with_prev_block,
  process_transactions_from_block,
}
use simple_blockchain_client.Platform.{Json, Crypto, LevelDb}
use simple_blockchain_client.Prelude.{
  ==_refl, leb-false, true, false, ◌==◌, if◌then◌else◌, sym, ◌∙◌, bytes_eq, ap, ==_iff, subst,
  arith, ◌<◌, ◌≤◌, ◌≡◌, List, ◌∷◌, [],
}

module _ ⦃L : LevelDb⦄ ⦃C : Crypto⦄ ⦃J : Json⦄ where
  open L use {Db}

  -- The transactions of a block verified one after the other; each may add its receiver's account.
  pub data Verified : List Transaction → Db → Db → Type 0 where
    none_left : {d : Db} → Verified [] d d
    next :
        {tx : Transaction} {transactions : List Transaction} {d d₁ d₂ : Db}
        → IsVerified tx d d₁
        → Verified transactions d₁ d₂
        → Verified (tx ∷ transactions) d d₂

  pub process_transactions_from_block-Verified :
      (transactions : List Transaction) (d : Db) {d' : Db}
      → process_transactions_from_block transactions d ≡ (ok tt, d')
      → Verified transactions d d'
  unfolding process_transactions_from_block
  process_transactions_from_block-Verified [] d h =
      subst (Verified [] d) (ap (λ o. o.1) h) none_left
  process_transactions_from_block-Verified (tx ∷ transactions) d h =
      let (hash, d₁, first, rest) = continue-ok (process_transaction_from_block tx d) _ h in
      next (process_transaction_from_block_sound tx d first).1
        (process_transactions_from_block-Verified transactions d₁ rest)

  -- A block that follows the last one, with the hash of its header and the root of its transactions.
  pub record IsNext (b : Block) (d : Db) : Type 0 where
    pub later : (last_block_left d).timestamp < b.timestamp
    pub parent : b.parent_hash ≡ (last_block_left d).hash
    pub hash : b.hash ≡ block_hash b
    pub root : build_merkle_tree (trimmed_hashes b.transaction) ≡ ok b.merkle_root

  validate_block_with_prev_block-ok :
      (b : Block) (d : Db) {d' : Db}
      → validate_block_with_prev_block b d ≡ (ok tt, d')
      → ((last_block_left d).timestamp < b.timestamp)
        × (b.parent_hash ≡ (last_block_left d).hash)
        × (d' ≡ d)
  unfolding validate_block_with_prev_block
  validate_block_with_prev_block-ok b d h =
      ground (arith, ==_iff (last_block_left d).hash b.parent_hash)

  -- `validateReceivedBlock` accepts a block only if it is later than the last block and names its
  -- hash, if its own hash is that of its header, if its Merkle root is that of its transactions'
  -- hashes, and if each of its transactions is verified; only receivers' accounts may be added.
  pub validate_received_block_sound :
      (b : Block) (d : Db) {d' : Db}
      → validate_received_block b d ≡ (ok tt, d')
      → IsNext b d × Verified b.transaction d d'
  unfolding validate_received_block
  validate_received_block_sound b d {d'} h =
      let (u, d₁, prev, h₁) = continue-ok (validate_block_with_prev_block b d) _ h in
      let (later, parent, s₁) = validate_block_with_prev_block-ok b d prev in
      let hash_differs = if b.hash == block_hash b then false else true in
      let (v, d₂, same_hash, h₂) =
        continue-ok (raise_if hash_differs block_hash_mismatch d₁) _ h₁ in
      let (hash_ok, s₂) = raise_if-ok hash_differs block_hash_mismatch d₁ same_hash in
      let (merkle_root, d₃, built, h₃) =
        continue-ok (lift (build_merkle_tree (trimmed_hashes b.transaction)) d₂) _ h₂ in
      let root_differs = if b.merkle_root == merkle_root then false else true in
      let (w, d₄, same_root, h₄) = continue-ok (raise_if root_differs merkle_mismatch d₃) _ h₃ in
      let (root_ok, s₄) = raise_if-ok root_differs merkle_mismatch d₃ same_root in
      let root_eq : b.merkle_root ≡ merkle_root =
        ground (arith, ==_iff b.merkle_root merkle_root) in
      (
        record {
          later = later;
          parent = parent;
          hash = ground (arith, ==_iff b.hash (block_hash b));
          root = rw root_eq (ap (λ o. o.0) built);
        },
        subst (λ s. Verified b.transaction s d') (s₄ ∙ (sym (ap (λ o. o.1) built) ∙ (s₂ ∙ s₁)))
            (process_transactions_from_block-Verified b.transaction d₄ h₄),
      )

  -- On such a block everything depends on its transactions.
  pub IsNext-validates :
      (b : Block) (d : Db)
      → IsNext b d
      → validate_received_block b d ≡ process_transactions_from_block b.transaction d
  unfolding validate_received_block validate_block_with_prev_block
  IsNext-validates b d x = rw (
    leb-false b.timestamp (last_block_left d).timestamp x.later,
    (==_iff (last_block_left d).hash b.parent_hash).1 (sym x.parent),
    (==_iff b.hash (block_hash b)).1 x.hash,
    x.root,
    ==_refl b.merkle_root,
  )

  -- No block that is not later than the last one is accepted, and nothing is written for it.
  pub validate_received_block-stale :
      (b : Block) (d : Db)
      → b.timestamp ≤ (last_block_left d).timestamp
      → validate_received_block b d ≡ (err stale_timestamp, d)
  unfolding validate_received_block validate_block_with_prev_block
  validate_received_block-stale b d h = ground arith
