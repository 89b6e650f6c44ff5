-- ===== src/Block/Create.antt =====
-- A block that this node creates is one that a node with the same last block accepts.
use simple_blockchain_client.Block.Validate.{IsNext-validates, IsNext}
use simple_blockchain_client.Prelude.Options.{some_cancel}
use simple_blockchain_client.Exec.{ok, Result-cases}
use simple_blockchain_client.Merkle.{build_merkle_tree}
use simple_blockchain_client.Types.{Block, Transaction}
use simple_blockchain_client.Text.{trim_0x, Bytes}
use simple_blockchain_client.Platform.{Json, Crypto, LevelDb}
use simple_blockchain_client.Block.{
  trim_0x, get_last_block, process_transactions_from_block, ok, block_hash, next_block, left_of,
  build_merkle_tree, last_block_left, Block, validate_received_block, parsed_last_block,
  merkle_root_of, create_new_block, Transaction, Bytes, List, Json, trimmed_hashes, Crypto,
  transaction_hashes,
}
use simple_blockchain_client.Prelude.{
  refl, ◌∙◌, ap, sym, inr, inl, Option-cases, ◌<◌, arith, ◌≡◌, List, ◌∷◌, [], ℕ, some,
}

transaction_hashes-trimmed :
    (transactions : List Transaction) {hashes : List Bytes}
    → transaction_hashes transactions ≡ some hashes
    → hashes ≡ trimmed_hashes transactions
unfolding transaction_hashes trimmed_hashes
transaction_hashes-trimmed [] h = ground arith
transaction_hashes-trimmed (tx ∷ transactions) {hashes} h =
    elim (Option-cases (transaction_hashes transactions)) [
      | inl bad ↦ absurd (ground arith)
      | inr (rest, good) ↦
          let same = transaction_hashes-trimmed transactions good in
          let here : some hashes ≡ some (trim_0x tx.hash ∷ rest) = ground arith in
          cc (some_cancel here)
    ]

module _ ⦃L : LevelDb⦄ ⦃C : Crypto⦄ ⦃J : Json⦄ where
  open L use {Db}
  open J use {unmarshal_block, block_left, block_left-ok}

  parsed_last_block-left :
      (d : Db) {last : Block} → parsed_last_block d ≡ some last → last_block_left d ≡ last
  unfolding parsed_last_block last_block_left left_of
  parsed_last_block-left d {last} h = elim (Result-cases (get_last_block d)) [
    | inl (s, there) ↦ rw there (block_left-ok s (ground arith))
    | inr (e, gone) ↦ absurd (ground arith)
  ]

  merkle_root_of-build :
      (transactions : List Transaction) {root : Bytes}
      → merkle_root_of transactions ≡ some root
      → build_merkle_tree (trimmed_hashes transactions) ≡ ok root
  unfolding merkle_root_of
  merkle_root_of-build transactions {root} h =
      elim (Option-cases (transaction_hashes transactions)) [
        | inl bad ↦ absurd (ground arith)
        | inr (hashes, good) ↦
            rw (sym (transaction_hashes-trimmed transactions good))
              (elim (Result-cases (build_merkle_tree hashes)) [
                | inl (r, built) ↦
                    (let same : some r ≡ some root = ground arith in
                      rw built (ap ok (some_cancel same)))
                | inr (e, failed) ↦ absurd (ground arith)
              ])
      ]

  -- The parts of a block that was created.
  pub create_new_block-some :
      (now : ℕ) (node_account : Bytes) (transactions : List Transaction) (d : Db) {b : Block}
      → create_new_block now node_account transactions d ≡ some b
      → (root : Bytes) × (build_merkle_tree (trimmed_hashes transactions) ≡ ok root)
        × (b ≡ next_block now node_account transactions root (last_block_left d))
  unfolding create_new_block
  create_new_block-some now node_account transactions d {b} h =
      elim (Option-cases (parsed_last_block d)) [
        | inl gone ↦ absurd (ground arith)
        | inr (last, there) ↦ elim (Option-cases (merkle_root_of transactions)) [
          | inl bad ↦ absurd (ground arith)
          | inr (root, good) ↦
              let same : some b ≡ some (next_block now node_account transactions root last) =
                ground arith in
              (
                root,
                merkle_root_of-build transactions good,
                some_cancel same
                    ∙ ap (next_block now node_account transactions root)
                        (sym (parsed_last_block-left d there)),
              )
        ]
      ]

  next_block-IsNext :
      (now : ℕ) (node_account : Bytes) (transactions : List Transaction) (root : Bytes) (d : Db)
      → (last_block_left d).timestamp < now
      → build_merkle_tree (trimmed_hashes transactions) ≡ ok root
      → IsNext (next_block now node_account transactions root (last_block_left d)) d
  unfolding next_block block_hash
  next_block-IsNext now node_account transactions root d later built = record {
    later = later;
    parent = refl;
    hash = refl;
    root = built;
  }

  -- On a block that `CreateNewBlock` made after the last block's time, `validateReceivedBlock` on the
  -- same database gives what the check of its transactions gives: every other check passes.
  pub create_new_block-validates :
      (now : ℕ) (node_account : Bytes) (transactions : List Transaction) (d : Db) {b : Block}
      → (last_block_left d).timestamp < now
      → create_new_block now node_account transactions d ≡ some b
      → validate_received_block b d ≡ process_transactions_from_block transactions d
  create_new_block-validates now node_account transactions d later h =
      let (root, built, same) = create_new_block-some now node_account transactions d h in
      let b = next_block now node_account transactions root (last_block_left d) in
      rw same (
        unfold next_block in
        IsNext-validates b d (next_block-IsNext now node_account transactions root d later built))
