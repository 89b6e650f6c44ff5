-- ===== src/Mempool/Clean.antt =====
-- `CleanMempoolAfterReceiveBlock` removes exactly the nonces of the block.
use simple_blockchain_client.Mempool.View.{table-drop_nonce}
use simple_blockchain_client.Map.{lookup-erase, lookup}
use simple_blockchain_client.Types.{Transaction}
use simple_blockchain_client.Text.{Bytes}
use simple_blockchain_client.Mempool.{
  drop_nonce, table, lookup, Mempool, Bool, Transaction, Queue, clean_mempool_after_receive_block,
}
use simple_blockchain_client.Prelude.{
  inr, refl, inl, nat_eq, Bool-cases, bytes_eq, arith, ◌||◌, if◌then◌else◌, ◌≡◌, ◌&&◌, ◌==◌, Bool,
  List, ◌∷◌, [], ℕ, none, false,
}

-- Some transaction of the block has this sender and this nonce.
abbrev pub uses : List Transaction → Bytes → ℕ → Bool
uses [] a k = false
uses (tx ∷ block_txs) a k = (tx.from == a && tx.nonce == k) || uses block_txs a k

drop_nonce-lookup :
    (b : Bytes) (nonce : ℕ) (q : Queue) (a : Bytes) (k : ℕ)
    → lookup k (table a (drop_nonce b nonce q))
      ≡ (if b == a && nonce == k then none else lookup k (table a q))
drop_nonce-lookup b nonce q a k = rw (table-drop_nonce a b nonce q) (elim (Bool-cases (b == a)) [
  | inl same ↦ rw (same, lookup-erase nonce k (table a q))
  | inr other ↦ rw other
])

-- After a block is received each queue has what it had, less the transactions of a sender and a nonce
-- of the block.
pub clean_mempool_after_receive_block_exact :
    (block_txs : List Transaction) (mp : Mempool) (a : Bytes) (k : ℕ)
    → let mp' = clean_mempool_after_receive_block block_txs mp in
      (lookup k (table a mp'.pending)
        ≡ (if uses block_txs a k then none else lookup k (table a mp.pending)))
      × (lookup k (table a mp'.future)
          ≡ (if uses block_txs a k then none else lookup k (table a mp.future)))
unfolding clean_mempool_after_receive_block
clean_mempool_after_receive_block_exact [] mp a k = (refl, refl)
clean_mempool_after_receive_block_exact (tx ∷ block_txs) mp a k =
    let mp₁ : Mempool = record {
      pending = drop_nonce tx.from tx.nonce mp.pending;
      future = drop_nonce tx.from tx.nonce mp.future;
    } in
    let (p, f) = clean_mempool_after_receive_block_exact block_txs mp₁ a k in
    (
      ground (arith, p, drop_nonce-lookup tx.from tx.nonce mp.pending a k),
      ground (arith, f, drop_nonce-lookup tx.from tx.nonce mp.future a k),
    )
