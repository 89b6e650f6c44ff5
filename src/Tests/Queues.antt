-- ===== src/Tests/Queues.antt =====
-- The mempool with pending and future transactions of two accounts.
use simple_blockchain_client.Prelude.Options.{some_cancel}
use simple_blockchain_client.Mempool.Promote.{Each}
use simple_blockchain_client.Mempool.Full.{extract_transactions_for_block_full}
use simple_blockchain_client.Int.{pos}
use simple_blockchain_client.Mempool.Clean.{clean_mempool_after_receive_block_exact, uses}
use simple_blockchain_client.Tests.Codec.{get_value, put_value}
use simple_blockchain_client.Mempool.Keeps.{add_transaction-IsValid}
use simple_blockchain_client.Text.{Bytes}
use simple_blockchain_client.Mempool.Extract.{extract_transactions_for_block-IsTaken, IsTaken}
use simple_blockchain_client.Tests.Ledger.{ledger, payment, alice}
use simple_blockchain_client.Map.{insert, lookup}
use simple_blockchain_client.Account.{get_account, account_key}
use simple_blockchain_client.Types.{u64, Transaction}
use simple_blockchain_client.Mempool.View.{IsKeyed, init_mempool-IsValid, IsValid}
use simple_blockchain_client.Mempool.Sync.{HasRoom, sync_future_to_pending-waiting, waiting}
use simple_blockchain_client.Mempool.Add.{add_transaction-Added, Added}
use simple_blockchain_client.Mempool.{
  Table, highest, ensure_table, add_ready, add_locked, sync_future_to_pending, init_mempool,
  add_transaction, table, extract_transactions_for_block, clean_mempool_after_receive_block,
  Mempool,
}
use simple_blockchain_client.Account.View.{accounts}
use simple_blockchain_client.Tests.World.{get_entry, entries_db, codec_json}
use simple_blockchain_client.Prelude.{
  ==_iff, inr, inl, ◌+◌, sym, Bool, subst, refl, nat_eq, bytes_eq, Bool-cases, All, ◌==◌, ◌<◌,
  arith, ◌≤◌, if◌then◌else◌, ◌≡◌, length, ◌∷◌, [], ℕ, none, some, true, false,
}

abbrev pub fourth : Transaction
fourth = record payment { nonce = 4 }

abbrev pub fifth : Transaction
fifth = record payment { nonce = 5 }

abbrev pub seventh : Transaction
seventh = record payment { nonce = 7 }

abbrev pub queues : Mempool
queues = record {
  pending = (alice, (4, fourth) ∷ []) ∷ [];
  future = (alice, (5, fifth) ∷ (7, seventh) ∷ []) ∷ [];
}

alice-there : accounts ledger alice ≡ some (record { balance = pos 100; nonce = 3 })
unfolding accounts account_key get_entry lookup put_value get_value
alice-there = refl

queues-pending :
    (a : Bytes) → table a queues.pending ≡ (if alice == a then (4, fourth) ∷ [] else [])
unfolding table lookup
queues-pending a = ground (arith, Bool-cases (alice == a))

queues-future :
    (a : Bytes)
    → table a queues.future ≡ (if alice == a then (5, fifth) ∷ (7, seventh) ∷ [] else [])
unfolding table lookup
queues-future a = ground (arith, Bool-cases (alice == a))

-- The queues come from three calls of `AddTransaction`.
abbrev first : Mempool
first = (add_transaction fifth ledger init_mempool).1

abbrev second : Mempool
second = (add_transaction seventh ledger first).1

queues-made : (add_transaction fourth ledger second).1 ≡ queues
unfolding add_transaction add_locked add_ready ensure_table highest table get_account account_key
    get_entry lookup insert put_value get_value
queues-made = refl

pub queues-IsValid : IsValid queues
queues-IsValid = subst IsValid queues-made (
    add_transaction-IsValid fourth ledger second (omega arith) (
      add_transaction-IsValid seventh ledger first (omega arith)
        (add_transaction-IsValid fifth ledger init_mempool (omega arith) init_mempool-IsValid)))

module _ (P : ℕ → Transaction → Type 0) where
  none-Each : Each P []
  unfolding lookup
  none-Each k x h = cc

  cons-Each : (n : ℕ) (tx : Transaction) (t : Table) → P n tx → Each P t → Each P ((n, tx) ∷ t)
  unfolding lookup
  cons-Each n tx t here rest k x h = elim (Bool-cases (n == k)) [
    | inl same ↦
        let found : some tx ≡ some x = ground arith in
        subst (λ y. P k y) (some_cancel found) (subst (λ m. P m tx) ((==_iff n k).0 same) here)
    | inr other ↦ rest k x (ground arith)
  ]

  if-Each : (c : Bool) (t : Table) → Each P t → Each P (if c then t else [])
  if-Each true t all = all
  if-Each false t all = none-Each

  pub pending-Each : P 4 fourth → (a : Bytes) → Each P (table a queues.pending)
  pending-Each h₄ a =
      subst (Each P) (sym (queues-pending a))
        (if-Each (alice == a) ((4, fourth) ∷ []) (cons-Each 4 fourth [] h₄ none-Each))

  pub future-Each : P 5 fifth → P 7 seventh → (a : Bytes) → Each P (table a queues.future)
  future-Each h₅ h₇ a = subst (Each P) (sym (queues-future a)) (
      if-Each (alice == a) ((5, fifth) ∷ (7, seventh) ∷ [])
        (cons-Each 5 fifth ((7, seventh) ∷ []) h₅ (cons-Each 7 seventh [] h₇ none-Each)))

pending-Room : HasRoom queues.pending
pending-Room = pending-Each (λ k x. k + 1 < u64) (omega arith)

future-Room : HasRoom queues.future
future-Room = future-Each (λ k x. k + 1 < u64) (omega arith) (omega arith)

pending-IsKeyed : IsKeyed queues.pending
pending-IsKeyed = let v = queues-IsValid in v.pending_keyed

add_transaction-Added_example :
    Added 3 fourth init_mempool
      (add_transaction fourth ledger init_mempool).0
      (add_transaction fourth ledger init_mempool).1
add_transaction-Added_example = add_transaction-Added fourth ledger init_mempool alice-there

sync_future_to_pending-waiting_example :
    IsValid (sync_future_to_pending queues)
    × ((b : Bytes) (k : ℕ) → waiting (sync_future_to_pending queues) b k ≡ waiting queues b k)
sync_future_to_pending-waiting_example = sync_future_to_pending-waiting queues queues-IsValid

extract_transactions_for_block-IsTaken_example :
    let (block_txs, mp') = extract_transactions_for_block 1 (alice ∷ []) queues in
    IsTaken queues.pending block_txs mp'.pending × (mp'.future ≡ queues.future)
extract_transactions_for_block-IsTaken_example =
    extract_transactions_for_block-IsTaken 1 (alice ∷ []) queues pending-IsKeyed

extract_transactions_for_block_full_example :
    let (block_txs, mp') = extract_transactions_for_block 2 (alice ∷ []) queues in
    (length block_txs ≤ 2)
    × (length block_txs < 2 → All (λ a. table a mp'.pending ≡ []) (alice ∷ []))
extract_transactions_for_block_full_example =
    extract_transactions_for_block_full 2 (alice ∷ []) queues

clean_mempool_after_receive_block_exact_example :
    let mp' = clean_mempool_after_receive_block (fourth ∷ seventh ∷ []) queues in
    (lookup 7 (table alice mp'.pending) ≡ (
      if uses (fourth ∷ seventh ∷ []) alice 7 then none else lookup 7 (table alice queues.pending)))
    × (lookup 7 (table alice mp'.future) ≡ (
        if uses (fourth ∷ seventh ∷ []) alice 7
        then none
        else lookup 7 (table alice queues.future)))
clean_mempool_after_receive_block_exact_example =
    clean_mempool_after_receive_block_exact (fourth ∷ seventh ∷ []) queues alice 7
