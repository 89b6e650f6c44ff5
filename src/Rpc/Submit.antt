-- ===== src/Rpc/Submit.antt =====
-- A transaction that is submitted to the RPC server, and what the processor makes of its message.
use simple_blockchain_client.Account.{get_account}
use simple_blockchain_client.Mempool.Add.{
  Added, SameQueue, Stored, add_locked-Added, later_nonce, next_nonce, refused, same,
}
use simple_blockchain_client.Mempool.{Mempool, add_transaction}
use simple_blockchain_client.Exec.{err, Error, Outcome-cases, ok, Result, Result-cases}
use simple_blockchain_client.Types.{Transaction, IsPlainRaw, RawTransaction}
use simple_blockchain_client.Transaction.{create_transaction}
use simple_blockchain_client.Int.{ℤ}
use simple_blockchain_client.Text.{codes, Bytes}
use simple_blockchain_client.Rpc.{
  reply, send_transaction, codes, raw_of, ok, RawTransaction, keccak256_hex,
  convert_string_to_big_int, ℤ, SendTransactionArgs,
}
use simple_blockchain_client.Chain.{
  keep_transaction, process_transaction, handle_transaction, process_message, blockchain_to_p2p,
  Sent, Node, check_raw_transaction,
}
use simple_blockchain_client.Platform.{Json, Crypto, LevelDb}
use simple_blockchain_client.Prelude.{
  ℕ, ap, inl, inr, refl, arith, ◌++◌, ◌⊎◌, ◌≡◌, List, ◌∷◌, [], some,
}

-- The transaction of a message, whose hash is `0x` and the hash of the message's text.
abbrev pub transaction_of : Bytes → RawTransaction → Transaction
transaction_of hash raw = record {
  hash = codes "0x" ++ hash;
  from = raw.from;
  to = raw.to;
  value = raw.value;
  nonce = raw.nonce;
  signature = raw.signature;
}

abbrev pub SameQueues : Mempool → Mempool → Type 0
SameQueues mp mp' = SameQueue mp.pending mp'.pending × SameQueue mp.future mp'.future

-- One of the two queues has got the transaction.
abbrev pub IsTaken : Transaction → Mempool → Mempool → Type 0
IsTaken tx mp mp' =
    (Stored tx mp.pending mp'.pending × SameQueue mp.future mp'.future)
    ⊎ (SameQueue mp.pending mp'.pending × Stored tx mp.future mp'.future)

-- An answer is an error with the queues as they were, or a success with the transaction taken.
abbrev Answered : Transaction → Mempool → Result (Unit {0}) → Mempool → Type 0
Answered tx mp r mp' =
    ((e : Error) × (r ≡ err e) × SameQueues mp mp') ⊎ ((r ≡ ok tt) × IsTaken tx mp mp')

Added-Answered :
    (db_nonce : ℕ) (tx : Transaction) (mp : Mempool) (r : Result (Unit {0})) (mp' : Mempool)
    → Added db_nonce tx mp r mp'
    → Answered tx mp r mp'
Added-Answered db_nonce tx mp r mp' (next_nonce done fresh next p f) = inr (done, inl (p, f))
Added-Answered db_nonce tx mp r mp' (later_nonce done fresh later not_next p f) =
    inr (done, inr (p, f))
Added-Answered db_nonce tx mp r mp' (refused e failed why p f) = inl (e, failed, (p, f))

module _ ⦃L : LevelDb⦄ ⦃J : Json⦄ where
  open L use {Db}

  add_transaction-Answered :
      (tx : Transaction) (d : Db) (mp : Mempool)
      → Answered tx mp (add_transaction tx d mp).0 (add_transaction tx d mp).1
  unfolding add_transaction
  add_transaction-Answered tx d mp = elim (Result-cases (get_account tx.from d).0) [
    | inl (a, known) ↦
        rw (known, add_transaction)
          (Added-Answered a.nonce tx mp _ _ (add_locked-Added a.nonce tx mp))
    | inr (e, missing) ↦
        rw (missing, add_transaction) (inl (e, refl, (same mp.pending, same mp.future)))
  ]

module _ ⦃L : LevelDb⦄ ⦃C : Crypto⦄ ⦃J : Json⦄ where
  open L use {Db}
  open J use {marshal_raw_transaction}

  -- A transaction that passed the checks is the one of the message, and so is its JSON form.
  check_raw_transaction-ok :
      (raw : RawTransaction) (d : Db) {tx : Transaction} {json : Bytes} {d' : Db}
      → check_raw_transaction raw d ≡ (ok (tx, json), d')
      → (json ≡ marshal_raw_transaction raw)
        × (tx ≡ transaction_of (keccak256_hex (marshal_raw_transaction raw)) raw)
  unfolding check_raw_transaction create_transaction keccak256_hex
  check_raw_transaction-ok raw d h = ground arith

  -- The end of the processor's work on a message of a transaction.
  pub IsProcessed : Bytes → Transaction → Node → List Sent × Node → Type 0
  IsProcessed message tx n r =
      ((r.0 ≡ []) × SameQueues n.mempool r.1.mempool)
      ⊎ ((r.0 ≡ blockchain_to_p2p message ∷ [])
          × IsTaken tx n.mempool r.1.mempool
          × (add_transaction tx r.1.db n.mempool ≡ (ok tt, r.1.mempool)))

  -- What the last step of `ProcessTransaction` gives, if the checks gave the transaction and the JSON.
  keep_transaction-kept :
      (tx : Transaction) (json : Bytes) (d : Db) (mp : Mempool)
      → let o = keep_transaction (ok (tx, json), d) mp in
        ((e : Error) × (o.0 ≡ err e) × SameQueues mp o.1.mempool)
        ⊎ ((o.0 ≡ ok json)
            × IsTaken tx mp o.1.mempool
            × (add_transaction tx o.1.db mp ≡ (ok tt, o.1.mempool)))
  unfolding keep_transaction
  keep_transaction-kept tx json d mp = elim (add_transaction-Answered tx d mp) [
    | inl (e, failed, kept) ↦ inl (e, rw (failed, keep_transaction) refl, kept)
    | inr (added, taken) ↦
        inr (
          rw (added, keep_transaction) refl,
          taken,
          ap (λ r. (r, (add_transaction tx d mp).1)) added,
        )
  ]

  process_transaction-plain :
      (raw : RawTransaction) (n : Node)
      → IsPlainRaw raw
      → process_transaction (marshal_raw_transaction raw) n
        ≡ keep_transaction (check_raw_transaction raw n.db) n.mempool
  unfolding process_transaction
  process_transaction-plain raw n plain =
      rw (J.raw_transaction_round_trip raw plain, process_transaction) refl

  process_transaction-kept :
      (raw : RawTransaction) (n : Node)
      → IsPlainRaw raw
      → let json = marshal_raw_transaction raw in
        let o = process_transaction json n in
        let tx = transaction_of (keccak256_hex json) raw in
        ((e : Error) × (o.0 ≡ err e) × SameQueues n.mempool o.1.mempool)
        ⊎ ((o.0 ≡ ok json)
            × IsTaken tx n.mempool o.1.mempool
            × (add_transaction tx o.1.db n.mempool ≡ (ok tt, o.1.mempool)))
  process_transaction-kept raw n plain =
      rw (process_transaction-plain raw n plain)
        (elim (Outcome-cases (check_raw_transaction raw n.db)) [
          | inr (e, d, failed) ↦ rw failed (
              unfold keep_transaction in
              inl (e, refl, (same n.mempool.pending, same n.mempool.future)))
          | inl ((tx, json), d, checked) ↦
              let (written, named) = check_raw_transaction-ok raw n.db checked in
              let tx' = transaction_of (keccak256_hex (marshal_raw_transaction raw)) raw in
              let passed : check_raw_transaction raw n.db
                  ≡ (ok (tx', marshal_raw_transaction raw), d) =
                cc (checked, written, named) in
              rw passed (keep_transaction-kept tx' (marshal_raw_transaction raw) d n.mempool)
        ])

  handle_transaction-IsProcessed :
      (raw : RawTransaction) (n : Node)
      → IsPlainRaw raw
      → let json = marshal_raw_transaction raw in
        IsProcessed
          (0x01 ∷ json)
          (transaction_of (keccak256_hex json) raw)
          n
          (handle_transaction json n)
  unfolding handle_transaction IsProcessed
  handle_transaction-IsProcessed raw n plain = elim (process_transaction-kept raw n plain) [
    | inl (e, h, kept) ↦ inl (rw (h, handle_transaction) refl, kept)
    | inr (h, taken, added) ↦ inr (rw (h, handle_transaction) refl, taken, added)
  ]

  -- The message of `SendTransaction`, when its value is a decimal number and its texts are ASCII: the
  -- processor either leaves both queues of the mempool as they were and sends nothing, or adds to one of
  -- them the transaction with the call's fields, whose hash is `0x` and the hash of the reply, as
  -- `AddTransaction` does, and passes the same message on to the peers.
  pub send_transaction-IsProcessed :
      (args : SendTransactionArgs) (value : ℤ) (n : Node)
      → convert_string_to_big_int args.value ≡ some value
      → IsPlainRaw (raw_of args value)
      → (hash : Bytes) × (message : Bytes) × (send_transaction args ≡ (reply hash, message ∷ []))
        × IsProcessed message
            (transaction_of hash (raw_of args value))
            n
            (process_message message n)
  send_transaction-IsProcessed args value n parsed plain =
      let raw = raw_of args value in
      let json = marshal_raw_transaction raw in
      (
        keccak256_hex json,
        0x01 ∷ json,
        unfold send_transaction in rw (parsed, send_transaction) refl,
        unfold process_message in handle_transaction-IsProcessed raw n plain,
      )
