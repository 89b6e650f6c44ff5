-- ===== src/Transaction.antt =====
-- blockchain/transaction.go: validation, creation and execution of transactions.
pub mod Refine
pub mod Execute
pub mod Supply
pub mod Fields
use simple_blockchain_client.Account.Address.{is_valid_address, public_key_to_address}
use simple_blockchain_client.Account.{get_account, check_account_state, store_account, account_key}
use simple_blockchain_client.Types.{succ_u64, value_string, RawTransaction, Transaction, Account}
use simple_blockchain_client.Int.{ltb_ℤ, ◌+ℤ◌, ◌-ℤ◌, pos, negsuc, ℤ}
use simple_blockchain_client.Exec.{
  write_failed, commit, insufficient_funds, raise_if, panic, or_raise, invalid_value, ◌>>=◌,
  invalid_from, db_not_found, raise, invalid_to, lift, invalid_nonce, ◌>>◌, signature_rejected,
  missing_fields, pure, ok, signature_format, recover_failed, Exec, err, Result,
}
use simple_blockchain_client.Text.{equal_fold, codes, is_empty, Bytes}
use simple_blockchain_client.Platform.{Batch, Json, LevelDb, Crypto}
use simple_blockchain_client.Prelude.{
  ltb, ◌∷◌, ◌||◌, ◌++◌, if◌then◌else◌, List, Bool, Option, [], zero, suc, ℕ, none, some, true,
  false,
}
use simple_blockchain_client.Text.Hex
use simple_blockchain_client.Text.Decimal

-- `strconv.Atoi` succeeded with a value above zero.
abbrev pub is_positive : Option ℤ → Bool
is_positive none = false
is_positive (some (negsuc n)) = false
is_positive (some (pos zero)) = false
is_positive (some (pos (suc n))) = true

-- `ValidateTransactionFields`: the test of a `uint64` below zero never holds.
unfoldable pub validate_transaction_fields : Bytes → Bytes → Bytes → Bytes → ℕ → Result (Unit {0})
validate_transaction_fields from to value signature nonce =
    if is_empty from || (is_empty to || (is_empty value || is_empty signature))
    then err missing_fields
    else if is_positive (Decimal.atoi value)
    then (if ltb nonce 0
        then err invalid_nonce
        else if is_valid_address from
        then (if is_valid_address to then ok tt else err invalid_to)
        else err invalid_from)
    else err invalid_value

-- The text that is signed.
unfoldable pub signed_message : Bytes → Bytes → Option ℤ → ℕ → Bytes
signed_message from to value nonce = from ++ (to ++ (value_string value ++ Decimal.format nonce))

module _ ⦃C : Crypto⦄ where
  open C use {keccak256, ecrecover}

  -- `VerifySignature`: the recovered address is compared without regard to case.
  unfoldable pub verify_signature : Bytes → Bytes → Bytes → Result Bool
  verify_signature message_hash signature from_address = elim (ecrecover message_hash signature) [
    | none ↦ err recover_failed
    | some pub_key ↦ elim (public_key_to_address pub_key) [
      | err e ↦ err e
      | ok address ↦ ok (equal_fold address from_address)
    ]
  ]

  -- The steps that `ProcessTransaction` and `ProcessTransactionFromBlock` have in common: the
  -- signature is decoded and verified.
  unfoldable pub check_signature : Bytes → Bytes → Option ℤ → ℕ → Bytes → Result (Unit {0})
  check_signature from to value nonce signature =
      let message_hash = keccak256 (signed_message from to value nonce) in
      elim (Hex.decode signature) [
        | none ↦ err signature_format
        | some decoded ↦ elim (verify_signature message_hash decoded from) [
          | err e ↦ err e
          | ok false ↦ err signature_rejected
          | ok true ↦ ok tt
        ]
      ]

module _ ⦃C : Crypto⦄ ⦃J : Json⦄ where
  open C use {keccak256}
  open J use {marshal_raw_transaction}

  -- `CreateTransaction`: the transaction and its JSON form.
  unfoldable pub create_transaction : Bytes → Bytes → Bytes → Option ℤ → ℕ → Transaction × Bytes
  create_transaction from to signature value nonce =
      let raw_transaction : RawTransaction = record {
        from = from;
        to = to;
        value = value;
        nonce = nonce;
        signature = signature;
      } in
      let json = marshal_raw_transaction raw_transaction in
      (
        record {
          hash = codes "0x" ++ Hex.encode (keccak256 json);
          from = from;
          to = to;
          value = value;
          nonce = nonce;
          signature = signature;
        },
        json,
      )

module _ ⦃L : LevelDb⦄ ⦃J : Json⦄ where
  open L use {Db, get, put, write}
  open J use {marshal_account}

  -- The receiver's account. Only `ErrNotFound` itself makes the loop create it; `GetAccount` never
  -- returns that error, since it wraps every error in a new one.
  unfoldable pub receiver : Result Account → Bytes → Exec Db Account
  receiver (ok account) address = pure account
  receiver (err db_not_found) address = do store_account address; get_account address
  receiver (err e) address = raise e

  -- What one round writes: the sender's entry first, so that the receiver's entry is the one that
  -- stays where the two are the same account.
  unfoldable pub transfer_batch : Transaction → ℤ → Account → Account → Batch
  transfer_batch tx value from_account to_account =
      (
        account_key tx.from,
        marshal_account (record from_account {
          balance = from_account.balance -ℤ value;
          nonce = succ_u64 from_account.nonce;
        }),
      )
      ∷ (
        account_key tx.to,
        marshal_account (record to_account { balance = to_account.balance +ℤ value }),
      )
      ∷ []

  unfoldable pub transfer : Transaction → Account → Account → Exec Db Unit
  transfer tx from_account to_account = do
    value ← or_raise tx.value panic
    raise_if (ltb_ℤ from_account.balance value) insufficient_funds
    commit (write (transfer_batch tx value from_account to_account)) write_failed

  -- One round of the loop of `ExecuteTransactions`.
  unfoldable pub execute_transaction : Transaction → Exec Db Unit
  execute_transaction tx = do
    from_account ← get_account tx.from
    found_account ← λ d. (ok (get_account tx.to d).0, d)
    to_account ← receiver found_account tx.to
    transfer tx from_account to_account

  -- `ExecuteTransactions`: the first error ends the loop, and earlier rounds stay written.
  unfoldable pub execute_transactions : List Transaction → Exec Db Unit
  execute_transactions [] = pure tt
  execute_transactions (tx ∷ transactions) =
      let rest = execute_transactions transactions in execute_transaction tx >> rest

module _ ⦃L : LevelDb⦄ ⦃C : Crypto⦄ ⦃J : Json⦄ where
  open L use {Db}

  -- `ProcessTransactionFromBlock`: the hash that the block gives is returned as it stands.
  unfoldable pub process_transaction_from_block : Transaction → Exec Db Bytes
  process_transaction_from_block tx = do
    lift (validate_transaction_fields tx.from tx.to (value_string tx.value) tx.signature tx.nonce)
    lift (check_signature tx.from tx.to tx.value tx.nonce tx.signature)
    check_account_state tx.from tx.to (value_string tx.value) tx.nonce
    pure tx.hash
