-- ===== src/Chain/Kept.antt =====
-- What leaves the entry of the last block as it was, whatever its outcome.
use simple_blockchain_client.Chain.Steady.{
  get_account-state, account_exists-state, validate_received_block_keeps, then_keeps,
  check_raw_transaction_keeps, IsSteady,
}
use simple_blockchain_client.Account.Address.{is_valid_address}
use simple_blockchain_client.Account.View.{account_key-lastblock}
use simple_blockchain_client.Transaction.Execute.{
  execute_transaction_atomic, execute_transaction-Executed,
}
use simple_blockchain_client.Block.Reward.{rewarded}
use simple_blockchain_client.Types.{Transaction, RawTransaction, Block, Account}
use simple_blockchain_client.Transaction.{execute_transaction, execute_transactions}
use simple_blockchain_client.Exec.{
  invalid_miner, Outcome-cases, raise_if-state, raise_if, continue_keeps, commit, Error,
}
use simple_blockchain_client.Chain.{
  commit, Transaction, RawTransaction, List, Bool, Block, check_raw_transaction,
}
use simple_blockchain_client.Block.{validate_received_block, reward_to_miner, ensure_miner}
use simple_blockchain_client.Account.{
  account_key, update_account, store_account, get_account, account_exists,
}
use simple_blockchain_client.Text.{codes, Bytes}
use simple_blockchain_client.Platform.{Json, Crypto, LevelDb}
use simple_blockchain_client.Prelude.{
  bytes_eq, if◌then◌else◌, inr, inl, Option-cases, refl, List, Bool, ◌≡◌, ◌∙◌, ◌∷◌, [], true, false,
}

module _ ⦃L : LevelDb⦄ where
  open L use {Db, get, put, get-put}

  abbrev pub LastKept : Db → Db → Type 0
  LastKept d d' = get d' (codes "lastblock") ≡ get d (codes "lastblock")

  pub LastKept-trans : (d d₁ d₂ : Db) → LastKept d d₁ → LastKept d₁ d₂ → LastKept d d₂
  LastKept-trans d d₁ d₂ first second = second ∙ first

  put-LastKept :
      (address v : Bytes) (e : Error) (d : Db)
      → LastKept d (commit (put (account_key address) v) e d).1
  put-LastKept address v e d = elim (Option-cases (put (account_key address) v d)) [
    | inl refused ↦ rw (refused, commit)
    | inr (d', done) ↦
        rw (done, commit)
          (rw (get-put _ _ d done (codes "lastblock"), account_key-lastblock address))
  ]

module _ ⦃L : LevelDb⦄ ⦃J : Json⦄ where
  open L use {Db, get, put}

  LastKept-IsSteady : IsSteady LastKept
  LastKept-IsSteady = record {
    still = λ d. refl;
    trans = LastKept-trans;
    added = λ address d d' missing new. new.last;
  }

  store_account-LastKept : (address : Bytes) (d : Db) → LastKept d (store_account address d).1
  unfolding store_account
  store_account-LastKept address d =
      continue_keeps LastKept LastKept-trans d _ _ (put-LastKept address _ _ d) (λ u t. refl)

  update_account-LastKept :
      (address : Bytes) (a : Account) (d : Db) → LastKept d (update_account address a d).1
  unfolding update_account
  update_account-LastKept address a d = put-LastKept address _ _ d

  ensure_miner-LastKept :
      (to : Bytes) (known : Bool) (d : Db) → LastKept d (ensure_miner to known d).1
  unfolding ensure_miner
  ensure_miner-LastKept to true d = refl
  ensure_miner-LastKept to false d =
      continue_keeps LastKept LastKept-trans d _ _ (store_account-LastKept to d) (λ b t. refl)

  pub reward_to_miner-LastKept : (miner : Bytes) (d : Db) → LastKept d (reward_to_miner miner d).1
  unfolding reward_to_miner
  reward_to_miner-LastKept miner =
      then_keeps LastKept LastKept-IsSteady
        (raise_if (if is_valid_address miner then false else true) invalid_miner) _
        (raise_if-state (if is_valid_address miner then false else true) invalid_miner)
        (λ u.
          then_keeps LastKept LastKept-IsSteady (account_exists miner) _
            (account_exists-state miner)
            (λ known d.
              continue_keeps LastKept LastKept-trans d _ _ (ensure_miner-LastKept miner known d)
                (λ u.
                  then_keeps LastKept LastKept-IsSteady (get_account miner) _
                    (get_account-state miner) (λ a. update_account-LastKept miner (rewarded a)))))

  pub execute_transactions-LastKept :
      (transactions : List Transaction) (d : Db)
      → LastKept d (execute_transactions transactions d).1
  unfolding execute_transactions
  execute_transactions-LastKept [] d = refl
  execute_transactions-LastKept (tx ∷ transactions) d =
      continue_keeps LastKept LastKept-trans d (execute_transaction tx d) _
        (elim (Outcome-cases (execute_transaction tx d)) [
          | inl (u, d', e) ↦ rw e (let x = execute_transaction-Executed tx d e in x.last)
          | inr (error, d', e) ↦ rw e (rw (execute_transaction_atomic tx d e))
        ])
        (λ u. execute_transactions-LastKept transactions)

module _ ⦃L : LevelDb⦄ ⦃C : Crypto⦄ ⦃J : Json⦄ where
  open L use {Db}

  pub validate_received_block-LastKept :
      (b : Block) (d : Db) → LastKept d (validate_received_block b d).1
  validate_received_block-LastKept = validate_received_block_keeps LastKept LastKept-IsSteady

  pub check_raw_transaction-LastKept :
      (raw : RawTransaction) (d : Db) → LastKept d (check_raw_transaction raw d).1
  check_raw_transaction-LastKept = check_raw_transaction_keeps LastKept LastKept-IsSteady
