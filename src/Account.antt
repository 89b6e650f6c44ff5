-- ===== src/Account.antt =====
-- account/account.go: the accounts in the database. The handle is open: `GetDBInstance` gives it
-- back without an error once `InitDB` has succeeded. An account is stored under the key
-- `account:` followed by its address.
pub mod Address
pub mod View
pub mod State
use simple_blockchain_client.Prelude.{
  ℕ, Bool, true, false, ◌++◌, Option, none, some, ltb, if◌then◌else◌, ◌≡◌,
}
use simple_blockchain_client.Int.{ℤ, pos, ltb_ℤ}
use simple_blockchain_client.Text.{Bytes, codes}
use simple_blockchain_client.Text.Decimal.{set_string}
use simple_blockchain_client.Types.{Account}
use simple_blockchain_client.Platform.{LevelDb, Json, Read, found, not_found, failed}
use simple_blockchain_client.Exec.{
  Error, Result, ok, err, Exec, pure, raise, or_raise, lift, raise_if, commit, ◌>>=◌, ◌>>◌,
  missing_key, unmarshal_failed, db_failed, write_failed, unknown_sender, insufficient_funds,
  nonce_mismatch, bad_number,
}

unfoldable pub account_key : Bytes → Bytes
account_key address = codes "account:" ++ address

module _ ⦃L : LevelDb⦄ ⦃J : Json⦄ where
  open L use {Db, get, put}
  open J use {marshal_account, unmarshal_account}

  parse_account : Read → Result Account
  parse_account (found v) = elim (unmarshal_account v) [
    | none ↦ err unmarshal_failed
    | some a ↦ ok a
  ]
  parse_account not_found = err missing_key
  parse_account failed = err missing_key

  -- Every error of the read is wrapped in a new one, `ErrNotFound` too.
  unfoldable pub get_account : Bytes → Exec Db Account
  unfolding parse_account
  get_account address d = (parse_account (get d (account_key address)), d)

  existence : Read → Result Bool
  existence (found v) = ok true
  existence not_found = ok false
  existence failed = err db_failed

  unfoldable pub account_exists : Bytes → Exec Db Bool
  unfolding existence
  account_exists address d = (existence (get d (account_key address)), d)

  unfoldable pub update_account : Bytes → Account → Exec Db Unit
  update_account address account =
      commit (put (account_key address) (marshal_account account)) write_failed

  unfoldable pub store_account_for_genesis_miner : Bytes → ℤ → Exec Db Bool
  store_account_for_genesis_miner address initial_balance = do
    let account : Account = record { balance = initial_balance; nonce = 0 }
    commit (put (account_key address) (marshal_account account)) write_failed
    pure true

  unfoldable pub store_account : Bytes → Exec Db Bool
  store_account address = do
    let account : Account = record { balance = pos 0; nonce = 0 }
    commit (put (account_key address) (marshal_account account)) write_failed
    pure true

  -- An unknown receiver is stored with nothing.
  unfoldable pub ensure_account : Bytes → Bool → Exec Db Unit
  ensure_account address true = pure tt
  ensure_account address false = do store_account address; pure tt

  -- `CheckAccountState`: a nonce equal to the account's passes.
  unfoldable pub check_account_state : Bytes → Bytes → Bytes → ℕ → Exec Db Unit
  unfolding ensure_account
  check_account_state from to value nonce = do
    from_exists ← account_exists from
    raise_if (if from_exists then false else true) unknown_sender
    from_account ← get_account from
    value_big_int ← or_raise (set_string value) bad_number
    raise_if (ltb_ℤ from_account.balance value_big_int) insufficient_funds
    raise_if (ltb nonce from_account.nonce) nonce_mismatch
    to_exists ← account_exists to
    ensure_account to to_exists
