-- ===== src/Account/State.antt =====
-- `CheckAccountState`: what it accepts, and what it writes.
use simple_blockchain_client.Prelude.{
  bytes_eq, ◌==◌, if◌then◌else◌, Option-cases, ℕ, ◌≤◌, ◌≡◌, Bool, some, arith, ◌⊎◌, inl, inr,
}
use simple_blockchain_client.Int.{ℤ, ◌≤ℤ◌}
use simple_blockchain_client.Text.{Bytes}
use simple_blockchain_client.Text.Decimal.{set_string}
use simple_blockchain_client.Types.{Account}
use simple_blockchain_client.Platform.{found, Read-cases, LevelDb, Json, not_found}
use simple_blockchain_client.Exec.{◌>>=◌, ok}
use simple_blockchain_client.Account.{
  found, account_key, get_account, account_exists, store_account, ensure_account,
  check_account_state,
}
use simple_blockchain_client.Account.View.{accounts, no_account, Assigned, put-Assigned}

module _ ⦃L : LevelDb⦄ ⦃J : Json⦄ where
  open L use {Db, get, put, get-put}
  open J use {marshal_account}

  -- The database with an empty account written under the address: every other key reads as before.
  abbrev pub OneEntry : Bytes → Db → Db → Type 0
  OneEntry address d d' =
      (key : Bytes)
      → get d' key
        ≡ (if account_key address == key then found (marshal_account no_account) else get d key)

  -- The receiver's account is there and nothing changes, or it was not stored and its entry, with
  -- nothing in it, is the one that is written.
  abbrev pub Ensured : Bytes → Db → Db → Type 0
  Ensured to d d' =
      (d' ≡ d)
      ⊎ ((get d (account_key to) ≡ not_found) × Assigned to no_account d d' × OneEntry to d d')

  pub put-OneEntry :
      (address : Bytes) (d : Db) {d' : Db}
      → put (account_key address) (marshal_account no_account) d ≡ some d'
      → OneEntry address d d'
  put-OneEntry address d e key = get-put _ _ d e key

  pub store_account-Assigned :
      (address : Bytes) (d : Db) {b : Bool} {d' : Db}
      → store_account address d ≡ (ok b, d')
      → Assigned address no_account d d'
  unfolding store_account
  store_account-Assigned address d {b} {d'} h =
      put-Assigned address no_account d (omega arith) (ground arith)

  pub ensure_account-Ensured :
      (to : Bytes) (d : Db) {d' : Db}
      → (account_exists to >>= ensure_account to) d ≡ (ok tt, d')
      → Ensured to d d'
  unfolding ensure_account account_exists store_account
  ensure_account-Ensured to d {d'} h = elim (Read-cases (get d (account_key to))) [
    | inl (v, there) ↦ ground arith
    | inr (inl missing) ↦
        let written : put (account_key to) (marshal_account no_account) d ≡ some d' =
          ground arith in
        inr (missing, put-Assigned to no_account d (omega arith) written, put-OneEntry to d written)
    | inr (inr broken) ↦ absurd (ground arith)
  ]

  -- An accepted transfer has a sender with the funds and a nonce that is no higher than the one
  -- given; only the receiver's account may have been added.
  pub check_account_state_sound :
      (from to value : Bytes) (nonce : ℕ) (d : Db) {d' : Db}
      → check_account_state from to value nonce d ≡ (ok tt, d')
      → (a : Account) × (v : ℤ) × (accounts d from ≡ some a)
        × (set_string value ≡ some v)
        × (v ≤ℤ a.balance)
        × (a.nonce ≤ nonce)
        × Ensured to d d'
  unfolding check_account_state account_exists get_account accounts
  check_account_state_sound from to value nonce d h = elim (Option-cases (accounts d from)) [
    | inl gone ↦ absurd (ground arith)
    | inr (a, known) ↦ elim (Option-cases (set_string value)) [
      | inl malformed ↦ absurd (ground arith)
      | inr (v, parsed) ↦ (
        a,
        v,
        known,
        parsed,
        (ground arith),
        (ground arith),
        ensure_account-Ensured to d (ground arith),
      )
    ]
  ]
