-- ===== src/Account/View.antt =====
-- The accounts of a database as a function of the address, and what each operation of
-- account/account.go does to it.
use simple_blockchain_client.Prelude.{
  Bool-cases, ◌<◌, ◌≡◌, refl, false, Option, none, some, arith, if◌then◌else◌, ◌==◌, bytes_eq, inl,
  inr,
}
use simple_blockchain_client.Int.{pos}
use simple_blockchain_client.Text.{Bytes, codes}
use simple_blockchain_client.Types.{Account, u64}
use simple_blockchain_client.Platform.{LevelDb, Json, Read, found, not_found, failed}
use simple_blockchain_client.Exec.{ok}
use simple_blockchain_client.Account.{account_key, get_account}

abbrev pub Ledger : Type 0
Ledger = Bytes → Option Account

-- One account replaced.
abbrev pub assign : Bytes → Account → Ledger → Ledger
assign address account view j = if address == j then some account else view j

abbrev pub no_account : Account
no_account = record { balance = pos 0; nonce = 0 }

pub account_key-== : (x y : Bytes) → (account_key x == account_key y) ≡ (x == y)
unfolding account_key
account_key-== x y = refl

-- The key of the last block is no account's.
pub account_key-lastblock : (x : Bytes) → (account_key x == codes "lastblock") ≡ false
unfolding account_key
account_key-lastblock x = refl

pub lastblock-account_key : (x : Bytes) → (codes "lastblock" == account_key x) ≡ false
unfolding account_key
lastblock-account_key x = refl

module _ ⦃L : LevelDb⦄ ⦃J : Json⦄ where
  open L use {Db, get, put, get-put}
  open J use {marshal_account, unmarshal_account, account_round_trip, unmarshal_account_nonce}

  abbrev read_account : Read → Option Account
  read_account (found v) = unmarshal_account v
  read_account not_found = none
  read_account failed = none

  unfoldable pub accounts : Db → Ledger
  accounts d address = read_account (get d (account_key address))

  -- Another database with the same accounts but for one, and the same text under other keys.
  pub record Assigned (address : Bytes) (account : Account) (d d' : Db) : Type 0 where
    pub view : (j : Bytes) → accounts d' j ≡ assign address account (accounts d) j
    pub last : get d' (codes "lastblock") ≡ get d (codes "lastblock")

  pub put-Assigned :
      (address : Bytes) (a : Account) (d : Db) {d' : Db}
      → a.nonce < u64
      → put (account_key address) (marshal_account a) d ≡ some d'
      → Assigned address a d d'
  unfolding accounts
  put-Assigned address a d h e = record {
    view = λ j.
        rw (get-put _ _ d e (account_key j), account_key-== address j)
          (elim (Bool-cases (address == j)) [
            | inl same ↦ rw same (account_round_trip a h)
            | inr other ↦ rw other
          ]);
    last = rw (get-put _ _ d e (codes "lastblock"), account_key-lastblock address);
  }

  -- `GetAccount` reads the view, and nothing else succeeds.
  pub get_account-ok :
      (address : Bytes) (d : Db) {a : Account} {s : Db}
      → get_account address d ≡ (ok a, s)
      → (accounts d address ≡ some a) × (s ≡ d)
  unfolding get_account accounts
  get_account-ok address d h = ground arith

  pub get_account-some :
      (address : Bytes) (d : Db) {a : Account}
      → accounts d address ≡ some a
      → get_account address d ≡ (ok a, d)
  unfolding get_account accounts
  get_account-some address d h = ground arith
