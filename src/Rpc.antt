-- ===== src/Rpc.antt =====
-- The methods of the RPC server: rpc-server/account_api.go, rpc-server/block_api.go and
-- rpc-server/transaction_api.go, with the functions of utils/utils.go and account/account.go that they call. The
-- handle of the database is open.
pub mod Submit
pub mod Sign
pub mod Blocks
use simple_blockchain_client.Text.Hex.{IsByte}
use simple_blockchain_client.Account.{get_account}
use simple_blockchain_client.Text.Decimal.{set_string, format_ℤ}
use simple_blockchain_client.Int.{ℤ}
use simple_blockchain_client.Account.Address.{is_valid_address, create_account}
use simple_blockchain_client.Types.{RawTransaction, Block, Account}
use simple_blockchain_client.Text.{codes, Bytes}
use simple_blockchain_client.Platform.{failed, not_found, found, Read, Json, LevelDb, Crypto}
use simple_blockchain_client.Exec.{ok, err, Result}
use simple_blockchain_client.Text.Hex
use simple_blockchain_client.Text.Decimal
use simple_blockchain_client.Prelude.{
  length, All, ◌≡◌, if◌then◌else◌, List, ◌++◌, Option, ◌∷◌, [], zero, suc, ℕ, none, some, true,
  false,
}

-- The errors of the methods, by their messages.
pub data Fault : Type 0 where
  invalid_address no_account no_new_account no_last_block block_not_parsed : Fault
  value_not_converted key_not_loaded not_signed : Fault

-- A method fills in the reply, or returns an error.
pub data Rpc (A : Type 0) : Type 0 where
  reply : A → Rpc A
  fault : Fault → Rpc A

pub record GetAccountReply : Type 0 where
  pub address : Bytes
  pub balance : Bytes
  pub nonce : ℕ

pub record NewAccountReply : Type 0 where
  pub private_key : Bytes
  pub address : Bytes

pub record SendTransactionArgs : Type 0 where
  pub from : Bytes
  pub to : Bytes
  pub value : Bytes
  pub nonce : ℕ
  pub signature : Bytes

pub record SendRawTransactionArgs : Type 0 where
  pub from : Bytes
  pub to : Bytes
  pub value : Bytes
  pub nonce : ℕ

-- `utils.ConvertStringToBigInt`; `none` is its error.
unfoldable pub convert_string_to_big_int : Bytes → Option ℤ
convert_string_to_big_int value = set_string value

account_reply : Bytes → Result Account → Rpc GetAccountReply
account_reply address (err e) = fault no_account
account_reply address (ok account) =
    reply (record { address = address; balance = format_ℤ account.balance; nonce = account.nonce })

new_account_reply : Result (Bytes × Bytes) → Rpc NewAccountReply
new_account_reply (err e) = fault no_new_account
new_account_reply (ok (private_key, address)) =
    reply (record { private_key = private_key; address = address })

module _ ⦃L : LevelDb⦄ ⦃J : Json⦄ where
  open L use {Db, get}
  open J use {unmarshal_block}

  -- `AccountAPI.GetAccountInfo`
  unfoldable pub get_account_info : Bytes → Db → Rpc GetAccountReply
  unfolding account_reply
  get_account_info address d =
      if is_valid_address address
      then account_reply address (get_account address d).0
      else fault invalid_address

  unfoldable pub parsed_block : Read → Rpc Block
  parsed_block (found value) = elim (unmarshal_block value) [
    | none ↦ fault block_not_parsed
    | some last_block ↦ reply last_block
  ]
  parsed_block not_found = fault no_last_block
  parsed_block failed = fault no_last_block

  -- `BlockAPI.GetLastBlock`
  unfoldable pub get_last_block_reply : Db → Rpc Block
  get_last_block_reply d = parsed_block (get d (codes "lastblock"))

  -- `BlockAPI.GetBlockNumber`
  unfoldable pub get_block_number : Db → Rpc ℕ
  get_block_number d = elim (parsed_block (get d (codes "lastblock"))) [
    | fault e ↦ fault e
    | reply last_block ↦ reply last_block.number
  ]

module _ ⦃C : Crypto⦄ where
  open C use {keccak256}

  -- `utils.Keccak256Hex`
  unfoldable pub keccak256_hex : Bytes → Bytes
  keccak256_hex data_bytes = Hex.encode (keccak256 data_bytes)

  -- `AccountAPI.NewAccount`, on the key pair that is generated.
  unfoldable pub new_account : Option (Bytes × Bytes) → Rpc NewAccountReply
  unfolding new_account_reply
  new_account key_pair = new_account_reply (create_account key_pair)

module _ ⦃C : Crypto⦄ ⦃J : Json⦄ where
  open J use {marshal_raw_transaction}

  -- The transaction that `SendTransaction` makes of its arguments and a value.
  abbrev pub raw_of : SendTransactionArgs → ℤ → RawTransaction
  raw_of args value = record {
    from = args.from;
    to = args.to;
    value = some value;
    nonce = args.nonce;
    signature = args.signature;
  }

  -- `TransactionAPI.SendTransaction`: the reply's hash, and what it puts into `P2PToBlockchain`.
  unfoldable pub send_transaction : SendTransactionArgs → Rpc Bytes × List Bytes
  send_transaction args = elim (convert_string_to_big_int args.value) [
    | none ↦ (fault value_not_converted, [])
    | some value ↦
        let raw_transaction_bytes = marshal_raw_transaction (raw_of args value) in
        (reply (keccak256_hex raw_transaction_bytes), (0x01 ∷ raw_transaction_bytes) ∷ [])
  ]

-- Private keys, as go-ethereum has them: `HexToECDSA` and `Sign`, whose signature gives the key's
-- public key back.
pub record Keys ⦃C : Crypto⦄ : Type 1 where
  pub Key : Type 0
  pub hex_to_ecdsa : Bytes → Option Key
  pub sign : Bytes → Key → Option Bytes
  pub public_key : Key → Bytes
  pub sign-bytes : (h : Bytes) (k : Key) {s : Bytes} → sign h k ≡ some s → All IsByte s
  pub ecrecover-sign :
      (h : Bytes) (k : Key) {s : Bytes}
      → length h ≡ 32
      → sign h k ≡ some s
      → C.ecrecover h s ≡ some (public_key k)

module _ ⦃C : Crypto⦄ ⦃K : Keys⦄ where
  open C use {keccak256}
  open K use {Key, hex_to_ecdsa, sign}

  -- `account.LoadPrivateKey`
  unfoldable pub load_private_key : Bytes → Option Key
  load_private_key private_key_hex = hex_to_ecdsa private_key_hex

  -- `account.SignMessage`
  unfoldable pub sign_message : Bytes → Key → Option Bytes
  sign_message hash private_key = elim (sign hash private_key) [
    | none ↦ none
    | some signature ↦ some (Hex.encode signature)
  ]

  -- The key that the source holds.
  abbrev pub private_key_hex : Bytes
  private_key_hex = codes "7ac125dda168b44ee9fc0d8db3a804ef86b3cc50206a0112b25373d622cf78f7"

  -- `TransactionAPI.SendRawTransaction`: the reply's signature.
  unfoldable pub send_raw_transaction : SendRawTransactionArgs → Rpc Bytes
  send_raw_transaction args =
      let message = args.from ++ (args.to ++ (args.value ++ Decimal.format args.nonce)) in
      let message_hash = keccak256 message in
      elim (load_private_key private_key_hex) [
        | none ↦ fault key_not_loaded
        | some private_key ↦ elim (sign_message message_hash private_key) [
          | none ↦ fault not_signed
          | some signature ↦ reply signature
        ]
      ]
