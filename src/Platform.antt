-- ===== src/Platform.antt =====
-- What the program takes from elsewhere, as interfaces: the database (goleveldb), the hash and the
-- signatures (x/crypto, go-ethereum), and the JSON form of its own types (encoding/json).
use simple_blockchain_client.Prelude.{
  refl, inr, inl, ◌⊎◌, ◌<◌, ◌≡◌, List, [], ◌∷◌, Option, some, if◌then◌else◌, ◌==◌, bytes_eq, length,
  All,
}
use simple_blockchain_client.Text.{Bytes}
use simple_blockchain_client.Text.Hex.{IsByte}
use simple_blockchain_client.Types.{
  zero_block, Account, RawTransaction, Block, u64, IsPlainRaw, IsPlainBlock,
}

-- `ErrNotFound` is told apart from every other error of a read.
pub data Read : Type 0 where
  found : Bytes → Read
  not_found : Read
  failed : Read

pub Read-cases : (r : Read) → ((v : Bytes) × (r ≡ found v)) ⊎ ((r ≡ not_found) ⊎ (r ≡ failed))
Read-cases (found v) = inl (v, refl)
Read-cases not_found = inr (inl refl)
Read-cases failed = inr (inr refl)

abbrev pub Batch : Type 0
Batch = List (Bytes × Bytes)

-- The last `Put` of a batch on a key is the one that counts.
unfoldable pub batch_read : Batch → Bytes → Read → Read
batch_read [] k r = r
batch_read ((j, v) ∷ b) k r = batch_read b k (if j == k then found v else r)

-- A handle on an open database. `none` is the error of a write, which writes nothing.
pub record LevelDb : Type 1 where
  pub Db : Type 0
  pub get : Db → Bytes → Read
  pub put : Bytes → Bytes → Db → Option Db
  pub write : Batch → Db → Option Db
  pub get-put :
      (k v : Bytes) (d : Db) {d' : Db}
      → put k v d ≡ some d'
      → (j : Bytes) → get d' j ≡ (if k == j then found v else get d j)
  pub get-write :
      (b : Batch) (d : Db) {d' : Db}
      → write b d ≡ some d'
      → (j : Bytes) → get d' j ≡ batch_read b j (get d j)

-- Keccak-256 gives 32 bytes; `ecrecover` gives a public key from a hash and a signature.
pub record Crypto : Type 0 where
  pub keccak256 : Bytes → Bytes
  pub ecrecover : Bytes → Bytes → Option Bytes
  pub length-keccak256 : (s : Bytes) → length (keccak256 s) ≡ 32
  pub keccak256-bytes : (s : Bytes) → All IsByte (keccak256 s)

-- `json.Marshal` does not fail on these types; `json.Unmarshal` reads back what it wrote.
pub record Json : Type 0 where
  pub marshal_account : Account → Bytes
  pub unmarshal_account : Bytes → Option Account
  pub marshal_raw_transaction : RawTransaction → Bytes
  pub unmarshal_raw_transaction : Bytes → Option RawTransaction
  pub marshal_block : Block → Bytes
  pub unmarshal_block : Bytes → Option Block
  -- What `json.Unmarshal` leaves in a zero block, when it fails too.
  pub block_left : Bytes → Block
  pub account_round_trip :
      (a : Account) → a.nonce < u64 → unmarshal_account (marshal_account a) ≡ some a
  pub raw_transaction_round_trip :
      (t : RawTransaction)
      → IsPlainRaw t
      → unmarshal_raw_transaction (marshal_raw_transaction t) ≡ some t
  pub unmarshal_account_nonce :
      (s : Bytes) {a : Account} → unmarshal_account s ≡ some a → a.nonce < u64
  pub unmarshal_raw_transaction_nonce :
      (s : Bytes) {t : RawTransaction} → unmarshal_raw_transaction s ≡ some t → t.nonce < u64
  pub block_round_trip : (b : Block) → IsPlainBlock b → unmarshal_block (marshal_block b) ≡ some b
  -- A block that was read is written and read back as it is: its texts are valid UTF-8.
  pub block_again :
      (s : Bytes) {b : Block}
      → unmarshal_block s ≡ some b
      → unmarshal_block (marshal_block b) ≡ some b
  pub block_left-ok : (s : Bytes) {b : Block} → unmarshal_block s ≡ some b → block_left s ≡ b
  pub block_left-nil : block_left [] ≡ zero_block
