-- ===== src/Types.antt =====
-- The data of the program: accounts (account/account.go), transactions
-- (blockchain/transaction.go) and blocks (blockchain/block.go). A `*big.Int` that a message may
-- leave out is an `Option`; a `uint64` is a number below 2^64.
use simple_blockchain_client.Prelude.{[], ℕ, ◌+◌, ◌%◌, ◌^◌, ◌<◌, List, Option, none, some, All}
use simple_blockchain_client.Int.{ℤ}
use simple_blockchain_client.Text.{Bytes, codes}
use simple_blockchain_client.Text.Decimal.{format_ℤ}

pub record Account : Type 0 where
  pub balance : ℤ
  pub nonce : ℕ

pub record RawTransaction : Type 0 where
  pub from : Bytes
  pub to : Bytes
  pub value : Option ℤ
  pub nonce : ℕ
  pub signature : Bytes

pub record Transaction : Type 0 where
  pub hash : Bytes
  pub from : Bytes
  pub to : Bytes
  pub value : Option ℤ
  pub nonce : ℕ
  pub signature : Bytes

pub record Block : Type 0 where
  pub number : ℕ
  pub hash : Bytes
  pub parent_hash : Bytes
  pub timestamp : ℕ
  pub merkle_root : Bytes
  pub transaction : List Transaction
  pub miner : Bytes

-- The zero value of a block.
abbrev pub zero_block : Block
zero_block = record {
  number = 0;
  hash = [];
  parent_hash = [];
  timestamp = 0;
  merkle_root = [];
  transaction = [];
  miner = [];
}

-- `Value.String()`: a nil pointer prints as `<nil>`.
unfoldable pub value_string : Option ℤ → Bytes
value_string none = codes "<nil>"
value_string (some v) = format_ℤ v

abbrev pub u64 : ℕ
u64 = 2 ^ 64

-- `n + 1` and `n++` on a `uint64` wrap around.
abbrev pub succ_u64 : ℕ → ℕ
succ_u64 n = (n + 1) % u64

-- Texts that JSON carries unchanged: the bytes below 128 are single characters.
abbrev pub IsAscii : Bytes → Type 0
IsAscii = All (λ c. c < 128)

pub record IsPlainRaw (raw : RawTransaction) : Type 0 where
  pub from : IsAscii raw.from
  pub to : IsAscii raw.to
  pub signature : IsAscii raw.signature
  pub nonce : raw.nonce < u64

pub record IsPlainTransaction (tx : Transaction) : Type 0 where
  pub hash : IsAscii tx.hash
  pub from : IsAscii tx.from
  pub to : IsAscii tx.to
  pub signature : IsAscii tx.signature
  pub nonce : tx.nonce < u64

pub record IsPlainBlock (b : Block) : Type 0 where
  pub hash : IsAscii b.hash
  pub parent_hash : IsAscii b.parent_hash
  pub merkle_root : IsAscii b.merkle_root
  pub miner : IsAscii b.miner
  pub number : b.number < u64
  pub timestamp : b.timestamp < u64
  pub transaction : All IsPlainTransaction b.transaction
