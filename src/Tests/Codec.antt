-- ===== src/Tests/Codec.antt =====
-- A codec in place of encoding/json: numbers as they are, a text after its length.
use simple_blockchain_client.Int.{negsuc, pos, ℤ}
use simple_blockchain_client.Types.{u64, Transaction, RawTransaction, Block, Account}
use simple_blockchain_client.Text.{Bytes}
use simple_blockchain_client.Prelude.Options.{◌>>=◌}
use simple_blockchain_client.Prelude.{
  arith, true, ◌<◌, ap, ◌++◌, refl, ltb, ◌≡◌, take, length, if◌then◌else◌, drop, Option, List, ◌∷◌,
  [], zero, suc, ℕ, none, some,
}

unfoldable pub put_text : Bytes → Bytes → Bytes
put_text s rest = length s ∷ s ++ rest

unfoldable pub get_text : Bytes → Option (Bytes × Bytes)
get_text [] = none
get_text (n ∷ s) = some (take n s, drop n s)

take-append : (s rest : Bytes) → take (length s) (s ++ rest) ≡ s
take-append [] rest = refl
take-append (c ∷ s) rest = ap (λ t. c ∷ t) (take-append s rest)

drop-append : (s rest : Bytes) → drop (length s) (s ++ rest) ≡ rest
drop-append [] rest = refl
drop-append (c ∷ s) rest = drop-append s rest

get_text-put_text : (s rest : Bytes) → get_text (put_text s rest) ≡ some (s, rest)
unfolding get_text put_text
get_text-put_text s rest = rw (take-append s rest, drop-append s rest)

unfoldable pub put_value : Option ℤ → Bytes → Bytes
put_value none rest = 0 ∷ rest
put_value (some (pos n)) rest = 1 ∷ n ∷ rest
put_value (some (negsuc n)) rest = 2 ∷ n ∷ rest

unfoldable pub get_value : Bytes → Option (Option ℤ × Bytes)
get_value [] = none
get_value (zero ∷ rest) = some (none, rest)
get_value (suc zero ∷ []) = none
get_value (suc zero ∷ n ∷ rest) = some (some (pos n), rest)
get_value (suc (suc k) ∷ []) = none
get_value (suc (suc k) ∷ n ∷ rest) = some (some (negsuc n), rest)

get_value-put_value : (v : Option ℤ) (rest : Bytes) → get_value (put_value v rest) ≡ some (v, rest)
unfolding get_value put_value
get_value-put_value none rest = refl
get_value-put_value (some (pos n)) rest = refl
get_value-put_value (some (negsuc n)) rest = refl

abbrev put_number : ℕ → Bytes → Bytes
put_number n rest = n ∷ rest

abbrev get_number : Bytes → Option (ℕ × Bytes)
get_number [] = none
get_number (n ∷ rest) = some (n, rest)

abbrev put_transaction : Transaction → Bytes → Bytes
put_transaction tx rest = put_text tx.hash (
    put_text tx.from
      (put_text tx.to (put_value tx.value (put_number tx.nonce (put_text tx.signature rest)))))

abbrev get_transaction : Bytes → Option (Transaction × Bytes)
get_transaction s = do
  (hash, s₁) ← get_text s
  (from, s₂) ← get_text s₁
  (to, s₃) ← get_text s₂
  (value, s₄) ← get_value s₃
  (nonce, s₅) ← get_number s₄
  (signature, s₆) ← get_text s₅
  some (
    record {
      hash = hash;
      from = from;
      to = to;
      value = value;
      nonce = nonce;
      signature = signature;
    },
    s₆,
  )

get_transaction-put_transaction :
    (tx : Transaction) (rest : Bytes) → get_transaction (put_transaction tx rest) ≡ some (tx, rest)
get_transaction-put_transaction tx rest = rw (
  get_text-put_text tx.hash _,
  get_text-put_text tx.from _,
  get_text-put_text tx.to _,
  get_value-put_value tx.value _,
  get_text-put_text tx.signature rest,
)

abbrev put_transactions : List Transaction → Bytes → Bytes
put_transactions [] rest = rest
put_transactions (tx ∷ transactions) rest = put_transaction tx (put_transactions transactions rest)

abbrev get_transactions : ℕ → Bytes → Option (List Transaction)
get_transactions zero s = some []
get_transactions (suc n) s = do
  (tx, s₁) ← get_transaction s
  transactions ← get_transactions n s₁
  some (tx ∷ transactions)

get_transactions-put_transactions :
    (transactions : List Transaction)
    → get_transactions (length transactions) (put_transactions transactions []) ≡ some transactions
get_transactions-put_transactions [] = refl
get_transactions-put_transactions (tx ∷ transactions) = rw (
  get_transaction-put_transaction tx (put_transactions transactions []),
  get_transactions-put_transactions transactions,
)

abbrev pub put_block : Block → Bytes
put_block b = put_number b.number (
    put_text b.hash (
      put_text b.parent_hash (
        put_number b.timestamp (
          put_text b.merkle_root (
            put_text b.miner
              (put_number (length b.transaction) (put_transactions b.transaction [])))))))

abbrev pub get_block : Bytes → Option Block
get_block s = do
  (number, s₁) ← get_number s
  (hash, s₂) ← get_text s₁
  (parent_hash, s₃) ← get_text s₂
  (timestamp, s₄) ← get_number s₃
  (merkle_root, s₅) ← get_text s₄
  (miner, s₆) ← get_text s₅
  (n, s₇) ← get_number s₆
  transactions ← get_transactions n s₇
  some (record {
    number = number;
    hash = hash;
    parent_hash = parent_hash;
    timestamp = timestamp;
    merkle_root = merkle_root;
    transaction = transactions;
    miner = miner;
  })

pub get_block-put_block : (b : Block) → get_block (put_block b) ≡ some b
get_block-put_block b = rw (
  get_text-put_text b.hash _,
  get_text-put_text b.parent_hash _,
  get_text-put_text b.merkle_root _,
  get_text-put_text b.miner _,
  get_transactions-put_transactions b.transaction,
)

abbrev pub put_raw : RawTransaction → Bytes
put_raw raw =
    put_text raw.from
      (put_text raw.to (put_value raw.value (put_number raw.nonce (put_text raw.signature []))))

abbrev pub get_raw : Bytes → Option RawTransaction
get_raw s = do
  (from, s₁) ← get_text s
  (to, s₂) ← get_text s₁
  (value, s₃) ← get_value s₂
  (nonce, s₄) ← get_number s₃
  (signature, s₅) ← get_text s₄
  if ltb nonce u64
      then some
          (record { from = from; to = to; value = value; nonce = nonce; signature = signature })
      else none

pub get_raw-put_raw : (raw : RawTransaction) → raw.nonce < u64 → get_raw (put_raw raw) ≡ some raw
get_raw-put_raw raw h =
    let below : ltb raw.nonce u64 ≡ true = ground arith in
    rw
      (
        get_text-put_text raw.from _,
        get_text-put_text raw.to _,
        get_value-put_value raw.value _,
        get_text-put_text raw.signature [],
        below,
      )
      refl

abbrev pub put_account : Account → Bytes
put_account a = put_value (some a.balance) (put_number a.nonce [])

abbrev pub get_account_text : Bytes → Option Account
get_account_text s = do
  (value, s₁) ← get_value s
  balance ← value
  (nonce, s₂) ← get_number s₁
  if ltb nonce u64 then some (record { balance = balance; nonce = nonce }) else none
