-- ===== src/Tests/World.antt =====
-- A database, a hash and a codec to run the program on.
use simple_blockchain_client.Int.{pos, negsuc}
use simple_blockchain_client.Prelude.Options.{some_cancel}
use simple_blockchain_client.Text.Hex.{IsByte}
use simple_blockchain_client.Types.{RawTransaction, zero_block, u64, Block, Account}
use simple_blockchain_client.Text.{Bytes}
use simple_blockchain_client.Tests.Codec.{
  get_block-put_block, get_block, put_block, get_raw-put_raw, get_raw, put_raw, get_account_text,
  put_value, put_account, get_value,
}
use simple_blockchain_client.Platform.{
  found, not_found, Read, batch_read, LevelDb, Json, Crypto, Batch,
}
use simple_blockchain_client.Map.{lookup-insert, lookup, insert, Map}
use simple_blockchain_client.Prelude.{
  inr, inl, Bool-cases, ◌==◌, refl, arith, ◌∙◌, sym, if◌then◌else◌, bytes_eq, ap, ◌≡◌, ◌+◌, ◌%◌,
  All, ◌<◌, length, Option, ◌∷◌, [], zero, suc, ℕ, none, some,
}

abbrev pub Entries : Type 0
Entries = Map Bytes Bytes

abbrev read : Option Bytes → Read
read none = not_found
read (some v) = found v

unfoldable pub get_entry : Entries → Bytes → Read
get_entry d k = read (lookup k d)

unfoldable pub put_entries : Batch → Entries → Entries
put_entries [] d = d
put_entries ((k, v) ∷ b) d = put_entries b (insert k v d)

pub get-insert :
    (k v : Bytes) (d : Entries) (j : Bytes)
    → get_entry (insert k v d) j ≡ (if k == j then found v else get_entry d j)
unfolding get_entry
get-insert k v d j =
    rw (lookup-insert k j v d)
      (elim (Bool-cases (k == j)) [ inl same ↦ rw same | inr other ↦ rw other ])

pub get-put_entries :
    (b : Batch) (d : Entries) (j : Bytes)
    → get_entry (put_entries b d) j ≡ batch_read b j (get_entry d j)
unfolding put_entries batch_read
get-put_entries [] d j = refl
get-put_entries ((k, v) ∷ b) d j =
    get-put_entries b (insert k v d) j ∙ ap (batch_read b j) (get-insert k v d j)

instance abbrev pub entries_db : LevelDb
entries_db = record {
  Db = Entries;
  get = get_entry;
  put = λ k v d. some (insert k v d);
  write = λ b d. some (put_entries b d);
  get-put = λ k v d h j. rw (sym (some_cancel h)) (get-insert k v d j);
  get-write = λ b d h j. rw (sym (some_cancel h)) (get-put_entries b d j);
}

abbrev repeat : ℕ → ℕ → Bytes
repeat zero c = []
repeat (suc n) c = c ∷ repeat n c

abbrev sum : Bytes → ℕ
sum [] = 0
sum (c ∷ s) = c + sum s

length-repeat : (n c : ℕ) → length (repeat n c) ≡ n
length-repeat zero c = refl
length-repeat (suc n) c = ap suc (length-repeat n c)

repeat-bytes : (n c : ℕ) → c < 256 → All IsByte (repeat n c)
repeat-bytes zero c h = tt
repeat-bytes (suc n) c h = (h, repeat-bytes n c h)

-- A hash of 32 equal bytes, and one key that every signature gives.
unfoldable pub checksum : Bytes → Bytes
checksum s = repeat 32 (sum s % 256)

pub checksum-length : (s : Bytes) → length (checksum s) ≡ 32
unfolding checksum
checksum-length s = length-repeat 32 (sum s % 256)

pub checksum-bytes : (s : Bytes) → All IsByte (checksum s)
unfolding checksum
checksum-bytes s = repeat-bytes 32 (sum s % 256) (omega arith)

abbrev pub one_key : Bytes
one_key = 4 ∷ repeat 64 0

instance abbrev pub checksum_crypto : Crypto
checksum_crypto = record {
  keccak256 = checksum;
  ecrecover = λ hash signature. some one_key;
  length-keccak256 = checksum-length;
  keccak256-bytes = checksum-bytes;
}

pub account_again : (a : Account) → a.nonce < u64 → get_account_text (put_account a) ≡ some a
unfolding put_value get_value
account_again a h =
    elim a.balance
      as (λ b.
        get_account_text (put_account (record { balance = b; nonce = a.nonce }))
        ≡ some (record { balance = b; nonce = a.nonce })) [
          | pos n ↦ ground arith
          | negsuc n ↦ ground arith
        ]

pub checked_nonce : (s : Bytes) {a : Account} → get_account_text s ≡ some a → a.nonce < u64
checked_nonce s h = ground arith

pub checked_raw_nonce : (s : Bytes) {t : RawTransaction} → get_raw s ≡ some t → t.nonce < u64
checked_raw_nonce s h = ground arith

abbrev pub left : Option Block → Block
left none = zero_block
left (some b) = b

instance abbrev pub codec_json : Json
codec_json = record {
  marshal_account = put_account;
  unmarshal_account = get_account_text;
  marshal_raw_transaction = put_raw;
  unmarshal_raw_transaction = get_raw;
  marshal_block = put_block;
  unmarshal_block = get_block;
  block_left = λ s. left (get_block s);
  account_round_trip = account_again;
  raw_transaction_round_trip = λ t plain. get_raw-put_raw t plain.nonce;
  unmarshal_account_nonce = checked_nonce;
  unmarshal_raw_transaction_nonce = checked_raw_nonce;
  block_round_trip = λ b plain. get_block-put_block b;
  block_again = λ s h. get_block-put_block _;
  block_left-ok = λ s h. rw h;
  block_left-nil = refl;
}
