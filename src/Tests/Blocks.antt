-- ===== src/Tests/Blocks.antt =====
-- A chain of one block and the block that follows it.
use simple_blockchain_client.Account.{
  account_key, get_account, store_account, account_exists, check_account_state,
}
use simple_blockchain_client.Account.Address.{is_hex_digit, is_valid_address, public_key_to_address}
use simple_blockchain_client.Map.{insert, lookup}
use simple_blockchain_client.Tests.Codec.{get_value, put_value, get_text, put_text, put_block}
use simple_blockchain_client.Exec.{ok}
use simple_blockchain_client.Block.Create.{create_new_block-validates}
use simple_blockchain_client.Transaction.{
  signed_message, verify_signature, check_signature, validate_transaction_fields,
  process_transaction_from_block,
}
use simple_blockchain_client.Tests.Ledger.{ledger, payment, bob}
use simple_blockchain_client.Types.{value_string, IsAscii, zero_block, Block}
use simple_blockchain_client.Text.{trim_0x, equal_fold, codes, Bytes}
use simple_blockchain_client.Merkle.Texts.{Collision}
use simple_blockchain_client.Merkle.Binding.{build_merkle_tree_binding, hashed, SameHashes}
use simple_blockchain_client.Merkle.{
  last, pairs, pad, climb, parse_hash, parse_hashes, build_merkle_tree,
}
use simple_blockchain_client.Block.Validate.{validate_received_block_sound, Verified, IsNext}
use simple_blockchain_client.Block.{
  transaction_hashes, merkle_root_of, parsed_last_block, get_last_block, validate_received_block,
  process_transactions_from_block, next_block, last_block_left, create_new_block,
}
use simple_blockchain_client.Tests.World.{
  get_entry, put_entries, checksum, Entries, entries_db, codec_json, checksum_crypto,
}
use simple_blockchain_client.Text.Hex
use simple_blockchain_client.Text.Decimal
use simple_blockchain_client.Prelude.{
  ◌∙◌, ◌&&◌, arith, refl, ltb, ◌⊎◌, ◌≡◌, Bool, List, ◌∷◌, [], some, true,
}

abbrev pub ones : Bytes
ones = codes "1111111111111111111111111111111111111111111111111111111111111111"

abbrev pub first_block : Block
first_block = record zero_block { number = 1; hash = ones; timestamp = 100; miner = bob }

abbrev pub chain : Entries
chain = (codes "lastblock", put_block first_block) ∷ ledger

abbrev pub second_block : Block
second_block = next_block 200 bob (payment ∷ []) ones first_block

last-first_block : last_block_left chain ≡ first_block
unfolding last_block_left get_last_block get_entry lookup put_text get_text put_value get_value
last-first_block = refl

second_block-created : create_new_block 200 bob (payment ∷ []) chain ≡ some second_block
unfolding create_new_block parsed_last_block get_last_block get_entry lookup put_text get_text
    put_value get_value merkle_root_of transaction_hashes trim_0x build_merkle_tree parse_hashes
    parse_hash climb Hex.decode Hex.from_digit Hex.encode Hex.to_digit
second_block-created = refl

create_new_block-validates_example :
    validate_received_block second_block chain
    ≡ process_transactions_from_block (payment ∷ []) chain
create_new_block-validates_example =
    create_new_block-validates 200 bob (payment ∷ []) chain (rw last-first_block (omega arith))
      second_block-created

pub second_block-accepted : validate_received_block second_block chain ≡ (ok tt, chain)
unfolding process_transactions_from_block process_transaction_from_block validate_transaction_fields
    check_signature verify_signature signed_message public_key_to_address checksum value_string
    equal_fold is_valid_address is_hex_digit Decimal.format Decimal.format_ℤ Decimal.atoi
    Decimal.set_string Hex.decode Hex.from_digit Hex.encode Hex.to_digit Decimal.scan
    Decimal.unsigned Decimal.digits check_account_state account_exists store_account get_account
    account_key get_entry put_entries lookup insert put_text get_text put_value get_value
second_block-accepted =
    create_new_block-validates 200 bob (payment ∷ []) chain (rw last-first_block (omega arith))
      second_block-created
    ∙ refl

validate_received_block_sound_example :
    IsNext second_block chain × Verified second_block.transaction chain chain
validate_received_block_sound_example =
    validate_received_block_sound second_block chain second_block-accepted

abbrev pub all_ascii : Bytes → Bool
all_ascii [] = true
all_ascii (c ∷ s) = ltb c 128 && all_ascii s

pub all_ascii-IsAscii : (s : Bytes) → all_ascii s ≡ true → IsAscii s
all_ascii-IsAscii [] h = tt
all_ascii-IsAscii (c ∷ s) h = (ground arith, all_ascii-IsAscii s (ground arith))

-- The same hash in lower and in upper case.
abbrev small : List Bytes
small = ones ∷ codes "aaaaaaaaaaaaaaaaaaaaaaaaaaaaaaaaaaaaaaaaaaaaaaaaaaaaaaaaaaaaaaaa" ∷ []

abbrev capital : List Bytes
capital = ones ∷ codes "AAAAAAAAAAAAAAAAAAAAAAAAAAAAAAAAAAAAAAAAAAAAAAAAAAAAAAAAAAAAAAAA" ∷ []

abbrev common_root : Bytes
common_root = codes "6060606060606060606060606060606060606060606060606060606060606060"

small-root : build_merkle_tree small ≡ ok common_root
unfolding build_merkle_tree parse_hashes parse_hash climb pad pairs last checksum Hex.decode
    Hex.from_digit Hex.encode Hex.to_digit
small-root = refl

capital-root : build_merkle_tree capital ≡ ok common_root
unfolding build_merkle_tree parse_hashes parse_hash climb pad pairs last checksum Hex.decode
    Hex.from_digit Hex.encode Hex.to_digit
capital-root = refl

build_merkle_tree_binding_example :
    SameHashes small capital ⊎ Collision (hashed small) (hashed capital)
build_merkle_tree_binding_example =
    build_merkle_tree_binding small capital refl small-root capital-root
