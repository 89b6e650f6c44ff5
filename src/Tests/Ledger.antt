-- ===== src/Tests/Ledger.antt =====
-- Accounts and transfers: a ledger of two accounts.
use simple_blockchain_client.Account.View.{accounts}
use simple_blockchain_client.Transaction.Supply.{execute_transactions_conserves, total}
use simple_blockchain_client.Transaction.Fields.{
  validate_transaction_fields_exact, IsAcceptable, process_transaction_from_block_sound, IsVerified,
}
use simple_blockchain_client.Transaction.Execute.{execute_transaction_transfers, debited, credited}
use simple_blockchain_client.Block.{ensure_miner, reward_to_miner}
use simple_blockchain_client.Account.Address.{is_hex_digit, public_key_to_address, is_valid_address}
use simple_blockchain_client.Map.{insert, lookup}
use simple_blockchain_client.Tests.Codec.{get_value, put_value, get_text, put_text, put_account}
use simple_blockchain_client.Account.{
  update_account, store_account, account_exists, check_account_state, get_account, account_key,
}
use simple_blockchain_client.Types.{value_string, Account, Transaction}
use simple_blockchain_client.Transaction.{
  signed_message, verify_signature, execute_transactions, check_signature,
  validate_transaction_fields, process_transaction_from_block, transfer_batch, transfer, receiver,
  execute_transaction,
}
use simple_blockchain_client.Text.{equal_fold, codes, Bytes}
use simple_blockchain_client.Tests.World.{
  one_key, checksum, codec_json, entries_db, put_entries, get_entry, Entries,
}
use simple_blockchain_client.Exec.{insufficient_funds, err, ok}
use simple_blockchain_client.Int.{◌≤ℤ◌, ℤ, pos}
use simple_blockchain_client.Tests.World.{checksum_crypto}
use simple_blockchain_client.Text.Hex
use simple_blockchain_client.Text.Decimal
use simple_blockchain_client.Prelude.{
  ◌↔◌, bytes_beq_iff, bytes_beq, ◌≢◌, refl, ◌≡◌, ◌∷◌, [], some, false,
}

abbrev pub alice : Bytes
alice = codes "0x0000000000000000000000000000000000000000"

abbrev pub bob : Bytes
bob = codes "0xbBbBbBbBbBbBbBbBbBbBbBbBbBbBbBbBbBbBbBbB"

abbrev pub payment : Transaction
payment = record {
  hash = codes "0x1111111111111111111111111111111111111111111111111111111111111111";
  from = alice;
  to = bob;
  value = some (pos 30);
  nonce = 3;
  signature = codes "00";
}

abbrev pub ledger : Entries
ledger =
    (account_key alice, put_account (record { balance = pos 100; nonce = 3 }))
    ∷ (account_key bob, put_account (record { balance = pos 5; nonce = 0 }))
    ∷ []

abbrev paid : Entries
paid = (execute_transaction payment ledger).1

payment-paid : execute_transaction payment ledger ≡ (ok tt, paid)
unfolding execute_transaction receiver transfer transfer_batch get_account account_key get_entry
    put_entries lookup insert put_text get_text put_value get_value
payment-paid = refl

pub payment-apart : alice ≢ bob
payment-apart e =
    let differ : bytes_beq alice bob ≡ false = refl in cc ((bytes_beq_iff alice bob).1 e)

execute_transaction_transfers_example :
    (a : Account) × (b : Account) × (v : ℤ) × (accounts ledger alice ≡ some a)
    × (accounts ledger bob ≡ some b)
    × (payment.value ≡ some v)
    × (v ≤ℤ a.balance)
    × (accounts paid alice ≡ some (debited a v))
    × (accounts paid bob ≡ some (credited b v))
    × ((j : Bytes) → j ≢ alice → j ≢ bob → accounts paid j ≡ accounts ledger j)
execute_transaction_transfers_example =
    execute_transaction_transfers payment ledger payment-apart payment-paid

abbrev to_self : Transaction
to_self = record payment { to = alice }

abbrev after_self : Entries
after_self = (execute_transaction to_self ledger).1

to_self-paid : execute_transaction to_self ledger ≡ (ok tt, after_self)
unfolding execute_transaction receiver transfer transfer_batch get_account account_key get_entry
    put_entries lookup insert put_text get_text put_value get_value
to_self-paid = refl

abbrev too_much : Transaction
too_much = record payment { value = some (pos 500) }

too_much-refused : execute_transaction too_much ledger ≡ (err insufficient_funds, ledger)
unfolding execute_transaction receiver transfer transfer_batch get_account account_key get_entry
    put_entries lookup insert put_text get_text put_value get_value
too_much-refused = refl

execute_transactions_conserves_example :
    total (alice ∷ bob ∷ []) (accounts (execute_transactions (payment ∷ too_much ∷ []) ledger).1)
    ≡ total (alice ∷ bob ∷ []) (accounts ledger)
execute_transactions_conserves_example =
    execute_transactions_conserves (alice ∷ bob ∷ []) (payment ∷ too_much ∷ []) ledger
      (refl, (refl, tt)) ((payment-apart, refl, refl), ((payment-apart, refl, refl), tt))

validate_transaction_fields_exact_example :
    (validate_transaction_fields alice bob (value_string (some (pos 30))) (codes "00") 3 ≡ ok tt)
    ↔ IsAcceptable alice bob (some (pos 30)) (codes "00")
validate_transaction_fields_exact_example =
    validate_transaction_fields_exact alice bob (some (pos 30)) (codes "00") 3

payment-accepted : process_transaction_from_block payment ledger ≡ (ok payment.hash, ledger)
unfolding process_transaction_from_block validate_transaction_fields check_signature
    verify_signature signed_message public_key_to_address checksum value_string equal_fold
    is_valid_address is_hex_digit Decimal.format Decimal.format_ℤ Decimal.atoi Decimal.set_string
    Hex.decode Hex.from_digit Hex.encode Hex.to_digit Decimal.scan Decimal.unsigned Decimal.digits
    check_account_state account_exists store_account get_account account_key get_entry put_entries
    lookup insert put_text get_text put_value get_value
payment-accepted = refl

process_transaction_from_block_sound_example :
    (payment.hash ≡ payment.hash) × IsVerified payment ledger ledger
process_transaction_from_block_sound_example =
    process_transaction_from_block_sound payment ledger payment-accepted

state-accepted : check_account_state alice bob (codes "30") 3 ledger ≡ (ok tt, ledger)
unfolding check_account_state account_exists store_account get_account account_key get_entry
    put_entries lookup insert put_text get_text put_value get_value Decimal.set_string
state-accepted = refl

key-alice : public_key_to_address one_key ≡ ok alice
unfolding public_key_to_address checksum Hex.encode
key-alice = refl

abbrev rich : Entries
rich = (reward_to_miner bob ledger).1

bob-rewarded : reward_to_miner bob ledger ≡ (ok tt, rich)
unfolding reward_to_miner ensure_miner is_valid_address is_hex_digit account_exists update_account
    store_account get_account account_key get_entry put_entries lookup insert put_text get_text
    put_value get_value
bob-rewarded = refl
