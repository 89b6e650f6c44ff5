-- ===== src/Tests/Rpc.antt =====
-- A transaction that is submitted, and a key that signs.
use simple_blockchain_client.Rpc.Sign.{send_raw_transaction_verifies}
use simple_blockchain_client.Chain.{process_message}
use simple_blockchain_client.Account.View.{accounts}
use simple_blockchain_client.Prelude.Options.{some_cancel}
use simple_blockchain_client.Tests.Blocks.{all_ascii-IsAscii}
use simple_blockchain_client.Rpc.Submit.{send_transaction-IsProcessed, IsProcessed, transaction_of}
use simple_blockchain_client.Exec.{ok}
use simple_blockchain_client.Tests.Ledger.{ledger, payment, bob, alice}
use simple_blockchain_client.Int.{pos}
use simple_blockchain_client.Types.{IsPlainRaw}
use simple_blockchain_client.Transaction.Refine.{
  execute_transactions_refines, settle_all, succeeded, Writes,
}
use simple_blockchain_client.Transaction.{execute_transactions, check_signature}
use simple_blockchain_client.Text.{codes, equal_fold, Bytes}
use simple_blockchain_client.Account.Address.{public_key_to_address}
use simple_blockchain_client.Rpc.{
  sign_message, send_transaction, raw_of, load_private_key, send_raw_transaction,
  convert_string_to_big_int, SendTransactionArgs, SendRawTransactionArgs, Keys, reply,
}
use simple_blockchain_client.Tests.Nodes.{node}
use simple_blockchain_client.Tests.World.{
  put_entries, checksum, one_key, entries_db, codec_json, checksum_crypto,
}
use simple_blockchain_client.Text.Hex
use simple_blockchain_client.Text.Decimal
use simple_blockchain_client.Prelude.{arith, refl, All, subst, ◌≡◌, ◌∷◌, [], ℕ, some, true}

abbrev args : SendTransactionArgs
args = record { from = alice; to = bob; value = codes "30"; nonce = 4; signature = codes "00" }

args-value : convert_string_to_big_int args.value ≡ some (pos 30)
unfolding convert_string_to_big_int Decimal.set_string Decimal.unsigned Decimal.scan
args-value = refl

args-IsPlain : IsPlainRaw (raw_of args (pos 30))
args-IsPlain = record {
  from = all_ascii-IsAscii alice refl;
  to = all_ascii-IsAscii bob refl;
  signature = all_ascii-IsAscii args.signature refl;
  nonce = omega arith;
}

send_transaction-IsProcessed_example :
    (hash : Bytes) × (message : Bytes) × (send_transaction args ≡ (reply hash, message ∷ []))
    × IsProcessed message
        (transaction_of hash (raw_of args (pos 30)))
        node
        (process_message message node)
send_transaction-IsProcessed_example =
    send_transaction-IsProcessed args (pos 30) node args-value args-IsPlain

-- Every text is the one key, and every signature is one byte.
instance abbrev one_signer : Keys
one_signer = record {
  Key = ℕ;
  hex_to_ecdsa = λ s. some 1;
  sign = λ h k. some (0 ∷ []);
  public_key = λ k. one_key;
  sign-bytes = λ h k e. subst (All Hex.IsByte) (some_cancel e) (omega arith, tt);
  ecrecover-sign = λ h k long e. refl;
}

abbrev unsigned : SendRawTransactionArgs
unsigned = record { from = alice; to = bob; value = codes "30"; nonce = 4 }

unsigned-spelled : unsigned.value ≡ Decimal.format_ℤ (pos 30)
unfolding Decimal.format_ℤ Decimal.format Decimal.digits
unsigned-spelled = refl

unsigned-signed : send_raw_transaction unsigned ≡ reply (codes "00")
unfolding send_raw_transaction load_private_key sign_message Hex.encode Hex.to_digit
unsigned-signed = refl

one_key-alice : public_key_to_address one_key ≡ ok alice
unfolding public_key_to_address checksum Hex.encode Hex.to_digit
one_key-alice = refl

alice-alice : equal_fold alice alice ≡ true
unfolding equal_fold
alice-alice = refl

send_raw_transaction_verifies_example :
    check_signature alice bob (some (pos 30)) 4 (codes "00") ≡ ok tt
send_raw_transaction_verifies_example =
    send_raw_transaction_verifies unsigned (pos 30) 1 alice unsigned-spelled refl one_key-alice
      alice-alice unsigned-signed

entries_db-Writes : Writes
unfolding Writes
entries_db-Writes b d = (put_entries b d, refl)

execute_transactions_refines_example :
    (
      succeeded (execute_transactions (payment ∷ payment ∷ []) ledger).0,
      accounts (execute_transactions (payment ∷ payment ∷ []) ledger).1,
    )
    ≡ settle_all (payment ∷ payment ∷ []) (accounts ledger)
execute_transactions_refines_example =
    execute_transactions_refines (payment ∷ payment ∷ []) ledger entries_db-Writes
