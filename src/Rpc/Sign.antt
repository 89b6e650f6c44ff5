-- ===== src/Rpc/Sign.antt =====
-- The signature that the RPC server gives for a transaction, and the check of it.
use simple_blockchain_client.Exec.{ok}
use simple_blockchain_client.Account.Address.{public_key_to_address}
use simple_blockchain_client.Text.Decimal.{format_ℤ}
use simple_blockchain_client.Text.{equal_fold, Bytes}
use simple_blockchain_client.Int.{ℤ}
use simple_blockchain_client.Types.{value_string}
use simple_blockchain_client.Transaction.{signed_message, verify_signature, check_signature}
use simple_blockchain_client.Platform.{Crypto}
use simple_blockchain_client.Text.Hex
use simple_blockchain_client.Text.Decimal
use simple_blockchain_client.Rpc.{
  ok, reply, format_ℤ, private_key_hex, ℤ, Bytes, SendRawTransactionArgs, sign_message,
  load_private_key, send_raw_transaction, Keys,
}
use simple_blockchain_client.Prelude.{
  refl, ◌∙◌, ℕ, arith, ap, Option, sym, inr, inl, Option-cases, ◌++◌, ◌≡◌, some, true,
}

module _ ⦃C : Crypto⦄ ⦃K : Keys⦄ where
  open C use {keccak256, ecrecover}
  open K use {Key, hex_to_ecdsa, sign, public_key}

  send_raw_transaction-signed :
      (args : SendRawTransactionArgs) (key : Key) {signature : Bytes}
      → hex_to_ecdsa private_key_hex ≡ some key
      → send_raw_transaction args ≡ reply signature
      → (s : Bytes) × (sign
            (keccak256 (args.from ++ (args.to ++ (args.value ++ Decimal.format args.nonce))))
            key
          ≡ some s)
        × (signature ≡ Hex.encode s)
  unfolding send_raw_transaction load_private_key sign_message
  send_raw_transaction-signed args key loaded h =
      elim (Option-cases (
        sign (keccak256 (args.from ++ (args.to ++ (args.value ++ Decimal.format args.nonce))))
          key)) [
            | inl refused ↦ absurd (ground arith)
            | inr (s, signed) ↦ (s, signed, ground arith)
          ]

  check_signature-ok :
      (from to : Bytes) (value : Option ℤ) (nonce : ℕ) (signature decoded pub_key address : Bytes)
      → Hex.decode signature ≡ some decoded
      → ecrecover (keccak256 (signed_message from to value nonce)) decoded ≡ some pub_key
      → public_key_to_address pub_key ≡ ok address
      → equal_fold address from ≡ true
      → check_signature from to value nonce signature ≡ ok tt
  unfolding check_signature verify_signature
  check_signature-ok from to value nonce signature decoded pub_key address read found addressed
        owner =
      rw (read, check_signature, found, verify_signature, addressed, owner) refl

  -- A transaction with the signature that `SendRawTransaction` replies passes the check of the
  -- processor, if the key of the server is the sender's, without regard to case, and the value is spelled
  -- as the number prints.
  pub send_raw_transaction_verifies :
      (args : SendRawTransactionArgs) (value : ℤ) (key : Key) (address : Bytes) {signature : Bytes}
      → args.value ≡ format_ℤ value
      → hex_to_ecdsa private_key_hex ≡ some key
      → public_key_to_address (public_key key) ≡ ok address
      → equal_fold address args.from ≡ true
      → send_raw_transaction args ≡ reply signature
      → check_signature args.from args.to (some value) args.nonce signature ≡ ok tt
  unfolding signed_message value_string
  send_raw_transaction_verifies args value key address {signature} spelled loaded addressed owner
        h =
      let (s, signed, e) = send_raw_transaction-signed args key loaded h in
      let text : signed_message args.from args.to (some value) args.nonce
          ≡ args.from ++ (args.to ++ (args.value ++ Decimal.format args.nonce)) =
        ap (λ v. args.from ++ (args.to ++ (v ++ Decimal.format args.nonce))) (sym spelled) in
      let hash = keccak256 (args.from ++ (args.to ++ (args.value ++ Decimal.format args.nonce))) in
      let read = Hex.decode-encode s (K.sign-bytes hash key signed) in
      let found = K.ecrecover-sign hash key (C.length-keccak256 _) signed in
      check_signature-ok args.from args.to (some value) args.nonce signature s (public_key key)
        address (ap Hex.decode e ∙ read) (ap (λ t. ecrecover (keccak256 t) s) text ∙ found)
        addressed owner
