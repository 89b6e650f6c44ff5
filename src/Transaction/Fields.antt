-- ===== src/Transaction/Fields.antt =====
-- What `ValidateTransactionFields` and `ProcessTransactionFromBlock` accept.
use simple_blockchain_client.Prelude.Options.{some_cancel}
use simple_blockchain_client.Account.View.{accounts}
use simple_blockchain_client.Account.State.{Ensured, check_account_state_sound}
use simple_blockchain_client.Account.{check_account_state}
use simple_blockchain_client.Platform.{Json, Crypto, LevelDb}
use simple_blockchain_client.Account.Address.{public_key_to_address, is_valid_address}
use simple_blockchain_client.Text.Decimal.{set_string-format_ℤ, atoi-format_ℤ}
use simple_blockchain_client.Exec.{Result-cases, ok}
use simple_blockchain_client.Int.{◌≤ℤ◌, negsuc, pos, ℤ}
use simple_blockchain_client.Types.{Account, Transaction, value_string}
use simple_blockchain_client.Transaction.{
  signed_message, verify_signature, check_account_state, Account, process_transaction_from_block,
  check_signature, Transaction, LevelDb, is_valid_address, ok, is_positive, ℤ,
  validate_transaction_fields,
}
use simple_blockchain_client.Text.{equal_fold, is_empty, Bytes}
use simple_blockchain_client.Prelude.{
  ap, ◌∙◌, sym, inr, subst, inl, ◌≤◌, Option-cases, ◌∷◌, refl, arith, ◌≢◌, ◌↔◌, ◌≡◌, ◌^◌, ◌<◌,
  Option, [], zero, suc, ℕ, none, some, true, false,
}
use simple_blockchain_client.Text.Decimal
use simple_blockchain_client.Text.Hex

value_accepted :
    (value : Option ℤ)
    → is_positive (Decimal.atoi (value_string value)) ≡ true
    → (n : ℕ) × (value ≡ some (pos (suc n))) × (suc n < 2 ^ 63)
unfolding value_string
value_accepted none h = unfold Decimal.atoi Decimal.set_string in cc
value_accepted (some (negsuc n)) h = absurd (ground (arith, atoi-format_ℤ (negsuc n)))
value_accepted (some (pos zero)) h = absurd (ground (arith, atoi-format_ℤ (pos 0)))
value_accepted (some (pos (suc n))) h = (n, refl, ground (arith, atoi-format_ℤ (pos (suc n))))

value_complete :
    (n : ℕ) → suc n < 2 ^ 63 → is_positive (Decimal.atoi (value_string (some (pos (suc n))))) ≡ true
unfolding value_string
value_complete n h = rw (atoi-format_ℤ (pos (suc n))) (ground arith)

is_positive-text : (s : Bytes) → is_positive (Decimal.atoi s) ≡ true → is_empty s ≡ false
unfolding Decimal.atoi Decimal.set_string
is_positive-text [] h = cc
is_positive-text (c ∷ s) h = refl

is_valid_address-text : (s : Bytes) → is_valid_address s ≡ true → is_empty s ≡ false
unfolding is_valid_address
is_valid_address-text [] h = cc
is_valid_address-text (c ∷ s) h = refl

is_empty-ne : (s : Bytes) → s ≢ [] → is_empty s ≡ false
is_empty-ne [] h = absurd (h refl)
is_empty-ne (c ∷ s) h = refl

-- The print of a value is read back.
value_read :
    (value : Option ℤ) {x v : ℤ}
    → value ≡ some x
    → Decimal.set_string (value_string value) ≡ some v
    → v ≡ x
unfolding value_string
value_read value {x} {v} given h =
    some_cancel
      (sym h ∙ (ap (λ o. Decimal.set_string (value_string o)) given ∙ set_string-format_ℤ x))

-- The fields that pass: two well-formed addresses, a signature, and a value from 1 to 2^63 - 1.
pub record IsAcceptable (from to : Bytes) (value : Option ℤ) (signature : Bytes) : Type 0 where
  pub amount : ℕ
  pub value_there : value ≡ some (pos (suc amount))
  pub fits : suc amount < 2 ^ 63
  pub signed : signature ≢ []
  pub from_valid : is_valid_address from ≡ true
  pub to_valid : is_valid_address to ≡ true

-- `ValidateTransactionFields`, called on the print of a value, accepts exactly two well-formed
-- addresses with a signature and a value from 1 to 2^63 - 1, whatever the nonce.
pub validate_transaction_fields_exact :
    (from to : Bytes) (value : Option ℤ) (signature : Bytes) (nonce : ℕ)
    → (validate_transaction_fields from to (value_string value) signature nonce ≡ ok tt)
      ↔ IsAcceptable from to value signature
unfolding validate_transaction_fields
validate_transaction_fields_exact from to value signature nonce = (
  λ h.
      let (n, given, fits) = value_accepted value (ground arith) in
      record {
        amount = n;
        value_there = given;
        fits = fits;
        signed = ground arith;
        from_valid = ground arith;
        to_valid = ground arith;
      },
  λ a.
      let positive : is_positive (Decimal.atoi (value_string value)) ≡ true =
        rw a.value_there (value_complete a.amount a.fits) in
      rw
        (
          is_valid_address-text from a.from_valid,
          is_valid_address-text to a.to_valid,
          is_positive-text (value_string value) positive,
          is_empty-ne signature a.signed,
          positive,
          a.from_valid,
          a.to_valid,
        )
        (ground arith),
)

module _ ⦃L : LevelDb⦄ ⦃C : Crypto⦄ ⦃J : Json⦄ where
  open L use {Db}
  open C use {keccak256, ecrecover}

  -- The signature is a hexadecimal text from which the public key of the sender's address is
  -- recovered, for the hash of the sender, the receiver, the value and the nonce.
  pub record IsSigned (from to : Bytes) (value : Option ℤ) (nonce : ℕ) (signature : Bytes)
      : Type 0 where
    pub decoded : Bytes
    pub pub_key : Bytes
    pub signer : Bytes
    pub decodes : Hex.decode signature ≡ some decoded
    pub recovers : ecrecover (keccak256 (signed_message from to value nonce)) decoded ≡ some pub_key
    pub owns : public_key_to_address pub_key ≡ ok signer
    pub agrees : equal_fold signer from ≡ true

  pub check_signature-IsSigned :
      (from to : Bytes) (value : Option ℤ) (nonce : ℕ) (signature : Bytes)
      → check_signature from to value nonce signature ≡ ok tt
      → IsSigned from to value nonce signature
  unfolding check_signature verify_signature
  check_signature-IsSigned from to value nonce signature h =
      elim (Option-cases (Hex.decode signature)) [
        | inl bad ↦ absurd (ground arith)
        | inr (decoded, decodes) ↦
            elim (Option-cases
              (ecrecover (keccak256 (signed_message from to value nonce)) decoded)) [
                | inl lost ↦ absurd (ground arith)
                | inr (pub_key, recovers) ↦ elim (Result-cases (public_key_to_address pub_key)) [
                  | inl (signer, owns) ↦ record {
                    decoded = decoded;
                    pub_key = pub_key;
                    signer = signer;
                    decodes = decodes;
                    recovers = recovers;
                    owns = owns;
                    agrees = ground arith;
                  }
                  | inr (e, fails) ↦ absurd (ground arith)
                ]
              ]
      ]

  -- A transaction of a block that passes: its fields, its signature, its sender's funds and nonce.
  pub record IsVerified (tx : Transaction) (d d' : Db) : Type 0 where
    pub acceptable : IsAcceptable tx.from tx.to tx.value tx.signature
    pub signed : IsSigned tx.from tx.to tx.value tx.nonce tx.signature
    pub account : Account
    pub account_there : accounts d tx.from ≡ some account
    pub funded : pos (suc acceptable.amount) ≤ℤ account.balance
    pub nonce_reached : account.nonce ≤ tx.nonce
    pub receiver : Ensured tx.to d d'

  -- `ProcessTransactionFromBlock` accepts only a transaction with acceptable fields, signed by its
  -- sender, who has the funds and a nonce that is no higher; it returns the hash that the
  -- transaction carries, and the database is as it was, or differs in the one entry of the receiver,
  -- which had none and now has an empty account.
  pub process_transaction_from_block_sound :
      (tx : Transaction) (d : Db) {hash : Bytes} {d' : Db}
      → process_transaction_from_block tx d ≡ (ok hash, d')
      → (hash ≡ tx.hash) × IsVerified tx d d'
  unfolding process_transaction_from_block
  process_transaction_from_block_sound tx d {hash} {d'} h =
      let fields : validate_transaction_fields tx.from tx.to (value_string tx.value) tx.signature
            tx.nonce
          ≡ ok tt =
        ground arith in
      let signature : check_signature tx.from tx.to tx.value tx.nonce tx.signature ≡ ok tt =
        ground arith in
      let state : check_account_state tx.from tx.to (value_string tx.value) tx.nonce d
          ≡ (ok tt, d') =
        ground arith in
      let acceptable = (validate_transaction_fields_exact _ _ _ _ _).0 fields in
      let (a, v, there, value, funds, nonce, ensured) = check_account_state_sound _ _ _ _ d state in
      (
        ground arith,
        record {
          acceptable = acceptable;
          signed = check_signature-IsSigned _ _ _ _ _ signature;
          account = a;
          account_there = there;
          funded =
              subst (λ x. x ≤ℤ a.balance) (value_read tx.value acceptable.value_there value) funds;
          nonce_reached = nonce;
          receiver = ensured;
        },
      )
