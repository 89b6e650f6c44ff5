-- ===== src/Chain/Steady.antt =====
-- What validation writes: a relation between databases that the addition of a receiver's account
-- keeps is kept by every check, whatever its outcome.
use simple_blockchain_client.Int.{ltb_ℤ}
use simple_blockchain_client.Text.Decimal.{set_string}
use simple_blockchain_client.Merkle.{build_merkle_tree}
use simple_blockchain_client.Account.State.{ensure_account-Ensured}
use simple_blockchain_client.Account.View.{no_account, Assigned}
use simple_blockchain_client.Types.{value_string, Transaction, RawTransaction, Block}
use simple_blockchain_client.Transaction.{
  check_signature, validate_transaction_fields, process_transaction_from_block,
}
use simple_blockchain_client.Text.{Bytes}
use simple_blockchain_client.Exec.{
  nonce_mismatch, insufficient_funds, or_raise-state, merkle_mismatch, bad_number, or_raise,
  block_hash_mismatch, raise_if-state, unknown_sender, err, lift, continue_keeps, Outcome-cases,
  Error, ◌>>=◌, raise_if, Exec,
}
use simple_blockchain_client.Chain.{
  ltb, check_signature, value_string, validate_transaction_fields, err, not_found, lift,
  Transaction, RawTransaction, List, Block, check_raw_transaction,
}
use simple_blockchain_client.Block.{
  trimmed_hashes, block_hash, validate_received_block, validate_block_with_prev_block,
  process_transactions_from_block,
}
use simple_blockchain_client.Account.{
  store_account, account_key, get_account, ensure_account, check_account_state, account_exists,
}
use simple_blockchain_client.Platform.{Read-cases, not_found, Json, Crypto, LevelDb}
use simple_blockchain_client.Prelude.{
  bytes_eq, ◌∙◌, Option-cases, inr, ap, sym, ◌==◌, subst, inl, refl, if◌then◌else◌, arith, ◌≡◌,
  List, ◌∷◌, [], ℕ, true, false,
}

module _ ⦃L : LevelDb⦄ ⦃J : Json⦄ where
  open L use {Db, get, put}
  open J use {marshal_account}

  ensure_account-err :
      (to : Bytes) (d : Db) {e : Error} {d' : Db}
      → (account_exists to >>= ensure_account to) d ≡ (err e, d')
      → d' ≡ d
  unfolding ensure_account account_exists store_account
  ensure_account-err to d h = elim (Read-cases (get d (account_key to))) [
    | inl (v, there) ↦ ground arith
    | inr (inl missing) ↦
        elim (Option-cases (put (account_key to) (marshal_account no_account) d)) [
          | inl refused ↦ ground arith
          | inr (d₁, done) ↦ absurd (ground arith)
        ]
    | inr (inr broken) ↦ ground arith
  ]

  pub account_exists-state : (address : Bytes) (d : Db) → (account_exists address d).1 ≡ d
  unfolding account_exists
  account_exists-state address d = refl

  pub get_account-state : (address : Bytes) (d : Db) → (get_account address d).1 ≡ d
  unfolding get_account
  get_account-state address d = refl

  -- Reflexive, transitive, and kept by a new account that holds nothing.
  pub record IsSteady (R : Db → Db → Type 0) : Type 0 where
    pub still : (d : Db) → R d d
    pub trans : (d d₁ d₂ : Db) → R d d₁ → R d₁ d₂ → R d d₂
    pub added :
        (address : Bytes) (d d' : Db)
        → get d (account_key address) ≡ not_found
        → Assigned address no_account d d'
        → R d d'

module _ ⦃L : LevelDb⦄ ⦃J : Json⦄ (R : L.Db → L.Db → Type 0) (steady : IsSteady R) where
  open L use {Db}

  -- A step that leaves the state, and then another.
  pub then_keeps :
      {A B : Type 0} (m : Exec Db A) (f : A → Exec Db B)
      → ((d : Db) → (m d).1 ≡ d)
      → ((a : A) (d : Db) → R d (f a d).1)
      → (d : Db) → R d ((m >>= f) d).1
  then_keeps m f stays rest d =
      continue_keeps R steady.trans d (m d) f (subst (R d) (sym (stays d)) (steady.still d)) rest

  ensure_keeps : (to : Bytes) (d : Db) → R d ((account_exists to >>= ensure_account to) d).1
  ensure_keeps to d = elim (Outcome-cases ((account_exists to >>= ensure_account to) d)) [
    | inl (u, d', e) ↦ subst (R d) (sym (ap (λ o. o.1) e)) (elim (ensure_account-Ensured to d e) [
      | inl same ↦ subst (R d) (sym same) (steady.still d)
      | inr (missing, new, written) ↦ steady.added to d d' missing new
    ])
    | inr (error, d', e) ↦
        subst (R d) (sym (ap (λ o. o.1) e ∙ ensure_account-err to d e)) (steady.still d)
  ]

  pub check_account_state_keeps :
      (from to value : Bytes) (nonce : ℕ) (d : Db)
      → R d (check_account_state from to value nonce d).1
  unfolding check_account_state
  check_account_state_keeps from to value nonce =
      then_keeps (account_exists from) _ (account_exists-state from) (λ known.
        then_keeps (raise_if (if known then false else true) unknown_sender) _
          (raise_if-state (if known then false else true) unknown_sender)
          (λ u. then_keeps (get_account from) _ (get_account-state from) (λ account.
            then_keeps (or_raise (set_string value) bad_number) _
              (or_raise-state (set_string value) bad_number)
              (λ v.
                then_keeps (raise_if (ltb_ℤ account.balance v) insufficient_funds) _
                  (raise_if-state (ltb_ℤ account.balance v) insufficient_funds)
                  (λ u.
                    then_keeps (raise_if (ltb nonce account.nonce) nonce_mismatch) _
                      (raise_if-state (ltb nonce account.nonce) nonce_mismatch)
                      (λ u. ensure_keeps to))))))

module _ ⦃L : LevelDb⦄ ⦃C : Crypto⦄ ⦃J : Json⦄ where
  open L use {Db}

  validate_block_with_prev_block-state :
      (b : Block) (d : Db) → (validate_block_with_prev_block b d).1 ≡ d
  unfolding validate_block_with_prev_block
  validate_block_with_prev_block-state b d = ground arith

module _ ⦃L : LevelDb⦄ ⦃C : Crypto⦄ ⦃J : Json⦄ (R : L.Db → L.Db → Type 0)
    (steady : IsSteady R) where
  open L use {Db}

  process_transaction_from_block_keeps :
      (tx : Transaction) (d : Db) → R d (process_transaction_from_block tx d).1
  unfolding process_transaction_from_block
  process_transaction_from_block_keeps tx =
      then_keeps R steady
        (lift
          (validate_transaction_fields tx.from tx.to (value_string tx.value) tx.signature tx.nonce))
        _ (λ d. refl)
        (λ u.
          then_keeps R steady (lift (check_signature tx.from tx.to tx.value tx.nonce tx.signature))
            _ (λ d. refl)
            (λ u d.
              continue_keeps R steady.trans d _ _
                (check_account_state_keeps R steady tx.from tx.to (value_string tx.value) tx.nonce
                  d)
                (λ u t. steady.still t)))

  process_transactions_from_block_keeps :
      (transactions : List Transaction) (d : Db)
      → R d (process_transactions_from_block transactions d).1
  unfolding process_transactions_from_block
  process_transactions_from_block_keeps [] d = steady.still d
  process_transactions_from_block_keeps (tx ∷ transactions) d =
      continue_keeps R steady.trans d (process_transaction_from_block tx d) _
        (process_transaction_from_block_keeps tx d)
        (λ hash. process_transactions_from_block_keeps transactions)

  pub validate_received_block_keeps : (b : Block) (d : Db) → R d (validate_received_block b d).1
  unfolding validate_received_block
  validate_received_block_keeps b =
      then_keeps R steady (validate_block_with_prev_block b) _
        (validate_block_with_prev_block-state b)
        (λ u.
          then_keeps R steady
            (raise_if (if b.hash == block_hash b then false else true) block_hash_mismatch) _
            (raise_if-state (if b.hash == block_hash b then false else true) block_hash_mismatch)
            (λ u.
              then_keeps R steady (lift (build_merkle_tree (trimmed_hashes b.transaction))) _
                (λ d. refl)
                (λ root.
                  then_keeps R steady
                    (raise_if (if b.merkle_root == root then false else true) merkle_mismatch) _
                    (raise_if-state (if b.merkle_root == root then false else true) merkle_mismatch)
                    (λ u. process_transactions_from_block_keeps b.transaction))))

  pub check_raw_transaction_keeps :
      (raw : RawTransaction) (d : Db) → R d (check_raw_transaction raw d).1
  unfolding check_raw_transaction
  check_raw_transaction_keeps raw =
      then_keeps R steady
        (lift (
          validate_transaction_fields raw.from raw.to (value_string raw.value) raw.signature
            raw.nonce))
        _ (λ d. refl)
        (λ u.
          then_keeps R steady
            (lift (check_signature raw.from raw.to raw.value raw.nonce raw.signature)) _ (λ d. refl)
            (λ u d.
              continue_keeps R steady.trans d _ _
                (check_account_state_keeps R steady raw.from raw.to (value_string raw.value)
                  raw.nonce d)
                (λ u t. steady.still t)))
