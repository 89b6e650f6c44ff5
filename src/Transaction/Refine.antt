-- ===== src/Transaction/Refine.antt =====
-- `ExecuteTransactions` as a computation on a ledger, which forgets the database.
use simple_blockchain_client.Transaction.Execute.{
  accounts-nonce, write_transfer, execute_transaction_atomic, debited, execute_transaction-Executed,
  credited, Executed,
}
use simple_blockchain_client.Int.{◌≤ℤ◌, ◌-ℤ◌, ℤ, ◌+ℤ◌, ltb_ℤ}
use simple_blockchain_client.Transaction.{
  execute_transactions, succ_u64, transfer, transfer_batch, receiver, Account, ltb_ℤ,
  execute_transaction,
}
use simple_blockchain_client.Account.View.{get_account-some, assign, accounts, Ledger}
use simple_blockchain_client.Types.{succ_u64, Account, Transaction}
use simple_blockchain_client.Platform.{Batch, Json, LevelDb}
use simple_blockchain_client.Exec.{continue, Outcome-cases, err, ok, Error, Result}
use simple_blockchain_client.Prelude.{
  subst, sym, refl, arith, ap, ◌∙◌, Bool-cases, ◌⊎◌, inr, ◌≡◌, inl, if◌then◌else◌, Option-cases,
  Option, Bool, List, ◌∷◌, [], none, some, true, false,
}

-- One transfer on a ledger; nothing if an account or the value is missing or the sender lacks the funds.
unfoldable pub settle : Transaction → Ledger → Option Ledger
settle tx ledger = elim (ledger tx.from) [
  | none ↦ none
  | some a ↦ elim (ledger tx.to) [
    | none ↦ none
    | some b ↦ elim tx.value [
      | none ↦ none
      | some v ↦
          if ltb_ℤ a.balance v
          then none
          else some (
              assign tx.to (record b { balance = b.balance +ℤ v })
                (assign tx.from (record a { balance = a.balance -ℤ v; nonce = succ_u64 a.nonce })
                  ledger))
    ]
  ]
]

-- Transfers up to the first that is refused: whether none was, and the ledger then.
unfoldable pub settle_all : List Transaction → Ledger → Bool × Ledger
settle_all [] ledger = (true, ledger)
settle_all (tx ∷ transactions) ledger = elim (settle tx ledger) [
  | none ↦ (false, ledger)
  | some next ↦ settle_all transactions next
]

abbrev pub succeeded {ℓ} : {A : Type ℓ} → Result A → Bool
succeeded (ok a) = true
succeeded (err e) = false

module _ ⦃L : LevelDb⦄ ⦃J : Json⦄ where
  open L use {Db, write}

  -- The database writes every batch.
  unfoldable pub Writes : Type 0
  Writes = (b : Batch) (d : Db) → (d' : Db) × (write b d ≡ some d')

  Settles : Transaction → Db → Type 0
  Settles tx d =
      ((e : Error) × (execute_transaction tx d ≡ (err e, d)) × (settle tx (accounts d) ≡ none))
      ⊎ ((d' : Db) × (execute_transaction tx d ≡ (ok tt, d'))
          × (settle tx (accounts d) ≡ some (accounts d')))

  refused :
      (tx : Transaction) (d : Db)
      → settle tx (accounts d) ≡ none
      → ((d' : Db) → Executed tx d d' → ⊥)
      → Settles tx d
  unfolding Settles
  refused tx d none_left never = elim (Outcome-cases (execute_transaction tx d)) [
    | inl (u, d', done) ↦ absurd (never d' (execute_transaction-Executed tx d done))
    | inr (e, d', failed) ↦
        let same = execute_transaction_atomic tx d failed in
        inl (e, failed ∙ ap (λ s. (err e, s)) same, none_left)
  ]

  -- A round with everything at hand goes through.
  execute_transaction-settled :
      (tx : Transaction) (d d' : Db) (a b : Account) (v : ℤ)
      → accounts d tx.from ≡ some a
      → accounts d tx.to ≡ some b
      → tx.value ≡ some v
      → ltb_ℤ a.balance v ≡ false
      → write (transfer_batch tx v a b) d ≡ some d'
      → execute_transaction tx d ≡ (ok tt, d')
  unfolding execute_transaction receiver transfer
  execute_transaction-settled tx d d' a b v known there given rich written =
      let from = get_account-some tx.from d known in
      let to = get_account-some tx.to d there in ground arith

  settled :
      (tx : Transaction) (d : Db) (a b : Account) (v : ℤ)
      → accounts d tx.from ≡ some a
      → accounts d tx.to ≡ some b
      → tx.value ≡ some v
      → ltb_ℤ a.balance v ≡ false
      → (d' : Db) × (write (transfer_batch tx v a b) d ≡ some d')
      → Settles tx d
  unfolding Settles settle
  settled tx d a b v known there given rich (d', written) =
      let view =
        write_transfer tx v a b d (accounts-nonce d tx.from known) (accounts-nonce d tx.to there)
          written in
      let same : assign tx.to (credited b v) (assign tx.from (debited a v) (accounts d))
          ≡ accounts d' =
        λ i j. sym (view j) i in
      inr (
        d',
        execute_transaction-settled tx d d' a b v known there given rich written,
        rw (known, settle, there, given, rich) (ap some same),
      )

  poor_absurd :
      (sender a : Account) (value v : ℤ)
      → sender ≡ a
      → value ≡ v
      → value ≤ℤ sender.balance
      → ltb_ℤ a.balance v ≡ true
      → ⊥
  poor_absurd sender a value v same_sender same_value funded poor =
      let h : v ≤ℤ a.balance =
        subst (λ s. v ≤ℤ s.balance) same_sender
          (subst (λ w. w ≤ℤ sender.balance) same_value funded) in
      ground arith

  execute_transaction-Settles : (tx : Transaction) (d : Db) → Writes → Settles tx d
  unfolding settle Writes
  execute_transaction-Settles tx d writes = elim (Option-cases (accounts d tx.from)) [
    | inl gone ↦ refused tx d (rw (gone, settle) refl) (λ d' x. let h = x.sender_there in cc)
    | inr (a, known) ↦ elim (Option-cases (accounts d tx.to)) [
      | inl gone ↦
          refused tx d (rw (known, settle, gone) refl) (λ d' x. let h = x.receiver_there in cc)
      | inr (b, there) ↦ elim (Option-cases tx.value) [
        | inl nil ↦
            refused tx d (rw (known, settle, there, nil) refl) (λ d' x. let h = x.value_there in cc)
        | inr (v, given) ↦ elim (Bool-cases (ltb_ℤ a.balance v)) [
          | inl poor ↦ refused tx d (rw (known, settle, there, given, poor) refl) (λ d' x.
              poor_absurd x.sender a x.value v (cc (x.sender_there, known))
                (cc (x.value_there, given)) x.funded poor)
          | inr rich ↦
              settled tx d a b v known there given rich (writes (transfer_batch tx v a b) d)
        ]
      ]
    ]
  ]

  execute_transactions-cons :
      (tx : Transaction) (transactions : List Transaction) (d d' : Db) (r : Result (Unit {0}))
      → execute_transaction tx d ≡ (r, d')
      → execute_transactions (tx ∷ transactions) d
        ≡ continue (r, d') (λ u. execute_transactions transactions)
  unfolding execute_transactions
  execute_transactions-cons tx transactions d d' r h =
      ap (λ o. continue o (λ u. execute_transactions transactions)) h

  settle_all-cons :
      (tx : Transaction) (transactions : List Transaction) (ledger : Ledger) {o : Option Ledger}
      → settle tx ledger ≡ o
      → settle_all (tx ∷ transactions) ledger
        ≡ elim o [ none ↦ (false, ledger) | some next ↦ settle_all transactions next ]
  unfolding settle_all
  settle_all-cons tx transactions ledger h = rw (h, settle_all) refl

  -- On a database that writes every batch, `ExecuteTransactions` is the computation on the accounts: it
  -- succeeds exactly when no transfer is refused, and leaves the accounts as the transfers up to the
  -- first refused one leave the ledger.
  pub execute_transactions_refines :
      (transactions : List Transaction) (d : Db)
      → Writes
      → let o = execute_transactions transactions d in
        (succeeded o.0, accounts o.1) ≡ settle_all transactions (accounts d)
  unfolding Settles
  execute_transactions_refines [] d writes = unfold execute_transactions settle_all in refl
  execute_transactions_refines (tx ∷ transactions) d writes =
      elim (execute_transaction-Settles tx d writes) [
        | inl (e, failed, left) ↦
            rw (execute_transactions-cons tx transactions d d (err e) failed)
              (sym (settle_all-cons tx transactions (accounts d) left))
        | inr (d', done, left) ↦ rw (execute_transactions-cons tx transactions d d' (ok tt) done) (
            execute_transactions_refines transactions d' writes
            ∙ sym (settle_all-cons tx transactions (accounts d) left))
      ]
