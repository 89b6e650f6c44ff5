-- ===== src/Transaction/Execute.antt =====
-- What `ExecuteTransactions` does to the accounts.
use simple_blockchain_client.Account.{account_key, get_account}
use simple_blockchain_client.Exec.{err, Error, ok}
use simple_blockchain_client.Text.{codes, Bytes}
use simple_blockchain_client.Int.{◌≤ℤ◌, ◌-ℤ◌, ◌+ℤ◌, ℤ}
use simple_blockchain_client.Types.{u64, succ_u64, Transaction, Account}
use simple_blockchain_client.Transaction.{
  succ_u64, get_account, transfer, ok, ℤ, receiver, Bytes, transfer_batch, execute_transaction,
}
use simple_blockchain_client.Account.View.{account_key-==, assign, account_key-lastblock, accounts}
use simple_blockchain_client.Platform.{Read-cases, batch_read, Json, LevelDb}
use simple_blockchain_client.Prelude.{
  ap, ==_refl, sym, ==_ne, ==_iff, bytes_eq, ◌==◌, inr, arith, Bool-cases, inl, Option-cases, ◌<◌,
  ◌≢◌, ◌≡◌, some,
}

module _ ⦃L : LevelDb⦄ ⦃J : Json⦄ where
  open L use {Db, get, put, write, get-write}
  open J use {marshal_account, account_round_trip, unmarshal_account_nonce}

  pub accounts-nonce :
      (d : Db) (address : Bytes) {a : Account} → accounts d address ≡ some a → a.nonce < u64
  unfolding accounts
  accounts-nonce d address {a} h = elim (Read-cases (get d (account_key address))) [
    | inl (v, e) ↦ unmarshal_account_nonce v {a = a} (ground arith)
    | inr (inl e) ↦ absurd (ground arith)
    | inr (inr e) ↦ absurd (ground arith)
  ]

  -- The sender after a round, and the receiver.
  abbrev pub debited : Account → ℤ → Account
  debited a value = record a { balance = a.balance -ℤ value; nonce = succ_u64 a.nonce }

  abbrev pub credited : Account → ℤ → Account
  credited b value = record b { balance = b.balance +ℤ value }

  -- A round that succeeds: both accounts were there, the sender had the funds, and both entries
  -- are written, the receiver's last.
  pub record Executed (tx : Transaction) (d d' : Db) : Type 0 where
    pub sender : Account
    pub receiver_account : Account
    pub value : ℤ
    pub sender_there : accounts d tx.from ≡ some sender
    pub receiver_there : accounts d tx.to ≡ some receiver_account
    pub value_there : tx.value ≡ some value
    pub funded : value ≤ℤ sender.balance
    pub view :
        (j : Bytes)
        → accounts d' j
          ≡ assign tx.to
              (credited receiver_account value)
              (assign tx.from (debited sender value) (accounts d))
              j
    pub last : get d' (codes "lastblock") ≡ get d (codes "lastblock")

  pub write_transfer :
      (tx : Transaction) (v : ℤ) (a b : Account) (d : Db) {d' : Db}
      → a.nonce < u64
      → b.nonce < u64
      → write (transfer_batch tx v a b) d ≡ some d'
      → (j : Bytes)
      → accounts d' j ≡ assign tx.to (credited b v) (assign tx.from (debited a v) (accounts d)) j
  unfolding accounts transfer_batch batch_read
  write_transfer tx v a b d ha hb e j =
      rw (get-write _ d e (account_key j), account_key-== tx.from j, account_key-== tx.to j)
        (elim (Bool-cases (tx.to == j)) [
          | inl to ↦ rw to (account_round_trip (credited b v) hb)
          | inr other ↦ rw other (elim (Bool-cases (tx.from == j)) [
            | inl from ↦ rw from (account_round_trip (debited a v) (omega arith))
            | inr neither ↦ rw neither
          ])
        ])

  write_transfer-last :
      (tx : Transaction) (v : ℤ) (a b : Account) (d : Db) {d' : Db}
      → write (transfer_batch tx v a b) d ≡ some d'
      → get d' (codes "lastblock") ≡ get d (codes "lastblock")
  unfolding transfer_batch batch_read
  write_transfer-last tx v a b d e = rw (
    get-write _ d e (codes "lastblock"),
    account_key-lastblock tx.from,
    account_key-lastblock tx.to,
  )

  pub execute_transaction-Executed :
      (tx : Transaction) (d : Db) {d' : Db}
      → execute_transaction tx d ≡ (ok tt, d')
      → Executed tx d d'
  unfolding execute_transaction receiver transfer get_account accounts
  execute_transaction-Executed tx d {d'} h = elim (Option-cases (accounts d tx.from)) [
    | inl gone ↦ absurd (ground arith)
    | inr (a, known) ↦ elim (Option-cases (accounts d tx.to)) [
      | inl gone ↦ absurd (ground arith)
      | inr (b, there) ↦ elim (Option-cases tx.value) [
        | inl nil ↦ absurd (ground arith)
        | inr (v, given) ↦
            let written : write (transfer_batch tx v a b) d ≡ some d' = ground arith in
            record {
              sender = a;
              receiver_account = b;
              value = v;
              sender_there = known;
              receiver_there = there;
              value_there = given;
              funded = ground arith;
              view =
                  write_transfer tx v a b d (accounts-nonce d tx.from known)
                    (accounts-nonce d tx.to there) written;
              last = write_transfer-last tx v a b d written;
            }
      ]
    ]
  ]

  -- A round that fails writes nothing.
  pub execute_transaction_atomic :
      (tx : Transaction) (d : Db) {e : Error} {d' : Db}
      → execute_transaction tx d ≡ (err e, d')
      → d' ≡ d
  unfolding execute_transaction receiver transfer get_account
  execute_transaction_atomic tx d h = ground arith

  -- Between two different accounts the value moves from one to the other, the sender's nonce goes up
  -- by one, and no third account changes.
  pub execute_transaction_transfers :
      (tx : Transaction) (d : Db) {d' : Db}
      → tx.from ≢ tx.to
      → execute_transaction tx d ≡ (ok tt, d')
      → (a : Account) × (b : Account) × (v : ℤ) × (accounts d tx.from ≡ some a)
        × (accounts d tx.to ≡ some b)
        × (tx.value ≡ some v)
        × (v ≤ℤ a.balance)
        × (accounts d' tx.from ≡ some (debited a v))
        × (accounts d' tx.to ≡ some (credited b v))
        × ((j : Bytes) → j ≢ tx.from → j ≢ tx.to → accounts d' j ≡ accounts d j)
  execute_transaction_transfers tx d distinct h =
      let x = execute_transaction-Executed tx d h in
      (
        x.sender,
        x.receiver_account,
        x.value,
        x.sender_there,
        x.receiver_there,
        x.value_there,
        x.funded,
        rw (x.view tx.from, ==_ne tx.to tx.from (λ e. distinct (sym e)), ==_refl tx.from),
        rw (x.view tx.to, ==_refl tx.to),
        λ j not_from not_to. rw (
          x.view j,
          ==_ne tx.to j (λ e. not_to (sym e)),
          ==_ne tx.from j (λ e. not_from (sym e)),
        ),
      )

  -- A transfer of an account to itself adds the value to its balance and leaves its nonce.
  pub execute_transaction_self :
      (tx : Transaction) (d : Db) {d' : Db}
      → tx.from ≡ tx.to
      → execute_transaction tx d ≡ (ok tt, d')
      → (a : Account) × (v : ℤ) × (accounts d tx.from ≡ some a)
        × (tx.value ≡ some v)
        × (accounts d' tx.from ≡ some (credited a v))
  execute_transaction_self tx d same h =
      let x = execute_transaction-Executed tx d h in
      (
        x.sender,
        x.value,
        x.sender_there,
        x.value_there,
        rw (x.view tx.from, (==_iff tx.to tx.from).1 (sym same))
            (cc (x.sender_there, x.receiver_there, same, ap (accounts d) same)),
      )
