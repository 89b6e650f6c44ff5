-- ===== src/Transaction/Supply.antt =====
-- The coins in circulation: the sum of the balances over a list of addresses.
use simple_blockchain_client.Transaction.Execute.{
  execute_transaction_atomic, credited, debited, execute_transaction-Executed,
}
use simple_blockchain_client.Exec.{Outcome-cases, ok}
use simple_blockchain_client.Transaction.{execute_transactions, ok, execute_transaction}
use simple_blockchain_client.Int.{parts_of_eq, exchange_twice, int_laws, ◌+ℤ◌, pos, ℤ}
use simple_blockchain_client.Types.{Transaction, Account}
use simple_blockchain_client.Account.View.{accounts, assign, Ledger}
use simple_blockchain_client.Text.{contains, Bytes}
use simple_blockchain_client.Platform.{Json, LevelDb}
use simple_blockchain_client.Prelude.{
  subst, sym, All, ==_ne, ◌∙◌, inr, inl, Bool-cases, ==_iff, bytes_eq, arith, ◌≢◌, refl, ◌≡◌, ◌==◌,
  ◌∷◌, Option, List, [], none, some, true, false,
}

abbrev pub balance_of : Option Account → ℤ
balance_of none = pos 0
balance_of (some a) = a.balance

abbrev pub total : List Bytes → Ledger → ℤ
total [] view = pos 0
total (address ∷ l) view = balance_of (view address) +ℤ total l view

-- No address is listed twice.
abbrev pub IsDistinct : List Bytes → Type 0
IsDistinct [] = Unit
IsDistinct (a ∷ l) = (contains a l ≡ false) × IsDistinct l

pub total-cong : (l : List Bytes) (v w : Ledger) → ((j : Bytes) → v j ≡ w j) → total l v ≡ total l w
total-cong [] v w h = refl
total-cong (a ∷ l) v w h = rw (h a, total-cong l v w h)

pub total-assign_absent :
    (l : List Bytes) (address : Bytes) (a : Account) (view : Ledger)
    → contains address l ≡ false
    → total l (assign address a view) ≡ total l view
total-assign_absent [] address a view h = refl
total-assign_absent (b ∷ l) address a view h =
    ground (arith, total-assign_absent l address a view, ==_iff b address, ==_iff address b)

pub total-assign :
    (l : List Bytes) (address : Bytes) (a : Account) (old : Option Account) (view : Ledger)
    → IsDistinct l
    → contains address l ≡ true
    → view address ≡ old
    → total l (assign address a view) +ℤ balance_of old ≡ total l view +ℤ a.balance
total-assign [] address a old view d h e = cc
total-assign (b ∷ l) address a old view (fresh, d) h e = elim (Bool-cases (b == address)) [
  | inl here ↦
      let p = (==_iff b address).0 here in
      rw
        (
          (==_iff address b).1 (sym p),
          total-assign_absent l address a view (subst (λ k. contains k l ≡ false) p fresh),
          p,
          e,
        )
        (omega int_laws)
  | inr there ↦
      let ih = total-assign l address a old view d (ground arith) e in
      rw (==_ne address b (λ p. cc ((==_iff b address).1 (sym p))))
        (omega (int_laws, parts_of_eq ih))
]

-- Every transaction of the list goes from one listed address to another.
abbrev pub IsAmong : List Bytes → List Transaction → Type 0
IsAmong l = All (λ tx. (tx.from ≢ tx.to) × (contains tx.from l ≡ true) × (contains tx.to l ≡ true))

module _ ⦃L : LevelDb⦄ ⦃J : Json⦄ where
  open L use {Db}

  transaction_conserves :
      (l : List Bytes) (tx : Transaction) (d : Db) {d' : Db}
      → IsDistinct l
      → tx.from ≢ tx.to
      → contains tx.from l ≡ true
      → contains tx.to l ≡ true
      → execute_transaction tx d ≡ (ok tt, d')
      → total l (accounts d') ≡ total l (accounts d)
  transaction_conserves l tx d distinct ne hf ht h =
      let x = execute_transaction-Executed tx d h in
      let first =
        total-assign l tx.from (debited x.sender x.value) (some x.sender) (accounts d) distinct hf
          x.sender_there in
      let middle = assign tx.from (debited x.sender x.value) (accounts d) in
      let there : middle tx.to ≡ some x.receiver_account =
        rw (==_ne tx.from tx.to ne) x.receiver_there in
      let second =
        total-assign l tx.to (credited x.receiver_account x.value) (some x.receiver_account) middle
          distinct ht there in
      total-cong l _ _ x.view ∙ exchange_twice _ _ _ _ _ _ _ x.value refl refl first second

  -- Whatever the outcome, a run of transactions between different accounts leaves the sum of the
  -- balances over any distinct addresses that hold them all as it was.
  pub execute_transactions_conserves :
      (l : List Bytes) (transactions : List Transaction) (d : Db)
      → IsDistinct l
      → IsAmong l transactions
      → total l (accounts (execute_transactions transactions d).1) ≡ total l (accounts d)
  unfolding execute_transactions
  execute_transactions_conserves l [] d distinct among = refl
  execute_transactions_conserves l (tx ∷ transactions) d distinct ((ne, hf, ht), among) =
      elim (Outcome-cases (execute_transaction tx d)) [
        | inl (u, d', e) ↦ rw e (
            execute_transactions_conserves l transactions d' distinct among
            ∙ transaction_conserves l tx d distinct ne hf ht e)
        | inr (error, d', e) ↦ rw e (rw (execute_transaction_atomic tx d e))
      ]
