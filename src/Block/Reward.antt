-- ===== src/Block/Reward.antt =====
-- What `RewardToMiner` does to the accounts.
use simple_blockchain_client.Prelude.Options.{some_cancel}
use simple_blockchain_client.Transaction.Execute.{accounts-nonce}
use simple_blockchain_client.Account.Address.{is_valid_address}
use simple_blockchain_client.Transaction.Supply.{
  total-cong, total-assign, balance_of, total, IsDistinct,
}
use simple_blockchain_client.Exec.{
  invalid_miner, write_failed, raise_if-ok, raise_if, continue-ok, commit-ok, ◌>>=◌, ok,
}
use simple_blockchain_client.Account.State.{put-OneEntry, Ensured}
use simple_blockchain_client.Text.{contains, Bytes}
use simple_blockchain_client.Block.{
  invalid_miner, false, raise_if, pos, not_found, is_valid_address, ok, List, reward_to_miner,
  reward_amount, ensure_miner,
}
use simple_blockchain_client.Account.View.{
  assign, get_account-ok, no_account, put-Assigned, Assigned, accounts,
}
use simple_blockchain_client.Account.{
  get_account, account_key, store_account, account_exists, update_account,
}
use simple_blockchain_client.Int.{parts_of_eq, int_laws, pos, ◌+ℤ◌}
use simple_blockchain_client.Types.{u64, Account}
use simple_blockchain_client.Platform.{not_found, Read-cases, Json, LevelDb}
use simple_blockchain_client.Prelude.{
  false, if◌then◌else◌, refl, ap, ==_refl, sym, bytes_eq, subst, inr, arith, ◌==◌, inl, Bool-cases,
  ◌⊎◌, ◌∙◌, ◌≡◌, ◌<◌, List, some, true,
}

abbrev pub rewarded : Account → Account
rewarded a = record a { balance = a.balance +ℤ reward_amount }

module _ ⦃L : LevelDb⦄ ⦃J : Json⦄ where
  open L use {Db, get, put}
  open J use {marshal_account}

  update_account-Assigned :
      (address : Bytes) (a : Account) (d : Db) {d' : Db}
      → a.nonce < u64
      → update_account address a d ≡ (ok tt, d')
      → Assigned address a d d'
  unfolding update_account
  update_account-Assigned address a d h e =
      put-Assigned address a d h
        (commit-ok (put (account_key address) (marshal_account a)) write_failed d e)

  twice-Assigned :
      (address : Bytes) (a b : Account) (d d₁ d₂ : Db)
      → Assigned address a d d₁
      → Assigned address b d₁ d₂
      → Assigned address b d d₂
  twice-Assigned address a b d d₁ d₂ first second = record {
    view = λ j. second.view j ∙ elim (Bool-cases (address == j)) [
      | inl same ↦ rw same
      | inr other ↦ rw other (first.view j ∙ rw other)
    ];
    last = second.last ∙ first.last;
  }

  ensure_miner-cases :
      (miner : Bytes) (d : Db) {d' : Db}
      → (account_exists miner >>= ensure_miner miner) d ≡ (ok tt, d')
      → Ensured miner d d'
  unfolding ensure_miner account_exists store_account
  ensure_miner-cases miner d {d'} h = elim (Read-cases (get d (account_key miner))) [
    | inl (v, there) ↦ ground arith
    | inr (inl missing) ↦
        let written : put (account_key miner) (marshal_account no_account) d ≡ some d' =
          ground arith in
        inr (
          missing,
          put-Assigned miner no_account d (omega arith) written,
          put-OneEntry miner d written,
        )
    | inr (inr broken) ↦ absurd (ground arith)
  ]

  -- The account before the reward: the one that is there, or a new one where none is stored.
  abbrev pub Before : Bytes → Account → Db → Type 0
  Before miner a d =
      (accounts d miner ≡ some a) ⊎ ((get d (account_key miner) ≡ not_found) × (a ≡ no_account))

  pay :
      (miner : Bytes) (d d₁ : Db) {d' : Db}
      → Ensured miner d d₁
      → (a : Account) → accounts d₁ miner ≡ some a
      → update_account miner (rewarded a) d₁ ≡ (ok tt, d')
      → Before miner a d × Assigned miner (rewarded a) d d'
  pay miner d d₁ {d'} (inl same) a there e =
      let paid = update_account-Assigned miner (rewarded a) d₁ (accounts-nonce d₁ miner there) e in
      (
        inl (subst (λ s. accounts s miner ≡ some a) same there),
        subst (λ s. Assigned miner (rewarded a) s d') same paid,
      )
  pay miner d d₁ {d'} (inr (missing, added, written)) a there e =
      let paid = update_account-Assigned miner (rewarded a) d₁ (accounts-nonce d₁ miner there) e in
      let new : some a ≡ some no_account = sym there ∙ (added.view miner ∙ rw (==_refl miner)) in
      (
        inr (missing, some_cancel new),
        twice-Assigned miner no_account (rewarded a) d d₁ d' added paid,
      )

  -- A reward that succeeds goes to a well-formed address and adds 1000 to its account's balance,
  -- which starts from nothing where the account is new; no other account changes.
  pub reward_to_miner_pays :
      (miner : Bytes) (d : Db) {d' : Db}
      → reward_to_miner miner d ≡ (ok tt, d')
      → (is_valid_address miner ≡ true)
        × (a : Account) × Before miner a d
        × Assigned miner (rewarded a) d d'
  unfolding reward_to_miner
  reward_to_miner_pays miner d {d'} h =
      let invalid = if is_valid_address miner then false else true in
      let (u, d₁, checked, h₁) = continue-ok (raise_if invalid invalid_miner d) _ h in
      let (valid, s₁) = raise_if-ok invalid invalid_miner d checked in
      let (known, d₂, asked, h₂) = continue-ok (account_exists miner d₁) _ h₁ in
      let (v, d₃, made, h₃) = continue-ok (ensure_miner miner known d₂) _ h₂ in
      let (a, d₄, read, h₄) = continue-ok (get_account miner d₃) _ h₃ in
      let (there, s₄) = get_account-ok miner d₃ read in
      let ensured : Ensured miner d₁ d₃ = ensure_miner-cases miner d₁ (rw asked made) in
      let paid =
        pay miner d d₃ (subst (λ s. Ensured miner s d₃) s₁ ensured) a there
          (subst (λ s. update_account miner (rewarded a) s ≡ (ok tt, d')) s₄ h₄) in
      (ground arith, a, paid.0, paid.1)

  -- The reward is the only coin that a block makes: the sum of the balances over any distinct
  -- addresses with the miner's among them goes up by 1000.
  pub reward_to_miner_supply :
      (l : List Bytes) (miner : Bytes) (d : Db) {d' : Db}
      → IsDistinct l
      → contains miner l ≡ true
      → reward_to_miner miner d ≡ (ok tt, d')
      → total l (accounts d') ≡ total l (accounts d) +ℤ pos 1000
  unfolding accounts
  reward_to_miner_supply l miner d {d'} distinct listed h =
      let (valid, a, before, paid) = reward_to_miner_pays miner d h in
      let old : balance_of (accounts d miner) ≡ a.balance = elim before [
        | inl there ↦ ap balance_of there
        | inr (missing, new) ↦ rw (missing, new)
      ] in
      let sum =
        total-assign l miner (rewarded a) (accounts d miner) (accounts d) distinct listed refl in
      total-cong l (accounts d') (assign miner (rewarded a) (accounts d)) paid.view
      ∙ omega (
        int_laws,
        parts_of_eq (
            subst
              (λ z.
                total l (assign miner (rewarded a) (accounts d)) +ℤ z
                ≡ total l (accounts d) +ℤ (a.balance +ℤ pos 1000))
              old sum),
      )
