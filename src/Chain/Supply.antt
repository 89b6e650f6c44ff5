-- ===== src/Chain/Supply.antt =====
-- The coins that the messages of the processor make.
use simple_blockchain_client.Account.Address.{is_valid_address}
use simple_blockchain_client.Chain.Links.{accept_block-db}
use simple_blockchain_client.Block.Validate.{validate_received_block_sound}
use simple_blockchain_client.Block.Store.{store_block-cases}
use simple_blockchain_client.Block.Reward.{reward_to_miner_supply}
use simple_blockchain_client.Account.State.{put-OneEntry, OneEntry, Ensured}
use simple_blockchain_client.Int.{parts_of_eq, int_laws, pos, ◌+ℤ◌}
use simple_blockchain_client.Exec.{err, Error, Outcome-cases}
use simple_blockchain_client.Chain.Steady.{validate_received_block_keeps, IsSteady}
use simple_blockchain_client.Types.{Block}
use simple_blockchain_client.Transaction.Supply.{
  total-assign, total-assign_absent, execute_transactions_conserves, total-cong, balance_of,
  IsAmong, total, IsDistinct,
}
use simple_blockchain_client.Account.{
  store_account, update_account, get_account, account_key, account_exists,
}
use simple_blockchain_client.Text.{contains, Bytes}
use simple_blockchain_client.Chain.{
  err, pos, accept_block, not_found, account_key, Node, Block, handle_validated, Bytes,
  handle_block,
}
use simple_blockchain_client.Block.{
  validate_received_block, store_block, block_hash, ensure_miner, reward_to_miner,
}
use simple_blockchain_client.Account.View.{put-Assigned, assign, no_account, Assigned, accounts}
use simple_blockchain_client.Platform.{Read-cases, not_found, Json, Crypto, LevelDb}
use simple_blockchain_client.Prelude.{
  arith, Bool-cases, sym, subst, ap, refl, inr, ◌⊎◌, ◌∙◌, inl, ◌≡◌, Option-cases, List, some, true,
}

module _ ⦃L : LevelDb⦄ ⦃J : Json⦄ where
  open L use {Db, get, put}
  open J use {marshal_account}

  -- The sum of the balances over a list of addresses stays.
  abbrev TotalKept : List Bytes → Db → Db → Type 0
  TotalKept l d d' = total l (accounts d') ≡ total l (accounts d)

  not_found-balance :
      (address : Bytes) (d : Db)
      → get d (account_key address) ≡ not_found
      → balance_of (accounts d address) ≡ pos 0
  unfolding accounts
  not_found-balance address d missing = rw missing

  added-TotalKept :
      (l : List Bytes)
      → IsDistinct l
      → (address : Bytes) (d d' : Db) → get d (account_key address) ≡ not_found
      → Assigned address no_account d d'
      → TotalKept l d d'
  added-TotalKept l distinct address d d' missing new =
      total-cong l (accounts d') (assign address no_account (accounts d)) new.view
      ∙ elim (Bool-cases (contains address l)) [
        | inr absent ↦ total-assign_absent l address no_account (accounts d) absent
        | inl listed ↦
            let sum =
              total-assign l address no_account (accounts d address) (accounts d) distinct listed
                refl in
            omega (
              int_laws,
              parts_of_eq (
                  subst
                    (λ z.
                      total l (assign address no_account (accounts d)) +ℤ z
                      ≡ total l (accounts d) +ℤ pos 0)
                    (not_found-balance address d missing) sum),
            )
      ]

  TotalKept-IsSteady : (l : List Bytes) → IsDistinct l → IsSteady (TotalKept l)
  TotalKept-IsSteady l distinct = record {
    still = λ d. refl;
    trans = λ d d₁ d₂ first second. second ∙ first;
    added = added-TotalKept l distinct;
  }

  -- A reward that fails leaves the accounts, but for a new one of the miner.
  reward_to_miner-err :
      (miner : Bytes) (d : Db) {e : Error} {d' : Db}
      → reward_to_miner miner d ≡ (err e, d')
      → Ensured miner d d'
  unfolding reward_to_miner ensure_miner account_exists get_account update_account store_account
  reward_to_miner-err miner d {e} {d'} h = elim (Read-cases (get d (account_key miner))) [
    | inl (v, there) ↦ inl (ground arith)
    | inr (inl missing) ↦
        elim (Option-cases (put (account_key miner) (marshal_account no_account) d)) [
          | inl refused ↦ inl (ground arith)
          | inr (d₁, done) ↦ elim (Bool-cases (is_valid_address miner)) [
            | inl valid ↦
                let same : d₁ ≡ d' = ground arith in
                inr (
                  missing,
                  subst (Assigned miner no_account d) same
                      (put-Assigned miner no_account d (omega arith) done),
                  subst (OneEntry miner d) same (put-OneEntry miner d done),
                )
            | inr invalid ↦ inl (ground arith)
          ]
        ]
    | inr (inr broken) ↦ inl (ground arith)
  ]

  -- Nothing is made, or the reward of one block.
  abbrev pub Minted : List Bytes → Db → Db → Type 0
  Minted l d d' =
      (total l (accounts d') ≡ total l (accounts d))
      ⊎ (total l (accounts d') ≡ total l (accounts d) +ℤ pos 1000)

  pub reward_to_miner-Minted :
      (l : List Bytes) (miner : Bytes) (d : Db)
      → IsDistinct l
      → contains miner l ≡ true
      → Minted l d (reward_to_miner miner d).1
  reward_to_miner-Minted l miner d distinct listed =
      elim (Outcome-cases (reward_to_miner miner d)) [
        | inl (u, d', e) ↦ inr (
            subst (λ o. total l (accounts o.1) ≡ total l (accounts d) +ℤ pos 1000) (sym e)
              (reward_to_miner_supply l miner d distinct listed e))
        | inr (error, d', e) ↦ inl (
            subst (λ o. TotalKept l d o.1) (sym e)
              (elim (reward_to_miner-err miner d e) [
                | inl same ↦ ap (λ s. total l (accounts s)) same
                | inr (missing, new, written) ↦ added-TotalKept l distinct miner d d' missing new
              ]))
      ]

module _ ⦃L : LevelDb⦄ ⦃C : Crypto⦄ ⦃J : Json⦄ where
  open L use {Db, get}
  open J use {unmarshal_block, marshal_block, block_again, unmarshal_raw_transaction}

  -- The block of a message stays among the listed addresses.
  abbrev pub IsWithin : List Bytes → Bytes → Type 0
  IsWithin l content =
      (b : Block)
      → unmarshal_block content ≡ some b
      → (contains b.miner l ≡ true) × IsAmong l b.transaction

  accept_block-Minted :
      (l : List Bytes) (b : Block) (n : Node)
      → IsDistinct l
      → (contains b.miner l ≡ true) × IsAmong l b.transaction
      → unmarshal_block (marshal_block b) ≡ some b
      → b.hash ≡ block_hash b
      → Minted l n.db (accept_block b n).1.db
  accept_block-Minted l b n distinct (listed, among) again named =
      let d₁ = (reward_to_miner b.miner n.db).1 in
      let d₂ = (store_block b d₁).1 in
      let stored : total l (accounts d₂) ≡ total l (accounts d₁) =
        elim (store_block-cases b d₁ again named).1 [
          | inl dropped ↦ ap (λ s. total l (accounts s)) dropped
          | inr kept ↦ total-cong l (accounts d₂) (accounts d₁) kept.accounts_kept
        ] in
      let all = execute_transactions_conserves l b.transaction d₂ distinct among ∙ stored in
      subst (Minted l n.db) (sym (accept_block-db b n))
        (elim (reward_to_miner-Minted l b.miner n.db distinct listed) [
          | inl same ↦ inl (all ∙ same)
          | inr more ↦ inr (all ∙ more)
        ])

  pub then-Minted :
      (l : List Bytes) (d d₁ d₂ : Db)
      → total l (accounts d₁) ≡ total l (accounts d)
      → Minted l d₁ d₂
      → Minted l d d₂
  then-Minted l d d₁ d₂ same (inl none_made) = inl (none_made ∙ same)
  then-Minted l d d₁ d₂ same (inr made) = inr (made ∙ ap (λ z. z +ℤ pos 1000) same)

  -- A block message makes no coins, or 1000: over any distinct addresses with the miner's and those of
  -- the transactions, which go from one account to another, the sum of the balances stays as it was or
  -- goes up by the reward, whether the block is accepted or refused.
  pub handle_block-Minted :
      (l : List Bytes) (content : Bytes) (n : Node)
      → IsDistinct l
      → IsWithin l content
      → Minted l n.db (handle_block content n).1.db
  unfolding handle_block handle_validated
  handle_block-Minted l content n distinct within = elim (Option-cases (unmarshal_block content)) [
    | inl bad ↦ rw (bad, handle_block) (inl refl)
    | inr (b, read) ↦
        let kept =
          validate_received_block_keeps (TotalKept l) (TotalKept-IsSteady l distinct) b n.db in
        elim (Outcome-cases (validate_received_block b n.db)) [
          | inl (u, d, passed) ↦
              let next = (validate_received_block_sound b n.db passed).0 in
              rw (read, passed, handle_block, handle_validated)
                (then-Minted l n.db d _ (subst (λ o. TotalKept l n.db o.1) passed kept) (
                  accept_block-Minted l b (record { db = d; mempool = n.mempool }) distinct
                    (within b read) (block_again content read) next.hash))
          | inr (e, d, refused) ↦
              rw (read, refused, handle_block, handle_validated)
                (inl (subst (λ o. TotalKept l n.db o.1) refused kept))
        ]
  ]
