-- ===== src/Chain/Start.antt =====
-- The start of a node: its genesis block and its account.
use simple_blockchain_client.Block.Store.{write_block-last, write_block-Stored}
use simple_blockchain_client.Account.Address.{create_account}
use simple_blockchain_client.Account.View.{put-Assigned, assign, accounts}
use simple_blockchain_client.Int.{pos}
use simple_blockchain_client.Exec.{ok, Result}
use simple_blockchain_client.Account.{account_key, store_account_for_genesis_miner}
use simple_blockchain_client.Types.{Block, IsPlainBlock, IsAscii}
use simple_blockchain_client.Block.{block_batch, last_block_left, block_hash}
use simple_blockchain_client.Chain.{
  create_account, pos, err, Block, ok, Read, store_account_for_genesis_miner, found, codes, Result,
  Option, store_node_account, store_genesis_block, node_batch, ltb, load_or_create,
  initialize_node_account, init_genesis_block, has_block, block_hash, genesis_block,
}
use simple_blockchain_client.Text.{codes, Bytes}
use simple_blockchain_client.Platform.{
  failed, not_found, Read, found, batch_read, Json, LevelDb, Crypto,
}
use simple_blockchain_client.Text.Hex
use simple_blockchain_client.Prelude.{
  inr, inl, ◌∙◌, sym, Option-cases, subst, ◌%◌, ap, ◌/◌, ◌&&◌, refl, Option, ltb, ◌≡◌, arith, Bool,
  All, ◌<◌, ◌∷◌, [], ℕ, some, true, false,
}

to_digit-IsAscii : (n : ℕ) → n < 16 → Hex.to_digit n < 128
unfolding Hex.to_digit
to_digit-IsAscii n h = ground arith

encode-IsAscii : (bs : Bytes) → All Hex.IsByte bs → IsAscii (Hex.encode bs)
unfolding Hex.encode
encode-IsAscii [] h = tt
encode-IsAscii (b ∷ bs) (hb, h) = (
  to_digit-IsAscii (b / 16) (omega arith),
  (to_digit-IsAscii (b % 16) (omega arith), encode-IsAscii bs h),
)

abbrev below : Bytes → Bool
below [] = true
below (c ∷ s) = ltb c 128 && below s

below-IsAscii : (s : Bytes) → below s ≡ true → IsAscii s
below-IsAscii [] h = tt
below-IsAscii (c ∷ s) h = (ground arith, below-IsAscii s (ground arith))

module _ ⦃C : Crypto⦄ where
  open C use {keccak256, keccak256-bytes}

  genesis_block-IsPlain : IsPlainBlock genesis_block
  unfolding genesis_block block_hash
  genesis_block-IsPlain = record {
    hash = encode-IsAscii (keccak256 _) (keccak256-bytes _);
    parent_hash = below-IsAscii (codes "0x0") refl;
    merkle_root = below-IsAscii (codes "0x0") refl;
    miner = below-IsAscii (codes "0xde589C867174C349d00e9b582867aF5c13A74679") refl;
    number = omega arith;
    timestamp = omega arith;
    transaction = tt;
  }

  pub genesis_block-hash : genesis_block.hash ≡ block_hash genesis_block
  unfolding genesis_block block_hash
  genesis_block-hash = refl

module _ ⦃L : LevelDb⦄ ⦃C : Crypto⦄ ⦃J : Json⦄ where
  open L use {Db, get, put, write, get-put, get-write}
  open J use {
    marshal_block, unmarshal_block, block_left, block_left-ok, block_left-nil, block_round_trip,
    marshal_account,
  }

  nonempty : (s : Bytes) → block_left s ≡ genesis_block → has_block (found s) ≡ true
  unfolding has_block genesis_block
  nonempty [] e =
      absurd (let n = ap (λ (b : Block). b.number) (sym block_left-nil ∙ e) in omega (arith, n))
  nonempty (c ∷ s) e = refl

  -- What was written is a block, and so not empty.
  pub has_block-genesis : has_block (found (marshal_block genesis_block)) ≡ true
  has_block-genesis = nonempty (marshal_block genesis_block) (
      block_left-ok (marshal_block genesis_block)
        (block_round_trip genesis_block genesis_block-IsPlain))

  node_batch-read :
      (address : Bytes) (d : Db) {d' : Db}
      → write (node_batch address) d ≡ some d'
      → get d' (codes "nodeAccount") ≡ found address
  unfolding node_batch batch_read account_key
  node_batch-read address d e = rw (get-write _ d e (codes "nodeAccount"))

  store_node_account-ok :
      (made : Result (Bytes × Bytes)) (d : Db) {address : Bytes} {d' : Db}
      → store_node_account made d ≡ (ok address, d')
      → write (node_batch address) d ≡ some d'
  unfolding store_node_account
  store_node_account-ok (err e) d h = cc
  store_node_account-ok (ok (private_key, made)) d {address} {d'} h =
      elim (Option-cases (write (node_batch made) d)) [
        | inl refused ↦ absurd (ground arith)
        | inr (d₁, written) ↦
            let here : made ≡ address = ground arith in
            let there : d₁ ≡ d' = ground arith in
            subst (λ a. write (node_batch a) d ≡ some d') here (written ∙ ap some there)
      ]

  pub loaded :
      (later_pair : Option (Bytes × Bytes)) (address : Bytes) (d : Db)
      → get d (codes "nodeAccount") ≡ found address
      → initialize_node_account later_pair d ≡ (ok address, d)
  unfolding initialize_node_account load_or_create
  loaded later_pair address d there = rw there

  pub load_or_create-read :
      (key_pair : Option (Bytes × Bytes)) (r : Read) (d : Db) {address : Bytes} {d' : Db}
      → get d (codes "nodeAccount") ≡ r
      → load_or_create key_pair r d ≡ (ok address, d')
      → get d' (codes "nodeAccount") ≡ found address
  unfolding load_or_create
  load_or_create-read key_pair (found v) d {address} {d'} there h =
      let here : v ≡ address = ground arith in
      let same : d ≡ d' = ground arith in
      subst (λ s. get s (codes "nodeAccount") ≡ found address) same (there ∙ ap found here)
  load_or_create-read key_pair not_found d {address} there h =
      node_batch-read address d (store_node_account-ok (create_account key_pair) d h)
  load_or_create-read key_pair failed d {address} there h =
      node_batch-read address d (store_node_account-ok (create_account key_pair) d h)

  -- The address of the node is stored: the next start gives the same address, whatever key pair it
  -- would make, and writes nothing.
  pub initialize_node_account_again :
      (key_pair later_pair : Option (Bytes × Bytes)) (d : Db) {address : Bytes} {d' : Db}
      → initialize_node_account key_pair d ≡ (ok address, d')
      → initialize_node_account later_pair d' ≡ (ok address, d')
  unfolding initialize_node_account
  initialize_node_account_again key_pair later_pair d {address} {d'} h =
      loaded later_pair address d'
        (load_or_create-read key_pair (get d (codes "nodeAccount")) d refl h)

  pub store_genesis_block-ok :
      (d : Db) {d' : Db}
      → store_genesis_block d ≡ (ok tt, d')
      → (d₁ : Db) × (put
            (account_key genesis_block.miner)
            (marshal_account (record { balance = pos 10000; nonce = 0 }))
            d
          ≡ some d₁)
        × (write (block_batch genesis_block) d₁ ≡ some d')
  unfolding store_genesis_block store_account_for_genesis_miner
  store_genesis_block-ok d {d'} h =
      elim (Option-cases (
        put (account_key genesis_block.miner)
          (marshal_account (record { balance = pos 10000; nonce = 0 })) d)) [
            | inl refused ↦ absurd (ground arith)
            | inr (d₁, done) ↦ (d₁, done, ground arith)
          ]

  -- On a database without a block, a start that succeeds makes the genesis block the last one and gives
  -- its miner 10000 coins, every other account as it was; the next start writes nothing.
  pub init_genesis_block_starts :
      (d : Db) {d' : Db}
      → has_block (get d (codes "lastblock")) ≡ false
      → init_genesis_block d ≡ (ok tt, d')
      → (last_block_left d' ≡ genesis_block)
        × ((j : Bytes)
            → accounts d' j
              ≡ assign genesis_block.miner
                  (record { balance = pos 10000; nonce = 0 })
                  (accounts d)
                  j)
        × (init_genesis_block d' ≡ (ok tt, d'))
  unfolding init_genesis_block
  init_genesis_block_starts d {d'} empty h =
      let (d₁, put_miner, written) = store_genesis_block-ok d (ground arith) in
      let again = block_round_trip genesis_block genesis_block-IsPlain in
      let stored = write_block-Stored genesis_block d₁ again genesis_block-hash written in
      let miner =
        put-Assigned genesis_block.miner (record { balance = pos 10000; nonce = 0 }) d (omega arith)
          put_miner in
      (
        stored.last,
        λ j. stored.accounts_kept j ∙ miner.view j,
        rw (write_block-last genesis_block d₁ written, has_block-genesis),
      )
