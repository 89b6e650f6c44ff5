-- ===== src/Block/Store.antt =====
-- What `StoreBlock` leaves in the database.
use simple_blockchain_client.Exec.{ok}
use simple_blockchain_client.Account.View.{lastblock-account_key, accounts}
use simple_blockchain_client.Types.{IsPlainBlock, Block}
use simple_blockchain_client.Block.{
  ok, left_of, found, block_hash, get_last_block, store_block, last_block_left, block_batch,
}
use simple_blockchain_client.Account.{account_key}
use simple_blockchain_client.Text.{codes, Bytes}
use simple_blockchain_client.Platform.{found, batch_read, Json, Crypto, LevelDb}
use simple_blockchain_client.Prelude.{
  refl, ◌∙◌, inr, Option-cases, ◌⊎◌, sym, inl, bytes_eq, ap, Bool-cases, ==_refl, ==_ne, ◌≡◌, ◌==◌,
  All, none, some, false,
}
use simple_blockchain_client.Text.Hex

-- `account:` and `lastblock` are no hexadecimal texts, so that no block is stored under them.
encode-account_key :
    (address bs : Bytes) → All Hex.IsByte bs → (Hex.encode bs == account_key address) ≡ false
unfolding Hex.from_digit
encode-account_key address bs h = ==_ne (Hex.encode bs) (account_key address) (λ e.
    let bad : Hex.decode (account_key address) ≡ none = unfold Hex.decode account_key in refl in
    let good = ap Hex.decode (sym e) ∙ Hex.decode-encode bs h in cc)

encode-lastblock : (bs : Bytes) → All Hex.IsByte bs → (Hex.encode bs == codes "lastblock") ≡ false
unfolding Hex.from_digit
encode-lastblock bs h = ==_ne (Hex.encode bs) (codes "lastblock") (λ e.
    let bad : Hex.decode (codes "lastblock") ≡ none = unfold Hex.decode in refl in
    let good = ap Hex.decode (sym e) ∙ Hex.decode-encode bs h in cc)

module _ ⦃L : LevelDb⦄ ⦃C : Crypto⦄ ⦃J : Json⦄ where
  open L use {Db, get, write, get-write}
  open C use {keccak256, keccak256-bytes}
  open J use {marshal_block, unmarshal_block, block_left, block_left-ok, block_round_trip}

  -- The block is the last one and is found under its hash; the accounts are as they were.
  pub record Stored (b : Block) (d d' : Db) : Type 0 where
    pub last : last_block_left d' ≡ b
    pub by_hash : get d' b.hash ≡ found (marshal_block b)
    pub accounts_kept : (j : Bytes) → accounts d' j ≡ accounts d j

  last_of_text :
      (d : Db) (s : Bytes) {b : Block}
      → get d (codes "lastblock") ≡ found s
      → unmarshal_block s ≡ some b
      → last_block_left d ≡ b
  unfolding last_block_left get_last_block left_of
  last_of_text d s there parsed = rw there (block_left-ok s parsed)

  pub write_block-last :
      (b : Block) (d : Db) {d' : Db}
      → write (block_batch b) d ≡ some d'
      → get d' (codes "lastblock") ≡ found (marshal_block b)
  unfolding block_batch batch_read
  write_block-last b d e = rw (get-write _ d e (codes "lastblock"))

  write_block-by_hash :
      (b : Block) (d : Db) {d' : Db}
      → write (block_batch b) d ≡ some d'
      → get d' b.hash ≡ found (marshal_block b)
  unfolding block_batch batch_read
  write_block-by_hash b d e = elim (Bool-cases (codes "lastblock" == b.hash)) [
    | inl same ↦ rw (get-write _ d e b.hash, same)
    | inr other ↦ rw (get-write _ d e b.hash, other, ==_refl b.hash)
  ]

  pub write_block-accounts :
      (b : Block) (d : Db) {d' : Db}
      → b.hash ≡ block_hash b
      → write (block_batch b) d ≡ some d'
      → (j : Bytes) → accounts d' j ≡ accounts d j
  unfolding block_batch batch_read accounts
  write_block-accounts b d named e j =
      let other : (b.hash == account_key j) ≡ false =
        unfold block_hash in rw named (encode-account_key j (keccak256 _) (keccak256-bytes _)) in
      rw (get-write _ d e (account_key j), lastblock-account_key j, other)

  pub write_block-Stored :
      (b : Block) (d : Db) {d' : Db}
      → unmarshal_block (marshal_block b) ≡ some b
      → b.hash ≡ block_hash b
      → write (block_batch b) d ≡ some d'
      → Stored b d d'
  write_block-Stored b d again named e = record {
    last = last_of_text _ (marshal_block b) (write_block-last b d e) again;
    by_hash = write_block-by_hash b d e;
    accounts_kept = write_block-accounts b d named e;
  }

  pub store_block-cases :
      (b : Block) (d : Db)
      → unmarshal_block (marshal_block b) ≡ some b
      → b.hash ≡ block_hash b
      → ((store_block b d).0 ≡ ok tt) × (((store_block b d).1 ≡ d) ⊎ Stored b d (store_block b d).1)
  unfolding store_block
  store_block-cases b d again named = elim (Option-cases (write (block_batch b) d)) [
    | inl refused ↦ rw (refused, store_block) (refl, inl refl)
    | inr (d', written) ↦
        rw (written, store_block) (refl, inr (write_block-Stored b d again named written))
  ]

  -- `StoreBlock` reports success whatever happens: it writes nothing, or a block of plain texts that
  -- carries the hash of its header is the last block from then on, is found under its hash, and
  -- leaves every account as it was.
  pub store_block_stores :
      (b : Block) (d : Db)
      → IsPlainBlock b
      → b.hash ≡ block_hash b
      → ((store_block b d).0 ≡ ok tt) × (((store_block b d).1 ≡ d) ⊎ Stored b d (store_block b d).1)
  store_block_stores b d plain named = store_block-cases b d (block_round_trip b plain) named
