-- ===== src/Mempool/Extract.antt =====
-- What `ExtractTransactionsForBlock` takes out of the pending queue.
use simple_blockchain_client.Mempool.Lowest.{lowest-le_Has, lowest-lookup}
use simple_blockchain_client.Mempool.Clean.{uses}
use simple_blockchain_client.Map.{lookup-erase, erase, lookup}
use simple_blockchain_client.Text.{Bytes}
use simple_blockchain_client.Mempool.View.{table-put_or_drop, Has, IsKeyed}
use simple_blockchain_client.Types.{Transaction}
use simple_blockchain_client.Mempool.{
  length, ltb, leb, put_or_drop, lowest, Mempool, extract_transactions_for_block, extract_rounds,
  extract_round, extract_from, Table, visit, table, Extraction, lookup, Bool, Bytes, Queue,
}
use simple_blockchain_client.Prelude.{
  ==_iff, ap, subst, inr, inl, length, ◌+◌, ltb, leb, Bool-cases, ==_refl, All-append, refl,
  bytes_eq, arith, ◌∙◌, ◌&&◌, nat_eq, ◌≤◌, ◌==◌, ◌<◌, sym, ◌||◌, if◌then◌else◌, ◌≡◌, ◌++◌, Bool,
  All, List, ◌∷◌, [], zero, suc, ℕ, none, some, false,
}

-- One transaction taken out of a queue, every other one as before.
abbrev Removed : Transaction → Queue → Queue → Type 0
Removed tx q q' =
    (a : Bytes) (k : ℕ)
    → lookup k (table a q') ≡ (if tx.from == a && tx.nonce == k then none else lookup k (table a q))

uses-append :
    (txs : List Transaction) (tx : Transaction) (a : Bytes) (k : ℕ)
    → uses (txs ++ tx ∷ []) a k ≡ (uses txs a k || (tx.from == a && tx.nonce == k))
uses-append [] tx a k = ground arith
uses-append (x ∷ txs) tx a k = ground (arith, uses-append txs tx a k)

-- What has been taken so far: transactions of the queue, each gone from it, and for each account
-- none above one that is left.
pub record IsTaken (q : Queue) (txs : List Transaction) (q' : Queue) : Type 0 where
  pub removed :
      (a : Bytes) (k : ℕ)
      → lookup k (table a q') ≡ (if uses txs a k then none else lookup k (table a q))
  pub were_pending : All (λ tx. lookup tx.nonce (table tx.from q) ≡ some tx) txs
  pub lowest_first : All (λ tx. (k : ℕ) → Has k (table tx.from q') → tx.nonce < k) txs

none-IsTaken : (q : Queue) → IsTaken q [] q
none-IsTaken q = record { removed = λ a k. refl; were_pending = tt; lowest_first = tt }

All-map {ℓ} :
    {A : Type ℓ} (P Q : A → Type 0) (xs : List A) → ((x : A) → P x → Q x) → All P xs → All Q xs
All-map P Q [] f h = tt
All-map P Q (x ∷ xs) f (hx, h) = (f x hx, All-map P Q xs f h)

module _ (q : Queue) (keyed : IsKeyed q) (txs : List Transaction) (q₁ : Queue)
    (taken : IsTaken q txs q₁) where
  -- What is left stands under its own sender and nonce, as it did.
  left_was :
      (a : Bytes) (k : ℕ) (x : Transaction)
      → lookup k (table a q₁) ≡ some x
      → (lookup k (table a q) ≡ some x) × (uses txs a k ≡ false)
  left_was a k x h =
      let e : (if uses txs a k then none else lookup k (table a q)) ≡ some x =
        sym (taken.removed a k) ∙ h in
      ground arith

  take-IsTaken :
      (tx : Transaction) (q₂ : Queue)
      → lookup tx.nonce (table tx.from q₁) ≡ some tx
      → ((k : ℕ) → Has k (table tx.from q₁) → tx.nonce ≤ k)
      → Removed tx q₁ q₂
      → IsTaken q (txs ++ tx ∷ []) q₂
  take-IsTaken tx q₂ there lowest gone = record {
    removed = λ a k. ground (arith, gone a k, taken.removed a k, uses-append txs tx a k);
    were_pending =
        All-append (λ x. lookup x.nonce (table x.from q) ≡ some x) txs (tx ∷ []) taken.were_pending
          ((left_was tx.from tx.nonce tx there).0, tt);
    lowest_first =
        All-append (λ x. (k : ℕ) → Has k (table x.from q₂) → x.nonce < k) txs (tx ∷ [])
          (All-map (λ x. (k : ℕ) → Has k (table x.from q₁) → x.nonce < k)
            (λ x. (k : ℕ) → Has k (table x.from q₂) → x.nonce < k) txs
            (λ x h k g. h k (still x.from k g)) taken.lowest_first)
          ((λ k g. above k g), tt);
  }
    where
      still : (a : Bytes) (k : ℕ) → Has k (table a q₂) → Has k (table a q₁)
      still a k (x, h) =
          let e : (if tx.from == a && tx.nonce == k then none else lookup k (table a q₁)) ≡ some x =
            sym (gone a k) ∙ h in
          (x, ground arith)

      above : (k : ℕ) → Has k (table tx.from q₂) → tx.nonce < k
      above k (x, h) =
          let e : (if tx.from == tx.from && tx.nonce == k
                then none
                else lookup k (table tx.from q₁))
              ≡ some x =
            sym (gone tx.from k) ∙ h in
          let le = lowest k (still tx.from k (x, h)) in ground (arith, ==_refl tx.from)

  -- The queue after a visit, for the entry that was taken.
  gone-visit :
      (account : Bytes) (n : ℕ) (tx : Transaction) (t : Table)
      → table account q₁ ≡ t
      → tx.from ≡ account
      → tx.nonce ≡ n
      → Removed tx q₁ (put_or_drop account (erase n t) q₁)
  gone-visit account n tx t eq own num a k =
      rw (own, num, table-put_or_drop a account (erase n t) q₁)
        (elim (Bool-cases (account == a)) [
          | inl same ↦ rw (
            same,
            lookup-erase n k t,
            sym (ap (λ b. table b q₁) ((==_iff account a).0 same)) ∙ eq,
          )
          | inr other ↦ rw other
        ])

  visit-IsTaken :
      (account : Bytes) (t : Table) (more : Bool)
      → table account q₁ ≡ t
      → let s : Extraction = record { block_txs = txs; more = more; queue = q₁ } in
        IsTaken q (visit account t s).block_txs (visit account t s).queue
  unfolding visit extract_from
  visit-IsTaken account [] more eq = taken
  visit-IsTaken account (e ∷ t) more eq =
      let n = (lowest e t).0 in
      let tx = (lowest e t).1 in
      let found : lookup n (table account q₁) ≡ some tx = rw eq (lowest-lookup e t) in
      let (own, num, fits) = keyed account n tx (left_was account n tx found).0 in
      take-IsTaken tx (put_or_drop account (erase n (e ∷ t)) q₁) (rw (own, num) found)
        (λ k (x, h). rw num (
          lowest-le_Has e t k (
            x,
            subst (λ u. lookup k u ≡ some x) eq (subst (λ b. lookup k (table b q₁) ≡ some x) own h),
          )))
        (gone-visit account n tx (e ∷ t) eq own num)

module _ (q : Queue) (keyed : IsKeyed q) where
  extract_round-IsTaken :
      (max_txs : ℕ) (accounts : List Bytes) (s : Extraction)
      → IsTaken q s.block_txs s.queue
      → IsTaken q
          (extract_round max_txs accounts s).block_txs
          (extract_round max_txs accounts s).queue
  unfolding extract_round
  extract_round-IsTaken max_txs [] s h = h
  extract_round-IsTaken max_txs (account ∷ accounts) s h =
      elim (Bool-cases (leb max_txs (length s.block_txs))) [
        | inl full ↦ rw (full, extract_round) h
        | inr free ↦
            rw (free, extract_round)
              (extract_round-IsTaken max_txs accounts (visit account (table account s.queue) s) (
                visit-IsTaken q keyed s.block_txs s.queue h account (table account s.queue) s.more
                  refl))
      ]

  extract_rounds-IsTaken :
      (fuel max_txs : ℕ) (accounts : List Bytes) (s : Extraction)
      → IsTaken q s.block_txs s.queue
      → IsTaken q
          (extract_rounds fuel max_txs accounts s).block_txs
          (extract_rounds fuel max_txs accounts s).queue
  unfolding extract_rounds
  extract_rounds-IsTaken zero max_txs accounts s h = h
  extract_rounds-IsTaken (suc fuel) max_txs accounts s h =
      let s' = extract_round max_txs accounts (record s { more = false }) in
      let h' = extract_round-IsTaken max_txs accounts (record s { more = false }) h in
      elim (Bool-cases (ltb (length s.block_txs) max_txs)) [
        | inr full ↦ rw (full, extract_rounds) h
        | inl free ↦ elim (Bool-cases s'.more) [
          | inl more ↦
              rw (free, more, extract_rounds) (extract_rounds-IsTaken fuel max_txs accounts s' h')
          | inr done ↦ rw (free, done, extract_rounds) h'
        ]
      ]

-- `ExtractTransactionsForBlock` takes transactions that were pending, for each account those with the
-- lowest nonces, and leaves everything else: a nonce is gone exactly if the block uses it.
pub extract_transactions_for_block-IsTaken :
    (max_txs : ℕ) (accounts : List Bytes) (mp : Mempool)
    → IsKeyed mp.pending
    → let (block_txs, mp') = extract_transactions_for_block max_txs accounts mp in
      IsTaken mp.pending block_txs mp'.pending × (mp'.future ≡ mp.future)
unfolding extract_transactions_for_block
extract_transactions_for_block-IsTaken max_txs accounts mp keyed = (
  extract_rounds-IsTaken mp.pending keyed (max_txs + 1) max_txs accounts _
      (none-IsTaken mp.pending),
  refl,
)
