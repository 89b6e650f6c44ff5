-- ===== src/Mempool/Full.antt =====
-- How many transactions `ExtractTransactionsForBlock` takes.
use simple_blockchain_client.Text.{Bytes}
use simple_blockchain_client.Mempool.{
  extract_from, Table, Mempool, ltb, table, leb, Extraction, length, Bytes, visit,
  extract_transactions_for_block, extract_rounds, extract_round,
}
use simple_blockchain_client.Prelude.{
  length-append, sym, subst, refl, ltb, leb, arith, ◌⊎◌, ◌+◌, inl, ap, Bool-cases, All, ◌≤◌, ◌≡◌,
  ◌<◌, inr, length, List, ◌∷◌, [], zero, suc, ℕ, true, false,
}

-- A round leaves everything as it was, since the block is full or no account has anything, or it
-- takes something and says so.
data Round (max_txs : ℕ) (accounts : List Bytes) (s s' : Extraction) : Type 0 where
  idle :
      s' ≡ s
      → (max_txs ≤ length s.block_txs) ⊎ All (λ a. table a s.queue ≡ []) accounts
      → Round max_txs accounts s s'
  took : s'.more ≡ true → length s.block_txs < length s'.block_txs → Round max_txs accounts s s'

visit-length :
    (max_txs : ℕ) (account : Bytes) (t : Table) (s : Extraction)
    → length s.block_txs < max_txs
    → length (visit account t s).block_txs ≤ max_txs
unfolding visit
visit-length max_txs account [] s h = omega arith
visit-length max_txs account (e ∷ t) s h =
    let one = length-append s.block_txs ((extract_from account e t s.queue).0 ∷ []) in ground arith

extract_round-length :
    (max_txs : ℕ) (accounts : List Bytes) (s : Extraction)
    → length s.block_txs ≤ max_txs
    → length (extract_round max_txs accounts s).block_txs ≤ max_txs
unfolding extract_round
extract_round-length max_txs [] s h = h
extract_round-length max_txs (account ∷ accounts) s h =
    elim (Bool-cases (leb max_txs (length s.block_txs))) [
      | inl full ↦ rw (full, extract_round) h
      | inr free ↦
          rw (free, extract_round)
            (extract_round-length max_txs accounts (visit account (table account s.queue) s)
              (visit-length max_txs account (table account s.queue) s (ground arith)))
    ]

visited-Round :
    (max_txs : ℕ) (account : Bytes) (accounts : List Bytes) (s : Extraction) (t : Table)
    {s' : Extraction}
    → table account s.queue ≡ t
    → Round max_txs accounts (visit account t s) s'
    → Round max_txs (account ∷ accounts) s s'
unfolding visit
visited-Round max_txs account accounts s [] eq (idle same (inl full)) = idle same (inl full)
visited-Round max_txs account accounts s [] eq (idle same (inr empty)) = idle same (inr (eq, empty))
visited-Round max_txs account accounts s [] eq (took more longer) = took more longer
visited-Round max_txs account accounts s (e ∷ t) eq (idle same why) = took (ap (λ x. x.more) same) (
    let one = length-append s.block_txs ((extract_from account e t s.queue).0 ∷ []) in
    rw (ap (λ x. length x.block_txs) same) (ground arith))
visited-Round max_txs account accounts s (e ∷ t) eq (took more longer) = took more (
    let one = length-append s.block_txs ((extract_from account e t s.queue).0 ∷ []) in ground arith)

extract_round-Round :
    (max_txs : ℕ) (accounts : List Bytes) (s : Extraction)
    → Round max_txs accounts s (extract_round max_txs accounts s)
unfolding extract_round
extract_round-Round max_txs [] s = idle refl (inr tt)
extract_round-Round max_txs (account ∷ accounts) s =
    elim (Bool-cases (leb max_txs (length s.block_txs))) [
      | inl full ↦ rw (full, extract_round) (idle refl (inl (ground arith)))
      | inr free ↦
          rw (free, extract_round)
            (visited-Round max_txs account accounts s (table account s.queue) refl
              (extract_round-Round max_txs accounts (visit account (table account s.queue) s)))
    ]

-- The result of the loop.
record IsFull (max_txs : ℕ) (accounts : List Bytes) (s : Extraction) : Type 0 where
  bounded : length s.block_txs ≤ max_txs
  exhausted : length s.block_txs < max_txs → All (λ a. table a s.queue ≡ []) accounts

idle-IsFull :
    (max_txs : ℕ) (accounts : List Bytes) (s s' : Extraction)
    → length s.block_txs < max_txs
    → s'.more ≡ false
    → Round max_txs accounts s s'
    → IsFull max_txs accounts s'
idle-IsFull max_txs accounts s s' h done (idle same (inl full)) = absurd (ground arith)
idle-IsFull max_txs accounts s s' h done (idle same (inr empty)) =
    subst (IsFull max_txs accounts) (sym same)
      (record { bounded = omega arith; exhausted = λ less. empty })
idle-IsFull max_txs accounts s s' h done (took more longer) = absurd (ground arith)

more-longer :
    (max_txs : ℕ) (accounts : List Bytes) (s s' : Extraction)
    → s.more ≡ false
    → s'.more ≡ true
    → Round max_txs accounts s s'
    → length s.block_txs < length s'.block_txs
more-longer max_txs accounts s s' before more (idle same why) =
    absurd (let e = ap (λ x. x.more) same in ground arith)
more-longer max_txs accounts s s' before more (took flag longer) = longer

extract_rounds-IsFull :
    (fuel max_txs : ℕ) (accounts : List Bytes) (s : Extraction)
    → length s.block_txs ≤ max_txs
    → max_txs < fuel + length s.block_txs
    → IsFull max_txs accounts (extract_rounds fuel max_txs accounts s)
unfolding extract_rounds
extract_rounds-IsFull zero max_txs accounts s h enough = absurd (omega arith)
extract_rounds-IsFull (suc fuel) max_txs accounts s h enough =
    let s₀ : Extraction = record s { more = false } in
    let s' = extract_round max_txs accounts s₀ in
    let round = extract_round-Round max_txs accounts s₀ in
    elim (Bool-cases (ltb (length s.block_txs) max_txs)) [
      | inr full ↦
          rw (full, extract_rounds)
            (record { bounded = h; exhausted = λ less. absurd (ground arith) })
      | inl free ↦ elim (Bool-cases s'.more) [
        | inl more ↦
            rw (free, more, extract_rounds)
              (extract_rounds-IsFull fuel max_txs accounts s'
                (extract_round-length max_txs accounts s₀ h)
                (let longer = more-longer max_txs accounts s₀ s' refl more round in omega arith))
        | inr done ↦
            rw (free, done, extract_rounds)
              (idle-IsFull max_txs accounts s₀ s' (ground arith) done round)
      ]
    ]

-- `ExtractTransactionsForBlock` takes no more than the maximum, and takes fewer only if no account
-- has a pending transaction left.
pub extract_transactions_for_block_full :
    (max_txs : ℕ) (accounts : List Bytes) (mp : Mempool)
    → let (block_txs, mp') = extract_transactions_for_block max_txs accounts mp in
      (length block_txs ≤ max_txs)
      × (length block_txs < max_txs → All (λ a. table a mp'.pending ≡ []) accounts)
unfolding extract_transactions_for_block
extract_transactions_for_block_full max_txs accounts mp =
    let s : Extraction = record { block_txs = []; more = false; queue = mp.pending } in
    let full = extract_rounds-IsFull (max_txs + 1) max_txs accounts s (omega arith) (omega arith) in
    (full.bounded, full.exhausted)
