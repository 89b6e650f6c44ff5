-- ===== src/Mempool/Lowest.antt =====
-- The entry of a table that `ExtractTransactionsForBlock` takes: the one with the lowest nonce.
use simple_blockchain_client.Mempool.View.{Has}
use simple_blockchain_client.Types.{Transaction}
use simple_blockchain_client.Map.{lookup}
use simple_blockchain_client.Mempool.{ltb, Table, lookup, Transaction, lowest}
use simple_blockchain_client.Prelude.{
  ◌∙◌, sym, nat_eq, inr, inl, ◌==◌, ltb, if◌then◌else◌, Bool-cases, arith, ◌≤◌, ◌≡◌, ◌∷◌, [], ℕ,
  some, true, false,
}

lowest-le : (e : ℕ × Transaction) (t : Table) → (lowest e t).0 ≤ e.0
unfolding lowest
lowest-le e [] = omega arith
lowest-le e (x ∷ t) = ground (arith, lowest-le (if ltb x.0 e.0 then x else e) t)

lowest-lower :
    (e x : ℕ × Transaction) (t : Table) → ltb x.0 e.0 ≡ true → lowest e (x ∷ t) ≡ lowest x t
unfolding lowest
lowest-lower e x t h = ground arith

lowest-other :
    (e x : ℕ × Transaction) (t : Table) → ltb x.0 e.0 ≡ false → lowest e (x ∷ t) ≡ lowest e t
unfolding lowest
lowest-other e x t h = ground arith

lookup-head :
    (k : ℕ) (e : ℕ × Transaction) (t : Table) → (e.0 == k) ≡ true → lookup k (e ∷ t) ≡ some e.1
unfolding lookup
lookup-head k e t h = ground arith

lookup-skip :
    (k : ℕ) (e : ℕ × Transaction) (t : Table) → (e.0 == k) ≡ false → lookup k (e ∷ t) ≡ lookup k t
unfolding lookup
lookup-skip k e t h = ground arith

-- It is the entry that a lookup of its nonce finds.
pub lowest-lookup :
    (e : ℕ × Transaction) (t : Table) → lookup (lowest e t).0 (e ∷ t) ≡ some (lowest e t).1
lowest-lookup e [] = unfold lowest in lookup-head e.0 e [] (ground arith)
lowest-lookup e (x ∷ t) = elim (Bool-cases (ltb x.0 e.0)) [
  | inl lower ↦ rw (lowest-lower e x t lower) (
      lookup-skip (lowest x t).0 e (x ∷ t) (let le = lowest-le x t in ground arith)
      ∙ lowest-lookup x t)
  | inr other ↦ rw (lowest-other e x t other) (elim (Bool-cases (e.0 == (lowest e t).0)) [
    | inl here ↦
        lookup-head (lowest e t).0 e (x ∷ t) here
        ∙ (sym (lookup-head (lowest e t).0 e t here) ∙ lowest-lookup e t)
    | inr there ↦
        lookup-skip (lowest e t).0 e (x ∷ t) there
        ∙ (lookup-skip (lowest e t).0 x t (let le = lowest-le e t in ground arith)
            ∙ (sym (lookup-skip (lowest e t).0 e t there) ∙ lowest-lookup e t))
  ])
]

-- No nonce of the table is lower.
pub lowest-le_Has : (e : ℕ × Transaction) (t : Table) (k : ℕ) → Has k (e ∷ t) → (lowest e t).0 ≤ k
lowest-le_Has e [] k (y, h) = unfold lowest lookup in ground arith
lowest-le_Has e (x ∷ t) k (y, h) = elim (Bool-cases (ltb x.0 e.0)) [
  | inl lower ↦ rw (lowest-lower e x t lower) (elim (Bool-cases (e.0 == k)) [
    | inl here ↦ (let le = lowest-le x t in ground arith)
    | inr there ↦ lowest-le_Has x t k (y, sym (lookup-skip k e (x ∷ t) there) ∙ h)
  ])
  | inr other ↦ rw (lowest-other e x t other) (elim (Bool-cases (e.0 == k)) [
    | inl here ↦ (let le = lowest-le e t in ground arith)
    | inr there ↦ elim (Bool-cases (x.0 == k)) [
      | inl second ↦ (let le = lowest-le e t in ground arith)
      | inr third ↦ lowest-le_Has e t k (
        y,
        lookup-skip k e t there
            ∙ (sym (lookup-skip k x t third) ∙ (sym (lookup-skip k e (x ∷ t) there) ∙ h)),
      )
    ]
  ])
]
