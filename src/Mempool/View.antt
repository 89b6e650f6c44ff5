-- ===== src/Mempool/View.antt =====
-- What the queue operations do to the transaction at an account and a nonce, and the invariant of
-- the mempool.
use simple_blockchain_client.Types.{u64, Transaction}
use simple_blockchain_client.Text.{Bytes}
use simple_blockchain_client.Map.{lookup-erase, erase, lookup-insert, insert, lookup}
use simple_blockchain_client.Mempool.{
  ltb, ◌∷◌, init_mempool, put_or_drop, lookup, ensure_table, Transaction, Bytes, table, highest,
  drop_nonce, Table, Queue, Mempool,
}
use simple_blockchain_client.Prelude.{
  inr, ltb, inl, Bool-cases, Option-cases, bytes_eq, ◌==◌, ==_iff, nat_eq, if◌then◌else◌, ◌≡◌,
  arith, ◌≤◌, ◌<◌, [], ℕ, some,
}

pub table-insert :
    (a b : Bytes) (t : Table) (q : Queue)
    → table a (insert b t q) ≡ (if b == a then t else table a q)
unfolding table
table-insert a b t q = ground (arith, lookup-insert b a t q)

pub table-put_or_drop :
    (a b : Bytes) (t : Table) (q : Queue)
    → table a (put_or_drop b t q) ≡ (if b == a then t else table a q)
unfolding table put_or_drop
table-put_or_drop a b [] q = ground (arith, lookup-erase b a q)
table-put_or_drop a b (e ∷ t) q = ground (arith, lookup-insert b a (e ∷ t) q)

pub table-ensure_table : (a b : Bytes) (q : Queue) → table a (ensure_table b q) ≡ table a q
unfolding table ensure_table
table-ensure_table a b q = ground (arith, lookup-insert b a [] q, ==_iff b a)

pub table-drop_nonce :
    (a b : Bytes) (nonce : ℕ) (q : Queue)
    → table a (drop_nonce b nonce q) ≡ (if b == a then erase nonce (table a q) else table a q)
unfolding drop_nonce table erase
table-drop_nonce a b nonce q = elim (Option-cases (lookup b q)) [
  | inl gone ↦ ground (arith, gone, ==_iff b a)
  | inr (t, there) ↦ ground (arith, there, table-put_or_drop a b (erase nonce t) q, ==_iff b a)
]

-- A nonce that has a transaction.
abbrev pub Has : ℕ → Table → Type 0
Has k t = (tx : Transaction) × (lookup k t ≡ some tx)

abbrev pub Disjoint : Table → Table → Type 0
Disjoint p f = (k : ℕ) → Has k p → Has k f → ⊥

-- Each transaction stands under its own sender and nonce, which is a `uint64`.
abbrev pub IsKeyed : Queue → Type 0
IsKeyed q =
    (a : Bytes) (k : ℕ) (tx : Transaction)
    → lookup k (table a q) ≡ some tx
    → (tx.from ≡ a) × (tx.nonce ≡ k) × (k < u64)

-- No nonce of an account is both pending and future.
pub record IsValid (mp : Mempool) : Type 0 where
  pub pending_keyed : IsKeyed mp.pending
  pub future_keyed : IsKeyed mp.future
  pub disjoint : (a : Bytes) → Disjoint (table a mp.pending) (table a mp.future)

pub init_mempool-IsValid : IsValid init_mempool
unfolding table lookup
init_mempool-IsValid = record {
  pending_keyed = λ a k tx h. cc;
  future_keyed = λ a k tx h. cc;
  disjoint = λ a k (tx, h) there. cc;
}

pub highest-ge : (n : ℕ) (t : Table) → n ≤ highest n t
unfolding highest
highest-ge n [] = omega arith
highest-ge n ((nonce, tx) ∷ t) = ground (arith, highest-ge (if ltb n nonce then nonce else n) t)

-- `highest` bounds every nonce, and is the least such bound above the one given.
pub Has-le-highest : (n k : ℕ) (t : Table) → Has k t → k ≤ highest n t
unfolding highest lookup
Has-le-highest n k [] (tx, h) = cc
Has-le-highest n k ((nonce, x) ∷ t) (tx, h) = elim (Bool-cases (nonce == k)) [
  | inl here ↦ ground (arith, highest-ge (if ltb n nonce then nonce else n) t)
  | inr there ↦ Has-le-highest (if ltb n nonce then nonce else n) k t (tx, ground arith)
]

Has-cons : (k nonce : ℕ) (x : Transaction) (t : Table) → Has k t → Has k ((nonce, x) ∷ t)
unfolding lookup
Has-cons k nonce x t (tx, e) = elim (Bool-cases (nonce == k)) [
  | inl here ↦ (x, ground arith)
  | inr there ↦ (tx, ground arith)
]

Has-head : (nonce : ℕ) (x : Transaction) (t : Table) → Has nonce ((nonce, x) ∷ t)
unfolding lookup
Has-head nonce x t = (x, ground arith)

pub highest-le : (n m : ℕ) (t : Table) → n ≤ m → ((k : ℕ) → Has k t → k ≤ m) → highest n t ≤ m
unfolding highest
highest-le n m [] h all = h
highest-le n m ((nonce, x) ∷ t) h all =
    highest-le (if ltb n nonce then nonce else n) m t
      (let top = all nonce (Has-head nonce x t) in ground arith)
      (λ k h'. all k (Has-cons k nonce x t h'))
