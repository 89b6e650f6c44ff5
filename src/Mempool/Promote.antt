-- ===== src/Mempool/Promote.antt =====
-- The loop of `SyncFutureToPending` over the nonces of one account.
use simple_blockchain_client.Prelude.Options.{some_cancel}
use simple_blockchain_client.Mempool.View.{highest-le, Has-le-highest, Has, Disjoint}
use simple_blockchain_client.Types.{u64, succ_u64, Transaction}
use simple_blockchain_client.Mempool.{succ_u64, highest, length, Table, promote}
use simple_blockchain_client.Map.{lookup-erase, lookup-insert, insert, lookup, erase}
use simple_blockchain_client.Prelude.{
  ==_refl, ◌∷◌, ==_iff, subst, refl, ◌∙◌, Bool-cases, ◌+◌, sym, inr, arith, ◌≤◌, ◌==◌, ◌<◌, nat_eq,
  inl, ◌≡◌, length, if◌then◌else◌, Option-cases, Option, [], zero, suc, ℕ, none, some,
}

abbrev pub or_else : Option Transaction → Option Transaction → Option Transaction
or_else none o = o
or_else (some x) o = some x

-- Every entry of a table has a property of its nonce and its transaction.
abbrev pub Each : (ℕ → Transaction → Type 0) → Table → Type 0
Each P t = (k : ℕ) (x : Transaction) → lookup k t ≡ some x → P k x

insert-Each :
    (P : ℕ → Transaction → Type 0) (n : ℕ) (tx : Transaction) (t : Table)
    → P n tx
    → Each P t
    → Each P (insert n tx t)
insert-Each P n tx t here all k x h =
    let e : (if n == k then some tx else lookup k t) ≡ some x = sym (lookup-insert n k tx t) ∙ h in
    elim (Bool-cases (n == k)) [
      | inl same ↦
          subst (P k) (some_cancel {a = tx} (ground arith))
            (subst (λ i. P i tx) ((==_iff n k).0 same) here)
      | inr other ↦ all k x (ground arith)
    ]

pub erase-Each : (P : ℕ → Transaction → Type 0) (n : ℕ) (t : Table) → Each P t → Each P (erase n t)
erase-Each P n t all k x h =
    let e : (if n == k then none else lookup k t) ≡ some x = sym (lookup-erase n k t) ∙ h in
    all k x (ground arith)

promote-zero : (n : ℕ) (p f : Table) → promote zero n p f ≡ (p, f)
unfolding promote
promote-zero n p f = refl

-- A round stops at a nonce that is not there, or moves the transaction that is.
promote-stop : (fuel n : ℕ) (p f : Table) → lookup n f ≡ none → promote (suc fuel) n p f ≡ (p, f)
unfolding promote
promote-stop fuel n p f gap = ground arith

promote-move :
    (fuel n : ℕ) (p f : Table) {tx : Transaction}
    → lookup n f ≡ some tx
    → promote (suc fuel) n p f ≡ promote fuel (succ_u64 n) (insert n tx p) (erase n f)
unfolding promote
promote-move fuel n p f there = ground arith

-- What holds of every entry before holds of every entry after.
pub promote-Each :
    (P : ℕ → Transaction → Type 0) (fuel n : ℕ) (p f : Table)
    → Each P p
    → Each P f
    → Each P (promote fuel n p f).0 × Each P (promote fuel n p f).1
promote-Each P zero n p f hp hf = rw promote-zero (hp, hf)
promote-Each P (suc fuel) n p f hp hf = elim (Option-cases (lookup n f)) [
  | inl gap ↦ rw (promote-stop fuel n p f gap) (hp, hf)
  | inr (tx, there) ↦ rw (promote-move fuel n p f there) (
      promote-Each P fuel (succ_u64 n) (insert n tx p) (erase n f)
        (insert-Each P n tx p (hf n tx there) hp) (erase-Each P n f hf))
]

union_step :
    (n : ℕ) (tx : Transaction) (p f : Table) (m : ℕ)
    → Disjoint p f
    → lookup n f ≡ some tx
    → or_else (lookup m (insert n tx p)) (lookup m (erase n f)) ≡ or_else (lookup m p) (lookup m f)
union_step n tx p f m apart there =
    rw (lookup-insert n m tx p, lookup-erase n m f)
      (elim (Bool-cases (n == m)) [
        | inl same ↦
            let eq = (==_iff n m).0 same in
            let moved : lookup m f ≡ some tx = subst (λ i. lookup i f ≡ some tx) eq there in
            elim (Option-cases (lookup m p)) [
              | inl gone ↦ rw (same, gone, moved)
              | inr (x, twice) ↦ absurd (apart m (x, twice) (tx, moved))
            ]
        | inr other ↦ rw other
      ])

Disjoint-step :
    (n : ℕ) (tx : Transaction) (p f : Table) → Disjoint p f → Disjoint (insert n tx p) (erase n f)
Disjoint-step n tx p f apart k (x, hx) (y, hy) =
    let e : (if n == k then some tx else lookup k p) ≡ some x = sym (lookup-insert n k tx p) ∙ hx in
    let g : (if n == k then none else lookup k f) ≡ some y = sym (lookup-erase n k f) ∙ hy in
    elim (Bool-cases (n == k)) [
      | inl same ↦ ground arith
      | inr other ↦ apart k (x, ground arith) (y, ground arith)
    ]

-- A transaction stays, pending or future, at its nonce, and never in both.
pub promote_union :
    (fuel n : ℕ) (p f : Table)
    → Disjoint p f
    → let (p', f') = promote fuel n p f in
      ((m : ℕ) → or_else (lookup m p') (lookup m f') ≡ or_else (lookup m p) (lookup m f))
      × Disjoint p' f'
promote_union zero n p f apart = rw promote-zero (λ m. refl, apart)
promote_union (suc fuel) n p f apart = elim (Option-cases (lookup n f)) [
  | inl gap ↦ rw (promote-stop fuel n p f gap) (λ m. refl, apart)
  | inr (tx, there) ↦
      let (union, apart') =
        promote_union fuel (succ_u64 n) (insert n tx p) (erase n f)
          (Disjoint-step n tx p f apart) in
      rw (promote-move fuel n p f there) (λ m. union m ∙ union_step n tx p f m apart there, apart')
]

-- What is pending stays pending.
pub promote_grows :
    (fuel n : ℕ) (p f : Table) (m : ℕ) (x : Transaction)
    → Disjoint p f
    → lookup m p ≡ some x
    → lookup m (promote fuel n p f).0 ≡ some x
promote_grows zero n p f m x apart h = rw promote-zero h
promote_grows (suc fuel) n p f m x apart h = elim (Option-cases (lookup n f)) [
  | inl gap ↦ rw (promote-stop fuel n p f gap) h
  | inr (tx, there) ↦ rw (promote-move fuel n p f there) (
      promote_grows fuel (succ_u64 n) (insert n tx p) (erase n f) m x (Disjoint-step n tx p f apart)
        (rw (lookup-insert n m tx p) (elim (Bool-cases (n == m)) [
          | inl same ↦
              absurd
                (apart m (x, h) (tx, subst (λ i. lookup i f ≡ some tx) ((==_iff n m).0 same) there))
          | inr other ↦ rw other h
        ])))
]

length-erase-le : (n : ℕ) (t : Table) → length (erase n t) ≤ length t
unfolding erase
length-erase-le n [] = omega arith
length-erase-le n ((k, x) ∷ t) = ground (arith, length-erase-le n t)

pub length-erase : (n : ℕ) (t : Table) → Has n t → length (erase n t) < length t
unfolding erase lookup
length-erase n [] (x, h) = cc
length-erase n ((k, y) ∷ t) (x, h) = elim (Bool-cases (k == n)) [
  | inl here ↦ rw here (ground (arith, length-erase-le n t))
  | inr there ↦ rw there (ground (arith, length-erase n t (x, ground arith)))
]

highest-insert_bound :
    (n : ℕ) (tx : Transaction) (t : Table)
    → n ≡ highest 0 t + 1
    → (k : ℕ) → Has k (insert n tx t)
    → k ≤ n
highest-insert_bound n tx t e k (x, h) =
    let g : (if n == k then some tx else lookup k t) ≡ some x = sym (lookup-insert n k tx t) ∙ h in
    elim (Bool-cases (n == k)) [
      | inl same ↦ let eq = (==_iff n k).0 same in omega arith
      | inr other ↦ let old = Has-le-highest 0 k t (x, ground arith) in omega arith
    ]

highest-insert :
    (n : ℕ) (tx : Transaction) (t : Table) → n ≡ highest 0 t + 1 → highest 0 (insert n tx t) ≡ n
highest-insert n tx t e =
    let low = Has-le-highest 0 n (insert n tx t) (tx, rw (lookup-insert n n tx t, ==_refl n)) in
    let high = highest-le 0 n (insert n tx t) (omega arith) (highest-insert_bound n tx t e) in
    omega arith

-- With more rounds than future transactions the loop ends at a gap: no future transaction follows
-- the highest pending one.
pub promote_gap :
    (fuel n : ℕ) (p f : Table)
    → length f < fuel
    → n ≡ highest 0 p + 1
    → Each (λ k x. k + 1 < u64) f
    → let (p', f') = promote fuel n p f in lookup (highest 0 p' + 1) f' ≡ none
promote_gap zero n p f enough e fits = absurd (omega arith)
promote_gap (suc fuel) n p f enough e fits = elim (Option-cases (lookup n f)) [
  | inl gap ↦ rw (promote-stop fuel n p f gap) (rw (← e) gap)
  | inr (tx, there) ↦
      let small = fits n tx there in
      rw (promote-move fuel n p f there) (
        promote_gap fuel (succ_u64 n) (insert n tx p) (erase n f)
          (omega (arith, length-erase n f (tx, there))) (omega (arith, highest-insert n tx p e))
          (erase-Each (λ k x. k + 1 < u64) n f fits))
]
