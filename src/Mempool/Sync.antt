-- ===== src/Mempool/Sync.antt =====
-- `SyncFutureToPending`: nothing is lost, the queues stay apart, and every account is promoted up
-- to its first gap.
use simple_blockchain_client.Types.{u64, succ_u64, Transaction}
use simple_blockchain_client.Mempool.View.{
  highest-le, table-put_or_drop, table-insert, Disjoint, IsValid,
}
use simple_blockchain_client.Mempool.Promote.{
  promote_gap, promote_union, promote-Each, or_else, Each,
}
use simple_blockchain_client.Map.{lookup}
use simple_blockchain_client.Text.{contains, Bytes}
use simple_blockchain_client.Mempool.{
  false, true, sync_future_to_pending, keys, succ_u64, length, table, promote, highest,
  sync_account, lookup, Transaction, Table, List, sync_accounts, Queue, Mempool,
}
use simple_blockchain_client.Prelude.{
  ◌-◌, arith, ◌⊎◌, ◌^◌, false, true, inr, ap, ==_iff, subst, bytes_eq, inl, ◌==◌, refl, ◌∙◌, ◌<◌,
  nat_eq, length, if◌then◌else◌, Bool-cases, ◌≡◌, ◌+◌, Option, List, ◌∷◌, [], ℕ, none,
}

-- The transaction of an account at a nonce, wherever it waits.
abbrev pub waiting : Mempool → Bytes → ℕ → Option Transaction
waiting mp a k = or_else (lookup k (table a mp.pending)) (lookup k (table a mp.future))

-- The nonce after an account's highest pending one has no future transaction.
abbrev pub IsPromoted : Mempool → Bytes → Type 0
IsPromoted mp a = lookup (highest 0 (table a mp.pending) + 1) (table a mp.future) ≡ none

-- No nonce of the queue is the greatest `uint64`.
abbrev pub HasRoom : Queue → Type 0
HasRoom q = (a : Bytes) → Each (λ k x. k + 1 < u64) (table a q)

module _ (account : Bytes) (mp : Mempool) where
  abbrev promoted : Table × Table
  promoted =
      promote (length (table account mp.future) + 1)
        (succ_u64 (highest 0 (table account mp.pending))) (table account mp.pending)
        (table account mp.future)

  sync_account-pending :
      (b : Bytes)
      → table b (sync_account account mp).pending
        ≡ (if account == b then promoted.0 else table b mp.pending)
  unfolding sync_account
  sync_account-pending b = table-insert b account promoted.0 mp.pending

  sync_account-future :
      (b : Bytes)
      → table b (sync_account account mp).future
        ≡ (if account == b then promoted.1 else table b mp.future)
  unfolding sync_account
  sync_account-future b = table-put_or_drop b account promoted.1 mp.future

-- A property of the two tables of every account, if the promotion keeps it.
sync_account-keeps :
    (P : Bytes → Table → Table → Type 0) (account : Bytes) (mp : Mempool)
    → P account (promoted account mp).0 (promoted account mp).1
    → ((b : Bytes) → P b (table b mp.pending) (table b mp.future))
    → (b : Bytes)
    → P b (table b (sync_account account mp).pending) (table b (sync_account account mp).future)
sync_account-keeps P account mp here there b =
    rw (sync_account-pending account mp b, sync_account-future account mp b)
      (elim (Bool-cases (account == b)) [
        | inl same ↦ rw same (
            subst (λ c. P c (promoted account mp).0 (promoted account mp).1)
              ((==_iff account b).0 same) here)
        | inr other ↦ rw other (there b)
      ])

sync_account-Each :
    (P : Bytes → ℕ → Transaction → Type 0) (account : Bytes) (mp : Mempool)
    → ((b : Bytes) → Each (P b) (table b mp.pending) × Each (P b) (table b mp.future))
    → (b : Bytes)
    → Each (P b) (table b (sync_account account mp).pending)
      × Each (P b) (table b (sync_account account mp).future)
sync_account-Each P account mp all =
    sync_account-keeps (λ b p f. Each (P b) p × Each (P b) f) account mp
      (promote-Each (P account) _ _ _ _ (all account).0 (all account).1) all

sync_account-IsValid :
    (account : Bytes) (mp : Mempool) → IsValid mp → IsValid (sync_account account mp)
sync_account-IsValid account mp v =
    let keyed =
      sync_account-Each (λ b k x. (x.from ≡ b) × (x.nonce ≡ k) × (k < u64)) account mp
        (λ b. (λ k x h. v.pending_keyed b k x h, λ k x h. v.future_keyed b k x h)) in
    record {
      pending_keyed = λ b k x h. (keyed b).0 k x h;
      future_keyed = λ b k x h. (keyed b).1 k x h;
      disjoint =
          sync_account-keeps (λ b p f. Disjoint p f) account mp
            (promote_union _ _ _ _ (v.disjoint account)).1 v.disjoint;
    }

sync_account-waiting :
    (account : Bytes) (mp : Mempool)
    → IsValid mp
    → (b : Bytes) (k : ℕ) → waiting (sync_account account mp) b k ≡ waiting mp b k
sync_account-waiting account mp v b k =
    rw (sync_account-pending account mp b, sync_account-future account mp b)
      (elim (Bool-cases (account == b)) [
        | inl same ↦ rw same (
            (promote_union _ _ _ _ (v.disjoint account)).0 k
            ∙ ap (λ c. waiting mp c k) ((==_iff account b).0 same))
        | inr other ↦ rw other
      ])

-- `SyncFutureToPending` keeps the invariant and every transaction: what waited at an account and a
-- nonce still waits there.
pub sync_accounts-waiting :
    (accounts : List Bytes) (mp : Mempool)
    → IsValid mp
    → IsValid (sync_accounts accounts mp)
      × ((b : Bytes) (k : ℕ) → waiting (sync_accounts accounts mp) b k ≡ waiting mp b k)
unfolding sync_accounts
sync_accounts-waiting [] mp v = (v, λ b k. refl)
sync_accounts-waiting (account ∷ accounts) mp v =
    let (v', rest) =
      sync_accounts-waiting accounts (sync_account account mp)
        (sync_account-IsValid account mp v) in
    (v', λ b k. rest b k ∙ sync_account-waiting account mp v b k)

abbrev Room : Mempool → Type 0
Room mp =
    (b : Bytes)
    → Each (λ k x. k + 1 < u64) (table b mp.pending) × Each (λ k x. k + 1 < u64) (table b mp.future)

highest-HasRoom : (t : Table) → Each (λ k x. k + 1 < u64) t → highest 0 t + 1 < u64
highest-HasRoom t room =
    let low =
      highest-le 0 (2 ^ 64 - 2) t (omega arith)
        (λ k (x, h). let fits = room k x h in omega arith) in
    omega arith

sync_account-IsPromoted :
    (account : Bytes) (mp : Mempool)
    → Room mp
    → (b : Bytes) → ((account == b) ≡ true) ⊎ IsPromoted mp b
    → IsPromoted (sync_account account mp) b
sync_account-IsPromoted account mp room b h =
    rw (sync_account-pending account mp b, sync_account-future account mp b)
      (elim (Bool-cases (account == b)) [
        | inl same ↦
            let small = highest-HasRoom (table account mp.pending) (room account).0 in
            rw same (
              promote_gap _ _ (table account mp.pending) (table account mp.future) (omega arith)
                (omega arith) (room account).1)
        | inr other ↦ rw other (elim h [ inl same ↦ absurd (ground arith) | inr done ↦ done ])
      ])

sync_accounts-IsPromoted :
    (accounts : List Bytes) (mp : Mempool)
    → Room mp
    → (b : Bytes) → (contains b accounts ≡ true) ⊎ IsPromoted mp b
    → IsPromoted (sync_accounts accounts mp) b
unfolding sync_accounts
sync_accounts-IsPromoted [] mp room b (inl h) = cc
sync_accounts-IsPromoted [] mp room b (inr done) = done
sync_accounts-IsPromoted (account ∷ accounts) mp room b h =
    sync_accounts-IsPromoted accounts (sync_account account mp)
      (sync_account-Each (λ b k x. k + 1 < u64) account mp room) b
      (next h (Bool-cases (account == b)))
  where
    next :
        (contains b (account ∷ accounts) ≡ true) ⊎ IsPromoted mp b
        → ((account == b) ≡ true) ⊎ ((account == b) ≡ false)
        → (contains b accounts ≡ true) ⊎ IsPromoted (sync_account account mp) b
    next h (inl same) = inr (sync_account-IsPromoted account mp room b (inl same))
    next (inl among) (inr other) = inl (ground arith)
    next (inr done) (inr other) = inr (sync_account-IsPromoted account mp room b (inr done))

keys-absent : (b : Bytes) (q : Queue) → contains b (keys q) ≡ false → table b q ≡ []
unfolding keys table lookup
keys-absent b [] h = refl
keys-absent b ((a, t) ∷ q) h = ground (arith, keys-absent b q)

-- `SyncFutureToPending` keeps the invariant, and loses, adds and changes no transaction: what waited
-- at an account and a nonce, pending or future, waits there afterwards.
pub sync_future_to_pending-waiting :
    (mp : Mempool)
    → IsValid mp
    → IsValid (sync_future_to_pending mp)
      × ((b : Bytes) (k : ℕ) → waiting (sync_future_to_pending mp) b k ≡ waiting mp b k)
unfolding sync_future_to_pending
sync_future_to_pending-waiting mp v = sync_accounts-waiting (keys mp.future) mp v

-- If no nonce is the greatest `uint64`, then after `SyncFutureToPending` no account has a future
-- transaction at the nonce that follows its highest pending one, or at nonce 1 with none pending.
pub sync_future_to_pending-IsPromoted :
    (mp : Mempool)
    → HasRoom mp.pending
    → HasRoom mp.future
    → (b : Bytes) → IsPromoted (sync_future_to_pending mp) b
unfolding sync_future_to_pending
sync_future_to_pending-IsPromoted mp rp rf b =
    sync_accounts-IsPromoted (keys mp.future) mp (λ a. (rp a, rf a)) b
      (elim (Bool-cases (contains b (keys mp.future))) [
        | inl among ↦ inl among
        | inr absent ↦ inr (rw (keys-absent b mp.future absent) (unfold lookup in refl))
      ])
