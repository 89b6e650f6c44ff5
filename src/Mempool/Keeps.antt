-- ===== src/Mempool/Keeps.antt =====
-- `AddTransaction` keeps the invariant of the mempool.
use simple_blockchain_client.Account.{get_account}
use simple_blockchain_client.Map.{lookup}
use simple_blockchain_client.Mempool.View.{IsValid, IsKeyed, Has, Disjoint}
use simple_blockchain_client.Exec.{Result-cases, Result}
use simple_blockchain_client.Text.{Bytes}
use simple_blockchain_client.Mempool.Add.{
  refused, later_nonce, add_locked-Added, next_nonce, Added, Stored, SameQueue,
}
use simple_blockchain_client.Types.{u64, Transaction}
use simple_blockchain_client.Platform.{Json, LevelDb}
use simple_blockchain_client.Mempool.{
  get_account, lookup, table, add_transaction, Mempool, Json, Bytes, Queue,
}
use simple_blockchain_client.Prelude.{
  bytes_eq, nat_eq, ==_iff, inr, arith, ap, Bool-cases, ◌⊎◌, ◌&&◌, inl, ◌≡◌, ◌∙◌, ◌==◌, sym,
  if◌then◌else◌, ◌<◌, ℕ, none, some,
}

Stored-IsKeyed :
    (tx : Transaction) (q q' : Queue) → tx.nonce < u64 → Stored tx q q' → IsKeyed q → IsKeyed q'
Stored-IsKeyed tx q q' fits s keyed a k x h =
    let e : (if tx.from == a && tx.nonce == k then some tx else lookup k (table a q)) ≡ some x =
      sym (s a k) ∙ h in
    elim (Bool-cases (tx.from == a && tx.nonce == k)) [
      | inl here ↦ ground (arith, ==_iff tx.from a)
      | inr there ↦ keyed a k x (ground arith)
    ]

Same-IsKeyed : (q q' : Queue) → SameQueue q q' → IsKeyed q → IsKeyed q'
Same-IsKeyed q q' s keyed a k x h = keyed a k x (sym (s a k) ∙ h)

-- A nonce of the queue after a store is the one stored or was there before.
Has-Stored :
    (tx : Transaction) (q q' : Queue) (a : Bytes) (k : ℕ)
    → Stored tx q q'
    → Has k (table a q')
    → ((tx.from ≡ a) × (tx.nonce ≡ k)) ⊎ Has k (table a q)
Has-Stored tx q q' a k s (x, h) =
    let e : (if tx.from == a && tx.nonce == k then some tx else lookup k (table a q)) ≡ some x =
      sym (s a k) ∙ h in
    elim (Bool-cases (tx.from == a && tx.nonce == k)) [
      | inl here ↦ inl (ground (arith, ==_iff tx.from a))
      | inr there ↦ inr (x, ground arith)
    ]

Has-same :
    (q q' : Queue) (a : Bytes) (k : ℕ) → SameQueue q q' → Has k (table a q') → Has k (table a q)
Has-same q q' a k s (x, h) = (x, sym (s a k) ∙ h)

-- A stored nonce that the other queue does not hold keeps the queues apart.
Stored-Disjoint :
    (tx : Transaction) (p p' f f' : Queue)
    → ((a : Bytes) → Disjoint (table a p) (table a f))
    → lookup tx.nonce (table tx.from f) ≡ none
    → Stored tx p p'
    → SameQueue f f'
    → (a : Bytes) → Disjoint (table a p') (table a f')
Stored-Disjoint tx p p' f f' apart free s same_f a k hp hf =
    let (x, there) = Has-same f f' a k same_f hf in
    elim (Has-Stored tx p p' a k s hp) [
      | inl (own, at_nonce) ↦ cc (
        free,
        there,
        ap (λ b. lookup tx.nonce (table b f)) own,
        ap (λ n. lookup n (table a f)) at_nonce,
      )
      | inr old ↦ apart a k old (x, there)
    ]

swap-Disjoint :
    (p f : Queue)
    → ((a : Bytes) → Disjoint (table a f) (table a p))
    → (a : Bytes) → Disjoint (table a p) (table a f)
swap-Disjoint p f apart a k hp hf = apart a k hf hp

Added-IsValid :
    (db_nonce : ℕ) (tx : Transaction) (mp : Mempool) (r : Result (Unit {0})) (mp' : Mempool)
    → tx.nonce < u64
    → IsValid mp
    → Added db_nonce tx mp r mp'
    → IsValid mp'
Added-IsValid db_nonce tx mp r mp' fits v (next_nonce _ (_, free) _ p f) = record {
  pending_keyed = Stored-IsKeyed tx mp.pending mp'.pending fits p v.pending_keyed;
  future_keyed = Same-IsKeyed mp.future mp'.future f v.future_keyed;
  disjoint = Stored-Disjoint tx mp.pending mp'.pending mp.future mp'.future v.disjoint free p f;
}
Added-IsValid db_nonce tx mp r mp' fits v (later_nonce _ (fresh, _) _ _ p f) = record {
  pending_keyed = Same-IsKeyed mp.pending mp'.pending p v.pending_keyed;
  future_keyed = Stored-IsKeyed tx mp.future mp'.future fits f v.future_keyed;
  disjoint = swap-Disjoint mp'.pending mp'.future (
      Stored-Disjoint tx mp.future mp'.future mp.pending mp'.pending
        (swap-Disjoint mp.future mp.pending v.disjoint) fresh f p);
}
Added-IsValid db_nonce tx mp r mp' fits v (refused _ _ _ p f) = record {
  pending_keyed = Same-IsKeyed mp.pending mp'.pending p v.pending_keyed;
  future_keyed = Same-IsKeyed mp.future mp'.future f v.future_keyed;
  disjoint = λ a k hp hf.
      v.disjoint a k (Has-same mp.pending mp'.pending a k p hp)
        (Has-same mp.future mp'.future a k f hf);
}

module _ ⦃L : LevelDb⦄ ⦃J : Json⦄ where
  open L use {Db}

  -- `AddTransaction` keeps the invariant, whatever it answers.
  pub add_transaction-IsValid :
      (tx : Transaction) (d : Db) (mp : Mempool)
      → tx.nonce < u64
      → IsValid mp
      → IsValid (add_transaction tx d mp).1
  unfolding add_transaction
  add_transaction-IsValid tx d mp fits v = elim (Result-cases (get_account tx.from d).0) [
    | inl (a, known) ↦
        rw (known, add_transaction)
          (Added-IsValid a.nonce tx mp _ _ fits v (add_locked-Added a.nonce tx mp))
    | inr (e, unknown) ↦ rw (unknown, add_transaction) v
  ]
