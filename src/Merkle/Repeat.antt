-- ===== src/Merkle/Repeat.antt =====
-- A list of hashes and the same list with its last hash written twice.
use simple_blockchain_client.Merkle.Root.{climb_repeat, cons_result-ok}
use simple_blockchain_client.Exec.{ok, err, Result-cases, Error}
use simple_blockchain_client.Text.{Bytes}
use simple_blockchain_client.Platform.{Crypto}
use simple_blockchain_client.Merkle.{
  print_root, root_of, parse_hash, length, Bytes, build_merkle_tree, List, parse_hashes,
}
use simple_blockchain_client.Prelude.{
  length-append, refl, inr, ap, inl, arith, ◌≤◌, ◌≡◌, ◌∷◌, ◌%◌, ◌++◌, length, List, [], suc,
}

parse_repeat-ok :
    (l : List Bytes) (h : Bytes) {hs : List Bytes}
    → parse_hashes (l ++ h ∷ []) ≡ ok hs
    → (front : List Bytes) × (k : Bytes) × (hs ≡ front ++ k ∷ [])
      × (length front ≡ length l)
      × (parse_hashes (l ++ h ∷ h ∷ []) ≡ ok (front ++ k ∷ k ∷ []))
unfolding parse_hashes
parse_repeat-ok [] h e =
    let (k, t, first, rest, whole) = cons_result-ok (parse_hash h) (ok []) e in
    ([], k, cc (whole, rest), refl, rw first)
parse_repeat-ok (s ∷ l) h e =
    let (k, t, first, rest, whole) = cons_result-ok (parse_hash s) _ e in
    let (front, last, eq, size, doubled) = parse_repeat-ok l h rest in
    (k ∷ front, last, cc (whole, eq), ap suc size, rw (first, doubled))

parse_repeat-err :
    (l : List Bytes) (h : Bytes) {e : Error}
    → parse_hashes (l ++ h ∷ []) ≡ err e
    → parse_hashes (l ++ h ∷ h ∷ []) ≡ err e
unfolding parse_hashes
parse_repeat-err [] h e = ground arith
parse_repeat-err (s ∷ l) h e = elim (Result-cases (parse_hash s)) [
  | inl (a, good) ↦ elim (Result-cases (parse_hashes (l ++ h ∷ []))) [
    | inl (hs, parses) ↦ ground arith
    | inr (f, fails) ↦ ground (arith, parse_repeat-err l h fails)
  ]
  | inr (f, bad) ↦ ground arith
]

module _ ⦃C : Crypto⦄ where
  roots :
      (front : List Bytes) (k : Bytes)
      → length front % 2 ≡ 0
      → 2 ≤ length front
      → root_of (ok (front ++ k ∷ [])) ≡ root_of (ok (front ++ k ∷ k ∷ []))
  unfolding root_of
  roots [] k even big = absurd (omega arith)
  roots (a ∷ []) k even big = absurd (omega arith)
  roots (a ∷ b ∷ front) k even big = ap print_root (
      climb_repeat _ _ a b front k (omega arith) (omega (arith, length-append front (k ∷ [])))
        (omega (arith, length-append front (k ∷ k ∷ []))))

  -- A list of an odd number of hashes above one has the same root, or the same error, as the list
  -- with its last hash written twice.
  pub build_merkle_tree_repeat :
      (a b : Bytes) (l : List Bytes) (h : Bytes)
      → length l % 2 ≡ 0
      → build_merkle_tree (a ∷ b ∷ (l ++ h ∷ [])) ≡ build_merkle_tree (a ∷ b ∷ (l ++ h ∷ h ∷ []))
  unfolding build_merkle_tree
  build_merkle_tree_repeat a b l h even =
      elim (Result-cases (parse_hashes (a ∷ b ∷ (l ++ h ∷ [])))) [
        | inl (hs, parses) ↦
            let (front, k, eq, size, doubled) = parse_repeat-ok (a ∷ b ∷ l) h parses in
            rw (parses, doubled, eq) (roots front k (omega arith) (omega arith))
        | inr (e, fails) ↦ rw (fails, parse_repeat-err (a ∷ b ∷ l) h fails)
      ]
