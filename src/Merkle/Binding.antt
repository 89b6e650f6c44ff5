-- ===== src/Merkle/Binding.antt =====
-- What a Merkle root says of the transactions below it.
use simple_blockchain_client.Prelude.Options.{some_cancel}
use simple_blockchain_client.Merkle.Texts.{Collision, climb_texts, climb_injective}
use simple_blockchain_client.Exec.{Result-cases, ok}
use simple_blockchain_client.Merkle.Root.{
  parsed-IsHash, parse_hashes_sound, parse_hashes-ok, parsed, IsTxHash, climb-level,
}
use simple_blockchain_client.Merkle.{
  parse_hashes, some, ok, Option, print_root, build_merkle_tree, ◌∷◌, climb,
}
use simple_blockchain_client.Merkle.Level.{level}
use simple_blockchain_client.Text.{Bytes}
use simple_blockchain_client.Platform.{Crypto}
use simple_blockchain_client.Prelude.{
  subst, none, map, some, ap, Option, refl, arith, [], bytes_eq, inr, sym, ◌∙◌, inl, ◌⊎◌, All, ◌≢◌,
  ◌≡◌, length, List, ℕ, zero, suc,
}
use simple_blockchain_client.Text.Hex

abbrev pub or_empty : Option Bytes → Bytes
or_empty none = []
or_empty (some s) = s

module _ ⦃C : Crypto⦄ where
  open C use {keccak256-bytes}

  print_root-ok :
      (o : Option Bytes) {root : Bytes}
      → print_root o ≡ ok root
      → (h : Bytes) × (o ≡ some h) × (root ≡ Hex.encode h)
  unfolding print_root
  print_root-ok none e = cc
  print_root-ok (some h) e = (h, refl, cc)

  pub length-parsed : (l : List Bytes) (good : All IsTxHash l) → length (parsed l good) ≡ length l
  length-parsed [] good = refl
  length-parsed (s ∷ l) (t, good) = ap suc (length-parsed l good)

  pub build_of_parsed :
      (s : Bytes) (l : List Bytes) (good : All IsTxHash (s ∷ l))
      → build_merkle_tree (s ∷ l) ≡ print_root (climb (length (s ∷ l)) (parsed (s ∷ l) good))
  unfolding build_merkle_tree
  build_of_parsed s l good = rw (parse_hashes-ok (s ∷ l) good, length-parsed l good.1)

  -- A tree that is built has parsed every hash.
  pub build_merkle_tree-ok :
      (l : List Bytes) {root : Bytes}
      → build_merkle_tree l ≡ ok root
      → (l ≢ [])
        × ((good : All IsTxHash l) × ((h : Bytes) × (climb (length l) (parsed l good) ≡ some h)
              × (root ≡ Hex.encode h)))
  unfolding build_merkle_tree
  build_merkle_tree-ok [] e = cc
  build_merkle_tree-ok (s ∷ l) {root} e = elim (Result-cases (parse_hashes (s ∷ l))) [
    | inl (hs, parses) ↦
        let good = parse_hashes_sound (s ∷ l) parses in
        ((cc), (good, print_root-ok _ (sym (build_of_parsed s l good) ∙ e)))
    | inr (error, fails) ↦ absurd (ground arith)
  ]

  parsed-bytes : (l : List Bytes) (good : All IsTxHash l) → All (All Hex.IsByte) (parsed l good)
  parsed-bytes [] good = tt
  parsed-bytes (s ∷ l) (t, good) = (Hex.decode-bytes s t.digits, parsed-bytes l good)

  level-bytes : (hashes : List Bytes) → All (All Hex.IsByte) (level hashes)
  unfolding level
  level-bytes [] = tt
  level-bytes (h ∷ []) = (keccak256-bytes _, tt)
  level-bytes (h ∷ k ∷ hashes) = (keccak256-bytes _, level-bytes hashes)

  climb-bytes :
      (fuel : ℕ) (hashes : List Bytes) {h : Bytes}
      → All (All Hex.IsByte) hashes
      → climb fuel hashes ≡ some h
      → All Hex.IsByte h
  climb-bytes zero hashes good e = unfold climb in cc
  climb-bytes (suc fuel) [] good e = unfold climb in cc
  climb-bytes (suc fuel) (h ∷ []) {h = h'} good e =
      let eq : some h ≡ some h' = unfold climb in e in
      subst (All Hex.IsByte) (some_cancel eq) good.0
  climb-bytes (suc fuel) (h ∷ k ∷ hashes) good e =
      climb-bytes fuel (level (h ∷ k ∷ hashes)) (level-bytes (h ∷ k ∷ hashes))
        (sym (climb-level fuel h k hashes) ∙ e)

  -- The hashes that the texts of a list stand for.
  abbrev pub SameHashes : List Bytes → List Bytes → Type 0
  SameHashes l m = map Hex.decode l ≡ map Hex.decode m

  parsed-SameHashes :
      (l m : List Bytes) (hl : All IsTxHash l) (hm : All IsTxHash m)
      → parsed l hl ≡ parsed m hm
      → SameHashes l m
  parsed-SameHashes l m hl hm e = sym (decoded l hl) ∙ (ap (map some) e ∙ decoded m hm)
    where
      decoded : (k : List Bytes) (h : All IsTxHash k) → map some (parsed k h) ≡ map Hex.decode k
      decoded [] h = refl
      decoded (s ∷ k) (t, h) = cc (t.digits, decoded k h)

  -- The texts that the tree of a list hashes, pairs of hashes on each level.
  pub hashed : List Bytes → List Bytes
  hashed l = climb_texts (length l) (map (λ s. or_empty (Hex.decode s)) l)

  parsed-or_empty :
      (l : List Bytes) (good : All IsTxHash l)
      → parsed l good ≡ map (λ s. or_empty (Hex.decode s)) l
  parsed-or_empty [] good = refl
  parsed-or_empty (s ∷ l) (t, good) = cc (ap or_empty t.digits, parsed-or_empty l good)

  -- Two lists of one length with one root are the same hashes, unless the tree of the one and the tree
  -- of the other hash two different texts to one Keccak-256 hash.
  pub build_merkle_tree_binding :
      (l m : List Bytes) {root : Bytes}
      → length l ≡ length m
      → build_merkle_tree l ≡ ok root
      → build_merkle_tree m ≡ ok root
      → SameHashes l m ⊎ Collision (hashed l) (hashed m)
  unfolding hashed
  build_merkle_tree_binding l m size el em =
      let (_, (hl, (a, ca, pa))) = build_merkle_tree-ok l el in
      let (_, (hm, (b, cb, pb))) = build_merkle_tree-ok m em in
      let same : a ≡ b =
        Hex.encode_injective a b (climb-bytes (length l) (parsed l hl) (parsed-bytes l hl) ca)
          (climb-bytes (length m) (parsed m hm) (parsed-bytes m hm) cb) (sym pa ∙ pb) in
      elim (climb_injective (length l) (parsed l hl) (parsed m hm) (parsed-IsHash l hl)
        (parsed-IsHash m hm) (omega (arith, length-parsed l hl, length-parsed m hm))
        (omega (arith, length-parsed l hl))
        (ca ∙ (ap some same ∙ (sym cb ∙ ap (λ n. climb n (parsed m hm)) (sym size))))) [
          | inl eq ↦ inl (parsed-SameHashes l m hl hm eq)
          | inr found ↦ inr (
              subst (λ k. Collision k (hashed m)) (texts l hl)
                (subst (λ k. Collision (climb_texts (length l) (parsed l hl)) k)
                  (ap (λ n. climb_texts n (parsed m hm)) size ∙ texts m hm) found))
        ]
    where
      texts : (k : List Bytes) (h : All IsTxHash k) → climb_texts (length k) (parsed k h) ≡ hashed k
      texts k h = ap (climb_texts (length k)) (parsed-or_empty k h)
