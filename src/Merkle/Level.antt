-- ===== src/Merkle/Level.antt =====
-- One level of the tree by a plain recursion, and the equivalence with the loops.
use simple_blockchain_client.Merkle.{[], last, ◌∷◌, pairs, pad}
use simple_blockchain_client.Text.{Bytes}
use simple_blockchain_client.Platform.{Crypto}
use simple_blockchain_client.Prelude.{
  ap, refl, arith, ◌/◌, [], ◌+◌, ◌++◌, ◌≡◌, ◌%◌, All, length, List,
}

abbrev pub IsHash : Bytes → Type 0
IsHash h = length h ≡ 32

module _ ⦃C : Crypto⦄ where
  open C use {keccak256, length-keccak256}

  unfoldable pub level : List Bytes → List Bytes
  level [] = []
  level (h ∷ []) = keccak256 (h ++ h) ∷ []
  level (h ∷ k ∷ hashes) = keccak256 (h ++ k) ∷ level hashes

  pad_two :
      (h k : Bytes) (hashes : List Bytes)
      → pairs (pad (h ∷ k ∷ hashes)) ≡ keccak256 (h ++ k) ∷ pairs (pad hashes)
  unfolding pad pairs last
  pad_two h k [] = refl
  pad_two h k (l ∷ hashes) = ground arith

  -- Padding and pairing is one recursion on the level.
  pub pairs-pad : (hashes : List Bytes) → pairs (pad hashes) ≡ level hashes
  unfolding level
  pairs-pad [] = unfold pad pairs in refl
  pairs-pad (h ∷ []) = unfold pad pairs last in refl
  pairs-pad (h ∷ k ∷ hashes) = rw (pad_two h k hashes, pairs-pad hashes)

  pub level-IsHash : (hashes : List Bytes) → All IsHash (level hashes)
  unfolding level
  level-IsHash [] = tt
  level-IsHash (h ∷ []) = (length-keccak256 _, tt)
  level-IsHash (h ∷ k ∷ hashes) = (length-keccak256 _, level-IsHash hashes)

  -- A level has half the hashes below it, rounded up.
  pub length-level : (hashes : List Bytes) → length (level hashes) ≡ (length hashes + 1) / 2
  unfolding level
  length-level [] = refl
  length-level (h ∷ []) = refl
  length-level (h ∷ k ∷ hashes) = omega (arith, length-level hashes)

  -- The copy of the last hash of an odd level leaves no trace above it.
  pub level_repeat :
      (hashes : List Bytes) (h : Bytes)
      → length hashes % 2 ≡ 0
      → level (hashes ++ h ∷ h ∷ []) ≡ level (hashes ++ h ∷ [])
  unfolding level
  level_repeat [] h even = refl
  level_repeat (a ∷ []) h even = absurd (omega arith)
  level_repeat (a ∷ b ∷ hashes) h even =
      ap (λ t. keccak256 (a ++ b) ∷ t) (level_repeat hashes h (omega arith))
