-- ===== src/Merkle/Root.antt =====
-- The root of a list of hashes: that it is reached, and what it depends on.
use simple_blockchain_client.Merkle.Level.{
  level_repeat, level-IsHash, pairs-pad, length-level, level, IsHash,
}
use simple_blockchain_client.Exec.{err, Result, ok}
use simple_blockchain_client.Text.{Bytes}
use simple_blockchain_client.Platform.{Crypto}
use simple_blockchain_client.Merkle.{
  cons_result, parse_hashes, [], some, ok, climb, length, List, parse_hash,
}
use simple_blockchain_client.Prelude.{
  length-append, ◌∙◌, refl, [], ◌++◌, ◌+◌, arith, All, ◌≤◌, ◌∷◌, ◌%◌, some, ◌≡◌, length, List, ℕ,
  zero, suc,
}
use simple_blockchain_client.Text.Hex

module _ ⦃C : Crypto⦄ where
  open C use {keccak256}

  pub climb-level :
      (fuel : ℕ) (h k : Bytes) (hashes : List Bytes)
      → climb (suc fuel) (h ∷ k ∷ hashes) ≡ climb fuel (level (h ∷ k ∷ hashes))
  climb-level fuel h k hashes = unfold climb in rw (pairs-pad (h ∷ k ∷ hashes))

  -- The length of the list is enough fuel, and the root is a hash.
  pub climb_total :
      (fuel : ℕ) (h : Bytes) (hashes : List Bytes)
      → length (h ∷ hashes) ≤ fuel
      → All IsHash (h ∷ hashes)
      → (root : Bytes) × (climb fuel (h ∷ hashes) ≡ some root) × IsHash root
  unfolding level
  climb_total zero h hashes enough good = absurd (omega arith)
  climb_total (suc fuel) h [] enough good = (h, unfold climb in refl, good.0)
  climb_total (suc fuel) h (k ∷ hashes) enough good =
      let (root, reached, size) =
        climb_total fuel (keccak256 (h ++ k)) (level hashes) (omega (arith, length-level hashes))
          (level-IsHash (h ∷ k ∷ hashes)) in
      (root, climb-level fuel h k hashes ∙ reached, size)

  -- More fuel changes nothing.
  pub climb_fuel :
      (f g : ℕ) (hashes : List Bytes)
      → length hashes ≤ f
      → length hashes ≤ g
      → climb f hashes ≡ climb g hashes
  climb_fuel zero zero [] hf hg = refl
  climb_fuel zero (suc g) [] hf hg = unfold climb in refl
  climb_fuel (suc f) zero [] hf hg = unfold climb in refl
  climb_fuel (suc f) (suc g) [] hf hg = unfold climb in refl
  climb_fuel zero g (h ∷ hashes) hf hg = absurd (omega arith)
  climb_fuel (suc f) zero (h ∷ hashes) hf hg = absurd (omega arith)
  climb_fuel (suc f) (suc g) (h ∷ []) hf hg = unfold climb in refl
  climb_fuel (suc f) (suc g) (h ∷ k ∷ hashes) hf hg =
      rw (climb-level f h k hashes, climb-level g h k hashes)
        (climb_fuel f g (level (h ∷ k ∷ hashes)) (omega (arith, length-level (h ∷ k ∷ hashes)))
          (omega (arith, length-level (h ∷ k ∷ hashes))))

  -- A list of an odd length above one has the root of the list with its last hash doubled.
  pub climb_repeat :
      (f g : ℕ) (a b : Bytes) (hashes : List Bytes) (h : Bytes)
      → length hashes % 2 ≡ 0
      → length hashes + 3 ≤ f
      → length hashes + 4 ≤ g
      → climb f (a ∷ b ∷ (hashes ++ h ∷ [])) ≡ climb g (a ∷ b ∷ (hashes ++ h ∷ h ∷ []))
  climb_repeat zero g a b hashes h even hf hg = absurd (omega arith)
  climb_repeat (suc f) zero a b hashes h even hf hg = absurd (omega arith)
  climb_repeat (suc f) (suc g) a b hashes h even hf hg =
      rw
        (
          climb-level f a b (hashes ++ h ∷ []),
          climb-level g a b (hashes ++ h ∷ h ∷ []),
          level_repeat (a ∷ b ∷ hashes) h (omega arith),
        )
        (climb_fuel f g (level (a ∷ b ∷ (hashes ++ h ∷ [])))
          (omega (arith, length-level (a ∷ b ∷ (hashes ++ h ∷ [])), length-append hashes (h ∷ [])))
          (omega (arith, length-level (a ∷ b ∷ (hashes ++ h ∷ [])), length-append hashes (h ∷ []))))

-- A text that the first loop accepts: 64 hexadecimal digits.
pub record IsTxHash (s : Bytes) : Type 0 where
  pub bytes : Bytes
  pub digits : Hex.decode s ≡ some bytes
  pub size : length s ≡ 64

pub parse_hash-ok : (s : Bytes) (t : IsTxHash s) → parse_hash s ≡ ok t.bytes
unfolding parse_hash
parse_hash-ok s t = let e = t.digits in let n = t.size in ground arith

abbrev pub parsed : (l : List Bytes) → All IsTxHash l → List Bytes
parsed [] h = []
parsed (s ∷ l) (t, h) = t.bytes ∷ parsed l h

pub parse_hashes-ok : (l : List Bytes) (h : All IsTxHash l) → parse_hashes l ≡ ok (parsed l h)
unfolding parse_hashes
parse_hashes-ok [] h = refl
parse_hashes-ok (s ∷ l) (t, h) = rw (parse_hash-ok s t, parse_hashes-ok l h)

pub parsed-IsHash : (l : List Bytes) (h : All IsTxHash l) → All IsHash (parsed l h)
parsed-IsHash [] h = tt
parsed-IsHash (s ∷ l) (t, h) =
    (omega (arith, t.size, Hex.length-decode s t.digits), parsed-IsHash l h)

-- What the first loop accepts.
parse_hash_sound : (s : Bytes) {h : Bytes} → parse_hash s ≡ ok h → IsTxHash s
unfolding parse_hash
parse_hash_sound s {h} e = record { bytes = h; digits = ground arith; size = ground arith }

pub cons_result-ok :
    (r : Result Bytes) (rest : Result (List Bytes)) {hs : List Bytes}
    → cons_result r rest ≡ ok hs
    → (h : Bytes) × (t : List Bytes) × (r ≡ ok h) × (rest ≡ ok t) × (hs ≡ h ∷ t)
cons_result-ok (err e) rest h = cc
cons_result-ok (ok a) (err e) h = cc
cons_result-ok (ok a) (ok t) h = (a, t, refl, refl, cc)

pub parse_hashes_sound :
    (l : List Bytes) {hs : List Bytes} → parse_hashes l ≡ ok hs → All IsTxHash l
unfolding parse_hashes
parse_hashes_sound [] e = tt
parse_hashes_sound (s ∷ l) e =
    let (h, t, first, rest, _) = cons_result-ok (parse_hash s) (parse_hashes l) e in
    (parse_hash_sound s first, parse_hashes_sound l rest)
