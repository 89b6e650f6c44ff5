-- ===== src/Merkle/Texts.antt =====
-- The texts that a Merkle tree hashes, and how a level and a root bind what is below them.
use simple_blockchain_client.Merkle.{climb}
use simple_blockchain_client.Merkle.Root.{climb-level}
use simple_blockchain_client.Merkle.Level.{length-level, level-IsHash, level, IsHash}
use simple_blockchain_client.Text.{Bytes}
use simple_blockchain_client.Platform.{Crypto}
use simple_blockchain_client.Prelude.{
  ap, map, refl, arith, [], inr, sym, ==_iff, ◌∙◌, ◌==◌, ◌≤◌, bytes_eq, inl, Bool-cases, ◌⊎◌, ◌++◌,
  All, ◌≢◌, ◌≡◌, length, List, ℕ, zero, suc, ◌∷◌,
}

append_split : (a b c d : Bytes) → length a ≡ length b → a ++ c ≡ b ++ d → (a ≡ b) × (c ≡ d)
append_split [] [] c d n e = (refl, e)
append_split [] (y ∷ b) c d n e = absurd (omega arith)
append_split (x ∷ a) [] c d n e = absurd (omega arith)
append_split (x ∷ a) (y ∷ b) c d n e =
    let (same, rest) = append_split a b c d (omega arith) (cc) in (cc, rest)

abbrev pub IsIn : Bytes → List Bytes → Type 0
IsIn x [] = ⊥
IsIn x (y ∷ l) = (x ≡ y) ⊎ IsIn x l

IsIn-left : (x : Bytes) (l m : List Bytes) → IsIn x l → IsIn x (l ++ m)
IsIn-left x [] m h = absurd h
IsIn-left x (y ∷ l) m (inl here) = inl here
IsIn-left x (y ∷ l) m (inr there) = inr (IsIn-left x l m there)

IsIn-right : (x : Bytes) (l m : List Bytes) → IsIn x m → IsIn x (l ++ m)
IsIn-right x [] m h = h
IsIn-right x (y ∷ l) m h = inr (IsIn-right x l m h)

-- The texts whose hashes are the next level.
unfoldable pub level_texts : List Bytes → List Bytes
level_texts [] = []
level_texts (h ∷ []) = (h ++ h) ∷ []
level_texts (h ∷ k ∷ hashes) = (h ++ k) ∷ level_texts hashes

module _ ⦃C : Crypto⦄ where
  open C use {keccak256}

  pub map-level_texts : (hashes : List Bytes) → map keccak256 (level_texts hashes) ≡ level hashes
  unfolding level_texts level
  map-level_texts [] = refl
  map-level_texts (h ∷ []) = refl
  map-level_texts (h ∷ k ∷ hashes) = ap (λ l. keccak256 (h ++ k) ∷ l) (map-level_texts hashes)

  -- The texts that are hashed on the way from a level to the root.
  unfoldable pub climb_texts : ℕ → List Bytes → List Bytes
  climb_texts zero hashes = []
  climb_texts (suc fuel) [] = []
  climb_texts (suc fuel) (h ∷ []) = []
  climb_texts (suc fuel) (h ∷ k ∷ hashes) =
      level_texts (h ∷ k ∷ hashes) ++ climb_texts fuel (level (h ∷ k ∷ hashes))

  -- Two different texts with one hash, one from each list.
  abbrev pub Collision : List Bytes → List Bytes → Type 0
  Collision l m =
      (x : Bytes) × (y : Bytes) × IsIn x l × IsIn y m × (x ≢ y) × (keccak256 x ≡ keccak256 y)

  widen :
      (l m l' m' : List Bytes)
      → ((x : Bytes) → IsIn x l → IsIn x l')
      → ((x : Bytes) → IsIn x m → IsIn x m')
      → Collision l m
      → Collision l' m'
  widen l m l' m' f g (x, y, hx, hy, apart, same) = (x, y, f x hx, g y hy, apart, same)

  pair-eq :
      (a b c d : Bytes) (l m : List Bytes)
      → IsHash a
      → IsHash c
      → keccak256 (a ++ b) ≡ keccak256 (c ++ d)
      → ((a ≡ c) × (b ≡ d)) ⊎ Collision ((a ++ b) ∷ l) ((c ++ d) ∷ m)
  pair-eq a b c d l m ha hc e = elim (Bool-cases ((a ++ b) == (c ++ d))) [
    | inl same ↦ inl (append_split a c b d (ha ∙ sym hc) ((==_iff (a ++ b) (c ++ d)).0 same))
    | inr other ↦
        inr
          (a ++ b, c ++ d, inl refl, inl refl, (λ p. cc ((==_iff (a ++ b) (c ++ d)).1 p, other)), e)
  ]

  -- A level determines the one below it.
  level_injective :
      (xs ys : List Bytes)
      → All IsHash xs
      → All IsHash ys
      → length xs ≡ length ys
      → level xs ≡ level ys
      → (xs ≡ ys) ⊎ Collision (level_texts xs) (level_texts ys)
  unfolding level level_texts
  level_injective [] [] hx hy n e = inl refl
  level_injective [] (y ∷ ys) hx hy n e = absurd (omega arith)
  level_injective (x ∷ xs) [] hx hy n e = absurd (omega arith)
  level_injective (x ∷ []) (y ∷ []) hx hy n e = elim (pair-eq x x y y [] [] hx.0 hy.0 (cc)) [
    | inl same ↦ inl (cc)
    | inr found ↦ inr found
  ]
  level_injective (x ∷ []) (y ∷ z ∷ ys) hx hy n e = absurd (omega arith)
  level_injective (x ∷ a ∷ xs) (y ∷ []) hx hy n e = absurd (omega arith)
  level_injective (x ∷ a ∷ xs) (y ∷ b ∷ ys) (hx, (_, hxs)) (hy, (_, hys)) n e =
      elim (pair-eq x a y b (level_texts xs) (level_texts ys) hx hy (cc)) [
        | inl same ↦ elim (level_injective xs ys hxs hys (omega arith) (cc)) [
          | inl rest ↦ inl (cc (same.0, same.1))
          | inr found ↦ inr (
              widen (level_texts xs) (level_texts ys) (level_texts (x ∷ a ∷ xs))
                (level_texts (y ∷ b ∷ ys)) (λ t h. inr h) (λ t h. inr h) found)
        ]
        | inr found ↦ inr found
      ]

  pub climb_injective :
      (fuel : ℕ) (xs ys : List Bytes)
      → All IsHash xs
      → All IsHash ys
      → length xs ≡ length ys
      → length xs ≤ fuel
      → climb fuel xs ≡ climb fuel ys
      → (xs ≡ ys) ⊎ Collision (climb_texts fuel xs) (climb_texts fuel ys)
  unfolding climb_texts
  climb_injective fuel [] [] hx hy n enough e = inl refl
  climb_injective fuel [] (y ∷ ys) hx hy n enough e = absurd (omega arith)
  climb_injective fuel (x ∷ xs) [] hx hy n enough e = absurd (omega arith)
  climb_injective zero (x ∷ xs) (y ∷ ys) hx hy n enough e = absurd (omega arith)
  climb_injective (suc fuel) (x ∷ []) (y ∷ []) hx hy n enough e = inl (unfold climb in cc)
  climb_injective (suc fuel) (x ∷ []) (y ∷ z ∷ ys) hx hy n enough e = absurd (omega arith)
  climb_injective (suc fuel) (x ∷ a ∷ xs) (y ∷ []) hx hy n enough e = absurd (omega arith)
  climb_injective (suc fuel) (x ∷ a ∷ xs) (y ∷ b ∷ ys) hx hy n enough e =
      elim (climb_injective fuel (level (x ∷ a ∷ xs)) (level (y ∷ b ∷ ys))
        (level-IsHash (x ∷ a ∷ xs)) (level-IsHash (y ∷ b ∷ ys))
        (omega (arith, length-level (x ∷ a ∷ xs), length-level (y ∷ b ∷ ys)))
        (omega (arith, length-level (x ∷ a ∷ xs)))
        (sym (climb-level fuel x a xs) ∙ (e ∙ climb-level fuel y b ys))) [
          | inl same ↦ elim (level_injective (x ∷ a ∷ xs) (y ∷ b ∷ ys) hx hy n same) [
            | inl equal ↦ inl equal
            | inr found ↦ inr (
                widen (level_texts (x ∷ a ∷ xs)) (level_texts (y ∷ b ∷ ys))
                  (climb_texts (suc fuel) (x ∷ a ∷ xs)) (climb_texts (suc fuel) (y ∷ b ∷ ys))
                  (λ t.
                    IsIn-left t (level_texts (x ∷ a ∷ xs)) (climb_texts fuel (level (x ∷ a ∷ xs))))
                  (λ t.
                    IsIn-left t (level_texts (y ∷ b ∷ ys)) (climb_texts fuel (level (y ∷ b ∷ ys))))
                  found)
          ]
          | inr found ↦ inr (
              widen (climb_texts fuel (level (x ∷ a ∷ xs))) (climb_texts fuel (level (y ∷ b ∷ ys)))
                (climb_texts (suc fuel) (x ∷ a ∷ xs)) (climb_texts (suc fuel) (y ∷ b ∷ ys))
                (λ t.
                  IsIn-right t (level_texts (x ∷ a ∷ xs)) (climb_texts fuel (level (x ∷ a ∷ xs))))
                (λ t.
                  IsIn-right t (level_texts (y ∷ b ∷ ys)) (climb_texts fuel (level (y ∷ b ∷ ys))))
                found)
        ]
