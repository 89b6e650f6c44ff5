-- ===== src/Map.antt =====
-- Go's maps as association lists. The order of the entries is the order in which a `range` loop
-- visits them; where a result depends on it, the operation takes the order as an argument.
use simple_blockchain_client.Prelude.{
  ◌≡◌, refl, Option, none, some, List, [], ◌∷◌, arith, if◌then◌else◌, Eq, ◌==◌, ==_iff,
}

abbrev pub Map {ℓ κ} : Type ℓ → Type κ → Type (ℓ ⊔ κ)
Map K V = List (K × V)

module _ {ℓ κ} {K : Type ℓ} {V : Type κ} ⦃e : Eq K⦄ where
  -- `v, exists := m[key]`
  unfoldable pub lookup : K → Map K V → Option V
  lookup key [] = none
  lookup key ((first, v) ∷ rest) = if first == key then some v else lookup key rest

  -- `m[key] = v`
  unfoldable pub insert : K → V → Map K V → Map K V
  insert key v [] = (key, v) ∷ []
  insert key v ((first, w) ∷ rest) =
      if first == key then (key, v) ∷ rest else (first, w) ∷ insert key v rest

  -- `delete(m, key)`
  unfoldable pub erase : K → Map K V → Map K V
  erase key [] = []
  erase key ((first, w) ∷ rest) =
      let kept = erase key rest in if first == key then kept else (first, w) ∷ kept

  -- What each leaves at any key.
  pub lookup-insert :
      (new key : K) (v : V) (entries : Map K V)
      → lookup key (insert new v entries) ≡ (if new == key then some v else lookup key entries)
  unfolding lookup insert
  lookup-insert new key v [] = refl
  lookup-insert new key v ((first, w) ∷ rest) =
      let tail = lookup-insert new key v rest in
      ground (arith, tail, ==_iff first key, ==_iff first new, ==_iff new key)

  pub lookup-erase :
      (old key : K) (entries : Map K V)
      → lookup key (erase old entries) ≡ (if old == key then none else lookup key entries)
  unfolding lookup erase
  lookup-erase old key [] = ground arith
  lookup-erase old key ((first, w) ∷ rest) =
      let tail = lookup-erase old key rest in
      ground (arith, tail, ==_iff first key, ==_iff first old, ==_iff old key)
