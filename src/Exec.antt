-- ===== src/Exec.antt =====
-- Go's `(value, error)` results over a state that an error does not undo: what was written
-- before the error stays written.
use simple_blockchain_client.Prelude.{
  inr, inl, ◌⊎◌, arith, Bool, true, false, Option, none, some, ◌≡◌, refl,
}

-- The errors of the program, by the message that each carries. `panic` is a nil dereference.
pub data Error : Type 0 where
  db_not_found db_failed missing_key unmarshal_failed : Error
  write_failed bad_key_length bad_key_format recover_failed : Error
  missing_fields invalid_value invalid_nonce invalid_from invalid_to : Error
  signature_format signature_rejected : Error
  unknown_sender insufficient_funds nonce_mismatch bad_number : Error
  duplicate_pending duplicate_future nonce_too_low : Error
  no_transactions hash_length hash_format : Error
  stale_timestamp parent_mismatch block_hash_mismatch merkle_mismatch : Error
  invalid_miner key_generation panic : Error

pub data Result {ℓ} (A : Type ℓ) : Type ℓ where
  ok : A → Result A
  err : Error → Result A

abbrev pub Exec {ℓ} : Type ℓ → Type 0 → Type ℓ
Exec S A = S → Result A × S

module _ {S A : Type 0} where
  abbrev pub pure : A → Exec S A
  pure a s = (ok a, s)

  abbrev pub raise : Error → Exec S A
  raise e s = (err e, s)

  abbrev pub gets : (S → A) → Exec S A
  gets f s = (ok (f s), s)

  abbrev pub or_raise : Option A → Error → Exec S A
  or_raise none e = raise e
  or_raise (some a) e = pure a

  -- A result that was computed without the state.
  abbrev pub lift : Result A → Exec S A
  lift r s = (r, s)

-- An error ends the chain, in the state that it was raised in.
abbrev pub continue : {S A B : Type 0} → Result A × S → (A → Exec S B) → Result B × S
continue (ok a, s) f = f a s
continue (err e, s) f = (err e, s)

infixl 5 ◌>>=◌ ◌>>◌
abbrev pub ◌>>=◌ : {S A B : Type 0} → Exec S A → (A → Exec S B) → Exec S B
◌>>=◌ m f s = continue (m s) f

abbrev pub ◌>>◌ : {S A B : Type 0} → Exec S A → Exec S B → Exec S B
m >> k = m >>= λ _. k

abbrev pub raise_if : {S : Type 0} → Bool → Error → Exec S Unit
raise_if true e s = (err e, s)
raise_if false e s = (ok tt, s)

-- A step that changes the state, or fails and leaves it.
abbrev pub commit : {S : Type 0} → (S → Option S) → Error → Exec S Unit
commit f e s = elim (f s) [ none ↦ (err e, s) | some s' ↦ (ok tt, s') ]

module _ {S A B : Type 0} where
  -- A chain that succeeds has a value and a state in the middle.
  pub continue-ok :
      (r : Result A × S) (f : A → Exec S B) {b : B} {s' : S}
      → continue r f ≡ (ok b, s')
      → (a : A) × (t : S) × (r ≡ (ok a, t)) × (f a t ≡ (ok b, s'))
  continue-ok (ok a, t) f h = (a, t, refl, h)
  continue-ok (err e, t) f h = cc

module _ {S : Type 0} where
  pub commit-ok :
      (f : S → Option S) (e : Error) (s : S) {s' : S} → commit f e s ≡ (ok tt, s') → f s ≡ some s'
  commit-ok f e s h = ground arith

  pub raise_if-ok :
      (c : Bool) (e : Error) (s : S) {s' : S}
      → raise_if c e s ≡ (ok tt, s')
      → (c ≡ false) × (s' ≡ s)
  raise_if-ok true e s h = cc
  raise_if-ok false e s h = ground arith

pub or_raise-ok :
    {S A : Type 0} (o : Option A) (e : Error) (s : S) {a : A} {s' : S}
    → or_raise o e s ≡ (ok a, s')
    → (o ≡ some a) × (s' ≡ s)
or_raise-ok none e s h = cc
or_raise-ok (some a) e s h = ground arith

pub Result-cases :
    {A : Type 0} (r : Result A) → ((x : A) × (r ≡ ok x)) ⊎ ((why : Error) × (r ≡ err why))
Result-cases (err why) = inr (why, refl)
Result-cases (ok x) = inl (x, refl)

pub Outcome-cases :
    {S A : Type 0} (o : Result A × S)
    → ((a : A) × (s : S) × (o ≡ (ok a, s))) ⊎ ((e : Error) × (s : S) × (o ≡ (err e, s)))
Outcome-cases (ok a, s) = inl (a, s, refl)
Outcome-cases (err e, s) = inr (e, s, refl)

-- A relation between states that every step keeps is kept by a chain of steps.
pub continue_keeps :
    {S A B : Type 0} (R : S → S → Type 0)
    → ((s t u : S) → R s t → R t u → R s u)
    → (s : S) (r : Result A × S) (f : A → Exec S B) → R s r.1
    → ((a : A) (t : S) → R t (f a t).1)
    → R s (continue r f).1
continue_keeps R trans s (ok a, t) f first rest = trans s t (f a t).1 first (rest a t)
continue_keeps R trans s (err e, t) f first rest = first

pub raise_if-state : {S : Type 0} (c : Bool) (e : Error) (s : S) → (raise_if c e s).1 ≡ s
raise_if-state true e s = refl
raise_if-state false e s = refl

pub or_raise-state : {S A : Type 0} (o : Option A) (e : Error) (s : S) → (or_raise o e s).1 ≡ s
or_raise-state none e s = refl
or_raise-state (some a) e s = refl
