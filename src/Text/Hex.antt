-- ===== src/Text/Hex.antt =====
-- `encoding/hex`.
use simple_blockchain_client.Prelude.Options.{some_cancel, ◌>>=◌, >>=-eq-some}
use simple_blockchain_client.Prelude.{
  ap, ◌∙◌, sym, subst, ℕ, ◌+◌, ◌-◌, ◌*◌, ◌/◌, ◌%◌, ◌<◌, ◌≡◌, refl, ◌&&◌, List, [], ◌∷◌, Option,
  none, some, arith, ltb, leb, if◌then◌else◌, length, All,
}

unfoldable pub to_digit : ℕ → ℕ
to_digit n = if ltb n 10 then b'0' + n else b'a' + (n - 10)

-- Both cases are read.
unfoldable pub from_digit : ℕ → Option ℕ
from_digit c =
    if leb b'0' c && leb c b'9'
    then some (c - b'0')
    else if leb b'a' c && leb c b'f'
    then some (c - b'a' + 10)
    else if leb b'A' c && leb c b'F'
    then some (c - b'A' + 10)
    else none

-- `hex.EncodeToString`
unfoldable pub encode : List ℕ → List ℕ
unfolding to_digit
encode [] = []
encode (b ∷ bs) = to_digit (b / 16) ∷ to_digit (b % 16) ∷ encode bs

-- `hex.DecodeString`: `none` is its error, on an odd length or on a byte that is no digit.
unfoldable pub decode : List ℕ → Option (List ℕ)
decode [] = some []
decode (a ∷ []) = none
decode (a ∷ b ∷ s) = do
  high ← from_digit a
  low ← from_digit b
  rest ← decode s
  some ((high * 16 + low) ∷ rest)

abbrev pub IsByte : ℕ → Type 0
IsByte b = b < 256

from_digit-to_digit : (n : ℕ) → n < 16 → from_digit (to_digit n) ≡ some n
unfolding from_digit to_digit
from_digit-to_digit n h = ground arith

-- Bytes are read back from their hexadecimal print.
pub decode-encode : (bs : List ℕ) → All IsByte bs → decode (encode bs) ≡ some bs
unfolding decode encode
decode-encode [] h = refl
decode-encode (b ∷ bs) (hb, hbs) =
    rw
      (
        from_digit-to_digit (b / 16) (omega arith),
        from_digit-to_digit (b % 16) (omega arith),
        decode-encode bs hbs,
      )
      (ground arith)

-- A byte takes two digits.
pub length-encode : (bs : List ℕ) → length (encode bs) ≡ 2 * length bs
unfolding encode
length-encode [] = refl
length-encode (b ∷ bs) = omega (arith, length-encode bs)

-- An accepted text of two digits and more goes through its tail.
decode_step :
    (a b : ℕ) (s : List ℕ) {bs : List ℕ}
    → decode (a ∷ b ∷ s) ≡ some bs
    → (c : ℕ) × (rest : List ℕ) × (decode s ≡ some rest) × (bs ≡ c ∷ rest)
unfolding decode
decode_step a b s h =
    let (high, _, h₁) = >>=-eq-some (from_digit a) _ h in
    let (low, _, h₂) = >>=-eq-some (from_digit b) _ h₁ in
    let (rest, e, h₃) = >>=-eq-some (decode s) _ h₂ in (high * 16 + low, rest, e, cc)

-- What decodes has two digits for each byte.
pub length-decode : (s : List ℕ) {bs : List ℕ} → decode s ≡ some bs → length s ≡ 2 * length bs
unfolding decode
length-decode [] h = ground arith
length-decode (a ∷ []) h = cc
length-decode (a ∷ b ∷ s) h =
    let (c, rest, e, k) = decode_step a b s h in rw k (omega (arith, length-decode s e))

from_digit-lt : (c : ℕ) {n : ℕ} → from_digit c ≡ some n → n < 16
unfolding from_digit
from_digit-lt c h = ground arith

-- What decodes are bytes.
pub decode-bytes : (s : List ℕ) {bs : List ℕ} → decode s ≡ some bs → All IsByte bs
unfolding decode
decode-bytes [] h = let e : [] ≡ _ = cc in subst (All IsByte) e tt
decode-bytes (a ∷ []) h = cc
decode-bytes (a ∷ b ∷ s) h =
    let (high, e₁, h₁) = >>=-eq-some (from_digit a) _ h in
    let (low, e₂, h₂) = >>=-eq-some (from_digit b) _ h₁ in
    let (rest, e₃, h₃) = >>=-eq-some (decode s) _ h₂ in
    subst (λ o. All IsByte o) (some_cancel h₃)
      (omega (arith, from_digit-lt a e₁, from_digit-lt b e₂), decode-bytes s e₃)

-- Bytes with the same print are the same.
pub encode_injective :
    (xs ys : List ℕ) → All IsByte xs → All IsByte ys → encode xs ≡ encode ys → xs ≡ ys
encode_injective xs ys hx hy e =
    some_cancel (sym (decode-encode xs hx) ∙ (ap decode e ∙ decode-encode ys hy))
