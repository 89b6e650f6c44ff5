-- ===== src/Text/Decimal.antt =====
-- Decimal numbers: `%d`, `(*big.Int).String`, `strconv.Atoi` and `(*big.Int).SetString(_, 10)`.
use simple_blockchain_client.Prelude.{
  ◌∙◌, ◌≤◌, ℕ, zero, suc, ◌+◌, ◌-◌, ◌*◌, ◌/◌, ◌%◌, ◌^◌, ◌<◌, ◌≡◌, refl, Bool, ◌&&◌, List, [], ◌∷◌,
  Option, none, some, arith, ltb, leb, if◌then◌else◌, ◌==◌, nat_eq,
}
use simple_blockchain_client.Int.{ℤ, pos, negsuc}

-- One digit a round, the last one first.
unfoldable pub digits : ℕ → ℕ → List ℕ → List ℕ
digits zero n out = out
digits (suc fuel) n out =
    let rest = digits fuel (n / 10) ((b'0' + n % 10) ∷ out) in
    if ltb n 10 then (b'0' + n) ∷ out else rest

-- `%d` of an unsigned number. A round divides by ten, so `n + 1` rounds are enough.
unfoldable pub format : ℕ → List ℕ
unfolding digits
format n = digits (suc n) n []

-- `(*big.Int).String()`
unfoldable pub format_ℤ : ℤ → List ℕ
unfolding format
format_ℤ (pos n) = format n
format_ℤ (negsuc n) = b'-' ∷ format (suc n)

unfoldable pub scan : List ℕ → ℕ → Option ℕ
scan [] n = some n
scan (c ∷ s) n =
    let rest = scan s (n * 10 + (c - b'0')) in if leb b'0' c && leb c b'9' then rest else none

unfoldable pub unsigned : List ℕ → Option ℕ
unfolding scan
unsigned [] = none
unsigned (c ∷ s) = scan (c ∷ s) 0

abbrev pub negate : ℕ → ℤ
negate zero = pos 0
negate (suc n) = negsuc n

-- `SetString(s, 10)`: an optional sign and at least one digit.
unfoldable pub set_string : List ℕ → Option ℤ
unfolding unsigned
set_string [] = none
set_string (c ∷ s) =
    if c == b'-'
    then elim (unsigned s) [ none ↦ none | some n ↦ some (negate n) ]
    else if c == b'+'
    then elim (unsigned s) [ none ↦ none | some n ↦ some (pos n) ]
    else elim (unsigned (c ∷ s)) [ none ↦ none | some n ↦ some (pos n) ]

-- The range of `int` on a 64-bit machine.
abbrev pub fits_int : ℤ → Bool
fits_int (pos n) = ltb n (2 ^ 63)
fits_int (negsuc n) = ltb n (2 ^ 63)

-- `strconv.Atoi(s)`
unfoldable pub atoi : List ℕ → Option ℤ
atoi s = elim (set_string s) [ none ↦ none | some v ↦ if fits_int v then some v else none ]

scan-digits : (fuel n : ℕ) (out : List ℕ) → n < fuel → scan (digits fuel n out) 0 ≡ scan out n
unfolding digits scan
scan-digits zero n out h = elim h [ ]
scan-digits (suc fuel) n out h = ground (arith, scan-digits fuel (n / 10) ((b'0' + n % 10) ∷ out))

-- A printed number begins with a digit.
abbrev StartsWithDigit : List ℕ → Type 0
StartsWithDigit [] = ⊥
StartsWithDigit (c ∷ s) = (b'0' ≤ c) × (c ≤ b'9')

digits-StartsWithDigit :
    (fuel n : ℕ) (out : List ℕ) → n < fuel → StartsWithDigit (digits fuel n out)
unfolding digits
digits-StartsWithDigit zero n out h = elim h [ ]
digits-StartsWithDigit (suc fuel) n out h =
    ground (arith, digits-StartsWithDigit fuel (n / 10) ((b'0' + n % 10) ∷ out))

unsigned-scan : (s : List ℕ) → StartsWithDigit s → unsigned s ≡ scan s 0
unfolding unsigned
unsigned-scan [] h = absurd h
unsigned-scan (c ∷ s) h = refl

pub unsigned-format : (n : ℕ) → unsigned (format n) ≡ some n
unfolding format
unsigned-format n =
    unsigned-scan _ (digits-StartsWithDigit (suc n) n [] (omega arith))
    ∙ (scan-digits (suc n) n [] (omega arith) ∙ (unfold scan in refl))

set_string-digit :
    (s : List ℕ)
    → StartsWithDigit s
    → set_string s ≡ elim (unsigned s) [ none ↦ none | some n ↦ some (pos n) ]
unfolding set_string
set_string-digit [] h = absurd h
set_string-digit (c ∷ s) h = ground arith

-- Every integer is read back from its decimal print.
pub set_string-format_ℤ : (v : ℤ) → set_string (format_ℤ v) ≡ some v
unfolding format_ℤ
set_string-format_ℤ (pos n) = rw (
  set_string-digit (format n) (unfold format in digits-StartsWithDigit (suc n) n [] (omega arith)),
  unsigned-format n,
)
set_string-format_ℤ (negsuc n) = unfold set_string in rw (unsigned-format (suc n))

-- `Atoi` reads back exactly the integers of 64 bits.
pub atoi-format_ℤ : (v : ℤ) → atoi (format_ℤ v) ≡ (if fits_int v then some v else none)
unfolding atoi
atoi-format_ℤ v = rw (set_string-format_ℤ v, atoi)
