-- ===== src/Text/Lines.antt =====
-- `strings.TrimSpace` on texts that begin and end with a byte that is neither white space nor part of a
-- longer character, and on lines of them.
use simple_blockchain_client.Text.Parts.{join, backwards, trim_space, trim_front, is_ascii_space}
use simple_blockchain_client.Text.{Bytes}
use simple_blockchain_client.Prelude.{
  All, List, append-nil, sym, length, ◌∙◌, ◌<◌, refl, arith, ap, ◌≡◌, ◌++◌, Bool, ◌∷◌, [], zero,
  suc, ℕ, true, false,
}

abbrev pub IsSolid : ℕ → Type 0
IsSolid c = (is_ascii_space c ≡ false) × (c < 128)

abbrev pub StartsSolid : Bytes → Type 0
StartsSolid [] = ⊥
StartsSolid (c ∷ s) = IsSolid c

abbrev pub EndsSolid : Bytes → Type 0
EndsSolid [] = ⊥
EndsSolid (c ∷ []) = IsSolid c
EndsSolid (c ∷ d ∷ s) = EndsSolid (d ∷ s)

abbrev pub IsSolidText : Bytes → Type 0
IsSolidText s = StartsSolid s × EndsSolid s

trim_front-solid :
    (flip : Bool) (fuel c : ℕ) (s : Bytes) → IsSolid c → trim_front flip fuel (c ∷ s) ≡ c ∷ s
unfolding trim_front
trim_front-solid flip zero c s h = refl
trim_front-solid flip (suc fuel) c [] h = ground arith
trim_front-solid true (suc fuel) c (b ∷ []) h = ground arith
trim_front-solid false (suc fuel) c (b ∷ []) h = ground arith
trim_front-solid true (suc fuel) c (b ∷ d ∷ s) h = ground arith
trim_front-solid false (suc fuel) c (b ∷ d ∷ s) h = ground arith

trim_front-space :
    (flip : Bool) (fuel a b : ℕ) (s : Bytes)
    → is_ascii_space a ≡ true
    → trim_front flip (suc fuel) (a ∷ b ∷ s) ≡ trim_front flip fuel (b ∷ s)
unfolding trim_front
trim_front-space flip fuel a b [] h = ground arith
trim_front-space flip fuel a b (c ∷ s) h = ground arith

backwards-append : (s t out : Bytes) → backwards (s ++ t) out ≡ backwards t (backwards s out)
backwards-append [] t out = refl
backwards-append (c ∷ s) t out = backwards-append s t (c ∷ out)

backwards-backwards :
    (s out rest : Bytes) → backwards (backwards s out) rest ≡ backwards out (s ++ rest)
backwards-backwards [] out rest = refl
backwards-backwards (c ∷ s) out rest = backwards-backwards s (c ∷ out) rest

last_of : (s : Bytes) → EndsSolid s → (m : Bytes) × (z : ℕ) × (s ≡ m ++ z ∷ []) × IsSolid z
last_of [] h = absurd h
last_of (c ∷ []) h = ([], c, refl, h)
last_of (c ∷ d ∷ s) h =
    let (m, z, e, solid) = last_of (d ∷ s) h in (c ∷ m, z, ap (λ t. c ∷ t) e, solid)

trim_front-text :
    (fuel : ℕ) (s rest : Bytes) → StartsSolid s → trim_front false fuel (s ++ rest) ≡ s ++ rest
trim_front-text fuel [] rest h = absurd h
trim_front-text fuel (c ∷ s) rest h = trim_front-solid false fuel c (s ++ rest) h

-- Read from behind, the line feed is taken off and the last byte stays.
trim_back : (n z : ℕ) (m : Bytes) → IsSolid z → trim_front true (suc n) (10 ∷ z ∷ m) ≡ z ∷ m
trim_back n z m h = trim_front-space true n 10 z m refl ∙ trim_front-solid true n z m h

pub trim_space-line : (s : Bytes) → IsSolidText s → trim_space (s ++ 10 ∷ []) ≡ s
unfolding trim_space
trim_space-line s (starts, ends) =
    let (m, z, e, solid) = last_of s ends in
    let reversed : backwards (s ++ 10 ∷ []) [] ≡ 10 ∷ z ∷ backwards m [] =
      backwards-append s (10 ∷ []) []
      ∙ ap (λ t. 10 ∷ t) (ap (λ t. backwards t []) e ∙ backwards-append m (z ∷ []) []) in
    rw
      (
        trim_front-text (suc (length (s ++ 10 ∷ []))) s (10 ∷ []) starts,
        reversed,
        trim_back (length (s ++ 10 ∷ [])) z (backwards m []) solid,
        backwards-backwards m [] (z ∷ []),
      )
      (sym e)

-- A text without white space at its ends stays as it is.
pub trim_space-solid : (s : Bytes) → IsSolidText s → trim_space s ≡ s
unfolding trim_space
trim_space-solid s (starts, ends) =
    let (m, z, e, solid) = last_of s ends in
    let reversed : backwards s [] ≡ z ∷ backwards m [] =
      ap (λ t. backwards t []) e ∙ backwards-append m (z ∷ []) [] in
    rw
      (
        ap (trim_front false (suc (length s))) (sym (append-nil s))
            ∙ trim_front-text (suc (length s)) s [] starts
            ∙ append-nil s,
        reversed,
        trim_front-solid true (suc (length s)) z (backwards m []) solid,
        backwards-backwards m [] (z ∷ []),
      )
      (sym e)

StartsSolid-append : (s t : Bytes) → StartsSolid s → StartsSolid (s ++ t)
StartsSolid-append [] t h = absurd h
StartsSolid-append (c ∷ s) t h = h

EndsSolid-cons : (c : ℕ) (s : Bytes) → EndsSolid s → EndsSolid (c ∷ s)
EndsSolid-cons c [] h = absurd h
EndsSolid-cons c (d ∷ s) h = h

EndsSolid-append : (s t : Bytes) → EndsSolid t → EndsSolid (s ++ t)
EndsSolid-append [] t h = h
EndsSolid-append (c ∷ s) t h = EndsSolid-cons c (s ++ t) (EndsSolid-append s t h)

-- Texts without white space at their ends, joined.
pub join-IsSolidText :
    (sep : ℕ) (p : Bytes) (parts : List Bytes)
    → All IsSolidText (p ∷ parts)
    → IsSolidText (join sep (p ∷ parts))
unfolding join
join-IsSolidText sep p [] (h, hs) = h
join-IsSolidText sep p (q ∷ parts) ((starts, ends), hs) =
    let (_, rest) = join-IsSolidText sep q parts hs in
    (
      StartsSolid-append p (sep ∷ join sep (q ∷ parts)) starts,
      EndsSolid-append p (sep ∷ join sep (q ∷ parts))
          (EndsSolid-cons sep (join sep (q ∷ parts)) rest),
    )
