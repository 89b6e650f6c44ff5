-- ===== src/Text/Parts.antt =====
-- `strings.Split`, `strings.Join` and `strings.TrimSpace`, as the discovery protocol uses them.
use simple_blockchain_client.Text.{Bytes}
use simple_blockchain_client.Prelude.{
  leb, ap, ◌∙◌, ◌||◌, ◌&&◌, refl, nat_eq, ==_refl, ◌≡◌, ◌==◌, ◌++◌, length, if◌then◌else◌, All,
  List, Bool, ◌∷◌, [], zero, suc, ℕ, true, false,
}

abbrev pub push_front : ℕ → List Bytes → List Bytes
push_front c [] = (c ∷ []) ∷ []
push_front c (p ∷ ps) = (c ∷ p) ∷ ps

-- `strings.Split(s, sep)` for a separator of one byte: a text without one is its only part.
unfoldable pub split : ℕ → Bytes → List Bytes
split sep [] = [] ∷ []
split sep (c ∷ s) = let parts = split sep s in if c == sep then [] ∷ parts else push_front c parts

-- `strings.Join(parts, sep)`
unfoldable pub join : ℕ → List Bytes → Bytes
join sep [] = []
join sep (p ∷ []) = p
join sep (p ∷ q ∷ parts) = p ++ sep ∷ join sep (q ∷ parts)

-- The byte does not occur.
abbrev pub Lacks : ℕ → Bytes → Type 0
Lacks c = All (λ b. (b == c) ≡ false)

split-Lacks : (sep : ℕ) (p : Bytes) → Lacks sep p → split sep p ≡ p ∷ []
unfolding split
split-Lacks sep [] h = refl
split-Lacks sep (c ∷ p) (hc, h) = rw (hc, split-Lacks sep p h)

split-append :
    (sep : ℕ) (p rest : Bytes) → Lacks sep p → split sep (p ++ sep ∷ rest) ≡ p ∷ split sep rest
unfolding split
split-append sep [] rest h = rw (==_refl sep)
split-append sep (c ∷ p) rest (hc, h) = rw (hc, split-append sep p rest h)

-- What was joined is taken apart again, if there is a part and none holds the separator.
pub split-join :
    (sep : ℕ) (p : Bytes) (parts : List Bytes)
    → All (Lacks sep) (p ∷ parts)
    → split sep (join sep (p ∷ parts)) ≡ p ∷ parts
unfolding join
split-join sep p [] (h, hs) = split-Lacks sep p h
split-join sep p (q ∷ parts) (h, hs) =
    split-append sep p (join sep (q ∷ parts)) h ∙ ap (λ l. p ∷ l) (split-join sep q parts hs)

abbrev pub is_ascii_space : ℕ → Bool
is_ascii_space c = c == 32 || (leb 9 c && leb c 13)

-- The white space of Unicode beyond ASCII in UTF-8: U+0085 and U+00A0 in two bytes, U+1680,
-- U+2000 to U+200A, U+2028, U+2029, U+202F, U+205F and U+3000 in three.
abbrev pub is_space_2 : ℕ → ℕ → Bool
is_space_2 a b = a == 0xc2 && (b == 0x85 || b == 0xa0)

abbrev pub is_space_3 : ℕ → ℕ → ℕ → Bool
is_space_3 a b c =
    (a == 0xe1 && (b == 0x9a && c == 0x80))
    || ((a == 0xe2
          && (b == 0x80 && ((leb 0x80 c && leb c 0x8a) || (c == 0xa8 || (c == 0xa9 || c == 0xaf)))))
        || ((a == 0xe2 && (b == 0x81 && c == 0x9f)) || (a == 0xe3 && (b == 0x80 && c == 0x80))))

-- The text without the white space in front, `flip` telling that it is written backwards. A round
-- takes a byte off at least, so that one more round than there are bytes is enough.
unfoldable pub trim_front : Bool → ℕ → Bytes → Bytes
trim_front flip zero s = s
trim_front flip (suc fuel) [] = []
trim_front flip (suc fuel) (a ∷ []) = if is_ascii_space a then [] else a ∷ []
trim_front flip (suc fuel) (a ∷ b ∷ []) =
    let one = trim_front flip fuel (b ∷ []) in
    if is_ascii_space a
    then one
    else if (if flip then is_space_2 b a else is_space_2 a b)
    then []
    else a ∷ b ∷ []
trim_front flip (suc fuel) (a ∷ b ∷ c ∷ s) =
    let one = trim_front flip fuel (b ∷ c ∷ s) in
    let two = trim_front flip fuel (c ∷ s) in
    let three = trim_front flip fuel s in
    if is_ascii_space a
    then one
    else if (if flip then is_space_2 b a else is_space_2 a b)
    then two
    else if (if flip then is_space_3 c b a else is_space_3 a b c)
    then three
    else a ∷ b ∷ c ∷ s

abbrev pub backwards : Bytes → Bytes → Bytes
backwards [] out = out
backwards (c ∷ s) out = backwards s (c ∷ out)

-- `strings.TrimSpace(s)`
unfoldable pub trim_space : Bytes → Bytes
trim_space s =
    let front = trim_front false (suc (length s)) s in
    backwards (trim_front true (suc (length front)) (backwards front [])) []
