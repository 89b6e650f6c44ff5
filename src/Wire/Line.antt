-- ===== src/Wire/Line.antt =====
-- How `ReadString` puts a line together from several reads, and that it takes reads.
use simple_blockchain_client.Text.Parts.{Lacks}
use simple_blockchain_client.Text.{Bytes}
use simple_blockchain_client.Wire.{
  read_error, end_of_file, waiting, broken, eof, line, bytes, ConnRead, Bytes, read_string, line_of,
  ReadString,
}
use simple_blockchain_client.Prelude.{
  inr, arith, inl, append_assoc, sym, Option-cases, ◌<◌, ap, ◌⊎◌, ◌∙◌, length, refl, ◌≡◌, All, ◌++◌,
  List, ◌∷◌, [], none, some,
}

pub ReadString-cases :
    (r : ReadString)
    → ((l : Bytes) × (rest : List ConnRead) × (r ≡ line l rest))
      ⊎ ((r ≡ eof) ⊎ ((r ≡ broken) ⊎ (r ≡ waiting)))
ReadString-cases (line l rest) = inl (l, rest, refl)
ReadString-cases eof = inr (inl refl)
ReadString-cases broken = inr (inr (inl refl))
ReadString-cases waiting = inr (inr (inr refl))

line_of-Lacks : (s : Bytes) → Lacks 10 s → line_of s ≡ none
unfolding line_of
line_of-Lacks [] h = refl
line_of-Lacks (c ∷ s) (hc, h) = rw (hc, line_of-Lacks s h)

pub line_of-line : (s after : Bytes) → Lacks 10 s → line_of (s ++ 10 ∷ after) ≡ some (s ++ 10 ∷ [])
unfolding line_of
line_of-line [] after h = refl
line_of-line (c ∷ s) after (hc, h) = rw (hc, line_of-line s after h)

-- Bytes that come in several reads.
abbrev pub in_reads : List Bytes → List ConnRead → List ConnRead
in_reads [] reads = reads
in_reads (s ∷ parts) reads = bytes s ∷ in_reads parts reads

-- Several texts, one after another.
abbrev pub concat : List Bytes → Bytes
concat [] = []
concat (s ∷ parts) = s ++ concat parts

pub read_string-bytes :
    (buffered s : Bytes) (reads : List ConnRead)
    → line_of s ≡ none
    → read_string buffered (bytes s ∷ reads) ≡ read_string (buffered ++ s) reads
unfolding read_string
read_string-bytes buffered s reads h = rw (h, read_string)

pub read_string-line :
    (buffered s l : Bytes) (reads : List ConnRead)
    → line_of s ≡ some l
    → read_string buffered (bytes s ∷ reads) ≡ line (buffered ++ l) reads
unfolding read_string
read_string-line buffered s l reads h = rw (h, read_string)

-- A line in any number of reads, the line feed in the last of them.
pub read_string-in_reads :
    (parts : List Bytes) (last after buffered : Bytes) (reads : List ConnRead)
    → All (Lacks 10) parts
    → Lacks 10 last
    → read_string buffered (in_reads parts (bytes (last ++ 10 ∷ after) ∷ reads))
      ≡ line (buffered ++ (concat parts ++ (last ++ 10 ∷ []))) reads
read_string-in_reads [] last after buffered reads h hl =
    read_string-line buffered (last ++ 10 ∷ after) (last ++ 10 ∷ []) reads
      (line_of-line last after hl)
read_string-in_reads (s ∷ parts) last after buffered reads (hs, h) hl =
    let tail = concat parts ++ (last ++ 10 ∷ []) in
    read_string-bytes buffered s (in_reads parts (bytes (last ++ 10 ∷ after) ∷ reads))
      (line_of-Lacks s hs)
    ∙ read_string-in_reads parts last after (buffered ++ s) reads h hl
    ∙ ap (λ t. line t reads)
        (append_assoc buffered s tail
          ∙ ap (λ t. buffered ++ t) (sym (append_assoc s (concat parts) (last ++ 10 ∷ []))))

-- A line takes a read at least.
pub read_string_shorter :
    (buffered : Bytes) (reads : List ConnRead) (l : Bytes) (rest : List ConnRead)
    → read_string buffered reads ≡ line l rest
    → length rest < length reads
unfolding read_string
read_string_shorter buffered [] l rest h = cc
read_string_shorter buffered (end_of_file ∷ reads) l rest h = cc
read_string_shorter buffered (read_error ∷ reads) l rest h = cc
read_string_shorter buffered (bytes s ∷ reads) l rest h = elim (Option-cases (line_of s)) [
  | inl none_yet ↦
      let shorter = read_string_shorter (buffered ++ s) reads l rest (ground arith) in omega arith
  | inr (m, found) ↦ ground arith
]
