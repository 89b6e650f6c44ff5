-- ===== src/Peers/Registry.antt =====
-- `RemoveConn` as an operation on the list of the peers, which forgets the array.
use simple_blockchain_client.Peers.{
  visible, drop, remove_conn, none, connect, take, shift, index_of, close_gap, Peers, Conn,
}
use simple_blockchain_client.Prelude.{
  ◌∙◌, sym, length-append, drop, ◌+◌, ◌++◌, none, bytes_eq, nat_eq, inr, refl, inl, Bool-cases, ◌-◌,
  arith, ap, Option-cases, ◌≤◌, ◌≡◌, ◌==◌, take, length, if◌then◌else◌, List, ◌∷◌, [], zero, suc, ℕ,
  some, false,
}

-- A list without the first occurrence of a connection.
unfoldable pub without_first : Conn → List Conn → List Conn
without_first target [] = []
without_first target (conn ∷ conns) =
    let rest = conn ∷ without_first target conns in if conn == target then conns else rest

-- The length of the slice lies within its array.
pub record IsSlice (peers : Peers) : Type 0 where
  pub within : peers.len ≤ length peers.array

pub length-take : (n : ℕ) (l : List Conn) → n ≤ length l → length (take n l) ≡ n
length-take zero l h = refl
length-take (suc n) [] h = absurd (omega arith)
length-take (suc n) (c ∷ l) h = ap suc (length-take n l (omega arith))

pub length-shift : (l : List Conn) → length (shift l) ≡ length l
unfolding shift
length-shift [] = refl
length-shift (c ∷ []) = refl
length-shift (c ∷ d ∷ l) = ap suc (length-shift (d ∷ l))

pub length-close_gap : (i : ℕ) (l : List Conn) → length (close_gap i l) ≡ length l
unfolding close_gap
length-close_gap zero l = length-shift l
length-close_gap (suc i) [] = refl
length-close_gap (suc i) (c ∷ l) = ap suc (length-close_gap i l)

take-shift : (c : Conn) (l : List Conn) → take (length l) (shift (c ∷ l)) ≡ l
unfolding shift
take-shift c [] = refl
take-shift c (d ∷ l) = ap (λ t. d ∷ t) (take-shift d l)

index_of-step :
    (target c : Conn) (l : List Conn) {i : ℕ}
    → (c == target) ≡ false
    → index_of target (c ∷ l) ≡ some i
    → (j : ℕ) × (index_of target l ≡ some j) × (i ≡ suc j)
unfolding index_of
index_of-step target c l {i} other h = elim (Option-cases (index_of target l)) [
  | inl gone ↦ absurd (ground arith)
  | inr (j, there) ↦ (j, there, ground arith)
]

without_first-step :
    (target c : Conn) (l : List Conn)
    → (c == target) ≡ false
    → without_first target (c ∷ l) ≡ c ∷ without_first target l
unfolding without_first
without_first-step target c l other = rw other

take-close_gap-suc :
    (c : Conn) (l : List Conn) (n j : ℕ)
    → take (suc n) (close_gap (suc j) (c ∷ l)) ≡ c ∷ take n (close_gap j l)
unfolding close_gap
take-close_gap-suc c l n j = refl

take-close_gap :
    (target : Conn) (n : ℕ) (l : List Conn) {i : ℕ}
    → length l ≡ suc n
    → index_of target l ≡ some i
    → take n (close_gap i l) ≡ without_first target l
take-close_gap target n [] size h = absurd (omega arith)
take-close_gap target zero (c ∷ []) {i} size h = elim (Bool-cases (c == target)) [
  | inl here ↦ unfold without_first in rw here
  | inr other ↦ absurd (unfold index_of in ground arith)
]
take-close_gap target zero (c ∷ d ∷ l) size h = absurd (omega arith)
take-close_gap target (suc n) (c ∷ l) {i} size h = elim (Bool-cases (c == target)) [
  | inl here ↦
      let first : i ≡ 0 = unfold index_of in ground arith in
      let m : suc n ≡ length l = omega arith in
      rw (first, m) (unfold close_gap without_first in rw here (take-shift c l))
  | inr other ↦
      let (j, there, e) = index_of-step target c l other h in
      rw (e, without_first-step target c l other)
        (take-close_gap-suc c l n j
          ∙ ap (λ t. c ∷ t) (take-close_gap target n l (omega arith) there))
]

take-append : (n : ℕ) (a b : List Conn) → n ≤ length a → take n (a ++ b) ≡ take n a
take-append zero a b h = refl
take-append (suc n) [] b h = absurd (omega arith)
take-append (suc n) (c ∷ a) b h = ap (λ t. c ∷ t) (take-append n a b (omega arith))

take-append-snoc :
    (a : List Conn) (c : Conn) (b : List Conn) → take (suc (length a)) (a ++ c ∷ b) ≡ a ++ c ∷ []
take-append-snoc [] c b = refl
take-append-snoc (d ∷ a) c b = ap (λ t. d ∷ t) (take-append-snoc a c b)

length-take-add-drop : (n : ℕ) (l : List Conn) → length (take n l) + length (drop n l) ≡ length l
length-take-add-drop zero l = omega arith
length-take-add-drop (suc n) [] = omega arith
length-take-add-drop (suc n) (c ∷ l) = omega (arith, length-take-add-drop n l)

index_of-ne-nil :
    (target : Conn) (l : List Conn) {i : ℕ}
    → index_of target l ≡ some i
    → (n : ℕ) × (length l ≡ suc n)
unfolding index_of
index_of-ne-nil target [] h = cc
index_of-ne-nil target (c ∷ l) h = (length l, refl)

without_first-absent :
    (target : Conn) (l : List Conn) → index_of target l ≡ none → without_first target l ≡ l
unfolding index_of without_first
without_first-absent target [] h = refl
without_first-absent target (c ∷ l) h =
    ground (arith, without_first-absent target l, Option-cases (index_of target l))

-- The slice that `RemoveConn` returns holds what the one given does, less the first occurrence of the
-- connection, and it still lies within its array, whose length stays.
pub remove_conn_refines :
    (target : Conn) (peers : Peers)
    → IsSlice peers
    → (visible (remove_conn target peers) ≡ without_first target (visible peers))
      × IsSlice (remove_conn target peers)
      × (length (remove_conn target peers).array ≡ length peers.array)
unfolding remove_conn
remove_conn_refines target peers v = elim (Option-cases (index_of target (visible peers))) [
  | inl gone ↦
      rw (gone, remove_conn) (sym (without_first-absent target (visible peers) gone), v, refl)
  | inr (i, there) ↦
      let (n, size) = index_of-ne-nil target (visible peers) there in
      let whole = length-take peers.len peers.array v.within in
      let gap = length-close_gap i (visible peers) in
      let parts = length-take-add-drop peers.len peers.array in
      let smaller : peers.len - 1 ≡ n = omega arith in
      let all = length-append (close_gap i (visible peers)) (drop peers.len peers.array) in
      rw (there, remove_conn, smaller)
        (
          take-append n (close_gap i (visible peers)) (drop peers.len peers.array) (omega arith)
              ∙ take-close_gap target n (visible peers) size there,
          record { within = omega arith },
          omega arith,
        )
]

-- The slice that `append` returns holds what the one given does, and the new connection last.
pub connect_refines :
    (conn : Conn) (peers : Peers)
    → IsSlice peers
    → (visible (connect conn peers) ≡ visible peers ++ conn ∷ []) × IsSlice (connect conn peers)
unfolding connect
connect_refines conn peers v =
    let size = length-take peers.len peers.array v.within in
    let behind = drop (peers.len + 1) peers.array in
    let all = length-append (visible peers) (conn ∷ behind) in
    let seen : peers.len + 1 ≡ suc (length (visible peers)) = omega arith in
    (
      ap (λ n. take n (visible peers ++ conn ∷ behind)) seen
          ∙ take-append-snoc (visible peers) conn behind,
      record { within = omega arith },
    )
