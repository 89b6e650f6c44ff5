-- ===== src/Peers/Middle.antt =====
-- Slices as `RemoveConn` meets them: what it does to a connection that is not the last one.
use simple_blockchain_client.Peers.Registry.{remove_conn_refines, without_first}
use simple_blockchain_client.Peers.{visible, Peers, shift, remove_conn, index_of, close_gap, Conn}
use simple_blockchain_client.Prelude.{
  drop-length-append, take-length-append, nat_eq, ◌==◌, Bool-cases, inr, inl, Option-cases, ◌∙◌,
  ==_refl, ◌-◌, refl, length-append, arith, ap, ◌≡◌, ◌++◌, length, List, ◌∷◌, [], none, some,
}

-- A slice with the given connections, and what its array holds behind them.
unfoldable pub slice_of : List Conn → List Conn → Peers
slice_of conns behind = record { array = conns ++ behind; len = length conns }

-- The last connection of a list that begins with the given one.
unfoldable pub last_of : Conn → List Conn → Conn
last_of conn [] = conn
last_of conn (next ∷ conns) = last_of next conns

-- No connection of the list equals the given one.
unfoldable pub Absent : Conn → List Conn → Type 0
Absent conn conns = index_of conn conns ≡ none

index_of-append :
    (target : Conn) (before after : List Conn)
    → index_of target before ≡ none
    → index_of target (before ++ target ∷ after) ≡ some (length before)
unfolding index_of
index_of-append target [] after h =
    ground (arith, ==_refl target, Option-cases (index_of target after))
index_of-append target (c ∷ before) after h = elim (Option-cases (index_of target before)) [
  | inl gone ↦ rw (index_of-append target before after gone) (ground (arith, gone))
  | inr (j, there) ↦ absurd (ground (arith, Bool-cases (c == target)))
]

close_gap-append :
    (before l : List Conn) → close_gap (length before) (before ++ l) ≡ before ++ shift l
unfolding close_gap
close_gap-append [] l = refl
close_gap-append (c ∷ before) l = ap (λ t. c ∷ t) (close_gap-append before l)

pub shift-last : (c : Conn) (l : List Conn) → shift (c ∷ l) ≡ l ++ last_of c l ∷ []
unfolding shift last_of
shift-last c [] = refl
shift-last c (d ∷ l) = ap (λ t. d ∷ t) (shift-last d l)

shift-cons : (c d : Conn) (l : List Conn) → shift (c ∷ d ∷ l) ≡ d ∷ shift (d ∷ l)
unfolding shift
shift-cons c d l = refl

-- What `RemoveConn` leaves when the connection stands behind `before` and is not the last.
pub remove_conn-middle :
    (before : List Conn) (failed next : Conn) (after behind : List Conn)
    → Absent failed before
    → remove_conn failed (slice_of (before ++ failed ∷ next ∷ after) behind) ≡ record {
      array = (before ++ next ∷ shift (next ∷ after)) ++ behind;
      len = length (before ++ failed ∷ next ∷ after) - 1;
    }
unfolding remove_conn slice_of Absent
remove_conn-middle before failed next after behind new =
    let conns = before ++ failed ∷ next ∷ after in
    let seen = take-length-append conns behind in
    let found : index_of failed (visible (slice_of conns behind)) ≡ some (length before) =
      rw seen (index_of-append failed before (next ∷ after) new) in
    let gap : close_gap (length before) (visible (slice_of conns behind))
        ≡ before ++ next ∷ shift (next ∷ after) =
      rw seen (
        close_gap-append before (failed ∷ next ∷ after)
        ∙ ap (λ l. before ++ l) (shift-cons failed next after)) in
    rw (found, remove_conn, gap, drop-length-append conns behind) refl

without_first-append :
    (target : Conn) (before after : List Conn)
    → index_of target before ≡ none
    → without_first target (before ++ target ∷ after) ≡ before ++ after
unfolding without_first index_of
without_first-append target [] after h = ground (arith, ==_refl target)
without_first-append target (c ∷ before) after h = elim (Option-cases (index_of target before)) [
  | inl gone ↦ rw (without_first-append target before after gone) (ground (arith, gone))
  | inr (j, there) ↦ absurd (ground (arith, Bool-cases (c == target)))
]

pub visible-remove_conn-middle :
    (before : List Conn) (failed next : Conn) (after behind : List Conn)
    → Absent failed before
    → visible (remove_conn failed (slice_of (before ++ failed ∷ next ∷ after) behind))
      ≡ before ++ next ∷ after
unfolding slice_of Absent
visible-remove_conn-middle before failed next after behind new =
    let conns = before ++ failed ∷ next ∷ after in
    let size = length-append conns behind in
    (remove_conn_refines failed (slice_of conns behind) (record { within = omega arith })).0
    ∙ ap (without_first failed) (take-length-append conns behind)
    ∙ without_first-append failed before (next ∷ after) new
