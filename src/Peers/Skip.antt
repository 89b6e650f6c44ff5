-- ===== src/Peers/Skip.antt =====
-- The send loop of `HandleSendingMessages` when one write fails: `RemoveConn` moves the connections in
-- the array that the loop still reads.
use simple_blockchain_client.Peers.Registry.{length-shift}
use simple_blockchain_client.Peers.Broadcast.{
  to_each-append, send_from-suc, send_from-add, read_at-length, send_from-written, to_each,
}
use simple_blockchain_client.Text.{Bytes}
use simple_blockchain_client.Peers.Middle.{
  visible-remove_conn-middle, shift-last, remove_conn-middle, last_of, Absent, slice_of,
}
use simple_blockchain_client.Peers.{
  shift, visible, frame, send_from, remove_conn, read_at, Peers, Conn, Sending, List, Bytes,
  send_at, handle_sending_messages,
}
use simple_blockchain_client.Prelude.{
  append-snoc, sym, nat_eq, ==_refl, append_assoc, ap, ==_ne, ◌∙◌, arith, length-append, ◌+◌, refl,
  length, ◌==◌, ◌++◌, ◌≡◌, List, Bool, ◌∷◌, [], suc, ℕ, some, true,
}

send_at-failed :
    (fails : ℕ → Bool) (m : Bytes) (i : ℕ) (s : Sending) {c : Conn}
    → read_at s.peers.array i ≡ some c
    → fails i ≡ true
    → send_at fails m i s ≡ record s { closed = s.closed ++ c ∷ []; peers = remove_conn c s.peers }
unfolding send_at
send_at-failed fails m i s there broken = rw (there, send_at, broken) refl

-- The loop up to the failure, and the failure.
send_from-failed :
    (fails : ℕ → Bool) (m : Bytes) (before : List Conn) (failed : Conn) (after : List Conn)
    (rounds : ℕ) (peers : Peers)
    → peers.array ≡ before ++ failed ∷ after
    → ((k : ℕ) → fails k ≡ (k == length before))
    → send_from fails m
        (length before + suc rounds)
        0
        (record { sent = []; closed = []; peers = peers })
      ≡ send_from fails m rounds (length before + 1) (record {
        sent = to_each m before;
        closed = failed ∷ [];
        peers = remove_conn failed peers;
      })
send_from-failed fails m before failed after rounds peers here only =
    let a = length before in
    let s0 : Sending = record { sent = []; closed = []; peers = peers } in
    let s1 : Sending = record s0 { sent = to_each m before } in
    let first : send_from fails m a 0 s0 ≡ s1 =
      send_from-written fails m [] before (failed ∷ after) s0 here
        (λ k low high. only k ∙ ==_ne k a (λ e. omega arith)) in
    let second =
      send_at-failed fails m a s1 (rw here (read_at-length before failed after))
        (only a ∙ ==_refl a) in
    let start : 0 + a ≡ a = omega arith in
    send_from-add fails m a (suc rounds) 0 s0
    ∙ ap (λ t. send_from fails m (suc rounds) (0 + a) t) first
    ∙ ap (λ k. send_from fails m (suc rounds) k s1) start
    ∙ send_from-suc fails m rounds a s1
    ∙ ap (λ t. send_from fails m rounds (a + 1) t) second

-- The loop after the failure: it finds the moved connections.
send_from-moved :
    (fails : ℕ → Bool) (m : Bytes) (before : List Conn) (next : Conn) (moved behind : List Conn)
    (s : Sending)
    → s.peers.array ≡ (before ++ next ∷ moved) ++ behind
    → ((k : ℕ) → fails k ≡ (k == length before))
    → send_from fails m (length moved) (length before + 1) s
      ≡ record s { sent = s.sent ++ to_each m moved }
send_from-moved fails m before next moved behind s here only =
    let size = length-append before (next ∷ []) in
    let start : length before + 1 ≡ length (before ++ next ∷ []) = omega arith in
    ap (λ k. send_from fails m (length moved) k s) start
    ∙ send_from-written fails m (before ++ next ∷ []) moved behind s
        (here
          ∙ append_assoc before (next ∷ moved) behind
          ∙ append-snoc before next (moved ++ behind))
        (λ k low high. only k ∙ ==_ne k (length before) (λ e. omega arith))

-- When exactly the write to one peer fails, which is neither the last one nor equal to an earlier one,
-- `HandleSendingMessages` closes that connection and takes it out of the peers, but does not write to
-- the peer behind it, unless that is the last one: what the loop writes goes to the earlier peers,
-- then to those behind the next one, and at last to the last peer, which gets it once more if it is
-- not the next one.
pub handle_sending_messages_skips :
    (fails : ℕ → Bool) (protocol_id : ℕ) (message : Bytes) (before : List Conn) (failed next : Conn)
    (after behind : List Conn)
    → Absent failed before
    → ((k : ℕ) → fails k ≡ (k == length before))
    → let result =
        handle_sending_messages fails protocol_id message
          (slice_of (before ++ failed ∷ next ∷ after) behind) in
      (result.sent
        ≡ to_each (frame protocol_id message) (before ++ (after ++ last_of next after ∷ [])))
      × (result.closed ≡ failed ∷ [])
      × (visible result.peers ≡ before ++ next ∷ after)
unfolding handle_sending_messages slice_of Absent
handle_sending_messages_skips fails protocol_id message before failed next after behind new only =
    let m = frame protocol_id message in
    let conns = before ++ failed ∷ next ∷ after in
    let peers = slice_of conns behind in
    let moved = shift (next ∷ after) in
    let s : Sending = record {
      sent = to_each m before;
      closed = failed ∷ [];
      peers = remove_conn failed peers;
    } in
    let size = length-append before (failed ∷ next ∷ after) in
    let count : peers.len ≡ length before + suc (length moved) =
      omega (arith, length-shift (next ∷ after)) in
    let all =
      ap (λ n. send_from fails m n 0 (record { sent = []; closed = []; peers = peers })) count
      ∙ send_from-failed fails m before failed (next ∷ after ++ behind) (length moved) peers
          (append_assoc before (failed ∷ next ∷ after) behind) only
      ∙ send_from-moved fails m before next moved behind s
          (ap (λ p. p.array) (remove_conn-middle before failed next after behind new)) only in
    rw all (
      sym (to_each-append m before moved)
          ∙ ap (λ l. to_each m (before ++ l)) (shift-last next after),
      refl,
      visible-remove_conn-middle before failed next after behind new,
    )
