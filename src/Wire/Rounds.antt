-- ===== src/Wire/Rounds.antt =====
-- The rounds of the loop that `refactor_handle_incoming_messages` is given.
use simple_blockchain_client.Text.Parts.{trim_space}
use simple_blockchain_client.Wire.Line.{read_string_shorter, ReadString-cases}
use simple_blockchain_client.Text.{Bytes}
use simple_blockchain_client.Peers.{Peers, Conn}
use simple_blockchain_client.Wire.{
  trim_space, deliver, line, read_string, Bytes, ConnRead, Conn, refactor_handle_incoming_messages,
  handle_incoming,
}
use simple_blockchain_client.Prelude.{
  refl, inr, ap, inl, arith, ◌≡◌, ◌<◌, length, List, [], zero, suc, ℕ,
}

handle_incoming-enough :
    (fuel more : ℕ) (conn : Conn) (reads : List ConnRead) (peers : Peers)
    → length reads < fuel
    → length reads < more
    → handle_incoming fuel conn reads peers ≡ handle_incoming more conn reads peers
unfolding handle_incoming
handle_incoming-enough zero more conn reads peers hf hm = absurd (omega arith)
handle_incoming-enough (suc fuel) zero conn reads peers hf hm = absurd (omega arith)
handle_incoming-enough (suc fuel) (suc more) conn reads peers hf hm =
    elim (ReadString-cases (read_string [] reads)) [
      | inl (l, rest, e) ↦
          let shorter = read_string_shorter [] reads l rest e in
          rw (e, handle_incoming)
            (ap (deliver (trim_space l))
              (handle_incoming-enough fuel more conn rest peers (omega arith) (omega arith)))
      | inr (inl e) ↦ rw (e, handle_incoming) refl
      | inr (inr (inl e)) ↦ rw (e, handle_incoming) refl
      | inr (inr (inr e)) ↦ rw (e, handle_incoming) refl
    ]

-- The loop of the handler ends within one round more than there are reads: any larger number of rounds
-- gives the same messages, peers and end.
pub refactor_handle_incoming_messages_ends :
    (fuel : ℕ) (conn : Conn) (reads : List ConnRead) (peers : Peers)
    → length reads < fuel
    → handle_incoming fuel conn reads peers ≡ refactor_handle_incoming_messages conn reads peers
unfolding refactor_handle_incoming_messages
refactor_handle_incoming_messages_ends fuel conn reads peers h =
    handle_incoming-enough fuel (suc (length reads)) conn reads peers h (omega arith)

-- One round of the handler on a line.
pub refactor_handle_incoming_messages-line :
    (conn : Conn) (reads : List ConnRead) (peers : Peers) (l : Bytes) (rest : List ConnRead)
    → read_string [] reads ≡ line l rest
    → refactor_handle_incoming_messages conn reads peers
      ≡ deliver (trim_space l) (refactor_handle_incoming_messages conn rest peers)
unfolding refactor_handle_incoming_messages handle_incoming
refactor_handle_incoming_messages-line conn reads peers l rest h =
    let shorter = read_string_shorter [] reads l rest h in
    rw (h, handle_incoming)
      (ap (deliver (trim_space l))
        (refactor_handle_incoming_messages_ends (length reads) conn rest peers shorter))
