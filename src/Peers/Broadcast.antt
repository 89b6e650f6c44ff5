-- ===== src/Peers/Broadcast.antt =====
-- The send loop of `HandleSendingMessages` while the writes succeed.
use simple_blockchain_client.Peers.Registry.{length-take, IsSlice}
use simple_blockchain_client.Text.{Bytes}
use simple_blockchain_client.Peers.{
  visible, drop, take, Peers, frame, Sending, Conn, send_from, send_at, read_at,
  handle_sending_messages,
}
use simple_blockchain_client.Prelude.{
  append-snoc, length-append, ◌∙◌, append-nil, ◌≤◌, ◌<◌, drop, arith, take, sym, refl, length, ap,
  ◌≡◌, ◌+◌, ◌++◌, List, Bool, ◌∷◌, [], zero, suc, ℕ, some, false,
}

-- The same bytes to each of the connections, in their order.
unfoldable pub to_each : Bytes → List Conn → List (Conn × Bytes)
to_each full_message [] = []
to_each full_message (conn ∷ conns) = (conn, full_message) ∷ to_each full_message conns

pub to_each-append : (m : Bytes) (a b : List Conn) → to_each m (a ++ b) ≡ to_each m a ++ to_each m b
unfolding to_each
to_each-append m [] b = refl
to_each-append m (c ∷ a) b = ap (λ t. (c, m) ∷ t) (to_each-append m a b)

to_each-cons : (m : Bytes) (c : Conn) (l : List Conn) → to_each m (c ∷ l) ≡ (c, m) ∷ to_each m l
unfolding to_each
to_each-cons m c l = refl

pub read_at-length :
    (before : List Conn) (c : Conn) (after : List Conn)
    → read_at (before ++ c ∷ after) (length before) ≡ some c
unfolding read_at
read_at-length [] c after = refl
read_at-length (b ∷ before) c after = read_at-length before c after

send_at-written :
    (fails : ℕ → Bool) (m : Bytes) (i : ℕ) (s : Sending) {c : Conn}
    → read_at s.peers.array i ≡ some c
    → fails i ≡ false
    → send_at fails m i s ≡ record s { sent = s.sent ++ (c, m) ∷ [] }
unfolding send_at
send_at-written fails m i s there fine = rw (there, send_at, fine) refl

pub send_from-suc :
    (fails : ℕ → Bool) (m : Bytes) (rounds i : ℕ) (s : Sending)
    → send_from fails m (suc rounds) i s ≡ send_from fails m rounds (i + 1) (send_at fails m i s)
unfolding send_from
send_from-suc fails m rounds i s = refl

pub send_from-add :
    (fails : ℕ → Bool) (m : Bytes) (a b i : ℕ) (s : Sending)
    → send_from fails m (a + b) i s ≡ send_from fails m b (i + a) (send_from fails m a i s)
unfolding send_from
send_from-add fails m zero b i s =
    let same : 0 + b ≡ b = omega arith in
    let start : i ≡ i + 0 = omega arith in
    ap (λ t. send_from fails m t i s) same ∙ ap (λ k. send_from fails m b k s) start
send_from-add fails m (suc a) b i s =
    let s2 = send_at fails m i s in
    let size : suc a + b ≡ suc (a + b) = omega arith in
    let next : i + 1 + a ≡ i + suc a = omega arith in
    ap (λ n. send_from fails m n i s) size
    ∙ send_from-add fails m a b (i + 1) s2
    ∙ ap (λ k. send_from fails m b k (send_from fails m a (i + 1) s2)) next

-- Connections that stand in the array one after another all get the message, when no write at one of
-- their indices fails.
pub send_from-written :
    (fails : ℕ → Bool) (m : Bytes) (before conns after : List Conn) (s : Sending)
    → s.peers.array ≡ before ++ (conns ++ after)
    → ((k : ℕ) → length before ≤ k → k < length before + length conns → fails k ≡ false)
    → send_from fails m (length conns) (length before) s
      ≡ record s { sent = s.sent ++ to_each m conns }
send_from-written fails m before [] after s here fine =
    unfold send_from to_each in ap (λ t. record s { sent = t }) (sym (append-nil s.sent))
send_from-written fails m before (c ∷ conns) after s here fine =
    let n = length before in
    let more = s.sent ++ (c, m) ∷ [] in
    let written =
      send_at-written fails m n s (rw here (read_at-length before c (conns ++ after)))
        (fine n (omega arith) (omega arith)) in
    let size = length-append before (c ∷ []) in
    let rest =
      send_from-written fails m (before ++ c ∷ []) conns after (record s { sent = more })
        (here ∙ append-snoc before c (conns ++ after))
        (λ k low high. fine k (omega arith) (omega arith)) in
    let next : n + 1 ≡ length (before ++ c ∷ []) = omega arith in
    send_from-suc fails m (length conns) n s
    ∙ ap (λ t. send_from fails m (length conns) (n + 1) t) written
    ∙ ap (λ k. send_from fails m (length conns) k (record s { sent = more })) next
    ∙ rest
    ∙ ap (λ t. record s { sent = t })
        (sym (append-snoc s.sent (c, m) (to_each m conns))
          ∙ ap (λ t. s.sent ++ t) (sym (to_each-cons m c conns)))

take-append-drop : (n : ℕ) (l : List Conn) → l ≡ take n l ++ drop n l
take-append-drop zero l = refl
take-append-drop (suc n) [] = refl
take-append-drop (suc n) (c ∷ l) = ap (λ t. c ∷ t) (take-append-drop n l)

-- When no write fails, `HandleSendingMessages` writes the frame, which is the protocol byte, the message
-- and a line feed, once to each of the peers, in their order; it closes no connection and keeps the
-- peers. The length of the slice lies within its array.
pub handle_sending_messages_to_all :
    (fails : ℕ → Bool) (protocol_id : ℕ) (message : Bytes) (peers : Peers)
    → IsSlice peers
    → ((k : ℕ) → k < peers.len → fails k ≡ false)
    → handle_sending_messages fails protocol_id message peers ≡ record {
      sent = to_each (protocol_id ∷ message ++ 10 ∷ []) (visible peers);
      closed = [];
      peers = peers;
    }
unfolding handle_sending_messages frame
handle_sending_messages_to_all fails protocol_id message peers v fine =
    let size = length-take peers.len peers.array v.within in
    let m = protocol_id ∷ message ++ 10 ∷ [] in
    let s : Sending = record { sent = []; closed = []; peers = peers } in
    ap (λ n. send_from fails m n 0 s) (sym size)
    ∙ send_from-written fails m [] (visible peers) (drop peers.len peers.array) s
        (take-append-drop peers.len peers.array) (λ k low high. fine k (omega arith))
