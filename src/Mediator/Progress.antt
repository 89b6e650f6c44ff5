-- ===== src/Mediator/Progress.antt =====
-- When the processor can go on.
use simple_blockchain_client.Mediator.Stuck.{taken, IsStuck}
use simple_blockchain_client.Mediator.Taken.{processed_in, processed_by}
use simple_blockchain_client.Mediator.Bounds.{IsBounded}
use simple_blockchain_client.Text.{Bytes}
use simple_blockchain_client.Platform.{Json, Crypto, LevelDb}
use simple_blockchain_client.Chain.{process_message, Sent, p2p_to_blockchain, blockchain_to_p2p}
use simple_blockchain_client.Mediator.{
  ltb, Steps, capacity, System, Mediator, Json, length, Crypto, Bytes, send, put_message, List,
  LevelDb, here, after, take_message, processor_sends, forward,
}
use simple_blockchain_client.Prelude.{
  ltb, ◌∙◌, ap, Bool-cases, refl, inr, arith, ◌++◌, inl, ◌⊎◌, ◌≤◌, ◌≡◌, ◌<◌, length, List, ◌∷◌, [],
  some,
}

send-room :
    (message : Bytes) (channel : List Bytes)
    → length channel < capacity
    → send message channel ≡ some (channel ++ message ∷ [])
unfolding send
send-room message channel room = ground arith

put_message-in :
    (message : Bytes) (m : Mediator)
    → length m.p2p_to_blockchain < capacity
    → put_message (p2p_to_blockchain message) m
      ≡ some (record m { p2p_to_blockchain = m.p2p_to_blockchain ++ message ∷ [] })
unfolding put_message
put_message-in message m room = rw (send-room message m.p2p_to_blockchain room, put_message) refl

put_message-out :
    (message : Bytes) (m : Mediator)
    → length m.blockchain_to_p2p < capacity
    → put_message (blockchain_to_p2p message) m
      ≡ some (record m { blockchain_to_p2p = m.blockchain_to_p2p ++ message ∷ [] })
unfolding put_message
put_message-out message m room = rw (send-room message m.blockchain_to_p2p room, put_message) refl

one_or_none : (l : List Sent) → length l ≤ 1 → (l ≡ []) ⊎ ((x : Sent) × (l ≡ x ∷ []))
one_or_none [] h = inl refl
one_or_none (x ∷ []) h = inr (x, refl)
one_or_none (x ∷ y ∷ l) h = absurd (omega arith)

Sent-cases :
    (x : Sent)
    → ((m : Bytes) × (x ≡ p2p_to_blockchain m)) ⊎ ((m : Bytes) × (x ≡ blockchain_to_p2p m))
Sent-cases (p2p_to_blockchain m) = inl (m, refl)
Sent-cases (blockchain_to_p2p m) = inr (m, refl)

-- A channel has room, or it is full and has a first message.
room_or_first :
    (l : List Bytes)
    → length l ≤ capacity
    → (length l < capacity)
      ⊎ ((length l ≡ capacity)
          × (o : Bytes) × (os : List Bytes) × (l ≡ o ∷ os)
          × (length os < capacity))
room_or_first [] h = inl (omega arith)
room_or_first (o ∷ os) h = elim (Bool-cases (ltb (length (o ∷ os)) capacity)) [
  | inl room ↦ inl (ground arith)
  | inr full ↦ inr (ground arith, o, os, refl, omega arith)
]

module _ ⦃L : LevelDb⦄ ⦃C : Crypto⦄ ⦃J : Json⦄ where
  -- The goroutines can get to where the processor has taken the message, and no other before it, and
  -- has processed it in the node as it is now, with what it then has to send.
  pub record Processes (message : Bytes) (s : System) : Type 0 where
    pub end : System
    pub steps : Steps s end
    pub taken_only : processed_in steps ≡ message ∷ []
    pub node_processed : end.node ≡ (process_message message s.node).1
    pub to_send : end.processor ≡ (process_message message s.node).0

  Processes-after :
      (message : Bytes) (rest : List Bytes) (s t : System) (steps : Steps s t)
      → processed_in steps ≡ []
      → t.node ≡ s.node
      → t.processor ≡ []
      → t.mediator.p2p_to_blockchain ≡ message ∷ rest
      → Processes message s
  unfolding processed_in processed_by taken
  Processes-after message rest s t steps none_yet same idle first = record {
    end = taken message rest t;
    steps = after steps (take_message message rest idle first);
    taken_only = rw none_yet refl;
    node_processed = ap (λ n. (process_message message n).1) same;
    to_send = ap (λ n. (process_message message n).0) same;
  }

  -- The processor has a message for the peers to send, and their channel has room.
  Processes-out :
      (message x : Bytes) (rest : List Bytes) (s t : System) (steps : Steps s t)
      → processed_in steps ≡ []
      → t.node ≡ s.node
      → t.processor ≡ blockchain_to_p2p x ∷ []
      → t.mediator.p2p_to_blockchain ≡ message ∷ rest
      → length t.mediator.blockchain_to_p2p < capacity
      → Processes message s
  unfolding processed_in processed_by
  Processes-out message x rest s t steps none_yet same waits first room =
      let m : Mediator = record t.mediator {
        blockchain_to_p2p = t.mediator.blockchain_to_p2p ++ x ∷ [];
      } in
      Processes-after message rest s (record t { mediator = m; processor = [] })
        (after steps
          (processor_sends (blockchain_to_p2p x) [] m waits (put_message-out x t.mediator room)))
        (rw none_yet refl) same refl first

  -- In a system that is bounded, the goroutines can go on to where the processor has taken the first
  -- message of its channel and no other, and has processed it in the node as it is now, unless the
  -- processor waits to send a message to its own full channel.
  pub processor_goes_on :
      (s : System) (message : Bytes) (rest : List Bytes)
      → IsBounded s
      → s.mediator.p2p_to_blockchain ≡ message ∷ rest
      → (IsStuck s → ⊥)
      → Processes message s
  unfolding processed_in processed_by
  processor_goes_on s message rest v first free = elim (one_or_none s.processor v.processor) [
    | inl idle ↦ Processes-after message rest s s here refl refl idle first
    | inr (x, waits) ↦ elim (Sent-cases x) [
      | inr (m, e) ↦
          let out = waits ∙ ap (λ y. y ∷ []) e in
          elim (room_or_first s.mediator.blockchain_to_p2p v.fits.blockchain_to_p2p) [
            | inl room ↦ Processes-out message m rest s s here refl refl out first room
            | inr (full, o, os, front, room) ↦
                Processes-out message m rest s
                  (record s { mediator = record s.mediator { blockchain_to_p2p = os } })
                  (after here (forward o os front)) refl refl out first room
          ]
      | inl (m, e) ↦
          let own = waits ∙ ap (λ y. y ∷ []) e in
          elim (room_or_first s.mediator.p2p_to_blockchain v.fits.p2p_to_blockchain) [
            | inr (full, o, os, front, room) ↦
                absurd (free (record { message = m; rest = []; waits = own; full = full }))
            | inl room ↦
                let next : Mediator = record s.mediator {
                  p2p_to_blockchain = s.mediator.p2p_to_blockchain ++ m ∷ [];
                } in
                Processes-after message (rest ++ m ∷ []) s
                  (record s { mediator = next; processor = [] })
                  (after here (
                    processor_sends (p2p_to_blockchain m) [] next own
                      (put_message-in m s.mediator room)))
                  refl refl refl (ap (λ l. l ++ m ∷ []) first)
          ]
    ]
  ]
