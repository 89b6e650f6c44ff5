-- ===== src/Mediator/Bounds.antt =====
-- How much the channels and the goroutines hold.
use simple_blockchain_client.Mediator.Sends.{create_block_sends, process_message_sends}
use simple_blockchain_client.Platform.{Json, Crypto, LevelDb}
use simple_blockchain_client.Text.{Bytes}
use simple_blockchain_client.Mediator.{
  forward, creator_sends, tick, processor_sends, take_message, submit, after, Steps, Step, ℕ,
  System, Json, Crypto, put_message, LevelDb, ltb, capacity, length, List, send, Mediator,
}
use simple_blockchain_client.Chain.{Sent, p2p_to_blockchain, blockchain_to_p2p}
use simple_blockchain_client.Mediator.{
  here, after, submit, take_message, processor_sends, tick, creator_sends, forward,
}
use simple_blockchain_client.Prelude.{
  nat_eq, ap, ℕ, inr, ltb, inl, arith, Bool-cases, ◌++◌, length-append, ◌<◌, Option-cases, ◌≤◌, ◌≡◌,
  length, List, ◌∷◌, [], some,
}

-- No channel holds more messages than it has room for, and the channels of RPC hold none.
pub record Fits (m : Mediator) : Type 0 where
  pub p2p_to_blockchain : length m.p2p_to_blockchain ≤ capacity
  pub blockchain_to_p2p : length m.blockchain_to_p2p ≤ capacity
  pub rpc_to_blockchain : m.rpc_to_blockchain ≡ []
  pub blockchain_to_rpc : m.blockchain_to_rpc ≡ []

pub send_room :
    (message : Bytes) (channel : List Bytes) {next : List Bytes}
    → send message channel ≡ some next
    → (length channel < capacity) × (next ≡ channel ++ message ∷ [])
unfolding send
send_room message channel h = elim (Bool-cases (ltb (length channel) capacity)) [
  | inl room ↦ (ground arith, ground arith)
  | inr full ↦ absurd (ground arith)
]

send-fits :
    (message : Bytes) (channel : List Bytes) {next : List Bytes}
    → send message channel ≡ some next
    → length next ≤ capacity
send-fits message channel h =
    let (room, e) = send_room message channel h in
    let size = length-append channel (message ∷ []) in rw e (omega arith)

put_message-Fits :
    (message : Sent) (m : Mediator) {next : Mediator}
    → put_message message m ≡ some next
    → Fits m
    → Fits next
unfolding put_message
put_message-Fits (p2p_to_blockchain message) m {next} h v =
    elim (Option-cases (send message m.p2p_to_blockchain)) [
      | inl full ↦ absurd (ground arith)
      | inr (channel, e) ↦
          let same : next ≡ record m { p2p_to_blockchain = channel } = ground arith in
          rw same (record {
            p2p_to_blockchain = send-fits message m.p2p_to_blockchain e;
            blockchain_to_p2p = v.blockchain_to_p2p;
            rpc_to_blockchain = v.rpc_to_blockchain;
            blockchain_to_rpc = v.blockchain_to_rpc;
          })
    ]
put_message-Fits (blockchain_to_p2p message) m {next} h v =
    elim (Option-cases (send message m.blockchain_to_p2p)) [
      | inl full ↦ absurd (ground arith)
      | inr (channel, e) ↦
          let same : next ≡ record m { blockchain_to_p2p = channel } = ground arith in
          rw same (record {
            p2p_to_blockchain = v.p2p_to_blockchain;
            blockchain_to_p2p = send-fits message m.blockchain_to_p2p e;
            rpc_to_blockchain = v.rpc_to_blockchain;
            blockchain_to_rpc = v.blockchain_to_rpc;
          })
    ]

tail_le {ℓ} :
    {A : Type ℓ} {l : List A} {x : A} {rest : List A} {n : ℕ}
    → l ≡ x ∷ rest
    → length l ≤ n
    → length rest ≤ n
tail_le e h = let size = ap length e in omega arith

module _ ⦃L : LevelDb⦄ ⦃C : Crypto⦄ ⦃J : Json⦄ where
  -- A system whose channels hold no more than they have room for, and whose goroutines have one message
  -- to send at most.
  pub record IsBounded (s : System) : Type 0 where
    pub fits : Fits s.mediator
    pub processor : length s.processor ≤ 1
    pub creator : length s.creator ≤ 1

  Step-IsBounded : {s t : System} → Step s t → IsBounded s → IsBounded t
  Step-IsBounded (submit message m sent) v = record {
    fits = put_message-Fits (p2p_to_blockchain message) _ sent v.fits;
    processor = v.processor;
    creator = v.creator;
  }
  Step-IsBounded {s} (take_message message rest idle e) v =
      let long : length rest ≤ capacity = tail_le e v.fits.p2p_to_blockchain in
      record {
        fits = record {
          p2p_to_blockchain = long;
          blockchain_to_p2p = v.fits.blockchain_to_p2p;
          rpc_to_blockchain = v.fits.rpc_to_blockchain;
          blockchain_to_rpc = v.fits.blockchain_to_rpc;
        };
        processor = process_message_sends message s.node;
        creator = v.creator;
      }
  Step-IsBounded (processor_sends message rest m e sent) v = record {
    fits = put_message-Fits message _ sent v.fits;
    processor = tail_le e v.processor;
    creator = v.creator;
  }
  Step-IsBounded {s} (tick now node_account order idle) v = record {
    fits = v.fits;
    processor = v.processor;
    creator = create_block_sends now node_account order s.node;
  }
  Step-IsBounded (creator_sends message rest m e sent) v = record {
    fits = put_message-Fits message _ sent v.fits;
    processor = v.processor;
    creator = tail_le e v.creator;
  }
  Step-IsBounded (forward message rest e) v = record {
    fits = record {
      p2p_to_blockchain = v.fits.p2p_to_blockchain;
      blockchain_to_p2p = tail_le e v.fits.blockchain_to_p2p;
      rpc_to_blockchain = v.fits.rpc_to_blockchain;
      blockchain_to_rpc = v.fits.blockchain_to_rpc;
    };
    processor = v.processor;
    creator = v.creator;
  }

  -- However the goroutines interleave, no channel ever holds more messages than the 100 it has room for,
  -- the channels of RPC hold none, and the processor and the creator each have at most one message to
  -- send, if the system is so at first.
  pub Steps-IsBounded : {s t : System} → Steps s t → IsBounded s → IsBounded t
  Steps-IsBounded here v = v
  Steps-IsBounded (after steps step) v = Step-IsBounded step (Steps-IsBounded steps v)
