-- ===== src/Mediator/Stuck.antt =====
-- The processor that waits for room in the channel that only it reads.
use simple_blockchain_client.Exec.{ok}
use simple_blockchain_client.Types.{Block}
use simple_blockchain_client.Block.{
  reward_to_miner, block_batch, validate_received_block, store_block,
}
use simple_blockchain_client.Text.{Bytes}
use simple_blockchain_client.Platform.{Json, Crypto, LevelDb}
use simple_blockchain_client.Chain.{
  handle_block, Node, handle_validated, accept_block, process_message, Sent, p2p_to_blockchain,
  blockchain_to_p2p,
}
use simple_blockchain_client.Mediator.{
  Steps, Step, capacity, System, length, List, Json, Mediator, Crypto, Bytes, send, put_message,
  LevelDb, here, after, submit, take_message, processor_sends, tick, creator_sends, forward,
}
use simple_blockchain_client.Prelude.{
  length-append, ◌++◌, ◌∙◌, ap, sym, refl, ◌≢◌, Option-cases, arith, ◌≡◌, length, List, ◌∷◌, [],
  none, some,
}

pub send-full :
    (message : Bytes) (channel : List Bytes)
    → length channel ≡ capacity
    → send message channel ≡ none
unfolding send
send-full message channel full = ground arith

put_message-full :
    (message : Bytes) (m : Mediator) {next : Mediator}
    → length m.p2p_to_blockchain ≡ capacity
    → put_message (p2p_to_blockchain message) m ≢ some next
unfolding put_message
put_message-full message m full h =
    let blocked = send-full message m.p2p_to_blockchain full in absurd (ground arith)

put_message-out :
    (message : Bytes) (m : Mediator) {next : Mediator}
    → put_message (blockchain_to_p2p message) m ≡ some next
    → next.p2p_to_blockchain ≡ m.p2p_to_blockchain
unfolding put_message
put_message-out message m h = ground (arith, Option-cases (send message m.blockchain_to_p2p))

-- A send leaves a full channel as it is.
put_message-keeps :
    (message : Sent) (m : Mediator) {next : Mediator}
    → length m.p2p_to_blockchain ≡ capacity
    → put_message message m ≡ some next
    → next.p2p_to_blockchain ≡ m.p2p_to_blockchain
put_message-keeps (p2p_to_blockchain message) m full h = absurd (put_message-full message m full h)
put_message-keeps (blockchain_to_p2p message) m full h = put_message-out message m h

module _ ⦃L : LevelDb⦄ ⦃C : Crypto⦄ ⦃J : Json⦄ where
  -- The processor waits to send a message to itself, and the channel is full.
  pub record IsStuck (s : System) : Type 0 where
    pub message : Bytes
    pub rest : List Sent
    pub waits : s.processor ≡ p2p_to_blockchain message ∷ rest
    pub full : length s.mediator.p2p_to_blockchain ≡ capacity

  pub SameInbox : System → System → Type 0
  SameInbox s t =
      (t.processor ≡ s.processor) × (t.mediator.p2p_to_blockchain ≡ s.mediator.p2p_to_blockchain)

  Step-stuck : {s t : System} → Step s t → IsStuck s → SameInbox s t
  unfolding SameInbox
  Step-stuck (submit message m sent) v = absurd (put_message-full message _ v.full sent)
  Step-stuck (take_message message rest idle e) v = absurd (let w = v.waits in cc)
  Step-stuck {s} (processor_sends message rest m e sent) v =
      let both : message ∷ rest ≡ p2p_to_blockchain v.message ∷ v.rest = sym e ∙ v.waits in
      let same : message ≡ p2p_to_blockchain v.message = cc in
      absurd (
        put_message-full v.message s.mediator v.full
          (ap (λ x. put_message x s.mediator) (sym same) ∙ sent))
  Step-stuck (tick now node_account order idle) v = (refl, refl)
  Step-stuck (creator_sends message rest m e sent) v =
      (refl, put_message-keeps message _ v.full sent)
  Step-stuck (forward message rest e) v = (refl, refl)

  -- Once the processor waits to send a message to its own channel and the channel is full, it waits for
  -- ever: whatever steps the goroutines take, it has the same message to send and the channel the same
  -- contents, so that no message is processed any more.
  pub stuck_forever : {s t : System} → Steps s t → IsStuck s → SameInbox s t
  unfolding SameInbox
  stuck_forever here v = (refl, refl)
  stuck_forever (after {t = middle} steps step) v =
      let (waits, inbox) = stuck_forever steps v in
      let stuck : IsStuck middle = record {
        message = v.message;
        rest = v.rest;
        waits = waits ∙ v.waits;
        full = ap length inbox ∙ v.full;
      } in
      let (waits2, inbox2) = Step-stuck step stuck in (waits2 ∙ waits, inbox2 ∙ inbox)

  -- The state after the processor has taken the first message.
  abbrev pub taken : Bytes → List Bytes → System → System
  taken message rest s = record s {
    node = (process_message message s.node).1;
    mediator = record s.mediator { p2p_to_blockchain = rest };
    processor = (process_message message s.node).0;
  }

  store_block-ok : (b : Block) (d : L.Db) → (store_block b d).0 ≡ ok tt
  unfolding store_block
  store_block-ok b d = ground (arith, Option-cases (L.write (block_batch b) d))

  accept_block-sends :
      (b : Block) (n : Node)
      → (accept_block b n).0 ≡ p2p_to_blockchain (0x02 ∷ J.marshal_block b) ∷ []
  unfolding accept_block
  accept_block-sends b n =
      let stored = store_block-ok b (reward_to_miner b.miner n.db).1 in ground arith

  -- A block that the node accepts makes the processor send it to its own channel.
  process_message-block :
      (content : Bytes) (n : Node) (b : Block) (d : L.Db)
      → J.unmarshal_block content ≡ some b
      → validate_received_block b n.db ≡ (ok tt, d)
      → (process_message (0x02 ∷ content) n).0 ≡ p2p_to_blockchain (0x02 ∷ J.marshal_block b) ∷ []
  unfolding process_message handle_validated
  process_message-block content n b d parsed valid =
      let same : handle_block content n ≡ accept_block b (record { db = d; mempool = n.mempool }) =
        unfold handle_block in rw (parsed, handle_block, valid) refl in
      ap (λ r. r.0) same ∙ accept_block-sends b (record { db = d; mempool = n.mempool })

  -- From every state in which the processor is free, its channel is full, and the first message in it is
  -- a block that the node accepts, the goroutines can get to where the processor waits to send to its
  -- own full channel: it takes the message, and another goroutine fills the place.
  pub processor_sticks :
      (s : System) (content : Bytes) (b : Block) (d : L.Db) (rest : List Bytes)
      → s.processor ≡ []
      → s.mediator.p2p_to_blockchain ≡ (0x02 ∷ content) ∷ rest
      → length s.mediator.p2p_to_blockchain ≡ capacity
      → J.unmarshal_block content ≡ some b
      → validate_received_block b s.node.db ≡ (ok tt, d)
      → (t : System) × Steps s t × IsStuck t
  processor_sticks s content b d rest idle first full parsed valid =
      let own = 0x02 ∷ J.marshal_block b in
      let size = ap length first in
      let t = taken (0x02 ∷ content) rest s in
      let room : send own rest ≡ some (rest ++ own ∷ []) = unfold send in ground arith in
      let m : Mediator = record t.mediator { p2p_to_blockchain = rest ++ own ∷ [] } in
      let filled : put_message (p2p_to_blockchain own) t.mediator ≡ some m =
        unfold put_message in rw (room, put_message) refl in
      let long = length-append rest (own ∷ []) in
      (
        record t { mediator = m },
        after (after here (take_message (0x02 ∷ content) rest idle first)) (submit own m filled),
        record {
          message = own;
          rest = [];
          waits = process_message-block content s.node b d parsed valid;
          full = omega arith;
        },
      )
