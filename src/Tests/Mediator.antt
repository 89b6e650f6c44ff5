-- ===== src/Tests/Mediator.antt =====
-- A processor that waits for itself.
use simple_blockchain_client.Tests.Blocks.{second_block-accepted, chain, second_block}
use simple_blockchain_client.Tests.Codec.{get_block-put_block, put_block}
use simple_blockchain_client.Mempool.{keys}
use simple_blockchain_client.Tests.Ledger.{bob}
use simple_blockchain_client.Text.{Bytes}
use simple_blockchain_client.Tests.Nodes.{delivery}
use simple_blockchain_client.Mediator.Stuck.{processor_sticks, stuck_forever, SameInbox, IsStuck}
use simple_blockchain_client.Mediator.Progress.{processor_goes_on, Processes}
use simple_blockchain_client.Mediator.Bounds.{Steps-IsBounded, IsBounded}
use simple_blockchain_client.Chain.{create_block, p2p_to_blockchain}
use simple_blockchain_client.Mediator.{Mediator, Steps, System, here, after, tick}
use simple_blockchain_client.Tests.Nodes.{node}
use simple_blockchain_client.Tests.World.{entries_db, codec_json, checksum_crypto}
use simple_blockchain_client.Prelude.{arith, refl, List, ◌∷◌, [], zero, suc, ℕ}

abbrev chat : ℕ → List Bytes
chat zero = []
chat (suc n) = (0 ∷ []) ∷ chat n

abbrev channels : List Bytes → Mediator
channels inbox = record {
  rpc_to_blockchain = [];
  blockchain_to_rpc = [];
  p2p_to_blockchain = inbox;
  blockchain_to_p2p = [];
}

abbrev waiting : System
waiting = record {
  node = node;
  mediator = channels (chat 100);
  processor = p2p_to_blockchain delivery ∷ [];
  creator = [];
}

waiting-IsStuck : IsStuck waiting
waiting-IsStuck = record { message = delivery; rest = []; waits = refl; full = refl }

abbrev ticked : System
ticked = record waiting {
  node = (create_block 300 bob keys node).1;
  creator = (create_block 300 bob keys node).0;
}

stuck_forever_example : SameInbox waiting ticked
stuck_forever_example = stuck_forever (after here (tick 300 bob keys refl)) waiting-IsStuck

abbrev crowded : System
crowded = record {
  node = node;
  mediator = channels (delivery ∷ chat 99);
  processor = [];
  creator = [];
}

processor_sticks_example : (t : System) × Steps crowded t × IsStuck t
processor_sticks_example =
    processor_sticks crowded (put_block second_block) second_block chain (chat 99) refl refl refl
      (get_block-put_block second_block) second_block-accepted

crowded-IsBounded : IsBounded crowded
crowded-IsBounded = record {
  fits = record {
    p2p_to_blockchain = omega arith;
    blockchain_to_p2p = omega arith;
    rpc_to_blockchain = refl;
    blockchain_to_rpc = refl;
  };
  processor = omega arith;
  creator = omega arith;
}

processor_goes_on_example : Processes delivery crowded
processor_goes_on_example =
    processor_goes_on crowded delivery (chat 99) crowded-IsBounded refl
      (λ stuck. let waits = stuck.waits in cc)

Steps-IsBounded_example : IsBounded (record crowded {
  node = (create_block 300 bob keys node).1;
  creator = (create_block 300 bob keys node).0;
})
Steps-IsBounded_example = Steps-IsBounded (after here (tick 300 bob keys refl)) crowded-IsBounded
