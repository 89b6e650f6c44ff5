-- ===== src/Tests/Nodes.antt =====
-- A node that starts, receives a block and ticks.
use simple_blockchain_client.Mempool.Promote.{or_else}
use simple_blockchain_client.Types.{Transaction}
use simple_blockchain_client.Chain.Tick.{create_block-Minted, WaitsWithin}
use simple_blockchain_client.Prelude.Options.{some_cancel}
use simple_blockchain_client.Transaction.Supply.{IsAmong}
use simple_blockchain_client.Chain.Supply.{handle_block-Minted, Minted, IsWithin}
use simple_blockchain_client.Int.{pos}
use simple_blockchain_client.Chain.Start.{init_genesis_block_starts}
use simple_blockchain_client.Mempool.{keys}
use simple_blockchain_client.Account.View.{assign, accounts}
use simple_blockchain_client.Account.Address.{public_key_to_address, create_account}
use simple_blockchain_client.Tests.Queues.{future-Each, pending-Each, queues-IsValid, queues}
use simple_blockchain_client.Tests.Ledger.{payment-apart, alice, bob}
use simple_blockchain_client.Map.{lookup}
use simple_blockchain_client.Exec.{ok}
use simple_blockchain_client.Chain.Queues.{create_block-IsValid, process_message-IsValid}
use simple_blockchain_client.Account.{store_account_for_genesis_miner}
use simple_blockchain_client.Tests.Codec.{get_block-put_block, put_block}
use simple_blockchain_client.Tests.Blocks.{second_block-accepted, second_block, chain}
use simple_blockchain_client.Text.{contains, codes, Bytes}
use simple_blockchain_client.Mempool.View.{IsValid}
use simple_blockchain_client.Chain.Again.{process_message_again, IsAccepted}
use simple_blockchain_client.Chain.Links.{
  stay, receive, Run-timestamp, process_message-Extends, Extends,
}
use simple_blockchain_client.Chain.{
  handle_block, store_node_account, genesis_block, store_genesis_block, process_message,
  load_or_create, create_block, initialize_node_account, init_genesis_block, has_block, Node,
}
use simple_blockchain_client.Block.{block_batch, reward_to_miner, next_block, last_block_left}
use simple_blockchain_client.Tests.World.{
  put_entries, checksum, one_key, get_entry, Entries, entries_db, codec_json, checksum_crypto,
}
use simple_blockchain_client.Text.Hex
use simple_blockchain_client.Prelude.{
  arith, ◌≢◌, Option, ℕ, ◌∙◌, sym, true, subst, refl, ◌≤◌, ◌≡◌, ◌∷◌, [], none, some, false,
}

abbrev pub node : Node
node = record { db = chain; mempool = queues }

abbrev pub delivery : Bytes
delivery = 0x02 ∷ put_block second_block

process_message-Extends_example : Extends chain (process_message delivery node).1.db
process_message-Extends_example = process_message-Extends delivery node

Run-timestamp_example :
    (last_block_left chain).timestamp
    ≤ (last_block_left (process_message delivery node).1.db).timestamp
Run-timestamp_example = Run-timestamp (receive {n = node} delivery stay)

delivery-IsAccepted : IsAccepted (put_block second_block) second_block node
delivery-IsAccepted = record {
  checked = chain;
  stored = put_entries (block_batch second_block) (reward_to_miner second_block.miner chain).1;
  read = get_block-put_block second_block;
  passed = second_block-accepted;
  written = refl;
}

process_message_again_example :
    process_message delivery (process_message delivery node).1
    ≡ ([], (process_message delivery node).1)
process_message_again_example =
    process_message_again (put_block second_block) second_block node delivery-IsAccepted stay
      (put_block second_block) second_block (get_block-put_block second_block) (omega arith)

process_message-IsValid_example : IsValid (process_message delivery node).1.mempool
process_message-IsValid_example = process_message-IsValid delivery node queues-IsValid

create_block-IsValid_example : IsValid (create_block 300 bob keys node).1.mempool
create_block-IsValid_example = create_block-IsValid 300 bob keys node queues-IsValid

abbrev started : Entries
started = (init_genesis_block []).1

genesis-stored : init_genesis_block [] ≡ (ok tt, started)
unfolding init_genesis_block store_genesis_block store_account_for_genesis_miner get_entry lookup
genesis-stored = refl

no_block : has_block (get_entry [] (codes "lastblock")) ≡ false
unfolding has_block get_entry lookup
no_block = refl

init_genesis_block_starts_example :
    (last_block_left started ≡ genesis_block)
    × ((j : Bytes)
        → accounts started j
          ≡ assign genesis_block.miner (record { balance = pos 10000; nonce = 0 }) (accounts []) j)
    × (init_genesis_block started ≡ (ok tt, started))
init_genesis_block_starts_example = init_genesis_block_starts [] no_block genesis-stored

abbrev named : Entries
named = (initialize_node_account (some ([], one_key)) []).1

alice-named : initialize_node_account (some ([], one_key)) [] ≡ (ok alice, named)
unfolding initialize_node_account load_or_create store_node_account create_account
    public_key_to_address checksum Hex.encode get_entry lookup
alice-named = refl

second_block-within :
    (contains second_block.miner (alice ∷ bob ∷ []) ≡ true)
    × IsAmong (alice ∷ bob ∷ []) second_block.transaction
unfolding next_block
second_block-within = (refl, ((payment-apart, refl, refl), tt))

delivery-IsWithin : IsWithin (alice ∷ bob ∷ []) (put_block second_block)
delivery-IsWithin b read =
    subst
      (λ x. (contains x.miner (alice ∷ bob ∷ []) ≡ true) × IsAmong (alice ∷ bob ∷ []) x.transaction)
      (some_cancel (sym (get_block-put_block second_block) ∙ read)) second_block-within

handle_block-Minted_example :
    Minted (alice ∷ bob ∷ []) chain (handle_block (put_block second_block) node).1.db
handle_block-Minted_example =
    handle_block-Minted (alice ∷ bob ∷ []) (put_block second_block) node (refl, (refl, tt))
      delivery-IsWithin

abbrev IsBetween : ℕ → Transaction → Type 0
IsBetween k tx =
    (tx.from ≢ tx.to)
    × (contains tx.from (alice ∷ bob ∷ []) ≡ true)
    × (contains tx.to (alice ∷ bob ∷ []) ≡ true)

either-IsBetween :
    (k : ℕ) (o o' : Option Transaction) (tx : Transaction)
    → ((x : Transaction) → o ≡ some x → IsBetween k x)
    → ((x : Transaction) → o' ≡ some x → IsBetween k x)
    → or_else o o' ≡ some tx
    → IsBetween k tx
either-IsBetween k none o' tx first second h = second tx h
either-IsBetween k (some x) o' tx first second h = first tx h

queues-WaitsWithin : WaitsWithin (alice ∷ bob ∷ []) queues
queues-WaitsWithin a k tx h =
    either-IsBetween k _ _ tx (pending-Each IsBetween (payment-apart, refl, refl) a k)
      (future-Each IsBetween (payment-apart, refl, refl) (payment-apart, refl, refl) a k) h

create_block-Minted_example : Minted (alice ∷ bob ∷ []) chain (create_block 300 bob keys node).1.db
create_block-Minted_example =
    create_block-Minted (alice ∷ bob ∷ []) 300 bob keys node queues-IsValid (refl, (refl, tt)) refl
      queues-WaitsWithin
