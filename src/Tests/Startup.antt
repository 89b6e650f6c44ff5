-- ===== src/Tests/Startup.antt =====
-- The first node of a network: nobody is listed before it.
use simple_blockchain_client.Startup.Opened.{run_main_opens}
use simple_blockchain_client.Text.{codes, Bytes}
use simple_blockchain_client.Database.{
  set_db_path, open_db, get_db_instance, ensure_db_directory, init_db, new_handle, Handle,
}
use simple_blockchain_client.Text.Parts.{trim_front, trim_space, split}
use simple_blockchain_client.Udp.{from_second, new_buffer, receive, received, first_byte}
use simple_blockchain_client.Discovery.{
  handshake, read_neighbors, find_node, connect_bootstrap_node,
}
use simple_blockchain_client.Account.{account_key, store_account_for_genesis_miner}
use simple_blockchain_client.Map.{insert, lookup}
use simple_blockchain_client.Account.Address.{public_key_to_address, create_account}
use simple_blockchain_client.Startup.Restart.{initialize_full_node_again}
use simple_blockchain_client.Tests.Ledger.{alice}
use simple_blockchain_client.Mempool.{init_mempool}
use simple_blockchain_client.Exec.{ok}
use simple_blockchain_client.Discovery.Lossless.{lossless}
use simple_blockchain_client.Network.{discover_one, discover, start_client, Network, Contact}
use simple_blockchain_client.Chain.{
  genesis_block, node_batch, store_genesis_block, has_block, store_node_account, load_or_create,
  init_genesis_block, initialize_node_account, Node,
}
use simple_blockchain_client.Startup.{
  exit_before, run_main, Mode, run_client, join_peers, start_chain, start_account,
  initialize_full_node, Outside, running,
}
use simple_blockchain_client.Tests.World.{
  put_entries, get_entry, checksum, one_key, entries_db, codec_json, checksum_crypto,
}
use simple_blockchain_client.Text.Hex
use simple_blockchain_client.Prelude.{
  ◌≢◌, ◌++◌, true, false, Option, ℕ, refl, ◌≡◌, ◌∷◌, [], none, some,
}

abbrev nobody : Contact
nobody = record { address = []; socket = lossless [] []; dial = λ a. none }

-- A bootstrap node that answers with an empty list.
abbrev alone : Outside
alone = record { bootstrap = lossless ((2 ∷ []) ∷ []) ((4 ∷ []) ∷ []); contact = λ a. nobody }

abbrev quiet : Network
quiet = record { peers = record { array = []; len = 0 }; handlers = [] }

abbrev first_node : Node
first_node = record {
  db = (init_genesis_block (initialize_node_account (some ([], one_key)) []).1).1;
  mempool = init_mempool;
}

first_node-runs :
    initialize_full_node alone (some ([], one_key)) (97 ∷ []) [] quiet
    ≡ running alice first_node quiet
unfolding initialize_full_node start_account start_chain join_peers run_client
    initialize_node_account load_or_create store_node_account create_account public_key_to_address
    checksum Hex.encode Hex.to_digit get_entry lookup put_entries init_genesis_block has_block
    store_genesis_block store_account_for_genesis_miner connect_bootstrap_node lossless find_node
    read_neighbors first_byte received receive new_buffer from_second split trim_space trim_front
    start_client discover discover_one handshake insert node_batch account_key genesis_block
first_node-runs = refl

initialize_full_node_again_example :
    (initialize_node_account none first_node.db ≡ (ok alice, first_node.db))
    × (init_genesis_block first_node.db ≡ (ok tt, first_node.db))
    × (first_node.mempool ≡ init_mempool)
initialize_full_node_again_example =
    initialize_full_node_again alone (some ([], one_key)) none (97 ∷ []) [] quiet first_node-runs

abbrev good_file : Bytes → Option ℕ
good_file path = some 5

abbrev missing_file : Bytes → Option ℕ
missing_file path = none

abbrev handle : Handle ℕ
handle = new_handle

abbrev after_main : Mode × Handle ℕ
after_main = run_main true true good_file (codes "fullnode") (codes "n1") handle

handle-new : handle.once ≡ false
unfolding new_handle
handle-new = refl

main-runs : after_main.0 ≢ exit_before
unfolding run_main init_db ensure_db_directory get_db_instance open_db set_db_path new_handle
main-runs e = cc

run_main_opens_example :
    (d : ℕ) × (good_file (codes "./db/" ++ codes "n1") ≡ some d)
    × (get_db_instance missing_file after_main.1 ≡ ((some d, none), after_main.1))
run_main_opens_example =
    run_main_opens true true good_file missing_file (codes "fullnode") (codes "n1") handle
      handle-new main-runs
