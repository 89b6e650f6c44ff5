-- ===== src/Startup.antt =====
-- The start of a full node: `initializeFullNode` of main.go, up to where the goroutines run. The
-- goroutines it starts before are those of Network, Discovery and Rpc; they write none of its values.
pub mod Restart
pub mod Opened
use simple_blockchain_client.Database.{set_db_path, init_db, Handle}
use simple_blockchain_client.Mempool.{init_mempool}
use simple_blockchain_client.Exec.{ok, err, Result}
use simple_blockchain_client.Chain.{init_genesis_block, initialize_node_account, Node}
use simple_blockchain_client.Network.{start_client, Network, Contact}
use simple_blockchain_client.Text.{codes, Bytes}
use simple_blockchain_client.Platform.{Json, Crypto, LevelDb}
use simple_blockchain_client.Discovery.{
  connect_bootstrap_node, Socket, Bootstrapped, nodes, not_resolved, not_dialed, ping_not_sent,
  no_pong, find_node_not_sent, no_neighbors, not_neighbors, not_pong, slice_panic,
}
use simple_blockchain_client.Prelude.{
  bytes_eq, ◌==◌, if◌then◌else◌, ◌++◌, Bool, map, List, Option, none, some,
}

-- The list of a bootstrap node, or the error of `ConnectBootstrapNode`.
abbrev pub addresses_of : Bootstrapped → Option (List Bytes)
addresses_of (nodes addresses) = some addresses
addresses_of not_resolved = none
addresses_of not_dialed = none
addresses_of ping_not_sent = none
addresses_of no_pong = none
addresses_of find_node_not_sent = none
addresses_of no_neighbors = none
addresses_of not_neighbors = none
addresses_of not_pong = none
addresses_of slice_panic = none

-- What the network does: the socket to the bootstrap node, and what each address of its list leads to.
pub record Outside : Type 0 where
  pub bootstrap : Socket
  pub contact : Bytes → Contact

module _ ⦃L : LevelDb⦄ ⦃C : Crypto⦄ ⦃J : Json⦄ where
  open L use {Db}

  -- The ends: an exit with status 1, a return, after which the program ends, a panic, or a full node that
  -- runs, with its account and the loops of Chain and Mediator over its state.
  pub data Startup : Type 0 where
    exited : Startup
    returned : Startup
    panicked : Startup
    running : Bytes → Node → Network → Startup

  unfoldable pub run_client : Bytes → Node → Option Network → Startup
  run_client node_account node none = panicked
  run_client node_account node (some network) = running node_account node network

  unfoldable pub join_peers : Outside → Bytes → Bytes → Node → Network → Startup
  join_peers outside udp_server_address node_account node network =
      elim (addresses_of (connect_bootstrap_node outside.bootstrap udp_server_address).result) [
        | none ↦ returned
        | some addresses ↦
            run_client node_account node (start_client (map outside.contact addresses) network)
      ]

  unfoldable pub start_chain : Outside → Bytes → Bytes → Result (Unit {0}) × Db → Network → Startup
  start_chain outside udp_server_address node_account (err e, d) network = exited
  start_chain outside udp_server_address node_account (ok u, d) network =
      join_peers outside udp_server_address node_account (record { db = d; mempool = init_mempool })
        network

  unfoldable pub start_account : Outside → Bytes → Result Bytes × Db → Network → Startup
  start_account outside udp_server_address (err e, d) network = exited
  start_account outside udp_server_address (ok node_account, d) network =
      start_chain outside udp_server_address node_account (init_genesis_block d) network

  -- `initializeFullNode`, on the key pair that a new account would have.
  unfoldable pub initialize_full_node :
      Outside → Option (Bytes × Bytes) → Bytes → Db → Network → Startup
  initialize_full_node outside key_pair udp_server_address d network =
      start_account outside udp_server_address (initialize_node_account key_pair d) network

-- What `main` goes on to after the database is opened, or an exit with status 1 before.
pub data Mode : Type 0 where
  exit_before bootnode_mode fullnode_mode invalid_mode : Mode

module _ {D : Type 0} where
  -- `main` behind its flags, up to the mode; the `CleanupDB` that it defers is in Database. The directory
  -- is missing or not, and making it and opening the file give what they give.
  unfoldable pub run_main :
      Bool → Bool → (Bytes → Option D) → Bytes → Bytes → Handle D → Mode × Handle D
  run_main missing makes open_file mode node_id h =
      let (failed, opened) =
        init_db missing makes open_file (set_db_path (codes "./db/" ++ node_id) h) in
      elim failed [
        | some e ↦ (exit_before, opened)
        | none ↦
            if mode == codes "bootnode"
            then (bootnode_mode, opened)
            else if mode == codes "fullnode"
            then (fullnode_mode, opened)
            else (invalid_mode, opened)
      ]
