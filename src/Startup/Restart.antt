-- ===== src/Startup/Restart.antt =====
-- What a start leaves in the database for the next one.
use simple_blockchain_client.Block.Store.{write_block-last}
use simple_blockchain_client.Discovery.{connect_bootstrap_node}
use simple_blockchain_client.Mempool.{init_mempool}
use simple_blockchain_client.Network.{start_client, Network}
use simple_blockchain_client.Chain.Start.{
  loaded, load_or_create-read, has_block-genesis, store_genesis_block-ok, genesis_block-hash,
}
use simple_blockchain_client.Exec.{Outcome-cases, ok}
use simple_blockchain_client.Chain.{
  initialize_node_account, Node, has_block, genesis_block, init_genesis_block,
}
use simple_blockchain_client.Block.{block_hash, block_batch}
use simple_blockchain_client.Text.{codes, Bytes}
use simple_blockchain_client.Platform.{batch_read, Json, Crypto, LevelDb}
use simple_blockchain_client.Account.{account_key}
use simple_blockchain_client.Startup.{
  connect_bootstrap_node, init_mempool, addresses_of, Network, start_chain, Outside, start_account,
  run_client, ok, join_peers, initialize_full_node, init_genesis_block, LevelDb, Bytes, running,
}
use simple_blockchain_client.Text.Hex
use simple_blockchain_client.Prelude.{
  map, inr, subst, arith, Option-cases, ◌∙◌, inl, sym, Option, Bool-cases, refl, ap, bytes_eq,
  ==_ne, ◌≡◌, ◌==◌, All, none, some, true, false,
}

encode-node_account :
    (bs : Bytes) → All Hex.IsByte bs → (Hex.encode bs == codes "nodeAccount") ≡ false
unfolding Hex.from_digit
encode-node_account bs h = ==_ne (Hex.encode bs) (codes "nodeAccount") (λ e.
    let bad : Hex.decode (codes "nodeAccount") ≡ none = unfold Hex.decode in refl in
    let good = ap Hex.decode (sym e) ∙ Hex.decode-encode bs h in cc)

account_key-node_account : (x : Bytes) → (account_key x == codes "nodeAccount") ≡ false
unfolding account_key
account_key-node_account x = refl

module _ ⦃L : LevelDb⦄ ⦃C : Crypto⦄ ⦃J : Json⦄ where
  open L use {Db, get, put, write, get-put, get-write}
  open C use {keccak256, keccak256-bytes}

  write_block-node_account :
      (d : Db) {d' : Db}
      → write (block_batch genesis_block) d ≡ some d'
      → get d' (codes "nodeAccount") ≡ get d (codes "nodeAccount")
  unfolding block_batch batch_read
  write_block-node_account d e =
      let other : (genesis_block.hash == codes "nodeAccount") ≡ false =
        unfold block_hash in
        rw genesis_block-hash (encode-node_account (keccak256 _) (keccak256-bytes _)) in
      rw (get-write _ d e (codes "nodeAccount"), other)

  -- The genesis block writes no account of the node, and a block is there afterwards.
  init_genesis_block-ready :
      (d : Db) {d' : Db}
      → init_genesis_block d ≡ (ok tt, d')
      → (get d' (codes "nodeAccount") ≡ get d (codes "nodeAccount"))
        × (has_block (get d' (codes "lastblock")) ≡ true)
  unfolding init_genesis_block
  init_genesis_block-ready d {d'} h = elim (Bool-cases (has_block (get d (codes "lastblock")))) [
    | inl there ↦
        let same : d ≡ d' = ground arith in
        (
          ap (λ s. get s (codes "nodeAccount")) (sym same),
          subst (λ s. has_block (get s (codes "lastblock")) ≡ true) same there,
        )
    | inr empty ↦
        let (d₁, put_miner, written) = store_genesis_block-ok d (ground arith) in
        (
          write_block-node_account d₁ written
              ∙ rw
                  (
                    get-put _ _ d put_miner (codes "nodeAccount"),
                    account_key-node_account genesis_block.miner,
                  )
                  refl,
          rw (write_block-last genesis_block d₁ written) has_block-genesis,
        )
  ]

  join_peers-node :
      (outside : Outside) (udp_server_address node_account : Bytes) (node : Node)
      (network : Network) {a : Bytes} {n : Node} {net : Network}
      → join_peers outside udp_server_address node_account node network ≡ running a n net
      → (node_account ≡ a) × (node ≡ n)
  unfolding join_peers run_client
  join_peers-node outside udp_server_address node_account node network h =
      elim (Option-cases
        (addresses_of (connect_bootstrap_node outside.bootstrap udp_server_address).result)) [
          | inl failed ↦ absurd (ground arith)
          | inr (addresses, e) ↦
              elim (Option-cases (start_client (map outside.contact addresses) network)) [
                | inl panic ↦ absurd (ground arith)
                | inr (net, f) ↦ (ground arith, ground arith)
              ]
        ]

  started :
      (outside : Outside) (key_pair : Option (Bytes × Bytes)) (udp_server_address : Bytes) (d : Db)
      (network : Network) {a : Bytes} {n : Node} {net : Network}
      → initialize_full_node outside key_pair udp_server_address d network ≡ running a n net
      → (d₁ : Db) × (initialize_node_account key_pair d ≡ (ok a, d₁))
        × (init_genesis_block d₁ ≡ (ok tt, n.db))
        × (n.mempool ≡ init_mempool)
  unfolding initialize_full_node start_account start_chain
  started outside key_pair udp_server_address d network {a} {n} {net} h =
      elim (Outcome-cases (initialize_node_account key_pair d)) [
        | inr (e, d₁, failed) ↦ absurd (ground arith)
        | inl (made, d₁, named) ↦ elim (Outcome-cases (init_genesis_block d₁)) [
          | inr (e, d₂, failed) ↦ absurd (ground arith)
          | inl (u, d₂, stored) ↦
              let joined : join_peers outside udp_server_address made
                    (record { db = d₂; mempool = init_mempool }) network
                  ≡ running a n net =
                ground arith in
              let (same, node) =
                join_peers-node outside udp_server_address made
                  (record { db = d₂; mempool = init_mempool }) network joined in
              (
                d₁,
                named ∙ ap (λ x. (ok x, d₁)) same,
                stored ∙ ap (λ (x : Node). (ok tt, x.db)) node,
                ap (λ (x : Node). x.mempool) (sym node),
              )
        ]
      ]

  -- A full node that came to run starts again on the database it then had: the second start gives the
  -- same account, whatever key pair it would make, and leaves the database as it is. The
  -- node runs with an empty mempool.
  pub initialize_full_node_again :
      (outside : Outside) (key_pair later_pair : Option (Bytes × Bytes))
      (udp_server_address : Bytes) (d : Db) (network : Network) {a : Bytes} {n : Node}
      {net : Network}
      → initialize_full_node outside key_pair udp_server_address d network ≡ running a n net
      → (initialize_node_account later_pair n.db ≡ (ok a, n.db))
        × (init_genesis_block n.db ≡ (ok tt, n.db))
        × (n.mempool ≡ init_mempool)
  unfolding initialize_node_account init_genesis_block
  initialize_full_node_again outside key_pair later_pair udp_server_address d network {a} {n} h =
      let (d₁, named, stored, empty) = started outside key_pair udp_server_address d network h in
      let (kept, there) = init_genesis_block-ready d₁ stored in
      let account = load_or_create-read key_pair (get d (codes "nodeAccount")) d refl named in
      (loaded later_pair a n.db (kept ∙ account), rw there refl, empty)
