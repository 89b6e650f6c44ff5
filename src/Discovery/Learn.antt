-- ===== src/Discovery/Learn.antt =====
-- Nodes that join one after another.
use simple_blockchain_client.Udp.Buffer.{length-new_buffer}
use simple_blockchain_client.Udp.{comma}
use simple_blockchain_client.Discovery.Bootstrap.{join_network_truncates, join_network}
use simple_blockchain_client.Text.Parts.{split-join, trim_space, split, join, Lacks}
use simple_blockchain_client.Discovery.{
  find_node_message, trim_space, ping_message, split, nodes, comma, Bootstrapped, Call,
}
use simple_blockchain_client.Text.Lines.{join-IsSolidText, trim_space-solid, IsSolidText}
use simple_blockchain_client.Text.{Bytes}
use simple_blockchain_client.Bootnode.{Bootnode, new_bootnode}
use simple_blockchain_client.Prelude.{
  All-map, append-snoc, take-all, ◌∙◌, ap, take, append-nil, sym, ◌≤◌, ◌++◌, refl, ◌≡◌, length,
  Option, All, List, ◌∷◌, [], none, some,
}

-- The nodes with the given addresses join, in their order.
unfoldable pub join_all : List Bytes → Bootnode → Option Bootnode
join_all [] s = some s
join_all (address ∷ addresses) s = elim (join_network s address) [
  | none ↦ none
  | some call ↦ join_all addresses call.1
]

-- An address as `net.UDPAddr` prints it: it has no white space at its ends and no comma.
pub record IsNodeAddress (address : Bytes) : Type 0 where
  pub solid : IsSolidText address
  pub no_comma : Lacks comma address
  pub short : length address ≤ 1023

join_all-some :
    (address : Bytes) (addresses : List Bytes) (s next : Bootnode) (c : Call Bootstrapped)
    → join_network s address ≡ some (c, next)
    → join_all (address ∷ addresses) s ≡ join_all addresses next
unfolding join_all
join_all-some address addresses s next c h = rw (h, join_all) refl

join_all_lists :
    (addresses : List Bytes) (s : Bootnode)
    → length s.buf ≡ 1024
    → All IsNodeAddress addresses
    → (next : Bootnode) × (join_all addresses s ≡ some next)
      × (next.connected_nodes ≡ s.connected_nodes ++ addresses)
      × (length next.buf ≡ 1024)
join_all_lists [] s size h = (s, unfold join_all in refl, sym (append-nil s.connected_nodes), size)
join_all_lists (address ∷ addresses) s size (ha, h) =
    let (next, call, listed, size2) = join_network_truncates s address size in
    let (last, rest, more, size3) = join_all_lists addresses next size2 h in
    (
      last,
      join_all-some address addresses s next _ call ∙ rest,
      more
          ∙ ap (λ l. l ++ addresses)
              (listed ∙ ap (λ t. s.connected_nodes ++ t ∷ []) (take-all 1023 address ha.short))
          ∙ sym (append-snoc s.connected_nodes address addresses),
      size3,
    )

nodes-split-join :
    (p : Bytes) (ps : List Bytes)
    → All IsNodeAddress (p ∷ ps)
    → length (join comma (p ∷ ps)) ≤ 1023
    → split comma (trim_space (take 1023 (join comma (p ∷ ps)))) ≡ p ∷ ps
nodes-split-join p ps h short =
    ap (λ t. split comma (trim_space t)) (take-all 1023 (join comma (p ∷ ps)) short)
    ∙ ap (split comma) (
        trim_space-solid (join comma (p ∷ ps))
          (join-IsSolidText comma p ps (All-map (λ x a. a.solid) (p ∷ ps) h)))
    ∙ split-join comma p ps (All-map (λ x a. a.no_comma) (p ∷ ps) h)

-- After nodes have joined one after another at a new bootstrap node, the next one that joins learns
-- exactly their addresses, in the order in which they joined. At least one has joined, an address has
-- no white space at its ends and no comma, and all of them, with commas between them, fit into the 1023
-- bytes that a message has room for. No datagram is lost, and no two calls overlap.
pub join_network_learns :
    (p : Bytes) (ps : List Bytes) (address : Bytes)
    → All IsNodeAddress (p ∷ ps)
    → length (join comma (p ∷ ps)) ≤ 1023
    → (s : Bootnode) × (next : Bootnode) × (join_all (p ∷ ps) new_bootnode ≡ some s)
      × (join_network s address
          ≡ some (
            record {
              result = nodes (p ∷ ps);
              sent = ping_message ∷ find_node_message address ∷ [];
            },
            next,
          ))
unfolding new_bootnode
join_network_learns p ps address h short =
    let (s, joined, listed, size) = join_all_lists (p ∷ ps) new_bootnode length-new_buffer h in
    let (next, call, _, _) = join_network_truncates s address size in
    let learnt =
      ap (λ l. nodes (split comma (trim_space (take 1023 (join comma l))))) listed
      ∙ ap nodes (nodes-split-join p ps h short) in
    (
      s,
      next,
      joined,
      call
          ∙ ap
              (λ r.
                some (
                  record { result = r; sent = ping_message ∷ find_node_message address ∷ [] },
                  next,
                ))
              learnt,
    )
