-- ===== src/Merkle.antt =====
-- blockchain/utils.go: `BuildMerkleTree`.
pub mod Level
pub mod Root
pub mod Texts
pub mod Binding
pub mod Total
pub mod Repeat
use simple_blockchain_client.Text.{Bytes}
use simple_blockchain_client.Platform.{Crypto}
use simple_blockchain_client.Exec.{
  hash_length, hash_format, panic, no_transactions, ok, err, Result,
}
use simple_blockchain_client.Prelude.{
  zero, suc, nat_eq, [], ◌==◌, ◌%◌, suc, some, ◌++◌, none, length, ◌∷◌, if◌then◌else◌, Option, List,
  ℕ,
}
use simple_blockchain_client.Text.Hex

-- One element of the first loop: 64 characters, all of them hexadecimal digits.
unfoldable pub parse_hash : Bytes → Result Bytes
parse_hash tx_hash =
    if length tx_hash == 64
    then elim (Hex.decode tx_hash) [ none ↦ err hash_format | some hash ↦ ok hash ]
    else err hash_length

abbrev pub cons_result : Result Bytes → Result (List Bytes) → Result (List Bytes)
cons_result (err e) rest = err e
cons_result (ok hash) (err e) = err e
cons_result (ok hash) (ok hashes) = ok (hash ∷ hashes)

unfoldable pub parse_hashes : List Bytes → Result (List Bytes)
parse_hashes [] = ok []
parse_hashes (tx_hash ∷ rest) = cons_result (parse_hash tx_hash) (parse_hashes rest)

unfoldable pub last : Bytes → List Bytes → Bytes
last h [] = h
last h (k ∷ hashes) = last k hashes

-- An odd level is filled up with a copy of its last hash.
unfoldable pub pad : List Bytes → List Bytes
pad [] = []
pad (h ∷ hashes) =
    if length (h ∷ hashes) % 2 == 0 then h ∷ hashes else (h ∷ hashes) ++ last h hashes ∷ []

module _ ⦃C : Crypto⦄ where
  open C use {keccak256}

  -- The inner loop, two hashes a round.
  unfoldable pub pairs : List Bytes → List Bytes
  pairs [] = []
  pairs (h ∷ []) = []
  pairs (h ∷ k ∷ hashes) = keccak256 (h ++ k) ∷ pairs hashes

  -- The outer loop: `none` when the fuel runs out, or at an index out of range.
  unfoldable pub climb : ℕ → List Bytes → Option Bytes
  climb zero hashes = none
  climb (suc fuel) [] = none
  climb (suc fuel) (h ∷ []) = some h
  climb (suc fuel) (h ∷ k ∷ hashes) = climb fuel (pairs (pad (h ∷ k ∷ hashes)))

  pub print_root : Option Bytes → Result Bytes
  print_root none = err panic
  print_root (some root) = ok (Hex.encode root)

  -- A level at least halves the list, so that its length is enough fuel.
  unfoldable pub root_of : Result (List Bytes) → Result Bytes
  unfolding print_root
  root_of (err e) = err e
  root_of (ok hashes) = print_root (climb (length hashes) hashes)

  unfoldable pub build_merkle_tree : List Bytes → Result Bytes
  unfolding root_of
  build_merkle_tree [] = err no_transactions
  build_merkle_tree (tx_hash ∷ rest) = root_of (parse_hashes (tx_hash ∷ rest))
