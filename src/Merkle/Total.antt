-- ===== src/Merkle/Total.antt =====
-- When `BuildMerkleTree` succeeds.
use simple_blockchain_client.Exec.{ok}
use simple_blockchain_client.Merkle.{length, ok}
use simple_blockchain_client.Prelude.{length}
use simple_blockchain_client.Text.Hex
