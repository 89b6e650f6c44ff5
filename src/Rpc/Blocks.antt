-- ===== src/Rpc/Blocks.antt =====
-- What the RPC server tells of the last block.
use simple_blockchain_client.Block.Store.{write_block-last}
use simple_blockchain_client.Block.{block_batch}
use simple_blockchain_client.Types.{IsPlainBlock, Block}
use simple_blockchain_client.Rpc.{
  parsed_block, reply, Block, get_block_number, get_last_block_reply,
}
use simple_blockchain_client.Platform.{Json, Crypto, LevelDb}
use simple_blockchain_client.Prelude.{refl, ◌≡◌, some}

module _ ⦃L : LevelDb⦄ ⦃C : Crypto⦄ ⦃J : Json⦄ where
  open L use {Db, get, write}

  -- After a block is written as `StoreBlock` and the genesis block's start write it, `GetLastBlock` replies
  -- with it and `GetBlockNumber` with its number. Its texts are ASCII and its numbers fit into 64 bits.
  pub get_last_block_reply_stored :
      (b : Block) (d : Db) {d' : Db}
      → IsPlainBlock b
      → write (block_batch b) d ≡ some d'
      → (get_last_block_reply d' ≡ reply b) × (get_block_number d' ≡ reply b.number)
  unfolding get_last_block_reply get_block_number parsed_block
  get_last_block_reply_stored b d {d'} plain written =
      let there = write_block-last b d written in
      let again = J.block_round_trip b plain in
      (
        rw (there, get_last_block_reply, parsed_block, again) refl,
        rw (there, get_block_number, parsed_block, again) refl,
      )
