-- ===== src/Lib.antt =====
-- A blockchain client in Go: accounts and blocks in a LevelDB database, a mempool, a processor that
-- validates transactions and blocks, a network of peers that find each other at a bootstrap node, and an
-- RPC server. Paths are from the repository's root.
--
-- Account, Account/Address        account/account.go
-- Database                        leveldb/leveldb.go
-- Transaction                     blockchain/transaction.go
-- Mempool, Mempool/Methods        blockchain/mempool.go
-- Merkle                          blockchain/utils.go
-- Block                           blockchain/block.go, GetLastBlock of leveldb/leveldb.go
-- Chain                           blockchain/blockchain.go, blockchain/account_manager.go, and
--                                 ProcessTransaction of blockchain/transaction.go
-- Mediator                        mediator/mediator.go, and how the goroutines wait on its channels
-- Rpc                             rpc-server/account_api.go, rpc-server/block_api.go and
--                                 rpc-server/transaction_api.go
-- Peers                           RemoveConn of utils/utils.go, HandleSendingMessages of p2p/client.go
-- Wire                            RefactorHandleIncomingMessages of p2p/server.go
-- Udp, Discovery                  p2p/bootstrap_connection.go, StartUDPServer of p2p/server.go, and the
--                                 handshakes of StartClient of p2p/client.go
-- Network                         StartTCPServer of p2p/server.go, StartClient of p2p/client.go
-- Bootnode                        bootnode/bootnode.go
-- Startup                         main.go
--
-- The children of each module hold its theorems, named for what they prove. Prelude, Map, Int, Text
-- and Exec are shared: association lists for Go's maps, integers for big.Int, texts as lists of bytes
-- with the functions of strings, strconv and encoding/hex that the program calls, and results over a
-- state that an error does not undo. Platform holds what the program takes from elsewhere as
-- interfaces: LevelDb (goleveldb), Crypto (x/crypto and go-ethereum) and Json (encoding/json on the
-- program's types), with the documented behaviour that it relies on as laws. Tests fills them.
--
-- State. The database is a value of LevelDb's type Db, whose entries an operation reads and writes;
-- its handle is open, as GetDBInstance gives it after InitDB (Database, Startup/Opened). An operation that may fail gives a
-- result and the database it leaves. The mempool is a record of two queues, each a map from accounts
-- to a map from nonces to transactions; a method holds the lock, so that a call is one step. A
-- uint64 is a number whose increment is taken modulo 2^64; a *big.Int that a message may leave out
-- is an Option. The order in which a range visits a map is an argument where the result depends on
-- it; SyncFutureToPending visits the accounts in the order of the list, and no account's round reads
-- another's. The balance of a stored account is never nil, since every writer sets it. Errors are told
-- apart by their message; printing is left out.
--
-- The node. Chain's Node is the database and the mempool. process_message is one message of the loop
-- of StartBlockchainProcessor, create_block one tick of StartBlockCreator; each gives the messages it
-- puts into the channels. The processor checks a transaction and adds it to the mempool, or checks a
-- block, rewards its miner, stores it, executes its transactions and clears them from the mempool.
-- A message and a tick are each one step. The creator promotes future transactions, takes five from the
-- mempool and makes a block of them.
--
-- The goroutines. Mediator's System is the node, the four channels, each a list with room for 100
-- messages, and what the processor and the creator have still to send. Its steps are those of the
-- goroutines in any order: a peer's handler or SendTransaction puts a message into P2PToBlockchain, the
-- processor takes one, a goroutine sends what it has to where there is room, the creator ticks, the client
-- takes a message for the peers. How the processor and the creator interleave between their accesses to
-- the database and the mempool within a message and a tick is not modelled.
--
-- The network. A connection is a number. Peers holds a slice with the array that it shares with the
-- slices taken of it, since RemoveConn moves the connections in it while HandleSendingMessages reads it.
-- What the outside does is an argument: whether a write fails, what the reads of a connection give, in
-- their order, whether an address resolves, what a dial gives. A buffer of 1024 bytes keeps what a shorter
-- datagram leaves. The composition of a client and a server (Discovery/Bootstrap, Discovery/Enr) takes the
-- server's replies as what the client reads. StartClient and the handlers run on the peers one after
-- another: two goroutines on the registry at once are not modelled.
--
-- Fuel. BuildMerkleTree's outer loop runs on the length of the list, since a level halves it; the
-- outer loop of ExtractTransactionsForBlock on the maximum and one, since a round that goes on takes
-- a transaction; SyncFutureToPending's inner loop on the size of the table and one, since a round
-- takes an entry out; the loop of RefactorHandleIncomingMessages on the number of reads and one, since a
-- round takes a read; TrimSpace on the length and one, since a round takes a byte.
--
-- Not modelled: listening, deadlines and the input of chat messages, which are I/O; the registration of the
-- methods at the RPC server, which is gorilla/rpc; the key functions of go-ethereum, which Keys of Rpc stands
-- for; the parsing of the flags in main.go; printing.
pub mod Prelude
pub mod Map
pub mod Int
pub mod Text
pub mod Types
pub mod Platform
pub mod Exec
pub mod Account
pub mod Merkle
pub mod Mempool
pub mod Transaction
pub mod Block
pub mod Chain
pub mod Database
pub mod Peers
pub mod Wire
pub mod Udp
pub mod Bootnode
pub mod Discovery
pub mod Network
pub mod Rpc
pub mod Mediator
pub mod Startup
mod Tests
