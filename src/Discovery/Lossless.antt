-- ===== src/Discovery/Lossless.antt =====
-- A network that loses nothing: what a client reads is what a server has replied.
use simple_blockchain_client.Discovery.{Socket}
use simple_blockchain_client.Text.{Bytes}
use simple_blockchain_client.Prelude.{Option, List, ◌∷◌, [], none, some, true}

abbrev pub head : List Bytes → Option Bytes
head [] = none
head (reply ∷ replies) = some reply

-- A socket on which the reads give the replies, if there are any, and nothing else fails.
unfoldable pub lossless : List Bytes → List Bytes → Socket
lossless first second = record {
  resolves = true;
  dials = true;
  first_write = true;
  second_write = true;
  first_read = head first;
  second_read = head second;
}
