-- ===== src/Account/Address.antt =====
-- account/account.go: addresses, their format and their origin in public keys.
pub mod Format
use simple_blockchain_client.Prelude.{
  none, some, Option, ℕ, ◌-◌, Bool, true, false, ◌&&◌, ◌||◌, [], ◌∷◌, ◌++◌, leb, if◌then◌else◌,
  ◌==◌, nat_eq, length, drop,
}
use simple_blockchain_client.Text.{Bytes, codes}
use simple_blockchain_client.Text.Hex
use simple_blockchain_client.Platform.{Crypto}
use simple_blockchain_client.Exec.{key_generation, Result, ok, err, bad_key_length, bad_key_format}

unfoldable pub is_hex_digit : ℕ → Bool
is_hex_digit c =
    (leb b'0' c && leb c b'9') || (leb b'a' c && leb c b'f') || (leb b'A' c && leb c b'F')

abbrev pub all_hex_digits : Bytes → Bool
all_hex_digits [] = true
all_hex_digits (c ∷ s) = is_hex_digit c && all_hex_digits s

-- The pattern `^0x[0-9a-fA-F]{40}$`.
unfoldable pub is_valid_address : Bytes → Bool
unfolding is_hex_digit
is_valid_address [] = false
is_valid_address (a ∷ []) = false
is_valid_address (a ∷ b ∷ s) = a == b'0' && (b == b'x' && (length s == 40 && all_hex_digits s))

module _ ⦃C : Crypto⦄ where
  open C use {keccak256}

  -- The last 20 bytes of the hash of the key without its first byte.
  unfoldable pub public_key_to_address : Bytes → Result Bytes
  public_key_to_address [] = err bad_key_length
  public_key_to_address (tag ∷ key) =
      if length (tag ∷ key) == 65
      then (if tag == 0x04
          then (let hash = keccak256 key in
              ok (codes "0x" ++ Hex.encode (drop (length hash - 20) hash)))
          else err bad_key_format)
      else err bad_key_length

  -- `CreateAccount`, on the key pair that `crypto.GenerateKey` gives, private and public: the
  -- private key in hexadecimal and the address.
  unfoldable pub create_account : Option (Bytes × Bytes) → Result (Bytes × Bytes)
  create_account none = err key_generation
  create_account (some (private_key, public_key)) = elim (public_key_to_address public_key) [
    | err e ↦ err e
    | ok address ↦ ok (Hex.encode private_key, address)
  ]
