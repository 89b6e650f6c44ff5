-- ===== src/Account/Address/Format.antt =====
-- The addresses that the program makes have the format that it accepts.
use simple_blockchain_client.Exec.{ok}
use simple_blockchain_client.Text.{codes, Bytes}
use simple_blockchain_client.Platform.{Crypto}
use simple_blockchain_client.Account.Address.{
  ◌∷◌, ok, drop, codes, all_hex_digits, public_key_to_address, length, is_valid_address,
  is_hex_digit,
}
use simple_blockchain_client.Prelude.{
  refl, ◌%◌, ◌/◌, ◌-◌, ◌++◌, arith, ◌≡◌, drop, ◌<◌, length, All, [], zero, suc, ℕ, true,
}
use simple_blockchain_client.Text.Hex

digit-IsHex : (n : ℕ) → n < 16 → is_hex_digit (Hex.to_digit n) ≡ true
unfolding is_hex_digit Hex.to_digit
digit-IsHex n h = ground arith

encode-all_hex_digits : (bs : Bytes) → All Hex.IsByte bs → all_hex_digits (Hex.encode bs) ≡ true
unfolding Hex.encode
encode-all_hex_digits [] h = refl
encode-all_hex_digits (b ∷ bs) (hb, h) =
    rw (digit-IsHex (b / 16) (omega arith), digit-IsHex (b % 16) (omega arith))
      (encode-all_hex_digits bs h)

All-drop : (n : ℕ) (bs : Bytes) → All Hex.IsByte bs → All Hex.IsByte (drop n bs)
All-drop zero bs h = h
All-drop (suc n) [] h = tt
All-drop (suc n) (b ∷ bs) (hb, h) = All-drop n bs h

length-drop : (n : ℕ) (bs : Bytes) → length (drop n bs) ≡ length bs - n
length-drop zero bs = omega arith
length-drop (suc n) [] = omega arith
length-drop (suc n) (b ∷ bs) = omega (arith, length-drop n bs)

module _ ⦃C : Crypto⦄ where
  open C use {keccak256, length-keccak256, keccak256-bytes}

  address-IsValid :
      (key : Bytes)
      → is_valid_address
          (codes "0x" ++ Hex.encode (drop (length (keccak256 key) - 20) (keccak256 key)))
        ≡ true
  unfolding is_valid_address
  address-IsValid key =
      let hash = keccak256 key in
      let tail = drop (length hash - 20) hash in
      let size : length (Hex.encode tail) ≡ 40 = omega (
        arith,
        Hex.length-encode tail,
        length-drop (length hash - 20) hash,
        length-keccak256 key,
      ) in
      let good =
        encode-all_hex_digits tail (All-drop (length hash - 20) hash (keccak256-bytes key)) in
      rw (size, good)

  -- Every address that `PublicKeyToAddress` makes is one that `IsValidAddress` accepts, and its key
  -- has 65 bytes, the first of them 4.
  pub public_key_to_address-is_valid :
      (key : Bytes) {address : Bytes}
      → public_key_to_address key ≡ ok address
      → (is_valid_address address ≡ true)
        × (length key ≡ 65)
        × ((rest : Bytes) × (key ≡ 0x04 ∷ rest))
  unfolding public_key_to_address
  public_key_to_address-is_valid [] h = cc
  public_key_to_address-is_valid (tag ∷ key) h =
      (ground (arith, address-IsValid key), ground arith, (key, ground arith))
