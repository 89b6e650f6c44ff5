-- ===== src/Udp/Buffer.antt =====
-- Reads into a buffer, and the slices of it.
use simple_blockchain_client.Udp.{zeros, from_second, first_byte, received, receive, new_buffer}
use simple_blockchain_client.Text.{Bytes}
use simple_blockchain_client.Prelude.{
  drop, take-length-append, take, refl, arith, ap, ◌≡◌, length, ◌∷◌, [], zero, suc, ℕ, some,
}

pub receive-nil : (buffer : Bytes) → receive [] buffer ≡ buffer
unfolding receive
receive-nil [] = refl
receive-nil (b ∷ buffer) = refl

-- A datagram with a byte overwrites the first byte.
pub first_byte-receive :
    (c b : ℕ) (datagram buffer : Bytes) → first_byte (receive (c ∷ datagram) (b ∷ buffer)) ≡ c
unfolding receive first_byte
first_byte-receive c b datagram buffer = refl

-- The bytes behind the first one, as many as the buffer has room for.
pub from_second-receive :
    (c b : ℕ) (datagram buffer : Bytes)
    → from_second (received (c ∷ datagram) (b ∷ buffer)) (receive (c ∷ datagram) (b ∷ buffer))
      ≡ some (take (length buffer) datagram)
unfolding receive received from_second
from_second-receive c b datagram buffer =
    ap some (take-length-append (take (length buffer) datagram) (drop (length datagram) buffer))

pub length-receive : (datagram buffer : Bytes) → length (receive datagram buffer) ≡ length buffer
unfolding receive
length-receive [] [] = refl
length-receive [] (b ∷ buffer) = refl
length-receive (c ∷ datagram) [] = refl
length-receive (c ∷ datagram) (b ∷ buffer) = ap suc (length-receive datagram buffer)

pub received-nil : (buffer : Bytes) → received [] buffer ≡ 0
unfolding received
received-nil [] = refl
received-nil (b ∷ buffer) = refl

length-zeros : (n : ℕ) → length (zeros n) ≡ n
length-zeros zero = refl
length-zeros (suc n) = ap suc (length-zeros n)

pub length-new_buffer : length new_buffer ≡ 1024
unfolding new_buffer
length-new_buffer = length-zeros 1024

-- A buffer of the program has a first byte, and 1023 bytes behind it.
pub buffer-cons :
    (buffer : Bytes)
    → length buffer ≡ 1024
    → (b : ℕ) × (rest : Bytes) × (buffer ≡ b ∷ rest) × (length rest ≡ 1023)
buffer-cons [] h = absurd (omega arith)
buffer-cons (b ∷ rest) h = (b, rest, refl, omega arith)

pub receive-cons :
    (c b : ℕ) (datagram buffer : Bytes)
    → receive (c ∷ datagram) (b ∷ buffer) ≡ c ∷ receive datagram buffer
unfolding receive
receive-cons c b datagram buffer = refl
