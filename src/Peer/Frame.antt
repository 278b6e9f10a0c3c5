-- ===== src/Peer/Frame.antt =====
-- The frame of a message: `htonl` and `ntohl` of PeerAsync::sendMessage and PeerAsync::receive.
use jetpeer_cpp.Base.{ℕ, List, [], ◌∷◌, ◌++◌, ◌+◌, ◌*◌, ◌/◌, ◌%◌, ◌^◌, ◌<◌, ◌≡◌, arith, length}
use jetpeer_cpp.Platform.{Platform, Value}

-- The four bytes of `htonl(n)`, as they lie in memory.
unfoldable pub to_big_endian : ℕ → List ℕ
to_big_endian n = n / 2 ^ 24 % 256 ∷ n / 2 ^ 16 % 256 ∷ n / 2 ^ 8 % 256 ∷ n % 256 ∷ []

-- `ntohl` of four bytes. No other number of bytes is read.
unfoldable pub of_big_endian : List ℕ → ℕ
of_big_endian (a ∷ b ∷ c ∷ d ∷ []) = a * 2 ^ 24 + b * 2 ^ 16 + c * 2 ^ 8 + d
of_big_endian _ = 0

module _ ⦃P : Platform⦄ where
  open P use {write}

  -- What sendMessage hands to the socket: the length, and the text of the message.
  unfoldable pub frame : Value → List ℕ
  frame v = to_big_endian (length (write v) % 2 ^ 32) ++ write v

pub of_big_endian-to_big_endian : (n : ℕ) → n < 2 ^ 32 → of_big_endian (to_big_endian n) ≡ n
unfolding of_big_endian to_big_endian
of_big_endian-to_big_endian n h = omega arith
