-- ===== src/Hmac.antt =====
-- src/hmac.cpp: `hmac_sha256_hex` in the build without OpenSSL.
use Prim.Native.Nat.{bit_xor}
use acx_contact_cli.Prelude.{
  ℕ, ◌+◌, ◌-◌, ◌*◌, [], ◌∷◌, ◌++◌, map, Bytes, ltb, isdigit, if◌then◌else◌, length, replicate,
}
use acx_contact_cli.Sha256.{sha256_hex}

-- the value of a lower-case hexadecimal digit
unfoldable pub digit_value : ℕ → ℕ
unfolding isdigit
digit_value c = if isdigit c then c - b'0' else 10 + (c - b'a')

-- `hex_to_bytes`, on hexadecimal digits; an odd last one is left out
unfoldable pub hex_to_bytes : Bytes → Bytes
unfolding digit_value
hex_to_bytes (high ∷ low ∷ rest) = (digit_value high * 16 + digit_value low) ∷ hex_to_bytes rest
hex_to_bytes _ = []

-- the key as it is hashed in front, filled to a block
unfoldable pub block_key : Bytes → Bytes
block_key key =
    let k = (if ltb 64 (length key) then sha256_hex key else key) in
    k ++ replicate (64 - length k) 0

unfoldable pub hmac_sha256_hex : Bytes → Bytes → Bytes
unfolding hex_to_bytes block_key
hmac_sha256_hex key text =
    let i = map (bit_xor 0x36) (block_key key) in
    let o = map (bit_xor 0x5C) (block_key key) in
    sha256_hex (o ++ hex_to_bytes (sha256_hex (i ++ text)))
