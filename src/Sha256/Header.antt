-- ===== src/Sha256/Header.antt =====
-- `hash_stream` of include/acx/sha256.hpp, an implementation of its own. The message schedule `W` is
-- kept newest word first, and a sum of uint32_t is reduced once, modulo 2^32.
use Prim.Native.Nat.{bit_and, bit_or, bit_xor}
use acx_contact_cli.Prelude.{
  ℕ, zero, suc, ◌+◌, ◌*◌, ◌-◌, ◌/◌, ◌%◌, ◌^◌, List, [], ◌∷◌, ◌++◌, none, some, Bytes, ◌==◌,
  if◌then◌else◌, length, get_elem?, drop,
}
use acx_contact_cli.Json.Text.{hex_digit}

abbrev pub uint32 : ℕ
uint32 = 2 ^ 32

unfoldable pub rotr : ℕ → ℕ → ℕ
rotr x n = bit_or (x / 2 ^ n) (x * 2 ^ (32 - n) % uint32)

unfoldable pub ch : ℕ → ℕ → ℕ → ℕ
ch x y z = bit_xor (bit_and x y) (bit_and (bit_xor x 0xFFFF_FFFF) z)

unfoldable pub maj : ℕ → ℕ → ℕ → ℕ
maj x y z = bit_xor (bit_xor (bit_and x y) (bit_and x z)) (bit_and y z)

unfoldable pub bsig0 : ℕ → ℕ
unfolding rotr
bsig0 x = bit_xor (bit_xor (rotr x 2) (rotr x 13)) (rotr x 22)

unfoldable pub bsig1 : ℕ → ℕ
unfolding rotr
bsig1 x = bit_xor (bit_xor (rotr x 6) (rotr x 11)) (rotr x 25)

unfoldable pub ssig0 : ℕ → ℕ
unfolding rotr
ssig0 x = bit_xor (bit_xor (rotr x 7) (rotr x 18)) (x / 2 ^ 3)

unfoldable pub ssig1 : ℕ → ℕ
unfolding rotr
ssig1 x = bit_xor (bit_xor (rotr x 17) (rotr x 19)) (x / 2 ^ 10)

-- the eight words of `H`, and the eight variables of a block
pub record Words : Type 0 where
  pub a : ℕ
  pub b : ℕ
  pub c : ℕ
  pub d : ℕ
  pub e : ℕ
  pub f : ℕ
  pub g : ℕ
  pub h : ℕ

abbrev pub first_words : Words
first_words = record {
  a = 0x6a09e667;
  b = 0xbb67ae85;
  c = 0x3c6ef372;
  d = 0xa54ff53a;
  e = 0x510e527f;
  f = 0x9b05688c;
  g = 0x1f83d9ab;
  h = 0x5be0cd19;
}

-- `K`
abbrev pub k_table : List ℕ
k_table =
    0x428a2f98 ∷ 0x71374491 ∷ 0xb5c0fbcf ∷ 0xe9b5dba5 ∷ 0x3956c25b ∷ 0x59f111f1 ∷ 0x923f82a4
    ∷ 0xab1c5ed5 ∷ 0xd807aa98 ∷ 0x12835b01 ∷ 0x243185be ∷ 0x550c7dc3 ∷ 0x72be5d74 ∷ 0x80deb1fe
    ∷ 0x9bdc06a7 ∷ 0xc19bf174 ∷ 0xe49b69c1 ∷ 0xefbe4786 ∷ 0x0fc19dc6 ∷ 0x240ca1cc ∷ 0x2de92c6f
    ∷ 0x4a7484aa ∷ 0x5cb0a9dc ∷ 0x76f988da ∷ 0x983e5152 ∷ 0xa831c66d ∷ 0xb00327c8 ∷ 0xbf597fc7
    ∷ 0xc6e00bf3 ∷ 0xd5a79147 ∷ 0x06ca6351 ∷ 0x14292967 ∷ 0x27b70a85 ∷ 0x2e1b2138 ∷ 0x4d2c6dfc
    ∷ 0x53380d13 ∷ 0x650a7354 ∷ 0x766a0abb ∷ 0x81c2c92e ∷ 0x92722c85 ∷ 0xa2bfe8a1 ∷ 0xa81a664b
    ∷ 0xc24b8b70 ∷ 0xc76c51a3 ∷ 0xd192e819 ∷ 0xd6990624 ∷ 0xf40e3585 ∷ 0x106aa070 ∷ 0x19a4c116
    ∷ 0x1e376c08 ∷ 0x2748774c ∷ 0x34b0bcb5 ∷ 0x391c0cb3 ∷ 0x4ed8aa4a ∷ 0x5b9cca4f ∷ 0x682e6ff3
    ∷ 0x748f82ee ∷ 0x78a5636f ∷ 0x84c87814 ∷ 0x8cc70208 ∷ 0x90befffa ∷ 0xa4506ceb ∷ 0xbef9a3f7
    ∷ 0xc67178f2 ∷ []

-- the digits that std::hex with std::setfill('0') and std::setw writes
unfoldable pub padded_hex : ℕ → ℕ → Bytes
unfolding hex_digit
padded_hex zero n = []
padded_hex (suc k) n = hex_digit (n / 16 ^ k % 16) ∷ padded_hex k n

unfoldable pub hex : Words → Bytes
hex s =
    padded_hex 8 s.a
    ++ (padded_hex 8 s.b
        ++ (padded_hex 8 s.c
            ++ (padded_hex 8 s.d
                ++ (padded_hex 8 s.e
                    ++ (padded_hex 8 s.f ++ (padded_hex 8 s.g ++ padded_hex 8 s.h))))))

-- `while ((msg.size() % 64) != 56) msg.push_back(0x00);` at a message of `size` bytes
unfoldable pub fill_zeros : ℕ → ℕ → Bytes
fill_zeros zero size = []
fill_zeros (suc f) size =
    let more = 0x00 ∷ fill_zeros f (size + 1) in if size % 64 == 56 then [] else more

-- the bytes of `bitlen`, from the one at `i` downwards
unfoldable pub bitlen_bytes : ℕ → ℕ → Bytes
bitlen_bytes zero bitlen = []
bitlen_bytes (suc i) bitlen = (bitlen / 256 ^ i % 256) ∷ bitlen_bytes i bitlen

-- `msg`
unfoldable pub message : Bytes → Bytes
unfolding fill_zeros bitlen_bytes
message read =
    let marked = read ++ 0x80 ∷ [] in
    (marked ++ fill_zeros 64 (length marked)) ++ bitlen_bytes 8 (length read * 8 % 2 ^ 64)

-- `msg[off + i]` and `W[t - i]`, which the loops only read in range
abbrev pub at_index : List ℕ → ℕ → ℕ
at_index v i = elim (get_elem? v i) [ some x ↦ x | none ↦ 0 ]

-- the first loop over `W`
unfoldable pub loaded : ℕ → Bytes → List ℕ → List ℕ
loaded zero msg w = w
loaded (suc t) msg w = loaded t (drop 4 msg) (
    (at_index msg 0 * 2 ^ 24 + at_index msg 1 * 2 ^ 16 + at_index msg 2 * 2 ^ 8 + at_index msg 3)
    ∷ w)

-- the second one
unfoldable pub scheduled : ℕ → List ℕ → List ℕ
unfolding ssig0 ssig1
scheduled zero w = w
scheduled (suc t) w =
    scheduled t
      (((ssig1 (at_index w 1) + at_index w 6 + ssig0 (at_index w 14) + at_index w 15) % uint32) ∷ w)

unfoldable pub from_first : List ℕ → List ℕ → List ℕ
from_first [] out = out
from_first (w ∷ ws) out = from_first ws (w ∷ out)

-- the body of the third loop
unfoldable pub turn : Words → ℕ → ℕ → Words
unfolding bsig0 bsig1 ch maj
turn s k w =
    let t1 = (s.h + bsig1 s.e + ch s.e s.f s.g + k + w) % uint32 in
    let t2 = (bsig0 s.a + maj s.a s.b s.c) % uint32 in
    record {
      a = (t1 + t2) % uint32;
      b = s.a;
      c = s.b;
      d = s.c;
      e = (s.d + t1) % uint32;
      f = s.e;
      g = s.f;
      h = s.g;
    }

unfoldable pub turns : Words → List ℕ → List ℕ → Words
unfolding turn
turns s (k ∷ ks) (w ∷ ws) = turns (turn s k w) ks ws
turns s _ _ = s

-- `H[0] += a; …`
unfoldable pub added : Words → Words → Words
added s t = record {
  a = (s.a + t.a) % uint32;
  b = (s.b + t.b) % uint32;
  c = (s.c + t.c) % uint32;
  d = (s.d + t.d) % uint32;
  e = (s.e + t.e) % uint32;
  f = (s.f + t.f) % uint32;
  g = (s.g + t.g) % uint32;
  h = (s.h + t.h) % uint32;
}

-- the loop over the offsets
unfoldable pub hash_blocks : ℕ → Words → Bytes → Words
unfolding added turns from_first scheduled loaded
hash_blocks zero s msg = s
hash_blocks (suc n) s msg =
    hash_blocks n (added s (turns s k_table (from_first (scheduled 48 (loaded 16 msg [])) [])))
      (drop 64 msg)

unfoldable pub hash_stream : Bytes → Bytes
unfolding message hash_blocks hex padded_hex
hash_stream read = let msg = message read in hex (hash_blocks (length msg / 64) first_words msg)
