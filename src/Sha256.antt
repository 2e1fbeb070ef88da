-- ===== src/Sha256.antt =====
-- `sha256_hex` of src/utils.cpp; `hash_stream` of include/acx/sha256.hpp is in Header. A uint32_t sum is
-- reduced once, modulo 2^32. The message schedule is kept newest word first: `w[i-k]` is the word at
-- position k - 1.
pub mod Header
pub mod Agree
pub mod Laws
use Prim.Native.Nat.{bit_and, bit_or, bit_xor}
use acx_contact_cli.Prelude.{
  ℕ, zero, suc, ◌+◌, ◌*◌, ◌-◌, ◌/◌, ◌%◌, ◌^◌, List, [], ◌∷◌, ◌++◌, Option, none, some, Bytes, ◌==◌,
  if◌then◌else◌, length, get_elem?, drop,
}
use acx_contact_cli.Json.Text.{hex_digit}

abbrev pub word : ℕ
word = 2 ^ 32

-- `v[i]`, which the loops only use in range
abbrev pub elem : List ℕ → ℕ → ℕ
elem v i = elim (get_elem? v i) [ some x ↦ x | none ↦ 0 ]

abbrev pub round_constants : List ℕ
round_constants =
    0x428a2f98 ∷ 0x71374491 ∷ 0xb5c0fbcf ∷ 0xe9b5dba5 ∷ 0x3956c25b ∷ 0x59f111f1 ∷ 0x923f82a4
    ∷ 0xab1c5ed5 ∷ 0xd807aa98 ∷ 0x12835b01 ∷ 0x243185be ∷ 0x550c7dc3 ∷ 0x72be5d74 ∷ 0x80deb1fe
    ∷ 0x9bdc06a7 ∷ 0xc19bf174 ∷ 0xe49b69c1 ∷ 0xefbe4786 ∷ 0x0fc19dc6 ∷ 0x240ca1cc ∷ 0x2de92c6f
    ∷ 0x4a7484aa ∷ 0x5cb0a9dc ∷ 0x76f988da ∷ 0x983e5152 ∷ 0xa831c66d ∷ 0xb00327c8 ∷ 0xbf597fc7
    ∷ 0xc6e00bf3 ∷ 0xd5a79147 ∷ 0x06ca6351 ∷ 0x14292967 ∷ 0x27b70a85 ∷ 0x2e1b2138 ∷ 0x4d2c6dfc
    ∷ 0x53380d13 ∷ 0x650a7354 ∷ 0x766a0abb ∷ 0x81c2c92e ∷ 0x92722c85 ∷ 0xa2bfe8a1 ∷ 0xa81a664b
    ∷ 0xc24b8b70 ∷ 0xc76c51a3 ∷ 0xd192e819 ∷ 0xd6990624 ∷ 0xf40e3585 ∷ 0x106aa070 ∷ 0x19a4c116
    ∷ 0x1e376c08 ∷ 0x2748774c ∷ 0x34b0bcb5 ∷ 0x391c0cb3 ∷ 0x4ed8aa4a ∷ 0x5b9cca4f ∷ 0x682e6ff3
    ∷ 0x748f82ee ∷ 0x78a5636f ∷ 0x84c87814 ∷ 0x8cc70208 ∷ 0x90befffa ∷ 0xa4506ceb ∷ 0xbef9a3f7
    ∷ 0xc67178f2 ∷ []

unfoldable pub rotr : ℕ → ℕ → ℕ
rotr x n = bit_or (x / 2 ^ n) (x * 2 ^ (32 - n) % word)

-- `while ((msg.size() % 64) != 56) msg.push_back(0);` at a message of `size` bytes
unfoldable pub zeros : ℕ → ℕ → Bytes
zeros zero size = []
zeros (suc f) size = let more = 0 ∷ zeros f (size + 1) in if size % 64 == 56 then [] else more

-- the eight bytes of a uint64_t, the highest first
unfoldable pub big_endian : ℕ → ℕ → Bytes
big_endian zero n = []
big_endian (suc k) n = (n / 256 ^ k % 256) ∷ big_endian k n

-- the message with its padding and its length in bits
unfoldable pub padded : Bytes → Bytes
padded data' =
    let started = data' ++ 0x80 ∷ [] in
    (started ++ zeros 64 (length started)) ++ big_endian 8 (length data' * 8 % 2 ^ 64)

-- `w[i]` for the first 16 words of the block at an offset, newest first
unfoldable pub block_words : ℕ → Bytes → List ℕ → List ℕ
block_words zero msg w = w
block_words (suc k) msg w =
    block_words k (drop 4 msg)
      ((elem msg 0 * 2 ^ 24 + elem msg 1 * 2 ^ 16 + elem msg 2 * 2 ^ 8 + elem msg 3) ∷ w)

-- the eight variables
pub record Registers : Type 0 where
  pub a : ℕ
  pub b : ℕ
  pub c : ℕ
  pub d : ℕ
  pub e : ℕ
  pub f : ℕ
  pub g : ℕ
  pub h : ℕ

abbrev pub start : Registers
start = record {
  a = 0x6a09e667;
  b = 0xbb67ae85;
  c = 0x3c6ef372;
  d = 0xa54ff53a;
  e = 0x510e527f;
  f = 0x9b05688c;
  g = 0x1f83d9ab;
  h = 0x5be0cd19;
}

-- the functions of the standard
unfoldable pub small_sigma0 : ℕ → ℕ
unfolding rotr
small_sigma0 x = bit_xor (bit_xor (rotr x 7) (rotr x 18)) (x / 2 ^ 3)

unfoldable pub small_sigma1 : ℕ → ℕ
unfolding rotr
small_sigma1 x = bit_xor (bit_xor (rotr x 17) (rotr x 19)) (x / 2 ^ 10)

unfoldable pub big_sigma0 : ℕ → ℕ
unfolding rotr
big_sigma0 x = bit_xor (bit_xor (rotr x 2) (rotr x 13)) (rotr x 22)

unfoldable pub big_sigma1 : ℕ → ℕ
unfolding rotr
big_sigma1 x = bit_xor (bit_xor (rotr x 6) (rotr x 11)) (rotr x 25)

unfoldable pub choose : ℕ → ℕ → ℕ → ℕ
choose x y z = bit_xor (bit_and x y) (bit_and (bit_xor x 0xFFFF_FFFF) z)

unfoldable pub majority : ℕ → ℕ → ℕ → ℕ
majority x y z = bit_xor (bit_xor (bit_and x y) (bit_and x z)) (bit_and y z)

-- one of the 64 rounds
unfoldable pub round : Registers → ℕ → ℕ → Registers
unfolding big_sigma0 big_sigma1 choose majority
round r k w =
    let temp1 = (r.h + big_sigma1 r.e + choose r.e r.f r.g + k + w) % word in
    let temp2 = (big_sigma0 r.a + majority r.a r.b r.c) % word in
    record {
      a = (temp1 + temp2) % word;
      b = r.a;
      c = r.b;
      d = r.c;
      e = (r.d + temp1) % word;
      f = r.e;
      g = r.f;
      h = r.g;
    }

unfoldable pub rounds : Registers → List ℕ → List ℕ → Registers
unfolding round
rounds r (k ∷ ks) (w ∷ ws) = rounds (round r k w) ks ws
rounds r _ _ = r

unfoldable pub oldest_first : List ℕ → List ℕ → List ℕ
oldest_first [] out = out
oldest_first (w ∷ ws) out = oldest_first ws (w ∷ out)

unfoldable pub add_registers : Registers → Registers → Registers
add_registers s r = record {
  a = (s.a + r.a) % word;
  b = (s.b + r.b) % word;
  c = (s.c + r.c) % word;
  d = (s.d + r.d) % word;
  e = (s.e + r.e) % word;
  f = (s.f + r.f) % word;
  g = (s.g + r.g) % word;
  h = (s.h + r.h) % word;
}

-- a value in as many hexadecimal digits as asked for, with leading zeros
unfoldable pub hex_fixed : ℕ → ℕ → Bytes
unfolding hex_digit
hex_fixed zero n = []
hex_fixed (suc k) n = hex_digit (n / 16 ^ k % 16) ∷ hex_fixed k n

unfoldable pub digest_text : Registers → Bytes
digest_text r =
    hex_fixed 8 r.a
    ++ (hex_fixed 8 r.b
        ++ (hex_fixed 8 r.c
            ++ (hex_fixed 8 r.d
                ++ (hex_fixed 8 r.e ++ (hex_fixed 8 r.f ++ (hex_fixed 8 r.g ++ hex_fixed 8 r.h))))))

-- the next word of the schedule
unfoldable pub next_word : List ℕ → ℕ
unfolding small_sigma0 small_sigma1
next_word w = (elem w 15 + small_sigma0 (elem w 14) + elem w 6 + small_sigma1 (elem w 1)) % word

unfoldable pub extend : ℕ → List ℕ → List ℕ
unfolding next_word
extend zero w = w
extend (suc k) w = extend k (next_word w ∷ w)

unfoldable pub compress : Registers → Bytes → Registers
unfolding extend block_words rounds oldest_first add_registers
compress s block =
    add_registers s
      (rounds s round_constants (oldest_first (extend 48 (block_words 16 block [])) []))

-- the loop over the blocks of 64 bytes
unfoldable pub blocks : ℕ → Registers → Bytes → Registers
unfolding compress
blocks zero s msg = s
blocks (suc n) s msg = blocks n (compress s msg) (drop 64 msg)

unfoldable pub sha256_hex : Bytes → Bytes
unfolding blocks padded zeros big_endian digest_text hex_fixed
sha256_hex data' = let msg = padded data' in digest_text (blocks (length msg / 64) start msg)
