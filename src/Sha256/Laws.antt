-- ===== src/Sha256/Laws.antt =====
-- The padding of the SHA-256 of src/utils.cpp fills whole blocks, and a digest has 64 digits.
use acx_contact_cli.Prelude.{
  ℕ, zero, suc, ◌+◌, ◌*◌, ◌-◌, ◌/◌, ◌%◌, ◌^◌, ◌≤◌, ◌<◌, ◌≡◌, refl, ap, [], ◌∷◌, ◌++◌, arith, Bytes,
  ◌==◌, length, length-append, Bool-cases, inl, inr, ==_iff,
}
use acx_contact_cli.Sha256.{
  zeros, big_endian, padded, digest_text, hex_fixed, Registers, blocks, start, sha256_hex,
}

-- the zeros end where 56 bytes stand in the last block, given the rounds until there
zeros_fill : (f size k j : ℕ) → size + k ≡ 64 * j + 56 → k < f → k < 64 → length (zeros f size) ≡ k
unfolding zeros
zeros_fill zero size k j e h l = absurd (omega arith)
zeros_fill (suc f) size zero j e h l = let q : size % 64 ≡ 56 = omega arith in rw q
zeros_fill (suc f) size (suc k) j e h l = elim (Bool-cases (size % 64 == 56)) [
  | inl q ↦ let r = (==_iff (size % 64) 56).0 q in absurd (omega arith)
  | inr q ↦ rw q (ap suc (zeros_fill f (size + 1) k j (omega arith) (omega arith) (omega arith)))
]

big_endian-length : (k n : ℕ) → length (big_endian k n) ≡ k
unfolding big_endian
big_endian-length zero n = refl
big_endian-length (suc k) n = ap suc (big_endian-length k n)

hex_fixed-length : (k n : ℕ) → length (hex_fixed k n) ≡ k
unfolding hex_fixed
hex_fixed-length zero n = refl
hex_fixed-length (suc k) n = ap suc (hex_fixed-length k n)

-- the zeros that a message of `size` bytes takes
abbrev missing : ℕ → ℕ
missing size = (120 - size % 64) % 64

zeros-length : (size : ℕ) → length (zeros 64 size) ≡ missing size
zeros-length size =
    zeros_fill 64 size (missing size) ((size + missing size) / 64) (omega arith) (omega arith)
      (omega arith)

-- The padded message fills whole blocks of 64 bytes, begins with room for the message, the bit and
-- the length, and has fewer than 64 bytes more than that.
pub padded-length :
    (s : Bytes)
    → (length (padded s) % 64 ≡ 0)
      × (length s + 9 ≤ length (padded s))
      × (length (padded s) < length s + 73)
padded-length s = (omega (arith, total), omega (arith, total), omega (arith, total))
  where
    total : length (padded s) ≡ length s + 1 + missing (length s + 1) + 8
    total =
        unfold padded in
        omega (
          arith,
          length-append {0} ((s ++ 0x80 ∷ []) ++ zeros 64 (length (s ++ 0x80 ∷ [])))
              (big_endian 8 (length s * 8 % 2 ^ 64)),
          length-append {0} (s ++ 0x80 ∷ []) (zeros 64 (length (s ++ 0x80 ∷ []))),
          length-append {0} s (0x80 ∷ []),
          big_endian-length 8 (length s * 8 % 2 ^ 64),
          zeros-length (length (s ++ 0x80 ∷ [])),
        )

digits_then : (x : ℕ) (t : Bytes) → length (hex_fixed 8 x ++ t) ≡ 8 + length t
digits_then x t = omega (arith, length-append {0} (hex_fixed 8 x) t, hex_fixed-length 8 x)

digest_text-length : (r : Registers) → length (digest_text r) ≡ 64
unfolding digest_text
digest_text-length r = simp digits_then (omega (arith, hex_fixed-length 8 r.h))

-- A digest is 64 digits long, for every text.
pub sha256_hex-length : (s : Bytes) → length (sha256_hex s) ≡ 64
sha256_hex-length s =
    unfold sha256_hex in (digest_text-length (blocks (length (padded s) / 64) start (padded s)))
