-- ===== src/Sha256/Agree.antt =====
-- The two SHA-256 implementations, of src/utils.cpp and include/acx/sha256.hpp, part by part.
use acx_contact_cli.Prelude.{
  ℕ, zero, suc, ◌+◌, ◌*◌, ◌/◌, ◌%◌, ◌^◌, ◌≡◌, refl, ap, ◌∙◌, List, [], ◌∷◌, ◌++◌, arith, Bytes,
  ◌==◌, if◌then◌else◌, length, drop,
}
use acx_contact_cli.Json.Text.{hex_digit}
use acx_contact_cli.Sha256.{
  Registers, word, elem, start, round_constants, rotr, small_sigma0, small_sigma1, big_sigma0,
  big_sigma1, choose, majority, round, rounds, next_word, extend, block_words, oldest_first,
  add_registers, compress, blocks, zeros, big_endian, padded, hex_fixed, digest_text, sha256_hex,
}
use acx_contact_cli.Sha256.Header.{
  Words, ch, maj, bsig0, bsig1, ssig0, ssig1, turn, turns, scheduled, loaded, from_first, added,
  fill_zeros, bitlen_bytes, message, padded_hex, hex, k_table, first_words, hash_blocks,
  hash_stream,
}
use acx_contact_cli.Sha256.Header

-- the variables of the one as those of the other
abbrev pub words_of : Registers → Words
words_of r = record { a = r.a; b = r.b; c = r.c; d = r.d; e = r.e; f = r.f; g = r.g; h = r.h }

turn_agrees : (r : Registers) (k w : ℕ) → turn (words_of r) k w ≡ words_of (round r k w)
unfolding turn round bsig0 bsig1 ch maj big_sigma0 big_sigma1 choose majority rotr Header.rotr
turn_agrees r k w = refl

turns_agree :
    (r : Registers) (ks ws : List ℕ) → turns (words_of r) ks ws ≡ words_of (rounds r ks ws)
unfolding turns rounds
turns_agree r [] ws = refl
turns_agree r (k ∷ ks) [] = refl
turns_agree r (k ∷ ks) (w ∷ ws) =
    ap (λ s. turns s ks ws) (turn_agrees r k w) ∙ turns_agree (round r k w) ks ws

next_agrees :
    (w : List ℕ)
    → (ssig1 (elem w 1) + elem w 6 + ssig0 (elem w 14) + elem w 15) % word ≡ next_word w
unfolding next_word ssig0 ssig1 small_sigma0 small_sigma1 rotr Header.rotr
next_agrees w = ap (λ n. n % word) (omega arith)

scheduled_agrees : (k : ℕ) (w : List ℕ) → scheduled k w ≡ extend k w
unfolding scheduled extend
scheduled_agrees zero w = refl
scheduled_agrees (suc k) w =
    ap (λ x. scheduled k (x ∷ w)) (next_agrees w) ∙ scheduled_agrees k (next_word w ∷ w)

loaded_agrees : (k : ℕ) (msg : Bytes) (w : List ℕ) → loaded k msg w ≡ block_words k msg w
unfolding loaded block_words
loaded_agrees zero msg w = refl
loaded_agrees (suc k) msg w = loaded_agrees k (drop 4 msg) _

from_first_agrees : (w out : List ℕ) → from_first w out ≡ oldest_first w out
unfolding from_first oldest_first
from_first_agrees [] out = refl
from_first_agrees (x ∷ w) out = from_first_agrees w (x ∷ out)

added_agrees : (s r : Registers) → added (words_of s) (words_of r) ≡ words_of (add_registers s r)
unfolding added add_registers
added_agrees s r = refl

block_agrees :
    (s : Registers) (msg : Bytes)
    → added
        (words_of s)
        (turns (words_of s) k_table (from_first (scheduled 48 (loaded 16 msg [])) []))
      ≡ words_of (compress s msg)
unfolding compress
block_agrees s msg =
    ap (λ w. added (words_of s) (turns (words_of s) k_table (from_first (scheduled 48 w) [])))
      (loaded_agrees 16 msg [])
    ∙ ap (λ w. added (words_of s) (turns (words_of s) k_table (from_first w [])))
        (scheduled_agrees 48 (block_words 16 msg []))
    ∙ ap (λ w. added (words_of s) (turns (words_of s) k_table w)) (from_first_agrees _ [])
    ∙ ap (added (words_of s)) (turns_agree s round_constants _)
    ∙ added_agrees s _

blocks_agree :
    (n : ℕ) (s : Registers) (msg : Bytes)
    → hash_blocks n (words_of s) msg ≡ words_of (blocks n s msg)
unfolding hash_blocks blocks
blocks_agree zero s msg = refl
blocks_agree (suc n) s msg =
    ap (λ h. hash_blocks n h (drop 64 msg)) (block_agrees s msg)
    ∙ blocks_agree n (compress s msg) (drop 64 msg)

zeros_agree : (f size : ℕ) → fill_zeros f size ≡ zeros f size
unfolding fill_zeros zeros
zeros_agree zero size = refl
zeros_agree (suc f) size =
    ap (λ more. if size % 64 == 56 then [] else 0 ∷ more) (zeros_agree f (size + 1))

length_agrees : (k n : ℕ) → bitlen_bytes k n ≡ big_endian k n
unfolding bitlen_bytes big_endian
length_agrees zero n = refl
length_agrees (suc k) n = ap (◌∷◌ (n / 256 ^ k % 256)) (length_agrees k n)

message_agrees : (s : Bytes) → message s ≡ padded s
unfolding message padded
message_agrees s = λ i.
    ((s ++ 0x80 ∷ []) ++ zeros_agree 64 (length (s ++ 0x80 ∷ [])) i)
    ++ length_agrees 8 (length s * 8 % 2 ^ 64) i

digits_agree : (k n : ℕ) → padded_hex k n ≡ hex_fixed k n
unfolding padded_hex hex_fixed
digits_agree zero n = refl
digits_agree (suc k) n = ap (◌∷◌ (hex_digit (n / 16 ^ k % 16))) (digits_agree k n)

hex_agrees : (r : Registers) → hex (words_of r) ≡ digest_text r
unfolding hex digest_text
hex_agrees r = λ i.
    digits_agree 8 r.a i
    ++ (digits_agree 8 r.b i
        ++ (digits_agree 8 r.c i
            ++ (digits_agree 8 r.d i
                ++ (digits_agree 8 r.e i
                    ++ (digits_agree 8 r.f i ++ (digits_agree 8 r.g i ++ digits_agree 8 r.h i))))))

-- The SHA-256 of src/utils.cpp and that of include/acx/sha256.hpp, which are written apart, give the
-- same digest for every text.
pub hash_stream-eq-sha256_hex : (s : Bytes) → hash_stream s ≡ sha256_hex s
unfolding hash_stream sha256_hex
hash_stream-eq-sha256_hex s =
    ap (λ m. hex (hash_blocks (length m / 64) first_words m)) (message_agrees s)
    ∙ ap hex (blocks_agree (length (padded s) / 64) start (padded s))
    ∙ hex_agrees (blocks (length (padded s) / 64) start (padded s))
