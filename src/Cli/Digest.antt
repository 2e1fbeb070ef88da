-- ===== src/Cli/Digest.antt =====
-- `acx_hash_file_cmd` and `acx_checksum_cmd` of src/cli.cpp against each other.
use acx_contact_cli.Prelude.{
  ℕ, zero, suc, ◌/◌, ◌%◌, ◌^◌, ◌≡◌, ◌<◌, refl, ap, ◌∙◌, arith, Bool, true, false, not, ◌&&◌, some,
  List, [], ◌∷◌, ◌++◌, Bytes, codes, same_refl, is_empty, length, all, ◌==◌, &&-eq-true,
}
use acx_contact_cli.Json.Text.{hex_digit}
use acx_contact_cli.Utils.{lines, onto_first}
use acx_contact_cli.Sha256.Header.{
  padded_hex, hex, hash_stream, Words, hash_blocks, message, first_words,
}
use acx_contact_cli.World.{World}
use acx_contact_cli.Cli.{ex_ok}
use acx_contact_cli.Cli.Rewrite.{lower}
use acx_contact_cli.Cli.Args.{
  hash_file, hash_outcome, acx_hash_file_cmd, checksum_of, first_word, first_of, is_digest_file,
  compare_digest, checksum_against, acx_checksum_cmd,
}

-- a byte that ends neither a line nor a word
abbrev is_solid : ℕ → Bool
is_solid c = not (c == b' ') && not (c == b'\n')

digit_solid : (n : ℕ) → n < 16 → is_solid (hex_digit n) ≡ true
unfolding hex_digit
digit_solid n l = ground (arith, l)

fixed_solid : (k n : ℕ) → all is_solid (padded_hex k n) ≡ true
unfolding padded_hex
fixed_solid zero n = refl
fixed_solid (suc k) n = rw (digit_solid (n / 16 ^ k % 16) (omega arith)) (fixed_solid k n)

fixed-all : (k n : ℕ) (t : Bytes) → all is_solid (padded_hex k n ++ t) ≡ all is_solid t
unfolding padded_hex
fixed-all zero n t = refl
fixed-all (suc k) n t = rw (digit_solid (n / 16 ^ k % 16) (omega arith)) (fixed-all k n t)

text_solid : (r : Words) → all is_solid (hex r) ≡ true
unfolding hex
text_solid r = simp fixed-all (fixed_solid 8 r.h)

-- the words behind the last block of a text
abbrev last_words : Bytes → Words
last_words s = hash_blocks (length (message s) / 64) first_words (message s)

hash_solid : (s : Bytes) → all is_solid (hash_stream s) ≡ true
hash_solid s = unfold hash_stream in (text_solid (last_words s))

digest_ne : (r : Words) → is_empty (hex r) ≡ false
unfolding hex padded_hex
digest_ne r = refl

hash_ne : (s : Bytes) → is_empty (hash_stream s) ≡ false
hash_ne s = unfold hash_stream in (digest_ne (last_words s))

first_of-onto_first : (c : ℕ) (ls : List Bytes) → first_of (onto_first c ls) ≡ c ∷ first_of ls
first_of-onto_first c [] = refl
first_of-onto_first c (l ∷ ls) = refl

negation_true : (b : Bool) → not b ≡ true → b ≡ false
negation_true true h = absurd (cc h)
negation_true false h = refl

-- a word with a space behind it is the first of the first line
first_word-text :
    (h rest : Bytes)
    → all is_solid h ≡ true
    → first_word (first_of (lines (h ++ (b' ' ∷ rest)))) ≡ h
unfolding lines first_word
first_word-text [] rest s = rw (first_of-onto_first b' ' (lines rest)) refl
first_word-text (c ∷ h) rest s =
    let (p, q) = &&-eq-true (is_solid c) _ s in
    let (a, b) = &&-eq-true (not (c == b' ')) _ p in
    rw (negation_true (c == b'\n') b) (
      rw (first_of-onto_first c (lines (h ++ (b' ' ∷ rest))))
        (rw (negation_true (c == b' ') a) (ap (◌∷◌ c) (first_word-text h rest q))))

hash_file_ok :
    (path content : Bytes) (w : World)
    → w.files path ≡ some content
    → hash_file path w ≡ hash_stream content
unfolding hash_file
hash_file_ok path content w h = rw (h, hash_file) refl

hash_printed :
    (path h : Bytes) (w : World)
    → is_empty h ≡ false
    → (hash_outcome false path h w).printed ≡ h ++ (codes "  " ++ (path ++ codes "\n"))
unfolding hash_outcome
hash_printed path [] w e = absurd (cc e)
hash_printed path (c ∷ h) w e = refl

pub printed_lem :
    (path content : Bytes) (w : World)
    → is_empty path ≡ false
    → w.files path ≡ some content
    → (acx_hash_file_cmd false path w).printed
      ≡ hash_stream content ++ (codes "  " ++ (path ++ codes "\n"))
unfolding acx_hash_file_cmd
printed_lem [] content w n h = absurd (cc n)
printed_lem (c ∷ cs) content w n h =
    ap (λ d. (hash_outcome false (c ∷ cs) d w).printed) (hash_file_ok (c ∷ cs) content w h)
    ∙ hash_printed (c ∷ cs) (hash_stream content) w (hash_ne content)

digest_file_ne : (s : Bytes) → is_digest_file s ≡ true → is_empty s ≡ false
digest_file_ne [] d = absurd (cc d)
digest_file_ne (c ∷ s) d = refl

checksum_goes_on :
    (path h s : Bytes) (w : World)
    → is_empty h ≡ false
    → is_empty s ≡ false
    → checksum_of path h s w ≡ checksum_against path h s w
unfolding checksum_of
checksum_goes_on path [] s w f g = absurd (cc f)
checksum_goes_on path (c ∷ h) [] w f g = absurd (cc g)
checksum_goes_on path (c ∷ h) (d ∷ s) w f g = refl

acx_checksum_cmd_step :
    (path s h : Bytes) (w : World)
    → hash_file path w ≡ h
    → is_empty h ≡ false
    → is_empty s ≡ false
    → acx_checksum_cmd (some path) s w ≡ checksum_against path h s w
unfolding acx_checksum_cmd
acx_checksum_cmd_step path s h w e f g =
    ap (λ d. checksum_of path d s w) e ∙ checksum_goes_on path h s w f g

checksum_reads :
    (path h s content : Bytes) (w : World)
    → is_digest_file s ≡ true
    → w.files s ≡ some content
    → checksum_against path h s w ≡ compare_digest path h (first_word (first_of (lines content))) w
unfolding checksum_against
checksum_reads path h s content w d k = rw (d, checksum_against) (rw k refl)

compare_read :
    (path h expected : Bytes) (w : World)
    → expected ≡ h
    → (compare_digest path h expected w).code ≡ ex_ok
unfolding compare_digest
compare_read path h expected w e = rw e (rw (same_refl (lower h)) refl)

-- A file whose digest stands in another, of which the name ends in ".sha256", as the command that
-- hashes it has printed it without --json, is found to match.
pub acx_checksum_cmd-acx_hash_file_cmd :
    (path s content : Bytes) (w : World)
    → is_empty path ≡ false
    → is_digest_file s ≡ true
    → w.files path ≡ some content
    → w.files s ≡ some (acx_hash_file_cmd false path w).printed
    → (acx_checksum_cmd (some path) s w).code ≡ ex_ok
acx_checksum_cmd-acx_hash_file_cmd path s content w n d h k =
    let hashed = hash_file_ok path content w h in
    let listed = k ∙ ap (λ x. some x) (printed_lem path content w n h) in
    let read =
      first_word-text (hash_stream content) (b' ' ∷ (path ++ codes "\n")) (hash_solid content) in
    ap (λ o. o.code)
      (acx_checksum_cmd_step path s (hash_stream content) w hashed (hash_ne content)
          (digest_file_ne s d)
        ∙ checksum_reads path (hash_stream content) s _ w d listed)
    ∙ compare_read path (hash_stream content) _ w read
