-- ===== src/Tests/Crypto.antt =====
-- File encryption at concrete inputs, with a cipher that adds one to each byte.
use acx_contact_cli.Prelude.{
  ℕ, zero, suc, ◌+◌, ◌-◌, ◌≤◌, take, arith, ◌≡◌, refl, ap, ◌∙◌, sym, Bool, true, Option, none, some,
  [], ◌∷◌, Bytes, codes, same, same_refl, replicate, length, if◌then◌else◌,
}
use acx_contact_cli.Pool.Laws.{some_inj}
use acx_contact_cli.World.{World, read_file, write_stream}
use acx_contact_cli.CryptoFile.{
  Library, ℤ, pos, negsuc, encrypt_file_aes256gcm, decrypt_file_aes256gcm, written_or, passphrase,
  decryption_passphrase, encryption_mode,
}
use acx_contact_cli.CryptoFile.RoundTrip.{
  IsSound, decrypt-encrypt_by_key, decrypt-encrypt_by_passphrase,
}
use acx_contact_cli.Tests.Setting.{demo, day}

abbrev up : Bytes → Bytes
up [] = []
up (c ∷ s) = (c + 1) ∷ up s

abbrev down : Bytes → Bytes
down [] = []
down (c ∷ s) = (c - 1) ∷ down s

-- a call that is given a length
abbrev given : {A : Type 0} → ℤ → (ℕ → A) → Option A
given (pos k) f = some (f k)
given (negsuc k) f = none

abbrev toy : Library
toy = record {
  scan_hex = λ s. 0;
  rand_bytes = λ i n. replicate n i;
  seal = λ key iv aad a pt n. given n (λ k. (up (take k pt), replicate 16 7));
  unseal = λ key iv tag ct n. given n (λ k. down (take k ct));
  derive = λ pass n salt iters. some (replicate 32 0);
  read_file_bin = read_file;
  write_file_bin = write_stream demo;
}

length-replicate : (i n : ℕ) → length (replicate n i) ≡ n
length-replicate i zero = refl
length-replicate i (suc n) = omega (arith, length-replicate i n)

toy_stored :
    (out content : Bytes) (w w' : World)
    → write_stream demo out content w ≡ (true, w')
    → read_file out w' ≡ content
unfolding write_stream read_file
toy_stored out content w w' h =
    ap (read_file out) (sym (ap (λ (r : Bool × World). r.1) h)) ∙ ground (arith, same_refl out)

first : (a b : Bytes) {x y : Bytes} → ◌≡◌ {A = Bytes × Bytes} (a, x) (b, y) → a ≡ b
first a b h = ap (λ (r : Bytes × Bytes). r.0) h

second : (x y : Bytes) {a b : Bytes} → ◌≡◌ {A = Bytes × Bytes} (a, x) (b, y) → x ≡ y
second x y h = ap (λ (r : Bytes × Bytes). r.1) h

length-up-take : (n : ℕ) (s : Bytes) → n ≤ length s → length (up (take n s)) ≡ n
length-up-take zero [] h = refl
length-up-take zero (c ∷ s) h = refl
length-up-take (suc n) [] h = absurd (omega (arith, h))
length-up-take (suc n) (c ∷ s) h = ap suc (length-up-take n s (omega (arith, h)))

down-take-up : (n : ℕ) (s : Bytes) → down (take n (up (take n s))) ≡ take n s
down-take-up zero [] = refl
down-take-up zero (c ∷ s) = refl
down-take-up (suc n) [] = refl
down-take-up (suc n) (c ∷ s) =
    let e : (c + 1) - 1 ≡ c = omega arith in λ i. e i ∷ down-take-up n s i

toy_tag :
    (pt ct tag : Bytes) (n : ℤ)
    → given {A = Bytes × Bytes} n (λ k. (up (take k pt), replicate 16 7)) ≡ some (ct, tag)
    → length tag ≡ 16
toy_tag pt ct tag (pos k) h = sym (ap length (second (replicate 16 7) tag (some_inj h)))
toy_tag pt ct tag (negsuc k) h = absurd (cc h)

toy-IsSound : IsSound toy
toy-IsSound = record {
  rand_length = length-replicate;
  tag_length = λ key iv aad pt ct tag a n h. toy_tag pt ct tag n h;
  ct_length = λ key iv aad pt ct tag a n l h.
      sym (ap length (first (up (take n pt)) ct (some_inj h))) ∙ length-up-take n pt l;
  opens = λ key iv pt ct tag n l h.
      sym (ap (λ c. some (down (take n c))) (first (up (take n pt)) ct (some_inj h)))
      ∙ ap some (down-take-up n pt);
  stored = toy_stored;
}

abbrev toy_key : Bytes
toy_key = replicate 64 b'0'

abbrev toy_files : World
toy_files = record day {
  files = λ p. if same p (codes "plain") then some (codes "text") else none;
  getenv = λ k. if same k (codes "ACX_ENC_PASSPHRASE") then some (codes "secret") else none;
}

-- what an encryption succeeds with
abbrev by_key_world : World
by_key_world = (encrypt_file_aes256gcm toy (codes "plain") (codes "sealed") toy_key [] toy_files).1

abbrev by_passphrase_world : World
by_passphrase_world =
    (encrypt_file_aes256gcm toy (codes "plain") (codes "sealed") [] [] toy_files).1

by_key_ok :
    encrypt_file_aes256gcm toy (codes "plain") (codes "sealed") toy_key [] toy_files
    ≡ (none, by_key_world)
unfolding encrypt_file_aes256gcm write_stream same
by_key_ok = refl

by_passphrase_ok :
    encrypt_file_aes256gcm toy (codes "plain") (codes "sealed") [] [] toy_files
    ≡ (none, by_passphrase_world)
unfolding encrypt_file_aes256gcm same write_stream
by_passphrase_ok = refl

decrypt-encrypt_by_key_example :
    decrypt_file_aes256gcm toy (codes "sealed") (codes "again") toy_key by_key_world
    ≡ written_or (
        toy.write_file_bin
          (codes "again")
          (toy.read_file_bin (codes "plain") toy_files)
          by_key_world)
decrypt-encrypt_by_key_example =
    decrypt-encrypt_by_key toy toy-IsSound (codes "plain") (codes "sealed") (codes "again") toy_key
      toy_files by_key_world refl (unfold read_file same in omega arith) by_key_ok

decrypt-encrypt_by_passphrase_example :
    decrypt_file_aes256gcm toy (codes "sealed") (codes "again") [] by_passphrase_world
    ≡ written_or (
        toy.write_file_bin
          (codes "again")
          (toy.read_file_bin (codes "plain") toy_files)
          by_passphrase_world)
decrypt-encrypt_by_passphrase_example =
    decrypt-encrypt_by_passphrase toy toy-IsSound (codes "plain") (codes "sealed") (codes "again")
      toy_files by_passphrase_world (unfold read_file same in omega arith)
      (unfold encryption_mode same in refl) (unfold passphrase same in refl)
      (unfold decryption_passphrase passphrase encrypt_file_aes256gcm same write_stream in refl)
      by_passphrase_ok
