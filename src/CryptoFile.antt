-- ===== src/CryptoFile.antt =====
-- src/crypto_file.cpp, in the build with OpenSSL: files under AES-256-GCM, by a key or a passphrase.
-- What the file calls and no source defines is the record `Library`: std::sscanf, OpenSSL, and
-- `read_file_bin` and `write_file_bin`, which no file of the repository declares.
pub mod Frames
pub mod RoundTrip
use acx_contact_cli.Prelude.{
  ℕ, zero, suc, ◌+◌, ◌-◌, ◌*◌, ◌/◌, ◌%◌, ◌^◌, Bool, true, false, ◌&&◌, Option, none, some, List, [],
  ◌∷◌, ◌++◌, Bytes, codes, same, length, take, drop, is_empty, ltb, ◌==◌, if◌then◌else◌,
}
use acx_contact_cli.Json.Text.{hex_digit}
use acx_contact_cli.Sha256.{big_endian}
use acx_contact_cli.World.{World, read_file}

-- an int
pub data ℤ : Type 0 where
  pos : ℕ → ℤ
  negsuc : ℕ → ℤ

-- `(int)n` of a size or of a sum of shifted bytes
unfoldable pub to_int : ℕ → ℤ
to_int n = let m = n % 2 ^ 32 in if ltb m (2 ^ 31) then pos m else negsuc (2 ^ 32 - 1 - m)

pub record Library : Type 0 where
  -- the number that `sscanf(s, "%02x", &b)` leaves in `b`
  pub scan_hex : Bytes → ℕ
  -- the bytes of the n-th call of RAND_bytes, of a length
  pub rand_bytes : ℕ → ℕ → Bytes
  -- encryption under a key, an initial vector, additional data and a text, the last two with the
  -- length that is passed: the text and the tag, `none` where a call fails
  pub seal : Bytes → Bytes → Bytes → ℤ → Bytes → ℤ → Option (Bytes × Bytes)
  -- decryption of a text with a tag under a key and an initial vector, with no additional data; the
  -- length that is passed stands last
  pub unseal : Bytes → Bytes → Bytes → Bytes → ℤ → Option Bytes
  -- the key of PKCS5_PBKDF2_HMAC for a passphrase and the length that is passed, a salt and a number
  -- of rounds
  pub derive : Bytes → ℤ → Bytes → ℤ → Option Bytes
  pub read_file_bin : Bytes → World → Bytes
  pub write_file_bin : Bytes → Bytes → World → Bool × World

-- the messages in `err`; `overrun` is a read behind the end of the buffer
pub data CryptoError : Type 0 where
  no_key bad_key cipher_failed pbkdf2_failed write_failed : CryptoError
  too_small no_passphrase unknown_magic overrun : CryptoError

-- how the key of an encryption is found
pub data Mode : Type 0 where
  by_key : Bytes → Mode
  by_passphrase : Mode

-- `bin2hex`
unfoldable pub bin2hex : Bytes → Bytes
unfolding hex_digit
bin2hex [] = []
bin2hex (b ∷ bs) = hex_digit (b / 16) ∷ hex_digit (b % 16) ∷ bin2hex bs

-- `getenv_str`
abbrev pub getenv_str : Bytes → World → Bytes
getenv_str k w = elim (w.getenv k) [ some v ↦ v | none ↦ [] ]

-- the choice of `encrypt_file_aes256gcm`
unfoldable pub encryption_mode : Bytes → World → Option Mode
unfolding read_file
encryption_mode (c ∷ cs) w = some (by_key (c ∷ cs))
encryption_mode [] w =
    if is_empty (getenv_str (codes "ACX_ENC_KEY") w)
    then (if is_empty (getenv_str (codes "ACX_ENC_KEY_FILE") w)
        then (if is_empty (getenv_str (codes "ACX_ENC_PASSPHRASE") w)
            then (if is_empty (getenv_str (codes "ACX_ENC_PASSPHRASE_FILE") w)
                then none
                else some by_passphrase)
            else some by_passphrase)
        else some (by_key (read_file (getenv_str (codes "ACX_ENC_KEY_FILE") w) w)))
    else some (by_key (getenv_str (codes "ACX_ENC_KEY") w))

-- the key of `decrypt_file_aes256gcm`
unfoldable pub decryption_key : Bytes → World → Bytes
unfolding read_file
decryption_key (c ∷ cs) w = c ∷ cs
decryption_key [] w =
    if is_empty (getenv_str (codes "ACX_ENC_KEY") w)
    then (if is_empty (getenv_str (codes "ACX_ENC_KEY_FILE") w)
        then []
        else read_file (getenv_str (codes "ACX_ENC_KEY_FILE") w) w)
    else getenv_str (codes "ACX_ENC_KEY") w

-- the passphrase, of an encryption; that of a decryption does not read a file without a name
unfoldable pub passphrase : World → Bytes
unfolding read_file
passphrase w =
    if is_empty (getenv_str (codes "ACX_ENC_PASSPHRASE") w)
    then read_file (getenv_str (codes "ACX_ENC_PASSPHRASE_FILE") w) w
    else getenv_str (codes "ACX_ENC_PASSPHRASE") w

unfoldable pub decryption_passphrase : World → Bytes
unfolding passphrase
decryption_passphrase w =
    if is_empty (getenv_str (codes "ACX_ENC_PASSPHRASE") w)
      && is_empty (getenv_str (codes "ACX_ENC_PASSPHRASE_FILE") w)
    then []
    else passphrase w

-- the two layouts of a file
abbrev pub key_frame : Bytes → Bytes → Bytes → Bytes
key_frame iv tag ct = codes "ACXEG1" ++ (iv ++ (tag ++ ct))

abbrev pub passphrase_frame : Bytes → ℕ → Bytes → Bytes → Bytes → Bytes
passphrase_frame salt iters iv tag ct =
    codes "ACXEG2" ++ (salt ++ (big_endian 4 iters ++ (iv ++ (tag ++ ct))))

abbrev pub rounds : ℕ
rounds = 200000

-- the number in the first four bytes
unfoldable pub word_at : Bytes → ℕ
word_at (a ∷ b ∷ c ∷ d ∷ s) = a * 2 ^ 24 + (b * 2 ^ 16 + (c * 2 ^ 8 + d))
word_at _ = 0

-- `if (!write_file_bin(…)) err="write failed"; else ok=true;`
abbrev pub written_or : Bool × World → Option CryptoError × World
written_or (true, w) = (none, w)
written_or (false, w) = (some write_failed, w)

module _ (library : Library) where
  -- `hex2bin`; an odd last byte is left out
  unfoldable pub hex2bin : Bytes → Bytes
  hex2bin (a ∷ b ∷ s) = library.scan_hex (a ∷ b ∷ []) % 256 ∷ hex2bin s
  hex2bin _ = []

  unfoldable pub random_key_hex : ℕ → World → Bytes × World
  unfolding bin2hex
  random_key_hex n w = (bin2hex (library.rand_bytes w.draws n), record w { draws = w.draws + 1 })

  -- the encryption of a text under a key, laid out and written
  unfoldable pub seal_into :
      Bytes
      → (Bytes → Bytes → Bytes)
      → Bytes
      → Bytes
      → Bytes
      → Bytes
      → World
      → Option CryptoError × World
  unfolding to_int
  seal_into out frame key iv aad pt w =
      elim (library.seal key iv aad (to_int (length aad)) pt (to_int (length pt))) [
        | none ↦ (some cipher_failed, w)
        | some (ct, tag) ↦ written_or (library.write_file_bin out (frame tag ct) w)
      ]

  -- the branch of a key
  unfoldable pub encrypt_by_key :
      Bytes → Bytes → Bytes → Bytes → Bytes → World → Option CryptoError × World
  unfolding seal_into hex2bin
  encrypt_by_key key_hex out aad iv pt w =
      if length (hex2bin key_hex) == 32
      then seal_into out (key_frame iv) (hex2bin key_hex) iv aad pt w
      else (some bad_key, w)

  -- the branch of a passphrase
  unfoldable pub encrypt_by_passphrase :
      Bytes → Bytes → Bytes → Bytes → World → Option CryptoError × World
  unfolding seal_into passphrase big_endian to_int
  encrypt_by_passphrase out aad iv pt w =
      let salt = library.rand_bytes w.draws 16 in
      let w' = record w { draws = w.draws + 1 } in
      elim (library.derive (passphrase w) (to_int (length (passphrase w))) salt (to_int rounds)) [
        | none ↦ (some pbkdf2_failed, w')
        | some key ↦ seal_into out (passphrase_frame salt rounds iv) key iv aad pt w'
      ]

  abbrev pub encrypt_with : Option Mode → Bytes → Bytes → Bytes → World → Option CryptoError × World
  encrypt_with none input out aad w = (some no_key, w)
  encrypt_with (some (by_key key_hex)) input out aad w =
      encrypt_by_key key_hex out aad (library.rand_bytes w.draws 12) (library.read_file_bin input w)
        (record w { draws = w.draws + 1 })
  encrypt_with (some by_passphrase) input out aad w =
      encrypt_by_passphrase out aad (library.rand_bytes w.draws 12) (library.read_file_bin input w)
        (record w { draws = w.draws + 1 })

  unfoldable pub encrypt_file_aes256gcm :
      Bytes → Bytes → Bytes → Bytes → World → Option CryptoError × World
  unfolding encryption_mode encrypt_by_key encrypt_by_passphrase
  encrypt_file_aes256gcm input out key_hex aad w =
      encrypt_with (encryption_mode key_hex w) input out aad w

  unfoldable pub unseal_into :
      Bytes → Bytes → Bytes → Bytes → Bytes → World → Option CryptoError × World
  unfolding to_int
  unseal_into out key iv tag ct w = elim (library.unseal key iv tag ct (to_int (length ct))) [
    | none ↦ (some cipher_failed, w)
    | some pt ↦ written_or (library.write_file_bin out pt w)
  ]

  -- the branch of "ACXEG1"
  unfoldable pub decrypt_by_key : Bytes → Bytes → Bytes → World → Option CryptoError × World
  unfolding unseal_into decryption_key hex2bin
  decrypt_by_key buf out key_hex w =
      let key = hex2bin (decryption_key key_hex w) in
      if length key == 32
      then unseal_into out key (take 12 (drop 6 buf)) (take 16 (drop 18 buf)) (drop 34 buf) w
      else (some bad_key, w)

  -- the branch of "ACXEG2", whose header is 54 bytes long; the sources test for 34
  unfoldable pub decrypt_by_passphrase : Bytes → Bytes → World → Option CryptoError × World
  unfolding unseal_into decryption_passphrase word_at to_int
  decrypt_by_passphrase buf out w =
      if is_empty (decryption_passphrase w)
      then (some no_passphrase, w)
      else if ltb (length buf) 54
      then (some overrun, w)
      else elim (library.derive (decryption_passphrase w)
          (to_int (length (decryption_passphrase w))) (take 16 (drop 6 buf))
          (to_int (word_at (drop 22 buf)))) [
            | none ↦ (some pbkdf2_failed, w)
            | some key ↦
                unseal_into out key (take 12 (drop 26 buf)) (take 16 (drop 38 buf)) (drop 54 buf) w
          ]

  unfoldable pub decrypt_buffer : Bytes → Bytes → Bytes → World → Option CryptoError × World
  unfolding decrypt_by_key decrypt_by_passphrase same
  decrypt_buffer buf out key_hex w =
      if ltb (length buf) 34
      then (some too_small, w)
      else if same (take 6 buf) (codes "ACXEG1")
      then decrypt_by_key buf out key_hex w
      else if same (take 6 buf) (codes "ACXEG2")
      then decrypt_by_passphrase buf out w
      else (some unknown_magic, w)

  unfoldable pub decrypt_file_aes256gcm : Bytes → Bytes → Bytes → World → Option CryptoError × World
  unfolding decrypt_buffer
  decrypt_file_aes256gcm input out key_hex w =
      decrypt_buffer (library.read_file_bin input w) out key_hex w
