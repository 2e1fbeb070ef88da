-- ===== src/CryptoFile/Frames.antt =====
-- The layouts of src/crypto_file.cpp and their parts.
use acx_contact_cli.Prelude.{
  ℕ, zero, suc, ◌+◌, ◌≡◌, ◌≤◌, refl, ap, ◌∙◌, arith, true, false, some, [], ◌∷◌, ◌++◌, Bytes, same,
  length, length-append, take, drop, ltb, ◌==◌, is_empty,
}
use acx_contact_cli.Sha256.{big_endian}
use acx_contact_cli.World.{World}
use acx_contact_cli.CryptoFile.{
  Library, to_int, key_frame, passphrase_frame, rounds, word_at, decrypt_buffer, decrypt_by_key,
  decrypt_by_passphrase, unseal_into, hex2bin, decryption_key, decryption_passphrase,
}

pub take_part : (n : ℕ) (a r : Bytes) → length a ≡ n → take n (a ++ r) ≡ a
take_part zero [] r h = refl
take_part zero (x ∷ a) r h = absurd (omega (arith, h))
take_part (suc n) [] r h = absurd (omega (arith, h))
take_part (suc n) (x ∷ a) r h = ap (◌∷◌ x) (take_part n a r (omega (arith, h)))

pub drop_part : (m : ℕ) (a r : Bytes) (k : ℕ) → m ≡ length a + k → drop m (a ++ r) ≡ drop k r
drop_part m [] r k h = let e : m ≡ k = omega (arith, h) in ap (λ n. drop n r) e
drop_part zero (x ∷ a) r k h = absurd (omega (arith, h))
drop_part (suc m) (x ∷ a) r k h = drop_part m a r k (omega (arith, h))

not_less : (n m : ℕ) → m ≤ n → ltb n m ≡ false
not_less n m h = ground (arith, h)

module _ (iv tag ct : Bytes) (iv_length : length iv ≡ 12) (tag_length : length tag ≡ 16) where
  key_frame-iv : take 12 (drop 6 (key_frame iv tag ct)) ≡ iv
  key_frame-iv = take_part 12 iv (tag ++ ct) iv_length

  key_frame-tag : take 16 (drop 18 (key_frame iv tag ct)) ≡ tag
  key_frame-tag =
      ap (take 16) (drop_part 12 iv (tag ++ ct) 0 (omega (arith, iv_length)))
      ∙ take_part 16 tag ct tag_length

  key_frame-ct : drop 34 (key_frame iv tag ct) ≡ ct
  key_frame-ct =
      drop_part 28 iv (tag ++ ct) 16 (omega (arith, iv_length))
      ∙ drop_part 16 tag ct 0 (omega (arith, tag_length))

  -- a file by a key goes to that branch, and its parts are those that were written
  pub decrypt_buffer-key_frame :
      (library : Library) (out key_hex : Bytes) (w : World)
      → decrypt_buffer library (key_frame iv tag ct) out key_hex w
        ≡ decrypt_by_key library (key_frame iv tag ct) out key_hex w
  unfolding decrypt_buffer same
  decrypt_buffer-key_frame library out key_hex w =
      rw
        (
          not_less (length (key_frame iv tag ct)) 34 (
              omega
                (arith, length-append iv (tag ++ ct), length-append tag ct, iv_length, tag_length)),
          decrypt_buffer,
        )
        refl

  module _ (salt : Bytes) (salt_length : length salt ≡ 16) where
    frame_length : 54 ≤ length (passphrase_frame salt rounds iv tag ct)
    unfolding big_endian
    frame_length = omega (
      arith,
      length-append salt (big_endian 4 rounds ++ (iv ++ (tag ++ ct))),
      length-append iv (tag ++ ct),
      length-append tag ct,
      salt_length,
      iv_length,
      tag_length,
    )

    past_salt :
        (k m : ℕ)
        → m ≡ 16 + k
        → drop m (salt ++ (big_endian 4 rounds ++ (iv ++ (tag ++ ct))))
          ≡ drop k (big_endian 4 rounds ++ (iv ++ (tag ++ ct)))
    past_salt k m h = drop_part m salt _ k (omega (arith, salt_length, h))

    passphrase_frame-salt : take 16 (drop 6 (passphrase_frame salt rounds iv tag ct)) ≡ salt
    passphrase_frame-salt = take_part 16 salt _ salt_length

    passphrase_frame-rounds : word_at (drop 22 (passphrase_frame salt rounds iv tag ct)) ≡ rounds
    unfolding word_at big_endian
    passphrase_frame-rounds = ap word_at (past_salt 0 16 refl)

    passphrase_frame-iv : take 12 (drop 26 (passphrase_frame salt rounds iv tag ct)) ≡ iv
    unfolding big_endian
    passphrase_frame-iv = ap (take 12) (past_salt 4 20 refl) ∙ take_part 12 iv (tag ++ ct) iv_length

    passphrase_frame-tag : take 16 (drop 38 (passphrase_frame salt rounds iv tag ct)) ≡ tag
    unfolding big_endian
    passphrase_frame-tag =
        ap (take 16)
          (past_salt 16 32 refl ∙ drop_part 12 iv (tag ++ ct) 0 (omega (arith, iv_length)))
        ∙ take_part 16 tag ct tag_length

    passphrase_frame-ct : drop 54 (passphrase_frame salt rounds iv tag ct) ≡ ct
    unfolding big_endian
    passphrase_frame-ct =
        past_salt 32 48 refl
        ∙ drop_part 28 iv (tag ++ ct) 16 (omega (arith, iv_length))
        ∙ drop_part 16 tag ct 0 (omega (arith, tag_length))

    pub decrypt_buffer-passphrase_frame :
        (library : Library) (out key_hex : Bytes) (w : World)
        → decrypt_buffer library (passphrase_frame salt rounds iv tag ct) out key_hex w
          ≡ decrypt_by_passphrase library (passphrase_frame salt rounds iv tag ct) out w
    unfolding decrypt_buffer same
    decrypt_buffer-passphrase_frame library out key_hex w =
        rw
          (
            not_less (length (passphrase_frame salt rounds iv tag ct)) 34
                (omega (arith, frame_length)),
            decrypt_buffer,
          )
          refl

    -- the parts of a file by a passphrase
    pub decrypt_parts :
        (library : Library) (out key pass : Bytes) (w : World)
        → decryption_passphrase w ≡ pass
        → is_empty pass ≡ false
        → library.derive pass (to_int (length pass)) salt (to_int rounds) ≡ some key
        → decrypt_by_passphrase library (passphrase_frame salt rounds iv tag ct) out w
          ≡ unseal_into library out key iv tag ct w
    unfolding decrypt_by_passphrase
    decrypt_parts library out key pass w p n d =
        let derived : library.derive (decryption_passphrase w)
              (to_int (length (decryption_passphrase w)))
              (take 16 (drop 6 (passphrase_frame salt rounds iv tag ct)))
              (to_int (word_at (drop 22 (passphrase_frame salt rounds iv tag ct))))
            ≡ some key =
          (λ i.
            library.derive (p i) (to_int (length (p i))) (passphrase_frame-salt i)
              (to_int (passphrase_frame-rounds i)))
          ∙ d in
        rw (ap is_empty p ∙ n, decrypt_by_passphrase)
          (rw (not_less (length (passphrase_frame salt rounds iv tag ct)) 54 frame_length) (
            rw derived (λ i.
              unseal_into library out key (passphrase_frame-iv i) (passphrase_frame-tag i)
                (passphrase_frame-ct i) w)))

  -- the parts of a file by a key
  pub decrypt_key_parts :
      (library : Library) (out key_hex : Bytes) (w : World)
      → (length (hex2bin library (decryption_key key_hex w)) == 32) ≡ true
      → decrypt_by_key library (key_frame iv tag ct) out key_hex w
        ≡ unseal_into library out (hex2bin library (decryption_key key_hex w)) iv tag ct w
  unfolding decrypt_by_key
  decrypt_key_parts library out key_hex w h =
      rw (h, decrypt_by_key)
        (λ i.
          unseal_into library out (hex2bin library (decryption_key key_hex w)) (key_frame-iv i)
            (key_frame-tag i) (key_frame-ct i) w)
