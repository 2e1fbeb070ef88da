-- ===== src/CryptoFile/RoundTrip.antt =====
-- Encryption and decryption of src/crypto_file.cpp, one behind the other.
use acx_contact_cli.Prelude.{
  ℕ, ◌+◌, ◌%◌, ◌^◌, ◌≤◌, ◌<◌, ◌≡◌, ◌≢◌, arith, ltb, take, refl, ap, ◌∙◌, sym, Bool, true, false,
  Option, none, some, [], ◌∷◌, Bytes, length, is_empty, ◌==◌, Bool-cases, Option-cases, inl, inr,
}
use acx_contact_cli.World.{World}
use acx_contact_cli.CryptoFile.{
  Library, ℤ, pos, to_int, CryptoError, cipher_failed, bad_key, pbkdf2_failed, by_passphrase,
  key_frame, passphrase_frame, rounds, written_or, seal_into, unseal_into, hex2bin, decryption_key,
  decryption_passphrase, passphrase, encryption_mode, encrypt_by_key, encrypt_by_passphrase,
  encrypt_with, encrypt_file_aes256gcm, decrypt_file_aes256gcm, decrypt_buffer,
}
use acx_contact_cli.CryptoFile.Frames.{
  decrypt_buffer-key_frame, decrypt_key_parts, decrypt_buffer-passphrase_frame, decrypt_parts,
}

-- what is documented of the calls: a tag of 16 bytes, as many bytes of text encrypted as are passed,
-- decryption with the same key, vector and tag and no additional data, random bytes as many as asked
-- for, and a file that is read as it was written
pub record IsSound (library : Library) : Type 0 where
  pub rand_length : (i n : ℕ) → length (library.rand_bytes i n) ≡ n
  pub tag_length :
      (key iv aad pt ct tag : Bytes) (a n : ℤ)
      → library.seal key iv aad a pt n ≡ some (ct, tag)
      → length tag ≡ 16
  pub ct_length :
      (key iv aad pt ct tag : Bytes) (a : ℤ) (n : ℕ)
      → n ≤ length pt
      → library.seal key iv aad a pt (pos n) ≡ some (ct, tag)
      → length ct ≡ n
  pub opens :
      (key iv pt ct tag : Bytes) (n : ℕ)
      → n ≤ length pt
      → library.seal key iv [] (pos 0) pt (pos n) ≡ some (ct, tag)
      → library.unseal key iv tag ct (pos n) ≡ some (take n pt)
  pub stored :
      (out content : Bytes) (w w' : World)
      → library.write_file_bin out content w ≡ (true, w')
      → library.read_file_bin out w' ≡ content

to_int_small : (n : ℕ) → n < 2 ^ 31 → to_int n ≡ pos n
unfolding to_int
to_int_small n h =
    let e : n % 2 ^ 32 ≡ n = omega (arith, h) in
    rw e (let b : ltb n (2 ^ 31) ≡ true = ground (arith, h) in rw b refl)

take_all : (s : Bytes) → take (length s) s ≡ s
take_all [] = refl
take_all (c ∷ s) = ap (◌∷◌ c) (take_all s)

module _ (library : Library) where
  written_ok : (r : Bool × World) (w' : World) → written_or r ≡ (none, w') → r ≡ (true, w')
  written_ok (true, w) w' h = λ i. (true, (h i).1)
  written_ok (false, w) w' h = absurd (cc (ap (λ (x : Option CryptoError × World). x.0) h))

  failed :
      (e : CryptoError) (w w' : World) → ◌≢◌ {A = Option CryptoError × World} (some e, w) (none, w')
  failed e w w' h = cc (ap (λ (x : Option CryptoError × World). x.0) h)

  sealed_at :
      (out : Bytes) (frame : Bytes → Bytes → Bytes) (w w' : World) (o : Option (Bytes × Bytes))
      → ◌≡◌ {A = Option CryptoError × World}
          (elim o [
            | none ↦ (some cipher_failed, w)
            | some (ct, tag) ↦ written_or (library.write_file_bin out (frame tag ct) w)
          ])
          (none, w')
      → (ct : Bytes) × (tag : Bytes) × (o ≡ some (ct, tag))
        × (library.write_file_bin out (frame tag ct) w ≡ (true, w'))
  sealed_at out frame w w' none h = absurd (failed cipher_failed w w' h)
  sealed_at out frame w w' (some (ct, tag)) h = (ct, tag, refl, written_ok _ w' h)

  -- a success comes from a text, a tag and a write that succeeded
  sealed :
      (out : Bytes) (frame : Bytes → Bytes → Bytes) (key iv aad pt : Bytes) (w w' : World)
      → seal_into library out frame key iv aad pt w ≡ (none, w')
      → (ct : Bytes) × (tag : Bytes) × (library.seal key iv aad
            (to_int (length aad))
            pt
            (to_int (length pt))
          ≡ some (ct, tag))
        × (library.write_file_bin out (frame tag ct) w ≡ (true, w'))
  unfolding seal_into
  sealed out frame key iv aad pt w w' h =
      sealed_at out frame w w'
        (library.seal key iv aad (to_int (length aad)) pt (to_int (length pt))) h

  unsealed :
      (dest key iv tag ct pt : Bytes) (w : World)
      → library.unseal key iv tag ct (to_int (length ct)) ≡ some pt
      → unseal_into library dest key iv tag ct w ≡ written_or (library.write_file_bin dest pt w)
  unfolding unseal_into
  unsealed dest key iv tag ct pt w h = rw (h, unseal_into) refl

  module _ (sound : IsSound library) where
    -- a text that a size of the type int measures is opened
    opened :
        (key iv pt ct tag : Bytes)
        → length pt < 2 ^ 31
        → library.seal key iv [] (to_int 0) pt (to_int (length pt)) ≡ some (ct, tag)
        → library.unseal key iv tag ct (to_int (length ct)) ≡ some pt
    opened key iv pt ct tag l s =
        let s' : library.seal key iv [] (pos 0) pt (pos (length pt)) ≡ some (ct, tag) =
          (λ i.
            library.seal key iv [] (sym (to_int_small 0 (omega arith)) i) pt
              (sym (to_int_small (length pt) l) i))
          ∙ s in
        let same_length =
          sound.ct_length key iv [] pt ct tag (pos 0) (length pt) (omega arith) s' in
        (λ i. library.unseal key iv tag ct ((ap to_int same_length ∙ to_int_small (length pt) l) i))
        ∙ sound.opens key iv pt ct tag (length pt) (omega arith) s'
        ∙ ap some (take_all pt)

    -- what is left when the branch of a key succeeds
    key_back :
        (out dest key_hex iv pt : Bytes) (w w' v : World)
        → length iv ≡ 12
        → length pt < 2 ^ 31
        → (length (hex2bin library (decryption_key key_hex w')) == 32) ≡ true
        → decryption_key key_hex w' ≡ decryption_key key_hex v
        → seal_into library out
            (key_frame iv)
            (hex2bin library (decryption_key key_hex v))
            iv
            []
            pt
            w
          ≡ (none, w')
        → decrypt_buffer library (library.read_file_bin out w') dest key_hex w'
          ≡ written_or (library.write_file_bin dest pt w')
    key_back out dest key_hex iv pt w w' v l z e k h =
        let (ct, tag, s, wr) = sealed out (key_frame iv) _ iv [] pt w w' h in
        let tagged = sound.tag_length _ iv [] pt ct tag _ _ s in
        ap (λ b. decrypt_buffer library b dest key_hex w') (sound.stored out _ w w' wr)
        ∙ decrypt_buffer-key_frame iv tag ct l tagged library dest key_hex w'
        ∙ decrypt_key_parts iv tag ct l tagged library dest key_hex w' e
        ∙ ap (λ x. unseal_into library dest (hex2bin library x) iv tag ct w') k
        ∙ unsealed dest _ iv tag ct pt w' (opened _ iv pt ct tag z s)

    -- With a library as `IsSound` documents it, a file of fewer than 2^31 bytes that is encrypted under a
    -- key given on the call, with no additional data, is decrypted under that key to what was read for
    -- the encryption.
    pub decrypt-encrypt_by_key :
        (input out dest key_hex : Bytes) (w w' : World)
        → is_empty key_hex ≡ false
        → length (library.read_file_bin input w) < 2 ^ 31
        → encrypt_file_aes256gcm library input out key_hex [] w ≡ (none, w')
        → decrypt_file_aes256gcm library out dest key_hex w'
          ≡ written_or (library.write_file_bin dest (library.read_file_bin input w) w')
    unfolding encrypt_file_aes256gcm decrypt_file_aes256gcm
    decrypt-encrypt_by_key input out dest [] w w' n z h = absurd (cc n)
    decrypt-encrypt_by_key input out dest (c ∷ cs) w w' n z h =
        elim (Bool-cases (length (hex2bin library (c ∷ cs)) == 32)) [
          | inr e ↦ absurd (
              failed bad_key (record w { draws = w.draws + 1 }) w'
                (sym (rw (e, encrypt_by_key) refl) ∙ h))
          | inl e ↦
              key_back out dest (c ∷ cs) (library.rand_bytes w.draws 12)
                (library.read_file_bin input w) (record w { draws = w.draws + 1 }) w' w
                (sound.rand_length w.draws 12) z e refl (sym (rw (e, encrypt_by_key) refl) ∙ h)
        ]

    -- what is left when the branch of a passphrase succeeds
    passphrase_back :
        (out dest key salt iv pt pass : Bytes) (w w' : World)
        → length salt ≡ 16
        → length iv ≡ 12
        → length pt < 2 ^ 31
        → decryption_passphrase w' ≡ pass
        → is_empty pass ≡ false
        → library.derive pass (to_int (length pass)) salt (to_int rounds) ≡ some key
        → seal_into library out (passphrase_frame salt rounds iv) key iv [] pt w ≡ (none, w')
        → decrypt_buffer library (library.read_file_bin out w') dest [] w'
          ≡ written_or (library.write_file_bin dest pt w')
    passphrase_back out dest key salt iv pt pass w w' k l z p n d h =
        let (ct, tag, s, wr) = sealed out (passphrase_frame salt rounds iv) key iv [] pt w w' h in
        let tagged = sound.tag_length key iv [] pt ct tag _ _ s in
        ap (λ b. decrypt_buffer library b dest [] w') (sound.stored out _ w w' wr)
        ∙ decrypt_buffer-passphrase_frame iv tag ct l tagged salt k library dest [] w'
        ∙ decrypt_parts iv tag ct l tagged salt k library dest key pass w' p n d
        ∙ unsealed dest key iv tag ct pt w' (opened key iv pt ct tag z s)

    from_passphrase :
        (out dest iv pt : Bytes) (w w' : World)
        → length iv ≡ 12
        → length pt < 2 ^ 31
        → decryption_passphrase w' ≡ passphrase w
        → is_empty (passphrase w) ≡ false
        → encrypt_by_passphrase library out [] iv pt w ≡ (none, w')
        → decrypt_buffer library (library.read_file_bin out w') dest [] w'
          ≡ written_or (library.write_file_bin dest pt w')
    unfolding encrypt_by_passphrase
    from_passphrase out dest iv pt w w' l z p n h =
        elim (Option-cases (
          library.derive (passphrase w) (to_int (length (passphrase w)))
            (library.rand_bytes w.draws 16) (to_int rounds))) [
              | inl e ↦ absurd (
                  failed pbkdf2_failed (record w { draws = w.draws + 1 }) w'
                    (sym (rw (e, encrypt_by_passphrase) refl) ∙ h))
              | inr (key, e) ↦
                  passphrase_back out dest key (library.rand_bytes w.draws 16) iv pt (passphrase w)
                    (record w { draws = w.draws + 1 }) w' (sound.rand_length w.draws 16) l z p n e
                    (sym (rw (e, encrypt_by_passphrase) refl) ∙ h)
            ]

    -- With a library as `IsSound` documents it, a file of fewer than 2^31 bytes that is encrypted by a
    -- passphrase, with no additional data, is decrypted to what was read for the encryption,
    -- where the passphrase is not empty and is found again.
    pub decrypt-encrypt_by_passphrase :
        (input out dest : Bytes) (w w' : World)
        → length (library.read_file_bin input w) < 2 ^ 31
        → encryption_mode [] w ≡ some by_passphrase
        → is_empty (passphrase w) ≡ false
        → decryption_passphrase w' ≡ passphrase w
        → encrypt_file_aes256gcm library input out [] [] w ≡ (none, w')
        → decrypt_file_aes256gcm library out dest [] w'
          ≡ written_or (library.write_file_bin dest (library.read_file_bin input w) w')
    unfolding encrypt_file_aes256gcm decrypt_file_aes256gcm
    decrypt-encrypt_by_passphrase input out dest w w' z m n p h =
        let h' = ap (λ o. encrypt_with library o input out [] w) (sym m) ∙ h in
        from_passphrase out dest (library.rand_bytes w.draws 12) (library.read_file_bin input w)
          (record w { draws = w.draws + 1 }) w' (sound.rand_length w.draws 12) z
          (unfold passphrase in p) (unfold passphrase in n) h'
