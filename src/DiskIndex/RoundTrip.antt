-- ===== src/DiskIndex/RoundTrip.antt =====
-- src/disk_index.cpp: `load` reads back what `build` writes.
use acx_contact_cli.Prelude.{
  ℕ, zero, suc, ◌/◌, ◌^◌, ◌≤◌, ◌<◌, ◌≡◌, refl, ap, ◌∙◌, some, List, [], ◌∷◌, ◌++◌, arith, Bytes,
  same, length, take, append_assoc, append-nil, sym,
}
use native.Mathlib.Nat.{pow-suc}
use acx_contact_cli.DiskIndex.{
  Entry, little_endian, read_le, read_bytes, key_length, entry_bytes, block_bytes, load_block,
  index_bytes, load, write_u32, write_u64,
}

read_le-little_endian :
    (k n : ℕ) (r : Bytes) → n < 256 ^ k → read_le k (little_endian k n ++ r) ≡ some (n, r)
unfolding read_le little_endian
read_le-little_endian zero n r h = let e : n ≡ 0 = omega arith in rw e
read_le-little_endian (suc k) n r h =
    rw (read_le-little_endian k (n / 256) r (let p = rw pow-suc at h in omega arith))
      (ap (λ x. some (x, r)) (omega arith))

read_bytes-append : (s r : Bytes) → read_bytes (length s) (s ++ r) ≡ some (s, r)
unfolding read_bytes
read_bytes-append [] r = refl
read_bytes-append (c ∷ s) r = rw (read_bytes-append s r)

take-length : (s : Bytes) → take (length s) s ≡ s
take-length [] = refl
take-length (c ∷ s) = ap (◌∷◌ c) (take-length s)

-- Entries that the format can hold: keys of at most 65535 bytes, offsets below 2^64.
abbrev pub AllFit : List Entry → Type 0
AllFit [] = Unit
AllFit (e ∷ es) = (length e.0 ≤ 65535) × (e.1 < 2 ^ 64) × AllFit es

key_length_short : (key : Bytes) → length key ≤ 65535 → key_length key ≡ length key
unfolding key_length
key_length_short key h = ground arith

entry_ok :
    (key : Bytes) (offset : ℕ) (n : ℕ) (t r : Bytes) (es : List Entry)
    → length key ≤ 65535
    → offset < 2 ^ 64
    → load_block n t ≡ some (es, r)
    → load_block (suc n) (entry_bytes (key, offset) ++ t) ≡ some ((key, offset) ∷ es, r)
unfolding load_block entry_bytes
entry_ok key offset n t r es h k q =
    rw (append_assoc, append_assoc, key_length_short key h, take-length key)
      (rw
        (
          read_le-little_endian 2 (length key) _ (omega arith),
          read_bytes-append key (write_u64 offset ++ t),
          read_le-little_endian 8 offset t (omega arith),
          q,
        )
        refl)

load_block-block_bytes :
    (es : List Entry) (r : Bytes)
    → AllFit es
    → load_block (length es) (block_bytes es ++ r) ≡ some (es, r)
unfolding block_bytes
load_block-block_bytes [] r f = unfold load_block in refl
load_block-block_bytes ((key, offset) ∷ es) r f =
    ap (load_block (suc (length es))) (append_assoc (entry_bytes (key, offset)) (block_bytes es) r)
    ∙ entry_ok key offset (length es) (block_bytes es ++ r) r es f.0 f.1
        (load_block-block_bytes es r f.2)

-- Loading the bytes of an index gives both lists of entries back, in order, where there are fewer
-- than 2^32 of each, keys have at most 65535 bytes and offsets are below 2^64.
pub load-index_bytes :
    (emails phones : List Entry)
    → length emails < 2 ^ 32
    → length phones < 2 ^ 32
    → AllFit emails
    → AllFit phones
    → load (index_bytes emails phones) ≡ some (emails, phones)
unfolding load index_bytes read_bytes same
load-index_bytes emails phones h k e p =
    rw
      (read_le-little_endian 4 1
        (write_u32 (length emails)
          ++ (write_u32 (length phones) ++ (block_bytes emails ++ block_bytes phones)))
        (omega arith))
      (rw
        (read_le-little_endian 4 (length emails)
          (write_u32 (length phones) ++ (block_bytes emails ++ block_bytes phones)) (omega arith))
        (rw
          (read_le-little_endian 4 (length phones) (block_bytes emails ++ block_bytes phones)
            (omega arith))
          (rw (load_block-block_bytes emails (block_bytes phones) e) (rw (last_block) refl))))
  where
    last_block : load_block (length phones) (block_bytes phones) ≡ some (phones, [])
    last_block =
        ap (load_block (length phones)) (sym (append-nil (block_bytes phones)))
        ∙ load_block-block_bytes phones [] p
