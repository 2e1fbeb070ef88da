-- ===== src/DiskIndex.antt =====
-- src/disk_index.cpp: the binary index from normalised emails and phones to offsets in the data file,
-- in the byte order of a little-endian machine.
pub mod Search
pub mod RoundTrip
use acx_contact_cli.Prelude.{
  ℕ, zero, suc, ◌+◌, ◌*◌, ◌/◌, ◌%◌, ◌^◌, Bool, true, false, ◌&&◌, ◌||◌, Option, none, some, List,
  [], ◌∷◌, ◌++◌, Bytes, codes, same, before, ltb, ◌==◌, if◌then◌else◌, length, get_elem?, take,
  drop,
}
use acx_contact_cli.Sha256.{sha256_hex}
use acx_contact_cli.Index.{begins}
use acx_contact_cli.World.{Platform, World, read_file, write_stream, write_file_atomic}

abbrev pub Entry : Type 0
Entry = Bytes × ℕ

abbrev pub file : Bytes
file = codes "acx-index2.bin"

abbrev pub meta : Bytes
meta = codes "acx-index2.meta"

-- the bytes of an unsigned integer of the given width, the lowest first
unfoldable pub little_endian : ℕ → ℕ → Bytes
little_endian zero n = []
little_endian (suc k) n = (n % 256) ∷ little_endian k (n / 256)

-- `write_u32`, `write_u64`
abbrev pub write_u32 : ℕ → Bytes
write_u32 = little_endian 4

abbrev pub write_u64 : ℕ → Bytes
write_u64 = little_endian 8

-- `(uint16_t)std::min<size_t>(p.first.size(), 65535)`
unfoldable pub key_length : Bytes → ℕ
key_length key = if ltb 65535 (length key) then 65535 else length key

unfoldable pub entry_bytes : Entry → Bytes
entry_bytes (key, offset) =
    little_endian 2 (key_length key) ++ (take (key_length key) key ++ write_u64 offset)

-- the loop of `write_block`, over the sorted entries
unfoldable pub block_bytes : List Entry → Bytes
block_bytes [] = []
block_bytes (e ∷ es) = entry_bytes e ++ block_bytes es

abbrev pub magic : Bytes
magic = codes "ACXIDX2"

-- the whole file: magic, version, the two counts modulo 2^32, the two blocks
unfoldable pub index_bytes : List Entry → List Entry → Bytes
index_bytes emails phones =
    magic
    ++ (0
        ∷ (write_u32 1
            ++ (write_u32 (length emails)
                ++ (write_u32 (length phones) ++ (block_bytes emails ++ block_bytes phones)))))

-- An unsigned integer of the given width, and the bytes behind it; `none` where the stream ends.
unfoldable pub read_le : ℕ → Bytes → Option (ℕ × Bytes)
read_le zero s = some (0, s)
read_le (suc k) [] = none
read_le (suc k) (c ∷ s) = elim (read_le k s) [
  | some (n, rest) ↦ some (c + 256 * n, rest)
  | none ↦ none
]

-- so many bytes, and those behind them
unfoldable pub read_bytes : ℕ → Bytes → Option (Bytes × Bytes)
read_bytes zero s = some ([], s)
read_bytes (suc k) [] = none
read_bytes (suc k) (c ∷ s) = elim (read_bytes k s) [
  | some (text, rest) ↦ some (c ∷ text, rest)
  | none ↦ none
]

infixl 5 ◌>>=◌
abbrev pub ◌>>=◌ {ℓ κ} : {A : Type ℓ} {B : Type κ} → Option A → (A → Option B) → Option B
some a >>= f = f a
none >>= f = none

-- `load_block`
unfoldable pub load_block : ℕ → Bytes → Option (List Entry × Bytes)
load_block zero s = some ([], s)
load_block (suc n) s = do
  (klen, s1) ← read_le 2 s
  (key, s2) ← read_bytes klen s1
  (offset, s3) ← read_le 8 s2
  (es, rest) ← load_block n s3
  some ((key, offset) ∷ es, rest)

-- `DiskIndex::load`, on the bytes of the file
unfoldable pub load : Bytes → Option (List Entry × List Entry)
load s = do
  (name, s1) ← read_bytes 8 s
  (version, s2) ← (if same (take 7 name) magic then read_le 4 s1 else none)
  (emails, s3) ← read_le 4 s2
  (phones, s4) ← read_le 4 s3
  (es, s5) ← load_block emails s4
  (ps, s6) ← load_block phones s5
  some (es, ps)

-- `while (lo<hi)` of `bsearch_key`, with the rounds left
unfoldable pub bsearch_loop : ℕ → List Entry → Bytes → ℕ → ℕ → Option ℕ
bsearch_loop zero v key lo hi = none
bsearch_loop (suc f) v key lo hi =
    let mid = (lo + hi) / 2 in
    let above = bsearch_loop f v key (mid + 1) hi in
    let below = bsearch_loop f v key lo mid in
    if ltb lo hi
    then elim (get_elem? v mid) [
      | none ↦ none
      | some (k, offset) ↦ if same k key then some offset else if before k key then above else below
    ]
    else none

-- the interval shrinks in each round
unfoldable pub bsearch_key : List Entry → Bytes → Option ℕ
unfolding bsearch_loop same before
bsearch_key v key = bsearch_loop (length v + 1) v key 0 (length v)

module _ (platform : Platform) where
  -- the meta file first, then the index
  unfoldable pub build : Bytes → List Entry → List Entry → World → Bool × World
  unfolding index_bytes block_bytes entry_bytes little_endian key_length
  build data_file emails phones w =
      let (_, w') =
        write_file_atomic platform meta
          (codes "hash=" ++ (sha256_hex (read_file data_file w) ++ b'\n' ∷ [])) w in
      write_stream platform file
        (index_bytes (platform.sort_by_key emails) (platform.sort_by_key phones)) w'

-- the end of a line taken off
unfoldable pub pop_line_end : Bytes → Bytes
pop_line_end [] = []
pop_line_end (c ∷ []) = if c == b'\n' || c == b'\r' then [] else c ∷ []
pop_line_end (c ∷ d ∷ s) = c ∷ pop_line_end (d ∷ s)

unfoldable pub valid_for_data_hash : Bytes → World → Bool
unfolding pop_line_end
valid_for_data_hash digest w = elim (w.files meta) [
  | none ↦ false
  | some m ↦ begins (codes "hash=") m && same (pop_line_end (drop 5 m)) digest
]

-- `lookup_email` and `lookup_phone`
unfoldable pub lookup_email : Bytes → World → Option ℕ
unfolding load load_block read_le read_bytes same bsearch_key
lookup_email key w = do (emails, phones) ← load (read_file file w); bsearch_key emails key

unfoldable pub lookup_phone : Bytes → World → Option ℕ
unfolding load load_block read_le read_bytes same bsearch_key
lookup_phone key w = do (emails, phones) ← load (read_file file w); bsearch_key phones key
