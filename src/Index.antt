-- ===== src/Index.antt =====
-- src/index.cpp: the text file that keeps the two tables of a book between runs, under the digest of
-- the data file that they belong to.
use acx_contact_cli.Prelude.{
  ℕ, zero, suc, ◌+◌, ◌/◌, ◌%◌, Bool, true, false, ◌&&◌, Option, none, some, List, [], ◌∷◌, ◌++◌,
  Bytes, codes, same, ltb, ◌==◌, if◌then◌else◌, length, take, drop,
}
use acx_contact_cli.Validation.{to_lower_ascii, normalize_phone}
use acx_contact_cli.Utils.{lines}
use acx_contact_cli.Table.{Table, put}
use acx_contact_cli.Model.{Contact, ContactBook}
use acx_contact_cli.Sha256.{sha256_hex}
use acx_contact_cli.World.{Platform, World, read_file, write_file_atomic}

-- `o << n` for a size_t, with at most as many digits as the fuel says
unfoldable pub decimal_onto : ℕ → ℕ → Bytes → Bytes
decimal_onto zero n out = out
decimal_onto (suc f) n out =
    let more = decimal_onto f (n / 10) ((b'0' + n % 10) ∷ out) in
    if ltb n 10 then (b'0' + n) ∷ out else more

-- a size_t has at most 20 digits
abbrev pub decimal : ℕ → Bytes
decimal n = decimal_onto 20 n []

abbrev pub index_file : Bytes
index_file = codes "acx-index.json"

-- one of the two loops over a table
unfoldable pub table_text : Bytes → Table → Bytes
unfolding decimal_onto
table_text prefix [] = []
table_text prefix ((k, i) ∷ t) =
    prefix ++ (k ++ (b'=' ∷ (decimal i ++ (b'\n' ∷ table_text prefix t))))

unfoldable pub index_text : Bytes → ContactBook → Bytes
unfolding table_text
index_text digest book =
    codes "hash="
    ++ (digest
        ++ (b'\n'
            ∷ (table_text (codes "email:") book.email_to_i
                ++ table_text (codes "phone:") book.phone_to_i)))

-- `line.rfind(p,0)==0`
abbrev pub begins : Bytes → Bytes → Bool
begins p line = same (take (length p) line) p

-- the bytes in front of the first '=' and those behind it
unfoldable pub cut_eq : Bytes → Option (Bytes × Bytes)
cut_eq [] = none
cut_eq (c ∷ s) =
    let rest = cut_eq s in
    if c == b'=' then some ([], s) else elim rest [ some (k, v) ↦ some (c ∷ k, v) | none ↦ none ]

module _ (platform : Platform) where
  unfoldable pub save_index : Bytes → ContactBook → World → Bool × World
  unfolding index_text
  save_index data_file book w =
      write_file_atomic platform index_file (index_text (sha256_hex (read_file data_file w)) book) w

  -- the two tables from the contacts, later contacts over earlier ones
  unfoldable pub reindex : World → ℕ → List Contact → Table × Table → Table × Table
  reindex w i [] tables = tables
  reindex w i (c ∷ cs) (emails, phones) = reindex w (i + 1) cs (
    put (to_lower_ascii c.email) i emails,
    put (normalize_phone platform.phone_library w.getenv c.phone) i phones,
  )

  -- A line of the index file put into the tables: `none` where std::stoull throws. The key runs from
  -- behind the prefix of six bytes to the first '='.
  unfoldable pub load_line : Bytes → Table × Table → Option (Table × Table)
  unfolding cut_eq
  load_line line (emails, phones) =
      if begins (codes "email:") line
      then elim (cut_eq line) [
        | none ↦ some (emails, phones)
        | some (k, v) ↦ elim (platform.stoull v) [
          | none ↦ none
          | some i ↦ some (put (drop 6 k) i emails, phones)
        ]
      ]
      else if begins (codes "phone:") line
      then elim (cut_eq line) [
        | none ↦ some (emails, phones)
        | some (k, v) ↦ elim (platform.stoull v) [
          | none ↦ none
          | some i ↦ some (emails, put (drop 6 k) i phones)
        ]
      ]
      else some (emails, phones)

  unfoldable pub load_lines : List Bytes → Table × Table → Option (Table × Table)
  unfolding load_line
  load_lines [] tables = some tables
  load_lines (line ∷ rest) tables = elim (load_line line tables) [
    | none ↦ none
    | some tables' ↦ load_lines rest tables'
  ]

  -- rebuild, and save
  unfoldable pub rebuild : Bytes → ContactBook → World → Option ContactBook × Bool × World
  unfolding reindex save_index
  rebuild data_file book w =
      let (emails, phones) = reindex w 0 book.contacts ([], []) in
      let book' = record book { email_to_i = emails; phone_to_i = phones } in
      let (saved, w') = save_index data_file book' w in (some book', saved, w')

  -- the first line of the index file is the digest of the data file
  abbrev pub is_current : Bytes → Bytes → Bool
  is_current digest first = begins (codes "hash=") first && same (drop 5 first) digest

  -- with the lines of the index file
  unfoldable pub load_from :
      Bytes → ContactBook → List Bytes → World → Option ContactBook × Bool × World
  unfolding load_lines rebuild
  load_from data_file book [] w = rebuild data_file book w
  load_from data_file book (first ∷ rest) w =
      if is_current (sha256_hex (read_file data_file w)) first
      then elim (load_lines rest ([], [])) [
        | some (emails, phones) ↦
            (some (record book { email_to_i = emails; phone_to_i = phones }), true, w)
        | none ↦ (none, false, w)
      ]
      else rebuild data_file book w

  -- `none` in place of the book is the exception of std::stoull
  unfoldable pub load_or_build : Bytes → ContactBook → World → Option ContactBook × Bool × World
  unfolding load_from lines
  load_or_build data_file book w = elim (w.files index_file) [
    | some idx ↦ load_from data_file book (lines idx) w
    | none ↦ rebuild data_file book w
  ]
