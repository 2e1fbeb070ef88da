-- ===== src/Storage/Persist.antt =====
-- The members of `Storage` in src/storage.cpp: saving and loading the book, backups and the audit
-- line. That a directory can be created is part of `Platform.writing`.
use acx_contact_cli.Prelude.{
  ℕ, ◌+◌, Bool, true, false, ◌||◌, Option, none, some, List, [], ◌∷◌, ◌++◌, map, Bytes, codes, same,
  ◌==◌, if◌then◌else◌, length, take, is_empty,
}
use acx_contact_cli.Validation.{to_lower_ascii, normalize_phone, Environment}
use acx_contact_cli.Json.Value.{Json}
use acx_contact_cli.Json.Text.{dump}
use acx_contact_cli.Json.Parser.{Result, ok, err, ◌>>=◌, bad_number}
use acx_contact_cli.Json.Lines.{parse_jsonl}
use acx_contact_cli.Model.{Contact, ContactBook, to_json, from_json}
use acx_contact_cli.Sha256.{sha256_hex}
use acx_contact_cli.Hmac.{hmac_sha256_hex}
use acx_contact_cli.World.{
  Platform, World, read_file, file_exists_nonempty, append_stream, write_file_atomic,
  now_iso8601_utc,
}
use acx_contact_cli.Index.{save_index, load_or_build}
use acx_contact_cli.DiskIndex.{Entry, build}

pub record Storage : Type 0 where
  pub data_file : Bytes
  pub backup_dir : Bytes
  pub audit_log : Bytes

-- one of the three paths: a variable that is set and not empty replaces the default
abbrev pub path_from : Option Bytes → Bytes → Bytes
path_from none default = default
path_from (some p) default = if is_empty p then default else p

-- the constructor
unfoldable pub new_storage : Environment → Storage
new_storage getenv = record {
  data_file = path_from (getenv (codes "ACX_DATA_FILE")) (codes "acx-data.json");
  backup_dir = path_from (getenv (codes "ACX_BACKUP_DIR")) (codes "backups");
  audit_log = path_from (getenv (codes "ACX_AUDIT_LOG")) (codes "acx-audit.log");
}

-- std::filesystem::path's operator/ with a relative right-hand side
unfoldable pub join_path : Bytes → Bytes → Bytes
join_path [] name = name
join_path (c ∷ []) name = if c == b'/' then c ∷ name else c ∷ b'/' ∷ name
join_path (c ∷ d ∷ dir) name = c ∷ join_path (d ∷ dir) name

-- `std::string(use_z)=="1"`
abbrev pub env_on : Option Bytes → Bool
env_on none = false
env_on (some v) = same v (codes "1")

module _ {D : Type 0} (print : D → Bytes) (platform : Platform) where
  -- a contact's line of the data file
  abbrev pub line_of : Contact → Bytes
  line_of c = dump print 0 (to_json c)

  -- the text of the data file
  unfoldable pub data_text : List Contact → Bytes
  data_text [] = []
  data_text (c ∷ cs) = line_of c ++ (b'\n' ∷ data_text cs)

  -- A key of every contact, with the offset of the contact's line; the first stands at `cur`.
  unfoldable pub offsets_of : (Contact → Bytes) → ℕ → List Contact → List Entry
  offsets_of key cur [] = []
  offsets_of key cur (c ∷ cs) = (key c, cur) ∷ offsets_of key (cur + length (line_of c) + 1) cs

  unfoldable pub save : Storage → ContactBook → World → Bool × World
  unfolding data_text offsets_of
  save st book w =
      let emails = offsets_of (λ c. to_lower_ascii c.email) 0 book.contacts in
      let phones =
        offsets_of (λ c. normalize_phone platform.phone_library w.getenv c.phone) 0 book.contacts in
      let (sent, w1) = write_file_atomic platform st.data_file (data_text book.contacts) w in
      let (_, w2) = save_index platform st.data_file book w1 in
      let (_, w3) = build platform st.data_file emails phones w2 in
      if sent then (true, w3) else (false, w1)

module _ (platform : Platform) where
  -- `ts` without its colons and dashes, for which the platform's byte stands
  abbrev pub stamp_of : Bytes → Bytes
  stamp_of ts = map (λ c. if c == b':' || c == b'-' then platform.stamp_byte else c) ts

  -- the backup's content and path
  unfoldable pub backup_of : Storage → Bytes → Bytes → World → Bytes × Bytes
  unfolding join_path
  backup_of st stamp content w =
      let bak = join_path st.backup_dir (
        codes "acx-data-"
        ++ (stamp ++ (codes "-" ++ (take 12 (sha256_hex content) ++ codes ".json.bak")))) in
      if env_on (w.getenv (codes "ACX_ZSTD"))
      then elim (platform.zstd content) [
        | some z ↦ (z, bak ++ codes ".zst")
        | none ↦ (content, bak)
      ]
      else (content, bak)

  -- the signature beside a backup that was written
  unfoldable pub sign_backup : Bytes → Bytes → World → World
  sign_backup bak content w = elim (w.getenv (codes "ACX_HMAC_KEY")) [
    | none ↦ w
    | some key ↦
        if is_empty key
        then w
        else (write_file_atomic platform (bak ++ codes ".sig")
            (hmac_sha256_hex key content ++ b'\n' ∷ []) w).1
  ]

  unfoldable pub backup_last : Storage → World → Bool × World
  unfolding backup_of sign_backup
  backup_last st w =
      if file_exists_nonempty st.data_file w
      then (let (ts, w1) = now_iso8601_utc platform w in
          let (content, bak) = backup_of st (stamp_of ts) (read_file st.data_file w1) w1 in
          let (kept, w2) = write_file_atomic platform bak content w1 in
          if kept then (true, sign_backup bak content w2) else (false, w2))
      else (true, w)

  unfoldable pub append_audit : Storage → Bytes → World → Bool × World
  append_audit st line w = append_stream platform st.audit_log (line ++ b'\n' ∷ []) w

-- the text of the audit line
unfoldable pub audit_line : Bytes → Bytes → Bytes → Bytes → Bytes
audit_line ts action id user = ts ++ (action ++ (id ++ (codes "," ++ user)))

-- `verify_backup_signature`
unfoldable pub pop_newline : Bytes → Bytes
pop_newline [] = []
pop_newline (c ∷ []) = if c == b'\n' then [] else c ∷ []
pop_newline (c ∷ d ∷ s) = c ∷ pop_newline (d ∷ s)

unfoldable pub verify_backup_signature : Bytes → Bytes → World → Bool
unfolding pop_newline
verify_backup_signature bak key w =
    same (hmac_sha256_hex key (read_file bak w)) (pop_newline (read_file (bak ++ codes ".sig") w))

module _ {D : Type 0} where
  -- the loop over the rows
  unfoldable pub contacts_from : List (Json D) → Result (List Contact)
  contacts_from [] = ok []
  contacts_from (j ∷ js) = do c ← from_json j; cs ← contacts_from js; ok (c ∷ cs)

module _ {D : Type 0} (stod : Bytes → Option D) (platform : Platform) where
  -- an exception of std::stoull is one of std::stod's too
  abbrev pub thrown : Option ContactBook × Bool × World → Result ContactBook × World
  thrown (some book, _, w) = (ok book, w)
  thrown (none, _, w) = (err bad_number, w)

  -- the book, or the exception that leaves the function; the tables of a book without a data file
  -- stay as they are
  unfoldable pub load : Storage → ContactBook → World → Result ContactBook × World
  unfolding contacts_from
  load st book w =
      if file_exists_nonempty st.data_file w
      then elim (parse_jsonl stod (read_file st.data_file w) >>= contacts_from) [
        | err e ↦ (err e, w)
        | ok cs ↦ thrown (load_or_build platform st.data_file (record book { contacts = cs }) w)
      ]
      else (ok (record book { contacts = [] }), w)
