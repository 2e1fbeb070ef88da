-- ===== src/Storage/Export.antt =====
-- `export_data` of src/storage.cpp, with the `audit_log` of src/audit.cpp that it calls. Of the tsv
-- branches the first is taken; the code of imports pasted behind it is not reached.
use acx_contact_cli.Prelude.{
  Bool, true, false, Option, none, some, List, [], ◌∷◌, ◌++◌, map, Bytes, codes, is_empty,
  if◌then◌else◌,
}
use acx_contact_cli.Json.Value.{Json, string, object}
use acx_contact_cli.Json.Text.{dump, dump_jsonl}
use acx_contact_cli.Model.{Contact, ContactBook, to_json, map_of}
use acx_contact_cli.Csv.RoundTrip.{rows_text}
use acx_contact_cli.World.{Platform, World, append_stream, write_file_atomic, now_iso8601_utc}

-- the exported fields of a contact
abbrev pub fields_of : Contact → List Bytes
fields_of c = c.id ∷ c.name ∷ c.email ∷ c.phone ∷ c.note ∷ c.created_at ∷ []

abbrev pub header : List Bytes
header =
    codes "id"
    ∷ codes "name"
    ∷ codes "email"
    ∷ codes "phone"
    ∷ codes "note"
    ∷ codes "created_at"
    ∷ []

-- fields with a tab between them, as they are
unfoldable pub tab_row : List Bytes → Bytes
tab_row [] = []
tab_row (f ∷ []) = f
tab_row (f ∷ g ∷ fs) = f ++ (b'\t' ∷ tab_row (g ∷ fs))

unfoldable pub tab_rows : List (List Bytes) → Bytes
unfolding tab_row
tab_rows [] = []
tab_rows (r ∷ rows) = tab_row r ++ (b'\n' ∷ tab_rows rows)

pub data ExportFormat : Type 0 where
  csv tsv jsonl unknown : ExportFormat

-- USER, or else USERNAME, where it is not empty
abbrev pub given_user : Option Bytes → Option Bytes → Option Bytes
given_user (some []) second = none
given_user (some (c ∷ s)) second = some (c ∷ s)
given_user none (some (c ∷ s)) = some (c ∷ s)
given_user none _ = none

module _ {D : Type 0} (print : D → Bytes) (platform : Platform)
    (sort_by_id : List Contact → List Contact) where
  abbrev pub with_user : Option Bytes → List (Bytes × Json D) → List (Bytes × Json D)
  with_user none rest = rest
  with_user (some u) rest = (codes "user", string u) ∷ rest

  abbrev pub strings : List (Bytes × Bytes) → List (Bytes × Json D)
  strings = map (λ e. (e.0, string e.1))

  -- The later members of `fields` replace the first three, as a std::map's assignments do.
  unfoldable pub audit_text : Bytes → Bytes → List (Bytes × Bytes) → World → Bytes
  audit_text ts action fields w =
      dump print 0 (
        object (
          map_of (
            strings fields
            ++ (with_user (given_user (w.getenv (codes "USER")) (w.getenv (codes "USERNAME")))
                ((codes "action", string action) ∷ (codes "ts", string ts) ∷ [])))))
      ++ (b'\n' ∷ [])

  unfoldable pub audit_log : Bytes → List (Bytes × Bytes) → World → World
  unfolding audit_text
  audit_log action fields w = elim (w.getenv (codes "ACX_AUDIT_LOG")) [
    | none ↦ w
    | some path ↦
        (let (ts, w') = now_iso8601_utc platform w in
          if is_empty path
          then w
          else (append_stream platform path (audit_text ts action fields w') w').1)
  ]

  -- writing an export, and its line in the audit log; both texts say "csv"
  unfoldable pub write_export : Bytes → Bytes → World → Bool × World
  unfolding audit_log
  write_export out_file text w =
      let (sent, w') = write_file_atomic platform out_file text w in
      let logged =
        audit_log (codes "export") ((codes "format", codes "csv") ∷ (codes "out", out_file) ∷ [])
          w' in
      if sent then (true, logged) else (false, w')

  -- `none` is the error "Unknown format"
  unfoldable pub export_data : ExportFormat → ContactBook → Bytes → World → Option (Bool × World)
  unfolding write_export tab_rows
  export_data csv book out_file w =
      some (write_export out_file (rows_text (header ∷ map fields_of (sort_by_id book.contacts))) w)
  export_data tsv book out_file w =
      some (write_export out_file (tab_rows (header ∷ map fields_of (sort_by_id book.contacts))) w)
  export_data jsonl book out_file w =
      some (write_file_atomic platform out_file (dump_jsonl print (map to_json book.contacts)) w)
  export_data unknown book out_file w = none
