-- ===== src/Storage/Exported.antt =====
-- What becomes of a CSV export that is imported, by `export_data` and `import_csv_rfc` of
-- src/storage.cpp.
use acx_contact_cli.Prelude.{◌≡◌, refl, ap, ◌∙◌, false, none, List, ◌∷◌, map, Bytes}
use acx_contact_cli.Model.{Contact, ContactBook}
use acx_contact_cli.World.{Platform, World, read_file}
use acx_contact_cli.Csv.{csv_parse_rfc4180}
use acx_contact_cli.Csv.RoundTrip.{AllWritable, rows_text, csv_parse_refuses_export}
use acx_contact_cli.Merge.{Operations, import_csv_rfc}
use acx_contact_cli.Storage.Export.{fields_of, header}

-- A CSV export of any contacts whose fields can be written is refused by `import_csv_rfc`.
pub import_csv_rfc_refuses_export :
    (platform : Platform) (operations : Operations) (in_file : Bytes) (cs : List Contact)
    (book : ContactBook) (w : World)
    → AllWritable (map fields_of cs)
    → read_file in_file w ≡ rows_text (header ∷ map fields_of cs)
    → import_csv_rfc platform operations in_file (book, w) ≡ none
unfolding import_csv_rfc
import_csv_rfc_refuses_export platform operations in_file cs book w h e =
    let refused : (csv_parse_rfc4180 (read_file in_file w)).1 ≡ false =
      ap (λ t. (csv_parse_rfc4180 t).1) e
      ∙ csv_parse_refuses_export header (map fields_of cs) ((λ q. absurd (cc q)), refl, h) refl in
    rw refused refl
