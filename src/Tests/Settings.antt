-- ===== src/Tests/Settings.antt =====
-- Properties of imports, comparison and configuration at concrete inputs.
use acx_contact_cli.Prelude.{none, some, map, ◌≡◌, refl, [], ◌∷◌, codes}
use acx_contact_cli.Validation.{env_default_country}
use acx_contact_cli.Model.{ContactBook}
use acx_contact_cli.Config.{Config, apply_config_env}
use acx_contact_cli.Config.Effect.{env_default_country-apply_config_env}
use acx_contact_cli.Merge.{import_csv_rfc, Operations}
use acx_contact_cli.World.{World, read_file}
use acx_contact_cli.Csv.RoundTrip.{rows_text}
use acx_contact_cli.Storage.Export.{fields_of, header}
use acx_contact_cli.Storage.Exported.{import_csv_rfc_refuses_export}
use acx_contact_cli.Tests.Setting.{demo, dry, day, no_book, ann, bob}

abbrev mexico : Config
mexico = record {
  data_file = codes "contacts.jsonl";
  backup_dir = [];
  audit_log = [];
  lock_dir = [];
  region = codes "MX";
  output = codes "json";
}

env_default_country-apply_config_env_example :
    env_default_country (apply_config_env mexico dry) ≡ env_default_country dry
env_default_country-apply_config_env_example = env_default_country-apply_config_env mexico dry

abbrev two_book : ContactBook
two_book = record no_book { contacts = ann ∷ bob ∷ ann ∷ [] }

abbrev adding : Operations
adding = record {
  add = λ c s. (record s.0 { contacts = c ∷ s.0.contacts }, s.1);
  edit = λ id name email phone note s. s;
}

abbrev erasing : Operations
erasing = record adding { edit = λ id name email phone note s. (no_book, s.1) }

abbrev exported : World
exported = record day { files = λ p. some (rows_text (header ∷ map fields_of (bob ∷ []))) }

import_csv_rfc_refuses_export_example :
    import_csv_rfc demo adding (codes "out.csv") (no_book, exported) ≡ none
unfolding read_file
import_csv_rfc_refuses_export_example =
    import_csv_rfc_refuses_export demo adding (codes "out.csv") (bob ∷ []) no_book exported
      ((λ q. absurd (cc q)), refl, tt) refl
