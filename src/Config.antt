-- ===== src/Config.antt =====
-- src/config.cpp: the configuration file and the environment that it fills.
pub mod Effect
use acx_contact_cli.Prelude.{
  Bool, true, false, Option, none, some, ◌∷◌, [], ◌++◌, Bytes, codes, same, is_empty, if◌then◌else◌,
}
use acx_contact_cli.Validation.{Environment}
use acx_contact_cli.Json.Value.{Json, string, object, Members, lookup}
use acx_contact_cli.Json.Parser.{Result, ok, err, ◌>>=◌, parse}
use acx_contact_cli.World.{World}
use acx_contact_cli.Storage.Persist.{join_path}

pub record Config : Type 0 where
  pub data_file : Bytes
  pub backup_dir : Bytes
  pub audit_log : Bytes
  pub lock_dir : Bytes
  pub region : Bytes
  pub output : Bytes

-- `getenv_str`
abbrev pub text_or_empty : Option Bytes → Bytes
text_or_empty none = []
text_or_empty (some v) = v

module _ {D : Type 0} where
  -- a member where it is a string, and the empty string otherwise
  unfoldable pub string_member : Bytes → Members D → Bytes
  string_member key m = elim (lookup key m) [ some (string s) ↦ s | _ ↦ [] ]

  -- from the value in the file
  unfoldable pub config_of : Json D → Option Config
  unfolding string_member
  config_of (object m) = some (record {
    data_file = string_member (codes "data_file") m;
    backup_dir = string_member (codes "backup_dir") m;
    audit_log = string_member (codes "audit_log") m;
    lock_dir = string_member (codes "lock_dir") m;
    region = string_member (codes "region") m;
    output = string_member (codes "output") m;
  })
  config_of _ = none

module _ {D : Type 0} (stod : Bytes → Option D) where
  -- The parser's exceptions leave the function.
  unfoldable pub load_config_file : Bytes → World → Result (Option Config)
  unfolding config_of
  load_config_file path w = elim (w.files path) [
    | none ↦ ok none
    | some text ↦ (parse stod text >>= λ j. ok (config_of j))
  ]

  -- a place of the search, and the rest of it
  unfoldable pub first_of : Bool → Bytes → World → Result (Option Config) → Result (Option Config)
  first_of false path w rest = rest
  first_of true path w rest = elim (load_config_file path w) [
    | err e ↦ err e
    | ok (some c) ↦ ok (some c)
    | ok none ↦ rest
  ]

  abbrev pub is_given : Bytes → Bool
  is_given [] = false
  is_given (c ∷ s) = true

  -- The places in order. A path without a file gives nothing, which is what the `fs::exists` in front
  -- of the last two is for.
  unfoldable pub load_config : World → Result (Option Config)
  unfolding first_of
  load_config w =
      let p = text_or_empty (w.getenv (codes "ACX_CONFIG")) in
      let xdg = text_or_empty (w.getenv (codes "XDG_CONFIG_HOME")) in
      let home = text_or_empty (w.getenv (codes "HOME")) in
      first_of (is_given p) p w (
        first_of (is_given xdg) (join_path xdg (codes "acx/config.json")) w
          (first_of (is_given home) (join_path home (codes ".config/acx/config.json")) w (ok none)))

-- `if (!value.empty()) setenv(name, value, 1)`
unfoldable pub set_given : Bytes → Bytes → Environment → Environment
set_given name value getenv k =
    if is_empty value then getenv k else if same name k then some value else getenv k

unfoldable pub apply_config_env : Config → Environment → Environment
unfolding set_given
apply_config_env cfg getenv = set_given (codes "ACX_OUTPUT") cfg.output (
    set_given (codes "ACX_REGION") cfg.region (
      set_given (codes "ACX_LOCK_DIR") cfg.lock_dir (
        set_given (codes "ACX_AUDIT_LOG") cfg.audit_log (
          set_given (codes "ACX_BACKUP_DIR") cfg.backup_dir
            (set_given (codes "ACX_DATA_FILE") cfg.data_file getenv)))))
