-- ===== src/Config/Effect.antt =====
-- What a configuration changes for the rest of the program.
use acx_contact_cli.Prelude.{
  ◌≡◌, refl, ap, ◌∙◌, true, false, Option, none, some, Bytes, codes, same, is_empty, Bool-cases,
  inl, inr,
}
use acx_contact_cli.Validation.{Environment, env_default_country}
use acx_contact_cli.Storage.Persist.{path_from, new_storage}
use acx_contact_cli.Config.{Config, set_given, apply_config_env}

-- a variable of another name stays
set_given_other :
    (name value : Bytes) (getenv : Environment) (k : Bytes)
    → same name k ≡ false
    → set_given name value getenv k ≡ getenv k
unfolding set_given
set_given_other name value getenv k h = elim (Bool-cases (is_empty value)) [
  | inl e ↦ rw e refl
  | inr e ↦ rw (e, h) refl
]

set_given_self :
    (name value : Bytes) (getenv : Environment)
    → is_empty value ≡ false
    → same name name ≡ true
    → set_given name value getenv name ≡ some value
unfolding set_given
set_given_self name value getenv e h = rw (e, h) refl

module _ (cfg : Config) (getenv : Environment) where
  -- the environment after the first variables
  abbrev with_data : Environment
  with_data = set_given (codes "ACX_DATA_FILE") cfg.data_file getenv

  abbrev with_backup : Environment
  with_backup = set_given (codes "ACX_BACKUP_DIR") cfg.backup_dir with_data

  abbrev with_audit : Environment
  with_audit = set_given (codes "ACX_AUDIT_LOG") cfg.audit_log with_backup

  abbrev with_lock : Environment
  with_lock = set_given (codes "ACX_LOCK_DIR") cfg.lock_dir with_audit

  abbrev with_region : Environment
  with_region = set_given (codes "ACX_REGION") cfg.region with_lock

  -- a variable that the last five do not set
  kept_behind :
      (k : Bytes)
      → same (codes "ACX_OUTPUT") k ≡ false
      → same (codes "ACX_REGION") k ≡ false
      → same (codes "ACX_LOCK_DIR") k ≡ false
      → same (codes "ACX_AUDIT_LOG") k ≡ false
      → same (codes "ACX_BACKUP_DIR") k ≡ false
      → apply_config_env cfg getenv k ≡ with_data k
  unfolding apply_config_env
  kept_behind k o r l a b =
      set_given_other (codes "ACX_OUTPUT") cfg.output with_region k o
      ∙ (set_given_other (codes "ACX_REGION") cfg.region with_lock k r
          ∙ (set_given_other (codes "ACX_LOCK_DIR") cfg.lock_dir with_audit k l
              ∙ (set_given_other (codes "ACX_AUDIT_LOG") cfg.audit_log with_backup k a
                  ∙ set_given_other (codes "ACX_BACKUP_DIR") cfg.backup_dir with_data k b)))

  -- The country that phone numbers are normalised for is the same with a configuration as without it,
  -- whatever region the configuration names.
  pub env_default_country-apply_config_env :
      env_default_country (apply_config_env cfg getenv) ≡ env_default_country getenv
  unfolding env_default_country same
  env_default_country-apply_config_env =
      ap (λ (o : Option Bytes). elim o [ some v ↦ v | none ↦ codes "US" ])
        (kept_behind (codes "ACX_DEFAULT_COUNTRY") refl refl refl refl refl
          ∙ set_given_other (codes "ACX_DATA_FILE") cfg.data_file getenv
              (codes "ACX_DEFAULT_COUNTRY") refl)

  -- A store made after a configuration is applied works on the configuration's data file, where the
  -- configuration names one.
  pub new_storage-apply_config_env :
      is_empty cfg.data_file ≡ false
      → (new_storage (apply_config_env cfg getenv)).data_file ≡ cfg.data_file
  unfolding new_storage same
  new_storage-apply_config_env h =
      ap (λ o. path_from o (codes "acx-data.json"))
        (kept_behind (codes "ACX_DATA_FILE") refl refl refl refl refl
          ∙ set_given_self (codes "ACX_DATA_FILE") cfg.data_file getenv h refl)
      ∙ rw h refl
