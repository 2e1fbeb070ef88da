-- ===== src/Cli/Counts.antt =====
-- `acx_report_cmd`, `acx_validate_cmd` and `acx_diff_cmd` of src/cli.cpp: they count lines, and change
-- no file.
use acx_contact_cli.Prelude.{
  ℕ, ◌+◌, Bool, true, false, not, ◌&&◌, ◌||◌, Option, none, some, List, [], ◌∷◌, ◌++◌, Bytes, codes,
  isalpha, is_empty, keep, length, ◌==◌, if◌then◌else◌,
}
use acx_contact_cli.Utils.{lines}
use acx_contact_cli.Validation.{is_local_byte, is_domain_byte}
use acx_contact_cli.Diff.{insert}
use acx_contact_cli.Index.{decimal_onto, decimal}
use acx_contact_cli.Json.Parser.{ok, err, parse}
use acx_contact_cli.World.{World}
use acx_contact_cli.Cli.{
  ExitCode, ex_ok, ex_io, ex_usage, ex_validation, Outcome, input_path, filled, json_get_string,
}
use acx_contact_cli.Table.{holds}

-- what is left of the expression behind the dot: two letters
unfoldable pub search_tld : Bytes → Bool
unfolding isalpha
search_tld (a ∷ b ∷ s) = isalpha a && isalpha b
search_tld (a ∷ []) = false
search_tld [] = false

-- behind the at sign, with a byte of the host read or not
unfoldable pub search_host : Bool → Bytes → Bool
unfolding search_tld is_domain_byte
search_host any [] = false
search_host any (c ∷ s) =
    let more = search_host true s in
    (any && (c == b'.' && search_tld s)) || (is_domain_byte c && more)

unfoldable pub search_user : Bool → Bytes → Bool
unfolding search_host is_local_byte
search_user any [] = false
search_user any (c ∷ s) =
    let more = search_user true s in
    (any && (c == b'@' && search_host false s)) || (is_local_byte c && more)

-- `std::regex_search`: a match that begins anywhere
unfoldable pub is_email_like : Bytes → Bool
unfolding search_user
is_email_like [] = false
is_email_like (c ∷ s) = let later = is_email_like s in search_user false (c ∷ s) || later

-- the counters of `acx_validate_cmd`
pub record Tally : Type 0 where
  pub count : ℕ
  pub ok_count : ℕ
  pub bad_count : ℕ

unfoldable pub judge : Bool → Tally → Tally
judge true t = record { count = t.count + 1; ok_count = t.ok_count + 1; bad_count = t.bad_count }
judge false t = record { count = t.count + 1; ok_count = t.ok_count; bad_count = t.bad_count + 1 }

unfoldable pub tally_text : Bool → Bytes → Tally → Bytes
unfolding decimal_onto
tally_text json_mode path t =
    if json_mode
    then codes "{\"file\":\""
      ++ (path
          ++ (codes "\",\"records\":"
              ++ (decimal t.count
                  ++ (codes ",\"valid\":"
                      ++ (decimal t.ok_count
                          ++ (codes ",\"invalid\":" ++ (decimal t.bad_count ++ codes "}\n")))))))
    else codes "Validate "
      ++ (path
          ++ (codes "\nRecords: "
              ++ (decimal t.count
                  ++ (codes "\nValid: "
                      ++ (decimal t.ok_count
                          ++ (codes "\nInvalid: " ++ (decimal t.bad_count ++ codes "\n")))))))

-- `return bad? acx::EX_VALIDATION : acx::EX_OK;`
abbrev pub verdict : Tally → ExitCode
verdict t = if t.bad_count == 0 then ex_ok else ex_validation

unfoldable pub report_text : Bool → Bytes → ℕ → ℕ → Bytes
unfolding decimal_onto
report_text json_mode path records emails =
    if json_mode
    then codes "{\"file\":\""
      ++ (path
          ++ (codes "\",\"records\":"
              ++ (decimal records
                  ++ (codes ",\"unique_emails\":" ++ (decimal emails ++ codes "}\n")))))
    else codes "File: "
      ++ (path
          ++ (codes "\nRecords: "
              ++ (decimal records
                  ++ (codes "\nUnique emails: " ++ (decimal emails ++ codes "\n")))))

unfoldable pub diff_text : Bool → ℕ → ℕ → Bytes
unfolding decimal_onto
diff_text json_mode added removed =
    if json_mode
    then codes "{\"added\":"
      ++ (decimal added ++ (codes ",\"removed\":" ++ (decimal removed ++ codes "}\n")))
    else codes "Added: "
      ++ (decimal added ++ (codes "\nRemoved: " ++ (decimal removed ++ codes "\n")))

-- the loop of `acx_validate_cmd`, with the test of a line
unfoldable pub validate_lines : (Bytes → Bool) → List Bytes → Tally → Tally
unfolding judge
validate_lines accepts [] t = t
validate_lines accepts (line ∷ rest) t = validate_lines accepts rest (judge (accepts line) t)

abbrev pub no_lines : Tally
no_lines = record { count = 0; ok_count = 0; bad_count = 0 }

-- `has_name && email_ok`
abbrev pub acceptable : Option Bytes → Option Bytes → Bool
acceptable none email = false
acceptable (some name) none = not (is_empty name)
acceptable (some name) (some email) = not (is_empty name) && is_email_like email

-- `if (…) uniqEmails.insert(…);`
unfoldable pub with_email : Option Bytes → List Bytes → List Bytes
unfolding insert
with_email none found = found
with_email (some email) found = insert email found

module _ {D : Type 0} (stod : Bytes → Option D) where
  -- whether a line counts as valid
  unfoldable pub is_valid_line : Bytes → Bool
  unfolding json_get_string is_email_like
  is_valid_line line = elim (parse stod line) [
    | ok j ↦ acceptable (json_get_string j (codes "name")) (json_get_string j (codes "email"))
    | err e ↦ false
  ]

  unfoldable pub acx_validate_cmd : Bool → Bytes → World → Outcome
  unfolding input_path validate_lines is_valid_line lines tally_text
  acx_validate_cmd json_mode target_path w =
      let path = input_path target_path w in
      elim (w.files path) [
        | none ↦ record { code = ex_io; printed = []; world = w }
        | some content ↦
            (let t = validate_lines is_valid_line (filled (lines content)) no_lines in
              record { code = verdict t; printed = tally_text json_mode path t; world = w })
      ]

  -- the email of a line, none where the parser throws
  unfoldable pub email_of : Bytes → Option Bytes
  unfolding json_get_string
  email_of line = elim (parse stod line) [ ok j ↦ json_get_string j (codes "email") | err e ↦ none ]

  -- the std::set of the emails, by the loop of `acx_report_cmd` and that of `load` in `acx_diff_cmd`
  unfoldable pub emails_of : List Bytes → List Bytes → List Bytes
  unfolding email_of with_email
  emails_of [] found = found
  emails_of (line ∷ rest) found = emails_of rest (with_email (email_of line) found)

  unfoldable pub acx_report_cmd : Bool → Bytes → World → Outcome
  unfolding input_path emails_of lines report_text
  acx_report_cmd json_mode target_path w =
      let path = input_path target_path w in
      elim (w.files path) [
        | none ↦ record { code = ex_io; printed = []; world = w }
        | some content ↦
            (let records = filled (lines content) in
              record {
                code = ex_ok;
                printed =
                    report_text json_mode path (length records) (length (emails_of records []));
                world = w;
              })
      ]

  -- `load` of `acx_diff_cmd`: nothing where the file cannot be opened
  unfoldable pub load_emails : Bytes → World → List Bytes
  unfolding emails_of lines
  load_emails p w = elim (w.files p) [
    | none ↦ []
    | some content ↦ emails_of (filled (lines content)) []
  ]

  -- `std::set_difference`
  abbrev pub set_difference : List Bytes → List Bytes → List Bytes
  set_difference a b = keep (λ e. not (holds e b)) a

  -- the two counts that are printed
  unfoldable pub email_changes : Bytes → Bytes → World → ℕ × ℕ
  unfolding load_emails holds
  email_changes a_path b_path w =
      let a = load_emails a_path w in
      let b = load_emails b_path w in (length (set_difference b a), length (set_difference a b))

  -- the two paths, `none` for a null pointer
  unfoldable pub acx_diff_cmd : Bool → Option Bytes → Option Bytes → World → Outcome
  unfolding email_changes diff_text
  acx_diff_cmd json_mode none b w = record { code = ex_usage; printed = []; world = w }
  acx_diff_cmd json_mode (some a) none w = record { code = ex_usage; printed = []; world = w }
  acx_diff_cmd json_mode (some a) (some b) w =
      let (added, removed) = email_changes a b w in
      record { code = ex_ok; printed = diff_text json_mode added removed; world = w }
