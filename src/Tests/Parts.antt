-- ===== src/Tests/Parts.antt =====
-- Properties of the JSON and CSV texts, the validators and the digest at concrete inputs.
use acx_contact_cli.Prelude.{
  ℕ, ◌+◌, ◌%◌, ◌≤◌, ◌<◌, ◌≡◌, ◌≢◌, ◌↔◌, refl, true, ◌&&◌, [], ◌∷◌, ◌++◌, codes, before, isalpha,
  isdigit, length, leb, all, keep, if◌then◌else◌,
}
use acx_contact_cli.Validation.{is_valid_name, is_valid_email, normalize_phone_e164}
use acx_contact_cli.Validation.Name.{is_name_byte, is_valid_name-eq}
use acx_contact_cli.Validation.Email.{IsAddress, is_valid_email_iff}
use acx_contact_cli.Validation.Phone.{normalize_phone_e164_idem}
use acx_contact_cli.Json.Value.{Json, null, number, string, array, object, nil, item, end, member}
use acx_contact_cli.Json.Text.{quoted, dump, dump_jsonl}
use acx_contact_cli.Json.Parser.{ok, err, out_of_fuel, is_number_byte, parse_string, parse}
use acx_contact_cli.Json.Strings.{survives, parse_string-quoted}
use acx_contact_cli.Json.Render.{
  IsReadable, IsClean, null_clean, number_clean, string_clean, array_clean, object_clean, nil_clean,
  item_clean, end_clean, member_clean,
}
use acx_contact_cli.Json.RoundTrip.{parse-dump}
use acx_contact_cli.Json.Lines.{parse_jsonl, parse_jsonl-dump_jsonl}
use acx_contact_cli.Json.Fuel.{parse-ne-out_of_fuel}
use acx_contact_cli.Csv.{csv_parse_rfc4180, same_width}
use acx_contact_cli.Csv.RoundTrip.{row_text, rows_text, csv_parse-rows_text}
use acx_contact_cli.Sha256.{sha256_hex, padded}
use acx_contact_cli.Sha256.Header.{hash_stream}
use acx_contact_cli.Sha256.Agree.{hash_stream-eq-sha256_hex}
use acx_contact_cli.Sha256.Laws.{padded-length}
use acx_contact_cli.Index.{decimal, decimal_onto}
use acx_contact_cli.Redact.{mask_phone}
use acx_contact_cli.Redact.Masks.{mask_phone-digits}
use acx_contact_cli.Storage.Contacts.{search_contacts}
use acx_contact_cli.Storage.Lookup.{Selects, IsMatch, search_contacts_lem}
use acx_contact_cli.Tests.Setting.{read_decimal, demo, dry, one_book}

seven-IsReadable : IsReadable decimal read_decimal 7
unfolding decimal_onto isdigit is_number_byte
seven-IsReadable = record {
  first = b'7';
  others = [];
  shape = refl;
  starts = refl;
  bytes = refl;
  reads = refl;
}

-- {"a": [7, "x"], "b": null}
abbrev sample : Json ℕ
sample = object (
    member (codes "a") (array (item (number 7) (item (string (codes "x\ty")) nil)))
      (member (codes "b") null end))

sample-IsClean : IsClean decimal read_decimal sample
unfolding before
sample-IsClean = object_clean _ (
    member_clean (codes "a") _ _ refl
      (array_clean _ (
        item_clean _ _ (number_clean 7 seven-IsReadable)
          (item_clean _ _ (string_clean (codes "x\ty") refl) nil_clean)))
      (refl, tt) (member_clean (codes "b") _ _ refl null_clean tt end_clean))

parse-dump_example : parse read_decimal (dump decimal 2 sample) ≡ ok sample
parse-dump_example = parse-dump decimal read_decimal 2 sample-IsClean

parse_jsonl-dump_jsonl_example :
    parse_jsonl read_decimal (dump_jsonl decimal (sample ∷ null ∷ [])) ≡ ok (sample ∷ null ∷ [])
parse_jsonl-dump_jsonl_example =
    parse_jsonl-dump_jsonl decimal read_decimal (sample ∷ null ∷ [])
      (sample-IsClean, (null_clean, tt))

parse-ne-out_of_fuel_example : parse read_decimal (codes "[1,{\"a\":2") ≢ err out_of_fuel
parse-ne-out_of_fuel_example = parse-ne-out_of_fuel read_decimal (codes "[1,{\"a\":2")

parse_string-quoted_example :
    parse_string (quoted (1 ∷ codes "a\"b") ++ codes ",1")
    ≡ ok (keep survives (1 ∷ codes "a\"b"), codes ",1")
parse_string-quoted_example = parse_string-quoted (1 ∷ codes "a\"b") (codes ",1")

csv_parse-rows_text_example :
    csv_parse_rfc4180 (
      rows_text ((codes "id" ∷ codes "a,b" ∷ []) ∷ [])
      ++ row_text (codes "x" ∷ codes "say \"y\"" ∷ []))
    ≡ (
      ((codes "id" ∷ codes "a,b" ∷ []) ∷ []) ++ (codes "x" ∷ codes "say \"y\"" ∷ []) ∷ [],
      same_width
          (((codes "id" ∷ codes "a,b" ∷ []) ∷ []) ++ (codes "x" ∷ codes "say \"y\"" ∷ []) ∷ []),
    )
csv_parse-rows_text_example =
    csv_parse-rows_text ((codes "id" ∷ codes "a,b" ∷ []) ∷ []) (codes "x" ∷ codes "say \"y\"" ∷ [])
      ((λ e. absurd (cc e)), refl, tt) (λ e. absurd (cc e)) refl

is_valid_email_iff_example :
    (is_valid_email (codes "a.b@ex.com") ≡ true) ↔ IsAddress (codes "a.b@ex.com")
is_valid_email_iff_example = is_valid_email_iff (codes "a.b@ex.com")

is_valid_name-eq_example :
    is_valid_name (codes "Ann O'Lee")
    ≡ (all is_name_byte (codes "Ann O'Lee") && leb 2 (length (keep isalpha (codes "Ann O'Lee"))))
is_valid_name-eq_example = is_valid_name-eq (codes "Ann O'Lee")

normalize_phone_e164_idem_example :
    normalize_phone_e164 (normalize_phone_e164 (codes "555 123 4567") (codes "MX")) (codes "MX")
    ≡ normalize_phone_e164 (codes "555 123 4567") (codes "MX")
normalize_phone_e164_idem_example = normalize_phone_e164_idem (codes "555 123 4567") (codes "MX")

search_contacts_lem_example :
    Selects
      (IsMatch demo dry (codes "ANN") [] (codes "555 123") [])
      one_book.contacts
      (search_contacts demo dry one_book (codes "ANN") [] (codes "555 123") [])
search_contacts_lem_example =
    search_contacts_lem demo dry (codes "ANN") [] (codes "555 123") [] one_book

mask_phone-digits_example : length (keep isdigit (mask_phone (codes "+1 555 123 4567"))) ≡ (
    if leb (length (keep isdigit (codes "+1 555 123 4567"))) 4
    then length (keep isdigit (codes "+1 555 123 4567"))
    else 4)
mask_phone-digits_example = mask_phone-digits (codes "+1 555 123 4567")

hash_stream-eq-sha256_hex_example : hash_stream (codes "abc") ≡ sha256_hex (codes "abc")
hash_stream-eq-sha256_hex_example = hash_stream-eq-sha256_hex (codes "abc")

padded-length_example :
    (length (padded (codes "abc")) % 64 ≡ 0)
    × (length (codes "abc") + 9 ≤ length (padded (codes "abc")))
    × (length (padded (codes "abc")) < length (codes "abc") + 73)
padded-length_example = padded-length (codes "abc")
