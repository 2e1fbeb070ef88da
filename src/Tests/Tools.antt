-- ===== src/Tests/Tools.antt =====
-- Properties of the line tools and of the threads at concrete inputs.
use acx_contact_cli.Prelude.{
  ap, ◌∙◌, sym, ℕ, ◌≡◌, ◌↔◌, ◌⊎◌, refl, arith, true, false, none, some, List, [], ◌∷◌, Bytes, codes,
  same, ltb, length, is_empty, take, not, if◌then◌else◌,
}
use acx_contact_cli.Table.{holds}
use acx_contact_cli.Json.Value.{string, Members, end, member, lookup}
use acx_contact_cli.Json.Parser.{parse}
use acx_contact_cli.World.{World, written, truncated, lost}
use acx_contact_cli.Pool.{System, Run, start}
use acx_contact_cli.Pool.Ends.{Ended}
use acx_contact_cli.Pool.Drained.{launched}
use acx_contact_cli.Storage.Parallel.{
  LineTask, Gathered, Stage, taken, work, initial, line_tasks, gathered_book,
}
use acx_contact_cli.Storage.Parallel.Unique.{occurrences, by_email, gathered_book_unique}
use acx_contact_cli.Storage.Parallel.Ends.{import_ends}
use acx_contact_cli.Cli.{text_of, filled, ex_ok, atomic_write_all, temporary_name, input_path}
use acx_contact_cli.Cli.Seen.{distinct_lines, dedupe_key, dedupe_text, acx_dedupe_cmd}
use acx_contact_cli.Cli.Distinct.{
  count_key, once, count_key-distinct, dedupe_text_idem, acx_dedupe_cmd_in_place,
}
use acx_contact_cli.Cli.Counts.{emails_of, Tally, validate_lines, no_lines, is_valid_line}
use acx_contact_cli.Cli.Threads.{
  Check, testing, check_line, line_threads, input_lines, acx_validate_cmd_thr, is_acceptable_line,
  check_lines_end, acx_validate_cmd_thr_refines,
}
use acx_contact_cli.Cli.Emails.{is_valid_line_accepted}
use acx_contact_cli.Cli.Rewrite.{normalize_members, sample_loop}
use acx_contact_cli.Cli.Normal.{
  on_text, normal_form, lookup-normalize_members, normalize_members_idem,
}
use acx_contact_cli.Cli.Emailed.{Ascends, Says, emails_of_lem}
use acx_contact_cli.Cli.Args.{acx_hash_file_cmd, acx_checksum_cmd}
use acx_contact_cli.Cli.Digest.{printed_lem, acx_checksum_cmd-acx_hash_file_cmd}
use acx_contact_cli.Cli.Atomic.{atomic_write_all_lem}
use acx_contact_cli.Cli.Sampled.{IsSample, sample_loop_lem}
use acx_contact_cli.Tests.Setting.{demo, dry, day, read_decimal, one_book}

-- a file with a header, the contact of the book, and another one twice
abbrev csv_file : Bytes
csv_file =
    codes
      "id,name,email,phone,note,created_at\n1,Ann Lee,ANN@ex.com,555 123 4567,,\n2,Bob Ray,bob@ex.com,555 765 4321,,\n3,Bob Ray,bob@ex.com,555 765 4321,,\n"

abbrev csv_lines : List LineTask
csv_lines = line_tasks (codes "csv") 0 csv_file

abbrev import_start : System Gathered LineTask Stage
import_start = launched 2 (initial demo dry one_book day) csv_lines

-- one order of the steps that joins the threads
import_end :
    (m : ℕ) × (u : System Gathered LineTask Stage) × Run taken
      (work demo dry read_decimal (codes "csv") 1000)
      import_start
      m
      u
    × Ended u
import_end =
    (import_ends demo dry read_decimal (codes "csv") 1000 2 (initial demo dry one_book day)
      csv_lines 0 import_start start).0

-- where the threads have been joined by it
abbrev import_joined : System Gathered LineTask Stage
import_joined = import_end.1

gathered_book_unique_example :
    (occurrences demo dry by_email
        (codes "bob@ex.com")
        (gathered_book (λ es. es) one_book import_joined.shared).contacts
      ≡ occurrences demo dry by_email (codes "bob@ex.com") one_book.contacts)
    ⊎ ((occurrences demo dry by_email (codes "bob@ex.com") one_book.contacts ≡ 0)
        × (occurrences demo dry by_email
              (codes "bob@ex.com")
              (gathered_book (λ es. es) one_book import_joined.shared).contacts
            ≡ 1))
gathered_book_unique_example =
    gathered_book_unique demo dry read_decimal (codes "csv") 1000 (λ es. es) by_email
      (codes "bob@ex.com") 2 one_book day csv_lines import_end.0 import_joined (λ f es. refl)
      import_end.2

-- four lines: an object with a name, the same once more, one without a name, and no JSON
abbrev tool_file : Bytes
tool_file =
    codes
      "{\"email\":\"a@b.co\",\"name\":\" Ann \"}\n\n{\"email\":\"a@b.co\",\"name\":\" Ann \"}\n{\"email\":\"x\"}\nnone\n"

abbrev tool_day : World
tool_day = record day { files = λ p. if same p (codes "in.jsonl") then some tool_file else none }

abbrev tool_start : System Tally Bytes Check
tool_start = line_threads 2 (input_lines (input_path (codes "in.jsonl") tool_day) tool_day)

tool_end :
    (m : ℕ) × (u : System Tally Bytes Check) × Run testing
      (check_line (is_acceptable_line read_decimal))
      tool_start
      m
      u
    × Ended u
tool_end =
    (check_lines_end (is_acceptable_line read_decimal) 2
      (input_lines (input_path (codes "in.jsonl") tool_day) tool_day) 0 tool_start start).0

abbrev tool_joined : System Tally Bytes Check
tool_joined = tool_end.1

acx_validate_cmd_thr_refines_example :
    acx_validate_cmd_thr true (codes "in.jsonl") tool_joined.shared tool_day
    ≡ acx_validate_cmd_thr true
        (codes "in.jsonl")
        (validate_lines
          (is_acceptable_line read_decimal)
          (filled (input_lines (input_path (codes "in.jsonl") tool_day) tool_day))
          no_lines)
        tool_day
acx_validate_cmd_thr_refines_example =
    acx_validate_cmd_thr_refines (is_acceptable_line read_decimal) 2 true (codes "in.jsonl")
      tool_day tool_end.0 tool_joined (omega arith) tool_end.2 tool_end.3

abbrev tool_lines : List Bytes
tool_lines =
    codes "{\"email\":\"a@b.co\"}"
    ∷ codes "{\"email\":\"a@b.co\",\"name\":\"Ann\"}"
    ∷ codes "none"
    ∷ []

count_key-distinct_example :
    count_key
      (dedupe_key read_decimal)
      (codes "a@b.co")
      (distinct_lines (dedupe_key read_decimal) tool_lines []).out
    ≡ once
        (dedupe_key read_decimal)
        (holds (codes "a@b.co") [])
        (count_key (dedupe_key read_decimal) (codes "a@b.co") tool_lines)
count_key-distinct_example =
    count_key-distinct (dedupe_key read_decimal) (codes "a@b.co") tool_lines []

dedupe_text_idem_example :
    dedupe_text read_decimal demo (text_of (dedupe_text read_decimal demo tool_file).out) ≡ record {
      out = (dedupe_text read_decimal demo tool_file).out;
      kept = (dedupe_text read_decimal demo tool_file).kept;
      dropped = 0;
    }
dedupe_text_idem_example = dedupe_text_idem read_decimal demo tool_file

acx_dedupe_cmd_in_place_example :
    ((acx_dedupe_cmd read_decimal demo (codes "in.jsonl") (codes "in.jsonl") tool_day).code ≡ ex_ok)
    × ((acx_dedupe_cmd read_decimal demo (codes "in.jsonl") (codes "in.jsonl") tool_day).world.files
          (codes "in.jsonl")
        ≡ some [])
acx_dedupe_cmd_in_place_example =
    acx_dedupe_cmd_in_place read_decimal demo (codes "in.jsonl") tool_file tool_day (λ e. cc e)
      (unfold same in refl) refl

abbrev an_object : Members ℕ
an_object = member (codes "email") (string (codes " A@B.Co")) (
    member (codes "name") (string (codes " Ann "))
      (member (codes "phone") (string (codes "+1 (2)")) end))

lookup-normalize_members_example :
    lookup (codes "email") (normalize_members an_object)
    ≡ on_text (normal_form (codes "email")) (lookup (codes "email") an_object)
lookup-normalize_members_example = lookup-normalize_members an_object (codes "email")

normalize_members_idem_example :
    lookup (codes "phone") (normalize_members (normalize_members an_object))
    ≡ lookup (codes "phone") (normalize_members an_object)
normalize_members_idem_example = normalize_members_idem an_object (codes "phone")

atomic_write_all_lem_example :
    (((atomic_write_all demo (codes "out") (codes "text") day).0 ≡ false)
      × ((atomic_write_all demo (codes "out") (codes "text") day).1.files (codes "out")
          ≡ day.files (codes "out")))
    ⊎ (((atomic_write_all demo (codes "out") (codes "text") day).0 ≡ true)
        × (((demo.writing (temporary_name demo (codes "out") day) ≡ written)
              × ((atomic_write_all demo (codes "out") (codes "text") day).1.files (codes "out")
                  ≡ some (codes "text")))
            ⊎ ((n : ℕ) × ((demo.writing (temporary_name demo (codes "out") day) ≡ truncated n)
                  ⊎ (demo.writing (temporary_name demo (codes "out") day) ≡ lost n))
                × ((atomic_write_all demo (codes "out") (codes "text") day).1.files (codes "out")
                    ≡ some (take n (codes "text"))))))
atomic_write_all_lem_example = atomic_write_all_lem demo (codes "out") (codes "text") day

abbrev valid_line : Bytes
valid_line = codes "{\"email\":\"a@b.co\",\"name\":\"Ann\"}"

valid_line_ok : is_valid_line read_decimal valid_line ≡ true
unfolding is_valid_line parse
valid_line_ok = refl

is_valid_line_accepted_example : is_acceptable_line read_decimal valid_line ≡ true
is_valid_line_accepted_example = is_valid_line_accepted read_decimal valid_line valid_line_ok

sample_loop_lem_example :
    IsSample
      (λ n. 0)
      (λ line. not (is_empty line))
      (if ltb (length tool_lines) 2 then length tool_lines else 2)
      (sample_loop (λ n. 0) 2 tool_lines 0 [])
sample_loop_lem_example = sample_loop_lem (λ n. 0) (λ line. not (is_empty line)) 2 tool_lines refl

abbrev hashed_day : World
hashed_day = record day { files = λ p. if same p (codes "data") then some (codes "abc") else none }

-- the digest beside the file, as the command prints it
abbrev digest_day : World
digest_day = record day {
  files = λ p.
      if same p (codes "data")
      then some (codes "abc")
      else if same p (codes "data.sha256")
      then some (acx_hash_file_cmd false (codes "data") hashed_day).printed
      else none;
}

digest_is_listed :
    digest_day.files (codes "data.sha256")
    ≡ some (acx_hash_file_cmd false (codes "data") digest_day).printed
unfolding same
digest_is_listed =
    ap (λ x. some x)
      (printed_lem (codes "data") (codes "abc") hashed_day refl refl
        ∙ sym (printed_lem (codes "data") (codes "abc") digest_day refl refl))

acx_checksum_cmd-acx_hash_file_cmd_example :
    (acx_checksum_cmd (some (codes "data")) (codes "data.sha256") digest_day).code ≡ ex_ok
acx_checksum_cmd-acx_hash_file_cmd_example =
    acx_checksum_cmd-acx_hash_file_cmd (codes "data") (codes "data.sha256") (codes "abc") digest_day
      refl (unfold same in refl) (unfold same in refl) digest_is_listed

emails_of_lem_example :
    Ascends (emails_of read_decimal tool_lines [])
    × ((e : Bytes)
        → (holds e (emails_of read_decimal tool_lines []) ≡ true) ↔ Says read_decimal e tool_lines)
emails_of_lem_example = emails_of_lem read_decimal tool_lines
