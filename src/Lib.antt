-- ===== src/Lib.antt =====
-- acx-contact-cli, a contact book kept in a JSON Lines file: a model of its core and what holds of
-- it.
--
-- The parts and how they interact. A book (Model, of src/model.hpp) is a list of contacts with two
-- tables from a normalised email and phone to a position. The operations of src/storage.cpp
-- (Storage) check a contact with the validators of src/validation.cpp (Validation), change the
-- contacts and the tables, and save: the contacts become JSON (src/model.cpp), one line each
-- (Json, of src/jsonl.cpp), written by `write_file_atomic` of src/utils.cpp (World); beside the
-- data file stand a text index (Index, of src/index.cpp) and a binary one (DiskIndex, of
-- src/disk_index.cpp), both under the data's SHA-256 (Sha256, of src/utils.cpp and
-- include/acx/sha256.hpp, the latter in Sha256.Header). A backup may be signed (Hmac, of src/hmac.cpp). Csv is the parser of
-- src/csv.cpp with the exporter's `csv_escape`; Redact the masks of src/policy.cpp and
-- src/redact.cpp; Diff the comparison of src/diff.cpp; Config the configuration of src/config.cpp;
-- Merge the readers and strategies of src/merge.cpp; Utils the text helpers of src/utils.cpp;
-- Table an unordered_map and sets of texts. Cli is the line tools of src/cli.cpp; CryptoFile is
-- src/crypto_file.cpp; Engine.Rocks is src/storage_rocksdb.cpp, over a database that is an
-- argument. Pool is the pattern of threads that src/cli.cpp and src/storage.cpp share: one
-- producer, a queue under a lock with a condition variable, and workers; Storage.Parallel and
-- Cli.Threads are its two uses.
--
-- Storage has Persist (the members of `Storage`: load, save, backup_last, append_audit,
-- verify_backup_signature), Contacts (add_contact, edit_contact, delete_contact, search_contacts),
-- Keys (tables in step with lists of keys), Invariant, Steps, Edits, Outcomes and Handlers (the
-- invariant through every operation), DataFile (the text of the data file), Lookup, Import (the
-- JSON Lines branch of import_data, fast_search_one), Export (export_data, and audit_log of
-- src/audit.cpp) and Exported. Storage.Parallel is import_data_parallel, with Unique and Ends on
-- every order of its threads. Cli has Seen and Distinct (dedupe, merge), Counts (report, validate,
-- diff) with Emailed, Rewrite (redact, normalize, grep, sample) with Trimmed, Normal and Sampled, Threads (the
-- threaded validation), Emails (the two tests of an email), Atomic (atomic_write_all), Args
-- (parse, hash, checksum) and Digest. Pool has Laws (what every order of steps keeps), Asleep, Ends
-- (the bound), Progress, Size and Drained (the end). Json has Value, Text (the writer) and Parser,
-- and proofs from Strings, Render, Layout, Steps, Shapes and Length to RoundTrip, with Lines and
-- Fuel.
--
-- State is passed explicitly: a `World` holds the environment, the files and how often the clock
-- and the random numbers were read; a `Platform` holds what the sources only call (the clock,
-- random numbers, std::stoull, whether a path can be written, wholly, in part or with bytes lost
-- when the stream is closed, and renamed, std::sort, zstd,
-- libphonenumber). The text and the reading of a double are arguments of the JSON definitions.
-- Strings are lists of bytes, exceptions and error messages are values. Words of SHA-256 wrap at 2
-- ^ 32 in the text of the definitions.
--
-- Fuel. The JSON parser takes twice the length of the text and one, which Json.Fuel shows to be
-- enough; the binary search one more than the length of the list; a size_t is printed with at most
-- 20 digits and a group of an identifier with at most 16.
--
-- Readings. Where src/storage.cpp and src/jsonl.cpp lost backslashes in string literals, the
-- literal is read with them; the block about ACX_DRY_RUN pasted into `if (!st.save(book))` is read
-- as a return of true in front of saving; the empty character literal of `backup_last` is a byte
-- of the platform. Reading a vector past its end is undefined in the sources; the invariant
-- excludes it. That a directory can be created is part of whether a path can be written.
--
-- Threads. A step is what a thread does between two waits or inside one critical section, or one
-- operation on an atomic counter; any thread that can move may be the next. A worker that finds the
-- queue empty sleeps. A push wakes one sleeper, any that there is, the end of the input wakes all,
-- and a stray wake-up may come at any time; `notify_one` and `notify_all` are part of the step in
-- front of them, so that a sleeper is awake from then on and moves when it is its turn. Orders
-- of steps are sequences (`Run`); nothing is assumed of the scheduler.
--
-- Not modelled: of src/cli.cpp the dispatch in `main` and the commands that print the environment;
-- the other imports of src/storage.cpp but for the CSV rows, the SQLite engine, locks, logs,
-- metrics and reports, which print or call libraries or functions that no file declares.
pub mod Prelude
pub mod Validation
pub mod Json
pub mod Utils
pub mod Table
pub mod Model
pub mod Csv
pub mod World
pub mod Hmac
pub mod Sha256
pub mod Index
pub mod DiskIndex
pub mod Storage
pub mod Redact
pub mod Diff
pub mod Config
pub mod Merge
pub mod Cli
pub mod CryptoFile
pub mod Engine
pub mod Pool
mod Tests
