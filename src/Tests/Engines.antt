-- ===== src/Tests/Engines.antt =====
-- The RocksDB engine at concrete inputs, on a database that is the function from keys to values.
use acx_contact_cli.Prelude.{
  ◌≡◌, ◌≢◌, refl, ap, sym, Bool, true, false, Option, none, some, List, [], ◌∷◌, Bytes, same,
}
use acx_contact_cli.Validation.{is_valid_name, is_valid_email, is_valid_phone}
use acx_contact_cli.Json.Parser.{ok}
use acx_contact_cli.Model.{Contact}
use acx_contact_cli.World.{Files}
use acx_contact_cli.Index.{decimal}
use acx_contact_cli.Storage.DataFile.{IsPlain}
use acx_contact_cli.Engine.Rocks.{
  Change, applied, contact_key, email_index, add_filled, edit_to, search, is_valid_fields,
}
use acx_contact_cli.Engine.Search.{IsAtomic, search_added, edit_takes_over}
use acx_contact_cli.Tests.Setting.{demo, day, read_decimal, ann, bob}

abbrev look : Files → Bytes → Option Bytes
look db k = db k

abbrev store_all : List Change → Files → Bool × Files
store_all changes db = (true, applied changes db)

-- no test scans
abbrev scan_none : Files → Bytes → List Bytes
scan_none db prefix = []

store_all-IsAtomic : IsAtomic decimal read_decimal demo look store_all scan_none
store_all-IsAtomic changes db db' h k = ap (λ (r : Bool × Files). r.1 k) (sym h)

abbrev empty_db : Files
empty_db k = none

abbrev ann_db : Files
ann_db = (add_filled decimal read_decimal demo look store_all scan_none ann day empty_db).1

ann_added :
    add_filled decimal read_decimal demo look store_all scan_none ann day empty_db ≡ (none, ann_db)
unfolding add_filled
ann_added = refl

ann-IsPlain : IsPlain ann
ann-IsPlain = (refl, refl, refl, refl, refl, refl, (refl, refl, refl, tt))

search_added_example :
    (search decimal read_decimal demo look store_all scan_none [] ann.email ann.phone ann.id day
        ann_db
      ≡ ok (ann ∷ []))
    × (search decimal read_decimal demo look store_all scan_none [] ann.email ann.phone [] day
          ann_db
        ≡ ok (ann ∷ []))
    × (search decimal read_decimal demo look store_all scan_none [] [] ann.phone [] day ann_db
        ≡ ok (ann ∷ []))
search_added_example =
    search_added decimal read_decimal demo look store_all scan_none ann day empty_db ann_db []
      store_all-IsAtomic ann-IsPlain refl refl refl ann_added

-- bob takes the email of ann
abbrev taker : Contact
taker = record bob { email = ann.email }

ann_owns : look ann_db (email_index taker.email) ≡ some ann.id
unfolding add_filled
ann_owns = refl

bob_differs : ann.id ≢ bob.id
unfolding same
bob_differs e = let h : true ≡ false = ap (λ x. same x ann.id) e in absurd (cc h)

taker_valid : is_valid_fields demo taker day ≡ true
unfolding is_valid_name is_valid_email is_valid_phone
taker_valid = refl

edit_takes_over_example :
    ((edit_to decimal read_decimal demo look store_all scan_none bob.id bob taker day ann_db).0
      ≡ none)
    × (look
          (edit_to decimal read_decimal demo look store_all scan_none bob.id bob taker day ann_db).1
          (email_index taker.email)
        ≡ some bob.id)
    × (look
          (edit_to decimal read_decimal demo look store_all scan_none bob.id bob taker day ann_db).1
          (contact_key ann.id)
        ≡ look ann_db (contact_key ann.id))
edit_takes_over_example =
    edit_takes_over decimal read_decimal demo look store_all scan_none bob.id ann.id bob taker day
      ann_db store_all-IsAtomic taker_valid (λ changes. refl) bob_differs ann_owns
