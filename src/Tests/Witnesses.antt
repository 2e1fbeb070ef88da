-- ===== src/Tests/Witnesses.antt =====
-- Properties of the store, the files and the indexes at concrete inputs.
use acx_contact_cli.Prelude.{
  ℕ, zero, suc, ◌+◌, ◌≡◌, ◌≢◌, ◌⊎◌, refl, true, false, none, some, List, [], ◌∷◌, take, arith,
  Bytes, codes, length, before,
}
use acx_contact_cli.Json.Parser.{ok, ◌>>=◌}
use acx_contact_cli.Json.Lines.{parse_jsonl}
use acx_contact_cli.World.{temporary, written, lost, write_file_atomic}
use acx_contact_cli.World.Atomic.{write_file_atomic_lem}
use acx_contact_cli.Index.{decimal}
use acx_contact_cli.DiskIndex.{Entry, bsearch_key, load, index_bytes}
use acx_contact_cli.DiskIndex.Search.{IsSorted, Holds, bsearch_key_sound, bsearch_key_complete}
use acx_contact_cli.DiskIndex.RoundTrip.{load-index_bytes}
use acx_contact_cli.Storage.Persist.{line_of, data_text, offsets_of, contacts_from}
use acx_contact_cli.Storage.Contacts.{add_contact, edit_contact, delete_contact}
use acx_contact_cli.Storage.Invariant.{IsWellIndexed}
use acx_contact_cli.Storage.Handlers.{
  drawn_id, add_contact-IsWellIndexed, edit_contact-IsWellIndexed, delete_contact-IsWellIndexed,
}
use acx_contact_cli.Storage.DataFile.{contacts_from-data_text, Located, offsets_of-Located}
use acx_contact_cli.Tests.Setting.{
  read_decimal, demo, dry, day, store, no_book, ann, bob, stable, no_book-IsWellIndexed,
  no_book-fresh, one_book, one_book-IsWellIndexed,
}

add_contact-IsWellIndexed_example :
    IsWellIndexed demo dry
      (add_contact decimal demo store no_book
        (codes "Bob Ray")
        (codes "bob@ex.com")
        (codes "555 765 4321")
        []
        (codes "me")
        []
        day).2
add_contact-IsWellIndexed_example =
    add_contact-IsWellIndexed decimal demo store no_book (codes "Bob Ray") (codes "bob@ex.com")
      (codes "555 765 4321") [] (codes "me") [] day stable no_book-fresh no_book-IsWellIndexed

edit_contact-IsWellIndexed_example :
    IsWellIndexed demo dry
      (edit_contact decimal demo store one_book
        (drawn_id demo day)
        (codes "Ann Low")
        (codes "low@ex.com")
        (codes "555 000 1111")
        (codes "moved")
        (codes "me")
        day).1
edit_contact-IsWellIndexed_example =
    edit_contact-IsWellIndexed decimal demo store one_book (drawn_id demo day) (codes "Ann Low")
      (codes "low@ex.com") (codes "555 000 1111") (codes "moved") (codes "me") day stable
      one_book-IsWellIndexed

delete_contact-IsWellIndexed_example :
    IsWellIndexed demo dry
      (delete_contact decimal demo store one_book (drawn_id demo day) (codes "me") day).1
delete_contact-IsWellIndexed_example =
    delete_contact-IsWellIndexed decimal demo store one_book (drawn_id demo day) (codes "me") day
      one_book-IsWellIndexed

contacts_from-data_text_example :
    (parse_jsonl read_decimal (data_text decimal demo (ann ∷ bob ∷ [])) >>= contacts_from)
    ≡ ok (ann ∷ bob ∷ [])
contacts_from-data_text_example =
    contacts_from-data_text decimal read_decimal demo (ann ∷ bob ∷ []) (
      (refl, refl, refl, refl, refl, refl, (refl, refl, refl, tt)),
      ((refl, refl, refl, refl, refl, refl, (refl, refl, refl, tt)), tt),
    )

offsets_of-Located_example :
    Located decimal demo
      (λ c. c.email)
      (data_text decimal demo (ann ∷ bob ∷ []))
      (ann ∷ bob ∷ [])
      1
      (codes "bob@ex.com", 0 + length (line_of decimal demo ann) + 1)
unfolding offsets_of
offsets_of-Located_example =
    offsets_of-Located decimal demo (λ c. c.email) (ann ∷ bob ∷ []) 1
      (codes "bob@ex.com", 0 + length (line_of decimal demo ann) + 1) refl

write_file_atomic_lem_example :
    (((write_file_atomic demo (codes "a.txt") (codes "hello") day).0 ≡ false)
      × ((write_file_atomic demo (codes "a.txt") (codes "hello") day).1.files (codes "a.txt")
          ≡ none))
    ⊎ (((write_file_atomic demo (codes "a.txt") (codes "hello") day).0 ≡ true)
        × (((demo.writing (temporary demo (codes "a.txt")) ≡ written)
              × ((write_file_atomic demo (codes "a.txt") (codes "hello") day).1.files
                    (codes "a.txt")
                  ≡ some (codes "hello")))
            ⊎ ((n : ℕ) × (demo.writing (temporary demo (codes "a.txt")) ≡ lost n)
                × ((write_file_atomic demo (codes "a.txt") (codes "hello") day).1.files
                      (codes "a.txt")
                    ≡ some (take n (codes "hello"))))))
write_file_atomic_lem_example = write_file_atomic_lem demo (codes "a.txt") (codes "hello") day refl

abbrev entries : List Entry
entries = (codes "a", 4) ∷ (codes "b", 9) ∷ []

key_of : (k : Bytes) (o : ℕ) (e : Entry) → some (k, o) ≡ some e → e.0 ≡ k
key_of k o e p = cc p

entries-IsSorted : IsSorted entries
unfolding before
entries-IsSorted zero zero a b l p q = rw (key_of _ _ a p, key_of _ _ b q) refl
entries-IsSorted zero (suc zero) a b l p q = rw (key_of _ _ a p, key_of _ _ b q) refl
entries-IsSorted (suc zero) zero a b l p q = absurd (omega (arith, l))
entries-IsSorted (suc zero) (suc zero) a b l p q = rw (key_of _ _ a p, key_of _ _ b q) refl
entries-IsSorted (suc (suc i)) j a b l p q = absurd (cc p)
entries-IsSorted i (suc (suc j)) a b l p q = absurd (cc q)

bsearch_key_sound_example : Holds entries (codes "b") 9
unfolding bsearch_key
bsearch_key_sound_example = bsearch_key_sound entries (codes "b") 9 refl

bsearch_key_complete_example : bsearch_key entries (codes "b") ≢ none
bsearch_key_complete_example = bsearch_key_complete entries (codes "b") 9 entries-IsSorted (1, refl)

load-index_bytes_example :
    load (index_bytes ((codes "ann@ex.com", 0) ∷ []) ((codes "+15551234567", 0) ∷ []))
    ≡ some ((codes "ann@ex.com", 0) ∷ [], (codes "+15551234567", 0) ∷ [])
load-index_bytes_example =
    load-index_bytes ((codes "ann@ex.com", 0) ∷ []) ((codes "+15551234567", 0) ∷ []) (omega arith)
      (omega arith) (omega arith, omega arith, tt) (omega arith, omega arith, tt)
