-- ===== src/Storage/Parallel/Unique.antt =====
-- Emails and phone numbers under the threads of `import_data_parallel` in src/storage.cpp.
use acx_contact_cli.Prelude.{
  ℕ, zero, suc, ◌+◌, ◌≤◌, ◌≡◌, refl, ap, ◌∙◌, arith, Bool, true, false, ◌||◌, Option, none, some,
  List, [], ◌∷◌, ◌++◌, map, Bytes, same, same_iff, length, ltb, replicate, Bool-cases, inl, inr,
  ◌⊎◌,
}
use acx_contact_cli.Validation.{Environment}
use acx_contact_cli.Table.{holds}
use acx_contact_cli.Model.{Contact, ContactBook}
use acx_contact_cli.World.{Platform, World}
use acx_contact_cli.Pool.{System, Run, waiting}
use acx_contact_cli.Pool.Laws.{total, total-snoc, at_work, left_over, Keeps, Run-amount}
use acx_contact_cli.Pool.Drained.{launched}
use acx_contact_cli.Storage.Parallel.{
  LineTask, Gathered, Stage, taken, judged, unique, email_key, number_key, initial, dedup, judge,
  read_line, work, is_valid_contact, gathered_book,
}

-- the two keys of a contact
pub data Field : Type 0 where
  by_email by_phone : Field

-- one where a test holds
abbrev pub one_if : Bool → ℕ
one_if true = 1
one_if false = 0

abbrev pub one_unless : Bool → ℕ
one_unless true = 0
one_unless false = 1

neither : (a b : Bool) → (a || b) ≡ false → (a ≡ false) × (b ≡ false)
neither true b h = absurd (cc h)
neither false b h = (refl, h)

-- std::sort moves its elements
abbrev pub Permutes : (List (ℕ × Contact) → List (ℕ × Contact)) → Type 0
Permutes sort = (f : ℕ × Contact → ℕ) (es : List (ℕ × Contact)) → total f (sort es) ≡ total f es

total-append :
    (f : Contact → ℕ) (xs ys : List Contact) → total f (xs ++ ys) ≡ total f xs + total f ys
total-append f [] ys = omega arith
total-append f (x ∷ xs) ys = omega (arith, total-append f xs ys)

total-map :
    (f : Contact → ℕ) (kvs : List (ℕ × Contact))
    → total f (map (λ (kv : ℕ × Contact). kv.1) kvs) ≡ total (λ (kv : ℕ × Contact). f kv.1) kvs
total-map f [] = refl
total-map f (kv ∷ kvs) = omega (arith, total-map f kvs)

zero_or_one : (n : ℕ) → n ≤ 1 → (n ≡ 0) ⊎ (n ≡ 1)
zero_or_one zero l = inl refl
zero_or_one (suc n) l = inr (omega (arith, l))

module _ (platform : Platform) (getenv : Environment) where
  abbrev pub key : Field → Contact → Bytes
  key by_email c = email_key platform getenv c
  key by_phone c = number_key platform getenv c

  -- how many contacts have a key
  abbrev pub occurrences : Field → Bytes → List Contact → ℕ
  occurrences field e cs = total (λ c. one_if (same e (key field c))) cs

  abbrev pub occurrences_out : Field → Bytes → List (ℕ × Contact) → ℕ
  occurrences_out field e kvs = total (λ (kv : ℕ × Contact). one_if (same e (key field kv.1))) kvs

  abbrev seen : Field → Gathered → List Bytes
  seen by_email a = a.seen_email
  seen by_phone a = a.seen_phone

  -- the places that a key takes or may still take
  abbrev places : Field → Bytes → Gathered → ℕ
  places field e a = occurrences_out field e a.outv + one_unless (holds e (seen field a))

  abbrev claimed : Field → Bytes → Stage → ℕ
  claimed field e (taken t) = 0
  claimed field e (judged seq c) = 0
  claimed field e (unique seq c) = one_if (same e (key field c))

  new_place :
      (e k : Bytes) (ks : List Bytes)
      → holds k ks ≡ false
      → one_unless (holds e (k ∷ ks)) + one_if (same e k) ≡ one_unless (holds e ks)
  unfolding holds
  new_place e k ks h = elim (Bool-cases (same e k)) [
    | inl g ↦ rw g (rw (ap (λ x. holds x ks) ((same_iff e k).0 g) ∙ h) refl)
    | inr g ↦ rw g (omega arith)
  ]

  no_occurrence :
      (field : Field) (e : Bytes) (cs : List Contact)
      → holds e (map (key field) cs) ≡ false
      → occurrences field e cs ≡ 0
  unfolding holds
  no_occurrence field e [] h = refl
  no_occurrence field e (c ∷ cs) h =
      let (f, g) = neither (same e (key field c)) _ h in
      rw f (omega (arith, no_occurrence field e cs g))

  -- the two sets with the keys of a contact
  abbrev added : Contact → Gathered → Gathered
  added c a = record a {
    seen_email = email_key platform getenv c ∷ a.seen_email;
    seen_phone = number_key platform getenv c ∷ a.seen_phone;
  }

  world_aside :
      (field : Field) (e : Bytes) (a : Gathered) (w : World)
      → places field e (record a { world = w }) + 0 ≡ places field e a + 0
  world_aside by_email e a w = refl
  world_aside by_phone e a w = refl

  stored :
      (field : Field) (e : Bytes) (seq : ℕ) (c : Contact) (a : Gathered)
      → places field e (record a { outv = a.outv ++ (seq, c) ∷ [] }) + 0
        ≡ places field e a + one_if (same e (key field c))
  stored by_email e seq c a = omega (
    arith,
    total-snoc (λ (kv : ℕ × Contact). one_if (same e (key by_email kv.1))) a.outv (seq, c),
  )
  stored by_phone e seq c a = omega (
    arith,
    total-snoc (λ (kv : ℕ × Contact). one_if (same e (key by_phone kv.1))) a.outv (seq, c),
  )

  dedup_keeps :
      (field : Field) (e : Bytes) (seq : ℕ) (c : Contact) (a : Gathered)
      → places field e (dedup platform getenv seq c a).0
          + left_over (claimed field e) (dedup platform getenv seq c a).1
        ≡ places field e a + 0
  unfolding dedup
  dedup_keeps field e seq c a =
      elim (Bool-cases (
        holds (email_key platform getenv c) a.seen_email
        || holds (number_key platform getenv c) a.seen_phone)) [
          | inl h ↦ rw (h, dedup) refl
          | inr h ↦
              rw (h, dedup)
                (let (f, g) = neither (holds (email_key platform getenv c) a.seen_email) _ h in
                  elim field
                    as (λ d.
                      places d e (added c a) + one_if (same e (key d c)) ≡ places d e a + 0) [
                        | by_email ↦
                            omega (arith, new_place e (email_key platform getenv c) a.seen_email f)
                        | by_phone ↦
                            omega (arith, new_place e (number_key platform getenv c) a.seen_phone g)
                      ])
        ]

  module _ {D : Type 0} (stod : Bytes → Option D) (fmt : Bytes) (max_record : ℕ) where
    judge_keeps :
        (field : Field) (e : Bytes) (seq : ℕ) (a : Gathered) (o : Option (Contact × World))
        → places field e (judge platform getenv seq a o).0
            + left_over (claimed field e) (judge platform getenv seq a o).1
          ≡ places field e a + 0
    judge_keeps field e seq a none = refl
    judge_keeps field e seq a (some (c, w)) =
        elim (Bool-cases (is_valid_contact platform getenv c)) [
          | inl h ↦ rw h (world_aside field e a w)
          | inr h ↦ rw h (world_aside field e a w)
        ]

    work_Keeps :
        (field : Field) (e : Bytes)
        → Keeps taken (work platform getenv stod fmt max_record) (places field e) (claimed field e)
    unfolding work
    work_Keeps field e a (taken t) = elim (Bool-cases (ltb max_record (length t.line))) [
      | inl h ↦ rw (h, work) refl
      | inr h ↦
          rw (h, work)
            (judge_keeps field e t.seq a
              (read_line platform getenv stod fmt max_record t.line a.world))
    ]
    work_Keeps field e a (judged seq c) = dedup_keeps field e seq c a
    work_Keeps field e a (unique seq c) = stored field e seq c a

    -- nothing is at work before the first step
    at_start :
        (field : Field) (e : Bytes) (ls : List LineTask)
        → total (λ k. claimed field e (taken k)) ls ≡ 0
    at_start field e [] = refl
    at_start field e (k ∷ ls) = omega (arith, at_start field e ls)

    idle :
        (field : Field) (e : Bytes) (count : ℕ)
        → total (at_work (claimed field e)) (replicate count waiting) ≡ 0
    idle field e zero = refl
    idle field e (suc count) = omega (arith, idle field e count)

    seen_at_first :
        (field : Field) (e : Bytes) (book : ContactBook) (w : World)
        → seen field (initial platform getenv book w) ≡ map (key field) book.contacts
    seen_at_first by_email e book w = refl
    seen_at_first by_phone e book w = refl

    none_out :
        (field : Field) (e : Bytes) (book : ContactBook) (w : World)
        → occurrences_out field e (initial platform getenv book w).outv ≡ 0
    none_out field e book w = refl

    -- In every state that some order of the steps leads to, a key of the book has not been imported,
    -- and every other key at most once, for emails and for phone numbers.
    pub import_unique :
        (field : Field) (e : Bytes) (count : ℕ) (book : ContactBook) (w : World)
        (ls : List LineTask) (n : ℕ) (u : System Gathered LineTask Stage)
        → Run taken
            (work platform getenv stod fmt max_record)
            (launched count (initial platform getenv book w) ls)
            n
            u
        → occurrences_out field e u.shared.outv
          ≤ one_unless (holds e (map (key field) book.contacts))
    import_unique field e count book w ls n u r =
        let kept =
          Run-amount taken (work platform getenv stod fmt max_record) (places field e)
            (claimed field e) (work_Keeps field e) r in
        let from_book = ap (λ ks. one_unless (holds e ks)) (seen_at_first field e book w) in
        omega
          (arith, kept, from_book, at_start field e ls, idle field e count, none_out field e book w)

    -- A book made of any state that some order of the threads leads to has of every email and of every
    -- phone number as many contacts as the book had before, or one where it had none, where sorting
    -- moves its elements.
    pub gathered_book_unique :
        (sort : List (ℕ × Contact) → List (ℕ × Contact)) (field : Field) (e : Bytes) (count : ℕ)
        (book : ContactBook) (w : World) (ls : List LineTask) (n : ℕ)
        (u : System Gathered LineTask Stage)
        → Permutes sort
        → Run taken
            (work platform getenv stod fmt max_record)
            (launched count (initial platform getenv book w) ls)
            n
            u
        → (occurrences field e (gathered_book sort book u.shared).contacts
            ≡ occurrences field e book.contacts)
          ⊎ ((occurrences field e book.contacts ≡ 0)
              × (occurrences field e (gathered_book sort book u.shared).contacts ≡ 1))
    unfolding gathered_book
    gathered_book_unique sort field e count book w ls n u p r =
        let bound = import_unique field e count book w ls n u r in
        let f = λ (c : Contact). one_if (same e (key field c)) in
        let g = λ (kv : ℕ × Contact). one_if (same e (key field kv.1)) in
        let sum : occurrences field e (gathered_book sort book u.shared).contacts
            ≡ occurrences field e book.contacts + occurrences_out field e u.shared.outv =
          total-append f book.contacts (map (λ (kv : ℕ × Contact). kv.1) (sort u.shared.outv))
          ∙ ap (λ x. occurrences field e book.contacts + x)
              (total-map f (sort u.shared.outv) ∙ p g u.shared.outv) in
        elim (Bool-cases (holds e (map (key field) book.contacts))) [
          | inl h ↦ inl (omega (arith, sum, bound, ap one_unless h))
          | inr h ↦
              elim (zero_or_one (occurrences_out field e u.shared.outv)
                (omega (arith, bound, ap one_unless h))) [
                  | inl z ↦ inl (omega (arith, sum, z))
                  | inr o ↦
                      (let before = no_occurrence field e book.contacts h in
                        inr (before, omega (arith, sum, o, before)))
                ]
        ]
