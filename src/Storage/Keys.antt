-- ===== src/Storage/Keys.antt =====
-- A table in step with a list of keys: the table's entries are the keys' positions. This is what the
-- two tables of a book are to its contacts; every change of src/storage.cpp's operations to both is
-- here a lemma on the keys alone.
use acx_contact_cli.Prelude.{
  ℕ, zero, suc, ◌+◌, ◌-◌, ◌<◌, ◌≤◌, ◌≡◌, ◌≢◌, refl, sym, ap, ◌∙◌, ◌↔◌, inl, inr, true, false, none,
  some, List, [], ◌∷◌, ◌++◌, arith, Bytes, same, same_iff, ltb, ◌==◌, if◌then◌else◌, length,
  get_elem?, set, drop, Bool-cases, get_elem?-lt,
}
use acx_contact_cli.Table.{Table, find, put, erase, find-put, find-erase}
use acx_contact_cli.Storage.Contacts.{remove_at}

-- an entry for each key at its position, and no other
abbrev pub InStep : Table → List Bytes → Type 0
InStep t ks = (k : Bytes) (i : ℕ) → (find k t ≡ some i) ↔ (get_elem? ks i ≡ some k)

-- no key stands at two positions
abbrev pub Distinct : List Bytes → Type 0
Distinct ks = (k : Bytes) (i j : ℕ) → get_elem? ks i ≡ some k → get_elem? ks j ≡ some k → i ≡ j

some_inj : {i j : ℕ} → some i ≡ some j → i ≡ j
some_inj e = cc e

pub InStep-Distinct : (t : Table) (ks : List Bytes) → InStep t ks → Distinct ks
InStep-Distinct t ks s k i j p q = some_inj (sym ((s k i).1 p) ∙ (s k j).1 q)

pub get_elem?-snoc :
    (ks : List Bytes) (k : Bytes) (i : ℕ)
    → get_elem? (ks ++ k ∷ []) i ≡ (if i == length ks then some k else get_elem? ks i)
get_elem?-snoc [] k zero = refl
get_elem?-snoc [] k (suc i) = ground arith
get_elem?-snoc (x ∷ ks) k zero = ground arith
get_elem?-snoc (x ∷ ks) k (suc i) = ground (arith, get_elem?-snoc ks k i)

pub get_elem?-set :
    (ks : List Bytes) (i : ℕ) (k k0 : Bytes) (j : ℕ)
    → get_elem? ks i ≡ some k0
    → get_elem? (set ks i k) j ≡ (if j == i then some k else get_elem? ks j)
get_elem?-set [] i k k0 j h = absurd (cc h)
get_elem?-set (x ∷ ks) zero k k0 zero h = refl
get_elem?-set (x ∷ ks) zero k k0 (suc j) h = ground arith
get_elem?-set (x ∷ ks) (suc i) k k0 zero h = ground arith
get_elem?-set (x ∷ ks) (suc i) k k0 (suc j) h = ground (arith, get_elem?-set ks i k k0 j h)

pub get_elem?-remove_at :
    (ks : List Bytes) (i j : ℕ)
    → get_elem? (remove_at i ks) j ≡ get_elem? ks (if ltb j i then j else suc j)
get_elem?-remove_at [] i j = refl
get_elem?-remove_at (x ∷ ks) zero j = let e : ltb j 0 ≡ false = ground arith in rw e refl
get_elem?-remove_at (x ∷ ks) (suc i) zero = let e : ltb 0 (suc i) ≡ true = ground arith in rw e refl
get_elem?-remove_at (x ∷ ks) (suc i) (suc j) = elim (Bool-cases (ltb j i)) [
  | inl e ↦
      (let e' : ltb (suc j) (suc i) ≡ true = ground arith in
        get_elem?-remove_at ks i j ∙ rw (e, e') refl)
  | inr e ↦
      (let e' : ltb (suc j) (suc i) ≡ false = ground arith in
        get_elem?-remove_at ks i j ∙ rw (e, e') refl)
]

-- A key that the table does not have can be added behind the others.
pub push_InStep :
    (t : Table) (ks : List Bytes) (k : Bytes)
    → InStep t ks
    → find k t ≡ none
    → InStep (put k (length ks) t) (ks ++ k ∷ [])
push_InStep t ks k s h j i =
    let past : get_elem? ks i ≡ some j → i < length ks = get_elem?-lt ks i in
    let old = s j i in
    ground (arith, find-put k j (length ks) t, get_elem?-snoc ks k i, same_iff k j)

-- A key can change to one that the table has, if at all, at the same position.
pub move_InStep :
    (t : Table) (ks : List Bytes) (i : ℕ) (k k0 : Bytes)
    → InStep t ks
    → get_elem? ks i ≡ some k0
    → ((j : ℕ) → find k t ≡ some j → j ≡ i)
    → InStep (put k i (erase k0 t)) (set ks i k)
move_InStep t ks i k k0 s h u j n =
    let old = s j n in
    let here = s k0 i in
    let only = u n in
    ground (
      arith,
      find-put k j i (erase k0 t),
      find-erase k0 j t,
      get_elem?-set ks i k k0 n h,
      same_iff k j,
      same_iff k0 j,
    )

pub remove_at-Distinct : (ks : List Bytes) (i : ℕ) → Distinct ks → Distinct (remove_at i ks)
remove_at-Distinct ks i d k m n p q = ground (
  arith,
  d k (if ltb m i then m else suc m) (if ltb n i then n else suc n)
      (sym (get_elem?-remove_at ks i m) ∙ p) (sym (get_elem?-remove_at ks i n) ∙ q),
)

-- the loop of the sources that enters keys into a table from a position on
abbrev pub put_all : ℕ → List Bytes → Table → Table
put_all p [] t = t
put_all p (k ∷ ks) t = put_all (p + 1) ks (put k p t)

-- in the middle of that loop: the keys in front of the position are right, and there are no others
abbrev pub Underway : List Bytes → ℕ → Table → Type 0
Underway ks p t =
    ((k : Bytes) (n : ℕ) → n < p → get_elem? ks n ≡ some k → find k t ≡ some n)
    × ((k : Bytes) (m : ℕ) → find k t ≡ some m → ((n : ℕ) × (get_elem? ks n ≡ some k)))

drop_cons :
    (ks : List Bytes) (p : ℕ) {k : Bytes} {rest : List Bytes}
    → drop p ks ≡ k ∷ rest
    → (get_elem? ks p ≡ some k) × (drop (suc p) ks ≡ rest)
drop_cons [] zero e = absurd (cc e)
drop_cons [] (suc p) e = absurd (cc e)
drop_cons (x ∷ ks) zero e = (cc e, cc e)
drop_cons (x ∷ ks) (suc p) e = drop_cons ks p e

drop_nil : (ks : List Bytes) (p : ℕ) → drop p ks ≡ [] → length ks ≤ p
drop_nil [] p e = omega arith
drop_nil (x ∷ ks) zero e = absurd (cc e)
drop_nil (x ∷ ks) (suc p) e = omega (arith, drop_nil ks p e)

put-Underway :
    (ks : List Bytes) (p : ℕ) (k : Bytes) (t : Table)
    → Distinct ks
    → get_elem? ks p ≡ some k
    → Underway ks p t
    → Underway ks (p + 1) (put k p t)
put-Underway ks p k t d h (old, only) = (below, others)
  where
    below : (j : Bytes) (n : ℕ) → n < p + 1 → get_elem? ks n ≡ some j → find j (put k p t) ≡ some n
    below j n l e =
        let same_place = d k n p in
        let at_p = h in let before = old j n in ground (arith, find-put k j p t, same_iff k j)

    others : (j : Bytes) (m : ℕ) → find j (put k p t) ≡ some m → (n : ℕ) × (get_elem? ks n ≡ some j)
    others j m e = elim (Bool-cases (same k j)) [
      | inl s ↦ (p, h ∙ ap some ((same_iff k j).0 s))
      | inr s ↦ (let e' = rw (find-put k j p t, s) at e in only j m e')
    ]

end-InStep : (ks : List Bytes) (p : ℕ) (t : Table) → length ks ≤ p → Underway ks p t → InStep t ks
end-InStep ks p t l (old, only) k i = (
  λ e.
      (let (n, g) = only k i e in
        let f = old k n (omega (arith, get_elem?-lt ks n g)) g in
        ap (get_elem? ks) (some_inj (sym e ∙ f)) ∙ g),
  λ g. old k i (omega (arith, get_elem?-lt ks i g)) g,
)

-- The loop leaves the table in step.
pub put_all-InStep :
    (rest ks : List Bytes) (p : ℕ) (t : Table)
    → Distinct ks
    → drop p ks ≡ rest
    → Underway ks p t
    → InStep (put_all p rest t) ks
put_all-InStep [] ks p t d e u = end-InStep ks p t (drop_nil ks p e) u
put_all-InStep (k ∷ rest) ks p t d e u =
    let (h, e') = drop_cons ks p e in
    let next : p + 1 ≡ suc p = omega arith in
    put_all-InStep rest ks (p + 1) (put k p t) d (ap (λ n. drop n ks) next ∙ e')
      (put-Underway ks p k t d h u)

erase-Underway :
    (t : Table) (ks : List Bytes) (i : ℕ) (k0 : Bytes)
    → InStep t ks
    → get_elem? ks i ≡ some k0
    → Underway (remove_at i ks) i (erase k0 t)
erase-Underway t ks i k0 s h = (below, others)
  where
    below :
        (k : Bytes) (n : ℕ)
        → n < i
        → get_elem? (remove_at i ks) n ≡ some k
        → find k (erase k0 t) ≡ some n
    below k n l e =
        let small : ltb n i ≡ true = ground arith in
        let here = s k0 i in
        let there = s k n in
        ground (arith, find-erase k0 k t, same_iff k0 k, get_elem?-remove_at ks i n)

    shifted :
        (k : Bytes) (m : ℕ)
        → get_elem? ks m ≡ some k
        → m ≢ i
        → (n : ℕ) × (get_elem? (remove_at i ks) n ≡ some k)
    shifted k m g ne = elim (Bool-cases (ltb m i)) [
      | inl e ↦ (m, get_elem?-remove_at ks i m ∙ rw e g)
      | inr e ↦ (
        m - 1,
        (let high : i < m = ground arith in
            let big : ltb (m - 1) i ≡ false = ground arith in
            get_elem?-remove_at ks i (m - 1) ∙ rw big (ap (get_elem? ks) (omega arith) ∙ g)),
      )
    ]

    others :
        (k : Bytes) (m : ℕ)
        → find k (erase k0 t) ≡ some m
        → (n : ℕ) × (get_elem? (remove_at i ks) n ≡ some k)
    others k m e =
        let kept : find k t ≡ some m = ground (arith, find-erase k0 k t) in
        let g = (s k m).0 kept in
        let apart : m ≢ i =
          λ q. (let z = find-erase k0 k t in let b = same_iff k0 k in ground arith) in
        shifted k m g apart

-- Erasing a key and entering its followers anew leaves the table in step without the key.
pub remove_InStep :
    (t : Table) (ks : List Bytes) (i : ℕ) (k0 : Bytes)
    → InStep t ks
    → get_elem? ks i ≡ some k0
    → InStep (put_all i (drop i (remove_at i ks)) (erase k0 t)) (remove_at i ks)
remove_InStep t ks i k0 s h =
    put_all-InStep (drop i (remove_at i ks)) (remove_at i ks) i (erase k0 t)
      (remove_at-Distinct ks i (InStep-Distinct t ks s)) refl (erase-Underway t ks i k0 s h)

-- Entering distinct keys into an empty table gives a table in step.
pub rebuild_InStep : (ks : List Bytes) → Distinct ks → InStep (put_all 0 ks []) ks
unfolding find
rebuild_InStep ks d =
    put_all-InStep ks ks 0 [] d refl ((λ k n l. absurd (omega (arith, l))), λ k m e. absurd (cc e))
