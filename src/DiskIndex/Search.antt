-- ===== src/DiskIndex/Search.antt =====
-- `bsearch_key` of src/disk_index.cpp finds what is there.
use acx_contact_cli.Prelude.{
  ℕ, zero, suc, ◌+◌, ◌/◌, ◌≤◌, ◌<◌, ◌≡◌, ◌≢◌, refl, true, false, none, some, List, [], ◌∷◌, arith,
  Bytes, same, same_iff, before, ltb, length, get_elem?, get_elem?-lt, Bool-cases, Option-cases,
  ◌⊎◌, inl, inr, lt→ltb,
}
use acx_contact_cli.DiskIndex.{Entry, bsearch_loop, bsearch_key}

pub before-cases : (a b : Bytes) → same a b ≡ false → before a b ≡ false → before b a ≡ true
unfolding same before
before-cases [] [] p q = absurd (cc)
before-cases [] (y ∷ b) p q = absurd (cc)
before-cases (x ∷ a) [] p q = refl
before-cases (x ∷ a) (y ∷ b) p q = ground (arith, before-cases a b)

-- No entry has a key before that of an earlier entry.
abbrev pub IsSorted : List Entry → Type 0
IsSorted v =
    (i j : ℕ) (a b : Entry)
    → i ≤ j
    → get_elem? v i ≡ some a
    → get_elem? v j ≡ some b
    → before b.0 a.0 ≡ false

-- The entry with the key and the offset stands at some place.
abbrev pub Holds : List Entry → Bytes → ℕ → Type 0
Holds v key offset = (i : ℕ) × (get_elem? v i ≡ some (key, offset))

in_range : {A : Type 0} (v : List A) (i : ℕ) → i < length v → (a : A) × (get_elem? v i ≡ some a)
in_range [] i h = elim h [ ]
in_range (x ∷ v) zero h = (x, refl)
in_range (x ∷ v) (suc i) h = in_range v i (omega arith)

le_or_lt : (a b : ℕ) → (a ≤ b) ⊎ (b < a)
le_or_lt a b = grind arith

loop_sound :
    (f : ℕ) (v : List Entry) (key : Bytes) (lo hi : ℕ) {offset : ℕ}
    → bsearch_loop f v key lo hi ≡ some offset
    → Holds v key offset
unfolding bsearch_loop
loop_sound zero v key lo hi e = absurd (cc)
loop_sound (suc f) v key lo hi e = elim (Bool-cases (ltb lo hi)) [
  | inr p ↦ absurd (ground (arith, e))
  | inl p ↦ elim (Option-cases (get_elem? v ((lo + hi) / 2))) [
    | inl q ↦ absurd (ground (arith, e))
    | inr ((k, o), q) ↦ elim (Bool-cases (same k key)) [
      | inl s ↦ ((lo + hi) / 2, ground (arith, e, same_iff k key))
      | inr s ↦ elim (Bool-cases (before k key)) [
        | inl b ↦ loop_sound f v key ((lo + hi) / 2 + 1) hi (rw (p, q, s, b) at e)
        | inr b ↦ loop_sound f v key lo ((lo + hi) / 2) (rw (p, q, s, b) at e)
      ]
    ]
  ]
]

loop_complete :
    (f : ℕ) (v : List Entry) (key : Bytes) (lo hi i : ℕ) {offset : ℕ}
    → IsSorted v
    → hi ≤ length v
    → hi < lo + f
    → lo ≤ i
    → i < hi
    → get_elem? v i ≡ some (key, offset)
    → bsearch_loop f v key lo hi ≢ none
unfolding bsearch_loop
loop_complete zero v key lo hi i s h m p q e = absurd (omega arith)
loop_complete (suc f) v key lo hi i {offset} s h m p q e =
    let mid : ℕ = (lo + hi) / 2 in
    let ((k, o), at_mid) = in_range v mid (omega arith) in
    rw (lt→ltb lo hi (omega arith), at_mid)
      (elim (Bool-cases (same k key)) [
        | inl t ↦ rw t (λ x. cc)
        | inr t ↦ elim (Bool-cases (before k key)) [
          | inl b ↦
              rw (t, b)
                (elim (le_or_lt i mid) [
                  | inl w ↦
                      let c : before k key ≡ false = s i mid (key, offset) (k, o) w e at_mid in
                      absurd (cc (b, c))
                  | inr w ↦ loop_complete f v key (mid + 1) hi i s h (omega arith) (omega arith) q e
                ])
          | inr b ↦
              rw (t, b)
                (elim (le_or_lt mid i) [
                  | inl w ↦
                      let c : before key k ≡ false = s mid i (k, o) (key, offset) w at_mid e in
                      absurd (cc (before-cases k key t b, c))
                  | inr w ↦ loop_complete f v key lo mid i s (omega arith) (omega arith) p w e
                ])
        ]
      ])

-- What the binary search returns is the offset of an entry with the key, on any list.
pub bsearch_key_sound :
    (v : List Entry) (key : Bytes) (offset : ℕ)
    → bsearch_key v key ≡ some offset
    → Holds v key offset
bsearch_key_sound v key offset e =
    loop_sound (length v + 1) v key 0 (length v) (unfold bsearch_key in e)

-- On a sorted list the binary search finds every key that stands in it.
pub bsearch_key_complete :
    (v : List Entry) (key : Bytes) (offset : ℕ)
    → IsSorted v
    → Holds v key offset
    → bsearch_key v key ≢ none
bsearch_key_complete v key offset s (i, e) =
    unfold bsearch_key in
    (loop_complete (length v + 1) v key 0 (length v) i s (omega arith) (omega arith) (omega arith)
      (get_elem?-lt v i e) e)
