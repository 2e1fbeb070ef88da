-- ===== src/Utils/Split.antt =====
-- `split` of src/utils.cpp against joining, and lines against their text.
use acx_contact_cli.Prelude.{
  ℕ, ◌≡◌, ◌≢◌, refl, ap, ◌∙◌, Bool, true, false, not, List, [], ◌∷◌, ◌++◌, arith, Bytes, ◌==◌, all,
  Bool-cases, inl, inr,
}
use acx_contact_cli.Utils.{onto_first, split, lines}

-- the pieces with the delimiter between them
abbrev pub join : ℕ → List Bytes → Bytes
join d [] = []
join d (piece ∷ []) = piece
join d (piece ∷ next ∷ pieces) = piece ++ (d ∷ join d (next ∷ pieces))

-- no byte is the delimiter
abbrev pub free_of : ℕ → Bytes → Bool
free_of d = all (λ c. not (c == d))

split-ne-nil : (s : Bytes) (d : ℕ) → split s d ≢ []
unfolding split
split-ne-nil [] d e = cc
split-ne-nil (c ∷ s) d e = ground (arith, split-ne-nil s d)

join-onto_first :
    (d c : ℕ) (pieces : List Bytes) → pieces ≢ [] → join d (onto_first c pieces) ≡ c ∷ join d pieces
join-onto_first d c [] h = absurd (h refl)
join-onto_first d c (p ∷ []) h = refl
join-onto_first d c (p ∷ q ∷ r) h = refl

join_delimiter :
    (d : ℕ) (pieces : List Bytes) → pieces ≢ [] → join d ([] ∷ pieces) ≡ d ∷ join d pieces
join_delimiter d [] h = absurd (h refl)
join_delimiter d (p ∷ r) h = refl

join-split : (s : Bytes) (d : ℕ) → join d (split s d) ≡ s
unfolding split
join-split [] d = refl
join-split (c ∷ s) d = elim (Bool-cases (c == d)) [
  | inl e ↦ rw e (
      join_delimiter d (split s d) (split-ne-nil s d)
      ∙ ap (λ x. d ∷ x) (join-split s d)
      ∙ ap (λ x. x ∷ s) (ground arith))
  | inr e ↦ rw e (join-onto_first d c (split s d) (split-ne-nil s d) ∙ ap (◌∷◌ c) (join-split s d))
]

pub all_free-onto_first :
    (d c : ℕ) (pieces : List Bytes)
    → (c == d) ≡ false
    → all (free_of d) pieces ≡ true
    → all (free_of d) (onto_first c pieces) ≡ true
all_free-onto_first d c [] h k = rw h
all_free-onto_first d c (p ∷ r) h k = rw h k

split-free : (s : Bytes) (d : ℕ) → all (free_of d) (split s d) ≡ true
unfolding split
split-free [] d = refl
split-free (c ∷ s) d = elim (Bool-cases (c == d)) [
  | inl e ↦ rw e (split-free s d)
  | inr e ↦ rw e (all_free-onto_first d c (split s d) e (split-free s d))
]

-- The pieces of a split, with the delimiter put back between them, are the text, and no piece
-- holds the delimiter.
pub split_lem :
    (s : Bytes) (d : ℕ) → (join d (split s d) ≡ s) × (all (free_of d) (split s d) ≡ true)
split_lem s d = (join-split s d, split-free s d)

-- A line with no newline in it, and its newline, come first among the lines of a text.
pub lines-append :
    (line rest : Bytes)
    → free_of b'\n' line ≡ true
    → lines (line ++ (b'\n' ∷ rest)) ≡ line ∷ lines rest
unfolding lines
lines-append [] rest h = refl
lines-append (c ∷ line) rest h = elim (Bool-cases (c == b'\n')) [
  | inl e ↦ absurd (ground (arith, h))
  | inr e ↦ rw e (ap (onto_first c) (lines-append line rest (ground (arith, h, e))))
]
