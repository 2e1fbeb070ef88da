-- ===== src/Utils.antt =====
-- src/utils.cpp: `split` and `trim`; and the loop over lines that src/jsonl.cpp, src/merge.cpp and
-- every `std::getline` of the program share.
pub mod Split
use acx_contact_cli.Prelude.{
  ℕ, zero, suc, ◌+◌, ◌-◌, Bool, true, false, ◌&&◌, List, [], ◌∷◌, Bytes, isspace, ltb, ◌==◌,
  if◌then◌else◌, length, get_elem?, take, drop, Option, none, some,
}

-- a byte in front of the first piece
abbrev pub onto_first : ℕ → List Bytes → List Bytes
onto_first c [] = (c ∷ []) ∷ []
onto_first c (piece ∷ pieces) = (c ∷ piece) ∷ pieces

-- `split(s, d)`: a piece for every delimiter, and one behind the last
unfoldable pub split : Bytes → ℕ → List Bytes
split [] d = [] ∷ []
split (c ∷ s) d = let rest = split s d in if c == d then [] ∷ rest else onto_first c rest

-- The lines of a text, as std::getline delivers them: no empty line behind the last newline.
unfoldable pub lines : Bytes → List Bytes
lines [] = []
lines (c ∷ s) = let rest = lines s in if c == b'\n' then [] ∷ rest else onto_first c rest

-- `isspace(s[i])`, for `i` in range
unfoldable pub space_at : Bytes → ℕ → Bool
unfolding isspace
space_at s i = elim (get_elem? s i) [ some c ↦ isspace c | none ↦ false ]

-- `while (a<b && isspace(s[a])) ++a;` with the rounds that are left
unfoldable pub trim_start : Bytes → ℕ → ℕ → ℕ
unfolding space_at
trim_start s a zero = a
trim_start s a (suc left) = let next = trim_start s (a + 1) left in if space_at s a then next else a

-- `while (b>a && isspace(s[b-1])) --b;`
unfoldable pub trim_end : Bytes → ℕ → ℕ → ℕ
unfolding space_at
trim_end s a zero = zero
trim_end s a (suc b) =
    let next = trim_end s a b in if ltb a (suc b) && space_at s b then next else suc b

unfoldable pub trim : Bytes → Bytes
unfolding trim_start trim_end
trim s =
    let a = trim_start s 0 (length s) in let b = trim_end s a (length s) in take (b - a) (drop a s)
