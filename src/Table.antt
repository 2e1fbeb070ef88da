-- ===== src/Table.antt =====
-- std::unordered_map<std::string, size_t>, as src/model.hpp's `ContactBook` holds two. The order in
-- which such a map is walked is the library's own; here it is the order of the entries. And sets of
-- texts.
use acx_contact_cli.Prelude.{
  ℕ, ◌≡◌, refl, Bool, false, ◌||◌, Option, none, some, List, [], ◌∷◌, arith, Bytes, same, same_iff,
  if◌then◌else◌,
}

abbrev pub Table : Type 0
Table = List (Bytes × ℕ)

unfoldable pub find : Bytes → Table → Option ℕ
find k [] = none
find k ((j, i) ∷ t) = if same j k then some i else find k t

-- `t[k] = i`
unfoldable pub put : Bytes → ℕ → Table → Table
put k i [] = (k, i) ∷ []
put k i ((j, n) ∷ t) = let rest = put k i t in if same j k then (k, i) ∷ t else (j, n) ∷ rest

unfoldable pub erase : Bytes → Table → Table
erase k [] = []
erase k ((j, i) ∷ t) = let rest = erase k t in if same j k then rest else (j, i) ∷ rest

-- `seen.count(key)`, on a std::set or a std::unordered_set of texts as the list of its members
unfoldable pub holds : Bytes → List Bytes → Bool
holds key [] = false
holds key (k ∷ seen) = same key k || holds key seen

pub find-put :
    (k j : Bytes) (i : ℕ) (t : Table) → find j (put k i t) ≡ (if same k j then some i else find j t)
unfolding find put
find-put k j i [] = refl
find-put k j i ((m, n) ∷ t) =
    ground (arith, same_iff k j, same_iff m k, same_iff m j, find-put k j i t)

pub find-erase :
    (k j : Bytes) (t : Table) → find j (erase k t) ≡ (if same k j then none else find j t)
unfolding find erase
find-erase k j [] = ground arith
find-erase k j ((m, n) ∷ t) =
    ground (arith, same_iff k j, same_iff m k, same_iff m j, find-erase k j t)
