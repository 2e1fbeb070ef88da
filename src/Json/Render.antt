-- ===== src/Json/Render.antt =====
-- The text of src/jsonl.cpp's `dump_impl` with what follows it pushed inside, piece by piece, and
-- the well-formed values that it writes.
use acx_contact_cli.Prelude.{
  ℕ, ◌+◌, ◌≡◌, refl, Bool, true, ◌||◌, Option, some, ◌∷◌, ◌++◌, Bytes, codes, isdigit, ◌==◌, all,
  append_assoc, if◌then◌else◌, before,
}
use acx_contact_cli.Json.Value.{
  Json, null, bool, number, string, array, object, Items, nil, item, Members, end, member,
}
use acx_contact_cli.Json.Text.{
  quoted, padding, newline, colon, no_items, no_members, comma, unless, dump_impl, dump_items,
  dump_members,
}
use acx_contact_cli.Json.Parser.{is_number_byte}
use acx_contact_cli.Json.Strings.{survives}

module _ {D : Type 0} (print : D → Bytes) (indent : ℕ) where
  unfoldable mutual
    pub onto : Json D → ℕ → Bytes → Bytes
    onto null level r = codes "null" ++ r
    onto (bool b) level r = (if b then codes "true" else codes "false") ++ r
    onto (number d) level r = print d ++ r
    onto (string s) level r = quoted s ++ r
    onto (array vs) level r =
        b'['
        ∷ (unless (no_items vs) (newline indent)
            ++ onto_items vs level (unless (no_items vs) (padding indent level) ++ (b']' ∷ r)))
    onto (object m) level r =
        b'{'
        ∷ (unless (no_members m) (newline indent)
            ++ onto_members m level (unless (no_members m) (padding indent level) ++ (b'}' ∷ r)))

    pub onto_items : Items D → ℕ → Bytes → Bytes
    onto_items nil level r = r
    onto_items (item v vs) level r =
        padding indent (level + 1)
        ++ onto v (level + 1) (comma (no_items vs) ++ (newline indent ++ onto_items vs level r))

    pub onto_members : Members D → ℕ → Bytes → Bytes
    onto_members end level r = r
    onto_members (member k v m) level r =
        padding indent (level + 1)
        ++ (quoted k
            ++ (colon indent
                ++ onto v (level + 1)
                    (comma (no_members m) ++ (newline indent ++ onto_members m level r))))

  mutual
    unfolding dump_impl onto

    dump-onto :
        (j : Json D) (level : ℕ) (r : Bytes) → dump_impl print indent j level ++ r ≡ onto j level r
    dump-onto null level r = refl
    dump-onto (bool b) level r = refl
    dump-onto (number d) level r = refl
    dump-onto (string s) level r = refl
    dump-onto (array vs) level r = simp append_assoc (rw (dump_items-onto vs))
    dump-onto (object m) level r = simp append_assoc (rw (dump_members-onto m))

    dump_items-onto :
        (vs : Items D) (level : ℕ) (r : Bytes)
        → dump_items print indent vs level ++ r ≡ onto_items vs level r
    dump_items-onto nil level r = refl
    dump_items-onto (item v vs) level r = simp append_assoc (rw (dump_items-onto vs, dump-onto v))

    dump_members-onto :
        (m : Members D) (level : ℕ) (r : Bytes)
        → dump_members print indent m level ++ r ≡ onto_members m level r
    dump_members-onto end level r = refl
    dump_members-onto (member k v m) level r =
        simp append_assoc (rw (dump_members-onto m, dump-onto v))

  pub dump_impl-onto :
      (j : Json D) (level : ℕ) (r : Bytes) → dump_impl print indent j level ++ r ≡ onto j level r
  dump_impl-onto j level r = dump-onto j level r

module _ {D : Type 0} where
  -- every key comes before `key`
  abbrev pub AllBefore : Members D → Bytes → Type 0
  AllBefore end key = Unit
  AllBefore (member k v m) key = (before k key ≡ true) × AllBefore m key

  -- every key comes after `key`
  abbrev pub AllAfter : Bytes → Members D → Type 0
  AllAfter key end = Unit
  AllAfter key (member k v m) = (before key k ≡ true) × AllAfter key m

module _ {D : Type 0} (print : D → Bytes) (stod : Bytes → Option D) where
  -- A number whose text is a JSON number that `std::stod` reads back.
  pub record IsReadable (d : D) : Type 0 where
    pub first : ℕ
    pub others : Bytes
    pub shape : print d ≡ first ∷ others
    pub starts : (first == b'-' || (first == b'+' || isdigit first)) ≡ true
    pub bytes : all is_number_byte (print d) ≡ true
    pub reads : stod (print d) ≡ some d

  -- Values with readable numbers, strings whose control bytes all have an escape, and objects whose
  -- keys ascend, as those of a std::map do.
  mutual
    pub data IsClean : Json D → Type 0 where
      null_clean : IsClean null
      bool_clean : (b : Bool) → IsClean (bool b)
      number_clean : (d : D) → IsReadable d → IsClean (number d)
      string_clean : (s : Bytes) → all survives s ≡ true → IsClean (string s)
      array_clean : (vs : Items D) → AreClean vs → IsClean (array vs)
      object_clean : (m : Members D) → MembersAreClean m → IsClean (object m)

    pub data AreClean : Items D → Type 0 where
      nil_clean : AreClean nil
      item_clean : (v : Json D) (vs : Items D) → IsClean v → AreClean vs → AreClean (item v vs)

    pub data MembersAreClean : Members D → Type 0 where
      end_clean : MembersAreClean end
      member_clean :
          (k : Bytes) (v : Json D) (m : Members D)
          → all survives k ≡ true
          → IsClean v
          → AllAfter k m
          → MembersAreClean m
          → MembersAreClean (member k v m)
