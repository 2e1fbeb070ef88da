-- ===== src/Json/Length.antt =====
-- src/jsonl.cpp: the text of a value is longer than half the fuel that reading it takes.
use acx_contact_cli.Prelude.{
  ℕ, ◌+◌, ◌*◌, ◌≤◌, true, false, Option, [], ◌∷◌, ◌++◌, arith, Bytes, length, length-append,
}
use acx_contact_cli.Json.Value.{Json, Items, Members}
use acx_contact_cli.Json.Text.{
  quoted, escape, padding, newline, colon, no_items, no_members, comma, unless,
}
use acx_contact_cli.Json.Render.{
  onto, onto_items, onto_members, IsReadable, IsClean, null_clean, bool_clean, number_clean,
  string_clean, array_clean, object_clean, AreClean, nil_clean, item_clean, MembersAreClean,
  end_clean, member_clean,
}
use acx_contact_cli.Json.Steps.{need, need_items, need_members}

module _ {D : Type 0} (print : D → Bytes) (stod : Bytes → Option D) (indent : ℕ) where
  pub length-append-le : (w s : Bytes) → length s ≤ length (w ++ s)
  length-append-le w s = omega (arith, length-append w s)

  pub readable_length :
      (d : D) (r : Bytes) → IsReadable print stod d → 1 + length r ≤ length (print d ++ r)
  readable_length d r n = rw n.shape (omega (arith, length-append-le n.others r))

  pub quoted-length : (t r : Bytes) → 1 + length r ≤ length (quoted t ++ r)
  unfolding quoted
  quoted-length t r = omega (arith, length-append-le (escape t ++ b'"' ∷ []) r)

  -- each value is longer than half the fuel that it needs
  mutual
    unfolding onto need unless

    pub value_length :
        {j : Json D}
        → IsClean print stod j
        → (level : ℕ) (r : Bytes)
        → need j + 2 * length r + 1 ≤ 2 * length (onto print indent j level r)
    value_length null_clean level r = omega arith
    value_length (bool_clean true) level r = omega arith
    value_length (bool_clean false) level r = omega arith
    value_length (number_clean d n) level r = omega (arith, readable_length d r n)
    value_length (string_clean t c) level r = omega (arith, quoted-length t r)
    value_length (array_clean vs c) level r =
        let close = unless (no_items vs) (padding indent level) in
        omega (
          arith,
          length-append-le (unless (no_items vs) (newline indent))
              (onto_items print indent vs level (close ++ (b']' ∷ r))),
          items_length c level (close ++ (b']' ∷ r)),
          length-append-le close (b']' ∷ r),
        )
    value_length (object_clean m c) level r =
        let close = unless (no_members m) (padding indent level) in
        omega (
          arith,
          length-append-le (unless (no_members m) (newline indent))
              (onto_members print indent m level (close ++ (b'}' ∷ r))),
          members_length c level (close ++ (b'}' ∷ r)),
          length-append-le close (b'}' ∷ r),
        )

    items_length :
        {vs : Items D}
        → AreClean print stod vs
        → (level : ℕ) (r : Bytes)
        → need_items vs + 2 * length r ≤ 2 * length (onto_items print indent vs level r)
    items_length nil_clean level r = omega arith
    items_length (item_clean v vs cv cvs) level r =
        let rest = newline indent ++ onto_items print indent vs level r in
        let tail = comma (no_items vs) ++ rest in
        omega (
          arith,
          length-append-le (padding indent (level + 1)) (onto print indent v (level + 1) tail),
          value_length cv (level + 1) tail,
          length-append-le (comma (no_items vs)) rest,
          length-append-le (newline indent) (onto_items print indent vs level r),
          items_length cvs level r,
        )

    members_length :
        {m : Members D}
        → MembersAreClean print stod m
        → (level : ℕ) (r : Bytes)
        → need_members m + 2 * length r ≤ 2 * length (onto_members print indent m level r)
    members_length end_clean level r = omega arith
    members_length (member_clean k v m ck cv am cm) level r =
        let rest = newline indent ++ onto_members print indent m level r in
        let tail = comma (no_members m) ++ rest in
        let value = onto print indent v (level + 1) tail in
        omega (
          arith,
          length-append-le (padding indent (level + 1)) (quoted k ++ (colon indent ++ value)),
          length-append-le (quoted k) (colon indent ++ value),
          length-append-le (colon indent) value,
          value_length cv (level + 1) tail,
          length-append-le (comma (no_members m)) rest,
          length-append-le (newline indent) (onto_members print indent m level r),
          members_length cm level r,
        )
