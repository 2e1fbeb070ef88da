-- ===== src/Json/RoundTrip.antt =====
-- src/jsonl.cpp: the parser reads back what `dump` writes, at every indentation.
use acx_contact_cli.Prelude.{
  ℕ, zero, suc, ◌+◌, ◌*◌, ◌≤◌, ◌≡◌, refl, ap, ◌∙◌, sym, true, Option, [], ◌∷◌, ◌++◌, arith, Bytes,
  isspace, append-nil, length,
}
use acx_contact_cli.Json.Value.{Json, Items, nil, item, Members, end, member}
use acx_contact_cli.Json.Text.{
  padding, newline, no_items, no_members, comma, unless, dump_impl, dump,
}
use acx_contact_cli.Json.Parser.{
  Result, ok, skip_ws, after_item, after_member, parse_value, parse_items, parse_members, parse,
}
use acx_contact_cli.Json.Render.{
  onto, dump_impl-onto, IsClean, null_clean, bool_clean, number_clean, string_clean, array_clean,
  object_clean, AreClean, nil_clean, item_clean, MembersAreClean, end_clean, member_clean,
}
use acx_contact_cli.Json.Layout.{stops, onto-Head, gap_space}
use acx_contact_cli.Json.Steps.{
  join, join-end, join_assoc, assign_last, Precedes, Precedes-join, Precedes-end, items_step,
  members_step, need, need_items, need_members,
}
use acx_contact_cli.Json.Shapes.{
  items_tail, members_tail, items_tail-stops, members_tail-stops, skip_gap, gap, array_ok,
  object_ok, number_ok, string_ok, null_ok, bool_ok, empty_ok,
}
use acx_contact_cli.Json.Length.{value_length}

module _ {D : Type 0} (print : D → Bytes) (stod : Bytes → Option D) (indent : ℕ) where
  item_close :
      (again : Bytes → Result (Items D × Bytes)) (v : Json D) (level : ℕ) (r : Bytes)
      → after_item stod again v (skip_ws (items_tail print stod indent nil level r))
        ≡ ok (item v nil, r)
  unfolding after_item comma no_items onto isspace
  item_close again v level r = rw (skip_gap print stod indent level b']' r refl)

  item_more :
      (again : Bytes → Result (Items D × Bytes)) (v : Json D) (vs : Items D) (x r : Bytes)
      → again x ≡ ok (vs, r)
      → after_item stod again v (skip_ws (b',' ∷ x)) ≡ ok (item v vs, r)
  unfolding after_item isspace skip_ws
  item_more again v vs x r q = rw q

  member_close :
      (again : Members D → Bytes → Result (Members D × Bytes)) (a : Members D) (level : ℕ)
      (r : Bytes)
      → after_member stod again a (skip_ws (members_tail print stod indent end level r)) ≡ ok (a, r)
  unfolding after_member comma no_members onto isspace
  member_close again a level r = rw (skip_gap print stod indent level b'}' r refl)

  member_more :
      (again : Members D → Bytes → Result (Members D × Bytes)) (a : Members D) (x : Bytes)
      → after_member stod again a (skip_ws (b',' ∷ x)) ≡ again a x
  unfolding after_member isspace skip_ws
  member_more again a x = refl

  mutual
    unfolding onto need unless no_items no_members comma

    value_ok :
        {j : Json D}
        → IsClean print stod j
        → (level f : ℕ) (r : Bytes) → need j ≤ f
        → stops r ≡ true
        → parse_value stod f (onto print indent j level r) ≡ ok (j, r)
    value_ok null_clean level zero r h s = absurd (omega arith)
    value_ok null_clean level (suc f) r h s = null_ok print stod indent f r
    value_ok (bool_clean b) level zero r h s = absurd (omega arith)
    value_ok (bool_clean b) level (suc f) r h s = bool_ok print stod indent f b r
    value_ok (number_clean d n) level zero r h s = absurd (omega arith)
    value_ok (number_clean d n) level (suc f) r h s = number_ok print stod indent f d r n s
    value_ok (string_clean t c) level zero r h s = absurd (omega arith)
    value_ok (string_clean t c) level (suc f) r h s = string_ok print stod indent f t r c
    value_ok (array_clean vs c) level zero r h s = absurd (omega arith)
    value_ok (array_clean vs nil_clean) level (suc f) r h s = (empty_ok print stod indent f r).0
    value_ok (array_clean _ (item_clean v vs cv cvs)) level (suc zero) r h s = absurd (omega arith)
    value_ok (array_clean _ (item_clean v vs cv cvs)) level (suc (suc f)) r h s =
        array_ok print stod indent (suc f) (level + 1) _ r (item v vs)
          (onto-Head print stod indent cv _ _)
          (items_step stod f v vs [] _ _ r refl (onto-Head print stod indent cv _ _)
            (value_ok cv (level + 1) f (items_tail print stod indent vs level r) (omega arith)
              (items_tail-stops print stod indent vs level r))
            (items_ok cvs v level f r (omega arith)))
    value_ok (object_clean m c) level zero r h s = absurd (omega arith)
    value_ok (object_clean m end_clean) level (suc f) r h s = (empty_ok print stod indent f r).1
    value_ok (object_clean _ (member_clean k v m ck cv am cm)) level (suc zero) r h s =
        absurd (omega arith)
    value_ok (object_clean _ (member_clean k v m ck cv am cm)) level (suc (suc f)) r h s =
        object_ok print stod indent (suc f) (level + 1) k _ r (member k v m) (
          members_step stod indent f end k v (member k v m) [] _ _ r refl ck
            (onto-Head print stod indent cv _ _)
            (value_ok cv (level + 1) f (members_tail print stod indent m level r) (omega arith)
              (members_tail-stops print stod indent m level r))
            (rw (assign_last k v end tt) (
              members_ok cm (member k v end) level f r (Precedes-join end m k v (Precedes-end m) am)
                (omega arith))))

    items_ok :
        {vs : Items D}
        → AreClean print stod vs
        → (v : Json D) (level f : ℕ) (r : Bytes) → need_items vs ≤ f
        → after_item stod (parse_items stod f) v (skip_ws (items_tail print stod indent vs level r))
          ≡ ok (item v vs, r)
    items_ok nil_clean v level f r h = item_close (parse_items stod f) v level r
    items_ok (item_clean w ws cw cws) v level zero r h = absurd (omega arith)
    items_ok (item_clean w ws cw cws) v level (suc f) r h =
        item_more (parse_items stod (suc f)) v (item w ws) _ r (
          ap (parse_items stod (suc f)) (gap print stod indent (level + 1) _)
          ∙ items_step stod f w ws (newline indent ++ padding indent (level + 1)) _ _ r
              (gap_space indent (level + 1)) (onto-Head print stod indent cw _ _)
              (value_ok cw (level + 1) f (items_tail print stod indent ws level r) (omega arith)
                (items_tail-stops print stod indent ws level r))
              (items_ok cws w level f r (omega arith)))

    members_ok :
        {m : Members D}
        → MembersAreClean print stod m
        → (a : Members D) (level f : ℕ) (r : Bytes) → Precedes a m
        → need_members m ≤ f
        → after_member stod
            (parse_members stod f)
            a
            (skip_ws (members_tail print stod indent m level r))
          ≡ ok (join a m, r)
    members_ok end_clean a level f r p h =
        member_close (parse_members stod f) a level r ∙ ap (λ x. ok (x, r)) (sym (join-end a))
    members_ok (member_clean k v m ck cv am cm) a level zero r p h = absurd (omega arith)
    members_ok (member_clean k v m ck cv am cm) a level (suc f) r p h =
        member_more (parse_members stod (suc f)) a _
        ∙ ap (parse_members stod (suc f) a) (gap print stod indent (level + 1) _)
        ∙ members_step stod indent f a k v (join a (member k v m))
            (newline indent ++ padding indent (level + 1)) _ _ r (gap_space indent (level + 1)) ck
            (onto-Head print stod indent cv _ _)
            (value_ok cv (level + 1) f (members_tail print stod indent m level r) (omega arith)
              (members_tail-stops print stod indent m level r))
            (rw (assign_last k v a p.0) (
              members_ok cm (join a (member k v end)) level f r (Precedes-join a m k v p.1 am)
                (omega arith)
              ∙ ap (λ x. ok (x, r)) (join_assoc a (member k v end) m)))

  dump-eq-onto : (j : Json D) → dump print indent j ≡ onto print indent j 0 []
  unfolding dump
  dump-eq-onto j =
      sym (append-nil (dump_impl print indent j 0)) ∙ dump_impl-onto print indent j 0 []

  -- Parsing the text that `dump` writes for a value gives the value back, at every indentation,
  -- where the value's numbers are readable, its strings and keys have no control byte without an
  -- escape of its own, and the keys of its objects ascend.
  pub parse-dump : {j : Json D} → IsClean print stod j → parse stod (dump print indent j) ≡ ok j
  parse-dump {j} c =
      ap (parse stod) (dump-eq-onto j)
      ∙ unfold parse in
        (rw (
          value_ok c 0 (2 * length (onto print indent j 0 []) + 1) []
            (omega (arith, value_length print stod indent c 0 [])) refl))
