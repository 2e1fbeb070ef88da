-- ===== src/Json/Steps.antt =====
-- src/jsonl.cpp: fuel enough for a value, and single steps of the loops over elements.
use acx_contact_cli.Prelude.{
  ℕ, suc, ◌+◌, ◌≡◌, refl, ap, true, false, Option, [], ◌∷◌, ◌++◌, arith, Bytes, isspace, ◌==◌, all,
  before, same, Bool-cases, inl, inr,
}
use acx_contact_cli.Json.Value.{
  Json, null, bool, number, string, array, object, Items, nil, item, Members, end, member, assign,
}
use acx_contact_cli.Json.Text.{quoted, colon}
use acx_contact_cli.Json.Parser.{
  ok, skip_ws, after_item, after_member, expect_colon, parse_value, parse_items, parse_members,
}
use acx_contact_cli.Json.Strings.{
  survives, parse_string-quoted, keep-all, skip_ws-append, skip_ws_solid,
}
use acx_contact_cli.Json.Render.{AllBefore, AllAfter}
use acx_contact_cli.Json.Layout.{Head, Head-skip_ws}

-- the depth of fuel that reading a value back takes
module _ {D : Type 0} where
  unfoldable mutual
    pub need : Json D → ℕ
    need null = 1
    need (bool b) = 1
    need (number d) = 1
    need (string s) = 1
    need (array vs) = suc (need_items vs)
    need (object m) = suc (need_members m)

    pub need_items : Items D → ℕ
    need_items nil = 0
    need_items (item v vs) = suc (need v + need_items vs)

    pub need_members : Members D → ℕ
    need_members end = 0
    need_members (member k v m) = suc (need v + need_members m)

  -- the members of one map, then those of another
  abbrev pub join : Members D → Members D → Members D
  join end m = m
  join (member k v a) m = member k v (join a m)

  pub join-end : (a : Members D) → join a end ≡ a
  join-end end = refl
  join-end (member k v a) = ap (member k v) (join-end a)

  pub join_assoc : (a b c : Members D) → join (join a b) c ≡ join a (join b c)
  join_assoc end b c = refl
  join_assoc (member k v a) b c = ap (member k v) (join_assoc a b c)

pub before_not : (a b : Bytes) → before a b ≡ true → (same b a ≡ false) × (before b a ≡ false)
unfolding before same
before_not [] (y ∷ b) h = (refl, refl)
before_not (x ∷ a) (y ∷ b) h = (ground (arith, before_not a b), ground (arith, before_not a b))
before_not [] [] h = absurd (cc)
before_not (x ∷ a) [] h = absurd (cc)

module _ {D : Type 0} where
  pub assign_last :
      (k : Bytes) (v : Json D) (a : Members D)
      → AllBefore a k
      → assign k v a ≡ join a (member k v end)
  unfolding assign
  assign_last k v end h = refl
  assign_last k v (member k' v' a) h =
      let (p, q) = before_not k' k h.0 in rw (p, q) (ap (member k' v') (assign_last k v a h.1))

  -- every key of the first map comes before every key of the second
  abbrev pub Precedes : Members D → Members D → Type 0
  Precedes a end = Unit
  Precedes a (member k v m) = AllBefore a k × Precedes a m

  pub AllBefore-join :
      (a : Members D) (k k' : Bytes) (v : Json D)
      → AllBefore a k'
      → before k k' ≡ true
      → AllBefore (join a (member k v end)) k'
  AllBefore-join end k k' v h p = (p, tt)
  AllBefore-join (member _ _ a) k k' v h p = (h.0, AllBefore-join a k k' v h.1 p)

  pub Precedes-join :
      (a m : Members D) (k : Bytes) (v : Json D)
      → Precedes a m
      → AllAfter k m
      → Precedes (join a (member k v end)) m
  Precedes-join a end k v h p = tt
  Precedes-join a (member k' v' m) k v h p =
      (AllBefore-join a k k' v h.0 p.0, Precedes-join a m k v h.1 p.1)

  pub Precedes-end : (m : Members D) → Precedes end m
  Precedes-end end = tt
  Precedes-end (member k v m) = (tt, Precedes-end m)

module _ {D : Type 0} (stod : Bytes → Option D) where
  -- one round of the loop over an array, given its two results
  pub items_step :
      (f : ℕ) (v : Json D) (vs : Items D) (w s t r : Bytes)
      → all isspace w ≡ true
      → Head s
      → parse_value stod f s ≡ ok (v, t)
      → after_item stod (parse_items stod f) v (skip_ws t) ≡ ok (item v vs, r)
      → parse_items stod (suc f) (w ++ s) ≡ ok (item v vs, r)
  unfolding parse_items
  items_step f v vs w s t r h k p q = rw (Head-skip_ws w s h k, p) q

  pub colon_ok :
      (indent : ℕ) (s : Bytes) → Head s → expect_colon stod (skip_ws (colon indent ++ s)) ≡ ok s
  unfolding expect_colon colon isspace
  colon_ok indent s k = elim (Bool-cases (indent == 0)) [
    | inl e ↦ rw e (rw (skip_ws_solid b':' s refl) (ap ok (Head-skip_ws [] s refl k)))
    | inr e ↦
        rw e (rw (skip_ws_solid b':' (b' ' ∷ s) refl) (ap ok (Head-skip_ws (b' ' ∷ []) s refl k)))
  ]

  -- one round of the loop over an object, given its two results
  pub members_step :
      (indent f : ℕ) (a : Members D) (k : Bytes) (v : Json D) (m : Members D) (w s t r : Bytes)
      → all isspace w ≡ true
      → all survives k ≡ true
      → Head s
      → parse_value stod f s ≡ ok (v, t)
      → after_member stod (parse_members stod f) (assign k v a) (skip_ws t) ≡ ok (m, r)
      → parse_members stod (suc f) a (w ++ (quoted k ++ (colon indent ++ s))) ≡ ok (m, r)
  unfolding parse_members isspace
  members_step indent f a k v m w s t r h c hd p q =
      rw
        (
          skip_ws-append w (quoted k ++ (colon indent ++ s)) h,
          quoted_solid k (colon indent ++ s),
          parse_string-quoted k (colon indent ++ s),
          keep-all k c,
        )
        (rw (colon_ok indent s hd, p) q)
    where
      quoted_solid : (k x : Bytes) → skip_ws (quoted k ++ x) ≡ quoted k ++ x
      quoted_solid k x = unfold quoted in skip_ws_solid b'"' _ refl
