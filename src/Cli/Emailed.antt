-- ===== src/Cli/Emailed.antt =====
-- The std::set of emails that `acx_report_cmd` and `acx_diff_cmd` of src/cli.cpp gather.
use acx_contact_cli.Prelude.{
  ◌≡◌, ◌↔◌, ◌⊎◌, refl, ap, ◌∙◌, sym, ||-eq-true, same_refl, codes, arith, Bool, true, false, ◌||◌,
  Option, none, some, List, [], ◌∷◌, Bytes, same, same_iff, before, Bool-cases, inl, inr,
}
use acx_contact_cli.Json.Value.{Json, null, bool, number, string, array, object, Members, lookup}
use acx_contact_cli.Json.Parser.{Result, ok, err, parse}
use acx_contact_cli.Cli.{as_text, json_get_string}
use acx_contact_cli.Table.{holds}
use acx_contact_cli.Diff.{insert}
use acx_contact_cli.DiskIndex.Search.{before-cases}
use acx_contact_cli.Cli.Counts.{email_of, emails_of, with_email}

-- each text comes before the next
abbrev pub Ascends : List Bytes → Type 0
Ascends [] = Unit
Ascends (a ∷ []) = Unit
Ascends (a ∷ b ∷ rest) = (before a b ≡ true) × Ascends (b ∷ rest)

-- in front of a list, where it may stand
abbrev Leads : Bytes → List Bytes → Type 0
Leads a [] = Unit
Leads a (b ∷ rest) = before a b ≡ true

lead : (a : Bytes) (ids : List Bytes) → Leads a ids → Ascends ids → Ascends (a ∷ ids)
lead a [] l s = tt
lead a (b ∷ rest) l s = (l, s)

leads : (a : Bytes) (ids : List Bytes) → Ascends (a ∷ ids) → Leads a ids
leads a [] s = tt
leads a (b ∷ rest) s = s.0

tail : (a : Bytes) (ids : List Bytes) → Ascends (a ∷ ids) → Ascends ids
tail a [] s = tt
tail a (b ∷ rest) s = s.1

Leads-insert :
    (a id : Bytes) (ids : List Bytes) → before a id ≡ true → Leads a ids → Leads a (insert id ids)
unfolding insert
Leads-insert a id [] h l = h
Leads-insert a id (k ∷ ids) h l = elim (Bool-cases (same k id)) [
  | inl e ↦ rw (e, insert) l
  | inr e ↦ elim (Bool-cases (before id k)) [
    | inl f ↦ rw (e, insert) (rw f h)
    | inr f ↦ rw (e, insert) (rw f l)
  ]
]

same-sym : (a b : Bytes) → same a b ≡ false → same b a ≡ false
same-sym a b h = ground (arith, h, same_iff a b, same_iff b a)

Ascends-insert : (id : Bytes) (ids : List Bytes) → Ascends ids → Ascends (insert id ids)
unfolding insert
Ascends-insert id [] s = tt
Ascends-insert id (k ∷ ids) s = elim (Bool-cases (same k id)) [
  | inl e ↦ rw (e, insert) s
  | inr e ↦ elim (Bool-cases (before id k)) [
    | inl f ↦ rw (e, insert) (rw f (f, s))
    | inr f ↦
        rw (e, insert)
          (rw f (
            lead k (insert id ids)
              (Leads-insert k id ids (before-cases id k (same-sym k id e) f) (leads k ids s))
              (Ascends-insert id ids (tail k ids s))))
  ]
]

holds-insert :
    (e id : Bytes) (ids : List Bytes) → holds e (insert id ids) ≡ (same e id || holds e ids)
unfolding holds insert
holds-insert e id [] = refl
holds-insert e id (k ∷ ids) =
    ground (arith, holds-insert e id ids, same_iff k id, same_iff e id, same_iff e k)

-- whether an email is one of a text
abbrev is_the : Bytes → Option Bytes → Bool
is_the e none = false
is_the e (some f) = same e f

or_true : (b : Bool) → (b || true) ≡ true
or_true true = refl
or_true false = refl

with_email-Ascends :
    (o : Option Bytes) (found : List Bytes) → Ascends found → Ascends (with_email o found)
unfolding with_email
with_email-Ascends none found s = s
with_email-Ascends (some email) found s = Ascends-insert email found s

holds-with_email :
    (e : Bytes) (o : Option Bytes) (found : List Bytes)
    → holds e (with_email o found) ≡ (is_the e o || holds e found)
unfolding with_email
holds-with_email e none found = refl
holds-with_email e (some email) found = holds-insert e email found

module _ {D : Type 0} (stod : Bytes → Option D) where
  -- a line that is an object whose member "email" is the text
  abbrev pub SaysEmail : Bytes → Bytes → Type 0
  SaysEmail e line =
      (m : Members D) × (parse stod line ≡ ok (object m))
      × (lookup (codes "email") m ≡ some (string e))

  -- one of the lines is such a line
  abbrev pub Says : Bytes → List Bytes → Type 0
  Says e [] = ⊥
  Says e (line ∷ rest) = SaysEmail e line ⊎ Says e rest

  text_is : (e : Bytes) (o : Option (Json D)) → is_the e (as_text o) ≡ true → o ≡ some (string e)
  text_is e none h = absurd (cc h)
  text_is e (some (string s)) h = ap (λ t. some (string t)) (sym ((same_iff e s).0 h))
  text_is e (some null) h = absurd (cc h)
  text_is e (some (bool b)) h = absurd (cc h)
  text_is e (some (number d)) h = absurd (cc h)
  text_is e (some (array a)) h = absurd (cc h)
  text_is e (some (object m)) h = absurd (cc h)

  object_says :
      (e : Bytes) (j : Json D)
      → is_the e (json_get_string j (codes "email")) ≡ true
      → (m : Members D) × (j ≡ object m) × (lookup (codes "email") m ≡ some (string e))
  unfolding json_get_string
  object_says e (object m) h = (m, refl, text_is e (lookup (codes "email") m) h)
  object_says e null h = absurd (cc h)
  object_says e (bool b) h = absurd (cc h)
  object_says e (number d) h = absurd (cc h)
  object_says e (string s) h = absurd (cc h)
  object_says e (array a) h = absurd (cc h)

  result_says :
      (e : Bytes) (r : Result (Json D))
      → is_the e (elim r [ ok j ↦ json_get_string j (codes "email") | err x ↦ none ]) ≡ true
      → (m : Members D) × (r ≡ ok (object m)) × (lookup (codes "email") m ≡ some (string e))
  result_says e (ok j) h = let (m, q, l) = object_says e j h in (m, ap ok q, l)
  result_says e (err x) h = absurd (cc h)

  -- the email of a line is the one that the line says
  email_of_iff : (e line : Bytes) → (is_the e (email_of stod line) ≡ true) ↔ SaysEmail e line
  unfolding email_of json_get_string
  email_of_iff e line =
      (result_says e (parse stod line), λ (m, q, l). rw (q, email_of) (rw l (same_refl e)))

  -- what the loop adds to what was found before
  emails_from :
      (ls found : List Bytes)
      → Ascends found
      → Ascends (emails_of stod ls found)
        × ((e : Bytes)
            → (holds e (emails_of stod ls found) ≡ true) ↔ (Says e ls ⊎ (holds e found ≡ true)))
  unfolding emails_of
  emails_from [] found s = (s, λ e. (λ h. inr h, either_back))
    where
      either_back : {A : Type 0} → ⊥ ⊎ A → A
      either_back (inl x) = elim x [ ]
      either_back (inr a) = a
  emails_from (line ∷ rest) found s =
      let (ascending, members) =
        emails_from rest (with_email (email_of stod line) found)
          (with_email-Ascends (email_of stod line) found s) in
      (ascending, λ e. regrouped e (members e))
    where
      regrouped :
          {A : Type 0} (e : Bytes)
          → (A ↔ (Says e rest ⊎ (holds e (with_email (email_of stod line) found) ≡ true)))
          → A ↔ ((SaysEmail e line ⊎ Says e rest) ⊎ (holds e found ≡ true))
      regrouped e (to, back) = (
        λ a. elim (to a) [
          | inl r ↦ inl (inr r)
          | inr h ↦
              elim (||-eq-true (is_the e (email_of stod line)) (holds e found)
                (sym (holds-with_email e (email_of stod line) found) ∙ h)) [
                  | inl b ↦ inl (inl ((email_of_iff e line).0 b))
                  | inr f ↦ inr f
                ]
        ],
        λ x. elim x [
          | inl (inl q) ↦ back (
              inr (
                holds-with_email e (email_of stod line) found
                ∙ ap (λ b. b || holds e found) ((email_of_iff e line).1 q)))
          | inl (inr r) ↦ back (inl r)
          | inr f ↦ back (
              inr (
                holds-with_email e (email_of stod line) found
                ∙ ap (λ b. is_the e (email_of stod line) || b) f
                ∙ or_true (is_the e (email_of stod line))))
        ],
      )

  -- The emails gathered from lines ascend strictly, and a text is one of them exactly when some line
  -- parses as an object whose member "email" is that text.
  pub emails_of_lem :
      (ls : List Bytes)
      → Ascends (emails_of stod ls [])
        × ((e : Bytes) → (holds e (emails_of stod ls []) ≡ true) ↔ Says e ls)
  unfolding holds
  emails_of_lem ls =
      let (ascending, members) = emails_from ls [] tt in
      (ascending, λ e. (λ h. none_before ((members e).0 h), λ q. (members e).1 (inl q)))
    where
      none_before : {A : Type 0} → A ⊎ ◌≡◌ {A = Bool} false true → A
      none_before (inl a) = a
      none_before (inr h) = absurd (cc h)
