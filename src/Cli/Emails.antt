-- ===== src/Cli/Emails.antt =====
-- The two tests of an email in src/cli.cpp, against each other and against that of src/validation.cpp.
use acx_contact_cli.Prelude.{
  ℕ, ◌≡◌, refl, arith, Bool, true, false, ◌&&◌, ◌||◌, Option, none, some, [], ◌∷◌, Bytes, codes,
  ◌==◌, ||-eq-true, inl, inr,
}
use acx_contact_cli.Validation.{
  is_local_byte, is_domain_byte, match_tld, match_domain, match_local, is_valid_email,
}
use acx_contact_cli.Json.Value.{Json, null, bool, number, string, array, object, lookup}
use acx_contact_cli.Json.Parser.{Result, ok, err, parse}
use acx_contact_cli.Cli.{as_text, json_get_string}
use acx_contact_cli.Cli.Counts.{
  search_tld, search_host, search_user, is_email_like, acceptable, is_valid_line,
}
use acx_contact_cli.Cli.Threads.{has_byte, threaded_acceptable, is_acceptable, is_acceptable_line}

tld-found : (s : Bytes) → match_tld s ≡ true → search_tld s ≡ true
unfolding match_tld search_tld
tld-found [] h = absurd (cc h)
tld-found (a ∷ []) h = absurd (ground (arith, h))
tld-found (a ∷ b ∷ s) h = ground (arith, h)

-- one round of a matcher: the class of the next part, or another byte of this one
round_mono :
    (any here part part' byte more more' : Bool)
    → (part ≡ true → part' ≡ true)
    → (more ≡ true → more' ≡ true)
    → ((any && (here && part)) || (byte && more)) ≡ true
    → ((any && (here && part')) || (byte && more')) ≡ true
round_mono true true true part' byte more more' f g h = rw (f refl) refl
round_mono true true false part' true true more' f g h = rw (g refl) (ground arith)
round_mono true true false part' true false more' f g h = absurd (cc h)
round_mono true true false part' false more more' f g h = absurd (cc h)
round_mono true false part part' true true more' f g h = rw (g refl) refl
round_mono true false part part' true false more' f g h = absurd (cc h)
round_mono true false part part' false more more' f g h = absurd (cc h)
round_mono false here part part' true true more' f g h = rw (g refl) refl
round_mono false here part part' true false more' f g h = absurd (cc h)
round_mono false here part part' false more more' f g h = absurd (cc h)

host-found : (any : Bool) (s : Bytes) → match_domain any s ≡ true → search_host any s ≡ true
unfolding match_domain search_host
host-found any [] h = h
host-found any (c ∷ s) h =
    round_mono any (c == b'.') _ _ (is_domain_byte c) _ _ (tld-found s) (host-found true s) h

user-found : (any : Bool) (s : Bytes) → match_local any s ≡ true → search_user any s ≡ true
unfolding match_local search_user
user-found any [] h = h
user-found any (c ∷ s) h =
    round_mono any (c == b'@') _ _ (is_local_byte c) _ _ (host-found false s) (user-found true s) h

-- Every email that the validation of contacts accepts is one that the line tools accept.
pub is_valid_email_found : (s : Bytes) → is_valid_email s ≡ true → is_email_like s ≡ true
unfolding is_valid_email is_email_like
is_valid_email_found [] h = unfold match_local in h
is_valid_email_found (c ∷ s) h = ground (arith, user-found false (c ∷ s) h)

host-dot : (any : Bool) (s : Bytes) → search_host any s ≡ true → has_byte b'.' s ≡ true
unfolding search_host has_byte
host-dot any [] h = h
host-dot any (c ∷ s) h = ground (arith, h, host-dot true s)

user-both :
    (any : Bool) (s : Bytes)
    → search_user any s ≡ true
    → (has_byte b'@' s ≡ true) × (has_byte b'.' s ≡ true)
unfolding search_user has_byte
user-both any [] h = (h, h)
user-both any (c ∷ s) h = ground (arith, h, host-dot false s, user-both true s)

later_byte : (d c : ℕ) (s : Bytes) → has_byte d s ≡ true → has_byte d (c ∷ s) ≡ true
unfolding has_byte
later_byte d c s h = rw h (ground arith)

like-both :
    (s : Bytes) → is_email_like s ≡ true → (has_byte b'@' s ≡ true) × (has_byte b'.' s ≡ true)
unfolding is_email_like
like-both [] h = absurd (cc h)
like-both (c ∷ s) h = elim (||-eq-true (search_user false (c ∷ s)) (is_email_like s) h) [
  | inl e ↦ user-both false (c ∷ s) e
  | inr e ↦ (let (a, b) = like-both s e in (later_byte b'@' c s a, later_byte b'.' c s b))
]

looser :
    (name email : Option Bytes)
    → acceptable name email ≡ true
    → threaded_acceptable name email ≡ true
looser none email h = h
looser (some n) none h = h
looser (some n) (some e) h = ground (arith, h, like-both e)

module _ {D : Type 0} (stod : Bytes → Option D) where
  -- what the two commands make of a text that was read
  text_accepted :
      (r : Result (Json D))
      → (elim r [
        | ok j ↦ acceptable (json_get_string j (codes "name")) (json_get_string j (codes "email"))
        | err e ↦ false
      ])
        ≡ true
      → (elim r [ ok j ↦ is_acceptable stod j | err e ↦ false ]) ≡ true
  unfolding json_get_string
  text_accepted (ok (object m)) h =
      looser (as_text (lookup (codes "name") m)) (as_text (lookup (codes "email") m)) h
  text_accepted (ok null) h = h
  text_accepted (ok (bool b)) h = h
  text_accepted (ok (number d)) h = h
  text_accepted (ok (string s)) h = h
  text_accepted (ok (array a)) h = h
  text_accepted (err e) h = h

  -- The threaded command accepts every line that the sequential one accepts.
  pub is_valid_line_accepted :
      (line : Bytes) → is_valid_line stod line ≡ true → is_acceptable_line stod line ≡ true
  unfolding is_valid_line is_acceptable_line
  is_valid_line_accepted line h = text_accepted (parse stod line) h
