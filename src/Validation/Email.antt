-- ===== src/Validation/Email.antt =====
-- The matcher of `is_valid_email` accepts the language of the program's regular expression.
use acx_contact_cli.Prelude.{
  ◌≡◌, ◌≢◌, ◌↔◌, refl, ◌⊎◌, inl, inr, Bool, true, false, ◌&&◌, [], ◌∷◌, ◌++◌, arith, Bytes, isalpha,
  leb, length, all, ◌==◌, ==_iff, ap, &&-eq-true, ||-eq-true,
}
use acx_contact_cli.Validation.{
  is_local_byte, is_domain_byte, match_tld, match_domain, match_local, is_valid_email,
}

-- The parts of an address: `user@host.tld`.
pub record IsAddress (s : Bytes) : Type 0 where
  pub user : Bytes
  pub host : Bytes
  pub tld : Bytes
  pub splits : s ≡ user ++ (b'@' ∷ (host ++ (b'.' ∷ tld)))
  pub user_ne_nil : user ≢ []
  pub user_bytes : all is_local_byte user ≡ true
  pub host_ne_nil : host ≢ []
  pub host_bytes : all is_domain_byte host ≡ true
  pub tld_long : leb 2 (length tld) ≡ true
  pub tld_letters : all isalpha tld ≡ true

-- a host and a top-level domain, where the flag allows an empty host
record IsHost (seen : Bool) (s : Bytes) : Type 0 where
  host : Bytes
  tld : Bytes
  splits : s ≡ host ++ (b'.' ∷ tld)
  some_byte : (seen ≡ true) ⊎ (host ≢ [])
  host_bytes : all is_domain_byte host ≡ true
  tld_ok : match_tld tld ≡ true

match_domain-IsHost : (seen : Bool) (s : Bytes) → match_domain seen s ≡ true → IsHost seen s
unfolding match_domain
match_domain-IsHost seen [] h = absurd (cc)
match_domain-IsHost seen (c ∷ cs) h = elim (||-eq-true (seen && (c == b'.' && match_tld cs)) _ h) [
  | inl stop ↦
      let (s, r) = &&-eq-true seen _ stop in
      let (d, t) = &&-eq-true (c == b'.') _ r in
      record {
        host = [];
        tld = cs;
        splits = ap (λ x. x ∷ cs) ((==_iff c b'.').0 d);
        some_byte = inl s;
        host_bytes = refl;
        tld_ok = t;
      }
  | inr more ↦
      let (b, m) = &&-eq-true (is_domain_byte c) _ more in
      let r = match_domain-IsHost true cs m in
      record {
        host = c ∷ r.host;
        tld = r.tld;
        splits = cc (r.splits);
        some_byte = inr (λ e. cc);
        host_bytes = rw (b, r.host_bytes);
        tld_ok = r.tld_ok;
      }
]

match_domain_complete :
    (seen : Bool) (host tld : Bytes)
    → (seen ≡ true) ⊎ (host ≢ [])
    → all is_domain_byte host ≡ true
    → match_tld tld ≡ true
    → match_domain seen (host ++ (b'.' ∷ tld)) ≡ true
unfolding match_domain
match_domain_complete seen [] tld (inl e) hb ht = ground arith
match_domain_complete seen [] tld (inr n) hb ht = absurd (n refl)
match_domain_complete seen (c ∷ cs) tld sb hb ht =
    ground (arith, match_domain_complete true cs tld (inl refl))

record IsUser (seen : Bool) (s : Bytes) : Type 0 where
  user : Bytes
  rest : Bytes
  splits : s ≡ user ++ (b'@' ∷ rest)
  some_byte : (seen ≡ true) ⊎ (user ≢ [])
  user_bytes : all is_local_byte user ≡ true
  rest_ok : match_domain false rest ≡ true

match_local-IsUser : (seen : Bool) (s : Bytes) → match_local seen s ≡ true → IsUser seen s
unfolding match_local
match_local-IsUser seen [] h = absurd (cc)
match_local-IsUser seen (c ∷ cs) h =
    elim (||-eq-true (seen && (c == b'@' && match_domain false cs)) _ h) [
      | inl stop ↦
          let (s, r) = &&-eq-true seen _ stop in
          let (d, t) = &&-eq-true (c == b'@') _ r in
          record {
            user = [];
            rest = cs;
            splits = ap (λ x. x ∷ cs) ((==_iff c b'@').0 d);
            some_byte = inl s;
            user_bytes = refl;
            rest_ok = t;
          }
      | inr more ↦
          let (b, m) = &&-eq-true (is_local_byte c) _ more in
          let r = match_local-IsUser true cs m in
          record {
            user = c ∷ r.user;
            rest = r.rest;
            splits = cc (r.splits);
            some_byte = inr (λ e. cc);
            user_bytes = rw (b, r.user_bytes);
            rest_ok = r.rest_ok;
          }
    ]

match_local_complete :
    (seen : Bool) (user rest : Bytes)
    → (seen ≡ true) ⊎ (user ≢ [])
    → all is_local_byte user ≡ true
    → match_domain false rest ≡ true
    → match_local seen (user ++ (b'@' ∷ rest)) ≡ true
unfolding match_local
match_local_complete seen [] rest (inl e) hb ht = ground arith
match_local_complete seen [] rest (inr n) hb ht = absurd (n refl)
match_local_complete seen (c ∷ cs) rest sb hb ht =
    ground (arith, match_local_complete true cs rest (inl refl))

no_flag : {P : Type 0} → (false ≡ true) ⊎ P → P
no_flag (inl e) = absurd (cc)
no_flag (inr p) = p

IsAddress-of : (s : Bytes) → is_valid_email s ≡ true → IsAddress s
unfolding is_valid_email match_tld
IsAddress-of s h =
    let u = match_local-IsUser false s h in
    let d = match_domain-IsHost false u.rest u.rest_ok in
    record {
      user = u.user;
      host = d.host;
      tld = d.tld;
      splits = cc (u.splits, d.splits);
      user_ne_nil = no_flag u.some_byte;
      user_bytes = u.user_bytes;
      host_ne_nil = no_flag d.some_byte;
      host_bytes = d.host_bytes;
      tld_long = ground (arith, d.tld_ok);
      tld_letters = ground (arith, d.tld_ok);
    }

address-valid : (s : Bytes) → IsAddress s → is_valid_email s ≡ true
unfolding is_valid_email match_tld
address-valid s a = rw a.splits (
    match_local_complete false a.user _ (inr a.user_ne_nil) a.user_bytes (
      match_domain_complete false a.host a.tld (inr a.host_ne_nil) a.host_bytes
        (ground (arith, a.tld_long, a.tld_letters))))

-- An email is valid exactly when it is a non-empty user part, an at sign, a non-empty host part, a
-- dot, and at least two letters, each part over the bytes of its class.
pub is_valid_email_iff : (s : Bytes) → (is_valid_email s ≡ true) ↔ IsAddress s
is_valid_email_iff s = (IsAddress-of s, address-valid s)
