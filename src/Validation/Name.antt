-- ===== src/Validation/Name.antt =====
-- What `is_valid_name` of src/validation.cpp accepts.
use acx_contact_cli.Prelude.{
  ℕ, ◌+◌, ◌≤◌, ◌≡◌, ap, ◌∙◌, Bool, ◌&&◌, ◌||◌, false, [], ◌∷◌, arith, Bytes, ◌==◌, isalpha, isspace,
  leb, length, all, keep,
}
use mathlib.Core.Path.{fun_ext}
use acx_contact_cli.Validation.{is_name_mark, name_loop, is_valid_name}

-- the bytes of white space, from tab to carriage return and the space, the apostrophe and the hyphen
abbrev pub marks : Bytes
marks = 9 ∷ 10 ∷ 11 ∷ 12 ∷ 13 ∷ 32 ∷ 39 ∷ 45 ∷ []

abbrev pub one_of : Bytes → ℕ → Bool
one_of [] c = false
one_of (m ∷ ms) c = m == c || one_of ms c

abbrev pub is_name_byte : ℕ → Bool
is_name_byte c = isalpha c || one_of marks c

is_name_mark_lem : (c : ℕ) → is_name_mark c ≡ one_of marks c
unfolding is_name_mark isspace
is_name_mark_lem c = ground arith

-- a byte that the loop goes on behind
abbrev is_passed : ℕ → Bool
is_passed c = isalpha c || is_name_mark c

name_loop-all :
    (n : ℕ) (s : Bytes) → name_loop n s ≡ (all is_passed s && leb 2 (n + length (keep isalpha s)))
unfolding name_loop
name_loop-all n [] = ground arith
name_loop-all n (c ∷ cs) = ground (arith, name_loop-all (n + 1) cs, name_loop-all n cs)

length-keep-le : (s : Bytes) → length (keep isalpha s) ≤ length s
length-keep-le [] = omega arith
length-keep-le (c ∷ cs) = ground (arith, length-keep-le cs)

-- A name is valid exactly when each of its bytes is a letter, white space (tab, newline,
-- vertical tab, form feed, carriage return or space), a hyphen or an apostrophe, and at least two of them are letters.
pub is_valid_name-eq :
    (s : Bytes) → is_valid_name s ≡ (all is_name_byte s && leb 2 (length (keep isalpha s)))
unfolding is_valid_name
is_valid_name-eq s =
    ground (arith, name_loop-all 0 s, length-keep-le s)
    ∙ ap (λ f. all f s && leb 2 (length (keep isalpha s)))
        (fun_ext (λ c. ap (λ b. isalpha c || b) (is_name_mark_lem c)))
