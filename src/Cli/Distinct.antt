-- ===== src/Cli/Distinct.antt =====
-- What `acx_dedupe_cmd` and `acx_merge_cmd` of src/cli.cpp keep of their input.
use acx_contact_cli.Prelude.{
  ℕ, zero, suc, ◌+◌, ◌≡◌, ◌≢◌, refl, ap, ◌∙◌, arith, Bool, true, false, ◌&&◌, not, Option, none,
  some, List, [], ◌∷◌, Bytes, same, same_iff, same_refl, is_empty, if◌then◌else◌, Bool-cases,
  Option-cases, length, inl, inr, all, ◌==◌, &&-eq-true,
}
use acx_contact_cli.Table.{holds}
use acx_contact_cli.Utils.{lines}
use acx_contact_cli.Utils.Split.{free_of, lines-append, all_free-onto_first}
use acx_contact_cli.World.{Platform, World, written}
use acx_contact_cli.Cli.{filled, text_of, ex_ok}
use acx_contact_cli.Cli.Seen.{
  keeping, dropping, distinct_lines, dedupe_text, dedupe_key, acx_dedupe_cmd,
}

-- whether a line has a key
unfoldable pub has_key : Bytes → Option Bytes → Bool
unfolding same
has_key key none = false
has_key key (some k) = same key k

module _ (key_of : Bytes → Option Bytes) where
  -- how many lines have a key, and how many have none at all
  unfoldable pub count_key : Bytes → List Bytes → ℕ
  unfolding has_key
  count_key key [] = 0
  count_key key (line ∷ ls) =
      let rest = count_key key ls in if has_key key (key_of line) then suc rest else rest

  unfoldable pub count_keyless : List Bytes → ℕ
  count_keyless [] = 0
  count_keyless (line ∷ ls) = elim (key_of line) [
    | none ↦ suc (count_keyless ls)
    | some k ↦ count_keyless ls
  ]

  -- once, where it occurs
  abbrev pub once : Bool → ℕ → ℕ
  once seen zero = 0
  once seen (suc n) = if seen then 0 else 1

  keyless_step :
      (line : Bytes) (ls seen : List Bytes)
      → key_of line ≡ none
      → distinct_lines key_of (line ∷ ls) seen ≡ keeping line (distinct_lines key_of ls seen)
  unfolding distinct_lines
  keyless_step line ls seen e = rw (e, distinct_lines) refl

  met_step :
      (line key : Bytes) (ls seen : List Bytes)
      → key_of line ≡ some key
      → holds key seen ≡ true
      → distinct_lines key_of (line ∷ ls) seen ≡ dropping (distinct_lines key_of ls seen)
  unfolding distinct_lines
  met_step line key ls seen e h = rw (e, distinct_lines) (rw h refl)

  fresh_step :
      (line key : Bytes) (ls seen : List Bytes)
      → key_of line ≡ some key
      → holds key seen ≡ false
      → distinct_lines key_of (line ∷ ls) seen
        ≡ keeping line (distinct_lines key_of ls (key ∷ seen))
  unfolding distinct_lines
  fresh_step line key ls seen e h = rw (e, distinct_lines) (rw h refl)

  -- Of the lines with a key that was not met before, one is kept where there are any, and none of
  -- those with a key that was met.
  pub count_key-distinct :
      (key : Bytes) (ls seen : List Bytes)
      → count_key key (distinct_lines key_of ls seen).out ≡ once (holds key seen) (count_key key ls)
  unfolding count_key distinct_lines
  count_key-distinct key [] seen = refl
  count_key-distinct key (line ∷ ls) seen = elim (Option-cases (key_of line)) [
    | inl e ↦
        rw (keyless_step line ls seen e) (unfold has_key in (rw e (count_key-distinct key ls seen)))
    | inr (k, e) ↦ elim (Bool-cases (holds k seen)) [
      | inl h ↦ rw (met_step line k ls seen e h) (
          unfold has_key in
          (let same_keys = same_iff key k in
            let ih = count_key-distinct key ls seen in rw e (ground (arith, h))))
      | inr h ↦ rw (fresh_step line k ls seen e h) (
          unfold has_key holds in
          (let same_keys = same_iff key k in
            let ih = count_key-distinct key ls (k ∷ seen) in rw e (ground (arith, h))))
    ]
  ]

  -- A second pass drops nothing.
  pub distinct_lines_idem :
      (ls seen : List Bytes)
      → distinct_lines key_of (distinct_lines key_of ls seen).out seen ≡ record {
        out = (distinct_lines key_of ls seen).out;
        kept = (distinct_lines key_of ls seen).kept;
        dropped = 0;
      }
  unfolding distinct_lines
  distinct_lines_idem [] seen = refl
  distinct_lines_idem (line ∷ ls) seen = elim (Option-cases (key_of line)) [
    | inl e ↦
        rw (keyless_step line ls seen e)
          (keyless_step line _ seen e ∙ ap (keeping line) (distinct_lines_idem ls seen))
    | inr (key, e) ↦ elim (Bool-cases (holds key seen)) [
      | inl h ↦ rw (met_step line key ls seen e h) (distinct_lines_idem ls seen)
      | inr h ↦
          rw (fresh_step line key ls seen e h) (
            fresh_step line key _ seen e h
            ∙ ap (keeping line) (distinct_lines_idem ls (key ∷ seen)))
    ]
  ]

  -- The counters: every line is kept or dropped, and the kept ones are written.
  pub kept_and_dropped :
      (ls seen : List Bytes)
      → ((distinct_lines key_of ls seen).kept + (distinct_lines key_of ls seen).dropped ≡ length ls)
        × ((distinct_lines key_of ls seen).kept ≡ length (distinct_lines key_of ls seen).out)
  unfolding distinct_lines
  kept_and_dropped [] seen = (refl, refl)
  kept_and_dropped (line ∷ ls) seen = elim (Option-cases (key_of line)) [
    | inl e ↦ rw (keyless_step line ls seen e) (omega (arith, kept_and_dropped ls seen))
    | inr (key, e) ↦ elim (Bool-cases (holds key seen)) [
      | inl h ↦ rw (met_step line key ls seen e h) (omega (arith, kept_and_dropped ls seen))
      | inr h ↦
          rw (fresh_step line key ls seen e h) (omega (arith, kept_and_dropped ls (key ∷ seen)))
    ]
  ]

  -- A test that all lines pass is one that the kept ones pass.
  all-out :
      (p : Bytes → Bool) (ls seen : List Bytes)
      → all p ls ≡ true
      → all p (distinct_lines key_of ls seen).out ≡ true
  unfolding distinct_lines
  all-out p [] seen h = refl
  all-out p (line ∷ ls) seen h =
      let (first, others) = &&-eq-true (p line) _ h in
      elim (Option-cases (key_of line)) [
        | inl e ↦ rw (keyless_step line ls seen e) (rw (first) (all-out p ls seen others))
        | inr (key, e) ↦ elim (Bool-cases (holds key seen)) [
          | inl g ↦ rw (met_step line key ls seen e g) (all-out p ls seen others)
          | inr g ↦
              rw (fresh_step line key ls seen e g) (rw (first) (all-out p ls (key ∷ seen) others))
        ]
      ]

-- a line that a text can hold and that is not empty
abbrev pub is_line : Bytes → Bool
is_line line = not (is_empty line) && free_of b'\n' line

all-filled : (ls : List Bytes) → all (free_of b'\n') ls ≡ true → all is_line (filled ls) ≡ true
all-filled [] h = refl
all-filled ([] ∷ ls) h = all-filled ls h
all-filled ((c ∷ cs) ∷ ls) h =
    let (first, others) = &&-eq-true (free_of b'\n' (c ∷ cs)) _ h in rw first (all-filled ls others)

lines-text : (ls : List Bytes) → all is_line ls ≡ true → filled (lines (text_of ls)) ≡ ls
unfolding text_of
lines-text [] h = unfold lines in refl
lines-text ([] ∷ ls) h = absurd (cc h)
lines-text ((c ∷ cs) ∷ ls) h =
    let (first, others) = &&-eq-true (free_of b'\n' (c ∷ cs)) _ h in
    ap filled (lines-append (c ∷ cs) (text_of ls) first) ∙ ap (◌∷◌ (c ∷ cs)) (lines-text ls others)

lines-free : (s : Bytes) → all (free_of b'\n') (lines s) ≡ true
unfolding lines
lines-free [] = refl
lines-free (c ∷ s) = elim (Bool-cases (c == b'\n')) [
  | inl e ↦ rw e (lines-free s)
  | inr e ↦ rw e (all_free-onto_first b'\n' c (lines s) e (lines-free s))
]

module _ {D : Type 0} (stod : Bytes → Option D) (platform : Platform) where
  -- Removing the duplicates of a text that dedupe wrote changes nothing and drops nothing.
  pub dedupe_text_idem :
      (s : Bytes)
      → dedupe_text stod platform (text_of (dedupe_text stod platform s).out) ≡ record {
        out = (dedupe_text stod platform s).out;
        kept = (dedupe_text stod platform s).kept;
        dropped = 0;
      }
  dedupe_text_idem s =
      let kept_lines =
        all-out (dedupe_key stod) is_line (filled (lines s)) []
          (all-filled (lines s) (lines-free s)) in
      ap (λ ls. distinct_lines (dedupe_key stod) ls []) (lines-text _ kept_lines)
      ∙ distinct_lines_idem (dedupe_key stod) (filled (lines s)) []

  -- Where the output file is the input file, it is emptied before its first line is read: the
  -- tool succeeds and leaves an empty file.
  pub acx_dedupe_cmd_in_place :
      (path content : Bytes) (w : World)
      → path ≢ []
      → w.files path ≡ some content
      → platform.writing path ≡ written
      → ((acx_dedupe_cmd stod platform path path w).code ≡ ex_ok)
        × ((acx_dedupe_cmd stod platform path path w).world.files path ≡ some [])
  unfolding acx_dedupe_cmd
  acx_dedupe_cmd_in_place [] content w n h k = absurd (n refl)
  acx_dedupe_cmd_in_place (c ∷ cs) content w n h k = ground (arith, h, k, same_refl (c ∷ cs))
