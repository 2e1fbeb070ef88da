-- ===== src/Cli/Threads.antt =====
-- `process_lines_parallel`, `LineQueue` and the threaded commands of src/cli.cpp, on the threads of Pool.
use acx_contact_cli.Prelude.{
  ℕ, ◌+◌, ◌≡◌, ◌≤◌, refl, ap, ◌∙◌, sym, arith, Bool, true, false, not, ◌&&◌, Option, none, some,
  List, [], ◌∷◌, Bytes, codes, is_empty, ◌==◌, if◌then◌else◌, Bool-cases, inl, inr,
}
use acx_contact_cli.Utils.{lines}
use acx_contact_cli.Json.Value.{Json, null, bool, number, string, array, object, lookup}
use acx_contact_cli.Json.Parser.{ok, err, parse}
use acx_contact_cli.World.{World}
use acx_contact_cli.Pool.{System, Run}
use acx_contact_cli.Pool.Laws.{total, Keeps}
use acx_contact_cli.Pool.Ends.{Ended, Descends, Run_bounded, strays, steps_left}
use acx_contact_cli.Pool.Progress.{Run-IsAwake, finishes}
use acx_contact_cli.Pool.Drained.{launched, Run_value}
use acx_contact_cli.Cli.{filled, as_text, Outcome, input_path}
use acx_contact_cli.Cli.Counts.{Tally, judge, validate_lines, no_lines, verdict, tally_text}

-- `s.find(c)!=std::string::npos`
unfoldable pub has_byte : ℕ → Bytes → Bool
has_byte d [] = false
has_byte d (c ∷ s) = let rest = has_byte d s in if c == d then true else rest

-- `has_name && email_ok` of the threaded command
abbrev pub threaded_acceptable : Option Bytes → Option Bytes → Bool
threaded_acceptable none email = false
threaded_acceptable (some name) none = not (is_empty name)
threaded_acceptable (some name) (some email) =
    not (is_empty name) && (has_byte b'@' email && has_byte b'.' email)

module _ {D : Type 0} (stod : Bytes → Option D) where
  -- what the branch of `fn` on a value comes to; on a value that is no object `as_object` throws
  abbrev pub is_acceptable : Json D → Bool
  is_acceptable (object m) =
      threaded_acceptable (as_text (lookup (codes "name") m)) (as_text (lookup (codes "email") m))
  is_acceptable null = false
  is_acceptable (bool b) = false
  is_acceptable (number d) = false
  is_acceptable (string s) = false
  is_acceptable (array a) = false

  unfoldable pub is_acceptable_line : Bytes → Bool
  unfolding has_byte lookup
  is_acceptable_line line = elim (parse stod line) [ ok j ↦ is_acceptable j | err e ↦ false ]

-- where a thread stands in `fn`: at the test of the line, and behind `count++`
pub data Check : Type 0 where
  testing : Bytes → Check
  judging : Bytes → Check

module _ (accepts : Bytes → Bool) where
  -- an operation on an atomic counter is a step of its own
  unfoldable pub check_line : Tally → Check → Tally × Option Check
  check_line t (testing line) =
      if is_empty line then (t, none) else (record t { count = t.count + 1 }, some (judging line))
  check_line t (judging line) =
      if accepts line
      then (record t { ok_count = t.ok_count + 1 }, none)
      else (record t { bad_count = t.bad_count + 1 }, none)

-- the lines that the producer reads: none where the file cannot be opened
abbrev pub input_lines : Bytes → World → List Bytes
input_lines path w = elim (w.files path) [ none ↦ [] | some content ↦ lines content ]

-- `process_lines_parallel` before its first step
abbrev pub line_threads : ℕ → List Bytes → System Tally Bytes Check
line_threads threads ls = launched threads no_lines ls

-- what `acx_validate_cmd_thr` prints and returns once the threads have been joined
unfoldable pub acx_validate_cmd_thr : Bool → Bytes → Tally → World → Outcome
unfolding input_path tally_text
acx_validate_cmd_thr json_mode target_path t w = record {
  code = verdict t;
  printed = tally_text json_mode (input_path target_path w) t;
  world = w;
}

module _ (accepts : Bytes → Bool) where
  -- the steps of work that a task still takes
  abbrev check_cost : Check → ℕ
  check_cost (testing line) = 2
  check_cost (judging line) = 1

  check_line-Descends : Descends testing (check_line accepts) check_cost
  unfolding check_line
  check_line-Descends t (testing []) = omega arith
  check_line-Descends t (testing (c ∷ s)) = omega arith
  check_line-Descends t (judging line) = elim (Bool-cases (accepts line)) [
    | inl e ↦ rw (e, check_line) (omega arith)
    | inr e ↦ rw (e, check_line) (omega arith)
  ]

  -- From every state that the threads reach, some order of their steps joins all of them, and no order
  -- that begins there is longer than the bound, and two for each stray wake-up of the condition
  -- variable.
  pub check_lines_end :
      (threads : ℕ) (ls : List Bytes) (n : ℕ) (s : System Tally Bytes Check)
      → Run testing (check_line accepts) (line_threads threads ls) n s
      → ((m : ℕ) × (u : System Tally Bytes Check) × Run testing (check_line accepts) s m u
          × Ended u)
        × ((m : ℕ) (u : System Tally Bytes Check) (r : Run testing (check_line accepts) s m u)
            → m + steps_left testing (check_line accepts) check_cost u
              ≤ steps_left testing (check_line accepts) check_cost s
                + strays testing (check_line accepts) check_cost r)
  check_lines_end threads ls n s r = (
    finishes testing (check_line accepts) check_cost check_line-Descends s
        (Run-IsAwake testing (check_line accepts) r (λ d. absurd (cc d))),
    λ m u q. Run_bounded testing (check_line accepts) check_cost check_line-Descends q,
  )

  abbrev counted : Check → ℕ
  counted (testing []) = 0
  counted (testing (c ∷ s)) = 1
  counted (judging line) = 0

  abbrev pub truth : Bool → ℕ
  truth true = 1
  truth false = 0

  -- the part of a task in a counter that goes up for the lines of a test
  abbrev judged : (Bytes → Bool) → Check → ℕ
  judged test (testing []) = 0
  judged test (testing (c ∷ s)) = truth (test (c ∷ s))
  judged test (judging line) = truth (test line)

  count_Keeps : Keeps testing (check_line accepts) (λ t. t.count) counted
  unfolding check_line
  count_Keeps t (testing []) = omega arith
  count_Keeps t (testing (c ∷ s)) = omega arith
  count_Keeps t (judging line) = elim (Bool-cases (accepts line)) [
    | inl e ↦ rw (e, check_line) refl
    | inr e ↦ rw (e, check_line) refl
  ]

  ok_Keeps : Keeps testing (check_line accepts) (λ t. t.ok_count) (judged accepts)
  unfolding check_line
  ok_Keeps t (testing []) = omega arith
  ok_Keeps t (testing (c ∷ s)) = omega arith
  ok_Keeps t (judging line) = elim (Bool-cases (accepts line)) [
    | inl e ↦ rw (e, check_line) (omega arith)
    | inr e ↦ rw (e, check_line) (omega arith)
  ]

  bad_Keeps :
      Keeps testing (check_line accepts) (λ t. t.bad_count) (judged (λ line. not (accepts line)))
  unfolding check_line
  bad_Keeps t (testing []) = omega arith
  bad_Keeps t (testing (c ∷ s)) = omega arith
  bad_Keeps t (judging line) = elim (Bool-cases (accepts line)) [
    | inl e ↦ rw (e, check_line) (omega arith)
    | inr e ↦ rw (e, check_line) (omega arith)
  ]

  -- the counters of the loop over the lines, as sums
  validate_lines_sums :
      (ls : List Bytes) (t : Tally)
      → ((validate_lines accepts (filled ls) t).count
          ≡ t.count + total (λ k. counted (testing k)) ls)
        × (((validate_lines accepts (filled ls) t).ok_count
              ≡ t.ok_count + total (λ k. judged accepts (testing k)) ls)
            × ((validate_lines accepts (filled ls) t).bad_count
                ≡ t.bad_count + total (λ k. judged (λ line. not (accepts line)) (testing k)) ls))
  unfolding validate_lines judge
  validate_lines_sums [] t = (omega arith, (omega arith, omega arith))
  validate_lines_sums ([] ∷ ls) t = omega (arith, validate_lines_sums ls t)
  validate_lines_sums ((c ∷ s) ∷ ls) t = elim (Bool-cases (accepts (c ∷ s))) [
    | inl e ↦ rw e (omega (arith, validate_lines_sums ls (judge true t)))
    | inr e ↦ rw e (omega (arith, validate_lines_sums ls (judge false t)))
  ]

  -- With a thread at least, every order of the steps that joins all threads prints and returns what
  -- the loop over the lines does, with the same test of a line.
  pub acx_validate_cmd_thr_refines :
      (threads : ℕ) (json_mode : Bool) (target_path : Bytes) (w : World) (n : ℕ)
      (u : System Tally Bytes Check)
      → 1 ≤ threads
      → Run testing
          (check_line accepts)
          (line_threads threads (input_lines (input_path target_path w) w))
          n
          u
      → Ended u
      → acx_validate_cmd_thr json_mode target_path u.shared w
        ≡ acx_validate_cmd_thr json_mode target_path
            (validate_lines accepts (filled (input_lines (input_path target_path w) w)) no_lines)
            w
  acx_validate_cmd_thr_refines threads json_mode target_path w n u l r e =
      let ls = input_lines (input_path target_path w) w in
      let (a, (b, c)) = validate_lines_sums ls no_lines in
      ap (λ t. acx_validate_cmd_thr json_mode target_path t w)
        (same_tally u.shared (validate_lines accepts (filled ls) no_lines)
          (Run_value testing (check_line accepts) (λ t. t.count) counted count_Keeps threads
              no_lines ls n u l r e
            ∙ sym a)
          (Run_value testing (check_line accepts) (λ t. t.ok_count) (judged accepts) ok_Keeps
              threads no_lines ls n u l r e
            ∙ sym b)
          (Run_value testing (check_line accepts) (λ t. t.bad_count)
              (judged (λ line. not (accepts line))) bad_Keeps threads no_lines ls n u l r e
            ∙ sym c))
    where
      same_tally :
          (s t : Tally)
          → s.count ≡ t.count
          → s.ok_count ≡ t.ok_count
          → s.bad_count ≡ t.bad_count
          → s ≡ t
      same_tally s t a b c = λ i. record { count = a i; ok_count = b i; bad_count = c i }
