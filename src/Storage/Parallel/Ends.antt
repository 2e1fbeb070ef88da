-- ===== src/Storage/Parallel/Ends.antt =====
-- Progress and bounds for the threads of `import_data_parallel` in src/storage.cpp.
use acx_contact_cli.Prelude.{
  ℕ, ◌+◌, ◌≤◌, ◌<◌, arith, ◌||◌, Option, none, some, List, Bytes, length, ltb, Bool-cases, inl, inr,
}
use acx_contact_cli.Validation.{Environment}
use acx_contact_cli.Table.{holds}
use acx_contact_cli.Model.{Contact}
use acx_contact_cli.World.{Platform, World}
use acx_contact_cli.Pool.{System, Run}
use acx_contact_cli.Pool.Laws.{left_over}
use acx_contact_cli.Pool.Ends.{Ended, Descends, Run_bounded, strays, steps_left}
use acx_contact_cli.Pool.Progress.{Run-IsAwake, finishes}
use acx_contact_cli.Pool.Drained.{launched}
use acx_contact_cli.Storage.Parallel.{
  LineTask, Gathered, Stage, taken, judged, unique, email_key, number_key, dedup, judge, read_line,
  work, is_valid_contact,
}

-- the steps of work that a task still takes
abbrev pub work_cost : Stage → ℕ
work_cost (taken t) = 3
work_cost (judged seq c) = 2
work_cost (unique seq c) = 1

module _ (platform : Platform) (getenv : Environment) {D : Type 0} (stod : Bytes → Option D)
    (fmt : Bytes) (max_record : ℕ) where
  judge_descends :
      (seq : ℕ) (a : Gathered) (o : Option (Contact × World))
      → left_over work_cost (judge platform getenv seq a o).1 < 3
  judge_descends seq a none = omega arith
  judge_descends seq a (some (c, w)) = elim (Bool-cases (is_valid_contact platform getenv c)) [
    | inl h ↦ rw h (omega arith)
    | inr h ↦ rw h (omega arith)
  ]

  dedup_descends :
      (seq : ℕ) (c : Contact) (a : Gathered)
      → left_over work_cost (dedup platform getenv seq c a).1 < 2
  unfolding dedup
  dedup_descends seq c a =
      elim (Bool-cases (
        holds (email_key platform getenv c) a.seen_email
        || holds (number_key platform getenv c) a.seen_phone)) [
          | inl h ↦ rw (h, dedup) (omega arith)
          | inr h ↦ rw (h, dedup) (omega arith)
        ]

  work-Descends : Descends taken (work platform getenv stod fmt max_record) work_cost
  unfolding work
  work-Descends a (taken t) = elim (Bool-cases (ltb max_record (length t.line))) [
    | inl h ↦ rw (h, work) (omega arith)
    | inr h ↦
        rw (h, work)
          (judge_descends t.seq a (read_line platform getenv stod fmt max_record t.line a.world))
  ]
  work-Descends a (judged seq c) = dedup_descends seq c a
  work-Descends a (unique seq c) = omega arith

  pub import_ends :
      (count : ℕ) (a : Gathered) (ls : List LineTask) (n : ℕ) (s : System Gathered LineTask Stage)
      → Run taken (work platform getenv stod fmt max_record) (launched count a ls) n s
      → ((m : ℕ) × (u : System Gathered LineTask Stage) × Run taken
            (work platform getenv stod fmt max_record)
            s
            m
            u
          × Ended u)
        × ((m : ℕ) (u : System Gathered LineTask Stage)
              (r : Run taken (work platform getenv stod fmt max_record) s m u)
            → m + steps_left taken (work platform getenv stod fmt max_record) work_cost u
              ≤ steps_left taken (work platform getenv stod fmt max_record) work_cost s
                + strays taken (work platform getenv stod fmt max_record) work_cost r)
  import_ends count a ls n s r = (
    finishes taken (work platform getenv stod fmt max_record) work_cost work-Descends s
        (Run-IsAwake taken (work platform getenv stod fmt max_record) r (λ d. absurd (cc d))),
    λ m u q. Run_bounded taken (work platform getenv stod fmt max_record) work_cost work-Descends q,
  )
