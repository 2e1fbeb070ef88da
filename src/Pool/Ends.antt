-- ===== src/Pool/Ends.antt =====
-- Bounds for the threads of Pool.
use acx_contact_cli.Prelude.{
  ℕ, ◌+◌, ◌≤◌, ◌<◌, ◌≡◌, refl, ap, sym, Bool, true, false, Option, none, some, List, [], ◌∷◌, arith,
  get_elem?, inl, inr,
}
use acx_contact_cli.Pool.{
  Pc, waiting, asleep, notify_one, notify_all, pushed, wake, stray, busy, finished, System, Thread,
  producer, worker, produce, pop, resume, move, step, Run, start, later, AllFinished,
}
use acx_contact_cli.Pool.Laws.{
  total, total-snoc, total-set, left_over, some_inj, notify_one-Reached,
}

-- past the producer's loop, and with every worker joined
abbrev pub Ended : {A K T : Type 0} → System A K T → Type 0
Ended s = (s.done ≡ true) × AllFinished s.workers

abbrev open_input : Bool → ℕ
open_input true = 0
open_input false = 1

-- a worker may sleep once more before the end of the input is told
abbrev pc_cost : {T : Type 0} → (T → ℕ) → Bool → Pc T → ℕ
pc_cost c d waiting = 1 + open_input d
pc_cost c d asleep = 1
pc_cost c d (busy t) = c t + 1 + open_input d
pc_cost c d finished = 0

-- what a step may cost beyond itself
abbrev pub stray_cost : Thread → ℕ
stray_cost (producer i) = 0
stray_cost (worker i) = 0
stray_cost (stray i) = 2

module _ {A K T : Type 0} (begin : K → T) (advance : A → T → A × Option T) (cost : T → ℕ) where
  -- each step of the work leaves less of it
  abbrev pub Descends : Type 0
  Descends = (a : A) (t : T) → left_over cost (advance a t).1 < cost t

  -- how many steps are left at most
  abbrev pub steps_left : System A K T → ℕ
  steps_left s =
      total (pc_cost cost s.done) s.workers
      + (total (λ k. cost (begin k) + 1) s.queue
          + (total (λ k. cost (begin k) + 3) s.unread + open_input s.done))

  resume_less :
      (i : ℕ) (r : A × Option T) (s : System A K T) (t : T)
      → get_elem? s.workers i ≡ some (busy t)
      → left_over cost r.1 < cost t
      → steps_left (resume begin advance i r s) < steps_left s
  resume_less i (a, none) s t h l =
      omega (arith, total-set (pc_cost cost s.done) s.workers i waiting (busy t) h)
  resume_less i (a, some t') s t h l =
      omega (arith, total-set (pc_cost cost s.done) s.workers i (busy t') (busy t) h)

  pop_less :
      (i : ℕ) (ks : List K) (d : Bool) (s u : System A K T)
      → s.queue ≡ ks
      → s.done ≡ d
      → get_elem? s.workers i ≡ some waiting
      → pop begin advance i ks d s ≡ some u
      → steps_left u < steps_left s
  pop_less i (k ∷ ks) d s u q o h e =
      let fewer = total-set (pc_cost cost s.done) s.workers i (busy (begin k)) waiting h in
      let shorter = ap (total (λ k. cost (begin k) + 1)) q in
      let u_is = ap steps_left (sym (some_inj e)) in omega arith
  pop_less i [] true s u q o h e =
      let fewer = total-set (pc_cost cost s.done) s.workers i finished waiting h in
      let u_is = ap steps_left (sym (some_inj e)) in omega arith
  pop_less i [] false s u q o h e =
      let fewer = total-set (pc_cost cost s.done) s.workers i asleep waiting h in
      let still_open = ap open_input o in let u_is = ap steps_left (sym (some_inj e)) in omega arith

  notified_cost :
      (i : ℕ) (d : Bool) (ps qs : List (Pc T))
      → notify_one i ps ≡ some qs
      → total (pc_cost cost d) qs ≤ total (pc_cost cost d) ps + open_input d
  notified_cost i d ps qs e = elim (notify_one-Reached i ps qs e) [
    | inl q ↦ let same = ap (total (pc_cost cost d)) q in omega arith
    | inr (h, q) ↦
        let same = ap (total (pc_cost cost d)) q in
        omega (arith, total-set (pc_cost cost d) ps i waiting asleep h)
  ]

  told_cost :
      (ps : List (Pc T)) → total (pc_cost cost true) (notify_all ps) ≤ total (pc_cost cost false) ps
  unfolding notify_all
  told_cost [] = omega arith
  told_cost (waiting ∷ ps) = omega (arith, told_cost ps)
  told_cost (asleep ∷ ps) = omega (arith, told_cost ps)
  told_cost (busy t ∷ ps) = omega (arith, told_cost ps)
  told_cost (finished ∷ ps) = omega (arith, told_cost ps)

  open_le : (d : Bool) → open_input d ≤ 1
  open_le true = omega arith
  open_le false = omega arith

  pushed_less :
      (k : K) (ks : List K) (o : Option (List (Pc T))) (s u : System A K T)
      → s.unread ≡ k ∷ ks
      → ((ps : List (Pc T))
          → o ≡ some ps
          → total (pc_cost cost s.done) ps
            ≤ total (pc_cost cost s.done) s.workers + open_input s.done)
      → pushed begin advance k ks o s ≡ some u
      → steps_left u < steps_left s
  pushed_less k ks none s u q f e = absurd (cc e)
  pushed_less k ks (some ps) s u q f e =
      let longer = total-snoc (λ k. cost (begin k) + 1) s.queue k in
      let shorter = ap (total (λ k. cost (begin k) + 3)) q in
      let woken = f ps refl in
      let at_most = open_le s.done in let u_is = ap steps_left (sym (some_inj e)) in omega arith

  produce_less :
      (i : ℕ) (d : Bool) (ks : List K) (s u : System A K T)
      → s.done ≡ d
      → s.unread ≡ ks
      → produce begin advance i d ks s ≡ some u
      → steps_left u < steps_left s
  produce_less i true ks s u o q e = absurd (cc e)
  produce_less i false [] s u o q e =
      let closed = ap open_input o in
      let was = ap (λ d. total (pc_cost cost d) s.workers) o in
      let u_is = ap steps_left (sym (some_inj e)) in omega (arith, told_cost s.workers)
  produce_less i false (k ∷ ks) s u o q e =
      pushed_less k ks (notify_one i s.workers) s u q (notified_cost i s.done s.workers) e

  move_less :
      Descends
      → (i : ℕ) (o : Option (Pc T)) (s u : System A K T) → get_elem? s.workers i ≡ o
      → move begin advance i o s ≡ some u
      → steps_left u < steps_left s
  move_less less i none s u h e = absurd (cc e)
  move_less less i (some waiting) s u h e = pop_less i s.queue s.done s u refl refl h e
  move_less less i (some asleep) s u h e = absurd (cc e)
  move_less less i (some (busy t)) s u h e =
      let u_is = ap steps_left (sym (some_inj e)) in
      omega (arith, resume_less i (advance s.shared t) s t h (less s.shared t))
  move_less less i (some finished) s u h e = absurd (cc e)

  wake_less :
      (i : ℕ) (o : Option (Pc T)) (s u : System A K T)
      → get_elem? s.workers i ≡ o
      → wake begin advance i o s ≡ some u
      → 1 + steps_left u ≤ steps_left s + 2
  wake_less i none s u h e = absurd (cc e)
  wake_less i (some waiting) s u h e = absurd (cc e)
  wake_less i (some asleep) s u h e =
      let more = total-set (pc_cost cost s.done) s.workers i waiting asleep h in
      let at_most = open_le s.done in let u_is = ap steps_left (sym (some_inj e)) in omega arith
  wake_less i (some (busy t)) s u h e = absurd (cc e)
  wake_less i (some finished) s u h e = absurd (cc e)

  pub step_less :
      Descends
      → (th : Thread) (s u : System A K T) → step begin advance th s ≡ some u
      → 1 + steps_left u ≤ steps_left s + stray_cost th
  unfolding step
  step_less less (producer i) s u e = omega (arith, produce_less i s.done s.unread s u refl refl e)
  step_less less (worker i) s u e =
      omega (arith, move_less less i (get_elem? s.workers i) s u refl e)
  step_less less (stray i) s u e = wake_less i (get_elem? s.workers i) s u refl e

  -- two for each stray wake-up
  unfoldable pub strays :
      {s : System A K T} {n : ℕ} {u : System A K T} → Run begin advance s n u → ℕ
  strays start = 0
  strays (later th r e) = strays r + stray_cost th

  -- No order of the steps is longer than what is left at its start, and two for each stray wake-up.
  pub Run_bounded :
      Descends
      → {s : System A K T} {n : ℕ} {u : System A K T} (r : Run begin advance s n u)
      → n + steps_left u ≤ steps_left s + strays r
  unfolding strays
  Run_bounded less start = omega arith
  Run_bounded less (later {t = t} {u = u} th r e) =
      omega (arith, step_less less th t u e, Run_bounded less r)
