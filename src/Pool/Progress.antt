-- ===== src/Pool/Progress.antt =====
-- Progress of the threads of Pool, until all have ended.
use mathlib.Core.Path.{subst}
use acx_contact_cli.Prelude.{
  ℕ, zero, suc, ◌≤◌, ◌≡◌, ◌≢◌, refl, ap, ◌∙◌, Bool, true, false, Option, none, some, List, [], ◌∷◌,
  arith, get_elem?, inl, inr, ◌⊎◌, Bool-cases,
}
use acx_contact_cli.Pool.{
  Pc, waiting, asleep, notify_one, pushed, wake, stray, busy, finished, System, Thread, producer,
  worker, produce, pop, resume, move, step, Run, start, later, AllFinished,
}
use acx_contact_cli.Pool.Laws.{some_inj}
use acx_contact_cli.Pool.Asleep.{IsAwake, any_asleep-notify_all, any_asleep-set, reachable, sleeps}
use acx_contact_cli.Pool.Ends.{Ended, Descends, steps_left, stray_cost, step_less}

-- a worker that is not past its loop, if there is one
unfinished :
    {T : Type 0} (ps : List (Pc T))
    → AllFinished ps ⊎ ((i : ℕ) × (p : Pc T) × (get_elem? ps i ≡ some p) × (p ≢ finished))
unfinished [] = inl tt
unfinished (finished ∷ ps) = elim (unfinished ps) [
  | inl a ↦ inl a
  | inr (i, p, h, n) ↦ inr (suc i, p, h, n)
]
unfinished (waiting ∷ ps) = inr (0, waiting, refl, λ e. absurd (cc e))
unfinished (asleep ∷ ps) = inr (0, asleep, refl, λ e. absurd (cc e))
unfinished (busy t ∷ ps) = inr (0, busy t, refl, λ e. absurd (cc e))

module _ {A K T : Type 0} (begin : K → T) (advance : A → T → A × Option T) where
  pushed-IsAwake :
      (k : K) (ks : List K) (o : Option (List (Pc T))) (s u : System A K T)
      → s.done ≡ false
      → pushed begin advance k ks o s ≡ some u
      → IsAwake u
  pushed-IsAwake k ks none s u o e = absurd (cc e)
  pushed-IsAwake k ks (some ps) s u o e = subst IsAwake (some_inj e) (λ d. absurd (cc (o, d)))

  produce-IsAwake :
      (i : ℕ) (d : Bool) (ks : List K) (s u : System A K T)
      → s.done ≡ d
      → produce begin advance i d ks s ≡ some u
      → IsAwake u
  produce-IsAwake i true ks s u o e = absurd (cc e)
  produce-IsAwake i false [] s u o e =
      subst IsAwake (some_inj e) (λ d. any_asleep-notify_all s.workers)
  produce-IsAwake i false (k ∷ ks) s u o e = pushed-IsAwake k ks (notify_one i s.workers) s u o e

  pop-IsAwake :
      (i : ℕ) (ks : List K) (d : Bool) (s u : System A K T)
      → s.done ≡ d
      → pop begin advance i ks d s ≡ some u
      → IsAwake s
      → IsAwake u
  pop-IsAwake i (k ∷ ks) d s u o e a =
      subst IsAwake (some_inj e) (λ q. any_asleep-set s.workers i (busy (begin k)) refl (a q))
  pop-IsAwake i [] true s u o e a =
      subst IsAwake (some_inj e) (λ q. any_asleep-set s.workers i finished refl (a q))
  pop-IsAwake i [] false s u o e a = subst IsAwake (some_inj e) (λ q. absurd (cc (o, q)))

  resume-IsAwake :
      (i : ℕ) (r : A × Option T) (s : System A K T)
      → IsAwake s
      → IsAwake (resume begin advance i r s)
  resume-IsAwake i (a, none) s k = λ q. any_asleep-set s.workers i waiting refl (k q)
  resume-IsAwake i (a, some t) s k = λ q. any_asleep-set s.workers i (busy t) refl (k q)

  move-IsAwake :
      (i : ℕ) (o : Option (Pc T)) (s u : System A K T)
      → move begin advance i o s ≡ some u
      → IsAwake s
      → IsAwake u
  move-IsAwake i none s u e k = absurd (cc e)
  move-IsAwake i (some waiting) s u e k = pop-IsAwake i s.queue s.done s u refl e k
  move-IsAwake i (some asleep) s u e k = absurd (cc e)
  move-IsAwake i (some (busy t)) s u e k =
      subst IsAwake (some_inj e) (resume-IsAwake i (advance s.shared t) s k)
  move-IsAwake i (some finished) s u e k = absurd (cc e)

  wake-IsAwake :
      (i : ℕ) (o : Option (Pc T)) (s u : System A K T)
      → wake begin advance i o s ≡ some u
      → IsAwake s
      → IsAwake u
  wake-IsAwake i none s u e k = absurd (cc e)
  wake-IsAwake i (some waiting) s u e k = absurd (cc e)
  wake-IsAwake i (some asleep) s u e k =
      subst IsAwake (some_inj e) (λ q. any_asleep-set s.workers i waiting refl (k q))
  wake-IsAwake i (some (busy t)) s u e k = absurd (cc e)
  wake-IsAwake i (some finished) s u e k = absurd (cc e)

  -- no step leaves a worker asleep behind the end of the input
  pub step-IsAwake :
      (th : Thread) (s u : System A K T) → step begin advance th s ≡ some u → IsAwake s → IsAwake u
  unfolding step
  step-IsAwake (producer i) s u e k = produce-IsAwake i s.done s.unread s u refl e
  step-IsAwake (worker i) s u e k = move-IsAwake i (get_elem? s.workers i) s u e k
  step-IsAwake (stray i) s u e k = wake-IsAwake i (get_elem? s.workers i) s u e k

  pub Run-IsAwake :
      {s : System A K T} {n : ℕ} {u : System A K T}
      → Run begin advance s n u
      → IsAwake s
      → IsAwake u
  Run-IsAwake start k = k
  Run-IsAwake (later {t = t} {u = u} th r e) k = step-IsAwake th t u e (Run-IsAwake r k)

  popped :
      (i : ℕ) (ks : List K) (s : System A K T)
      → (u : System A K T) × (pop begin advance i ks true s ≡ some u)
  popped i [] s = (_, refl)
  popped i (k ∷ ks) s = (_, refl)

  pushes :
      (k : K) (ks : List K) (o : Option (List (Pc T))) (ps : List (Pc T)) (s : System A K T)
      → o ≡ some ps
      → (u : System A K T) × (pushed begin advance k ks o s ≡ some u)
  pushes k ks none ps s e = absurd (cc e)
  pushes k ks (some qs) ps s e = (_, refl)

  -- a notification reaches somebody, or nobody has to be reached
  produced :
      (ks : List K) (s : System A K T)
      → (i : ℕ) × (u : System A K T) × (produce begin advance i false ks s ≡ some u)
  produced [] s = (0, _, refl)
  produced (k ∷ ks) s =
      let (i, ps, e) = reachable s.workers in
      let (u, q) = pushes k ks (notify_one i s.workers) ps s e in (i, u, q)

  moved :
      (i : ℕ) (p : Pc T) (s : System A K T)
      → get_elem? s.workers i ≡ some p
      → p ≢ finished
      → IsAwake s
      → s.done ≡ true
      → (u : System A K T) × (move begin advance i (some p) s ≡ some u)
  moved i waiting s h n a d =
      let (u, e) = popped i s.queue s in (u, ap (λ b. pop begin advance i s.queue b s) d ∙ e)
  moved i asleep s h n a d = absurd (cc (a d, sleeps s.workers i h))
  moved i (busy t) s h n a d = (_, refl)
  moved i finished s h n a d = absurd (n refl)

  -- Some thread can move, with no stray wake-up, until all have ended.
  pub progress :
      (s : System A K T)
      → IsAwake s
      → Ended s
        ⊎ ((th : Thread) × (u : System A K T) × (step begin advance th s ≡ some u)
            × (stray_cost th ≡ 0))
  unfolding step
  progress s a = elim (Bool-cases s.done) [
    | inr d ↦
        (let (i, u, e) = produced s.unread s in
          inr (producer i, u, ap (λ b. produce begin advance i b s.unread s) d ∙ e, refl))
    | inl d ↦ elim (unfinished s.workers) [
      | inl f ↦ inl (d, f)
      | inr (i, p, h, n) ↦
          (let (u, e) = moved i p s h n a d in
            inr (worker i, u, ap (λ o. move begin advance i o s) h ∙ e, refl))
    ]
  ]

  module _ (cost : T → ℕ) where
    pub finish_within :
        Descends begin advance cost
        → (left : ℕ) (s : System A K T) (n : ℕ) (t : System A K T)
        → steps_left begin advance cost t ≤ left
        → IsAwake t
        → Run begin advance s n t
        → (m : ℕ) × (u : System A K T) × Run begin advance s m u × Ended u
    finish_within less zero s n t l a r = elim (progress t a) [
      | inl e ↦ (n, t, r, e)
      | inr (th, u, e, z) ↦ absurd (omega (arith, step_less begin advance cost less th t u e))
    ]
    finish_within less (suc left) s n t l a r = elim (progress t a) [
      | inl e ↦ (n, t, r, e)
      | inr (th, u, e, z) ↦
          finish_within less left s (suc n) u
            (omega (arith, step_less begin advance cost less th t u e)) (step-IsAwake th t u e a)
            (later th r e)
    ]

    -- From every state in which nobody sleeps behind the end of the input some order of the steps ends.
    pub finishes :
        Descends begin advance cost
        → (s : System A K T) → IsAwake s
        → (m : ℕ) × (u : System A K T) × Run begin advance s m u × Ended u
    finishes less s a =
        finish_within less (steps_left begin advance cost s) s 0 s (omega arith) a start
