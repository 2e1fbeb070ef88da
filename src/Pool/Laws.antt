-- ===== src/Pool/Laws.antt =====
-- Sums over the shared values and all tasks of Pool, read or not.
use acx_contact_cli.Prelude.{
  ℕ, zero, suc, ◌+◌, ◌≡◌, refl, ap, ◌∙◌, sym, Bool, true, false, Option, none, some, List, [], ◌∷◌,
  ◌++◌, arith, get_elem?, set, ◌⊎◌, inl, inr,
}
use acx_contact_cli.Pool.{
  Pc, waiting, asleep, unheard, any_asleep, notify_at, notify_one, notify_all, pushed, wake, stray,
  busy, finished, System, Thread, producer, worker, produce, pop, resume, move, step, Run, start,
  later,
}

-- a sum over a list
abbrev pub total : {A : Type 0} → (A → ℕ) → List A → ℕ
total f [] = 0
total f (x ∷ xs) = f x + total f xs

pub total-snoc :
    {A : Type 0} (f : A → ℕ) (xs : List A) (x : A) → total f (xs ++ x ∷ []) ≡ total f xs + f x
total-snoc f [] x = omega arith
total-snoc f (y ∷ xs) x = omega (arith, total-snoc f xs x)

pub total-set :
    {A : Type 0} (f : A → ℕ) (xs : List A) (i : ℕ) (new old : A)
    → get_elem? xs i ≡ some old
    → total f (set xs i new) + f old ≡ total f xs + f new
total-set f [] i new old h = absurd (cc h)
total-set f (x ∷ xs) zero new old h = let e : x ≡ old = cc h in let e' = ap f e in omega arith
total-set f (x ∷ xs) (suc i) new old h = omega (arith, total-set f xs i new old h)

-- a weight of tasks at work, as one of workers
abbrev pub at_work : {T : Type 0} → (T → ℕ) → Pc T → ℕ
at_work f waiting = 0
at_work f asleep = 0
at_work f (busy t) = f t
at_work f finished = 0

abbrev pub left_over : {T : Type 0} → (T → ℕ) → Option T → ℕ
left_over f none = 0
left_over f (some t) = f t

pub some_inj : {A : Type 0} {a b : A} → some a ≡ some b → a ≡ b
some_inj e = cc e

unheard_lem : {T : Type 0} (b : Bool) (ps qs : List (Pc T)) → unheard b ps ≡ some qs → qs ≡ ps
unheard_lem true ps qs e = absurd (cc e)
unheard_lem false ps qs e = sym (some_inj e)

-- what `notify_one` comes to
abbrev pub Reached : {T : Type 0} → Option (Pc T) → ℕ → List (Pc T) → List (Pc T) → Type 0
Reached o i ps qs = (qs ≡ ps) ⊎ ((o ≡ some asleep) × (qs ≡ set ps i waiting))

notify_at-Reached :
    {T : Type 0} (o : Option (Pc T)) (i : ℕ) (ps qs : List (Pc T))
    → notify_at o i ps ≡ some qs
    → Reached o i ps qs
notify_at-Reached none i ps qs e = inl (unheard_lem (any_asleep ps) ps qs e)
notify_at-Reached (some waiting) i ps qs e = inl (unheard_lem (any_asleep ps) ps qs e)
notify_at-Reached (some asleep) i ps qs e = inr (refl, sym (some_inj e))
notify_at-Reached (some (busy t)) i ps qs e = inl (unheard_lem (any_asleep ps) ps qs e)
notify_at-Reached (some finished) i ps qs e = inl (unheard_lem (any_asleep ps) ps qs e)

pub notify_one-Reached :
    {T : Type 0} (i : ℕ) (ps qs : List (Pc T))
    → notify_one i ps ≡ some qs
    → Reached (get_elem? ps i) i ps qs
unfolding notify_one
notify_one-Reached i ps qs e = notify_at-Reached (get_elem? ps i) i ps qs e

at_work-notify_one :
    {T : Type 0} (f : T → ℕ) (i : ℕ) (ps qs : List (Pc T))
    → notify_one i ps ≡ some qs
    → total (at_work f) qs ≡ total (at_work f) ps
at_work-notify_one f i ps qs e = elim (notify_one-Reached i ps qs e) [
  | inl q ↦ ap (total (at_work f)) q
  | inr (h, q) ↦
      ap (total (at_work f)) q ∙ omega (arith, total-set (at_work f) ps i waiting asleep h)
]

at_work-notify_all :
    {T : Type 0} (f : T → ℕ) (ps : List (Pc T))
    → total (at_work f) (notify_all ps) ≡ total (at_work f) ps
unfolding notify_all
at_work-notify_all f [] = refl
at_work-notify_all f (waiting ∷ ps) = omega (arith, at_work-notify_all f ps)
at_work-notify_all f (asleep ∷ ps) = omega (arith, at_work-notify_all f ps)
at_work-notify_all f (busy t ∷ ps) = omega (arith, at_work-notify_all f ps)
at_work-notify_all f (finished ∷ ps) = omega (arith, at_work-notify_all f ps)

module _ {A K T : Type 0} (begin : K → T) (advance : A → T → A × Option T) (value : A → ℕ)
    (weight : T → ℕ) where
  -- what the shared values and the tasks amount to
  abbrev pub amount : System A K T → ℕ
  amount s =
      value s.shared
      + (total (at_work weight) s.workers
          + (total (λ k. weight (begin k)) s.queue + total (λ k. weight (begin k)) s.unread))

  -- a step of the work moves what it takes from the task to the shared values
  abbrev pub Keeps : Type 0
  Keeps =
      (a : A) (t : T)
      → value (advance a t).0 + left_over weight (advance a t).1 ≡ value a + weight t

  resume-amount :
      (i : ℕ) (r : A × Option T) (s : System A K T) (t : T)
      → get_elem? s.workers i ≡ some (busy t)
      → value r.0 + left_over weight r.1 ≡ value s.shared + weight t
      → amount (resume begin advance i r s) ≡ amount s
  resume-amount i (a, none) s t h k =
      omega (arith, total-set (at_work weight) s.workers i waiting (busy t) h)
  resume-amount i (a, some t') s t h k =
      omega (arith, total-set (at_work weight) s.workers i (busy t') (busy t) h)

  pop-amount :
      (i : ℕ) (ks : List K) (d : Bool) (s u : System A K T)
      → s.queue ≡ ks
      → get_elem? s.workers i ≡ some waiting
      → pop begin advance i ks d s ≡ some u
      → amount u ≡ amount s
  pop-amount i (k ∷ ks) d s u q h e =
      ap amount (sym (some_inj e))
      ∙ omega (
        arith,
        total-set (at_work weight) s.workers i (busy (begin k)) waiting h,
        ap (total (λ k. weight (begin k))) q,
      )
  pop-amount i [] true s u q h e =
      ap amount (sym (some_inj e))
      ∙ omega (arith, total-set (at_work weight) s.workers i finished waiting h)
  pop-amount i [] false s u q h e =
      ap amount (sym (some_inj e))
      ∙ omega (arith, total-set (at_work weight) s.workers i asleep waiting h)

  pushed-amount :
      (k : K) (ks : List K) (o : Option (List (Pc T))) (s u : System A K T)
      → s.unread ≡ k ∷ ks
      → ((ps : List (Pc T))
          → o ≡ some ps
          → total (at_work weight) ps ≡ total (at_work weight) s.workers)
      → pushed begin advance k ks o s ≡ some u
      → amount u ≡ amount s
  pushed-amount k ks none s u q h e = absurd (cc e)
  pushed-amount k ks (some ps) s u q h e =
      ap amount (sym (some_inj e))
      ∙ omega (
        arith,
        h ps refl,
        total-snoc (λ k. weight (begin k)) s.queue k,
        ap (total (λ k. weight (begin k))) q,
      )

  produce-amount :
      (i : ℕ) (d : Bool) (ks : List K) (s u : System A K T)
      → s.unread ≡ ks
      → produce begin advance i d ks s ≡ some u
      → amount u ≡ amount s
  produce-amount i true ks s u q e = absurd (cc e)
  produce-amount i false [] s u q e =
      ap amount (sym (some_inj e)) ∙ omega (arith, at_work-notify_all weight s.workers)
  produce-amount i false (k ∷ ks) s u q e =
      pushed-amount k ks (notify_one i s.workers) s u q (at_work-notify_one weight i s.workers) e

  move-amount :
      Keeps
      → (i : ℕ) (o : Option (Pc T)) (s u : System A K T) → get_elem? s.workers i ≡ o
      → move begin advance i o s ≡ some u
      → amount u ≡ amount s
  move-amount keeps i none s u h e = absurd (cc e)
  move-amount keeps i (some waiting) s u h e = pop-amount i s.queue s.done s u refl h e
  move-amount keeps i (some (busy t)) s u h e =
      ap amount (sym (some_inj e)) ∙ resume-amount i (advance s.shared t) s t h (keeps s.shared t)
  move-amount keeps i (some finished) s u h e = absurd (cc e)
  move-amount keeps i (some asleep) s u h e = absurd (cc e)

  wake-amount :
      (i : ℕ) (o : Option (Pc T)) (s u : System A K T)
      → get_elem? s.workers i ≡ o
      → wake begin advance i o s ≡ some u
      → amount u ≡ amount s
  wake-amount i none s u h e = absurd (cc e)
  wake-amount i (some waiting) s u h e = absurd (cc e)
  wake-amount i (some asleep) s u h e =
      ap amount (sym (some_inj e))
      ∙ omega (arith, total-set (at_work weight) s.workers i waiting asleep h)
  wake-amount i (some (busy t)) s u h e = absurd (cc e)
  wake-amount i (some finished) s u h e = absurd (cc e)

  step-amount :
      Keeps
      → (th : Thread) (s u : System A K T) → step begin advance th s ≡ some u
      → amount u ≡ amount s
  unfolding step
  step-amount keeps (producer i) s u e = produce-amount i s.done s.unread s u refl e
  step-amount keeps (stray i) s u e = wake-amount i (get_elem? s.workers i) s u refl e
  step-amount keeps (worker i) s u e = move-amount keeps i (get_elem? s.workers i) s u refl e

  -- No interleaving changes what the shared values and the tasks amount to.
  pub Run-amount :
      Keeps
      → {s : System A K T} {n : ℕ} {u : System A K T} → Run begin advance s n u
      → amount u ≡ amount s
  Run-amount keeps start = refl
  Run-amount keeps (later {t = t} {u = u} th r e) = step-amount keeps th t u e ∙ Run-amount keeps r
