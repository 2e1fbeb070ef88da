-- ===== src/Pool/Drained.antt =====
-- Pool where all threads have ended.
use mathlib.Core.Path.{subst}
use acx_contact_cli.Prelude.{
  ℕ, zero, suc, ◌+◌, ◌≡◌, ◌≢◌, refl, ap, ◌∙◌, sym, Bool, true, false, Option, none, some, List, [],
  ◌∷◌, arith, get_elem?, set, replicate, length, ◌≤◌, inl, inr,
}
use acx_contact_cli.Pool.{
  Pc, waiting, asleep, notify_one, notify_all, pushed, wake, stray, busy, finished, System, Thread,
  producer, worker, produce, pop, resume, move, step, Run, start, later, AllFinished,
}
use acx_contact_cli.Pool.Laws.{total, at_work, Keeps, Run-amount, some_inj, notify_one-Reached}
use acx_contact_cli.Pool.Ends.{Ended}
use acx_contact_cli.Pool.Size.{length-Run}

-- before the first step: `count` workers at their waits and all tasks unread
abbrev pub launched : {A K T : Type 0} → ℕ → A → List K → System A K T
launched count a ks = record {
  shared = a;
  queue = [];
  done = false;
  unread = ks;
  workers = replicate count waiting;
}

-- the end of the input is told once it is read, and a worker ends with the queue empty behind it
pub record IsSound {A K T : Type 0} (s : System A K T) : Type 0 where
  pub read : s.done ≡ true → s.unread ≡ []
  pub left : (j : ℕ) → get_elem? s.workers j ≡ some finished → (s.done ≡ true) × (s.queue ≡ [])

still_finished :
    {T : Type 0} (ws : List (Pc T)) (i j : ℕ) (p : Pc T)
    → p ≢ finished
    → get_elem? (set ws i p) j ≡ some finished
    → get_elem? ws j ≡ some finished
still_finished [] i j p n h = h
still_finished (x ∷ ws) zero zero p n h = absurd (n (some_inj h))
still_finished (x ∷ ws) zero (suc j) p n h = h
still_finished (x ∷ ws) (suc i) zero p n h = h
still_finished (x ∷ ws) (suc i) (suc j) p n h = still_finished ws i j p n h

replicate_waiting :
    {T : Type 0} (count j : ℕ) → get_elem? (replicate {A = Pc T} count waiting) j ≢ some finished
replicate_waiting zero j h = cc h
replicate_waiting (suc count) zero h = cc h
replicate_waiting (suc count) (suc j) h = replicate_waiting count j h

launched-IsSound :
    {A K T : Type 0} (count : ℕ) (a : A) (ks : List K) → IsSound (launched {T = T} count a ks)
launched-IsSound count a ks = record {
  read = λ e. absurd (cc e);
  left = λ j h. absurd (replicate_waiting count j h);
}

at_rest : {T : Type 0} (f : T → ℕ) (ws : List (Pc T)) → AllFinished ws → total (at_work f) ws ≡ 0
at_rest f [] a = refl
at_rest f (finished ∷ ws) a = omega (arith, at_rest f ws a)
at_rest f (waiting ∷ ws) a = elim a [ ]
at_rest f (asleep ∷ ws) a = elim a [ ]
at_rest f (busy t ∷ ws) a = elim a [ ]

idle : {T : Type 0} (f : T → ℕ) (count : ℕ) → total (at_work f) (replicate count waiting) ≡ 0
idle f zero = refl
idle f (suc count) = omega (arith, idle f count)

length-replicate : {A : Type 0} (n : ℕ) (x : A) → length (replicate n x) ≡ n
length-replicate zero x = refl
length-replicate (suc n) x = omega (arith, length-replicate n x)

finished_notified :
    {T : Type 0} (i j : ℕ) (ps qs : List (Pc T))
    → notify_one i ps ≡ some qs
    → get_elem? qs j ≡ some finished
    → get_elem? ps j ≡ some finished
finished_notified i j ps qs e h = elim (notify_one-Reached i ps qs e) [
  | inl q ↦ ap (λ v. get_elem? v j) (sym q) ∙ h
  | inr (o, q) ↦ still_finished ps i j waiting (λ b. cc b) (ap (λ v. get_elem? v j) (sym q) ∙ h)
]

finished-notify_all :
    {T : Type 0} (j : ℕ) (ps : List (Pc T))
    → get_elem? (notify_all ps) j ≡ some finished
    → get_elem? ps j ≡ some finished
unfolding notify_all
finished-notify_all j [] h = h
finished-notify_all zero (waiting ∷ ps) h = h
finished-notify_all zero (asleep ∷ ps) h = absurd (cc h)
finished-notify_all zero (busy t ∷ ps) h = h
finished-notify_all zero (finished ∷ ps) h = h
finished-notify_all (suc j) (waiting ∷ ps) h = finished-notify_all j ps h
finished-notify_all (suc j) (asleep ∷ ps) h = finished-notify_all j ps h
finished-notify_all (suc j) (busy t ∷ ps) h = finished-notify_all j ps h
finished-notify_all (suc j) (finished ∷ ps) h = finished-notify_all j ps h

module _ {A K T : Type 0} (begin : K → T) (advance : A → T → A × Option T) where
  pushed-IsSound :
      (k : K) (ks : List K) (o : Option (List (Pc T))) (s u : System A K T)
      → s.done ≡ false
      → pushed begin advance k ks o s ≡ some u
      → ((ps : List (Pc T)) (j : ℕ)
          → o ≡ some ps
          → get_elem? ps j ≡ some finished
          → get_elem? s.workers j ≡ some finished)
      → IsSound s
      → IsSound u
  pushed-IsSound x ks none s u o e f k = absurd (cc e)
  pushed-IsSound x ks (some ps) s u o e f k = subst IsSound (some_inj e) record {
    read = λ c. absurd (cc (o, c));
    left = λ j h. absurd (cc (o, (k.left j (f ps j refl h)).0));
  }

  produce-IsSound :
      (i : ℕ) (d : Bool) (ks : List K) (s u : System A K T)
      → s.done ≡ d
      → s.unread ≡ ks
      → produce begin advance i d ks s ≡ some u
      → IsSound s
      → IsSound u
  produce-IsSound i true ks s u o q e k = absurd (cc e)
  produce-IsSound i false [] s u o q e k = subst IsSound (some_inj e) record {
    read = λ c. q;
    left = λ j h. absurd (cc (o, (k.left j (finished-notify_all j s.workers h)).0));
  }
  produce-IsSound i false (x ∷ ks) s u o q e k =
      pushed-IsSound x ks (notify_one i s.workers) s u o e
        (λ ps j. finished_notified i j s.workers ps) k

  pop-IsSound :
      (i : ℕ) (ks : List K) (d : Bool) (s u : System A K T)
      → s.queue ≡ ks
      → s.done ≡ d
      → pop begin advance i ks d s ≡ some u
      → IsSound s
      → IsSound u
  pop-IsSound i (x ∷ ks) d s u q o e k = subst IsSound (some_inj e) record {
    read = k.read;
    left = λ j h.
        absurd (cc (q, (k.left j (still_finished s.workers i j (busy (begin x)) (λ b. cc b) h)).1));
  }
  pop-IsSound i [] true s u q o e k =
      subst IsSound (some_inj e) record { read = k.read; left = λ j h. (o, q) }
  pop-IsSound i [] false s u q o e k = subst IsSound (some_inj e) record {
    read = k.read;
    left = λ j h. k.left j (still_finished s.workers i j asleep (λ b. cc b) h);
  }

  resume-IsSound :
      (i : ℕ) (r : A × Option T) (s : System A K T)
      → IsSound s
      → IsSound (resume begin advance i r s)
  resume-IsSound i (a, none) s k = record {
    read = k.read;
    left = λ j h. k.left j (still_finished s.workers i j waiting (λ b. cc b) h);
  }
  resume-IsSound i (a, some t) s k = record {
    read = k.read;
    left = λ j h. k.left j (still_finished s.workers i j (busy t) (λ b. cc b) h);
  }

  move-IsSound :
      (i : ℕ) (o : Option (Pc T)) (s u : System A K T)
      → move begin advance i o s ≡ some u
      → IsSound s
      → IsSound u
  move-IsSound i none s u e k = absurd (cc e)
  move-IsSound i (some waiting) s u e k = pop-IsSound i s.queue s.done s u refl refl e k
  move-IsSound i (some (busy t)) s u e k =
      subst IsSound (some_inj e) (resume-IsSound i (advance s.shared t) s k)
  move-IsSound i (some finished) s u e k = absurd (cc e)
  move-IsSound i (some asleep) s u e k = absurd (cc e)

  wake-IsSound :
      (i : ℕ) (o : Option (Pc T)) (s u : System A K T)
      → wake begin advance i o s ≡ some u
      → IsSound s
      → IsSound u
  wake-IsSound i none s u e k = absurd (cc e)
  wake-IsSound i (some waiting) s u e k = absurd (cc e)
  wake-IsSound i (some asleep) s u e k = subst IsSound (some_inj e) record {
    read = k.read;
    left = λ j h. k.left j (still_finished s.workers i j waiting (λ b. cc b) h);
  }
  wake-IsSound i (some (busy t)) s u e k = absurd (cc e)
  wake-IsSound i (some finished) s u e k = absurd (cc e)

  step-IsSound :
      (th : Thread) (s u : System A K T) → step begin advance th s ≡ some u → IsSound s → IsSound u
  unfolding step
  step-IsSound (producer i) s u e k = produce-IsSound i s.done s.unread s u refl refl e k
  step-IsSound (stray i) s u e k = wake-IsSound i (get_elem? s.workers i) s u e k
  step-IsSound (worker i) s u e k = move-IsSound i (get_elem? s.workers i) s u e k

  pub Run-IsSound :
      {s : System A K T} {n : ℕ} {u : System A K T}
      → Run begin advance s n u
      → IsSound s
      → IsSound u
  Run-IsSound start k = k
  Run-IsSound (later {t = t} {u = u} th r e) k = step-IsSound th t u e (Run-IsSound r k)

  -- the last worker to leave leaves nothing behind
  drained :
      (ws : List (Pc T)) (s : System A K T)
      → s.workers ≡ ws
      → IsSound s
      → s.done ≡ true
      → AllFinished ws
      → 1 ≤ length ws
      → (s.queue ≡ []) × (s.unread ≡ [])
  drained [] s w k d a l = absurd (omega (arith, l))
  drained (finished ∷ ws) s w k d a l = ((k.left 0 (ap (λ v. get_elem? v 0) w)).1, k.read d)
  drained (waiting ∷ ws) s w k d a l = elim a [ ]
  drained (asleep ∷ ws) s w k d a l = elim a [ ]
  drained (busy t ∷ ws) s w k d a l = elim a [ ]

  -- Once all have ended, with a worker at least, a quantity that the work keeps is in the shared
  -- values: what was there, and the weight of every task of the input.
  pub Run_value :
      (value : A → ℕ) (weight : T → ℕ)
      → Keeps begin advance value weight
      → (count : ℕ) (a : A) (ks : List K) (n : ℕ) (u : System A K T) → 1 ≤ count
      → Run begin advance (launched count a ks) n u
      → Ended u
      → value u.shared ≡ value a + total (λ k. weight (begin k)) ks
  Run_value value weight keeps count a ks n u l r (d, f) =
      let kept = Run-amount begin advance value weight keeps r in
      let sound = Run-IsSound r (launched-IsSound count a ks) in
      let many = length-Run begin advance r ∙ length-replicate count waiting in
      let (q, w) = drained u.workers u refl sound d f (omega (arith, many, l)) in
      let no_queue = ap (total (λ k. weight (begin k))) q in
      let no_input = ap (total (λ k. weight (begin k))) w in
      omega (arith, kept, no_queue, no_input, at_rest weight u.workers f, idle weight count)
