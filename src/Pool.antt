-- ===== src/Pool.antt =====
-- A producer and workers over one queue: the pattern of `import_data_parallel` in src/storage.cpp and
-- of `process_lines_parallel` with `LineQueue` in src/cli.cpp. A step is what one thread does
-- between two waits or inside one critical section; any thread that can move may be the next one. A
-- worker that finds nothing to do sleeps in the wait until a notification wakes it, which is part of
-- the producer's step, or a stray wake-up, which a condition variable may have.
pub mod Laws
mod Asleep
mod Size
pub mod Ends
pub mod Progress
pub mod Drained
use acx_contact_cli.Prelude.{
  ℕ, suc, ◌≡◌, Bool, true, false, Option, none, some, List, [], ◌∷◌, ◌++◌, get_elem?, set,
}

-- where a worker stands: at the test of the wait, asleep in the wait, at work, or past its loop
pub data Pc (T : Type 0) : Type 0 where
  waiting : Pc T
  asleep : Pc T
  busy : T → Pc T
  finished : Pc T

-- the shared values `A`, tasks `K`, and what a worker keeps of one, `T`
pub record System (A K T : Type 0) : Type 0 where
  pub shared : A
  pub queue : List K
  pub done : Bool
  pub unread : List K
  pub workers : List (Pc T)

-- the producer, with the worker that its notification reaches, a worker, and a stray wake-up of one
pub data Thread : Type 0 where
  producer : ℕ → Thread
  worker : ℕ → Thread
  stray : ℕ → Thread

abbrev pub any_asleep : {T : Type 0} → List (Pc T) → Bool
any_asleep [] = false
any_asleep (asleep ∷ ps) = true
any_asleep (waiting ∷ ps) = any_asleep ps
any_asleep (busy t ∷ ps) = any_asleep ps
any_asleep (finished ∷ ps) = any_asleep ps

-- a notification that reaches nobody, which happens only where nobody sleeps
abbrev pub unheard : {T : Type 0} → Bool → List (Pc T) → Option (List (Pc T))
unheard true ps = none
unheard false ps = some ps

abbrev pub notify_at : {T : Type 0} → Option (Pc T) → ℕ → List (Pc T) → Option (List (Pc T))
notify_at (some asleep) i ps = some (set ps i waiting)
notify_at none i ps = unheard (any_asleep ps) ps
notify_at (some waiting) i ps = unheard (any_asleep ps) ps
notify_at (some (busy t)) i ps = unheard (any_asleep ps) ps
notify_at (some finished) i ps = unheard (any_asleep ps) ps

-- `notify_one` that reaches the worker at a position
unfoldable pub notify_one : {T : Type 0} → ℕ → List (Pc T) → Option (List (Pc T))
notify_one i ps = notify_at (get_elem? ps i) i ps

unfoldable pub notify_all : {T : Type 0} → List (Pc T) → List (Pc T)
notify_all [] = []
notify_all (asleep ∷ ps) = waiting ∷ notify_all ps
notify_all (waiting ∷ ps) = waiting ∷ notify_all ps
notify_all (busy t ∷ ps) = busy t ∷ notify_all ps
notify_all (finished ∷ ps) = finished ∷ notify_all ps

module _ {A K T : Type 0} (begin : K → T) (advance : A → T → A × Option T) where
  -- a push to the queue, given what its notification does
  abbrev pub pushed : K → List K → Option (List (Pc T)) → System A K T → Option (System A K T)
  pushed k ks none s = none
  pushed k ks (some ps) s = some (record s { queue = s.queue ++ k ∷ []; unread = ks; workers = ps })

  -- a push to the queue, or the end of the input
  abbrev pub produce : ℕ → Bool → List K → System A K T → Option (System A K T)
  produce i true ks s = none
  produce i false [] s = some (record s { done = true; workers = notify_all s.workers })
  produce i false (k ∷ ks) s = pushed k ks (notify_one i s.workers) s

  -- the test of `cv.wait`: on an empty queue a worker sleeps, but at the end of the input
  abbrev pub pop : ℕ → List K → Bool → System A K T → Option (System A K T)
  pop i (k ∷ ks) d s = some (record s { queue = ks; workers = set s.workers i (busy (begin k)) })
  pop i [] true s = some (record s { workers = set s.workers i finished })
  pop i [] false s = some (record s { workers = set s.workers i asleep })

  -- behind a step of the work, back to the loop or further on
  abbrev pub resume : ℕ → A × Option T → System A K T → System A K T
  resume i (a, none) s = record s { shared = a; workers = set s.workers i waiting }
  resume i (a, some t) s = record s { shared = a; workers = set s.workers i (busy t) }

  abbrev pub move : ℕ → Option (Pc T) → System A K T → Option (System A K T)
  move i none s = none
  move i (some waiting) s = pop i s.queue s.done s
  move i (some (busy t)) s = some (resume i (advance s.shared t) s)
  move i (some finished) s = none
  move i (some asleep) s = none

  abbrev pub wake : ℕ → Option (Pc T) → System A K T → Option (System A K T)
  wake i (some asleep) s = some (record s { workers = set s.workers i waiting })
  wake i none s = none
  wake i (some waiting) s = none
  wake i (some (busy t)) s = none
  wake i (some finished) s = none

  -- a thread's step; `none` where it sleeps or has ended
  unfoldable pub step : Thread → System A K T → Option (System A K T)
  unfolding notify_one notify_all
  step (producer i) s = produce i s.done s.unread s
  step (worker i) s = move i (get_elem? s.workers i) s
  step (stray i) s = wake i (get_elem? s.workers i) s

  -- the states that a sequence of steps leads to
  pub data Run (s : System A K T) : ℕ → System A K T → Type 0 where
    start : Run s 0 s
    later :
        {n : ℕ} {t u : System A K T} (th : Thread)
        → Run s n t
        → step th t ≡ some u
        → Run s (suc n) u

-- every worker has been joined
abbrev pub AllFinished : {T : Type 0} → List (Pc T) → Type 0
AllFinished [] = Unit
AllFinished (finished ∷ ps) = AllFinished ps
AllFinished (waiting ∷ ps) = ⊥
AllFinished (asleep ∷ ps) = ⊥
AllFinished (busy t ∷ ps) = ⊥
