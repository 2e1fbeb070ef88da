-- ===== src/Pool/Asleep.antt =====
-- Who sleeps in Pool, and whom a notification reaches.
use acx_contact_cli.Prelude.{
  ℕ, zero, suc, ◌≡◌, ◌≢◌, refl, ap, true, false, Option, none, some, List, [], ◌∷◌, get_elem?, set,
  inl, inr, Bool-cases,
}
use acx_contact_cli.Pool.{
  Pc, waiting, asleep, busy, finished, System, any_asleep, unheard, notify_at, notify_one,
  notify_all,
}

-- nobody sleeps once the end of the input has been told
abbrev pub IsAwake : {A K T : Type 0} → System A K T → Type 0
IsAwake s = s.done ≡ true → any_asleep s.workers ≡ false

pub any_asleep-notify_all : {T : Type 0} (ps : List (Pc T)) → any_asleep (notify_all ps) ≡ false
unfolding notify_all
any_asleep-notify_all [] = refl
any_asleep-notify_all (waiting ∷ ps) = any_asleep-notify_all ps
any_asleep-notify_all (asleep ∷ ps) = any_asleep-notify_all ps
any_asleep-notify_all (busy t ∷ ps) = any_asleep-notify_all ps
any_asleep-notify_all (finished ∷ ps) = any_asleep-notify_all ps

pub any_asleep-set :
    {T : Type 0} (ps : List (Pc T)) (i : ℕ) (p : Pc T)
    → any_asleep (p ∷ []) ≡ false
    → any_asleep ps ≡ false
    → any_asleep (set ps i p) ≡ false
any_asleep-set [] i p h k = k
any_asleep-set (waiting ∷ ps) zero waiting h k = k
any_asleep-set (waiting ∷ ps) zero asleep h k = absurd (cc h)
any_asleep-set (waiting ∷ ps) zero (busy t) h k = k
any_asleep-set (waiting ∷ ps) zero finished h k = k
any_asleep-set (busy x ∷ ps) zero waiting h k = k
any_asleep-set (busy x ∷ ps) zero asleep h k = absurd (cc h)
any_asleep-set (busy x ∷ ps) zero (busy t) h k = k
any_asleep-set (busy x ∷ ps) zero finished h k = k
any_asleep-set (finished ∷ ps) zero waiting h k = k
any_asleep-set (finished ∷ ps) zero asleep h k = absurd (cc h)
any_asleep-set (finished ∷ ps) zero (busy t) h k = k
any_asleep-set (finished ∷ ps) zero finished h k = k
any_asleep-set (asleep ∷ ps) i p h k = absurd (cc k)
any_asleep-set (waiting ∷ ps) (suc i) p h k = any_asleep-set ps i p h k
any_asleep-set (busy x ∷ ps) (suc i) p h k = any_asleep-set ps i p h k
any_asleep-set (finished ∷ ps) (suc i) p h k = any_asleep-set ps i p h k

-- a sleeper, where there is one
sleeper :
    {T : Type 0} (ps : List (Pc T))
    → any_asleep ps ≡ true
    → (i : ℕ) × (get_elem? ps i ≡ some asleep)
sleeper [] h = absurd (cc h)
sleeper (asleep ∷ ps) h = (0, refl)
sleeper (waiting ∷ ps) h = let (i, e) = sleeper ps h in (suc i, e)
sleeper (busy t ∷ ps) h = let (i, e) = sleeper ps h in (suc i, e)
sleeper (finished ∷ ps) h = let (i, e) = sleeper ps h in (suc i, e)

awake_at :
    {T : Type 0} (o : Option (Pc T)) (i : ℕ) (ps : List (Pc T))
    → any_asleep ps ≡ false
    → o ≢ some asleep
    → notify_at o i ps ≡ some ps
awake_at none i ps h n = ap (λ b. unheard b ps) h
awake_at (some waiting) i ps h n = ap (λ b. unheard b ps) h
awake_at (some asleep) i ps h n = absurd (n refl)
awake_at (some (busy t)) i ps h n = ap (λ b. unheard b ps) h
awake_at (some finished) i ps h n = ap (λ b. unheard b ps) h

none_asleep :
    {T : Type 0} (ps : List (Pc T)) (i : ℕ) → any_asleep ps ≡ false → get_elem? ps i ≢ some asleep
none_asleep [] i h e = cc e
none_asleep (asleep ∷ ps) i h e = cc h
none_asleep (waiting ∷ ps) zero h e = cc e
none_asleep (busy t ∷ ps) zero h e = cc e
none_asleep (finished ∷ ps) zero h e = cc e
none_asleep (waiting ∷ ps) (suc i) h e = none_asleep ps i h e
none_asleep (busy t ∷ ps) (suc i) h e = none_asleep ps i h e
none_asleep (finished ∷ ps) (suc i) h e = none_asleep ps i h e

-- some worker can be the one that a notification reaches
pub reachable :
    {T : Type 0} (ps : List (Pc T)) → (i : ℕ) × (qs : List (Pc T)) × (notify_one i ps ≡ some qs)
unfolding notify_one
reachable ps = elim (Bool-cases (any_asleep ps)) [
  | inl h ↦ (let (i, e) = sleeper ps h in (i, set ps i waiting, ap (λ o. notify_at o i ps) e))
  | inr h ↦ (0, ps, awake_at (get_elem? ps 0) 0 ps h (none_asleep ps 0 h))
]

pub sleeps :
    {T : Type 0} (ps : List (Pc T)) (i : ℕ) → get_elem? ps i ≡ some asleep → any_asleep ps ≡ true
sleeps [] i h = absurd (cc h)
sleeps (asleep ∷ ps) i h = refl
sleeps (waiting ∷ ps) zero h = absurd (cc h)
sleeps (busy t ∷ ps) zero h = absurd (cc h)
sleeps (finished ∷ ps) zero h = absurd (cc h)
sleeps (waiting ∷ ps) (suc i) h = sleeps ps i h
sleeps (busy t ∷ ps) (suc i) h = sleeps ps i h
sleeps (finished ∷ ps) (suc i) h = sleeps ps i h
