-- ===== src/Pool/Size.antt =====
-- No step of Pool changes how many workers there are.
use acx_contact_cli.Prelude.{
  ℕ, suc, ◌≡◌, refl, ap, ◌∙◌, sym, Bool, true, false, Option, none, some, List, [], ◌∷◌, get_elem?,
  length, length-set, inl, inr,
}
use acx_contact_cli.Pool.{
  Pc, waiting, asleep, notify_one, notify_all, pushed, wake, stray, busy, finished, System, Thread,
  producer, worker, produce, pop, resume, move, step, Run, start, later,
}
use acx_contact_cli.Pool.Laws.{some_inj, notify_one-Reached}

length-notify_one :
    {T : Type 0} (i : ℕ) (ps qs : List (Pc T)) → notify_one i ps ≡ some qs → length qs ≡ length ps
length-notify_one i ps qs e = elim (notify_one-Reached i ps qs e) [
  | inl q ↦ ap length q
  | inr (o, q) ↦ ap length q ∙ length-set ps i waiting
]

length-notify_all : {T : Type 0} (ps : List (Pc T)) → length (notify_all ps) ≡ length ps
unfolding notify_all
length-notify_all [] = refl
length-notify_all (waiting ∷ ps) = ap suc (length-notify_all ps)
length-notify_all (asleep ∷ ps) = ap suc (length-notify_all ps)
length-notify_all (busy t ∷ ps) = ap suc (length-notify_all ps)
length-notify_all (finished ∷ ps) = ap suc (length-notify_all ps)

module _ {A K T : Type 0} (begin : K → T) (advance : A → T → A × Option T) where
  length-pop :
      (i : ℕ) (ks : List K) (d : Bool) (s u : System A K T)
      → pop begin advance i ks d s ≡ some u
      → length u.workers ≡ length s.workers
  length-pop i (x ∷ ks) d s u e =
      ap (λ v. length v.workers) (sym (some_inj e)) ∙ length-set s.workers i _
  length-pop i [] true s u e =
      ap (λ v. length v.workers) (sym (some_inj e)) ∙ length-set s.workers i _
  length-pop i [] false s u e =
      ap (λ v. length v.workers) (sym (some_inj e)) ∙ length-set s.workers i _

  length-resume :
      (i : ℕ) (r : A × Option T) (s : System A K T)
      → length (resume begin advance i r s).workers ≡ length s.workers
  length-resume i (a, none) s = length-set s.workers i _
  length-resume i (a, some t) s = length-set s.workers i _

  length-pushed :
      (k : K) (ks : List K) (o : Option (List (Pc T))) (s u : System A K T)
      → ((ps : List (Pc T)) → o ≡ some ps → length ps ≡ length s.workers)
      → pushed begin advance k ks o s ≡ some u
      → length u.workers ≡ length s.workers
  length-pushed k ks none s u f e = absurd (cc e)
  length-pushed k ks (some ps) s u f e = ap (λ v. length v.workers) (sym (some_inj e)) ∙ f ps refl

  length-produce :
      (i : ℕ) (d : Bool) (ks : List K) (s u : System A K T)
      → produce begin advance i d ks s ≡ some u
      → length u.workers ≡ length s.workers
  length-produce i true ks s u e = absurd (cc e)
  length-produce i false [] s u e =
      ap (λ v. length v.workers) (sym (some_inj e)) ∙ length-notify_all s.workers
  length-produce i false (x ∷ ks) s u e =
      length-pushed x ks (notify_one i s.workers) s u (length-notify_one i s.workers) e

  length-move :
      (i : ℕ) (o : Option (Pc T)) (s u : System A K T)
      → move begin advance i o s ≡ some u
      → length u.workers ≡ length s.workers
  length-move i none s u e = absurd (cc e)
  length-move i (some waiting) s u e = length-pop i s.queue s.done s u e
  length-move i (some (busy t)) s u e =
      ap (λ v. length v.workers) (sym (some_inj e)) ∙ length-resume i (advance s.shared t) s
  length-move i (some finished) s u e = absurd (cc e)
  length-move i (some asleep) s u e = absurd (cc e)

  length-wake :
      (i : ℕ) (o : Option (Pc T)) (s u : System A K T)
      → wake begin advance i o s ≡ some u
      → length u.workers ≡ length s.workers
  length-wake i none s u e = absurd (cc e)
  length-wake i (some waiting) s u e = absurd (cc e)
  length-wake i (some asleep) s u e =
      ap (λ v. length v.workers) (sym (some_inj e)) ∙ length-set s.workers i _
  length-wake i (some (busy t)) s u e = absurd (cc e)
  length-wake i (some finished) s u e = absurd (cc e)

  length-step :
      (th : Thread) (s u : System A K T)
      → step begin advance th s ≡ some u
      → length u.workers ≡ length s.workers
  unfolding step
  length-step (producer i) s u e = length-produce i s.done s.unread s u e
  length-step (stray i) s u e = length-wake i (get_elem? s.workers i) s u e
  length-step (worker i) s u e = length-move i (get_elem? s.workers i) s u e

  pub length-Run :
      {s : System A K T} {n : ℕ} {u : System A K T}
      → Run begin advance s n u
      → length u.workers ≡ length s.workers
  length-Run start = refl
  length-Run (later {t = t} {u = u} th r e) = length-step th t u e ∙ length-Run r
