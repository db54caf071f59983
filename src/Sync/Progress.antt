-- ===== src/Sync/Progress.antt =====
-- kernel/sched/sync.c: every task can come to hold the mutex.
use mathlib.Core.Path.{subst}
use ulmix_i.Base.{
  ℕ, ◌≡◌, ◌∙◌, sym, ap, ◌⊎◌, inl, inr, ◌≢◌, refl, true, false, Bool-cases, arith, ◌==◌,
}
use ulmix_i.Sync.{
  Mutex, mutex_init, mutex_unlock, Pc, outside, checked, holding, Move, pass, take, unlock, System,
  update, Turn, lock, stay, Turns,
}
use ulmix_i.Sync.Exclusion.{Exclusive, Turns-Exclusive, stay_inv}

-- The turns that lead from one system to another.
pub data From (s : System) : System → Type 0 where
  here : From s s
  there : {t u : System} → From s t → Turn t u → From s u

-- A mutex that is taken has a holder.
HasHolder : System → Type 0
HasHolder s = s.mutex.locked ≡ true → (j : ℕ) × (s.pc j ≡ holding)

stay-HasHolder :
    (s : System) (i : ℕ) (m : Mutex)
    → HasHolder s
    → ((s.pc i ≡ outside) × (m ≡ s.mutex)) ⊎ ((s.pc i ≡ holding) × (m ≡ mutex_unlock s.mutex))
    → HasHolder (record { mutex = m; pc = update s.pc i outside })
unfolding mutex_unlock HasHolder
stay-HasHolder s i m h (inl (p, e)) = λ l. other (h (sym (ap (λ (m : Mutex). m.locked) e) ∙ l))
  where
    other : (j : ℕ) × (s.pc j ≡ holding) → (j : ℕ) × (update s.pc i outside j ≡ holding)
    other (j, q) = (j, ground arith)
stay-HasHolder s i m h (inr (p, e)) = λ l. absurd (ground arith)

Turn-HasHolder : {s t : System} → Turn s t → HasHolder s → HasHolder t
unfolding HasHolder
Turn-HasHolder (lock i a b) h = λ l. (i, ground arith)
Turn-HasHolder (stay i a) h = stay-HasHolder _ i _ h (stay_inv a)

Turns-HasHolder : {s : System} → Turns s → HasHolder s
unfolding HasHolder mutex_init
Turns-HasHolder Turns.start = λ l. absurd cc
Turns-HasHolder (Turns.later r t) = Turn-HasHolder t (Turns-HasHolder r)

-- A task takes a free mutex.
lock-at :
    (s : System) (i : ℕ)
    → s.pc i ≡ outside
    → s.mutex.locked ≡ false
    → Turn s (record { mutex = record s.mutex { locked = true }; pc = update s.pc i holding })
lock-at s i p free = lock i (subst (λ x. Move s.mutex x s.mutex checked) (sym p) (pass free)) take

-- The holder lets go.
unlock-at :
    (s : System) (j : ℕ)
    → s.pc j ≡ holding
    → Turn s (record { mutex = mutex_unlock s.mutex; pc = update s.pc j outside })
unlock-at s j p = stay j (subst (λ x. Move s.mutex x (mutex_unlock s.mutex) outside) (sym p) unlock)

idle_task : (p : Pc) → p ≢ checked → p ≢ holding → p ≡ outside
idle_task outside c h = refl
idle_task checked c h = absurd (c refl)
idle_task holding c h = absurd (h refl)

-- A free mutex: nobody is past mutex_lock(), so the task is outside.
take_free :
    {s : System}
    → Exclusive s
    → (i : ℕ) → s.mutex.locked ≡ false
    → (t : System) × From s t × (t.pc i ≡ holding)
take_free {s} e i free = (
  record { mutex = record s.mutex { locked = true }; pc = update s.pc i holding },
  there here
      (lock-at s i (idle_task (s.pc i) (e.idle i) (λ h. absurd (locked_free (e.held i h)))) free),
  ground arith,
)
  where
    locked_free : s.mutex.locked ≡ true → ⊥
    locked_free l = cc

-- A mutex that task `j` holds: `j` unlocks, and task `i`, which is outside then, takes it.
take_over :
    {s : System}
    → Exclusive s
    → (i j : ℕ) → s.pc j ≡ holding
    → (t : System) × From s t × (t.pc i ≡ holding)
unfolding mutex_unlock
take_over {s} e i j h = (
  record {
    mutex = record (mutex_unlock s.mutex) { locked = true };
    pc = update (update s.pc j outside) i holding;
  },
  there (there here (unlock-at s j h)) (
      lock-at (record { mutex = mutex_unlock s.mutex; pc = update s.pc j outside }) i
        (now_outside (Bool-cases (j == i))) refl),
  ground arith,
)
  where
    now_outside : ((j == i) ≡ true) ⊎ ((j == i) ≡ false) → update s.pc j outside i ≡ outside
    now_outside (inl t) = rw t refl
    now_outside (inr t) =
        rw t (idle_task (s.pc i) (e.idle i) (λ h'. absurd (ground (arith, e.one i j h' h))))

-- If no task is interrupted inside mutex_lock(), the mutex never blocks for good: from any state that is
-- reached, and for any task, there are turns after which that task holds the mutex.
pub mutex_progress : {s : System} → Turns s → (i : ℕ) → (t : System) × From s t × (t.pc i ≡ holding)
unfolding HasHolder
mutex_progress {s} r i = elim (Bool-cases s.mutex.locked) [
  | inl l ↦ (let (j, h) = Turns-HasHolder r l in take_over (Turns-Exclusive r) i j h)
  | inr free ↦ take_free (Turns-Exclusive r) i free
]
