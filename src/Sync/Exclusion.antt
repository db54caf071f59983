-- ===== src/Sync/Exclusion.antt =====
-- kernel/sched/sync.c: mutual exclusion, where it holds and where it does not.
use mathlib.Core.Path.{subst}
use ulmix_i.Base.{ℕ, ◌≡◌, sym, ap, ◌⊎◌, inl, inr, ◌≢◌, refl, true, false, arith}
use ulmix_i.Sync.{
  Mutex, mutex_init, mutex_unlock, Pc, outside, checked, holding, Move, spin, pass, take, unlock,
  System, update, init, Step, step, Reach, later, Turn, lock, stay, Turns,
}

pub record Exclusive (s : System) : Type 0 where
  pub one : (i j : ℕ) → s.pc i ≡ holding → s.pc j ≡ holding → i ≡ j
  pub held : (i : ℕ) → s.pc i ≡ holding → s.mutex.locked ≡ true
  pub idle : (i : ℕ) → s.pc i ≢ checked

init-Exclusive : Exclusive init
init-Exclusive = record { one = λ i j p q. cc; held = λ i p. cc; idle = λ i p. cc }

pass_inv :
    {m m' : Mutex} {p : Pc} → Move m p m' checked → (p ≡ outside) × (m' ≡ m) × (m.locked ≡ false)
pass_inv (pass u) = (refl, refl, u)

take_inv : {m m' : Mutex} → Move m checked m' holding → m' ≡ record m { locked = true }
take_inv take = refl

pub stay_inv :
    {m m' : Mutex} {p : Pc}
    → Move m p m' outside
    → ((p ≡ outside) × (m' ≡ m)) ⊎ ((p ≡ holding) × (m' ≡ mutex_unlock m))
stay_inv (spin u) = inl (refl, refl)
stay_inv unlock = inr (refl, refl)

module _ {s : System} (e : Exclusive s) (i : ℕ) where
  lock-Exclusive :
      (m : Mutex)
      → m.locked ≡ true
      → s.mutex.locked ≡ false
      → Exclusive (record { mutex = m; pc = update s.pc i holding })
  lock-Exclusive m on off = record {
    one = λ a b p q. ground (arith, e.held a, e.held b);
    held = λ a p. on;
    idle = λ a p. ground (arith, e.idle a);
  }

  stay-Exclusive :
      (m : Mutex)
      → ((s.pc i ≡ outside) × (m ≡ s.mutex)) ⊎ ((s.pc i ≡ holding) × (m ≡ mutex_unlock s.mutex))
      → Exclusive (record { mutex = m; pc = update s.pc i outside })
  unfolding mutex_unlock
  stay-Exclusive m how = record {
    one = λ a b p q. ground (arith, e.one a b);
    held = λ a p. ground (arith, e.held a, e.one i a);
    idle = λ a p. ground (arith, e.idle a);
  }

Turn-Exclusive : {s t : System} → Turn s t → Exclusive s → Exclusive t
Turn-Exclusive (lock i a b) e =
    lock-Exclusive e i _ (ap (λ m. m.locked) (take_inv b)) (pass_inv a).2
Turn-Exclusive (stay i a) e = stay-Exclusive e i _ (stay_inv a)

pub Turns-Exclusive : {s : System} → Turns s → Exclusive s
unfolding mutex_init
Turns-Exclusive Turns.start = init-Exclusive
Turns-Exclusive (Turns.later r t) = Turn-Exclusive t (Turns-Exclusive r)

-- If no task is interrupted inside mutex_lock(), no two tasks are past it at once, in any state that
-- is reached from the initialised mutex.
pub mutual_exclusion :
    {s : System} → Turns s → (i j : ℕ) → i ≢ j → ¬ ((s.pc i ≡ holding) × (s.pc j ≡ holding))
mutual_exclusion r i j ne (p, q) = ne ((Turns-Exclusive r).one i j p q)

Step-at :
    (s : System) (i : ℕ) {p q : Pc} {m : Mutex}
    → s.pc i ≡ p
    → Move s.mutex p m q
    → Step s (record { mutex = m; pc = update s.pc i q })
Step-at s i {p} {q} {m} e move = step i (subst (λ x. Move s.mutex x m q) (sym e) move)

-- Any two tasks can be past mutex_lock() of the same mutex at once: both read `locked` before either
-- writes it.
pub mutex_race :
    (i j : ℕ) → i ≢ j → (s : System) × Reach s × (s.pc i ≡ holding) × (s.pc j ≡ holding)
unfolding mutex_init
mutex_race i j ne = (
  s4,
  later
      (later
        (later (later Reach.start (Step-at init i refl (pass refl)))
          (Step-at s1 j (ground arith) (pass refl)))
        (Step-at s2 i (ground arith) take))
      (Step-at s3 j (ground arith) take),
  ground arith,
  ground arith,
)
  where
    s1 : System
    s1 = record init { pc = update init.pc i checked }

    s2 : System
    s2 = record s1 { pc = update s1.pc j checked }

    s3 : System
    s3 = record { mutex = record mutex_init { locked = true }; pc = update s2.pc i holding }

    s4 : System
    s4 = record s3 { pc = update s3.pc j holding }
