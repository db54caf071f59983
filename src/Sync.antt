-- ===== src/Sync.antt =====
-- kernel/sched/sync.c with kernel/include/sync.h: the mutex, and tasks that use it. The calls of the
-- scheduler and of cli() and sti() are commented out in the source, so a task may be interrupted
-- between the test of `locked` and the write to it; here each access is a move of its own.
pub mod Exclusion
pub mod Progress
mod Tests
use ulmix_i.Base.{ℕ, ◌≡◌, Bool, true, false, List, [], ◌∷◌, ◌==◌, if◌then◌else◌}

-- struct mutex_struct; `waiting` is the chain of `next_waiting` pointers, by task.
pub record Mutex : Type 0 where
  pub locked : Bool
  pub waiting : List ℕ

pub mutex_init : Mutex
mutex_init = record { locked = false; waiting = [] }

abbrev pub next_waiting : List ℕ → List ℕ
next_waiting [] = []
next_waiting (t ∷ ts) = ts

pub mutex_unlock : Mutex → Mutex
mutex_unlock m = record { locked = false; waiting = next_waiting m.waiting }

-- Where a task stands: outside, in mutex_lock() behind the test, or past mutex_lock().
pub data Pc : Type 0 where
  outside checked holding : Pc

-- A move of one task, with the mutex before and after.
pub data Move (m : Mutex) : Pc → Mutex → Pc → Type 0 where
  spin : m.locked ≡ true → Move m outside m outside
  pass : m.locked ≡ false → Move m outside m checked
  take : Move m checked (record m { locked = true }) holding
  unlock : Move m holding (mutex_unlock m) outside

pub record System : Type 0 where
  pub mutex : Mutex
  pub pc : ℕ → Pc

abbrev pub update : (ℕ → Pc) → ℕ → Pc → ℕ → Pc
update f i p j = if i == j then p else f j

abbrev pub init : System
init = record { mutex = mutex_init; pc = λ _. outside }

-- Tasks are interleaved in any order.
pub data Step (s : System) : System → Type 0 where
  step :
      (i : ℕ) {m : Mutex} {p : Pc}
      → Move s.mutex (s.pc i) m p
      → Step s (record { mutex = m; pc = update s.pc i p })

pub data Reach : System → Type 0 where
  start : Reach init
  later : {s t : System} → Reach s → Step s t → Reach t

-- No task is interrupted inside mutex_lock(): the test and the write are one turn.
pub data Turn (s : System) : System → Type 0 where
  lock :
      (i : ℕ) {m m' : Mutex}
      → Move s.mutex (s.pc i) m checked
      → Move m checked m' holding
      → Turn s (record { mutex = m'; pc = update s.pc i holding })
  stay :
      (i : ℕ) {m : Mutex}
      → Move s.mutex (s.pc i) m outside
      → Turn s (record { mutex = m; pc = update s.pc i outside })

pub data Turns : System → Type 0 where
  start : Turns init
  later : {s t : System} → Turns s → Turn s t → Turns t
