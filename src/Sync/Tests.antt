-- ===== src/Sync/Tests.antt =====
-- The theorems of kernel/sched/sync.c for tasks 1 and 2.
use ulmix_i.Base.{◌≡◌, refl, arith, true, []}
use ulmix_i.Sync.{mutex_init, outside, holding, pass, take, System, update, Reach, lock, Turns}
use ulmix_i.Sync.Exclusion.{mutual_exclusion, mutex_race}
use ulmix_i.Sync.Progress.{From, mutex_progress}

abbrev locked_by_one : System
locked_by_one = record {
  mutex = record { locked = true; waiting = [] };
  pc = update (λ _. outside) 1 holding;
}

one_turn : Turns locked_by_one
unfolding mutex_init
one_turn = Turns.later Turns.start (lock 1 (pass refl) take)

mutual_exclusion_example : ¬ ((locked_by_one.pc 1 ≡ holding) × (locked_by_one.pc 2 ≡ holding))
mutual_exclusion_example = mutual_exclusion one_turn 1 2 (omega arith)

mutex_race_example : (s : System) × Reach s × (s.pc 1 ≡ holding) × (s.pc 2 ≡ holding)
mutex_race_example = mutex_race 1 2 (omega arith)

mutex_progress_example : (t : System) × From locked_by_one t × (t.pc 2 ≡ holding)
mutex_progress_example = mutex_progress one_turn 2
