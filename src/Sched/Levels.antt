-- ===== src/Sched/Levels.antt =====
-- Reading the array of ready queues after a write.
use os_assignment.Base.{ℕ, ◌<◌, ◌≡◌, ◌≢◌, length, set, get_or-set_self, get_or-set_ne}
use os_assignment.Queue.{Queue, no_procs}
use os_assignment.Sched.{Sched, level}

module _ (s : Sched) (q : Queue) (i : ℕ) where
  pub level-set_self :
      i < length s.mlq_ready_queue
      → level (record s { mlq_ready_queue = set s.mlq_ready_queue i q }) i ≡ q
  level-set_self h = get_or-set_self s.mlq_ready_queue i q no_procs h

  pub level-set_ne :
      (j : ℕ)
      → i ≢ j
      → level (record s { mlq_ready_queue = set s.mlq_ready_queue i q }) j ≡ level s j
  level-set_ne j h = get_or-set_ne s.mlq_ready_queue i j q no_procs h
