-- ===== src/Sched/Busy.antt =====
-- Schedulers to try the operations on: two processes of priority 0 in an otherwise empty one, and
-- an empty one.
use os_assignment.Base.{
  ℕ, zero, suc, ◌-◌, ◌%◌, ◌≤◌, ◌<◌, ◌≡◌, ◌≢◌, refl, sym, ap, subst, arith, List, [], ◌∷◌, true,
  replicate, get_or, get_or-replicate,
}
use os_assignment.Process.{Store}
use os_assignment.Queue.{Queue, no_procs, empty}
use os_assignment.Queue.Array.{IsValid}
use os_assignment.Queue.Laws.{no_procs-IsValid}
use os_assignment.Sched.{Sched, max_prio, level}
use os_assignment.Sched.Invariant.{IsConsistent}

-- The process at address p has priority p and level p % 140.
abbrev pub procs : Store
procs p = record {
  pid = p;
  priority = p;
  code = [];
  regs = [];
  pc = 0;
  prio = p % 140;
  bp = 0;
  mm = 0;
}

abbrev pub countdown : ℕ → List ℕ
countdown zero = []
countdown (suc n) = suc n ∷ countdown n

pub get_or-countdown : (n i : ℕ) → get_or (countdown n) i 0 ≡ n - i
get_or-countdown zero i = omega arith
get_or-countdown (suc n) zero = omega arith
get_or-countdown (suc n) (suc i) = omega (arith, get_or-countdown n i)

abbrev pub two_waiting : Queue
two_waiting = record { proc = 280 ∷ 140 ∷ replicate 48 0; size = 2 }

pub two_waiting-IsValid : IsValid two_waiting
two_waiting-IsValid = record { slots = refl; bounded = omega arith }

-- `used` slots of priority 0 are used.
abbrev pub busy : ℕ → Sched
busy used = record {
  mlq_ready_queue = two_waiting ∷ replicate 139 no_procs;
  slot = countdown 140;
  cur_prio = 0;
  used_slot = used;
  ready_queue = no_procs;
  run_queue = no_procs;
  running_list = no_procs;
  krnl_linked = true;
}

pub level-busy : (used i : ℕ) → level (busy used) (suc i) ≡ no_procs
level-busy used i = get_or-replicate 139 no_procs i

pub busy-queues : (used i : ℕ) → IsValid (level (busy used) i)
busy-queues used zero = two_waiting-IsValid
busy-queues used (suc i) = subst IsValid (sym (level-busy used i)) no_procs-IsValid

pub busy-IsConsistent : (used : ℕ) → used ≤ 140 → IsConsistent (busy used)
busy-IsConsistent used h = record {
  levels = refl;
  queues = busy-queues used;
  slots = λ i l. get_or-countdown 140 i;
  current = omega arith;
  within = omega arith;
  ready = no_procs-IsValid;
  waiting = no_procs-IsValid;
  running = no_procs-IsValid;
}

pub others_empty : (j : ℕ) → j < max_prio → j ≢ 0 → empty (level (busy 140) j) ≡ true
unfolding empty
others_empty zero h ne = absurd (ne refl)
others_empty (suc j) h ne = ap empty (level-busy 140 j)

-- No process waits.
abbrev pub quiet : Sched
quiet = record (busy 0) { mlq_ready_queue = replicate 140 no_procs }

pub quiet-level : (i : ℕ) → level quiet i ≡ no_procs
quiet-level i = get_or-replicate 140 no_procs i

pub quiet-IsConsistent : IsConsistent quiet
quiet-IsConsistent = record {
  levels = refl;
  queues = λ i. subst IsValid (sym (quiet-level i)) no_procs-IsValid;
  slots = λ i l. get_or-countdown 140 i;
  current = omega arith;
  within = omega arith;
  ready = no_procs-IsValid;
  waiting = no_procs-IsValid;
  running = no_procs-IsValid;
}
