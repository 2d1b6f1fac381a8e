-- ===== src/Os/Idle.antt =====
-- A CPU for which the scheduler has no process: when it stops, and when it does not.
use os_assignment.Base.{
  ℕ, zero, suc, ◌+◌, ◌-◌, ◌%◌, ◌<◌, ◌≡◌, ◌≢◌, inl, inr, refl, ap, ◌∙◌, arith, Option, none, some,
  ◌==◌, Bool, true, false,
}
use os_assignment.Queue.{empty}
use os_assignment.Sched.{Sched, max_prio, level, get_proc}
use os_assignment.Sched.Invariant.{IsConsistent}
use os_assignment.Sched.Laws.{reset-IsConsistent, get_mlq_proc_lem, get_mlq_proc-exhausted}
use os_assignment.Machine.{Machine, bind-run}
use os_assignment.Cpu.Laws.{pc_of, size_of}
use os_assignment.Os.{
  CpuState, next_slot, stopped, fetch, recheck, idle_turn, finished_turn, cpu_turn, cpu_turns,
}
use os_assignment.Os.Slice.{running, cpu_turns-some}

abbrev pub idle : ℕ → CpuState
idle left = record { proc = none; time_left = left }

-- No process waits at any priority.
abbrev pub NoneWaits : Sched → Type 0
NoneWaits sched = (i : ℕ) → i < max_prio → empty (level sched i) ≡ true

get_proc-none :
    (s : Machine)
    → IsConsistent s.sched
    → NoneWaits s.sched
    → get_proc s.procs s.sched ≡ (none, record s.sched { used_slot = 0 })
get_proc-none s v empties = elim (get_mlq_proc_lem s.procs s.sched v) [
  | inl (e, all) ↦ e
  | inr (d, lt, before, free, p, taken, served) ↦
      absurd (free (inl (empties ((s.sched.cur_prio + d) % max_prio) (omega arith))))
]

fetch-run :
    (s : Machine) (found : Option ℕ) (sched : Sched)
    → get_proc s.procs s.sched ≡ (found, sched)
    → fetch s ≡ some (found, record s { sched = sched })
unfolding fetch
fetch-run s found sched e = ap (λ (r : Option ℕ × Sched). some (r.0, record s { sched = r.1 })) e

idle-turn :
    (time_slot left : ℕ) (finished : Bool) (s : Machine)
    → IsConsistent s.sched
    → NoneWaits s.sched
    → cpu_turn time_slot finished (idle left) s
      ≡ some (next_slot (idle left), record s { sched = record s.sched { used_slot = 0 } })
unfolding cpu_turn idle_turn
idle-turn time_slot left finished s v empties =
    bind-run fetch _ s none _ (fetch-run s none _ (get_proc-none s v empties))

-- While no process waits, in a consistent scheduler, a CPU without a process never stops, whether
-- the loader is done or not: after any number of turns it is where it was, and only `used_slot` of
-- the scheduler may have changed.
pub cpu_turns-idle :
    (n time_slot left : ℕ) (finished : Bool) (s : Machine)
    → IsConsistent s.sched
    → NoneWaits s.sched
    → (used : ℕ) × (cpu_turns n time_slot finished (idle left) s
        ≡ some (next_slot (idle left), record s { sched = record s.sched { used_slot = used } }))
unfolding cpu_turns
cpu_turns-idle zero time_slot left finished s v empties = (s.sched.used_slot, refl)
cpu_turns-idle (suc n) time_slot left finished s v empties =
    let s1 = record s { sched = record s.sched { used_slot = 0 } } in
    let (used, e) =
      cpu_turns-idle n time_slot left finished s1 (reset-IsConsistent s.sched v) empties in
    (
      used,
      cpu_turns-some n time_slot finished (idle left) (idle left) s s1
            (idle-turn time_slot left finished s v empties)
          ∙ e,
    )

finished-turn :
    (time_slot left proc : ℕ) (finished : Bool) (s : Machine)
    → pc_of s proc ≡ size_of s proc
    → cpu_turn time_slot finished (running proc left) s ≡ finished_turn time_slot finished s
unfolding cpu_turn
finished-turn time_slot left proc finished s over =
    let same : (pc_of s proc == size_of s proc) ≡ true = ground arith in rw (cpu_turn, same) refl

-- In a consistent scheduler in which processes wait at the current priority only and its slots are
-- used up, a CPU whose process has finished stops when the loader is done, although processes wait.
pub cpu_turn-abandons :
    (time_slot left proc : ℕ) (s : Machine)
    → pc_of s proc ≡ size_of s proc
    → IsConsistent s.sched
    → empty (level s.sched s.sched.cur_prio) ≡ false
    → ((j : ℕ) → j < max_prio → j ≢ s.sched.cur_prio → empty (level s.sched j) ≡ true)
    → s.sched.used_slot ≡ max_prio - s.sched.cur_prio
    → cpu_turn time_slot true (running proc left) s
      ≡ some (stopped, record s { sched = record s.sched { used_slot = 0 } })
unfolding finished_turn recheck
cpu_turn-abandons time_slot left proc s over v full alone used =
    finished-turn time_slot left proc true s over
    ∙ bind-run fetch _ s none _
        (fetch-run s none _ (get_mlq_proc-exhausted s.procs s.sched v full alone used))
