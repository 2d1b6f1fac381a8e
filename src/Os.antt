-- ===== src/Os.antt =====
-- The loop of a CPU: `cpu_routine` of src/os.c. One turn of the loop ends at a call of `next_slot`,
-- or with the thread. Printing, the number of the CPU and `free` are left out.
pub mod Slice
pub mod Idle
pub mod Jobs
mod Examples
use os_assignment.Base.{
  ℕ, zero, suc, ◌+◌, ◌-◌, ◌%◌, ◌^◌, List, Option, none, some, Bool, true, false, ◌==◌, length,
  if◌then◌else◌,
}
use os_assignment.Process.{Pcb, Inst}
use os_assignment.Sched.{get_proc, put_proc}
use os_assignment.Machine.{Machine, Kernel, ◌>>=◌, ◌>>◌, pure, gets}
use os_assignment.Cpu.{run}

-- The local variables `proc` and `time_left`; an `int` is its bit pattern.
pub record CpuState : Type 0 where
  pub proc : Option ℕ
  pub time_left : ℕ

pub data Turn : Type 0 where
  next_slot : CpuState → Turn
  stopped : Turn

unfoldable pub fetch : Kernel (Option ℕ)
fetch s = let taken = get_proc s.procs s.sched in some (taken.0, record s { sched = taken.1 })

unfoldable pub put_back : ℕ → Kernel (Unit {0})
put_back proc s = elim (put_proc s.procs proc s.sched) [
  | none ↦ none
  | some sched ↦ some (tt, record s { sched = sched })
]

abbrev pub is_finished : Pcb → Bool
is_finished proc = proc.pc == length proc.code

-- The end of the loop's body: a process is run.
unfoldable pub run_turn : ℕ → ℕ → ℕ → Kernel Turn
run_turn time_slot proc time_left = do
  stat ← run proc
  let left : ℕ = if time_left == 0 then time_slot else time_left
  pure (next_slot (record { proc = some proc; time_left = (left + 2 ^ 32 - 1) % 2 ^ 32 }))

-- The process status is checked again after loading a new process; `finished` is the static
-- variable `done`.
unfoldable pub recheck : ℕ → Bool → Option ℕ → ℕ → Kernel Turn
recheck time_slot finished none time_left =
    if finished
    then pure stopped
    else pure (next_slot (record { proc = none; time_left = time_left }))
recheck time_slot finished (some proc) time_left = run_turn time_slot proc time_left

-- No process is running: one is loaded from the ready queue.
unfoldable pub idle_turn : ℕ → Bool → ℕ → Kernel Turn
idle_turn time_slot finished time_left = do
  loaded ← fetch
  elim loaded [
    | none ↦ pure (next_slot (record { proc = none; time_left = time_left }))
    | some proc ↦ recheck time_slot finished (some proc) time_left
  ]

-- The process has finished its job.
unfoldable pub finished_turn : ℕ → Bool → Kernel Turn
finished_turn time_slot finished = do loaded ← fetch; recheck time_slot finished loaded 0

-- The process has used up its time slot.
unfoldable pub preempt_turn : ℕ → Bool → ℕ → Kernel Turn
preempt_turn time_slot finished proc = do
  put_back proc
  loaded ← fetch
  recheck time_slot finished loaded 0

unfoldable pub cpu_turn : ℕ → Bool → CpuState → Kernel Turn
cpu_turn time_slot finished cpu s = elim cpu.proc [
  | none ↦ idle_turn time_slot finished cpu.time_left s
  | some proc ↦
      if is_finished (s.procs proc)
      then finished_turn time_slot finished s
      else (if cpu.time_left == 0
          then preempt_turn time_slot finished proc s
          else recheck time_slot finished (some proc) cpu.time_left s)
]

-- `n` turns of one CPU, as long as it does not stop.
unfoldable pub cpu_turns : ℕ → ℕ → Bool → CpuState → Kernel Turn
cpu_turns zero time_slot finished cpu s = some (next_slot cpu, s)
cpu_turns (suc n) time_slot finished cpu s = elim (cpu_turn time_slot finished cpu s) [
  | none ↦ none
  | some (stopped, s') ↦ some (stopped, s')
  | some (next_slot cpu', s') ↦ cpu_turns n time_slot finished cpu' s'
]
