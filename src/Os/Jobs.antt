-- ===== src/Os/Jobs.antt =====
-- The loop of the loader: `ld_routine` of src/os.c. One turn ends at a call of `next_slot`, or with
-- the thread. What `load` makes of a file is given: a block at `proc`.
use os_assignment.Base.{
  ℕ, List, [], ◌∷◌, none, some, Bool, true, false, ◌==◌, ltb, replicate, if◌then◌else◌,
}
use os_assignment.Process.{Pcb}
use os_assignment.Sched.{add_proc}
use os_assignment.Region.{Rg}
use os_assignment.Mapping.{init_mm}
use os_assignment.Machine.{Machine, Kernel, ◌>>◌, pure, put_mm}

-- An entry of `ld_processes`, with the address of the process, the address that `calloc` returns
-- for its struct mm_struct, and what `init_mm` finds in the memory from `malloc`.
pub record Job : Type 0 where
  pub proc : ℕ
  pub prio : ℕ
  pub start_time : ℕ
  pub mm : ℕ
  pub freerg_list : List Rg

abbrev pub put_proc_block : Machine → ℕ → Pcb → Machine
put_proc_block s a proc = record s { procs = λ p. if p == a then proc else s.procs p }

-- proc->prio = ld_processes.prio[i], converted to 32 bits by the caller.
unfoldable pub set_prio : Job → Kernel (Unit {0})
set_prio job s =
    some (tt, put_proc_block s job.proc (record (s.procs job.proc) { prio = job.prio }))

-- `calloc` and `init_mm`: the symbol table is zero.
unfoldable pub give_mm : Job → Kernel (Unit {0})
give_mm job s =
    elim (init_mm s.heap job.freerg_list (replicate 30 (record { rg_start = 0; rg_end = 0 }))) [
      | none ↦ none
      | some (mm, heap) ↦
          let s' = put_mm (record s { heap = heap }) job.mm mm in
          some (tt, put_proc_block s' job.proc (record (s'.procs job.proc) { mm = job.mm }))
    ]

unfoldable pub add : ℕ → Kernel (Unit {0})
add proc s = elim (add_proc s.procs proc s.sched) [
  | none ↦ none
  | some sched ↦ some (tt, record s { sched = sched })
]

-- The jobs from the current one on, and whether `load` was called for it.
pub record LoaderState : Type 0 where
  pub jobs : List Job
  pub loaded : Bool

pub data LoaderTurn : Type 0 where
  next_slot : LoaderState → LoaderTurn
  all_loaded : LoaderTurn

-- The end of the loop's body.
unfoldable pub start_job : Job → List Job → Kernel LoaderTurn
start_job job rest = do
  give_mm job
  add job.proc
  pure (next_slot (record { jobs = rest; loaded = false }))

-- The job waits for its time, or is started.
unfoldable pub job_turn : ℕ → Job → List Job → Kernel LoaderTurn
job_turn current_time job rest =
    if ltb current_time job.start_time
    then pure (next_slot (record { jobs = job ∷ rest; loaded = true }))
    else start_job job rest

-- With no job left, `done` is set.
unfoldable pub ld_turn : ℕ → LoaderState → Kernel LoaderTurn
ld_turn current_time loader = elim loader.jobs [
  | [] ↦ pure all_loaded
  | job ∷ rest ↦
      if loader.loaded
      then job_turn current_time job rest
      else (do set_prio job; job_turn current_time job rest)
]
