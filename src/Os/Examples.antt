-- ===== src/Os/Examples.antt =====
-- CPUs with processes of two CALC instructions, and with none.
use os_assignment.Base.{
  replicate, ℕ, ◌-◌, ◌≡◌, ◌⊎◌, refl, ap, arith, List, [], ◌∷◌, none, some, true, false,
}
use os_assignment.Process.{Inst, calc}
use os_assignment.Queue.{empty}
use os_assignment.Sched.{Sched}
use os_assignment.Sched.Busy.{
  busy, busy-IsConsistent, others_empty, quiet, quiet-level, quiet-IsConsistent,
}
use os_assignment.Paging.Directory.Bare.{bare}
use os_assignment.Memphy.{Memphy}
use os_assignment.Machine.{Machine}
use os_assignment.Cpu.Laws.{IsAdvanced, Executed}
use os_assignment.Os.{next_slot, stopped, cpu_turn, cpu_turns}
use os_assignment.Os.Slice.{running, cpu_turns-slice}
use os_assignment.Os.Idle.{NoneWaits, idle, cpu_turns-idle, cpu_turn-abandons}

abbrev two_calcs : List Inst
two_calcs =
    (record { opcode = calc; arg_0 = 0; arg_1 = 0; arg_2 = 0; arg_3 = 0 })
    ∷ (record { opcode = calc; arg_0 = 0; arg_1 = 0; arg_2 = 0; arg_3 = 0 })
    ∷ []

abbrev no_memory : Memphy
no_memory = record { storage = []; maxsz = 0; rdmflg = 1; cursor = 0; free_fp_list = [] }

-- Every process has executed `pc` instructions.
abbrev machine : ℕ → Sched → Machine
machine pc sched = record {
  procs = λ p. record {
    pid = p;
    priority = p;
    code = two_calcs;
    regs = replicate 10 0;
    pc = pc;
    prio = 0;
    bp = 0;
    mm = 3;
  };
  sched = sched;
  mms = λ a. record {
    pgd = 7;
    p4d = 0;
    pud = 0;
    pmd = 0;
    pt = 0;
    mmap = [];
    symrgtbl = [];
    fifo_pgn = [];
  };
  heap = bare;
  krnl = 4096;
  krnl_mm = 0;
  mram = no_memory;
  mswp = no_memory;
  active_mswp_id = 0;
  stale = 0;
}

cpu_turns-slice_example :
    (cpu_turns 2 6 false (running 9 3) (machine 0 quiet) ≡ none)
    ⊎ ((s' : Machine) × (cpu_turns 2 6 false (running 9 3) (machine 0 quiet)
          ≡ some (next_slot (running 9 (3 - 2)), s'))
        × Executed 9 2 (machine 0 quiet) s'
        × IsAdvanced (machine 0 quiet) 9 2 s')
cpu_turns-slice_example =
    cpu_turns-slice 2 6 false 9 3 (machine 0 quiet) (omega arith) (omega arith) (omega arith)

none_waits : NoneWaits quiet
unfolding empty
none_waits i lt = ap empty (quiet-level i)

cpu_turns-idle_example :
    (used : ℕ) × (cpu_turns 1000 6 true (idle 0) (machine 0 quiet)
      ≡ some (next_slot (idle 0), machine 0 (record quiet { used_slot = used })))
cpu_turns-idle_example =
    cpu_turns-idle 1000 6 0 true (machine 0 quiet) quiet-IsConsistent none_waits

cpu_turn-abandons_example :
    cpu_turn 6 true (running 9 3) (machine 2 (busy 140)) ≡ some (stopped, machine 2 (busy 0))
unfolding empty
cpu_turn-abandons_example =
    cpu_turn-abandons 6 3 9 (machine 2 (busy 140)) refl (busy-IsConsistent 140 (omega arith)) refl
      others_empty refl
