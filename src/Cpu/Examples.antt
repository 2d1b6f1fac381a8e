-- ===== src/Cpu/Examples.antt =====
-- A process of two instructions, CALC and READ of a symbol that it has not allocated.
use os_assignment.Base.{◌-◌, ◌≡◌, refl, min, List, [], ◌∷◌, length, some, replicate, false}
use os_assignment.Process.{Inst, Store, calc, read}
use os_assignment.Queue.{no_procs}
use os_assignment.Paging.Directory.Bare.{bare}
use os_assignment.Memphy.{Memphy}
use os_assignment.Region.{get_symrg_byid}
use os_assignment.Machine.{Machine}
use os_assignment.Libmem.Regions.{libread, read_region}
use os_assignment.Cpu.{run, runs, execute}
use os_assignment.Cpu.Laws.{RunsCases, runs-IsAdvanced}

abbrev program : List Inst
program =
    (record { opcode = calc; arg_0 = 0; arg_1 = 0; arg_2 = 0; arg_3 = 0 })
    ∷ (record { opcode = read; arg_0 = 2; arg_1 = 5; arg_2 = 0; arg_3 = 0 })
    ∷ []

abbrev one_program : Store
one_program p = record {
  pid = 1;
  priority = 0;
  code = program;
  regs = replicate 10 0;
  pc = 0;
  prio = 0;
  bp = 0;
  mm = 3;
}

abbrev no_memory : Memphy
no_memory = record { storage = []; maxsz = 0; rdmflg = 1; cursor = 0; free_fp_list = [] }

abbrev start : Machine
start = record {
  procs = one_program;
  sched = record {
    mlq_ready_queue = replicate 140 no_procs;
    slot = replicate 140 1;
    cur_prio = 0;
    used_slot = 0;
    ready_queue = no_procs;
    run_queue = no_procs;
    running_list = no_procs;
    krnl_linked = false;
  };
  mms = λ a. record {
    pgd = 7;
    p4d = 0;
    pud = 0;
    pmd = 0;
    pt = 0;
    mmap = [];
    symrgtbl = replicate 30 (record { rg_start = 0; rg_end = 0 });
    fifo_pgn = [];
  };
  heap = bare;
  krnl = 4096;
  krnl_mm = 0;
  mram = no_memory;
  mswp = no_memory;
  active_mswp_id = 0;
  stale = 0;
}

abbrev after_two : (s : Machine) × (runs 2 9 start ≡ some (tt, s))
unfolding runs run execute libread read_region get_symrg_byid
after_two = (_, refl)

two_executed : (after_two.0.procs 9).pc ≡ 2
unfolding runs run execute libread read_region get_symrg_byid
two_executed = refl

runs_example : RunsCases start 9 5 (min 5 (length program - 0))
runs_example = runs-IsAdvanced 5 9 start
