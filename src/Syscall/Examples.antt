-- ===== src/Syscall/Examples.antt =====
-- A scheduler to which one process was added, and a queue with two processes in it.
use os_assignment.Base.{◌≡◌, refl, [], ◌∷◌, some, true, false, replicate, set}
use os_assignment.Process.{Store}
use os_assignment.Queue.{Queue, no_procs, enqueue}
use os_assignment.Sched.{Sched, add_mlq_proc, enqueue_level, get_mlq_proc}
use os_assignment.Syscall.{find_from, find_proc, find_caller}
use os_assignment.Syscall.Laws.{
  IsFound, find_proc-IsFound, at_start, added, taken, find_caller-unlisted,
}

-- The process at address p has pid p and priority 3.
abbrev procs : Store
procs p = record { pid = p; priority = 0; code = []; regs = []; pc = 0; prio = 3; bp = 0; mm = 0 }

abbrev start : Sched
start = record {
  mlq_ready_queue = replicate 140 no_procs;
  slot = replicate 140 1;
  cur_prio = 0;
  used_slot = 0;
  ready_queue = no_procs;
  run_queue = no_procs;
  running_list = no_procs;
  krnl_linked = false;
}

abbrev after_add : Sched
after_add = record start {
  mlq_ready_queue = set start.mlq_ready_queue 3 (enqueue no_procs 5);
  krnl_linked = true;
}

five_added : add_mlq_proc procs 5 start ≡ some after_add
unfolding add_mlq_proc enqueue_level
five_added = refl

find_caller-unlisted_example : find_caller procs (get_mlq_proc procs after_add).1 5 ≡ 0
find_caller-unlisted_example =
    find_caller-unlisted procs start (get_mlq_proc procs after_add).1 5
      (taken after_add (added start 5 at_start five_added) refl) (refl, refl)

abbrev two_running : Queue
two_running = record { proc = 9 ∷ 5 ∷ replicate 48 0; size = 2 }

five_found : find_proc procs two_running 5 ≡ 5
unfolding find_proc find_from
five_found = refl

find_proc_test : IsFound procs two_running.proc 2 0 5 (find_proc procs two_running 5)
find_proc_test = find_proc-IsFound procs two_running 5
