-- ===== src/Syscall.antt =====
-- How a system call on memory finds the process that it is for: the search of `__sys_memmap` in
-- src/sys_mem.c through the queues of the kernel structure.
pub mod Laws
pub mod Memmap
pub mod Calls
pub mod Keeps
mod Examples
use os_assignment.Base.{ℕ, zero, suc, ◌+◌, List, Bool, not, ◌&&◌, ◌==◌, get_or, if◌then◌else◌}
use os_assignment.Process.{Store}
use os_assignment.Queue.{Queue}
use os_assignment.Sched.{Sched}

-- p && p->pid == pid.
abbrev pub is_process : Store → ℕ → ℕ → Bool
is_process procs pid p = not (p == 0) && (procs p).pid == pid

-- The loop over a queue from index `i`, with the rounds that are left; 0 is NULL.
unfoldable pub find_from : Store → List ℕ → ℕ → ℕ → ℕ → ℕ
find_from procs arr zero i pid = 0
find_from procs arr (suc left) i pid =
    let rest = find_from procs arr left (i + 1) pid in
    let p = get_or arr i 0 in if is_process procs pid p then p else rest

unfoldable pub find_proc : Store → Queue → ℕ → ℕ
unfolding find_from
find_proc procs q pid = find_from procs q.proc q.size 0 pid

-- The caller, or NULL, for which `__sys_memmap` returns -1. Both pointers of the kernel structure
-- are NULL until a process was added.
unfoldable pub find_caller : Store → Sched → ℕ → ℕ
unfolding find_proc
find_caller procs s pid =
    let waiting = find_proc procs s.ready_queue pid in
    let running = find_proc procs s.running_list pid in
    if s.krnl_linked then (if waiting == 0 then running else waiting) else 0
