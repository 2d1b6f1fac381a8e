-- ===== src/Syscall/Keeps.antt =====
-- The system calls leave the process control blocks and the scheduler alone.
use os_assignment.Base.{ℕ, ◌%◌, refl, Option, none, some, ◌==◌}
use os_assignment.Memphy.{read, write}
use os_assignment.Memphy.Copy.{swap_cp_page}
use os_assignment.Region.{Code, success, int32}
use os_assignment.Mapping.{vmap_pgd_memset}
use os_assignment.Mapping.Limit.{inc_vma_limit}
use os_assignment.Syscall.{find_caller}
use os_assignment.Syscall.Memmap.{
  Regs, int_or_zero, short_addr, map_op, inc_op, swp_op, caller_krnl, io_read, io_write, memop,
  sys_memmap, syscall, libsyscall,
}
use os_assignment.Machine.{Machine, space_of, pure}
use os_assignment.Machine.Keeps.{Keeps, bind-Keeps, if-Keeps, option-Keeps, access-Keeps}

map_op-Keeps : (caller : ℕ) (regs : Regs) (s : Machine) → Keeps s (map_op caller regs s)
unfolding map_op
map_op-Keeps caller regs s =
    option-Keeps s (vmap_pgd_memset (space_of s caller) (short_addr regs.a2) (int_or_zero regs.a3))
      none _ tt (λ space. (refl, refl))

inc_op-Keeps : (caller : ℕ) (regs : Regs) (s : Machine) → Keeps s (inc_op caller regs s)
unfolding inc_op
inc_op-Keeps caller regs s = if-Keeps s (s.krnl_mm == 0) none _ tt (
    option-Keeps s
      (inc_vma_limit (s.mms s.krnl_mm) (space_of s caller) s.mram (int_or_zero regs.a2)
        (short_addr regs.a3))
      none _ tt (λ g. (refl, refl)))

swp_op-Keeps : (regs : Regs) (s : Machine) → Keeps s (swp_op regs s)
unfolding swp_op
swp_op-Keeps regs s =
    access-Keeps s (swap_cp_page s.stale s.mram (short_addr regs.a2) s.mswp (short_addr regs.a3)) _
      _ none (λ p. (refl, refl)) (refl, refl) tt

io_read-Keeps : (caller : ℕ) (regs : Regs) (s : Machine) → Keeps s (io_read caller regs s)
unfolding io_read
io_read-Keeps caller regs s =
    if-Keeps s (caller_krnl s caller == s.krnl) _ none
      (access-Keeps s (read (some s.mram) (short_addr regs.a2)) _ _ none (λ p. (refl, refl))
        (refl, refl) tt)
      tt

io_write-Keeps : (caller : ℕ) (regs : Regs) (s : Machine) → Keeps s (io_write caller regs s)
unfolding io_write
io_write-Keeps caller regs s =
    if-Keeps s (caller_krnl s caller == s.krnl) _ none
      (access-Keeps s (write (some s.mram) (short_addr regs.a2) (regs.a3 % 256)) _ _ none
        (λ p. (refl, refl)) (refl, refl) tt)
      tt

memop-Keeps : (caller : ℕ) (regs : Regs) (s : Machine) → Keeps s (memop caller regs s)
unfolding memop
memop-Keeps caller regs s =
    let op = int32 regs.a1 in
    if-Keeps s (op == 1) _ _ (map_op-Keeps caller regs s) (
      if-Keeps s (op == 2) _ _ (inc_op-Keeps caller regs s) (
        if-Keeps s (op == 3) _ _ (swp_op-Keeps regs s) (
          if-Keeps s (op == 4) _ _ (io_read-Keeps caller regs s)
            (if-Keeps s (op == 5) _ _ (io_write-Keeps caller regs s) (refl, refl)))))

sys_memmap-Keeps : (pid : ℕ) (regs : Regs) (s : Machine) → Keeps s (sys_memmap pid regs s)
unfolding sys_memmap
sys_memmap-Keeps pid regs s =
    let caller = find_caller s.procs s.sched pid in
    if-Keeps s (caller == 0) _ _ (refl, refl)
      (wrap (memop caller regs s) (memop-Keeps caller regs s))
  where
    wrap :
        (r : Option (Regs × Machine))
        → Keeps s r
        → Keeps {A = Code × Regs} s
            (elim r [ none ↦ none | some (regs', s') ↦ some ((success, regs'), s') ])
    wrap none k = tt
    wrap (some (regs', s')) k = k

pub syscall-Keeps : (pid nr : ℕ) (regs : Regs) (s : Machine) → Keeps s (syscall pid nr regs s)
unfolding syscall
syscall-Keeps pid nr regs s =
    if-Keeps s (nr == 0) _ _ (refl, refl)
      (if-Keeps s (nr == 17) _ _ (sys_memmap-Keeps pid regs s) (refl, refl))

pub libsyscall-Keeps :
    (caller nr a1 a2 a3 : ℕ) (s : Machine) → Keeps s (libsyscall caller nr a1 a2 a3 s)
unfolding libsyscall
libsyscall-Keeps caller nr a1 a2 a3 s =
    bind-Keeps s (syscall (s.procs caller).pid nr (record { a1 = a1; a2 = a2; a3 = a3 }))
      (λ r. pure r.0)
      (syscall-Keeps (s.procs caller).pid nr (record { a1 = a1; a2 = a2; a3 = a3 }) s)
      (λ r t. (refl, refl))
