-- ===== src/Syscall/Calls.antt =====
-- What `__sys_memmap` of src/sys_mem.c does for a caller that it finds: paging's three requests.
use os_assignment.Base.{
  ℕ, ◌%◌, ◌^◌, ◌<◌, ◌≡◌, ◌≢◌, refl, arith, none, some, true, false, ◌==◌, length, get_or,
}
use os_assignment.Memphy.{Memphy, done}
use os_assignment.Memphy.Laws.{read-inside, write-inside, stored}
use os_assignment.Memphy.Copy.{swap_cp_page}
use os_assignment.Region.{success}
use os_assignment.Syscall.{find_caller}
use os_assignment.Syscall.Memmap.{
  Regs, sysmem_swp_op, sysmem_io_read, sysmem_io_write, byte_arg, memop, swp_op, caller_krnl,
  io_read, io_write, sys_memmap,
}
use os_assignment.Machine.{Machine}

pub sys_memmap-run :
    (s : Machine) (caller pid : ℕ) (regs regs' : Regs) (s' : Machine)
    → find_caller s.procs s.sched pid ≡ caller
    → caller ≢ 0
    → memop caller regs s ≡ some (regs', s')
    → sys_memmap pid regs s ≡ some ((success, regs'), s')
unfolding sys_memmap
sys_memmap-run s caller pid regs regs' s' known real e =
    let other : (caller == 0) ≡ false = ground arith in rw (sys_memmap, known, other, e) refl

-- Frame `f` of RAM is copied to frame `g` of the swap device.
pub swp_op-run :
    (s : Machine) (caller f g : ℕ) (mswp : Memphy)
    → f < 2 ^ 32
    → g < 2 ^ 32
    → swap_cp_page s.stale s.mram f s.mswp g ≡ done (s.mram, mswp)
    → memop caller (record { a1 = sysmem_swp_op; a2 = f; a3 = g }) s
      ≡ some (record { a1 = sysmem_swp_op; a2 = f; a3 = g }, record s { mswp = mswp })
unfolding memop swp_op
swp_op-run s caller f g mswp small_f small_g copy =
    let same_f : f % 2 ^ 32 ≡ f = omega arith in
    let same_g : g % 2 ^ 32 ≡ g = omega arith in rw (memop, swp_op, same_f, same_g, copy) refl

-- Where the word read as caller->krnl is the kernel structure's address: reading inside RAM.
pub io_read-run :
    (s : Machine) (caller a : ℕ)
    → caller_krnl s caller ≡ s.krnl
    → s.mram.rdmflg ≢ 0
    → a < length s.mram.storage
    → a < 2 ^ 32
    → memop caller (record { a1 = sysmem_io_read; a2 = a; a3 = 0 }) s
      ≡ some (record { a1 = sysmem_io_read; a2 = a; a3 = byte_arg (get_or s.mram.storage a 0) }, s)
unfolding memop io_read
io_read-run s caller a right random inside small =
    let word : a % 2 ^ 32 ≡ a = omega arith in
    let same : (caller_krnl s caller == s.krnl) ≡ true = ground arith in
    rw (memop, io_read, same, word, read-inside s.mram a random inside) refl

-- Writing inside RAM.
pub io_write-run :
    (s : Machine) (caller a v : ℕ)
    → caller_krnl s caller ≡ s.krnl
    → s.mram.rdmflg ≢ 0
    → a < length s.mram.storage
    → a < 2 ^ 32
    → memop caller (record { a1 = sysmem_io_write; a2 = a; a3 = v }) s
      ≡ some (
        record { a1 = sysmem_io_write; a2 = a; a3 = v },
        record s { mram = stored s.mram a (v % 256) },
      )
unfolding memop io_write
io_write-run s caller a v right random inside small =
    let word : a % 2 ^ 32 ≡ a = omega arith in
    let same : (caller_krnl s caller == s.krnl) ≡ true = ground arith in
    rw (memop, io_write, same, word, write-inside s.mram a (v % 256) random inside) refl

-- With any other word neither access is defined.
pub io_read-none :
    (s : Machine) (caller a : ℕ)
    → caller_krnl s caller ≢ s.krnl
    → memop caller (record { a1 = sysmem_io_read; a2 = a; a3 = 0 }) s ≡ none
unfolding memop io_read
io_read-none s caller a wrong =
    let other : (caller_krnl s caller == s.krnl) ≡ false = ground arith in
    rw (memop, io_read, other) refl

pub io_write-none :
    (s : Machine) (caller a v : ℕ)
    → caller_krnl s caller ≢ s.krnl
    → memop caller (record { a1 = sysmem_io_write; a2 = a; a3 = v }) s ≡ none
unfolding memop io_write
io_write-none s caller a v wrong =
    let other : (caller_krnl s caller == s.krnl) ≡ false = ground arith in
    rw (memop, io_write, other) refl

pub sys_memmap-none :
    (s : Machine) (caller pid : ℕ) (regs : Regs)
    → find_caller s.procs s.sched pid ≡ caller
    → caller ≢ 0
    → memop caller regs s ≡ none
    → sys_memmap pid regs s ≡ none
unfolding sys_memmap
sys_memmap-none s caller pid regs known real e =
    let other : (caller == 0) ≡ false = ground arith in rw (sys_memmap, known, other, e) refl
