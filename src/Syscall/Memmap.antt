-- ===== src/Syscall/Memmap.antt =====
-- The system calls: `__sys_memmap` of src/sys_mem.c, which works on the page tables and the
-- devices, `__sys_listsyscall`, and the dispatch of src/syscall.c and `libsyscall` of src/libstd.c.
use os_assignment.Base.{
  ℕ, ◌+◌, ◌-◌, ◌*◌, ◌/◌, get_or, ◌%◌, ◌^◌, none, some, ◌==◌, ltb, leb, if◌then◌else◌,
}
use os_assignment.Memphy.{done, refused, fault, read, write}
use os_assignment.Memphy.Copy.{swap_cp_page}
use os_assignment.Region.{Code, success, failure, int32}
use os_assignment.Mapping.{vmap_pgd_memset}
use os_assignment.Mapping.Limit.{inc_vma_limit}
use os_assignment.Syscall.{find_caller}
use os_assignment.Machine.{Machine, Kernel, ◌>>=◌, pure, space_of, put_space, put_mm}

-- struct sc_regs; the other registers are not used.
pub record Regs : Type 0 where
  pub a1 : ℕ
  pub a2 : ℕ
  pub a3 : ℕ

-- SYSMEM_MAP_OP and the others.
abbrev pub sysmem_map_op : ℕ
sysmem_map_op = 1

abbrev pub sysmem_inc_op : ℕ
sysmem_inc_op = 2

abbrev pub sysmem_swp_op : ℕ
sysmem_swp_op = 3

abbrev pub sysmem_io_read : ℕ
sysmem_io_read = 4

abbrev pub sysmem_io_write : ℕ
sysmem_io_write = 5

-- An `int` argument where a negative number does the same as 0: a number of rounds, or the
-- identifier of an area.
abbrev pub int_or_zero : ℕ → ℕ
int_or_zero v = if leb (2 ^ 31) (int32 v) then 0 else int32 v

-- A BYTE, which is a `char` with a sign, as an `arg_t`.
abbrev pub byte_arg : ℕ → ℕ
byte_arg v = if ltb v 128 then v else v + 2 ^ 64 - 256

-- An `addr_t` parameter as src/sys_mem.c passes it on: its prototypes have 4 bytes for it.
abbrev pub short_addr : ℕ → ℕ
short_addr v = v % 2 ^ 32

unfoldable pub map_op : ℕ → Regs → Kernel Regs
map_op caller regs s =
    elim (vmap_pgd_memset (space_of s caller) (short_addr regs.a2) (int_or_zero regs.a3)) [
      | none ↦ none
      | some space ↦ some (regs, put_space s caller space)
    ]

-- The area is one of the kernel's `mm`, which is read without a test for NULL.
unfoldable pub inc_op : ℕ → Regs → Kernel Regs
inc_op caller regs s =
    if s.krnl_mm == 0
    then none
    else (elim (inc_vma_limit (s.mms s.krnl_mm) (space_of s caller) s.mram (int_or_zero regs.a2)
        (short_addr regs.a3)) [
          | none ↦ none
          | some g ↦
              let s' = put_space (record s { mram = g.mram }) caller g.space in
              some (regs, put_mm s' s.krnl_mm (record (s'.mms s.krnl_mm) { mmap = g.mmap }))
        ])

-- __mm_swap_page(caller, regs->a2, regs->a3).
unfoldable pub swp_op : Regs → Kernel Regs
swp_op regs s =
    elim (swap_cp_page s.stale s.mram (short_addr regs.a2) s.mswp (short_addr regs.a3)) [
      | fault ↦ none
      | refused ↦ some (regs, s)
      | done (mram, mswp) ↦ some (regs, record s { mram = mram; mswp = mswp })
    ]

-- offsetof(struct pcb_t, regs), and offsetof(struct pcb_t, krnl) where an `addr_t` has `w` bytes:
-- behind the ten registers stand `pc` and `prio`.
abbrev pub regs_offset : ℕ
regs_offset = 120

abbrev pub krnl_offset : ℕ → ℕ
krnl_offset w = regs_offset + 10 * w + 8

-- caller->krnl, as src/sys_mem.c reads it. The file includes include/os-mm.h before MM64 is defined,
-- so its `addr_t` has 4 bytes, and it looks at the offset for that; the blocks of the other files have
-- registers of 8 bytes, one of which stands there.
unfoldable pub caller_krnl : Machine → ℕ → ℕ
caller_krnl s caller = get_or (s.procs caller).regs ((krnl_offset 4 - regs_offset) / 8) 0

-- Through any other address than the kernel structure's the access is undefined.
unfoldable pub io_read : ℕ → Regs → Kernel Regs
unfolding caller_krnl
io_read caller regs s =
    if caller_krnl s caller == s.krnl
    then (elim (read (some s.mram) (short_addr regs.a2)) [
      | fault ↦ none
      | refused ↦ some (record regs { a3 = byte_arg s.stale }, s)
      | done (value, mram) ↦ some (record regs { a3 = byte_arg value }, record s { mram = mram })
    ])
    else none

unfoldable pub io_write : ℕ → Regs → Kernel Regs
unfolding caller_krnl
io_write caller regs s =
    if caller_krnl s caller == s.krnl
    then (elim (write (some s.mram) (short_addr regs.a2) (regs.a3 % 256)) [
      | fault ↦ none
      | refused ↦ some (regs, s)
      | done mram ↦ some (regs, record s { mram = mram })
    ])
    else none

-- switch (memop).
unfoldable pub memop : ℕ → Regs → Kernel Regs
unfolding map_op inc_op swp_op io_read io_write
memop caller regs s =
    let op = int32 regs.a1 in
    if op == sysmem_map_op
    then map_op caller regs s
    else (if op == sysmem_inc_op
        then inc_op caller regs s
        else (if op == sysmem_swp_op
            then swp_op regs s
            else (if op == sysmem_io_read
                then io_read caller regs s
                else (if op == sysmem_io_write then io_write caller regs s else some (regs, s)))))

unfoldable pub sys_memmap : ℕ → Regs → Kernel (Code × Regs)
sys_memmap pid regs s =
    let caller = find_caller s.procs s.sched pid in
    if caller == 0 then some ((failure, regs), s) else (elim (memop caller regs s) [
      | none ↦ none
      | some (regs', s') ↦ some ((success, regs'), s')
    ])

-- It prints the table.
abbrev pub sys_listsyscall : Regs → Kernel (Code × Regs)
sys_listsyscall regs s = some ((success, regs), s)

abbrev pub sys_ni_syscall : Regs → Kernel (Code × Regs)
sys_ni_syscall regs s = some ((success, regs), s)

-- The switch with the cases of src/syscall.tbl.
unfoldable pub syscall : ℕ → ℕ → Regs → Kernel (Code × Regs)
unfolding sys_memmap
syscall pid nr regs s =
    if nr == 0
    then sys_listsyscall regs s
    else (if nr == 17 then sys_memmap pid regs s else sys_ni_syscall regs s)

unfoldable pub libsyscall : ℕ → ℕ → ℕ → ℕ → ℕ → Kernel Code
unfolding syscall
libsyscall caller syscall_idx a1 a2 a3 = do
  s ← λ (s : Machine). some (s, s)
  r ← syscall (s.procs caller).pid syscall_idx (record { a1 = a1; a2 = a2; a3 = a3 })
  pure r.0
