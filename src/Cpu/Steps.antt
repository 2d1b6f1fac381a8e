-- ===== src/Cpu/Steps.antt =====
-- What `run` leaves: the operations of the instructions touch no process control block.
use os_assignment.Base.{
  ℕ, ◌+◌, ◌-◌, ◌%◌, ◌^◌, refl, List, Option, none, some, ◌==◌, ◌&&◌, ◌||◌, leb, ltb, get_elem?,
}
use os_assignment.Process.{Inst, Opcode, calc, alloc, free, read, write, syscall}
use os_assignment.Region.{
  Rg, Vma, success, failure, Search, found, null_list, fault, get_vma_by_num, get_free_vmrg_area,
  max_symtbl_sz, Symbol, entry, null_symbol, behind_table, get_symrg_byid,
}
use os_assignment.Region.Symbols.{free_region}
use os_assignment.Machine.{Machine, mm_of, pure, ◌>>=◌}
use os_assignment.Machine.Keeps.{Keeps, bind-Keeps, if-Keeps, option-Keeps, choice-Keeps}
use os_assignment.Syscall.Memmap.{Regs, sysmem_inc_op}
use os_assignment.Syscall.Keeps.{libsyscall-Keeps}
use os_assignment.Libmem.{call_memmap, pg_setval}
use os_assignment.Libmem.Keeps.{call_memmap-Keeps, pg_getval-Keeps, pg_setval-Keeps}
use os_assignment.Libmem.Regions.{
  set_caller_mm, with_free_list, set_symbol, grow_bytes, enlist_extra, alloc_at_brk, alloc_free,
  alloc_region, code_of, liballoc, libfree, read_region, libread, write_region, libwrite,
}
use os_assignment.Cpu.{execute}

set_symbol-Keeps : (caller rgid : ℕ) (rg : Rg) (s : Machine) → Keeps s (set_symbol caller rgid rg s)
unfolding set_symbol
set_symbol-Keeps caller rgid rg s = if-Keeps s (ltb rgid max_symtbl_sz) _ none (refl, refl) tt

enlist_extra-Keeps :
    (caller cur old size : ℕ) (s : Machine) → Keeps s (enlist_extra caller cur old size s)
unfolding enlist_extra
enlist_extra-Keeps caller cur old size s =
    if-Keeps s (ltb ((old + size) % 2 ^ 64) ((old + grow_bytes size) % 2 ^ 64)) _ _
      (option-Keeps s (get_elem? (mm_of s caller).mmap cur) none _ tt (λ vma. (refl, refl)))
      (refl, refl)

alloc_at_brk-Keeps :
    (caller vmaid rgid cur : ℕ) (vma : Vma) (size : ℕ) (s : Machine)
    → Keeps s (alloc_at_brk caller vmaid rgid cur vma size s)
unfolding alloc_at_brk
alloc_at_brk-Keeps caller vmaid rgid cur vma size s =
    let regs : Regs = record { a1 = sysmem_inc_op; a2 = vmaid; a3 = grow_bytes size } in
    let rg : Rg = record { rg_start = vma.sbrk; rg_end = (vma.sbrk + size) % 2 ^ 64 } in
    bind-Keeps s (call_memmap caller regs) _ (call_memmap-Keeps caller regs s) λ r t1.
      bind-Keeps t1 (set_symbol caller rgid rg)
        (λ u. enlist_extra caller cur vma.sbrk size >>= λ w. pure (some vma.sbrk))
        (set_symbol-Keeps caller rgid rg t1)
        λ u t2.
          bind-Keeps t2 (enlist_extra caller cur vma.sbrk size) (λ w. pure (some vma.sbrk))
            (enlist_extra-Keeps caller cur vma.sbrk size t2) λ w t3. (refl, refl)

alloc_free-Keeps :
    (caller rgid cur : ℕ) (vma : Vma) (chosen : Rg) (left : List Rg) (s : Machine)
    → Keeps s (alloc_free caller rgid cur vma chosen left s)
unfolding alloc_free
alloc_free-Keeps caller rgid cur vma chosen left s =
    bind-Keeps s (set_caller_mm caller (with_free_list (mm_of s caller) cur vma left))
      (λ u. set_symbol caller rgid chosen >>= λ w. pure (some chosen.rg_start)) (refl, refl)
      λ u t.
        bind-Keeps t (set_symbol caller rgid chosen) (λ w. pure (some chosen.rg_start))
          (set_symbol-Keeps caller rgid chosen t) λ w t'. (refl, refl)

search-Keeps :
    {A : Type 0} (s : Machine) (o : Search) (x y : Option (A × Machine))
    (f : ℕ → Option (A × Machine))
    → Keeps s x
    → Keeps s y
    → ((cur : ℕ) → Keeps s (f cur))
    → Keeps {A = A} s (elim o [ null_list ↦ x | fault ↦ y | found cur ↦ f cur ])
search-Keeps s null_list x y f k l m = k
search-Keeps s fault x y f k l m = l
search-Keeps s (found cur) x y f k l m = m cur

symbol-Keeps :
    {A : Type 0} (s : Machine) (o : Symbol) (x y : Option (A × Machine))
    (f : Rg → Option (A × Machine))
    → Keeps s x
    → Keeps s y
    → ((rg : Rg) → Keeps s (f rg))
    → Keeps {A = A} s (elim o [ null_symbol ↦ x | behind_table ↦ y | entry rg ↦ f rg ])
symbol-Keeps s null_symbol x y f k l m = k
symbol-Keeps s behind_table x y f k l m = l
symbol-Keeps s (entry rg) x y f k l m = m rg

alloc_region-Keeps :
    (caller vmaid rgid size : ℕ) (s : Machine) → Keeps s (alloc_region caller vmaid rgid size s)
unfolding alloc_region
alloc_region-Keeps caller vmaid rgid size s =
    if-Keeps s (size == 0 || (s.procs caller).mm == 0) _ _ (refl, refl)
      (search-Keeps s (get_vma_by_num (mm_of s caller) vmaid) _ none _ (refl, refl) tt
        λ cur. option-Keeps s (get_elem? (mm_of s caller).mmap cur) none _ tt λ vma.
          option-Keeps s (get_free_vmrg_area vma.vm_freerg_list size) _ _
            (alloc_at_brk-Keeps caller vmaid rgid cur vma size s)
            (λ p. alloc_free-Keeps caller rgid cur vma p.0 p.1 s))

liballoc-Keeps : (proc size reg : ℕ) (s : Machine) → Keeps s (liballoc proc size reg s)
unfolding liballoc
liballoc-Keeps proc size reg s =
    bind-Keeps s (alloc_region proc 0 reg size) (λ a. pure (code_of a))
      (alloc_region-Keeps proc 0 reg size s) λ a t. (refl, refl)

libfree-Keeps : (proc reg : ℕ) (s : Machine) → Keeps s (libfree proc reg s)
unfolding libfree
libfree-Keeps proc reg s =
    if-Keeps s ((s.procs proc).mm == 0) _ _ (refl, refl)
      (option-Keeps s (free_region (mm_of s proc) reg) none _ tt (λ p. (refl, refl)))

read_region-Keeps : (caller rgid off : ℕ) (s : Machine) → Keeps s (read_region caller rgid off s)
unfolding read_region
read_region-Keeps caller rgid off s =
    if-Keeps s ((s.procs caller).mm == 0) _ _ (refl, refl)
      (symbol-Keeps s (get_symrg_byid (mm_of s caller) rgid) _ none _ (refl, refl) tt
        λ rg.
          if-Keeps s
            ((rg.rg_start == 0 && rg.rg_end == 0)
              || leb ((rg.rg_end + 2 ^ 64 - rg.rg_start) % 2 ^ 64) off)
            _ _ (refl, refl) (pg_getval-Keeps caller ((rg.rg_start + off) % 2 ^ 32) s))

libread-Keeps : (proc source off : ℕ) (s : Machine) → Keeps s (libread proc source off s)
unfolding libread
libread-Keeps proc source off s =
    bind-Keeps s (read_region proc source off) _ (read_region-Keeps proc source off s) λ byte t.
      choice-Keeps t byte (pure (failure, t.stale)) (λ v. pure (success, v)) (refl, refl)
        λ v. (refl, refl)

write_region-Keeps :
    (caller vmaid rgid off v : ℕ) (s : Machine) → Keeps s (write_region caller vmaid rgid off v s)
unfolding write_region
write_region-Keeps caller vmaid rgid off v s =
    let area = get_vma_by_num (mm_of s caller) vmaid in
    if-Keeps s ((s.procs caller).mm == 0) _ _ (refl, refl)
      (symbol-Keeps s (get_symrg_byid (mm_of s caller) rgid) _ none _
        (search-Keeps s area _ none _ (refl, refl) tt (λ cur. (refl, refl))) tt
        λ rg.
          search-Keeps s area _ none _ (refl, refl) tt
            λ cur.
              if-Keeps s (leb rg.rg_end ((rg.rg_start + off) % 2 ^ 64)) _ _ (refl, refl)
                (bind-Keeps s (pg_setval caller ((rg.rg_start + off) % 2 ^ 32) v)
                  (λ c. pure success) (pg_setval-Keeps caller ((rg.rg_start + off) % 2 ^ 32) v s)
                  λ c t. (refl, refl)))

pub execute-Keeps : (proc : ℕ) (ins : Inst) (s : Machine) → Keeps s (execute proc ins s)
unfolding execute libwrite
execute-Keeps proc ins s = go ins.opcode
  where
    go : (op : Opcode) → Keeps s (execute proc (record ins { opcode = op }) s)
    go calc = (refl, refl)
    go alloc = liballoc-Keeps proc ins.arg_0 (ins.arg_1 % 2 ^ 32) s
    go free = libfree-Keeps proc (ins.arg_0 % 2 ^ 32) s
    go read =
        bind-Keeps s (libread proc (ins.arg_0 % 2 ^ 32) ins.arg_1) (λ r. pure r.0)
          (libread-Keeps proc (ins.arg_0 % 2 ^ 32) ins.arg_1 s) λ r t. (refl, refl)
    go write = write_region-Keeps proc 0 (ins.arg_1 % 2 ^ 32) ins.arg_2 (ins.arg_0 % 256) s
    go syscall = libsyscall-Keeps proc (ins.arg_0 % 2 ^ 32) ins.arg_1 ins.arg_2 ins.arg_3 s
