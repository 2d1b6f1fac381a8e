-- ===== src/Libmem/Regions.antt =====
-- The operations on the regions of a process: `__alloc`, `__free`, `__read` and `__write` of
-- src/libmem.c, and the calls `liballoc`, `libfree`, `libread` and `libwrite` of the instructions.
use os_assignment.Base.{
  ℕ, ◌+◌, ◌-◌, ◌*◌, ◌/◌, ◌%◌, ◌^◌, List, ◌∷◌, Option, none, some, ◌==◌, ◌&&◌, ◌||◌, leb, ltb,
  get_elem?, set, if◌then◌else◌,
}
use os_assignment.Paging.{paging64_pagesz}
use os_assignment.Region.{
  Rg, Vma, Mm, Code, success, failure, found, null_list, fault, get_vma_by_num, get_free_vmrg_area,
  max_symtbl_sz, entry, null_symbol, behind_table, get_symrg_byid,
}
use os_assignment.Region.Symbols.{free_region}
use os_assignment.Machine.{Kernel, ◌>>=◌, ◌>>◌, pure, gets, mm_of, put_mm}
use os_assignment.Syscall.Memmap.{sysmem_inc_op}
use os_assignment.Libmem.{call_memmap, pg_getval, pg_setval}

abbrev pub set_caller_mm : ℕ → Mm → Kernel (Unit {0})
set_caller_mm caller mm s = some (tt, put_mm s (s.procs caller).mm mm)

-- The free list of the area at position `cur`.
abbrev pub with_free_list : Mm → ℕ → Vma → List Rg → Mm
with_free_list mm cur vma freerg_list = record mm {
  mmap = set mm.mmap cur (record vma { vm_freerg_list = freerg_list });
}

-- caller->mm->symrgtbl[rgid] = rg: the table has 30 entries, and a write elsewhere is undefined.
unfoldable pub set_symbol : ℕ → ℕ → Rg → Kernel (Unit {0})
set_symbol caller rgid rg s =
    if ltb rgid max_symtbl_sz
    then set_caller_mm caller
        (record (mm_of s caller) { symrgtbl = set (mm_of s caller).symrgtbl rgid rg }) s
    else none

-- A 64-bit size, rounded up to pages of 4096 bytes.
abbrev pub grow_bytes : ℕ → ℕ
grow_bytes size = (size + paging64_pagesz - 1) % 2 ^ 64 / paging64_pagesz * paging64_pagesz

-- The rest of the last page goes to the free list of the area.
unfoldable pub enlist_extra : ℕ → ℕ → ℕ → ℕ → Kernel (Unit {0})
enlist_extra caller cur old_brk size s =
    let extra : Rg = record {
      rg_start = (old_brk + size) % 2 ^ 64;
      rg_end = (old_brk + grow_bytes size) % 2 ^ 64;
    } in
    let mm = mm_of s caller in
    if ltb extra.rg_start extra.rg_end
    then (elim (get_elem? mm.mmap cur) [
      | none ↦ none
      | some vma ↦ set_caller_mm caller (with_free_list mm cur vma (extra ∷ vma.vm_freerg_list)) s
    ])
    else some (tt, s)

-- No free region is large enough: the area is asked to grow, and the region starts at its old end.
unfoldable pub alloc_at_brk : ℕ → ℕ → ℕ → ℕ → Vma → ℕ → Kernel (Option ℕ)
unfolding set_symbol enlist_extra
alloc_at_brk caller vmaid rgid cur cur_vma size = do
  regs ← call_memmap caller (record { a1 = sysmem_inc_op; a2 = vmaid; a3 = grow_bytes size })
  set_symbol caller rgid
      (record { rg_start = cur_vma.sbrk; rg_end = (cur_vma.sbrk + size) % 2 ^ 64 })
  enlist_extra caller cur cur_vma.sbrk size
  pure (some cur_vma.sbrk)

-- A region of the free list of the area.
unfoldable pub alloc_free : ℕ → ℕ → ℕ → Vma → Rg → List Rg → Kernel (Option ℕ)
unfolding set_symbol
alloc_free caller rgid cur cur_vma chosen left = do
  s ← gets (λ s. s)
  set_caller_mm caller (with_free_list (mm_of s caller) cur cur_vma left)
  set_symbol caller rgid chosen
  pure (some chosen.rg_start)

-- `__alloc`, with the address of the region; `alloc_addr` is not NULL. `rgid` is an `int`: one from
-- 2 ^ 31 on stands for a negative number.
unfoldable pub alloc_region : ℕ → ℕ → ℕ → ℕ → Kernel (Option ℕ)
unfolding alloc_at_brk alloc_free
alloc_region caller vmaid rgid size s =
    if size == 0 || (s.procs caller).mm == 0
    then some (none, s)
    else (elim (get_vma_by_num (mm_of s caller) vmaid) [
      | null_list ↦ some (none, s)
      | fault ↦ none
      | found cur ↦ elim (get_elem? (mm_of s caller).mmap cur) [
        | none ↦ none
        | some cur_vma ↦ elim (get_free_vmrg_area cur_vma.vm_freerg_list size) [
          | none ↦ alloc_at_brk caller vmaid rgid cur cur_vma size s
          | some (chosen, left) ↦ alloc_free caller rgid cur cur_vma chosen left s
        ]
      ]
    ])

abbrev pub code_of : Option ℕ → Code
code_of none = failure
code_of (some v) = success

unfoldable pub liballoc : ℕ → ℕ → ℕ → Kernel Code
unfolding alloc_region
liballoc proc size reg_index = do addr ← alloc_region proc 0 reg_index size; pure (code_of addr)

-- `__free` and `libfree`.
unfoldable pub libfree : ℕ → ℕ → Kernel Code
libfree proc reg_index s =
    if (s.procs proc).mm == 0
    then some (failure, s)
    else (elim (free_region (mm_of s proc) reg_index) [
      | none ↦ none
      | some (code, mm) ↦ some (code, put_mm s (s.procs proc).mm mm)
    ])

-- `__read`: the byte, or -1.
unfoldable pub read_region : ℕ → ℕ → ℕ → Kernel (Option ℕ)
read_region caller rgid offset s =
    if (s.procs caller).mm == 0
    then some (none, s)
    else (elim (get_symrg_byid (mm_of s caller) rgid) [
      | null_symbol ↦ some (none, s)
      | behind_table ↦ none
      | entry currg ↦
          let rg_size = (currg.rg_end + 2 ^ 64 - currg.rg_start) % 2 ^ 64 in
          if (currg.rg_start == 0 && currg.rg_end == 0) || leb rg_size offset
          then some (none, s)
          else pg_getval caller ((currg.rg_start + offset) % 2 ^ 32) s
    ])

-- The return code and `*destination`, which is what the local variable holds when the read fails.
unfoldable pub libread : ℕ → ℕ → ℕ → Kernel (Code × ℕ)
unfolding read_region
libread proc source offset = do
  byte ← read_region proc source offset
  unset ← gets (λ s. s.stale)
  elim byte [ none ↦ pure (failure, unset) | some value ↦ pure (success, value) ]

-- `__write`: the return code of `pg_setval` is not looked at.
unfoldable pub write_region : ℕ → ℕ → ℕ → ℕ → ℕ → Kernel Code
write_region caller vmaid rgid offset value s =
    if (s.procs caller).mm == 0
    then some (failure, s)
    else (elim (get_symrg_byid (mm_of s caller) rgid) [
      | behind_table ↦ none
      | null_symbol ↦ elim (get_vma_by_num (mm_of s caller) vmaid) [
        | fault ↦ none
        | _ ↦ some (failure, s)
      ]
      | entry currg ↦ elim (get_vma_by_num (mm_of s caller) vmaid) [
        | fault ↦ none
        | null_list ↦ some (failure, s)
        | found cur ↦
            if leb currg.rg_end ((currg.rg_start + offset) % 2 ^ 64)
            then some (failure, s)
            else (do
              code ← pg_setval caller ((currg.rg_start + offset) % 2 ^ 32) value
              pure success)
                s
      ]
    ])

unfoldable pub libwrite : ℕ → ℕ → ℕ → ℕ → Kernel Code
unfolding write_region
libwrite proc value destination offset = write_region proc 0 destination offset value
