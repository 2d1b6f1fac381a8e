-- ===== src/Libmem/Unmapped.antt =====
-- A request of memory that the free regions do not fill, in the kernel as src/os.c sets it up, where
-- the field `mm` of the kernel structure stays NULL.
use os_assignment.Base.{
  ℕ, ◌+◌, ◌%◌, ◌^◌, ◌<◌, ◌≡◌, ◌≢◌, ◌⊎◌, inl, inr, refl, ap, ◌∙◌, arith, List, ◌∷◌, none, some,
  false, ◌==◌, ◌||◌, ltb, Bool-cases, get_elem?, set,
}
use os_assignment.Region.{Rg, Vma, Mm, get_free_vmrg_area}
use os_assignment.Syscall.{find_caller}
use os_assignment.Syscall.Memmap.{Regs, sysmem_inc_op, inc_op, memop, sys_memmap, syscall}
use os_assignment.Machine.{Machine, ◌>>=◌, mm_of, put_mm, pure, bind-run, bind-none}
use os_assignment.Libmem.{call_memmap}
use os_assignment.Libmem.Regions.{
  with_free_list, set_symbol, grow_bytes, enlist_extra, alloc_at_brk, alloc_region,
}
use os_assignment.Libmem.Lost.{call_memmap-unknown}
use os_assignment.Libmem.Reuse.{put_mm_self, set_symbol-run, first_area}

inc_op-null : (s : Machine) (caller : ℕ) (regs : Regs) → s.krnl_mm ≡ 0 → inc_op caller regs s ≡ none
unfolding inc_op
inc_op-null s caller regs null = rw (inc_op, null) refl

memop-inc_op :
    (s : Machine) (caller a2 a3 : ℕ)
    → s.krnl_mm ≡ 0
    → memop caller (record { a1 = sysmem_inc_op; a2 = a2; a3 = a3 }) s ≡ none
unfolding memop
memop-inc_op s caller a2 a3 null = inc_op-null s caller _ null

sys_memmap-none :
    (s : Machine) (pid : ℕ) (regs : Regs)
    → find_caller s.procs s.sched pid ≢ 0
    → memop (find_caller s.procs s.sched pid) regs s ≡ none
    → sys_memmap pid regs s ≡ none
unfolding sys_memmap
sys_memmap-none s pid regs found e =
    let there : (find_caller s.procs s.sched pid == 0) ≡ false = ground arith in
    rw (sys_memmap, there, e) refl

enlist_extra-run :
    (s : Machine) (caller old size : ℕ) (vma : Vma)
    → get_elem? (mm_of s caller).mmap 0 ≡ some vma
    → (s' : Machine) × (enlist_extra caller 0 old size s ≡ some (tt, s'))
      × (s'.heap ≡ s.heap)
      × (s'.mram ≡ s.mram)
unfolding enlist_extra
enlist_extra-run s caller old size vma e =
    let extra : Rg = record {
      rg_start = (old + size) % 2 ^ 64;
      rg_end = (old + grow_bytes size) % 2 ^ 64;
    } in
    let s' =
      put_mm s (s.procs caller).mm
        (with_free_list (mm_of s caller) 0 vma (extra ∷ vma.vm_freerg_list)) in
    elim (Bool-cases (ltb ((old + size) % 2 ^ 64) ((old + grow_bytes size) % 2 ^ 64))) [
      | inl more ↦ (s', rw (enlist_extra, more, e) refl, refl, refl)
      | inr less ↦ (s, rw (enlist_extra, less) refl, refl, refl)
    ]

alloc_region-brk :
    (s : Machine) (caller rgid size : ℕ) (vma : Vma) (rest : List Vma)
    → (s.procs caller).mm ≢ 0
    → 0 < size
    → (mm_of s caller).mmap ≡ vma ∷ rest
    → get_free_vmrg_area vma.vm_freerg_list size ≡ none
    → alloc_region caller 0 rgid size s ≡ alloc_at_brk caller 0 rgid 0 vma size s
unfolding alloc_region
alloc_region-brk s caller rgid size vma rest there real areas full =
    let used : (size == 0 || (s.procs caller).mm == 0) ≡ false = ground arith in
    let (area, first) = first_area (mm_of s caller) vma rest areas in
    rw (alloc_region, used, area, first, full) refl

-- While the `mm` of the kernel structure is NULL, for a process with an area whose free regions are
-- all too short for a size that is not 0, and a symbol below 30: if the system call finds a process,
-- `__alloc` reads through NULL; if not, it returns the end of the area as the address of the
-- region, with the page tables and the RAM device as they were, so that no page was mapped.
pub alloc_region-unmapped :
    (s : Machine) (caller rgid size : ℕ) (vma : Vma) (rest : List Vma)
    → s.krnl_mm ≡ 0
    → (s.procs caller).mm ≢ 0
    → 0 < size
    → rgid < 30
    → (mm_of s caller).mmap ≡ vma ∷ rest
    → get_free_vmrg_area vma.vm_freerg_list size ≡ none
    → ((find_caller s.procs s.sched (s.procs caller).pid ≢ 0)
        × (alloc_region caller 0 rgid size s ≡ none))
      ⊎ ((find_caller s.procs s.sched (s.procs caller).pid ≡ 0)
          × ((s' : Machine) × (alloc_region caller 0 rgid size s ≡ some (some vma.sbrk, s'))
              × (s'.heap ≡ s.heap)
              × (s'.mram ≡ s.mram)))
unfolding alloc_at_brk call_memmap syscall
alloc_region-unmapped s caller rgid size vma rest null there real low areas full =
    let pid = (s.procs caller).pid in
    let grow = alloc_region-brk s caller rgid size vma rest there real areas full in
    let regs : Regs = record { a1 = sysmem_inc_op; a2 = 0; a3 = grow_bytes size } in
    elim (Bool-cases (find_caller s.procs s.sched pid == 0)) [
      | inr found ↦
          let known : find_caller s.procs s.sched pid ≢ 0 = λ e. ground arith in
          inl (
            known,
            grow
                ∙ bind-none (call_memmap caller regs) _ s (
                    bind-none (syscall pid 17 regs) (λ r. pure r.1) s
                      (sys_memmap-none s pid regs known (
                        memop-inc_op s (find_caller s.procs s.sched pid) 0 (grow_bytes size)
                          null))),
          )
      | inl missing ↦
          let unknown : find_caller s.procs s.sched pid ≡ 0 = ground arith in
          let rg : Rg = record { rg_start = vma.sbrk; rg_end = (vma.sbrk + size) % 2 ^ 64 } in
          let mm1 = record (mm_of s caller) { symrgtbl = set (mm_of s caller).symrgtbl rgid rg } in
          let s1 = put_mm s (s.procs caller).mm mm1 in
          let (s2, e, tables, frames) = enlist_extra-run s1 caller vma.sbrk size vma (
            ap (λ (m : Mm). get_elem? m.mmap 0) (put_mm_self s caller mm1)
            ∙ (first_area (mm_of s caller) vma rest areas).1) in
          inr (
            unknown,
            (
              s2,
              grow
                  ∙ bind-run (call_memmap caller regs) _ s regs s
                      (call_memmap-unknown s caller regs unknown)
                  ∙ bind-run (set_symbol caller rgid rg)
                      (λ u. enlist_extra caller 0 vma.sbrk size >>= λ w. pure (some vma.sbrk)) s tt
                      s1 (set_symbol-run s caller rgid rg low)
                  ∙ bind-run (enlist_extra caller 0 vma.sbrk size) (λ w. pure (some vma.sbrk)) s1 tt
                      s2 e,
              tables,
              frames,
            ),
          )
    ]
