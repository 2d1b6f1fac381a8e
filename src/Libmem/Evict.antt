-- ===== src/Libmem/Evict.antt =====
-- `pg_getpage` without a free frame: the oldest page of the caller goes to the swap device.
use os_assignment.Base.{
  ℕ, ◌^◌, ◌<◌, ◌≡◌, ◌≢◌, refl, ap, ◌∙◌, arith, List, [], ◌∷◌, none, some, true, ◌==◌,
}
use os_assignment.Paging.Pte.{paging_fpn}
use os_assignment.Paging.Directory.{Heap, pte_get_entry, pte_set_swap}
use os_assignment.Memphy.{Memphy, done, get_freefp}
use os_assignment.Memphy.Copy.{swap_cp_page}
use os_assignment.Region.{Mm, success, find_victim_page}
use os_assignment.Syscall.{find_caller}
use os_assignment.Syscall.Memmap.{Regs, sysmem_swp_op, memop, syscall}
use os_assignment.Syscall.Calls.{sys_memmap-run, sys_memmap-none, swp_op-run}
use os_assignment.Machine.{Machine, pure, bind-run, bind-none, mm_of, pgd_of, put_mm}
use os_assignment.Libmem.{take_victim, get_entry, get_swap_frame, call_memmap, set_swap, evict}

-- The caller's queue of pages is `fifo_pgn`.
abbrev pub with_fifo : Machine → ℕ → List ℕ → Machine
with_fifo s caller fifo_pgn =
    put_mm s (s.procs caller).mm (record (mm_of s caller) { fifo_pgn = fifo_pgn })

pub with_fifo-pgd :
    (s : Machine) (caller : ℕ) (fifo_pgn : List ℕ)
    → mm_of (with_fifo s caller fifo_pgn) caller ≡ record (mm_of s caller) { fifo_pgn = fifo_pgn }
with_fifo-pgd s caller fifo_pgn =
    let self : ((s.procs caller).mm == (s.procs caller).mm) ≡ true = ground arith in rw self

-- The state after the victim was swapped out.
abbrev pub evicted : Machine → ℕ → List ℕ → Heap → Memphy → Machine
evicted s caller fifo_pgn heap mswp = record (with_fifo s caller fifo_pgn) {
  heap = heap;
  mswp = mswp;
}

pub take_victim-run :
    (s : Machine) (caller v : ℕ) (xs : List ℕ)
    → find_victim_page (mm_of s caller).fifo_pgn ≡ some (v, xs)
    → take_victim caller s ≡ some (some v, with_fifo s caller xs)
unfolding take_victim
take_victim-run s caller v xs e = rw (take_victim, e) refl

pub get_entry-run :
    (s : Machine) (caller q pte : ℕ)
    → pte_get_entry s.heap (pgd_of s caller) q ≡ some pte
    → get_entry caller q s ≡ some (pte, s)
unfolding get_entry
get_entry-run s caller q pte e = rw (get_entry, e) refl

pub get_freefp-nil : (mp : Memphy) → mp.free_fp_list ≡ [] → get_freefp mp ≡ none
unfolding get_freefp
get_freefp-nil mp e = rw (get_freefp, e) refl

pub get_swap_frame-none :
    (s : Machine) → s.mswp.free_fp_list ≡ [] → get_swap_frame s ≡ some (none, s)
unfolding get_swap_frame
get_swap_frame-none s e = rw (get_swap_frame, get_freefp-nil s.mswp e) refl

pub get_swap_frame-run :
    (s : Machine) (g : ℕ) (rest : List ℕ)
    → s.mswp.free_fp_list ≡ g ∷ rest
    → get_swap_frame s ≡ some (some g, record s { mswp = record s.mswp { free_fp_list = rest } })
unfolding get_swap_frame get_freefp
get_swap_frame-run s g rest e = rw (get_swap_frame, get_freefp, e) refl

pub call_memmap-run :
    (s : Machine) (caller : ℕ) (regs regs' : Regs) (s' : Machine)
    → find_caller s.procs s.sched (s.procs caller).pid ≡ caller
    → caller ≢ 0
    → memop caller regs s ≡ some (regs', s')
    → call_memmap caller regs s ≡ some (regs', s')
unfolding call_memmap syscall
call_memmap-run s caller regs regs' s' known real e =
    bind-run (syscall (s.procs caller).pid 17 regs) (λ r. pure r.1) s (success, regs') s'
      (sys_memmap-run s caller (s.procs caller).pid regs regs' s' known real e)

pub call_memmap-none :
    (s : Machine) (caller : ℕ) (regs : Regs)
    → find_caller s.procs s.sched (s.procs caller).pid ≡ caller
    → caller ≢ 0
    → memop caller regs s ≡ none
    → call_memmap caller regs s ≡ none
unfolding call_memmap syscall
call_memmap-none s caller regs known real e =
    bind-none (syscall (s.procs caller).pid 17 regs) (λ r. pure r.1) s
      (sys_memmap-none s caller (s.procs caller).pid regs known real e)

pub set_swap-run :
    (s : Machine) (caller q g : ℕ) (heap : Heap)
    → pte_set_swap s.heap (pgd_of s caller) q s.active_mswp_id g ≡ some heap
    → set_swap caller q g s ≡ some (tt, record s { heap = heap })
unfolding set_swap
set_swap-run s caller q g heap e = rw (set_swap, e) refl

pub evict-run :
    (s : Machine) (caller v : ℕ) (xs : List ℕ) (pte g : ℕ) (rest : List ℕ) (heap : Heap)
    (mswp : Memphy)
    → find_caller s.procs s.sched (s.procs caller).pid ≡ caller
    → caller ≢ 0
    → find_victim_page (mm_of s caller).fifo_pgn ≡ some (v, xs)
    → pte_get_entry s.heap (pgd_of s caller) v ≡ some pte
    → s.mswp.free_fp_list ≡ g ∷ rest
    → paging_fpn pte < 2 ^ 32
    → g < 2 ^ 32
    → swap_cp_page s.stale s.mram (paging_fpn pte) (record s.mswp { free_fp_list = rest }) g
      ≡ done (s.mram, mswp)
    → pte_set_swap s.heap (pgd_of s caller) v s.active_mswp_id g ≡ some heap
    → evict caller s ≡ some (some (paging_fpn pte), evicted s caller xs heap mswp)
unfolding evict
evict-run s caller v xs pte g rest heap mswp known real victim read free small_f small_g copy set =
    let s1 = with_fifo s caller xs in
    let same = ap (λ (m : Mm). m.pgd) (with_fifo-pgd s caller xs) in
    let s2 = record s1 { mswp = record s.mswp { free_fp_list = rest } } in
    let s3 = record s1 { mswp = mswp } in
    let f = paging_fpn pte in
    let regs : Regs = record { a1 = sysmem_swp_op; a2 = f; a3 = g } in
    let read' = ap (λ d. pte_get_entry s.heap d v) same ∙ read in
    let set' = ap (λ d. pte_set_swap s.heap d v s.active_mswp_id g) same ∙ set in
    bind-run (take_victim caller) _ s (some v) s1 (take_victim-run s caller v xs victim)
    ∙ bind-run (get_entry caller v) _ s1 pte s1 (get_entry-run s1 caller v pte read')
    ∙ bind-run get_swap_frame _ s1 (some g) s2 (get_swap_frame-run s1 g rest free)
    ∙ bind-run (call_memmap caller regs) _ s2 regs s3 (
        call_memmap-run s2 caller regs regs s3 known real
          (swp_op-run s2 caller f g mswp small_f small_g copy))
    ∙ bind-run (set_swap caller v g) (λ u. pure (some f)) s3 tt (record s3 { heap = heap })
        (set_swap-run s3 caller v g heap set')
