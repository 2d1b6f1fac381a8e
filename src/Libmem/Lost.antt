-- ===== src/Libmem/Lost.antt =====
-- An eviction for a caller that the system call does not find.
use os_assignment.Base.{
  ℕ, All, ◌+◌, ◌^◌, ◌<◌, ◌≡◌, refl, sym, ap, subst, ◌∙◌, arith, List, [], ◌∷◌, ◌++◌, some, Bool,
  true,
}
use os_assignment.Paging.Pte.{paging_fpn, paging_swp}
use os_assignment.Paging.Directory.{pte_get_entry, pte_set_swap}
use os_assignment.Paging.Directory.Descent.{HasRoom}
use os_assignment.Paging.Directory.Entries.{pte_set_swap_lem}
use os_assignment.Region.{Mm, failure, find_victim_page}
use os_assignment.Region.Pages.{find_victim_page-oldest}
use os_assignment.Syscall.{find_caller}
use os_assignment.Syscall.Memmap.{Regs, sysmem_swp_op, sys_memmap, syscall}
use os_assignment.Machine.{Machine, mm_of, pgd_of, pure, bind-run}
use os_assignment.Libmem.{take_victim, get_entry, get_swap_frame, call_memmap, set_swap, evict}
use os_assignment.Libmem.Layout.{in_ram, in_swap, at, Distinct, Fits, IsConsistent}
use os_assignment.Libmem.Places.{at-entry, place-swapped, entry-in_ram}
use os_assignment.Libmem.Evict.{
  with_fifo, with_fifo-pgd, take_victim-run, get_entry-run, get_swap_frame-run, set_swap-run,
}
use os_assignment.Libmem.Running.{memory}

pub call_memmap-unknown :
    (s : Machine) (caller : ℕ) (regs : Regs)
    → find_caller s.procs s.sched (s.procs caller).pid ≡ 0
    → call_memmap caller regs s ≡ some (regs, s)
unfolding call_memmap syscall sys_memmap
call_memmap-unknown s caller regs unknown =
    bind-run (syscall (s.procs caller).pid 17 regs) (λ r. pure r.1) s (failure, regs) s
      (not_found (s.procs caller).pid unknown)
  where
    not_found :
        (pid : ℕ)
        → find_caller s.procs s.sched pid ≡ 0
        → sys_memmap pid regs s ≡ some ((failure, regs), s)
    not_found pid e = rw (sys_memmap, e) refl

module _ (s : Machine) (home : ℕ → List ℕ) (live : ℕ → Bool) (caller : ℕ) (xs : List ℕ) (v f g : ℕ)
    (rest : List ℕ) (c : IsConsistent (memory s) home live) (owner : live (pgd_of s caller) ≡ true)
    (unknown : find_caller s.procs s.sched (s.procs caller).pid ≡ 0)
    (oldest : (mm_of s caller).fifo_pgn ≡ xs ++ v ∷ []) (small : v < 2 ^ 45)
    (here : at s.heap (pgd_of s caller) v ≡ in_ram f) (first : s.mswp.free_fp_list ≡ g ∷ rest)
    (room : HasRoom s.heap.calloc 4 s.heap.blocks) where
  -- In a consistent state, for a caller that the system call does not find, with an oldest queued
  -- page in frame `f` of RAM, a first free frame `g` of the swap device, and room for the four tables
  -- that an entry may need: the eviction returns `f`, and the entry of the page says `g` then, while
  -- no byte of either device has changed.
  pub evict-unknown :
      (s' : Machine) × (evict caller s ≡ some (some f, s'))
      × (at s'.heap (pgd_of s caller) v ≡ in_swap g)
      × (s'.mswp.storage ≡ s.mswp.storage)
      × (s'.mram ≡ s.mram)
  unfolding evict
  evict-unknown =
      let pgd = pgd_of s caller in
      let (pte, read, word) = c.words pgd v (owner, small) in
      let (heap, set, (new, now, gone, out, offset, fits, u)) =
        pte_set_swap_lem s.heap home pgd v s.active_mswp_id g pte 0 c.forest (c.roots pgd owner)
          small (let count : 4 + 0 ≡ 4 = omega arith in room) read word in
      let frame : paging_fpn pte ≡ f =
        entry-in_ram pte f (sym (at-entry s.heap pgd v pte read) ∙ here) in
      let inside =
        (subst (λ fs. All (λ k. Fits (memory s) (in_swap k)) fs × Distinct fs) first
          c.free_swap).0.0 in
      let target : paging_swp new ≡ g = let low = inside.0 in omega arith in
      let s1 = with_fifo s caller xs in
      let same = ap (λ (m : Mm). m.pgd) (with_fifo-pgd s caller xs) in
      let s2 = record s1 { mswp = record s.mswp { free_fp_list = rest } } in
      let regs : Regs = record { a1 = sysmem_swp_op; a2 = paging_fpn pte; a3 = g } in
      let victim = ap find_victim_page oldest ∙ find_victim_page-oldest xs v in
      (
        record s2 { heap = heap },
        bind-run (take_victim caller) _ s (some v) s1 (take_victim-run s caller v xs victim)
            ∙ bind-run (get_entry caller v) _ s1 pte s1
                (get_entry-run s1 caller v pte (ap (λ d. pte_get_entry s.heap d v) same ∙ read))
            ∙ bind-run get_swap_frame _ s1 (some g) s2 (get_swap_frame-run s1 g rest first)
            ∙ bind-run (call_memmap caller regs) _ s2 regs s2
                (call_memmap-unknown s2 caller regs unknown)
            ∙ bind-run (set_swap caller v g) (λ w. pure (some (paging_fpn pte))) s2 tt
                (record s2 { heap = heap })
                (set_swap-run s2 caller v g heap
                  (ap (λ d. pte_set_swap s.heap d v s.active_mswp_id g) same ∙ set))
            ∙ ap (λ (k : ℕ). some (some k, record s2 { heap = heap })) frame,
        at-entry heap pgd v new now ∙ place-swapped new out ∙ ap in_swap target,
        refl,
        refl,
      )
