-- ===== src/Libmem/Keeps.antt =====
-- Paging leaves the process control blocks and the scheduler alone.
use os_assignment.Base.{ℕ, refl, none, some}
use os_assignment.Paging.{paging_pgn}
use os_assignment.Paging.Pte.{is_present, is_swapped, paging_fpn, paging_swp}
use os_assignment.Paging.Directory.{pte_get_entry, pte_set_fpn, pte_set_swap}
use os_assignment.Memphy.{get_freefp}
use os_assignment.Memphy.Copy.{swap_cp_page}
use os_assignment.Region.{failure, find_victim_page}
use os_assignment.Syscall.Memmap.{Regs, byte_arg, syscall}
use os_assignment.Syscall.Keeps.{syscall-Keeps}
use os_assignment.Machine.{Machine, ◌>>=◌, mm_of, pgd_of, pure}
use os_assignment.Machine.Keeps.{
  Keeps, bind-Keeps, option-Keeps, access-Keeps, branch-Keeps, choice-Keeps,
}
use os_assignment.Libmem.{
  get_entry, set_fpn, set_swap, get_ram_frame, get_swap_frame, put_swap_frame, take_victim,
  enlist_page, copy_in, call_memmap, evict, make_room, load_page, swap_in, resident, pg_getpage,
  phyaddr, pg_getval, pg_setval,
}

get_entry-Keeps : (caller pgn : ℕ) (s : Machine) → Keeps s (get_entry caller pgn s)
unfolding get_entry
get_entry-Keeps caller pgn s =
    option-Keeps s (pte_get_entry s.heap (pgd_of s caller) pgn) none _ tt (λ pte. (refl, refl))

set_fpn-Keeps : (caller pgn fpn : ℕ) (s : Machine) → Keeps s (set_fpn caller pgn fpn s)
unfolding set_fpn
set_fpn-Keeps caller pgn fpn s =
    option-Keeps s (pte_set_fpn s.heap (pgd_of s caller) pgn fpn) none _ tt (λ heap. (refl, refl))

set_swap-Keeps : (caller pgn off : ℕ) (s : Machine) → Keeps s (set_swap caller pgn off s)
unfolding set_swap
set_swap-Keeps caller pgn off s =
    option-Keeps s (pte_set_swap s.heap (pgd_of s caller) pgn s.active_mswp_id off) none _ tt
      (λ heap. (refl, refl))

get_ram_frame-Keeps : (s : Machine) → Keeps s (get_ram_frame s)
unfolding get_ram_frame
get_ram_frame-Keeps s = option-Keeps s (get_freefp s.mram) _ _ (refl, refl) (λ p. (refl, refl))

get_swap_frame-Keeps : (s : Machine) → Keeps s (get_swap_frame s)
unfolding get_swap_frame
get_swap_frame-Keeps s = option-Keeps s (get_freefp s.mswp) _ _ (refl, refl) (λ p. (refl, refl))

take_victim-Keeps : (caller : ℕ) (s : Machine) → Keeps s (take_victim caller s)
unfolding take_victim
take_victim-Keeps caller s =
    option-Keeps s (find_victim_page (mm_of s caller).fifo_pgn) _ _ (refl, refl) (λ p. (refl, refl))

copy_in-Keeps : (swpfpn fpn : ℕ) (s : Machine) → Keeps s (copy_in swpfpn fpn s)
unfolding copy_in
copy_in-Keeps swpfpn fpn s =
    access-Keeps s (swap_cp_page s.stale s.mswp swpfpn s.mram fpn) _ _ none (λ p. (refl, refl))
      (refl, refl) tt

pub call_memmap-Keeps :
    (caller : ℕ) (regs : Regs) (s : Machine) → Keeps s (call_memmap caller regs s)
unfolding call_memmap
call_memmap-Keeps caller regs s =
    bind-Keeps s (syscall (s.procs caller).pid 17 regs) (λ r. pure r.1)
      (syscall-Keeps (s.procs caller).pid 17 regs s) (λ r t. (refl, refl))

evict-Keeps : (caller : ℕ) (s : Machine) → Keeps s (evict caller s)
unfolding evict
evict-Keeps caller s = bind-Keeps s (take_victim caller) _ (take_victim-Keeps caller s) λ victim t1.
    choice-Keeps t1 victim (pure none) _ (refl, refl)
      λ vicpgn.
        bind-Keeps t1 (get_entry caller vicpgn) _ (get_entry-Keeps caller vicpgn t1) λ vicpte t2.
          bind-Keeps t2 get_swap_frame _ (get_swap_frame-Keeps t2) λ swap t3.
            choice-Keeps t3 swap (pure none) _ (refl, refl)
              λ off.
                bind-Keeps t3
                  (call_memmap caller (record { a1 = 3; a2 = paging_fpn vicpte; a3 = off })) _
                  (call_memmap-Keeps caller (record { a1 = 3; a2 = paging_fpn vicpte; a3 = off })
                    t3)
                  λ regs t4.
                    bind-Keeps t4 (set_swap caller vicpgn off) _
                      (set_swap-Keeps caller vicpgn off t4) λ u t5. (refl, refl)

make_room-Keeps : (caller : ℕ) (s : Machine) → Keeps s (make_room caller s)
unfolding make_room
make_room-Keeps caller s =
    bind-Keeps s get_ram_frame _ (get_ram_frame-Keeps s)
      λ free t. choice-Keeps t free (evict caller) _ (evict-Keeps caller t) λ fpn. (refl, refl)

load_page-Keeps : (caller pgn h f : ℕ) (s : Machine) → Keeps s (load_page caller pgn h f s)
unfolding load_page put_swap_frame enlist_page
load_page-Keeps caller pgn h f s = bind-Keeps s (copy_in h f) _ (copy_in-Keeps h f s) λ u t1.
    bind-Keeps t1 (put_swap_frame h) _ (refl, refl)
      λ u' t2.
        bind-Keeps t2 (set_fpn caller pgn f) (λ u''. enlist_page caller pgn >>= λ u'''. pure f)
          (set_fpn-Keeps caller pgn f t2)
          λ u'' t3.
            bind-Keeps t3 (enlist_page caller pgn) (λ u'''. pure f) (refl, refl)
              λ u''' t4. (refl, refl)

swap_in-Keeps : (caller pgn h : ℕ) (s : Machine) → Keeps s (swap_in caller pgn h s)
unfolding swap_in
swap_in-Keeps caller pgn h s =
    bind-Keeps s (make_room caller) _ (make_room-Keeps caller s) λ room t.
      choice-Keeps t room (pure none) _ (refl, refl)
        λ f.
          bind-Keeps t (load_page caller pgn h f) _ (load_page-Keeps caller pgn h f t)
            λ fpn t'. (refl, refl)

pub pg_getpage-Keeps : (caller pgn : ℕ) (s : Machine) → Keeps s (pg_getpage caller pgn s)
unfolding pg_getpage
pg_getpage-Keeps caller pgn s =
    bind-Keeps s (get_entry caller pgn) _ (get_entry-Keeps caller pgn s) λ pte t.
      branch-Keeps t (is_swapped pte) (swap_in caller pgn (paging_swp pte)) (resident pte)
        (swap_in-Keeps caller pgn (paging_swp pte) t)
        (branch-Keeps t (is_present pte) (pure (some (paging_fpn pte))) (pure none) (refl, refl)
          (refl, refl))

pub pg_getval-Keeps : (caller addr : ℕ) (s : Machine) → Keeps s (pg_getval caller addr s)
unfolding pg_getval
pg_getval-Keeps caller addr s =
    bind-Keeps s (pg_getpage caller (paging_pgn addr)) _
      (pg_getpage-Keeps caller (paging_pgn addr) s)
      λ page t.
        choice-Keeps t page (pure none) _ (refl, refl)
          λ f.
            bind-Keeps t (call_memmap caller (record { a1 = 4; a2 = phyaddr f addr; a3 = 0 })) _
              (call_memmap-Keeps caller (record { a1 = 4; a2 = phyaddr f addr; a3 = 0 }) t)
              λ regs t'. (refl, refl)

pub pg_setval-Keeps : (caller addr v : ℕ) (s : Machine) → Keeps s (pg_setval caller addr v s)
unfolding pg_setval
pg_setval-Keeps caller addr v s =
    bind-Keeps s (pg_getpage caller (paging_pgn addr)) _
      (pg_getpage-Keeps caller (paging_pgn addr) s)
      λ page t.
        choice-Keeps t page (pure failure) _ (refl, refl)
          λ f.
            bind-Keeps t
              (call_memmap caller (record { a1 = 5; a2 = phyaddr f addr; a3 = byte_arg v })) _
              (call_memmap-Keeps caller (record { a1 = 5; a2 = phyaddr f addr; a3 = byte_arg v }) t)
              λ regs t'. (refl, refl)
