-- ===== src/Libmem.antt =====
-- How a process reaches its memory: src/libmem.c. `pg_getpage` brings a page into RAM, swapping
-- another one out if need be; `pg_getval` and `pg_setval` access one byte through a system call.
-- A result `none` of an operation is the return code -1. Printing is left out.
pub mod Regions
pub mod Keeps
pub mod Layout
pub mod TwoPages
mod Examples
pub mod Move
pub mod Pool
pub mod Copied
pub mod Evict
pub mod Stored
pub mod Bytes
pub mod RoundTrip
pub mod Reuse
pub mod Lost
pub mod Unmapped
pub mod Fault
pub mod Load
pub mod Evicted
pub mod Places
pub mod Running
use os_assignment.Base.{
  ℕ, zero, suc, ◌+◌, ◌*◌, ◌%◌, ◌^◌, List, Option, none, some, ◌==◌, ◌&&◌, not, if◌then◌else◌,
}
use os_assignment.Process.{Pcb}
use os_assignment.Paging.{paging_pgn, paging_offst}
use os_assignment.Paging.Pte.{is_present, is_swapped, paging_fpn, paging_swp}
use os_assignment.Paging.Directory.{pte_get_entry, pte_set_fpn, pte_set_swap}
use os_assignment.Memphy.{Access, done, refused, fault, get_freefp, put_freefp}
use os_assignment.Memphy.Copy.{swap_cp_page}
use os_assignment.Region.{Code, success, failure, find_victim_page, enlist_pgn_node}
use os_assignment.Machine.{Machine, Kernel, ◌>>=◌, ◌>>◌, pure, gets, mm_of, pgd_of, put_mm}
use os_assignment.Syscall.Memmap.{
  Regs, sysmem_swp_op, sysmem_io_read, sysmem_io_write, byte_arg, syscall,
}

-- pte_get_entry(caller, pgn).
unfoldable pub get_entry : ℕ → ℕ → Kernel ℕ
get_entry caller pgn s = elim (pte_get_entry s.heap (pgd_of s caller) pgn) [
  | none ↦ none
  | some pte ↦ some (pte, s)
]

unfoldable pub set_fpn : ℕ → ℕ → ℕ → Kernel (Unit {0})
set_fpn caller pgn fpn s = elim (pte_set_fpn s.heap (pgd_of s caller) pgn fpn) [
  | none ↦ none
  | some heap ↦ some (tt, record s { heap = heap })
]

-- The swap type is the number of the active device.
unfoldable pub set_swap : ℕ → ℕ → ℕ → Kernel (Unit {0})
set_swap caller pgn swpoff s =
    elim (pte_set_swap s.heap (pgd_of s caller) pgn s.active_mswp_id swpoff) [
      | none ↦ none
      | some heap ↦ some (tt, record s { heap = heap })
    ]

-- MEMPHY_get_freefp of the RAM and of the active swap device.
unfoldable pub get_ram_frame : Kernel (Option ℕ)
get_ram_frame s = elim (get_freefp s.mram) [
  | none ↦ some (none, s)
  | some (fpn, mram) ↦ some (some fpn, record s { mram = mram })
]

unfoldable pub get_swap_frame : Kernel (Option ℕ)
get_swap_frame s = elim (get_freefp s.mswp) [
  | none ↦ some (none, s)
  | some (fpn, mswp) ↦ some (some fpn, record s { mswp = mswp })
]

unfoldable pub put_swap_frame : ℕ → Kernel (Unit {0})
put_swap_frame fpn s = some (tt, record s { mswp = put_freefp s.mswp fpn })

-- find_victim_page(mm, &vicpgn), where `mm` is that of the caller.
unfoldable pub take_victim : ℕ → Kernel (Option ℕ)
take_victim caller s = elim (find_victim_page (mm_of s caller).fifo_pgn) [
  | none ↦ some (none, s)
  | some (vicpgn, rest) ↦
      some (some vicpgn, put_mm s (s.procs caller).mm (record (mm_of s caller) { fifo_pgn = rest }))
]

unfoldable pub enlist_page : ℕ → ℕ → Kernel (Unit {0})
enlist_page caller pgn s = some (
  tt,
  put_mm s (s.procs caller).mm
      (record (mm_of s caller) { fifo_pgn = enlist_pgn_node (mm_of s caller).fifo_pgn pgn }),
)

-- __swap_cp_page(active_mswp, swpfpn, mram, fpn).
unfoldable pub copy_in : ℕ → ℕ → Kernel (Unit {0})
copy_in swpfpn fpn s = elim (swap_cp_page s.stale s.mswp swpfpn s.mram fpn) [
  | fault ↦ none
  | refused ↦ some (tt, s)
  | done (mswp, mram) ↦ some (tt, record s { mswp = mswp; mram = mram })
]

-- A system call whose return code is not looked at; the registers that it leaves.
unfoldable pub call_memmap : ℕ → Regs → Kernel Regs
unfolding syscall
call_memmap caller regs = do
  pid ← gets (λ s. (s.procs caller).pid)
  r ← syscall pid 17 regs
  pure r.1

-- The block of `pg_getpage` that is run when RAM has no free frame: the frame of the victim.
unfoldable pub evict : ℕ → Kernel (Option ℕ)
evict caller = do
  victim ← take_victim caller
  elim victim [
    | none ↦ pure none
    | some vicpgn ↦ do
      vicpte ← get_entry caller vicpgn
      swap ← get_swap_frame
      elim swap [
        | none ↦ pure none
        | some vic_swpfpn ↦ do
          regs ←
              call_memmap caller
                (record { a1 = sysmem_swp_op; a2 = paging_fpn vicpte; a3 = vic_swpfpn })
          set_swap caller vicpgn vic_swpfpn
          pure (some (paging_fpn vicpte))
      ]
  ]

-- A free frame of RAM, or the frame of a victim.
unfoldable pub make_room : ℕ → Kernel (Option ℕ)
unfolding evict
make_room caller = do
  free ← get_ram_frame
  elim free [ some newfpn ↦ pure (some newfpn) | none ↦ evict caller ]

-- The end of `pg_getpage`: the page is copied from the swap device to the frame.
unfoldable pub load_page : ℕ → ℕ → ℕ → ℕ → Kernel ℕ
load_page caller pgn req_swpfpn newfpn = do
  copy_in req_swpfpn newfpn
  put_swap_frame req_swpfpn
  set_fpn caller pgn newfpn
  enlist_page caller pgn
  pure newfpn

-- The page is swapped out, and the swap device has it in frame `req_swpfpn`.
unfoldable pub swap_in : ℕ → ℕ → ℕ → Kernel (Option ℕ)
unfolding make_room load_page
swap_in caller pgn req_swpfpn = do
  room ← make_room caller
  elim room [
    | none ↦ pure none
    | some newfpn ↦ do fpn ← load_page caller pgn req_swpfpn newfpn; pure (some fpn)
  ]

-- The page is not swapped out: it is in RAM, or there is no such page.
abbrev pub resident : ℕ → Kernel (Option ℕ)
resident pte = if is_present pte then pure (some (paging_fpn pte)) else pure none

unfoldable pub pg_getpage : ℕ → ℕ → Kernel (Option ℕ)
unfolding swap_in
pg_getpage caller pgn = do
  pte ← get_entry caller pgn
  if is_swapped pte then swap_in caller pgn (paging_swp pte) else resident pte

-- The address of a byte in RAM; `addr` is an `int`, and only its low 22 bits count.
abbrev pub phyaddr : ℕ → ℕ → ℕ
phyaddr fpn addr = fpn * 2 ^ 8 + paging_offst addr

unfoldable pub pg_getval : ℕ → ℕ → Kernel (Option ℕ)
unfolding pg_getpage call_memmap
pg_getval caller addr = do
  page ← pg_getpage caller (paging_pgn addr)
  elim page [
    | none ↦ pure none
    | some fpn ↦ do
      regs ← call_memmap caller (record { a1 = sysmem_io_read; a2 = phyaddr fpn addr; a3 = 0 })
      pure (some (regs.a3 % 256))
  ]

-- `value` is a BYTE, given as its bit pattern; the register holds it with its sign.
unfoldable pub pg_setval : ℕ → ℕ → ℕ → Kernel Code
unfolding pg_getpage call_memmap
pg_setval caller addr value = do
  page ← pg_getpage caller (paging_pgn addr)
  elim page [
    | none ↦ pure failure
    | some fpn ↦ do
      regs ←
          call_memmap caller
            (record { a1 = sysmem_io_write; a2 = phyaddr fpn addr; a3 = byte_arg value })
      pure success
  ]

-- The loop of `free_pcb_memph` from page `pagenum` with the rounds that are left.
unfoldable pub free_pages_from : ℕ → ℕ → ℕ → Kernel (Unit {0})
free_pages_from zero pagenum caller s = some (tt, s)
free_pages_from (suc left) pagenum caller s =
    elim (pte_get_entry s.heap (pgd_of s caller) pagenum) [
      | none ↦ none
      | some pte ↦ free_pages_from left (pagenum + 1) caller (
          if pte == 0
          then s
          else (if is_present pte && not (is_swapped pte)
              then record s { mram = put_freefp s.mram (paging_fpn pte) }
              else (if is_swapped pte
                  then record s { mswp = put_freefp s.mswp (paging_swp pte) }
                  else s)))
    ]

-- PAGING64_MAX_PGN is 512.
unfoldable pub free_pcb_memph : ℕ → Kernel (Unit {0})
unfolding free_pages_from
free_pcb_memph caller = free_pages_from 512 0 caller
