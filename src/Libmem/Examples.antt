-- ===== src/Libmem/Examples.antt =====
-- The operations on the process with two pages: accesses to page 1, which evict page 0.
use os_assignment.Base.{none, ◌≢◌, ◌+◌, ◌≡◌, ◌⊎◌, refl, arith, [], some, replicate}
use os_assignment.Queue.{no_procs}
use os_assignment.Paging.Directory.Descent.{HasRoom}
use os_assignment.Region.{get_free_vmrg_area, success, entry, get_symrg_byid}
use os_assignment.Syscall.{find_caller, find_proc, find_from}
use os_assignment.Machine.{mm_of, Machine}
use os_assignment.Libmem.Layout.{in_swap, at}
use os_assignment.Libmem.Fault.{PageCases, pg_getpage_lem}
use os_assignment.Libmem.Bytes.{GetCases, pg_getval_lem, SetCases, pg_setval_lem}
use os_assignment.Libmem.{evict}
use os_assignment.Libmem.Regions.{alloc_region, liballoc, libfree}
use os_assignment.Libmem.Unmapped.{alloc_region-unmapped}
use os_assignment.Libmem.Lost.{evict-unknown}
use os_assignment.Libmem.Reuse.{libfree-liballoc}
use os_assignment.Libmem.RoundTrip.{IsUnreachable, IsReadBack, IsUnwritten, pg_setval-pg_getval}
use os_assignment.Libmem.Running.{HasRoom-less}
use os_assignment.Libmem.TwoPages.{
  device, live, heap2, homes2, two_pages-IsConsistent, page_0-at, one_process, one_running,
  two_pages, two_pages-IsRunning, room,
}

pg_getpage_example :
    PageCases two_pages homes2 live 5 1 8 two_pages-IsConsistent two_pages-IsRunning
      (omega arith)
      room
pg_getpage_example =
    pg_getpage_lem two_pages homes2 live 5 1 8 two_pages-IsConsistent two_pages-IsRunning
      (omega arith) room

pg_getval_example :
    GetCases two_pages homes2 live 5 8 two_pages-IsConsistent two_pages-IsRunning room 261
pg_getval_example =
    pg_getval_lem two_pages homes2 live 5 8 two_pages-IsConsistent two_pages-IsRunning room 261

pg_setval_example :
    SetCases two_pages homes2 live 5 8 two_pages-IsConsistent two_pages-IsRunning room 261 200
pg_setval_example =
    pg_setval_lem two_pages homes2 live 5 8 two_pages-IsConsistent two_pages-IsRunning room 261 200

pg_setval-pg_getval_test :
    IsUnreachable two_pages homes2 live 5 261 200 0 two_pages-IsConsistent two_pages-IsRunning room
    ⊎ (IsReadBack two_pages homes2 live 5 261 200 0 two_pages-IsConsistent two_pages-IsRunning room
        ⊎ IsUnwritten two_pages homes2 live 5 261 200 0 two_pages-IsConsistent two_pages-IsRunning
            room)
pg_setval-pg_getval_test =
    pg_setval-pg_getval two_pages homes2 live 5 261 200 0 two_pages-IsConsistent two_pages-IsRunning
      room

-- The same process before it was put back to a queue for the first time.
abbrev first_slice : Machine
first_slice = record two_pages { sched = record one_running { running_list = no_procs } }

five_unknown : find_caller one_process first_slice.sched 5 ≡ 0
unfolding find_caller find_proc find_from
five_unknown = refl

four_tables : HasRoom heap2.calloc 4 heap2.blocks
four_tables =
    HasRoom-less heap2.calloc 4 heap2.blocks
      (HasRoom-less heap2.calloc 8 heap2.blocks (HasRoom-less heap2.calloc 12 heap2.blocks room))

evict-unknown_example :
    (s' : Machine) × (evict 5 first_slice ≡ some (some 0, s'))
    × (at s'.heap 7 0 ≡ in_swap 1)
    × (s'.mswp.storage ≡ replicate 512 0)
    × (s'.mram ≡ device 256 [])
evict-unknown_example =
    evict-unknown first_slice homes2 live 5 [] 0 0 1 [] two_pages-IsConsistent refl five_unknown
      refl (omega arith) page_0-at refl four_tables

libfree-liballoc_example :
    (s' s'' : Machine) × (libfree 5 0 two_pages ≡ some (success, s'))
    × (liballoc 5 100 3 s' ≡ some (success, s''))
    × (get_symrg_byid (mm_of s'' 5) 3 ≡ entry (record { rg_start = 256; rg_end = 256 + 100 }))
libfree-liballoc_example =
    libfree-liballoc two_pages 5 0 3 100
      (record { vm_id = 0; vm_start = 0; vm_end = 512; sbrk = 512; vm_freerg_list = [] }) []
      (λ e. omega arith) refl refl (omega arith) (omega arith) (omega arith) (omega arith)
      (record { ordered = omega arith; user = omega arith }) (omega arith)

alloc_region-unmapped_example :
    ((find_caller one_process first_slice.sched 5 ≢ 0)
      × (alloc_region 5 0 3 300 first_slice ≡ none))
    ⊎ ((find_caller one_process first_slice.sched 5 ≡ 0)
        × ((s' : Machine) × (alloc_region 5 0 3 300 first_slice ≡ some (some 512, s'))
            × (s'.heap ≡ heap2)
            × (s'.mram ≡ device 256 [])))
unfolding get_free_vmrg_area
alloc_region-unmapped_example =
    alloc_region-unmapped first_slice 5 3 300
      (record { vm_id = 0; vm_start = 0; vm_end = 512; sbrk = 512; vm_freerg_list = [] }) [] refl
      (λ e. omega arith) (omega arith) (omega arith) refl refl
