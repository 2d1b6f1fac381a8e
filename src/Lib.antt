-- ===== src/Lib.antt =====
-- A model of the operating system simulator in os_lamiaatrium/: its scheduler, its paging and its
-- memory management, in the configuration of include/os-cfg.h (MLQ_SCHED, MM_PAGING and MM64 are
-- defined, CONFIG64 is not). Paths below are relative to os_lamiaatrium/.
--
-- The simulator loads processes, puts them into the queues of the scheduler, and CPU threads take
-- processes from there and run their instructions. Instructions on memory go through the page
-- directory of the process to frames of a RAM device, with a swap device behind it.
--
-- Parts, by file:
-- - Base: the library names and lemmas that all files share; Base.Masks is include/bitops.h and the
--   value macros of include/mm.h.
-- - Process: the process control block and the instructions of include/common.h.
-- - Loader: get_opcode of src/loader.c.
-- - Queue: src/queue.c, with include/queue.h. Queue.Array is the view of the array as a list.
-- - Sched: src/sched.c. The state has the static variables of the file and of get_mlq_proc. The calls
--   that get, put and add a process hold queue_lock while they use the queues, so an interleaving of
--   threads is a sequence of these calls.
-- - Paging: the constants of include/mm.h and include/mm64.h. Paging.Pte is the 32-bit page table
--   entry with init_pte; Paging.Address splits addresses and page numbers (get_pd_from_address,
--   get_pd_from_pagenum); Paging.Directory is the five-level directory of src/mm64.c
--   (get_next_level_table64 and -32, pte_set_fpn, pte_set_swap, pte_set_entry, pte_get_entry).
-- - Memphy: src/mm-memphy.c, with MEMPHY_dump in Memphy.Dump; in Memphy.Copy the function
--   __swap_cp_page of src/mm64.c.
-- - Frames: alloc_pages_range of src/mm64.c.
-- - Region: the regions, areas and lists of include/os-mm.h with the operations of src/libmem.c,
--   src/mm-vm.c and src/mm64.c on them: get_vma_by_num, get_symrg_byid, find_victim_page,
--   get_free_vmrg_area, enlist_*; Region.Area has validate_overlap_vm_area and
--   get_vm_area_node_at_brk, Region.Symbols has __free.
-- - Mapping: vmap_pgd_memset, vmap_page_range, vm_map_ram and init_mm of src/mm64.c, and in
--   Mapping.Limit inc_vma_limit of src/mm-vm.c.
-- - Machine: the state that the parts of the kernel share, struct krnl_t of include/common.h with the
--   processes, the structures mm_struct and the page tables, and the steps on it.
-- - Syscall: the search of the caller in __sys_memmap of src/sys_mem.c; in Syscall.Memmap its
--   operations, the dispatch of src/syscall.c and libsyscall of src/libstd.c.
-- - Libmem: pg_getpage, pg_getval, pg_setval and free_pcb_memph of src/libmem.c, and in
--   Libmem.Regions __alloc, __free, __read and __write with the four calls of the instructions.
--   Libmem.Layout says what a consistent state of tables and devices is: every page of every page
--   directory is in a frame of its own that is not free, or in none.
-- - Cpu: run of src/cpu.c.
-- - Os: the loop of cpu_routine of src/os.c, turn by turn, and in Os.Jobs that of ld_routine.
-- - Timer: src/timer.c as a relation of steps, one for what a thread does under one lock,
--   with stop_timer.
-- - Legacy: src/mem.c, which is obsolete, and the functions of src/cpu.c on it.
--
-- Instructions go from Cpu to Libmem, from there to the page tables and, by a system call, to the
-- devices; a turn of Os takes a process from Sched, lets Cpu run one instruction, and ends with a call
-- of next_slot, on which Timer makes the threads wait for each other. The lock mmvm_lock of
-- src/libmem.c makes an operation one step of the machine.
--
-- Conventions. A pointer to a process or to a table is an address, a natural number, and NULL is 0;
-- linked lists are lists. Numbers are natural numbers, and where the source wraps around, % 2 ^ w
-- is written out. An access that C leaves undefined, such as one outside an array or through NULL,
-- is a result of its own (none, or fault). Return codes are data types. An operation on the machine
-- is a function from a state to a result and a state, written in do blocks.
--
-- Loops of the source are recursions on the number of rounds that are left: 140 rounds in
-- get_mlq_proc, the size of the queue or of the list elsewhere, 256 in the copy of a page. No fuel
-- is chosen beyond the bounds that the loops have themselves.
--
-- The page directory stands on calloc of the C library, which is a field of the heap: it is assumed
-- to return NULL or a new address of at most 48 bits (IsCalloc). Page numbers are taken below
-- 2 ^ 45, the range of five levels of nine bits.
--
-- The caller of a system call is the process that the search finds; that it is the caller of the
-- library is a condition (IsRunning), which a process meets once it was put back to a queue. The
-- address of a byte is taken modulo 2 ^ 32 where the source passes it as an int. src/sys_mem.c
-- includes include/os-mm.h before include/os-cfg.h defines MM64: there an addr_t has 4 bytes, caller->krnl
-- is read from a register of the process (caller_krnl), and addresses are passed on with 32 bits
-- (short_addr). What that register holds is part of the state.
--
-- Not modelled: main and read_config of src/os.c, which create threads and read a file, load of
-- src/loader.c for the same reason; printing; src/mm.c, which the configuration leaves
-- out; init_mem and dump of src/mem.c. The threads of src/os.c are modelled one by one, not together.
pub mod Base
pub mod Process
pub mod Loader
pub mod Queue
pub mod Sched
pub mod Paging
pub mod Memphy
pub mod Frames
pub mod Region
pub mod Mapping
pub mod Syscall
pub mod Machine
pub mod Libmem
pub mod Cpu
pub mod Os
pub mod Timer
pub mod Legacy
