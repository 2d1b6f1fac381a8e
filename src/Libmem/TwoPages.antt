-- ===== src/Libmem/TwoPages.antt =====
-- A process with two pages: page 0 is in the only frame of RAM, page 1 in frame 0 of a swap device
-- with two frames. An access to page 1 evicts page 0.
use os_assignment.Base.{
  ℕ, ◌+◌, ◌*◌, ◌≡◌, ◌≢◌, inl, inr, refl, sym, ap, subst, ◌∙◌, arith, List, [], ◌∷◌, Option, none,
  some, Bool, true, ◌==◌, replicate, get_or-replicate,
}
use os_assignment.Process.{Store}
use os_assignment.Queue.{no_procs}
use os_assignment.Sched.{Sched}
use os_assignment.Paging.Pte.{paging_fpn, paging_swp}
use os_assignment.Paging.Directory.{Heap, pte_get_entry, pte_set_fpn, pte_set_swap}
use os_assignment.Paging.Directory.Forest.{IsRoot}
use os_assignment.Paging.Directory.Descent.{HasRoom}
use os_assignment.Paging.Directory.Entries.{
  IsMapped, IsSwappedOut, pte_set_fpn_lem, pte_set_swap_lem,
}
use os_assignment.Paging.Directory.Bare.{
  bare, self, bare-IsForest, bare-IsRoot, bare-room, bare-entry,
}
use os_assignment.Memphy.{Memphy}
use os_assignment.Region.{Rg, Mm}
use os_assignment.Syscall.{find_caller, find_proc, find_from}
use os_assignment.Machine.{Machine}
use os_assignment.Libmem.Layout.{
  Place, in_ram, in_swap, nowhere, Memory, at, byte, Fits, IsTaken, IsPage, IsConsistent, IsLoose,
}
use os_assignment.Libmem.Places.{
  place-zero, at-entry, place-swapped, place-present, in_ram-ne-nowhere, in_swap-ne-nowhere,
  in_ram-ne-in_swap,
}
use os_assignment.Libmem.Move.{IsRefilled, IsMoved, moved-cases, at_others, moved-IsConsistent}
use os_assignment.Libmem.Running.{IsRunning}

abbrev pub device : ℕ → List ℕ → Memphy
device size free = record {
  storage = replicate size 0;
  maxsz = size;
  rdmflg = 1;
  cursor = 0;
  free_fp_list = free;
}

abbrev pub live : ℕ → Bool
live r = r == 7

abbrev pub heap_or_bare : Option Heap → Heap
heap_or_bare none = bare
heap_or_bare (some h) = h

abbrev pub heap1 : Heap
heap1 = heap_or_bare (pte_set_fpn bare 7 0 0)

abbrev pub heap2 : Heap
heap2 = heap_or_bare (pte_set_swap heap1 7 1 0 0)

abbrev pub with_heap : Heap → Memory
with_heap h = record { heap = h; mram = device 256 []; mswp = device 512 (1 ∷ []) }

pub is_seven : (r q : ℕ) → IsPage live r q → r ≡ 7
is_seven r q (l, small) = ground arith

pub bare-at : (r q : ℕ) → IsPage live r q → at bare r q ≡ nowhere
bare-at r q p =
    ap (λ a. at bare a q) (is_seven r q p) ∙ at-entry bare 7 q 0 (bare-entry q) ∙ place-zero

pub bare-IsConsistent : IsConsistent (with_heap bare) self live
bare-IsConsistent = record {
  forest = bare-IsForest;
  roots = λ r l. let e : 7 ≡ r = ground arith in subst (IsRoot bare self) e bare-IsRoot;
  random_ram = λ e. omega arith;
  random_swap = λ e. omega arith;
  words =
      λ r q p. (0, ap (λ a. pte_get_entry bare a q) (is_seven r q p) ∙ bare-entry q, omega arith);
  fits = λ r q p. subst (Fits (with_heap bare)) (sym (bare-at r q p)) tt;
  taken = λ r q p. subst (IsTaken (with_heap bare)) (sym (bare-at r q p)) tt;
  alone = λ r q r' q' p p' e real. absurd (real (bare-at r q p));
  free_ram = (tt, tt);
  free_swap = (((omega arith, omega arith), tt), (tt, tt));
}

pub ram-IsLoose : IsLoose (with_heap bare) live (in_ram 0)
ram-IsLoose = record {
  fits = (omega arith, omega arith);
  taken = tt;
  real = in_ram-ne-nowhere;
  unused = λ r q p e. in_ram-ne-nowhere (sym e ∙ bare-at r q p);
}

pub unchanged : (mp : Memphy) → IsRefilled mp mp
unchanged mp = record { size = refl; random = refl; frames = refl }

-- Frames are full of zeros, and so are pages that are nowhere.
pub same_bytes :
    (h h' : Heap) (x : Place) (i : ℕ) → byte (with_heap h') x i ≡ byte (with_heap h) x i
same_bytes h h' (in_ram f) i = refl
same_bytes h h' (in_swap f) i = refl
same_bytes h h' nowhere i = refl

pub zero_bytes : (h : Heap) (x : Place) (i : ℕ) → byte (with_heap h) x i ≡ 0
zero_bytes h (in_ram f) i = get_or-replicate 256 0 (f * 256 + i)
zero_bytes h (in_swap f) i = get_or-replicate 512 0 (f * 256 + i)
zero_bytes h nowhere i = refl

pub heap1-IsMapped : IsMapped bare self 7 0 0 20 heap1
heap1-IsMapped =
    let (h', e, u) =
      pte_set_fpn_lem bare self 7 0 0 0 20 bare-IsForest bare-IsRoot (omega arith)
        (bare-room 24 (omega arith)) (bare-entry 0) (omega arith) in
    subst (IsMapped bare self 7 0 0 20) (sym (ap heap_or_bare e)) u

abbrev pub homes1 : ℕ → List ℕ
homes1 = heap1-IsMapped.6.homes

pub page_0-IsMoved : IsMoved (with_heap bare) live 7 0 (in_ram 0) (with_heap heap1) homes1
page_0-IsMoved =
    let (new, now, there, out, frame, fits, u) = heap1-IsMapped in
    record {
      forest = heap1-IsMapped.6.forest;
      roots = λ d l. heap1-IsMapped.6.roots d (bare-IsConsistent.roots d l);
      word = (new, now, fits);
      at_self =
          at-entry heap1 7 0 new now
          ∙ place-present new out there
          ∙ ap in_ram (let same : paging_fpn new ≡ 0 = omega arith in same);
      others = λ r q p apart. heap1-IsMapped.6.others r q (bare-IsConsistent.roots r p.0) p.1 apart;
      byte_self = λ i small. zero_bytes heap1 (in_ram 0) i ∙ sym (zero_bytes bare (at bare 7 0) i);
      byte_others = λ x i apart small. same_bytes bare heap1 x i;
      ram = unchanged (device 256 []);
      swap = unchanged (device 512 (1 ∷ []));
    }

pub heap1-IsConsistent : IsConsistent (with_heap heap1) homes1 live
heap1-IsConsistent =
    moved-IsConsistent (with_heap bare) self live 7 0 (in_ram 0) (with_heap heap1) homes1
      bare-IsConsistent ram-IsLoose (refl, omega arith) page_0-IsMoved

pub page_1-nowhere : at heap1 7 1 ≡ nowhere
page_1-nowhere =
    at_others (with_heap bare) self live 7 0 (in_ram 0) (with_heap heap1) homes1 bare-IsConsistent
      ram-IsLoose (refl, omega arith) page_0-IsMoved 7 1 (refl, omega arith)
      (inr (λ e. omega arith))
    ∙ bare-at 7 1 (refl, omega arith)

pub heap1-at : (r q : ℕ) → IsPage live r q → at heap1 r q ≢ in_swap 0
heap1-at r q p e =
    elim (moved-cases (with_heap bare) self live 7 0 (in_ram 0) (with_heap heap1) homes1
      bare-IsConsistent ram-IsLoose (refl, omega arith) page_0-IsMoved r q p) [
        | inl (same, same', there) ↦ in_ram-ne-in_swap (sym there ∙ e)
        | inr (apart, there) ↦ in_swap-ne-nowhere (sym e ∙ there ∙ bare-at r q p)
      ]

pub swap-IsLoose : IsLoose (with_heap heap1) live (in_swap 0)
swap-IsLoose = record {
  fits = (omega arith, omega arith);
  taken = ((λ e. omega arith), tt);
  real = in_swap-ne-nowhere;
  unused = heap1-at;
}

pub heap2-IsSwappedOut : IsSwappedOut heap1 homes1 7 1 0 0 16 heap2
heap2-IsSwappedOut =
    let (old, read, word) = heap1-IsConsistent.words 7 1 (refl, omega arith) in
    let (h', e, u) =
      pte_set_swap_lem heap1 homes1 7 1 0 0 old 16 heap1-IsConsistent.forest
        (heap1-IsConsistent.roots 7 refl) (omega arith) heap1-IsMapped.6.room read word in
    subst (IsSwappedOut heap1 homes1 7 1 0 0 16) (sym (ap heap_or_bare e)) u

abbrev pub homes2 : ℕ → List ℕ
homes2 = heap2-IsSwappedOut.6.homes

pub page_1-IsMoved : IsMoved (with_heap heap1) live 7 1 (in_swap 0) (with_heap heap2) homes2
page_1-IsMoved =
    let (new, now, gone, out, offset, fits, u) = heap2-IsSwappedOut in
    record {
      forest = heap2-IsSwappedOut.6.forest;
      roots = λ d l. heap2-IsSwappedOut.6.roots d (heap1-IsConsistent.roots d l);
      word = (new, now, fits);
      at_self =
          at-entry heap2 7 1 new now
          ∙ place-swapped new out
          ∙ ap in_swap (let same : paging_swp new ≡ 0 = omega arith in same);
      others =
          λ r q p apart. heap2-IsSwappedOut.6.others r q (heap1-IsConsistent.roots r p.0) p.1 apart;
      byte_self =
          λ i small. zero_bytes heap2 (in_swap 0) i ∙ sym (zero_bytes heap1 (at heap1 7 1) i);
      byte_others = λ x i apart small. same_bytes heap1 heap2 x i;
      ram = unchanged (device 256 []);
      swap = unchanged (device 512 (1 ∷ []));
    }

pub two_pages-IsConsistent : IsConsistent (with_heap heap2) homes2 live
two_pages-IsConsistent =
    moved-IsConsistent (with_heap heap1) homes1 live 7 1 (in_swap 0) (with_heap heap2) homes2
      heap1-IsConsistent swap-IsLoose (refl, omega arith) page_1-IsMoved

pub page_0-at : at heap2 7 0 ≡ in_ram 0
page_0-at =
    at_others (with_heap heap1) homes1 live 7 1 (in_swap 0) (with_heap heap2) homes2
      heap1-IsConsistent swap-IsLoose (refl, omega arith) page_1-IsMoved 7 0 (refl, omega arith)
      (inr (λ e. omega arith))
    ∙ page_0-IsMoved.at_self

-- Process 5 has its structure at 3, and the region of symbol 0 is page 1.
abbrev pub one_process : Store
one_process p = record {
  pid = 5;
  priority = 0;
  code = [];
  regs = replicate 10 0;
  pc = 0;
  prio = 0;
  bp = 0;
  mm = 3;
}

abbrev pub one_running : Sched
one_running = record {
  mlq_ready_queue = replicate 140 no_procs;
  slot = replicate 140 1;
  cur_prio = 0;
  used_slot = 0;
  ready_queue = no_procs;
  run_queue = no_procs;
  running_list = record { proc = 5 ∷ replicate 49 0; size = 1 };
  krnl_linked = true;
}

abbrev pub second_page : Rg
second_page = record { rg_start = 256; rg_end = 512 }

abbrev pub two_page_mm : Mm
two_page_mm = record {
  pgd = 7;
  p4d = 0;
  pud = 0;
  pmd = 0;
  pt = 0;
  mmap = (record { vm_id = 0; vm_start = 0; vm_end = 512; sbrk = 512; vm_freerg_list = [] }) ∷ [];
  symrgtbl = second_page ∷ replicate 29 (record { rg_start = 0; rg_end = 0 });
  fifo_pgn = 0 ∷ [];
}

abbrev pub two_pages : Machine
two_pages = record {
  procs = one_process;
  sched = one_running;
  mms = λ a. two_page_mm;
  heap = heap2;
  krnl = 4096;
  krnl_mm = 0;
  mram = device 256 [];
  mswp = device 512 (1 ∷ []);
  active_mswp_id = 0;
  stale = 0;
}

pub five_known : find_caller one_process one_running 5 ≡ 5
unfolding find_caller find_proc find_from
five_known = refl

pub two_pages-IsRunning : IsRunning two_pages live 5
two_pages-IsRunning = record {
  known = five_known;
  real = λ e. omega arith;
  owner = refl;
  queued = ((omega arith, (0, page_0-at)), tt);
  once = (tt, tt);
}

-- The addresses of page 1 and the tables that can still be allocated.
abbrev pub room : HasRoom heap2.calloc 16 heap2.blocks
room = heap2-IsSwappedOut.6.room
