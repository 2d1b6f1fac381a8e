-- ===== src/Libmem/Bytes.antt =====
-- `pg_getval` and `pg_setval`: the pages of a process as an array of bytes, wherever they are, and
-- the system calls of src/sys_mem.c that look for the kernel structure in a register.
use os_assignment.Base.{
  ℕ, ◌+◌, ◌*◌, ◌%◌, ◌^◌, ◌<◌, ◌≡◌, ◌≢◌, ◌⊎◌, inl, inr, sym, ap, subst, ◌∙◌, arith, List, none, some,
  Bool, get_or,
}
use native.Mathlib.Decide.{ℕ_discrete}
use os_assignment.Base.Masks.{bit_and_field}
use os_assignment.Process.{Store}
use os_assignment.Paging.{paging_pgn, paging_offst}
use os_assignment.Paging.Directory.Descent.{HasRoom}
use os_assignment.Memphy.Laws.{stored}
use os_assignment.Region.{success, failure}
use os_assignment.Syscall.Memmap.{Regs, sysmem_io_read, sysmem_io_write, byte_arg, caller_krnl}
use os_assignment.Syscall.Calls.{io_read-run, io_write-run, io_read-none, io_write-none}
use os_assignment.Machine.{Machine, Kernel, mm_of, pgd_of, bind-run, bind-none}
use os_assignment.Libmem.{call_memmap, pg_getpage, phyaddr, pg_getval, pg_setval}
use os_assignment.Libmem.Layout.{
  in_ram, in_swap, nowhere, at, byte, content, Fits, IsPage, IsConsistent,
}
use os_assignment.Libmem.Evict.{call_memmap-run, call_memmap-none}
use os_assignment.Libmem.Evicted.{same-IsKept}
use os_assignment.Libmem.Fault.{IsFull, pg_getpage_lem}
use os_assignment.Libmem.Stored.{IsStored, after-IsConsistent, after-IsStored}
use os_assignment.Libmem.Running.{memory, IsRunning, IsKept, HasRoom-less}

pub offst-small : (addr : ℕ) → paging_offst addr < 256
offst-small addr = omega (arith, bit_and_field 0 8 addr)

pub pgn-small : (addr : ℕ) → paging_pgn addr < 2 ^ 45
pgn-small addr = omega (arith, bit_and_field 8 14 addr)

byte_arg-low : (v : ℕ) → byte_arg v % 256 ≡ v % 256
byte_arg-low v = ground arith

-- `s'` is a good state with the byte written, and its page in frame `f` of RAM.
pub record IsByteSet (s : Machine) (live : ℕ → Bool) (caller q off v n f : ℕ) (s' : Machine)
    : Type 0 where
  pub stored_byte : IsStored (memory s) live (pgd_of s caller) q off v (memory s')
  pub homes : ℕ → List ℕ
  pub consistent : IsConsistent (memory s') homes live
  pub running : IsRunning s' live caller
  pub same_procs : s'.procs ≡ s.procs
  pub same_krnl : s'.krnl ≡ s.krnl
  pub same_pgd : pgd_of s' caller ≡ pgd_of s caller
  pub same_mm : mm_of s' caller ≡ record (mm_of s caller) { fifo_pgn = (mm_of s' caller).fifo_pgn }
  pub here : at s'.heap (pgd_of s' caller) q ≡ in_ram f
  pub room : HasRoom s'.heap.calloc n s'.heap.blocks

-- The page is in frame `f` of RAM after `pg_getpage`.
abbrev pub IsFetched : Machine → (ℕ → Bool) → ℕ → ℕ → ℕ → ℕ → Machine → Type 0
IsFetched s live caller q n f s' =
    (pg_getpage caller q s ≡ some (some f, s'))
    × IsKept s live caller n s'
    × (at s'.heap (pgd_of s' caller) q ≡ in_ram f)

-- There is no such page, or it is swapped out and nothing makes room for it.
abbrev pub IsMissing : Machine → ℕ → ℕ → Type 0
IsMissing s caller q =
    (at s.heap (pgd_of s caller) q ≡ nowhere)
    ⊎ (((h : ℕ) × (at s.heap (pgd_of s caller) q ≡ in_swap h)) × IsFull s caller)

pub same-caller_krnl :
    (s s' : Machine) (caller : ℕ)
    → s'.procs ≡ s.procs
    → caller_krnl s' caller ≡ caller_krnl s caller
unfolding caller_krnl
same-caller_krnl s s' caller same = ap (λ (procs : Store). get_or (procs caller).regs 6 0) same

-- The page is in RAM, and then the operation goes through a word that is not the kernel
-- structure's address.
abbrev pub IsMisread : {A : Type 0} → Machine → (ℕ → Bool) → ℕ → ℕ → ℕ → Kernel A → Type 0
IsMisread s live caller q n op =
    (caller_krnl s caller ≢ s.krnl)
    × ((f : ℕ) × (s' : Machine) × IsFetched s live caller q n f s')
    × (op s ≡ none)

module _ (s : Machine) (home : ℕ → List ℕ) (live : ℕ → Bool) (caller n : ℕ)
    (c : IsConsistent (memory s) home live) (run : IsRunning s live caller)
    (room : HasRoom s.heap.calloc (4 + (4 + n)) s.heap.blocks) where
  pub fetch-cases :
      (q : ℕ)
      → q < 2 ^ 45
      → ((f : ℕ) × (s' : Machine) × IsFetched s live caller q n f s')
        ⊎ (IsMissing s caller q
            × ((s' : Machine) × (pg_getpage caller q s ≡ some (none, s'))
                × IsKept s live caller n s'))
  fetch-cases q small =
      let fewer =
        HasRoom-less s.heap.calloc n s.heap.blocks
          (HasRoom-less s.heap.calloc (4 + n) s.heap.blocks room) in
      let kept = same-IsKept s home live caller n c run fewer in
      elim (pg_getpage_lem s home live caller q n c run small room) [
        | inl (gone, e) ↦ inr (inl gone, (s, e, kept))
        | inr (inl (f, here, e)) ↦ inl (f, s, (e, kept, here))
        | inr (inr (out, inl (f, s', e, kept', here))) ↦ inl (f, s', (e, kept', here))
        | inr (inr (out, inr (full, (s', e, kept')))) ↦ inr (inr (out, full), (s', e, kept'))
      ]

  module _ (addr : ℕ) where
    pub misread-getval :
        (f : ℕ) (s' : Machine)
        → caller_krnl s caller ≢ s.krnl
        → IsFetched s live caller (paging_pgn addr) n f s'
        → pg_getval caller addr s ≡ none
    unfolding pg_getval
    misread-getval f s' wrong (e, kept, here) =
        let word = same-caller_krnl s s' caller kept.same_procs in
        let regs : Regs = record { a1 = sysmem_io_read; a2 = phyaddr f addr; a3 = 0 } in
        bind-run (pg_getpage caller (paging_pgn addr)) _ s (some f) s' e
        ∙ bind-none (call_memmap caller regs) _ s' (
            call_memmap-none s' caller regs kept.running.known kept.running.real (
              io_read-none s' caller (phyaddr f addr) (λ r. wrong (sym word ∙ r ∙ kept.same_krnl))))

    pub misread-setval :
        (value f : ℕ) (s' : Machine)
        → caller_krnl s caller ≢ s.krnl
        → IsFetched s live caller (paging_pgn addr) n f s'
        → pg_setval caller addr value s ≡ none
    unfolding pg_setval
    misread-setval value f s' wrong (e, kept, here) =
        let word = same-caller_krnl s s' caller kept.same_procs in
        let regs : Regs = record {
          a1 = sysmem_io_write;
          a2 = phyaddr f addr;
          a3 = byte_arg value;
        } in
        bind-run (pg_getpage caller (paging_pgn addr)) _ s (some f) s' e
        ∙ bind-none (call_memmap caller regs) _ s' (
            call_memmap-none s' caller regs kept.running.known kept.running.real (
              io_write-none s' caller (phyaddr f addr) (byte_arg value)
                (λ r. wrong (sym word ∙ r ∙ kept.same_krnl))))

    abbrev pub GetCases : Type 0
    GetCases =
        IsMisread s live caller (paging_pgn addr) n (pg_getval caller addr)
        ⊎ (((caller_krnl s caller ≡ s.krnl)
              × ((s' : Machine) × (pg_getval caller addr s
                    ≡ some (
                      some (
                          content (memory s) (pgd_of s caller) (paging_pgn addr) (paging_offst addr)
                          % 256),
                      s',
                    ))
                  × IsKept s live caller n s'))
            ⊎ (IsMissing s caller (paging_pgn addr)
                × ((s' : Machine) × (pg_getval caller addr s ≡ some (none, s'))
                    × IsKept s live caller n s')))

    -- Under the conditions of `pg_getpage_lem`: where there is no such page, or it is swapped out and
    -- nothing makes room for it, `pg_getval` fails, and the pages and the conditions are kept.
    -- Otherwise the page is brought to RAM, and src/sys_mem.c looks for the kernel structure in
    -- register 6 of the caller. Only if that word happens to be the structure's address, `pg_getval`
    -- returns the byte at this address of the caller's page, and keeps the pages and the conditions;
    -- with any other word its access is undefined.
    pub pg_getval_lem : GetCases
    unfolding pg_getval
    pg_getval_lem = elim (fetch-cases (paging_pgn addr) (pgn-small addr)) [
      | inr (why, (s', e, kept)) ↦
          inr (inr (why, (s', bind-run (pg_getpage caller (paging_pgn addr)) _ s none s' e, kept)))
      | inl (f, s', (e, kept, here)) ↦
          let q = paging_pgn addr in
          let a = phyaddr f addr in
          let low = offst-small addr in
          let word = same-caller_krnl s s' caller kept.same_procs in
          let fits =
            subst (Fits (memory s')) here
              (kept.consistent.fits (pgd_of s' caller) q (kept.running.owner, pgn-small addr)) in
          let regs : Regs = record { a1 = sysmem_io_read; a2 = a; a3 = 0 } in
          let regs' : Regs = record {
            a1 = sysmem_io_read;
            a2 = a;
            a3 = byte_arg (get_or s'.mram.storage a 0);
          } in
          let seen : get_or s'.mram.storage a 0
              ≡ content (memory s) (pgd_of s caller) q (paging_offst addr) =
            ap (λ x. byte (memory s') x (paging_offst addr)) (sym here)
            ∙ ap (λ d. content (memory s') d q (paging_offst addr)) kept.same_pgd
            ∙ kept.stays (pgd_of s caller) q (paging_offst addr) (run.owner, pgn-small addr) low in
          elim (ℕ_discrete (caller_krnl s caller) s.krnl) [
            | no wrong ↦
                inl (wrong, (f, s', (e, kept, here)), misread-getval f s' wrong (e, kept, here))
            | yes right ↦ inr (
                inl (
                  right,
                  (
                    s',
                    bind-run (pg_getpage caller q) _ s (some f) s' e
                        ∙ bind-run (call_memmap caller regs) _ s' regs' s' (
                            call_memmap-run s' caller regs regs' s' kept.running.known
                              kept.running.real
                              (io_read-run s' caller a (word ∙ right ∙ sym kept.same_krnl)
                                kept.consistent.random_ram (omega arith) (omega arith)))
                        ∙ ap (λ (k : ℕ). some (some k, s'))
                            (byte_arg-low (get_or s'.mram.storage a 0) ∙ ap (λ k. k % 256) seen),
                    kept,
                  ),
                ))
          ]
    ]

    abbrev pub SetCases : ℕ → Type 0
    SetCases value =
        IsMisread s live caller (paging_pgn addr) n (pg_setval caller addr value)
        ⊎ (((caller_krnl s caller ≡ s.krnl)
              × ((f : ℕ) × (s' : Machine) × (pg_setval caller addr value s ≡ some (success, s'))
                  × IsByteSet s live caller (paging_pgn addr) (paging_offst addr) (value % 256) n f
                      s'))
            ⊎ (IsMissing s caller (paging_pgn addr)
                × ((s' : Machine) × (pg_setval caller addr value s ≡ some (failure, s'))
                    × IsKept s live caller n s')))

    -- Under the conditions of `pg_getpage_lem`: where there is no such page, or it is swapped out and
    -- nothing makes room for it, `pg_setval` fails, and the pages and the conditions are kept.
    -- Otherwise the page is brought to RAM, and src/sys_mem.c looks for the kernel structure in
    -- register 6 of the caller. Only if that word happens to be the structure's address, `pg_setval`
    -- succeeds: the byte at this address of the caller's page is then the low byte of the value, every
    -- other byte of every page of every process is as before, and the conditions are kept; with any
    -- other word its access is undefined.
    pub pg_setval_lem : (value : ℕ) → SetCases value
    unfolding pg_setval
    pg_setval_lem value = elim (fetch-cases (paging_pgn addr) (pgn-small addr)) [
      | inr (why, (s', e, kept)) ↦
          inr (inr (why, (s', bind-run (pg_getpage caller (paging_pgn addr)) _ s none s' e, kept)))
      | inl (f, s', (e, kept, here)) ↦
          let q = paging_pgn addr in
          let off = paging_offst addr in
          let low = offst-small addr in
          let word = same-caller_krnl s s' caller kept.same_procs in
          let v = byte_arg value % 256 in
          let page : IsPage live (pgd_of s' caller) q = (kept.running.owner, pgn-small addr) in
          let fits =
            subst (Fits (memory s')) here (kept.consistent.fits (pgd_of s' caller) q page) in
          let regs : Regs = record {
            a1 = sysmem_io_write;
            a2 = phyaddr f addr;
            a3 = byte_arg value;
          } in
          let s'' : Machine = record s' { mram = stored s'.mram (f * 256 + off) v } in
          let k =
            after-IsStored (memory s') kept.homes live (pgd_of s' caller) q f off v kept.consistent
              page here low in
          elim (ℕ_discrete (caller_krnl s caller) s.krnl) [
            | no wrong ↦
                inl
                  (wrong, (f, s', (e, kept, here)), misread-setval value f s' wrong (e, kept, here))
            | yes right ↦ inr (
                inl (
                  right,
                  (
                    f,
                    s'',
                    bind-run (pg_getpage caller q) _ s (some f) s' e
                        ∙ bind-run (call_memmap caller regs) _ s' regs s'' (
                            call_memmap-run s' caller regs regs s'' kept.running.known
                              kept.running.real
                              (io_write-run s' caller (phyaddr f addr) (byte_arg value)
                                (word ∙ right ∙ sym kept.same_krnl) kept.consistent.random_ram
                                (omega arith) (omega arith))),
                    record {
                      stored_byte = record {
                        self =
                            ap (λ d. content (memory s'') d q off) (sym kept.same_pgd)
                            ∙ k.self
                            ∙ byte_arg-low value;
                        others = λ r' q' i p small apart.
                            k.others r' q' i p small (
                              subst (λ d. (r' ≢ d) ⊎ ((q' ≢ q) ⊎ (i ≢ off))) (sym kept.same_pgd)
                                apart)
                            ∙ kept.stays r' q' i p small;
                      };
                      homes = kept.homes;
                      consistent =
                          after-IsConsistent (memory s') kept.homes live (pgd_of s' caller) q f off
                            v kept.consistent page here low;
                      running = record {
                        known = kept.running.known;
                        real = kept.running.real;
                        owner = kept.running.owner;
                        queued = kept.running.queued;
                        once = kept.running.once;
                      };
                      same_procs = kept.same_procs;
                      same_krnl = kept.same_krnl;
                      same_pgd = kept.same_pgd;
                      same_mm = kept.same_mm;
                      here = here;
                      room = kept.room;
                    },
                  ),
                ))
          ]
    ]
