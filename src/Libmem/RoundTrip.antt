-- ===== src/Libmem/RoundTrip.antt =====
-- Writing a byte and reading it back: `pg_setval` and `pg_getval`, `libwrite` and `libread`.
use os_assignment.Base.{
  ℕ, ◌+◌, ◌%◌, ◌^◌, ◌<◌, ◌≡◌, ◌≢◌, ◌⊎◌, inl, inr, sym, ap, ◌∙◌, arith, List, none, some, Bool,
}
use os_assignment.Paging.{paging_pgn, paging_offst}
use os_assignment.Paging.Directory.Descent.{HasRoom}
use os_assignment.Region.{Rg, success, failure, found, get_vma_by_num, entry, get_symrg_byid}
use os_assignment.Syscall.Memmap.{caller_krnl}
use os_assignment.Machine.{Machine, mm_of}
use os_assignment.Libmem.{pg_getval, pg_setval}
use os_assignment.Libmem.Regions.{libread, libwrite}
use os_assignment.Libmem.Layout.{content, IsConsistent}
use os_assignment.Libmem.Places.{in_ram-ne-nowhere, in_ram-ne-in_swap}
use os_assignment.Libmem.Bytes.{
  IsByteSet, IsMissing, pg_getval_lem, pg_setval_lem, same-caller_krnl, misread-getval,
}
use os_assignment.Libmem.Running.{memory, IsRunning, IsKept}

module _ (s : Machine) (home : ℕ → List ℕ) (live : ℕ → Bool) (caller addr value n : ℕ)
    (c : IsConsistent (memory s) home live) (run : IsRunning s live caller)
    (room : HasRoom s.heap.calloc (4 + (4 + (4 + (4 + n)))) s.heap.blocks) where
  -- The write, with the state then, and the read in that state.
  abbrev pub IsReadBack : Type 0
  IsReadBack =
      (caller_krnl s caller ≡ s.krnl)
      × ((f : ℕ) × (s' s'' : Machine) × (pg_setval caller addr value s ≡ some (success, s'))
          × (pg_getval caller addr s' ≡ some (some (value % 256), s''))
          × IsByteSet s live caller (paging_pgn addr) (paging_offst addr) (value % 256)
              (4 + (4 + n)) f s'
          × IsKept s' live caller n s'')

  -- Neither access is defined.
  abbrev pub IsUnreachable : Type 0
  IsUnreachable =
      (caller_krnl s caller ≢ s.krnl)
      × (pg_setval caller addr value s ≡ none)
      × (pg_getval caller addr s ≡ none)

  abbrev pub IsUnwritten : Type 0
  IsUnwritten =
      IsMissing s caller (paging_pgn addr)
      × ((s' : Machine) × (pg_setval caller addr value s ≡ some (failure, s'))
          × IsKept s live caller (4 + (4 + n)) s')

  -- Under the conditions of `pg_getpage_lem`, with room for sixteen tables and `n` others: a write
  -- succeeds and a read of the same address in the state then returns the low byte of the value, or
  -- neither is defined, as the kernel structure is looked for at another address; or the write
  -- fails, only if there is no such page or nothing makes room for it.
  pub pg_setval-pg_getval : IsUnreachable ⊎ (IsReadBack ⊎ IsUnwritten)
  pg_setval-pg_getval =
      elim (pg_setval_lem s home live caller (4 + (4 + n)) c run room addr value) [
        | inl (wrong, (f, s', got), e) ↦ inl (
          wrong,
          e,
          misread-getval s home live caller (4 + (4 + n)) c run room addr f s' wrong got,
        )
        | inr (inr (why, (s', e, kept))) ↦ inr (inr (why, (s', e, kept)))
        | inr (inl (right, (f, s', e, k))) ↦
            elim (pg_getval_lem s' k.homes live caller n k.consistent k.running k.room addr) [
              | inl (wrong, got, rest) ↦
                  absurd
                    (wrong (same-caller_krnl s s' caller k.same_procs ∙ right ∙ sym k.same_krnl))
              | inr (inr (inl gone, rest)) ↦ absurd (in_ram-ne-nowhere (sym k.here ∙ gone))
              | inr (inr (inr ((h, out), full), rest)) ↦
                  absurd (in_ram-ne-in_swap (sym k.here ∙ out))
              | inr (inl (right', (s'', e', kept'))) ↦
                  let seen =
                    ap (λ d. content (memory s') d (paging_pgn addr) (paging_offst addr)) k.same_pgd
                    ∙ k.stored_byte.self in
                  inr (
                    inl (
                      right,
                      (
                        f,
                        s',
                        s'',
                        e,
                        e'
                            ∙ ap (λ (b : ℕ). some (some b, s''))
                                (ap (λ b. b % 256) seen ∙ omega arith),
                        k,
                        kept',
                      ),
                    ))
            ]
      ]

-- The region `rg` of symbol `rgid`, and an offset inside it.
abbrev pub InRegion : Machine → ℕ → ℕ → ℕ → Rg → Type 0
InRegion s caller rgid offset rg =
    ((s.procs caller).mm ≢ 0)
    × (get_symrg_byid (mm_of s caller) rgid ≡ entry rg)
    × (rg.rg_end < 2 ^ 64)
    × (rg.rg_start + offset < rg.rg_end)

abbrev pub address : Rg → ℕ → ℕ
address rg offset = (rg.rg_start + offset) % 2 ^ 32

module _ (s : Machine) (home : ℕ → List ℕ) (live : ℕ → Bool) (proc value rgid offset cur n : ℕ)
    (rg : Rg) (c : IsConsistent (memory s) home live) (run : IsRunning s live proc)
    (region : InRegion s proc rgid offset rg) (area : get_vma_by_num (mm_of s proc) 0 ≡ found cur)
    (room : HasRoom s.heap.calloc (4 + (4 + (4 + (4 + n)))) s.heap.blocks) where
  -- The write reports success, and the read gives the byte.
  abbrev pub IsRegionReadBack : Type 0
  IsRegionReadBack =
      (caller_krnl s proc ≡ s.krnl)
      × ((s' s'' : Machine) × (libwrite proc value rgid offset s ≡ some (success, s'))
          × (libread proc rgid offset s' ≡ some ((success, value % 256), s''))
          × IsKept s' live proc n s'')

  -- Neither the write nor a read is defined.
  abbrev pub IsRegionUnreachable : Type 0
  IsRegionUnreachable =
      (caller_krnl s proc ≢ s.krnl)
      × (libwrite proc value rgid offset s ≡ none)
      × (libread proc rgid offset s ≡ none)

  -- The write reports success all the same, and writes nothing.
  abbrev pub IsRegionLost : Type 0
  IsRegionLost =
      IsMissing s proc (paging_pgn (address rg offset))
      × ((s' : Machine) × (libwrite proc value rgid offset s ≡ some (success, s'))
          × IsKept s live proc (4 + (4 + n)) s')
