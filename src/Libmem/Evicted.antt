-- ===== src/Libmem/Evicted.antt =====
-- An eviction keeps the tables, the devices and the caller in a good state, and changes no page.
use os_assignment.Base.{
  arith, ℕ, ◌+◌, ◌^◌, ◌<◌, ◌≡◌, ◌≢◌, ◌⊎◌, inl, inr, refl, sym, ap, subst, ◌∙◌, List, [], ◌∷◌, ◌++◌,
  none, some, Bool, All,
}
use os_assignment.Paging.Pte.{paging_fpn}
use os_assignment.Paging.Directory.{pte_get_entry}
use os_assignment.Paging.Directory.Descent.{HasRoom}
use os_assignment.Memphy.Copy.{swap_cp_page}
use os_assignment.Region.{Mm, find_victim_page}
use os_assignment.Region.Pages.{find_victim_page-oldest}
use os_assignment.Machine.{Machine, mm_of, pgd_of, bind-run}
use os_assignment.Libmem.{take_victim, get_entry, get_swap_frame, evict}
use os_assignment.Libmem.Layout.{
  Fits, in_ram, in_swap, Memory, at, Distinct, IsPage, IsConsistent, IsLoose,
}
use os_assignment.Libmem.Move.{IsMoved, at_others, moved-Stays, moved-IsLoose, moved-IsConsistent}
use os_assignment.Libmem.Pool.{with_swap_frames, pop_swap-IsConsistent, pop_swap-IsLoose}
use os_assignment.Libmem.Places.{in_ram-ne-nowhere, in_ram-ne-in_swap, at-entry, entry-in_ram}
use os_assignment.Libmem.Copied.{SwapOut, swap_out-IsMoved}
use os_assignment.Libmem.Evict.{
  with_fifo, with_fifo-pgd, take_victim-run, get_entry-run, get_swap_frame-none, evict-run,
}
use os_assignment.Libmem.Running.{
  HasFrame, HasRoom-less, last-cases, free-cases, memory, changed, changed-IsRunning, changed-mm,
  IsResident, IsRunning, IsKept, Stays-frames, Stays-trans, Distinct-before, All-last, All-with,
}

-- Two cases of a failed eviction, or the frame `f` that it freed.
module _ (s : Machine) (home : ℕ → List ℕ) (live : ℕ → Bool) (caller n : ℕ)
    (c : IsConsistent (memory s) home live) (run : IsRunning s live caller) where
  abbrev pgd : ℕ
  pgd = pgd_of s caller

  abbrev fifo : List ℕ
  fifo = (mm_of s caller).fifo_pgn

  evict-empty : fifo ≡ [] → evict caller s ≡ some (none, s)
  unfolding evict take_victim find_victim_page
  evict-empty e =
      bind-run (take_victim caller) _ s none s (rw (take_victim, find_victim_page, e) refl)

  -- The victim and the frame of the swap device.
  module _ (xs : List ℕ) (v : ℕ) (split : fifo ≡ xs ++ v ∷ []) where
    victim : find_victim_page fifo ≡ some (v, xs)
    victim = ap find_victim_page split ∙ find_victim_page-oldest xs v

    residents : All (λ q. IsResident s pgd q) xs × IsResident s pgd v
    residents =
        All-last (λ q. IsResident s pgd q) xs v
          (subst (λ l. All (λ q. IsResident s pgd q) l) split run.queued)

    others : Distinct xs × All (λ x. x ≢ v) xs
    others = Distinct-before xs v (subst Distinct split run.once)

    evict-full : s.mswp.free_fp_list ≡ [] → evict caller s ≡ some (none, with_fifo s caller xs)
    unfolding evict
    evict-full e =
        let s1 = with_fifo s caller xs in
        let (pte, read, word) = c.words pgd v (run.owner, residents.1.0) in
        let same = ap (λ (m : Mm). m.pgd) (with_fifo-pgd s caller xs) in
        bind-run (take_victim caller) _ s (some v) s1 (take_victim-run s caller v xs victim)
        ∙ bind-run (get_entry caller v) _ s1 pte s1
            (get_entry-run s1 caller v pte (ap (λ d. pte_get_entry s.heap d v) same ∙ read))
        ∙ bind-run get_swap_frame _ s1 none s1 (get_swap_frame-none s1 e)

    module _ (g : ℕ) (rest : List ℕ) (first : s.mswp.free_fp_list ≡ g ∷ rest)
        (room : HasRoom s.heap.calloc (4 + n) s.heap.blocks) where
      abbrev m1 : Memory
      m1 = with_swap_frames (memory s) rest

      c1 : IsConsistent m1 home live
      c1 = pop_swap-IsConsistent (memory s) home live c g rest first

      l1 : IsLoose m1 live (in_swap g)
      l1 = pop_swap-IsLoose (memory s) home live c g rest first

      abbrev f : ℕ
      f = residents.1.1.0

      here : at m1.heap pgd v ≡ in_ram f
      here = residents.1.1.1

      page : IsPage live pgd v
      page = (run.owner, residents.1.0)

      abbrev out : SwapOut m1 home live c1 pgd v f g s.stale s.active_mswp_id n page here l1 room
      out = swap_out-IsMoved m1 home live c1 pgd v f g s.stale s.active_mswp_id n page here l1 room

      abbrev m2 : Memory
      m2 = record { heap = out.0; mram = s.mram; mswp = out.1 }

      abbrev s2 : Machine
      s2 = changed s caller xs m2

      moved : IsMoved m1 live pgd v (in_swap g) m2 out.2
      moved = out.5

      evict-result : evict caller s ≡ some (some f, s2)
      evict-result =
          let (pte, read, word) = c.words pgd v page in
          let same : paging_fpn pte ≡ f =
            entry-in_ram pte f (sym (at-entry s.heap pgd v pte read) ∙ here) in
          let fits_f = subst (Fits m1) here (c1.fits pgd v page) in
          let fits_g = l1.fits in
          evict-run s caller v xs pte g rest out.0 out.1 run.known run.real victim read first
            (omega (arith, fits_f, same)) (omega (arith, fits_g))
            (ap (λ k. swap_cp_page s.stale s.mram k m1.mswp g) same ∙ out.3) out.4
          ∙ ap (λ (k : ℕ). some (some k, s2)) same

      evict-IsKept : IsKept s live caller n s2
      evict-IsKept = record {
        homes = out.2;
        consistent = moved-IsConsistent m1 home live pgd v (in_swap g) m2 out.2 c1 l1 page moved;
        stays =
            Stays-trans (memory s) m1 m2 live
              (Stays-frames (memory s) live s.mram.free_fp_list rest)
              (moved-Stays m1 home live pgd v (in_swap g) m2 out.2 c1 l1 page moved);
        running =
            changed-IsRunning s live caller xs m2 run
              (All-with (λ q. IsResident s pgd q) (λ q. q ≢ v) (λ q. IsResident s2 pgd q) xs
                (λ q (small, (k, e)) ne. (
                  small,
                  (
                    k,
                    at_others m1 home live pgd v (in_swap g) m2 out.2 c1 l1 page moved pgd q
                          (run.owner, small) (inr ne)
                        ∙ e,
                  ),
                ))
                residents.0 others.1)
              others.0;
        same_procs = refl;
        same_krnl = refl;
        same_pgd = ap (λ (m : Mm). m.pgd) (with_fifo-pgd s caller xs);
        same_mm = changed-mm s caller xs m2;
        room = out.6;
      }

      evict-IsLoose : IsLoose m2 live (in_ram f)
      evict-IsLoose = subst (IsLoose m2 live) here (
          moved-IsLoose m1 home live pgd v (in_swap g) m2 out.2 c1 l1 page moved
            (λ e. in_ram-ne-nowhere (sym here ∙ e)))

      -- A page that is swapped out is no victim.
      evict-swapped :
          (q h : ℕ) → q < 2 ^ 45 → at s.heap pgd q ≡ in_swap h → at m2.heap pgd q ≡ in_swap h
      evict-swapped q h small e =
          at_others m1 home live pgd v (in_swap g) m2 out.2 c1 l1 page moved pgd q
            (run.owner, small)
            (inr (λ same.
              let clash : in_ram f ≡ in_swap h = sym here ∙ ap (at s.heap pgd) (sym same) ∙ e in
              in_ram-ne-in_swap clash))
          ∙ e

      evict-HasFrame : HasFrame s live caller n f s2
      evict-HasFrame = record {
        kept = evict-IsKept;
        loose = evict-IsLoose;
        swapped = evict-swapped;
      }

    full-IsKept :
        HasRoom s.heap.calloc n s.heap.blocks → IsKept s live caller n (with_fifo s caller xs)
    full-IsKept room = record {
      homes = home;
      consistent = c;
      stays = λ r q i p small. refl;
      running = changed-IsRunning s live caller xs (memory s) run residents.0 others.0;
      same_procs = refl;
      same_krnl = refl;
      same_pgd = ap (λ (m : Mm). m.pgd) (with_fifo-pgd s caller xs);
      same_mm = changed-mm s caller xs (memory s);
      room = room;
    }

  pub same-IsKept : HasRoom s.heap.calloc n s.heap.blocks → IsKept s live caller n s
  same-IsKept room = record {
    homes = home;
    consistent = c;
    stays = λ r q i p small. refl;
    running = run;
    same_procs = refl;
    same_krnl = refl;
    same_pgd = refl;
    same_mm = refl;
    room = room;
  }

  -- The eviction gives a frame, or there is no page to evict, or no room for it.
  abbrev pub EvictCases : Type 0
  EvictCases =
      ((f : ℕ) × (s' : Machine) × (evict caller s ≡ some (some f, s'))
        × HasFrame s live caller n f s')
      ⊎ (((fifo ≡ []) ⊎ (s.mswp.free_fp_list ≡ []))
          × ((s' : Machine) × (evict caller s ≡ some (none, s')) × IsKept s live caller n s'))

  pub evict_lem : HasRoom s.heap.calloc (4 + n) s.heap.blocks → EvictCases
  evict_lem room =
      let fewer = HasRoom-less s.heap.calloc n s.heap.blocks room in
      elim (last-cases fifo) [
        | inl empty ↦ inr (inl empty, (s, evict-empty empty, same-IsKept fewer))
        | inr (xs, v, split) ↦ elim (free-cases s.mswp.free_fp_list) [
          | inl full ↦ inr (
            inr full,
            (with_fifo s caller xs, evict-full xs v split full, full-IsKept xs v split fewer),
          )
          | inr (g, rest, first) ↦ inl (
            f xs v split g rest first room,
            s2 xs v split g rest first room,
            evict-result xs v split g rest first room,
            evict-HasFrame xs v split g rest first room,
          )
        ]
      ]
