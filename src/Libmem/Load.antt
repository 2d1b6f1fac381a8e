-- ===== src/Libmem/Load.antt =====
-- The end of `pg_getpage`: a page comes from the swap device into a frame that is no page's.
use os_assignment.Base.{
  ℕ, ◌+◌, ◌^◌, ◌<◌, ◌≡◌, ◌≢◌, inr, refl, sym, ap, subst, ◌∙◌, List, ◌∷◌, some, Bool,
}
use os_assignment.Paging.Directory.{Heap, pte_set_fpn}
use os_assignment.Paging.Directory.Descent.{HasRoom}
use os_assignment.Memphy.{Memphy, done, put_freefp}
use os_assignment.Memphy.Copy.{swap_cp_page}
use os_assignment.Region.{Mm, enlist_pgn_node}
use os_assignment.Machine.{Machine, mm_of, pgd_of, bind-run}
use os_assignment.Libmem.{copy_in, put_swap_frame, set_fpn, enlist_page, load_page}
use os_assignment.Libmem.Layout.{in_ram, in_swap, Memory, at, IsPage, IsConsistent, IsLoose}
use os_assignment.Libmem.Move.{IsMoved, at_others, moved-Stays, moved-IsLoose, moved-IsConsistent}
use os_assignment.Libmem.Pool.{with_swap_frames, push_swap-IsConsistent}
use os_assignment.Libmem.Places.{in_ram-ne-in_swap, in_swap-ne-nowhere}
use os_assignment.Libmem.Copied.{SwapIn, swap_in-IsMoved}
use os_assignment.Libmem.Evict.{with_fifo-pgd}
use os_assignment.Libmem.Running.{
  memory, changed, changed-IsRunning, changed-mm, IsResident, IsRunning, IsKept, Stays-frames,
  Stays-trans, All-with,
}

copy_in-run :
    (s : Machine) (h f : ℕ) (mram : Memphy)
    → swap_cp_page s.stale s.mswp h s.mram f ≡ done (s.mswp, mram)
    → copy_in h f s ≡ some (tt, record s { mram = mram })
unfolding copy_in
copy_in-run s h f mram e = rw (copy_in, e) refl

set_fpn-run :
    (s : Machine) (caller q f : ℕ) (heap : Heap)
    → pte_set_fpn s.heap (pgd_of s caller) q f ≡ some heap
    → set_fpn caller q f s ≡ some (tt, record s { heap = heap })
unfolding set_fpn
set_fpn-run s caller q f heap e = rw (set_fpn, e) refl

load_page-run :
    (s : Machine) (caller q h f : ℕ) (heap : Heap) (mram : Memphy)
    → swap_cp_page s.stale s.mswp h s.mram f ≡ done (s.mswp, mram)
    → pte_set_fpn s.heap (pgd_of s caller) q f ≡ some heap
    → load_page caller q h f s
      ≡ some (
        f,
        changed s caller (q ∷ (mm_of s caller).fifo_pgn) (
            with_swap_frames
              (record { heap = heap; mram = mram; mswp = s.mswp })
              (h ∷ s.mswp.free_fp_list)),
      )
unfolding load_page put_swap_frame enlist_page enlist_pgn_node put_freefp
load_page-run s caller q h f heap mram copy set =
    let s1 = record s { mram = mram } in
    let s2 = record s1 { mswp = record s.mswp { free_fp_list = h ∷ s.mswp.free_fp_list } } in
    let s3 = record s2 { heap = heap } in
    bind-run (copy_in h f) _ s tt s1 (copy_in-run s h f mram copy)
    ∙ bind-run (set_fpn caller q f) _ s2 tt s3 (set_fpn-run s2 caller q f heap set)

module _ (s : Machine) (home : ℕ → List ℕ) (live : ℕ → Bool) (caller q h f n : ℕ)
    (c : IsConsistent (memory s) home live) (run : IsRunning s live caller) (small : q < 2 ^ 45)
    (here : at s.heap (pgd_of s caller) q ≡ in_swap h) (l : IsLoose (memory s) live (in_ram f))
    (room : HasRoom s.heap.calloc (4 + n) s.heap.blocks) where
  abbrev pgd : ℕ
  pgd = pgd_of s caller

  abbrev fifo : List ℕ
  fifo = (mm_of s caller).fifo_pgn

  pub page : IsPage live pgd q
  page = (run.owner, small)

  abbrev into : SwapIn (memory s) home live c pgd q h f s.stale n page here l room
  into = swap_in-IsMoved (memory s) home live c pgd q h f s.stale n page here l room

  abbrev m1 : Memory
  m1 = record { heap = into.0; mram = into.1; mswp = s.mswp }

  abbrev m2 : Memory
  m2 = with_swap_frames m1 (h ∷ s.mswp.free_fp_list)

  abbrev s2 : Machine
  s2 = changed s caller (q ∷ fifo) m2

  moved : IsMoved (memory s) live pgd q (in_ram f) m1 into.2
  moved = into.5

  left : IsLoose m1 live (in_swap h)
  left = subst (IsLoose m1 live) here (
      moved-IsLoose (memory s) home live pgd q (in_ram f) m1 into.2 c l page moved
        (λ e. in_swap-ne-nowhere (sym here ∙ e)))

  -- A page in RAM is another one, and stays there.
  resident-other : (b : ℕ) → IsResident s pgd b → b ≢ q
  resident-other b (low, (k, e)) same =
      let clash : in_ram k ≡ in_swap h = sym e ∙ ap (at s.heap pgd) same ∙ here in
      in_ram-ne-in_swap clash

  resident-stays : (b : ℕ) → IsResident s pgd b → IsResident s2 pgd b
  resident-stays b (low, (k, e)) = (
    low,
    (
      k,
      at_others (memory s) home live pgd q (in_ram f) m1 into.2 c l page moved pgd b
            (run.owner, low) (inr (resident-other b (low, (k, e))))
          ∙ e,
    ),
  )

  load-result : load_page caller q h f s ≡ some (f, s2)
  load-result = load_page-run s caller q h f into.0 into.1 into.3 into.4

  load-at : at s2.heap pgd q ≡ in_ram f
  load-at = moved.at_self

  load-IsKept : IsKept s live caller n s2
  load-IsKept = record {
    homes = into.2;
    consistent =
        push_swap-IsConsistent m1 into.2 live
          (moved-IsConsistent (memory s) home live pgd q (in_ram f) m1 into.2 c l page moved) h
          left;
    stays =
        Stays-trans (memory s) m1 m2 live
          (moved-Stays (memory s) home live pgd q (in_ram f) m1 into.2 c l page moved)
          (Stays-frames m1 live m1.mram.free_fp_list (h ∷ s.mswp.free_fp_list));
    running =
        changed-IsRunning s live caller (q ∷ fifo) m2 run
          (
            (small, (f, moved.at_self)),
            All-with (λ b. IsResident s pgd b) (λ b. IsResident s pgd b) (λ b. IsResident s2 pgd b)
                fifo (λ b r r'. resident-stays b r) run.queued run.queued,
          )
          (
            All-with (λ b. IsResident s pgd b) (λ b. IsResident s pgd b) (λ b. q ≢ b) fifo
                (λ b r r' e. resident-other b r (sym e)) run.queued run.queued,
            run.once,
          );
    same_procs = refl;
    same_krnl = refl;
    same_mm = changed-mm s caller (q ∷ fifo) m2;
    same_pgd = ap (λ (m : Mm). m.pgd) (with_fifo-pgd s caller (q ∷ fifo));
    room = into.6;
  }

  pub load_page-IsKept :
      (s' : Machine) × (load_page caller q h f s ≡ some (f, s'))
      × IsKept s live caller n s'
      × (at s'.heap pgd q ≡ in_ram f)
  load_page-IsKept = (s2, load-result, load-IsKept, load-at)
