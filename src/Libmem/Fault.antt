-- ===== src/Libmem/Fault.antt =====
-- `pg_getpage` as a whole: pages are brought into RAM, and no process sees its memory change.
use os_assignment.Base.{
  ℕ, ◌+◌, ◌^◌, ◌<◌, ◌≡◌, ◌⊎◌, inl, inr, refl, sym, ap, subst, ◌∙◌, List, [], ◌∷◌, Option, none,
  some, Bool, Bool-cases,
}
use os_assignment.Paging.Pte.{is_present, is_swapped, paging_fpn, paging_swp}
use os_assignment.Paging.Directory.Descent.{HasRoom}
use os_assignment.Memphy.{get_freefp}
use os_assignment.Region.{Mm}
use os_assignment.Machine.{Machine, mm_of, pgd_of, bind-run}
use os_assignment.Libmem.{get_entry, get_ram_frame, make_room, load_page, swap_in, pg_getpage}
use os_assignment.Libmem.Layout.{in_ram, in_swap, nowhere, at, IsConsistent}
use os_assignment.Libmem.Pool.{pop_ram-IsConsistent, pop_ram-IsLoose}
use os_assignment.Libmem.Places.{at-entry, place-swapped, place-present, place-absent}
use os_assignment.Libmem.Evict.{get_freefp-nil, get_entry-run}
use os_assignment.Libmem.Evicted.{evict_lem}
use os_assignment.Libmem.Load.{load_page-IsKept}
use os_assignment.Libmem.Running.{
  memory, IsRunning, IsKept, HasFrame, Stays-frames, Stays-trans, HasRoom-less, free-cases,
}

get_ram_frame-none : (s : Machine) → s.mram.free_fp_list ≡ [] → get_ram_frame s ≡ some (none, s)
unfolding get_ram_frame
get_ram_frame-none s e = rw (get_ram_frame, get_freefp-nil s.mram e) refl

get_ram_frame-run :
    (s : Machine) (f : ℕ) (rest : List ℕ)
    → s.mram.free_fp_list ≡ f ∷ rest
    → get_ram_frame s ≡ some (some f, record s { mram = record s.mram { free_fp_list = rest } })
unfolding get_ram_frame get_freefp
get_ram_frame-run s f rest e = rw (get_ram_frame, get_freefp, e) refl

-- There is neither a free frame of RAM, nor a page to evict with a free frame of the swap device.
abbrev pub IsFull : Machine → ℕ → Type 0
IsFull s caller =
    (s.mram.free_fp_list ≡ []) × (((mm_of s caller).fifo_pgn ≡ []) ⊎ (s.mswp.free_fp_list ≡ []))

module _ (s : Machine) (home : ℕ → List ℕ) (live : ℕ → Bool) (caller n : ℕ)
    (c : IsConsistent (memory s) home live) (run : IsRunning s live caller) where
  abbrev RoomCases : Type 0
  RoomCases =
      ((f : ℕ) × (s' : Machine) × (make_room caller s ≡ some (some f, s'))
        × HasFrame s live caller n f s')
      ⊎ (IsFull s caller
          × ((s' : Machine) × (make_room caller s ≡ some (none, s')) × IsKept s live caller n s'))

  make_room_lem : HasRoom s.heap.calloc (4 + n) s.heap.blocks → RoomCases
  unfolding make_room
  make_room_lem room = elim (free-cases s.mram.free_fp_list) [
    | inr (f, rest, first) ↦
        let s1 = record s { mram = record s.mram { free_fp_list = rest } } in
        inl (
          f,
          s1,
          bind-run get_ram_frame _ s (some f) s1 (get_ram_frame-run s f rest first),
          record {
            kept = record {
              homes = home;
              consistent = pop_ram-IsConsistent (memory s) home live c f rest first;
              stays = Stays-frames (memory s) live rest s.mswp.free_fp_list;
              running = record {
                known = run.known;
                real = run.real;
                owner = run.owner;
                queued = run.queued;
                once = run.once;
              };
              same_procs = refl;
              same_krnl = refl;
              same_pgd = refl;
              same_mm = refl;
              room = HasRoom-less s.heap.calloc n s.heap.blocks room;
            };
            loose = pop_ram-IsLoose (memory s) home live c f rest first;
            swapped = λ q h small e. e;
          },
        )
    | inl none_free ↦
        let step = bind-run get_ram_frame _ s none s (get_ram_frame-none s none_free) in
        elim (evict_lem s home live caller n c run room) [
          | inl (f, s', e, frame) ↦ inl (f, s', step ∙ e, frame)
          | inr (why, (s', e, kept)) ↦ inr ((none_free, why), (s', step ∙ e, kept))
        ]
  ]

IsKept-trans :
    (s s1 s2 : Machine) (live : ℕ → Bool) (caller k n : ℕ)
    → IsKept s live caller k s1
    → IsKept s1 live caller n s2
    → IsKept s live caller n s2
IsKept-trans s s1 s2 live caller k n a b = record {
  homes = b.homes;
  consistent = b.consistent;
  stays = Stays-trans (memory s) (memory s1) (memory s2) live a.stays b.stays;
  running = b.running;
  same_procs = b.same_procs ∙ a.same_procs;
  same_krnl = b.same_krnl ∙ a.same_krnl;
  same_pgd = b.same_pgd ∙ a.same_pgd;
  same_mm =
      b.same_mm ∙ ap (λ (mm : Mm). record mm { fifo_pgn = (mm_of s2 caller).fifo_pgn }) a.same_mm;
  room = b.room;
}

module _ (s : Machine) (home : ℕ → List ℕ) (live : ℕ → Bool) (caller q n : ℕ)
    (c : IsConsistent (memory s) home live) (run : IsRunning s live caller) (small : q < 2 ^ 45)
    (room : HasRoom s.heap.calloc (4 + (4 + n)) s.heap.blocks) where
  abbrev pgd : ℕ
  pgd = pgd_of s caller

  abbrev pub IsLoaded : Option (Option ℕ × Machine) → Type 0
  IsLoaded result =
      (f : ℕ) × (s' : Machine) × (result ≡ some (some f, s'))
      × IsKept s live caller n s'
      × (at s'.heap (pgd_of s' caller) q ≡ in_ram f)

  abbrev pub IsRefused : Option (Option ℕ × Machine) → Type 0
  IsRefused result =
      IsFull s caller × ((s' : Machine) × (result ≡ some (none, s')) × IsKept s live caller n s')

  swap_in-cases :
      (h : ℕ)
      → at s.heap pgd q ≡ in_swap h
      → IsLoaded (swap_in caller q h s) ⊎ IsRefused (swap_in caller q h s)
  unfolding swap_in
  swap_in-cases h here = elim (make_room_lem s home live caller (4 + n) c run room) [
    | inl (f, s1, e, frame) ↦
        let kept = frame.kept in
        let (s2, e', kept', there) =
          load_page-IsKept s1 kept.homes live caller q h f n kept.consistent kept.running small
            (ap (λ d. at s1.heap d q) kept.same_pgd ∙ frame.swapped q h small here) frame.loose
            kept.room in
        inl (
          f,
          s2,
          bind-run (make_room caller) _ s (some f) s1 e
              ∙ bind-run (load_page caller q h f) _ s1 f s2 e',
          IsKept-trans s s1 s2 live caller (4 + n) n kept kept',
          ap (λ d. at s2.heap d q) kept'.same_pgd ∙ there,
        )
    | inr (full, (s1, e, kept)) ↦ inr (
      full,
      (
        s1,
        bind-run (make_room caller) _ s none s1 e,
        record {
          homes = kept.homes;
          consistent = kept.consistent;
          stays = kept.stays;
          running = kept.running;
          same_procs = kept.same_procs;
          same_krnl = kept.same_krnl;
          same_pgd = kept.same_pgd;
          same_mm = kept.same_mm;
          room = HasRoom-less s1.heap.calloc n s1.heap.blocks kept.room;
        },
      ),
    )
  ]

  abbrev pub PageCases : Type 0
  PageCases =
      ((at s.heap pgd q ≡ nowhere) × (pg_getpage caller q s ≡ some (none, s)))
      ⊎ (((f : ℕ) × (at s.heap pgd q ≡ in_ram f) × (pg_getpage caller q s ≡ some (some f, s)))
          ⊎ (((h : ℕ) × (at s.heap pgd q ≡ in_swap h))
              × (IsLoaded (pg_getpage caller q s) ⊎ IsRefused (pg_getpage caller q s))))

  -- In a consistent state, for a caller that the system calls find and whose queued pages are in RAM,
  -- with room for eight more tables and `n` others, a call for a page below 2 ^ 45 ends in one of
  -- four ways. There is no such page, and nothing changes; or the page is in a frame of RAM, which is
  -- returned, and nothing changes. Or the page is swapped out: then it is in the returned frame of RAM
  -- afterwards; or, only if RAM has no free frame and the caller has no queued page or the swap
  -- device no free frame, the call fails. In the last two cases every byte of every page of every
  -- process is as before, and state and caller satisfy the same conditions again.
  pub pg_getpage_lem : PageCases
  unfolding pg_getpage
  pg_getpage_lem =
      let (pte, read, word) = c.words pgd q (run.owner, small) in
      let place_of = at-entry s.heap pgd q pte read in
      let step = bind-run (get_entry caller q) _ s pte s (get_entry-run s caller q pte read) in
      elim (Bool-cases (is_swapped pte)) [
        | inl out ↦
            let here = place_of ∙ place-swapped pte out in
            let result : pg_getpage caller q s ≡ swap_in caller q (paging_swp pte) s =
              step ∙ rw out refl in
            inr (
              inr (
                (paging_swp pte, here),
                subst (λ r. IsLoaded r ⊎ IsRefused r) (sym result)
                    (swap_in-cases (paging_swp pte) here),
              ))
        | inr not_out ↦ elim (Bool-cases (is_present pte)) [
          | inl there ↦ inr (
              inl (
                paging_fpn pte,
                place_of ∙ place-present pte not_out there,
                step ∙ rw (not_out, there) refl,
              ))
          | inr gone ↦
              inl (place_of ∙ place-absent pte not_out gone, step ∙ rw (not_out, gone) refl)
        ]
      ]
