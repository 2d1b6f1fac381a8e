-- ===== src/Libmem/Stored.antt =====
-- A byte written to the RAM frame of a page changes that byte of that page and nothing else.
use os_assignment.Base.{
  ℕ, ◌+◌, ◌*◌, ◌≤◌, ◌<◌, ◌≡◌, ◌≢◌, ◌⊎◌, inl, inr, refl, sym, ap, subst, ◌∙◌, arith, List, [], ◌∷◌,
  Bool, length, length-set, get_or-set_self, get_or-set_ne, All,
}
use os_assignment.Memphy.Laws.{stored}
use os_assignment.Libmem.Layout.{
  Place, in_ram, in_swap, nowhere, Memory, at, byte, content, Fits, IsTaken, IsPage, IsConsistent,
}
use os_assignment.Libmem.Places.{in_ram-ne-nowhere}

-- `m'` is `m` with byte `v` at offset `off` of page `q` of `r`.
pub record IsStored (m : Memory) (live : ℕ → Bool) (r q off v : ℕ) (m' : Memory) : Type 0 where
  pub self : content m' r q off ≡ v
  pub others :
      (r' q' i : ℕ)
      → IsPage live r' q'
      → i < 256
      → (r' ≢ r) ⊎ ((q' ≢ q) ⊎ (i ≢ off))
      → content m' r' q' i ≡ content m r' q' i

module _ (m : Memory) (home : ℕ → List ℕ) (live : ℕ → Bool) (r q f off v : ℕ)
    (c : IsConsistent m home live) (page : IsPage live r q) (here : at m.heap r q ≡ in_ram f)
    (low : off < 256) where
  abbrev pub after : Memory
  after = record m { mram = stored m.mram (f * 256 + off) v }

  same_size : length after.mram.storage ≡ length m.mram.storage
  same_size = length-set m.mram.storage (f * 256 + off) v

  after-Fits : (x : Place) → Fits m x → Fits after x
  after-Fits (in_ram k) (small, inside) =
      (small, subst (λ n. k * 256 + 256 ≤ n) (sym same_size) inside)
  after-Fits (in_swap k) h = h
  after-Fits nowhere h = tt

  after-IsTaken : (x : Place) → IsTaken m x → IsTaken after x
  after-IsTaken (in_ram k) h = h
  after-IsTaken (in_swap k) h = h
  after-IsTaken nowhere h = tt

  All-Fits : (fs : List ℕ) → All (λ k. Fits m (in_ram k)) fs → All (λ k. Fits after (in_ram k)) fs
  All-Fits [] h = tt
  All-Fits (k ∷ fs) (h, hs) = (after-Fits (in_ram k) h, All-Fits fs hs)

  pub after-IsConsistent : IsConsistent after home live
  after-IsConsistent = record {
    forest = c.forest;
    roots = c.roots;
    random_ram = c.random_ram;
    random_swap = c.random_swap;
    words = c.words;
    fits = λ a b p. after-Fits (at m.heap a b) (c.fits a b p);
    taken = λ a b p. after-IsTaken (at m.heap a b) (c.taken a b p);
    alone = c.alone;
    free_ram = (All-Fits m.mram.free_fp_list c.free_ram.0, c.free_ram.1);
    free_swap = c.free_swap;
  }

  inside : f * 256 + 256 ≤ length m.mram.storage
  inside = (subst (Fits m) here (c.fits r q page)).1

  byte-other :
      (x : Place) (i : ℕ) → i < 256 → (x ≢ in_ram f) ⊎ (i ≢ off) → byte after x i ≡ byte m x i
  byte-other (in_ram k) i small apart =
      get_or-set_ne m.mram.storage (f * 256 + off) (k * 256 + i) v 0 (λ e. elim apart [
        | inl other ↦ other (ap in_ram (let same : k ≡ f = omega arith in same))
        | inr other ↦ omega arith
      ])
  byte-other (in_swap k) i small apart = refl
  byte-other nowhere i small apart = refl

  -- Another page is in another frame.
  frame-other : (r' q' : ℕ) → IsPage live r' q' → (r' ≢ r) ⊎ (q' ≢ q) → at m.heap r' q' ≢ in_ram f
  frame-other r' q' p apart e =
      let (same, same') =
        c.alone r' q' r q p page (e ∙ sym here) (λ z. in_ram-ne-nowhere (sym e ∙ z)) in
      elim apart [ inl other ↦ other same | inr other ↦ other same' ]

  pub after-IsStored : IsStored m live r q off v after
  after-IsStored = record {
    self =
        ap (λ x. byte after x off) here
        ∙ get_or-set_self m.mram.storage (f * 256 + off) v 0 (omega (arith, inside));
    others = λ r' q' i p small apart. byte-other (at m.heap r' q') i small (elim apart [
      | inl other ↦ inl (frame-other r' q' p (inl other))
      | inr (inl other) ↦ inl (frame-other r' q' p (inr other))
      | inr (inr other) ↦ inr other
    ]);
  }
