-- ===== src/Libmem/Pool.antt =====
-- Taking a free frame of a device, and giving the frame of no page back.
use os_assignment.Base.{ℕ, ◌≡◌, ◌≢◌, refl, ap, subst, List, ◌∷◌, Bool, All}
use os_assignment.Libmem.Places.{in_ram-ne-nowhere, in_swap-ne-nowhere}
use os_assignment.Libmem.Layout.{
  Place, in_ram, in_swap, nowhere, Memory, at, Avoids, Distinct, Fits, IsTaken, IsConsistent,
  IsLoose,
}

abbrev pub with_ram_frames : Memory → List ℕ → Memory
with_ram_frames m fs = record m { mram = record m.mram { free_fp_list = fs } }

abbrev pub with_swap_frames : Memory → List ℕ → Memory
with_swap_frames m fs = record m { mswp = record m.mswp { free_fp_list = fs } }

module _ (m : Memory) (home : ℕ → List ℕ) (live : ℕ → Bool) (c : IsConsistent m home live) (f : ℕ)
    (rest : List ℕ) where
  -- The first free frame of RAM.
  module _ (first : m.mram.free_fp_list ≡ f ∷ rest) where
    listed : All (λ g. Fits m (in_ram g)) (f ∷ rest) × Distinct (f ∷ rest)
    listed = subst (λ fs. All (λ g. Fits m (in_ram g)) fs × Distinct fs) first c.free_ram

    fewer : (x : Place) → IsTaken m x → IsTaken (with_ram_frames m rest) x
    fewer (in_ram g) h = (subst (λ fs. Avoids fs g) first h).1
    fewer (in_swap g) h = h
    fewer nowhere h = tt

    pub pop_ram-IsConsistent : IsConsistent (with_ram_frames m rest) home live
    pop_ram-IsConsistent = record {
      forest = c.forest;
      roots = c.roots;
      random_ram = c.random_ram;
      random_swap = c.random_swap;
      words = c.words;
      fits = λ r q p. same_Fits (at m.heap r q) (c.fits r q p);
      taken = λ r q p. fewer (at m.heap r q) (c.taken r q p);
      alone = c.alone;
      free_ram = (listed.0.1, listed.1.1);
      free_swap = c.free_swap;
    }
      where
        same_Fits : (x : Place) → Fits m x → Fits (with_ram_frames m rest) x
        same_Fits (in_ram g) h = h
        same_Fits (in_swap g) h = h
        same_Fits nowhere h = tt

    pub pop_ram-IsLoose : IsLoose (with_ram_frames m rest) live (in_ram f)
    pop_ram-IsLoose = record {
      fits = listed.0.0;
      taken = listed.1.0;
      real = in_ram-ne-nowhere;
      unused =
          λ r q p e. (subst (λ fs. Avoids fs f) first (subst (IsTaken m) e (c.taken r q p))).0 refl;
    }

  -- The first free frame of the swap device.
  module _ (first : m.mswp.free_fp_list ≡ f ∷ rest) where
    listed_swap : All (λ g. Fits m (in_swap g)) (f ∷ rest) × Distinct (f ∷ rest)
    listed_swap = subst (λ fs. All (λ g. Fits m (in_swap g)) fs × Distinct fs) first c.free_swap

    fewer_swap : (x : Place) → IsTaken m x → IsTaken (with_swap_frames m rest) x
    fewer_swap (in_ram g) h = h
    fewer_swap (in_swap g) h = (subst (λ fs. Avoids fs g) first h).1
    fewer_swap nowhere h = tt

    pub pop_swap-IsConsistent : IsConsistent (with_swap_frames m rest) home live
    pop_swap-IsConsistent = record {
      forest = c.forest;
      roots = c.roots;
      random_ram = c.random_ram;
      random_swap = c.random_swap;
      words = c.words;
      fits = λ r q p. same_Fits (at m.heap r q) (c.fits r q p);
      taken = λ r q p. fewer_swap (at m.heap r q) (c.taken r q p);
      alone = c.alone;
      free_ram = c.free_ram;
      free_swap = (listed_swap.0.1, listed_swap.1.1);
    }
      where
        same_Fits : (x : Place) → Fits m x → Fits (with_swap_frames m rest) x
        same_Fits (in_ram g) h = h
        same_Fits (in_swap g) h = h
        same_Fits nowhere h = tt

    pub pop_swap-IsLoose : IsLoose (with_swap_frames m rest) live (in_swap f)
    pop_swap-IsLoose = record {
      fits = listed_swap.0.0;
      taken = listed_swap.1.0;
      real = in_swap-ne-nowhere;
      unused =
          λ r q p e. (subst (λ fs. Avoids fs f) first (subst (IsTaken m) e (c.taken r q p))).0 refl;
    }

-- The frame of no page goes back to the swap device.
module _ (m : Memory) (home : ℕ → List ℕ) (live : ℕ → Bool) (c : IsConsistent m home live) (f : ℕ)
    (l : IsLoose m live (in_swap f)) where
  pub push_swap-IsConsistent : IsConsistent (with_swap_frames m (f ∷ m.mswp.free_fp_list)) home live
  push_swap-IsConsistent = record {
    forest = c.forest;
    roots = c.roots;
    random_ram = c.random_ram;
    random_swap = c.random_swap;
    words = c.words;
    fits = λ r q p. same_Fits (at m.heap r q) (c.fits r q p);
    taken = λ r q p. more (at m.heap r q) (l.unused r q p) (c.taken r q p);
    alone = c.alone;
    free_ram = c.free_ram;
    free_swap = ((l.fits, c.free_swap.0), (l.taken, c.free_swap.1));
  }
    where
      same_Fits : (x : Place) → Fits m x → Fits (with_swap_frames m (f ∷ m.mswp.free_fp_list)) x
      same_Fits (in_ram g) h = h
      same_Fits (in_swap g) h = h
      same_Fits nowhere h = tt

      more :
          (x : Place)
          → x ≢ in_swap f
          → IsTaken m x
          → IsTaken (with_swap_frames m (f ∷ m.mswp.free_fp_list)) x
      more (in_ram g) apart h = h
      more (in_swap g) apart h = ((λ e. apart (ap in_swap e)), h)
      more nowhere apart h = tt
