-- ===== src/Region/FirstFit.antt =====
-- `get_free_vmrg_area` is a first fit that loses no address and gives none away twice.
use os_assignment.Base.{
  ℕ, ◌+◌, ◌*◌, ◌%◌, ◌^◌, ◌≤◌, ◌<◌, ◌≡◌, ◌⊎◌, inl, inr, refl, ap, arith, ◌∙◌, List, [], ◌∷◌, none,
  some, leb, ◌==◌, Bool-cases, true, false, All,
}
use os_assignment.Region.{Rg, cut_region, get_free_vmrg_area}
use os_assignment.Region.Space.{
  IsRegion, TooShort, IsCut, CutCases, head_cut, remainder, remainder-space, remainder-regions,
}

pub cut_region-first :
    (size : ℕ) (rg : Rg) (rest : List Rg)
    → size < 2 ^ 31
    → IsRegion rg
    → rg.rg_start + size ≤ rg.rg_end
    → cut_region size (rg ∷ rest) ≡ some (head_cut size rg, remainder size rg rest)
unfolding cut_region
cut_region-first size rg rest small r h =
    let bound = r.user in
    let same : (rg.rg_start + size) % 2 ^ 64 ≡ rg.rg_start + size = omega arith in
    let fits : leb (rg.rg_start + size) rg.rg_end ≡ true = ground arith in rw (same, fits)

cut_region-later :
    (size : ℕ) (rg : Rg) (rest : List Rg)
    → size < 2 ^ 31
    → IsRegion rg
    → TooShort size rg
    → cut_region size (rg ∷ rest) ≡ (elim (cut_region size rest) [
      | none ↦ none
      | some (found_rg, left) ↦ some (found_rg, rg ∷ left)
    ])
unfolding cut_region
cut_region-later size rg rest small r h =
    let ordered = r.ordered in
    let bound = r.user in
    let same : (rg.rg_start + size) % 2 ^ 64 ≡ rg.rg_start + size = omega arith in
    let short : leb (rg.rg_start + size) rg.rg_end ≡ false = ground arith in rw (same, short)

later-IsCut :
    (size : ℕ) (rg : Rg) (rest : List Rg) (cut : Rg) (left : List Rg)
    → IsRegion rg
    → TooShort size rg
    → IsCut size rest cut left
    → IsCut size (rg ∷ rest) cut (rg ∷ left)
later-IsCut size rg rest cut left r h c = record {
  before = rg ∷ c.before;
  rg = c.rg;
  behind = c.behind;
  split = ap (◌∷◌ rg) c.split;
  first = (h, c.first);
  start = c.start;
  end = c.end;
  fits = c.fits;
  space = λ a. omega (arith, c.space a);
  regions = (r, c.regions);
}

cut_region-CutCases :
    (size : ℕ) (rgs : List Rg)
    → size < 2 ^ 31
    → All IsRegion rgs
    → CutCases size rgs (cut_region size rgs)
unfolding cut_region
cut_region-CutCases size [] small rs = inl (refl, rs)
cut_region-CutCases size (rg ∷ rest) small (r, rs) =
    elim (Bool-cases (leb (rg.rg_start + size) rg.rg_end)) [
      | inl fits ↦ inr (
        head_cut size rg,
        remainder size rg rest,
        cut_region-first size rg rest small r (ground arith),
        record {
          before = [];
          rg = rg;
          behind = rest;
          split = refl;
          first = tt;
          start = refl;
          end = refl;
          fits = ground arith;
          space = λ a. remainder-space size rg rest a (ground arith);
          regions = remainder-regions size rg rest r (ground arith) rs;
        },
      )
      | inr short ↦ elim (cut_region-CutCases size rest small rs) [
        | inl (e, all) ↦
            inl (cut_region-later size rg rest small r (ground arith) ∙ rw e, (ground arith, all))
        | inr (cut, left, e, c) ↦ inr (
          cut,
          rg ∷ left,
          cut_region-later size rg rest small r (ground arith) ∙ rw e,
          later-IsCut size rg rest cut left r (ground arith) c,
        )
      ]
    ]

-- A size that fits an `int` and is not 0.
pub get_free_vmrg_area-cut_region :
    (rgs : List Rg) (size : ℕ)
    → 0 < size
    → size < 2 ^ 31
    → get_free_vmrg_area rgs size ≡ cut_region size rgs
unfolding get_free_vmrg_area
get_free_vmrg_area-cut_region rgs size real small =
    let same : size % 2 ^ 32 ≡ size = omega arith in
    let nonzero : (size == 0) ≡ false = ground arith in
    let positive : leb (2 ^ 31) size ≡ false = ground arith in rw (same, nonzero, positive) refl

-- For a list of regions of user space, a request of `size` bytes, with 0 < size < 2 ^ 31, fails
-- exactly when every region is too short. Otherwise the new region has exactly `size` bytes at the
-- start of the first region that is long enough, every address is held by the new region and the
-- list that is left together as often as by the list before, and the list still has regions of user
-- space.
pub get_free_vmrg_area_lem :
    (freerg_list : List Rg) (size : ℕ)
    → 0 < size
    → size < 2 ^ 31
    → All IsRegion freerg_list
    → CutCases size freerg_list (get_free_vmrg_area freerg_list size)
unfolding get_free_vmrg_area
get_free_vmrg_area_lem rgs size real small rs =
    let same : size % 2 ^ 32 ≡ size = omega arith in
    let nonzero : (size == 0) ≡ false = ground arith in
    let positive : leb (2 ^ 31) size ≡ false = ground arith in
    rw (same, nonzero, positive) (cut_region-CutCases size rgs small rs)

-- A size of 64 bits reaches `get_free_vmrg_area` as an `int`: sizes that differ by a multiple of
-- 2 ^ 32 get the same region, and one whose low 32 bits are 0, or are 2 ^ 31 or more, gets none.
pub get_free_vmrg_area-truncates :
    (freerg_list : List Rg) (size more : ℕ)
    → (get_free_vmrg_area freerg_list (size + more * 2 ^ 32) ≡ get_free_vmrg_area freerg_list size)
      × ((size % 2 ^ 32 ≡ 0) ⊎ (2 ^ 31 ≤ size % 2 ^ 32)
          → get_free_vmrg_area freerg_list size ≡ none)
unfolding get_free_vmrg_area
get_free_vmrg_area-truncates rgs size more =
    let same : (size + more * 2 ^ 32) % 2 ^ 32 ≡ size % 2 ^ 32 = omega arith in
    (
      rw same,
      λ h. elim (Bool-cases (size % 2 ^ 32 == 0)) [
        | inl e ↦ rw e
        | inr e ↦ let big : leb (2 ^ 31) (size % 2 ^ 32) ≡ true = ground arith in rw (e, big)
      ],
    )
