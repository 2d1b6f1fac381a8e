-- ===== src/Region/Space.antt =====
-- The addresses that a list of regions holds, and what cutting a region off does to them.
use os_assignment.Base.{
  ℕ, ◌+◌, ◌^◌, ◌≤◌, ◌<◌, ◌≡◌, ◌⊎◌, inl, inr, arith, List, [], ◌∷◌, ◌++◌, Option, none, some, ltb,
  leb, ◌&&◌, Bool-cases, if◌then◌else◌, All,
}
use os_assignment.Region.{Rg}

abbrev pub held : Rg → ℕ → ℕ
held rg a = if leb rg.rg_start a && ltb a rg.rg_end then 1 else 0

-- How many regions of the list hold the address.
abbrev pub times : List Rg → ℕ → ℕ
times [] a = 0
times (rg ∷ rgs) a = held rg a + times rgs a

-- A region of user space, whose end does not wrap around when the largest size is added.
pub record IsRegion (rg : Rg) : Type 0 where
  pub ordered : rg.rg_start ≤ rg.rg_end
  pub user : rg.rg_end < 2 ^ 63

abbrev pub TooShort : ℕ → Rg → Type 0
TooShort size rg = rg.rg_end < rg.rg_start + size

-- `cut` is taken from the first region of the list that is long enough, and with the list that is
-- left it holds the same addresses, each as often as before.
pub record IsCut (size : ℕ) (rgs : List Rg) (cut : Rg) (left : List Rg) : Type 0 where
  pub before : List Rg
  pub rg : Rg
  pub behind : List Rg
  pub split : rgs ≡ before ++ rg ∷ behind
  pub first : All (TooShort size) before
  pub start : cut.rg_start ≡ rg.rg_start
  pub end : cut.rg_end ≡ cut.rg_start + size
  pub fits : cut.rg_end ≤ rg.rg_end
  pub space : (a : ℕ) → times rgs a ≡ held cut a + times left a
  pub regions : All IsRegion left

abbrev pub CutCases : ℕ → List Rg → Option (Rg × List Rg) → Type 0
CutCases size rgs result =
    ((result ≡ none) × All (TooShort size) rgs)
    ⊎ ((cut : Rg) × (left : List Rg) × (result ≡ some (cut, left)) × IsCut size rgs cut left)

-- The piece at the start of a region, and what is left of it.
abbrev pub head_cut : ℕ → Rg → Rg
head_cut size rg = record { rg_start = rg.rg_start; rg_end = rg.rg_start + size }

abbrev pub remainder : ℕ → Rg → List Rg → List Rg
remainder size rg rest =
    if ltb (rg.rg_start + size) rg.rg_end
    then record rg { rg_start = rg.rg_start + size } ∷ rest
    else (elim rest [
      | [] ↦ record rg { rg_start = rg.rg_end } ∷ []
      | next ∷ behind ↦ next ∷ behind
    ])

pub remainder-space :
    (size : ℕ) (rg : Rg) (rest : List Rg) (a : ℕ)
    → rg.rg_start + size ≤ rg.rg_end
    → held rg a + times rest a ≡ held (head_cut size rg) a + times (remainder size rg rest) a
remainder-space size rg [] a h = ground arith
remainder-space size rg (next ∷ behind) a h = ground arith

pub remainder-regions :
    (size : ℕ) (rg : Rg) (rest : List Rg)
    → IsRegion rg
    → rg.rg_start + size ≤ rg.rg_end
    → All IsRegion rest
    → All IsRegion (remainder size rg rest)
remainder-regions size rg rest r h rs = elim (Bool-cases (ltb (rg.rg_start + size) rg.rg_end)) [
  | inl e ↦ rw e (record { ordered = h; user = r.user }, rs)
  | inr e ↦ rw e (last rest rs)
]
  where
    last :
        (rs : List Rg)
        → All IsRegion rs
        → All IsRegion (elim rs [
          | [] ↦ record rg { rg_start = rg.rg_end } ∷ []
          | next ∷ behind ↦ next ∷ behind
        ])
    last [] k = (record { ordered = omega arith; user = r.user }, k)
    last (next ∷ behind) k = k
