-- ===== src/Paging/Address.antt =====
-- Splitting a virtual address: `get_pd_from_address`, `get_pd_from_pagenum` and `paging64_pgn` of
-- src/mm64.c, with the masks of include/mm64.h.
pub mod Laws
mod Examples
use os_assignment.Base.{ℕ, ◌+◌, ◌-◌, ◌*◌, ◌/◌, ◌%◌, ◌^◌, bit_and}
use os_assignment.Base.Masks.{genmask}

abbrev pub genmask64 : ℕ → ℕ → ℕ
genmask64 h l = genmask 64 h l

abbrev pub pgd_mask : ℕ
pgd_mask = genmask64 56 48

abbrev pub p4d_mask : ℕ
p4d_mask = genmask64 47 39

abbrev pub pud_mask : ℕ
pud_mask = genmask64 38 30

abbrev pub pmd_mask : ℕ
pmd_mask = genmask64 29 21

abbrev pub pt_mask : ℕ
pt_mask = genmask64 20 12

-- The five values that are returned through pointers.
pub record Indices : Type 0 where
  pub pgd : ℕ
  pub p4d : ℕ
  pub pud : ℕ
  pub pmd : ℕ
  pub pt : ℕ

unfoldable pub get_pd_from_address : ℕ → Indices
get_pd_from_address addr = record {
  pgd = bit_and addr pgd_mask / 2 ^ 48;
  p4d = bit_and addr p4d_mask / 2 ^ 39;
  pud = bit_and addr pud_mask / 2 ^ 30;
  pmd = bit_and addr pmd_mask / 2 ^ 21;
  pt = bit_and addr pt_mask / 2 ^ 12;
}

-- The page number is shifted as an `addr_t`.
unfoldable pub get_pd_from_pagenum : ℕ → Indices
get_pd_from_pagenum pgn = get_pd_from_address (pgn * 2 ^ 12 % 2 ^ 64)

abbrev pub paging64_pgn : ℕ → ℕ
paging64_pgn addr = addr / 2 ^ 12
