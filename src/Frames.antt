-- ===== src/Frames.antt =====
-- Taking frames from a device: `alloc_pages_range` of src/mm64.c.
pub mod Laws
mod Examples
use os_assignment.Base.{ℕ, zero, suc, List, [], ◌∷◌, Option, none, some}
use os_assignment.Memphy.{Memphy, get_freefp, put_freefp}

-- The return codes 0 and -3000.
pub data FrameCode : Type 0 where
  frames_taken out_of_memory : FrameCode

pub record Allocation : Type 0 where
  pub code : FrameCode
  pub frm_lst : List ℕ
  pub mram : Memphy

-- The loop that gives the frames back.
unfoldable pub give_back : List ℕ → Memphy → Memphy
give_back [] mp = mp
give_back (fpn ∷ rest) mp = give_back rest (put_freefp mp fpn)

-- The loop over the requested pages, with the rounds that are left. The field `owner` of a node is
-- never read.
unfoldable pub alloc_pages_range : ℕ → List ℕ → Memphy → Allocation
unfolding give_back
alloc_pages_range zero frm_lst mp = record { code = frames_taken; frm_lst = frm_lst; mram = mp }
alloc_pages_range (suc left) frm_lst mp = elim (get_freefp mp) [
  | none ↦ record { code = out_of_memory; frm_lst = []; mram = give_back frm_lst mp }
  | some (fpn, mp') ↦ alloc_pages_range left (fpn ∷ frm_lst) mp'
]
