-- ===== src/Frames/Examples.antt =====
-- Three free frames, and requests for two and for four of them.
use os_assignment.Base.{◌⊎◌, ◌≡◌, refl, [], ◌∷◌}
use os_assignment.Memphy.{Memphy, get_freefp, put_freefp}
use os_assignment.Frames.{out_of_memory, frames_taken, alloc_pages_range, give_back}
use os_assignment.Frames.Laws.{AllFrames, NoFrames, with_free, alloc_pages_range_lem}

abbrev three_free : Memphy
three_free = record {
  storage = [];
  maxsz = 768;
  rdmflg = 1;
  cursor = 0;
  free_fp_list = 2 ∷ 0 ∷ 1 ∷ [];
}

two_taken :
    alloc_pages_range 2 [] three_free
    ≡ record { code = frames_taken; frm_lst = 0 ∷ 2 ∷ []; mram = with_free three_free (1 ∷ []) }
unfolding alloc_pages_range get_freefp
two_taken = refl

four_refused :
    alloc_pages_range 4 [] three_free
    ≡ record { code = out_of_memory; frm_lst = []; mram = three_free }
unfolding alloc_pages_range get_freefp put_freefp give_back
four_refused = refl

alloc_pages_range_example : AllFrames 2 three_free ⊎ NoFrames 2 three_free
alloc_pages_range_example = alloc_pages_range_lem 2 three_free
