-- ===== src/Tests/Arrays.antt =====
-- An array of three blocks of two words, at 0x1000.
use simple_as_pi.Common.{refl, [], ◌∷◌, arith, update}
use simple_as_pi.Heap.{Words}
use simple_as_pi.Legacy.Blocks.{word_of, fill_words, link_blocks, cb_array}
use simple_as_pi.Legacy.FreeBlocks.{IsArray}
use simple_as_pi.Legacy.Made.{IsMade, cb_array-IsMade}
use simple_as_pi.Legacy.Freed.{IsFreed, cba_free-IsFreed}

abbrev empty : Words
empty p = 0

cb_array-IsMade_example : IsMade 3 2 0x1000 empty (cb_array 3 4 0x1000 empty)
cb_array-IsMade_example =
    cb_array-IsMade 3 2 4 0x1000 empty refl (omega arith) (omega arith) (omega arith) (omega arith)

-- The first block is taken.
abbrev one_taken : Words
one_taken = update (update (cb_array 3 4 0x1000 empty).1 0x100c 0) 0x1008 0x1014

one_taken-IsArray : IsArray 0x1000 2 3 one_taken (1 ∷ 2 ∷ [])
unfolding cb_array word_of fill_words link_blocks
one_taken-IsArray = (refl, refl, (refl, omega arith, refl, (refl, omega arith, refl, refl)))

cba_free-IsFreed_example : (m' : Words) × IsFreed 0x1000 2 3 0 (1 ∷ 2 ∷ []) one_taken m'
cba_free-IsFreed_example =
    cba_free-IsFreed 0x1000 2 3 0 (1 ∷ 2 ∷ []) one_taken one_taken-IsArray (omega arith) refl refl
      (omega arith) (omega arith) (omega arith)
