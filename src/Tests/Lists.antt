-- ===== src/Tests/Lists.antt =====
-- Linked lists of a few items.
use simple_as_pi.Common.{refl, [], ◌∷◌, arith}
use simple_as_pi.Dll.{Links, dll_replace}
use simple_as_pi.Dll.Ring.{IsList}
use simple_as_pi.Dll.Attach.{IsAlone}
use simple_as_pi.Dll.Move.{dll_replace_head}
use simple_as_pi.Tests.State.{two, some_links, runnable_list}

abbrev more_links : Links
more_links = two 41 42 some_links

dll_replace_head_example :
    IsList (dll_replace 21 31 21 some_links).0 (dll_replace 21 31 21 some_links).1 (31 ∷ 22 ∷ [])
    × IsAlone (dll_replace 21 31 21 some_links).0 21
dll_replace_head_example = dll_replace_head some_links 21 31 22 [] refl (ground arith) runnable_list
