-- ===== src/Examples/Lists.antt =====
-- The theorems on kernel/list at a list of two nodes, 10 and 20, with its head at 1.
use ucas_oslab_project.Common.{refl, [], ◌∷◌}
use ucas_oslab_project.LinkedList.{Links, list_add_tail}
use ucas_oslab_project.LinkedList.Chain.{IsRing}
use ucas_oslab_project.Examples.States.{detached}

abbrev two : Links
two = list_add_tail 20 1 (list_add_tail 10 1 detached)

two-IsRing : IsRing two 1 (10 ∷ 20 ∷ [])
unfolding list_add_tail
two-IsRing = record {
  chain = (refl, refl, (refl, refl, (refl, refl)));
  distinct = (refl, (refl, (refl, tt)));
}

empty-IsRing : IsRing two 2 []
unfolding list_add_tail
empty-IsRing = record { chain = (refl, refl); distinct = (refl, tt) }
