-- ===== src/Vlist/Tests.antt =====
-- The theorem about a reload at a concrete tree, and runs of the model.
use libubox.Base.{ℕ, ◌≡◌, refl, false, none, some, List, [], ◌∷◌}
use libubox.Base.Int.{pos}
use libubox.Base.Int.{◌+ℤ◌}
use libubox.Avl.Assoc.{lookup, remove_key, visible, assoc}
use libubox.Vlist.{Vlist, vlist_delete, vlist_add, is_fresh, flush_loop, vlist_flush}
use libubox.Vlist.Reload.{reload}

-- Nodes 11 and 12 under the keys 1 and 2, of version 1.
abbrev loaded : Vlist assoc
loaded = record {
  avl = (1, 11) ∷ (2, 12) ∷ [];
  keep_old = false;
  no_delete = false;
  version = pos 1;
  node_version = λ i. pos 1;
  calls = [];
}

-- A new node under 2, and one under 3.
abbrev next_load : List (ℕ × ℕ)
next_load = (2, 22) ∷ (3, 23) ∷ []

reload_runs :
    (reload assoc next_load loaded).calls
    ≡ record { new = none; old = some 11 }
      ∷ record { new = some 23; old = none }
      ∷ record { new = some 22; old = some 12 }
      ∷ []
unfolding vlist_flush flush_loop vlist_add vlist_delete is_fresh lookup remove_key visible ◌+ℤ◌
reload_runs = refl
