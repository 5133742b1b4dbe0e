-- ===== src/SafeList/Tests.antt =====
-- Tests of the model of safe_list.c, and instances of what is proved of it.
use libubox.Base.{
  ℕ, ◌≡◌, inl, inr, refl, Bool, false, List, [], ◌∷◌, arith, ◌==◌, if◌then◌else◌, Yields,
  Bool-cases,
}
use libubox.Links.{remove}
use libubox.SafeList.{
  SafeList, next_of, set_iterator, del_iterator, move_iterator, safe_list_add, safe_list_add_first,
  safe_list_del, for_each_loop, safe_list_for_each,
}
use libubox.SafeList.Points.{IsSafe}
use libubox.SafeList.Visits.{delete_all, deletes, Visited, safe_list_for_each-Visited}

-- The head is 9, and iterator 20 is to come to the element 2.
abbrev list : SafeList
list = record {
  head = 9;
  items = 1 ∷ 2 ∷ 3 ∷ 4 ∷ [];
  chain = λ n. if n == 2 then 20 ∷ [] else [];
  next = λ i. 2;
}

list-IsSafe : IsSafe list
list-IsSafe = record {
  hung = λ n i h. ground (arith, h);
  chains =
      λ n. elim (Bool-cases (n == 2)) [ inl this ↦ rw this (refl, tt) | inr other ↦ rw other tt ];
  distinct = (refl, (refl, (refl, (refl, tt))));
  no_head = refl;
}

-- At 1 the callback deletes 1 and 2, and at 3 it deletes 4.
abbrev dels : ℕ → List ℕ
dels x = if x == 1 then 1 ∷ 2 ∷ [] else if x == 3 then 4 ∷ [] else []

visits_1_and_3 :
    Yields
      (λ out. (out.1 ≡ 1 ∷ 3 ∷ []) × (out.0.items ≡ 3 ∷ []) × (out.0.next 20 ≡ 3))
      (safe_list_for_each 5 (deletes dels (λ x. false)) 10 list)
unfolding safe_list_for_each for_each_loop set_iterator del_iterator move_iterator safe_list_del
    delete_all next_of remove
visits_1_and_3 = (refl, refl, refl)

-- An element that is added at the end is visited, but not while the last one is.
abbrev adds : ℕ → SafeList → SafeList × Bool
adds x s = (
  if x == 3
      then safe_list_add (safe_list_add_first s 6) 5
      else if x == 5
      then safe_list_add s 7
      else s,
  false,
)

visits_added :
    Yields
      (λ out. (out.1 ≡ 1 ∷ 2 ∷ 3 ∷ 4 ∷ 5 ∷ []) × (out.0.items ≡ 6 ∷ 1 ∷ 2 ∷ 3 ∷ 4 ∷ 5 ∷ 7 ∷ []))
      (safe_list_for_each 9 adds 10 list)
unfolding safe_list_for_each for_each_loop set_iterator del_iterator move_iterator next_of remove
    safe_list_add safe_list_add_first
visits_added = (refl, refl)

safe_list_for_each-Visited_example :
    Yields
      (Visited dels (λ x. x == 3) 10 (1 ∷ 2 ∷ 3 ∷ 4 ∷ []))
      (safe_list_for_each 5 (deletes dels (λ x. x == 3)) 10 list)
safe_list_for_each-Visited_example =
    safe_list_for_each-Visited dels (λ x. x == 3) 10 list list-IsSafe (λ n. ground arith)
