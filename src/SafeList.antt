-- ===== src/SafeList.antt =====
-- safe_list.c and safe_list.h, lists whose elements may be deleted while they are iterated over. A node is a number,
-- the address of an element or of the head, and so is an iterator.
pub mod Points
pub mod Visits
mod Tests
use libubox.Base.{
  ℕ, zero, suc, ◌+◌, Bool, true, false, Option, none, some, List, [], ◌∷◌, ◌++◌, ◌==◌,
  if◌then◌else◌,
}
use libubox.Links.{has, remove}

-- A list: its head, its elements in order, the iterators that hang at a node, `i` and their `next_i`, and the
-- `next` of an iterator.
pub record SafeList : Type 0 where
  pub head : ℕ
  pub items : List ℕ
  pub chain : ℕ → List ℕ
  pub next : ℕ → ℕ

abbrev pub first : List ℕ → ℕ → ℕ
first [] head = head
first (x ∷ r) head = x

-- The node behind an element.
unfoldable pub next_of : List ℕ → ℕ → ℕ → ℕ
next_of [] node head = head
next_of (x ∷ r) node head =
    let rest = next_of r node head in if x == node then first r head else rest

abbrev pub next_node : SafeList → ℕ → ℕ
next_node s node = if node == s.head then first s.items s.head else next_of s.items node s.head

abbrev pub put : (ℕ → List ℕ) → ℕ → List ℕ → ℕ → List ℕ
put chain node l n = if n == node then l else chain n

-- `__safe_list_set_iterator`.
unfoldable pub set_iterator : SafeList → ℕ → ℕ → SafeList
set_iterator s node i =
    let next = next_node s node in
    record s {
      chain = put s.chain next (i ∷ s.chain next);
      next = λ j. if j == i then next else s.next j;
    }

-- `__safe_list_del_iterator`.
unfoldable pub del_iterator : SafeList → ℕ → SafeList
del_iterator s i = record s { chain = put s.chain (s.next i) (remove i (s.chain (s.next i))) }

-- `__safe_list_move_iterator`.
unfoldable pub move_iterator : SafeList → ℕ → ℕ → SafeList
move_iterator s node i = set_iterator (del_iterator s i) node i

-- `safe_list_add`.
unfoldable pub safe_list_add : SafeList → ℕ → SafeList
safe_list_add s e = record s { items = s.items ++ (e ∷ []); chain = put s.chain e [] }

-- `safe_list_add_first`.
unfoldable pub safe_list_add_first : SafeList → ℕ → SafeList
safe_list_add_first s e = record s { items = e ∷ s.items; chain = put s.chain e [] }

-- `safe_list_del` of an element.
unfoldable pub safe_list_del : SafeList → ℕ → SafeList
safe_list_del s e =
    let next = next_node s e in
    let moved = s.chain e in
    record s {
      items = remove e s.items;
      chain = put (put s.chain next (moved ++ s.chain next)) e [];
      next = λ j. if has moved j then next else s.next j;
    }

-- The loop of `safe_list_for_each` on fuel, with the elements that `cb` is called with: `cb` gives the list
-- after it and whether its result is not 0.
unfoldable pub for_each_loop :
    ℕ → (ℕ → SafeList → SafeList × Bool) → ℕ → ℕ → SafeList → Option (SafeList × List ℕ)
for_each_loop zero cb i cur s = none
for_each_loop (suc n) cb i cur s = elim (cur == s.head) [
  | true ↦ some (del_iterator s i, [])
  | false ↦
      let called = cb cur s in
      elim called.1 [
        | true ↦ some (del_iterator called.0 i, cur ∷ [])
        | false ↦
            let node = called.0.next i in
            elim (for_each_loop n cb i node (move_iterator called.0 node i)) [
              | none ↦ none
              | some (s', visited) ↦ some (s', cur ∷ visited)
            ]
      ]
]

-- `safe_list_for_each`.
unfoldable pub safe_list_for_each :
    ℕ → (ℕ → SafeList → SafeList × Bool) → ℕ → SafeList → Option (SafeList × List ℕ)
safe_list_for_each n cb i s =
    let cur = first s.items s.head in for_each_loop n cb i cur (set_iterator s cur i)
