-- ===== src/DataStructures/Nodes/Tests.antt =====
-- A stack, or list, of two nodes.
use medusa_os.Prelude.{
  ℕ, ◌≡◌, true, none, some, List, [], ◌∷◌, inl, inr, refl, arith, Outcome, ok, fault,
}
use medusa_os.DataStructures.Nodes.{
  Store, put, stack_push, stack_pop, stack_peek, append_linked_list, linked_list_find,
}
use medusa_os.DataStructures.Nodes.Chains.{
  Chain, stack_pop-push, stack_peek_lem, linked_list_find-Chain,
}
use medusa_os.DataStructures.Nodes.Appending.{linked_list_find-append}

abbrev two : Store
two =
    put (put (λ a. none) 100 (some (record { value = some 7; next = some 200 }))) 200
      (some (record { value = some 8; next = some 0 }))

abbrev nodes : List (ℕ × ℕ)
nodes = (100, 7) ∷ (200, 8) ∷ []

two-Chain : Chain two 100 nodes
two-Chain = (
  refl,
  λ e. omega (arith, e),
  elim [ inl e ↦ omega (arith, e) | inr i ↦ i ],
  (200, refl, (refl, λ e. omega (arith, e), λ i. i, (0, refl, refl))),
)

stack_pop-push_example :
    (st1 st2 : Store) × (◌≡◌ {A = Outcome (Store × ℕ)} (stack_push two 300 100 9) (ok (st1, 300)))
    × Chain st1 300 ((300, 9) ∷ nodes)
    × (◌≡◌ {A = Outcome (ℕ × Store × ℕ)} (stack_pop st1 300) (ok (9, st2, 100)))
    × Chain st2 100 nodes
stack_pop-push_example = stack_pop-push two 300 100 9 nodes two-Chain refl (λ e. omega (arith, e))

stack_peek_example : stack_peek two 100 ≡ ok 0
stack_peek_example = stack_peek_lem two 100 nodes two-Chain refl

linked_list_find_example : linked_list_find 3 two 8 100 ≡ some (ok true)
linked_list_find_example = linked_list_find-Chain two 8 100 nodes 3 two-Chain (omega arith)

linked_list_find-append_example :
    (st' : Store) × (append_linked_list 2 two 300 9 100 ≡ some (ok st'))
    × (linked_list_find 4 st' 10 100 ≡ some fault)
linked_list_find-append_example =
    linked_list_find-append two 100 300 9 (100, 7) ((200, 8) ∷ []) 2 10 two-Chain refl
      (λ e. omega (arith, e)) (omega arith) refl (λ e. omega (arith, e))
