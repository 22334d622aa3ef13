-- ===== src/DataStructures/Nodes/Appending.antt =====
-- `append_linked_list`, which leaves the `next` of the new node unwritten.
use medusa_os.Prelude.{
  ℕ, zero, suc, ◌+◌, ◌<◌, ◌≡◌, ◌≢◌, inl, inr, refl, ap, sym, ◌∙◌, subst, arith, false, Option, none,
  some, List, [], ◌∷◌, length, ok, fault, eq→==, ne→==_false,
}
use medusa_os.DataStructures.Nodes.{
  Node, Store, put, alloc_node, last_from, append_linked_list, linked_list_find,
}
use medusa_os.DataStructures.Nodes.Chains.{
  In, Seg, Chain, has_value, put_self, put_other, put-Seg, fresh-not-In, root-not-null,
  linked_list_find-Seg,
}

-- The last node of a list, and the list with that node's `next` changed.
record HasLast (st : Store) (root : ℕ) (ps : List (ℕ × ℕ)) (fuel place : ℕ) : Type 0 where
  last : ℕ
  value : ℕ
  found : last_from fuel st root ≡ some (ok last)
  inside : In last ps
  node : st last ≡ some (record { value = some value; next = some 0 })
  linked : Seg (put st last (some (record { value = some value; next = some place }))) root ps place

last_from-HasLast :
    (st : Store) (root : ℕ) (p : ℕ × ℕ) (ps : List (ℕ × ℕ)) (fuel place : ℕ)
    → Chain st root (p ∷ ps)
    → length ps < fuel
    → HasLast st root (p ∷ ps) fuel place
last_from-HasLast st root p ps zero place c h = absurd (omega arith)
last_from-HasLast st root p [] (suc fuel) place (at, ne, apart, (next, here, s)) h =
    let here' = here ∙ ap (λ t. some (record { value = some p.1; next = some t })) s in
    record {
      last = p.0;
      value = p.1;
      found = rw (last_from, ap st at ∙ here') (ap (λ t. some (ok t)) at);
      inside = inl refl;
      node = here';
      linked = (
        at,
        ne,
        apart,
        (place, put_self st p.0 (some (record { value = some p.1; next = some place })), refl),
      );
    }
last_from-HasLast st root p (q ∷ qs) (suc fuel) place (at, ne, apart, (next, here, s)) h =
    let l = last_from-HasLast st next q qs fuel place s (omega arith) in
    let node : ℕ → Option Node = λ t. some (record { value = some l.value; next = some t }) in
    record {
      last = l.last;
      value = l.value;
      found =
          rw (last_from, ap st at ∙ here, ne→==_false next 0 (root-not-null next q.0 s.0 s.1))
            l.found;
      inside = inr l.inside;
      node = l.node;
      linked = (
        at,
        ne,
        apart,
        (
          next,
          put_other st l.last p.0 (node place)
                (λ e. apart (subst (λ t. In t (q ∷ qs)) (sym e) l.inside))
              ∙ here,
          l.linked,
        ),
      );
    }

append-last :
    (st : Store) (place v root fuel last value : ℕ)
    → last_from fuel
        (put (alloc_node st place) place (some (record { value = some v; next = none })))
        root
      ≡ some (ok last)
    → put (alloc_node st place) place (some (record { value = some v; next = none })) last
      ≡ some (record { value = some value; next = some 0 })
    → append_linked_list fuel st place v root
      ≡ some (
          ok (
            put
              (put (alloc_node st place) place (some (record { value = some v; next = none })))
              last
              (some (record { value = some value; next = some place }))))
unfolding append_linked_list
append-last st place v root fuel last value found node =
    rw (append_linked_list, eq→== place place refl, found, node) refl

-- For a list that holds `ps` and is not empty, and an address that `kmalloc` may return,
-- `append_linked_list` succeeds with more turns than the list is long, and afterwards a search for any
-- data that is neither in `ps` nor the new data reads memory that was never written.
pub linked_list_find-append :
    (st : Store) (root place v : ℕ) (p : ℕ × ℕ) (ps : List (ℕ × ℕ)) (fuel w : ℕ)
    → Chain st root (p ∷ ps)
    → st place ≡ none
    → place ≢ 0
    → length ps < fuel
    → has_value w (p ∷ ps) ≡ false
    → v ≢ w
    → (st' : Store) × (append_linked_list fuel st place v root ≡ some (ok st'))
      × (linked_list_find (length (p ∷ ps) + fuel) st' w root ≡ some fault)
unfolding linked_list_find
linked_list_find-append st root place v p ps (suc fuel) w c free ne long absent differs =
    let out : ¬ In place (p ∷ ps) = fresh-not-In st place root (p ∷ ps) 0 free c in
    let s1 : Store = alloc_node st place in
    let fresh : Option Node = some (record { value = some v; next = none }) in
    let s2 : Store = put s1 place fresh in
    let c2 : Chain s2 root (p ∷ ps) =
      put-Seg s1 place fresh root (p ∷ ps) 0 out
        (put-Seg st place (some (record { value = none; next = none })) root (p ∷ ps) 0 out c) in
    let l = last_from-HasLast s2 root p ps (suc fuel) place c2 long in
    let node : Option Node = some (record { value = some l.value; next = some place }) in
    let other : place ≢ l.last = λ e. out (subst (λ t. In t (p ∷ ps)) (sym e) l.inside) in
    let at_place : put s2 l.last node place ≡ fresh =
      put_other s2 l.last place node other ∙ put_self s1 place fresh in
    (
      put s2 l.last node,
      append-last st place v root (suc fuel) l.last l.value l.found l.node,
      linked_list_find-Seg (put s2 l.last node) w root (p ∷ ps) place (suc fuel) l.linked absent
          ∙ rw (ne→==_false place 0 ne, at_place, ne→==_false v w differs, at_place) refl,
    )
linked_list_find-append st root place v p ps zero w c free ne long absent differs =
    absurd (omega arith)
