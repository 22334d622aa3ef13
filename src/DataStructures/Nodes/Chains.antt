-- ===== src/DataStructures/Nodes/Chains.antt =====
-- Linked nodes as a sequence of their addresses and data.
use medusa_os.Prelude.{
  ℕ, zero, suc, ◌+◌, ◌<◌, ◌≡◌, ◌≢◌, ◌⊎◌, inl, inr, refl, ap, sym, ◌∙◌, subst, arith, ◌==◌,
  if◌then◌else◌, Bool, true, false, Option, none, some, List, [], ◌∷◌, length, Bool-cases, Outcome,
  ok, fault, eq→==, ne→==_false,
}
use medusa_os.DataStructures.Nodes.{
  Node, Store, put, alloc_node, create_stack_node, stack_push, stack_pop, stack_peek,
  linked_list_find,
}

abbrev pub In : ℕ → List (ℕ × ℕ) → Type 0
In a [] = ⊥
In a (p ∷ ps) = (a ≡ p.0) ⊎ In a ps

-- From `root` on, the nodes at the addresses of `ps`, all different, hold the data of `ps`, and the
-- last one points to `end`.
abbrev pub Seg : Store → (root : ℕ) → List (ℕ × ℕ) → (end : ℕ) → Type 0
Seg st root [] end = root ≡ end
Seg st root (p ∷ ps) end =
    (root ≡ p.0)
    × (p.0 ≢ 0)
    × (¬ In p.0 ps)
    × ((next : ℕ) × (st p.0 ≡ some (record { value = some p.1; next = some next }))
        × Seg st next ps end)

-- A list that ends with NULL.
abbrev pub Chain : Store → (root : ℕ) → List (ℕ × ℕ) → Type 0
Chain st root ps = Seg st root ps 0

abbrev pub has_value : (v : ℕ) → List (ℕ × ℕ) → Bool
has_value v [] = false
has_value v (p ∷ ps) = if p.1 == v then true else has_value v ps

abbrev pub is_nil : List (ℕ × ℕ) → Bool
is_nil [] = true
is_nil (p ∷ ps) = false

pub put_self : (st : Store) (a : ℕ) (n : Option Node) → put st a n a ≡ n
put_self st a n = rw (eq→== a a refl) refl

pub put_other : (st : Store) (a b : ℕ) (n : Option Node) → b ≢ a → put st a n b ≡ st b
put_other st a b n ne = rw (ne→==_false b a ne) refl

-- A write to a node outside the segment.
pub put-Seg :
    (st : Store) (a : ℕ) (n : Option Node) (root : ℕ) (ps : List (ℕ × ℕ)) (end : ℕ)
    → (¬ In a ps)
    → Seg st root ps end
    → Seg (put st a n) root ps end
put-Seg st a n root [] end out s = s
put-Seg st a n root (p ∷ ps) end out (at, ne, apart, (next, here, s)) = (
  at,
  ne,
  apart,
  (
    next,
    put_other st a p.0 n (λ e. out (inl (sym e))) ∙ here,
    put-Seg st a n next ps end (λ i. out (inr i)) s,
  ),
)

pub fresh-not-In :
    (st : Store) (a root : ℕ) (ps : List (ℕ × ℕ)) (end : ℕ)
    → st a ≡ none
    → Seg st root ps end
    → ¬ In a ps
fresh-not-In st a root [] end free s i = i
fresh-not-In st a root (p ∷ ps) end free (at, ne, apart, (next, here, s)) (inl e) =
    let both : st p.0 ≡ none = subst (λ x. st x ≡ none) e free in cc
fresh-not-In st a root (p ∷ ps) end free (at, ne, apart, (next, here, s)) (inr i) =
    fresh-not-In st a next ps end free s i

pub root-not-null : (root a : ℕ) → root ≡ a → a ≢ 0 → root ≢ 0
root-not-null root a at ne e = ne (sym at ∙ e)

abbrev node_of : (v : ℕ) → Option ℕ → Option Node
node_of v next = some (record { value = some v; next = next })

stack_push-Chain :
    (st : Store) (place root v : ℕ) (ps : List (ℕ × ℕ))
    → Chain st root ps
    → st place ≡ none
    → place ≢ 0
    → (st' : Store) × (◌≡◌ {A = Outcome (Store × ℕ)} (stack_push st place root v) (ok (st', place)))
      × (st' place ≡ node_of v (some root))
      × Chain st' root ps
      × (¬ In place ps)
unfolding stack_push create_stack_node
stack_push-Chain st place root v ps c free ne =
    let out : ¬ In place ps = fresh-not-In st place root ps 0 free c in
    let s1 : Store = alloc_node st place in
    let s2 : Store = put s1 place (node_of v none) in
    let s3 : Store = put s2 place (node_of v (some 0)) in
    (
      put s3 place (node_of v (some root)),
      rw (eq→== place place refl, eq→== place place refl, eq→== place place refl) refl,
      put_self s3 place (node_of v (some root)),
      put-Seg s3 place (node_of v (some root)) root ps 0 out (
          put-Seg s2 place (node_of v (some 0)) root ps 0 out (
            put-Seg s1 place (node_of v none) root ps 0 out
              (put-Seg st place (some (record { value = none; next = none })) root ps 0 out c))),
      out,
    )

-- For a stack that holds `ps` and an address that `kmalloc` may return, `stack_push` succeeds, and a
-- `stack_pop` after it returns the pushed data, the old root, and a store in which the stack holds
-- `ps` again.
pub stack_pop-push :
    (st : Store) (place root v : ℕ) (ps : List (ℕ × ℕ))
    → Chain st root ps
    → st place ≡ none
    → place ≢ 0
    → (st1 st2 : Store) × (◌≡◌ {A = Outcome (Store × ℕ)}
        (stack_push st place root v)
        (ok (st1, place)))
      × Chain st1 place ((place, v) ∷ ps)
      × (◌≡◌ {A = Outcome (ℕ × Store × ℕ)} (stack_pop st1 place) (ok (v, st2, root)))
      × Chain st2 root ps
unfolding stack_pop
stack_pop-push st place root v ps c free ne =
    let (st1, e, here, c1, out) = stack_push-Chain st place root v ps c free ne in
    (
      st1,
      put st1 place none,
      e,
      (refl, ne, out, (root, here, c1)),
      rw (ne→==_false place 0 ne, here) refl,
      put-Seg st1 place none root ps 0 out c1,
    )

-- `stack_peek` never returns what is on the stack: it returns NULL for a stack that is not empty, and
-- reads from NULL for an empty one, where no node is.
pub stack_peek_lem :
    (st : Store) (root : ℕ) (ps : List (ℕ × ℕ))
    → Chain st root ps
    → st 0 ≡ none
    → stack_peek st root ≡ (if is_nil ps then fault else ok 0)
unfolding stack_peek
stack_peek_lem st root [] c null = rw (c, null) refl
stack_peek_lem st root (p ∷ ps) (at, ne, apart, rest) null =
    rw (ne→==_false root 0 (root-not-null root p.0 at ne)) refl

-- The search through a segment that does not hold the data goes on behind it.
pub linked_list_find-Seg :
    (st : Store) (v root : ℕ) (ps : List (ℕ × ℕ)) (end fuel : ℕ)
    → Seg st root ps end
    → has_value v ps ≡ false
    → linked_list_find (length ps + fuel) st v root ≡ linked_list_find fuel st v end
unfolding linked_list_find
linked_list_find-Seg st v root [] end fuel s h =
    let e : 0 + fuel ≡ fuel = omega arith in rw e (ap (λ t. linked_list_find fuel st v t) s)
linked_list_find-Seg st v root (p ∷ ps) end fuel (at, ne, apart, (next, here, s)) h =
    let e : suc (length ps) + fuel ≡ suc (length ps + fuel) = omega arith in
    let (differs, later) = split (p.1 == v) (has_value v ps) h in
    let at_root = ap st at ∙ here in
    rw (e, ne→==_false root 0 (root-not-null root p.0 at ne), at_root, differs, at_root)
      (linked_list_find-Seg st v next ps end fuel s later)
  where
    split : (a b : Bool) → (if a then true else b) ≡ false → (a ≡ false) × (b ≡ false)
    split true b h = cc
    split false b h = (refl, h)

-- `linked_list_find` on a list of `ps` and with more turns than `ps` is long tells whether the data is
-- in `ps`.
pub linked_list_find-Chain :
    (st : Store) (v root : ℕ) (ps : List (ℕ × ℕ)) (fuel : ℕ)
    → Chain st root ps
    → length ps < fuel
    → linked_list_find fuel st v root ≡ some (ok (has_value v ps))
unfolding linked_list_find
linked_list_find-Chain st v root ps zero c h = absurd (omega arith)
linked_list_find-Chain st v root [] (suc fuel) c h = rw c refl
linked_list_find-Chain st v root (p ∷ ps) (suc fuel) (at, ne, apart, (next, here, s)) h =
    let at_root = ap st at ∙ here in
    rw (ne→==_false root 0 (root-not-null root p.0 at ne), at_root)
      (elim (Bool-cases (p.1 == v)) [
        | inl e ↦ rw e refl
        | inr e ↦ rw (e, at_root) (linked_list_find-Chain st v next ps fuel s (omega arith))
      ])
