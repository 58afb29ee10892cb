-- ===== src/Nodes/Roots.antt =====
-- The loop of `get_root` ends in a tree, and `add_child` keeps a tree a tree.
use tower_main.Common.{
  ℕ, zero, suc, ◌<◌, ◌≡◌, refl, ap, subst, ◌∙◌, inl, inr, ◌≢◌, true, if◌then◌else◌, [], ◌∷◌, ◌++◌,
  Option, none, some, ◌==◌, nat_eq, ==-cases, beq_refl, ≢→==, Option-cases, ok, arith,
}
use tower_main.Nodes.{Node, Nodes, put, is_alive, lock, get_parent, set_parent, add_child, get_root}

-- The parents from a node up to its root, `depth` of them.
pub data Rooted (nodes : Nodes) : (depth node root : ℕ) → Type 0 where
  at_root : {node : ℕ} → get_parent node nodes ≡ none → Rooted nodes 0 node node
  below :
      {depth node parent root : ℕ}
      → get_parent node nodes ≡ some parent
      → Rooted nodes depth parent root
      → Rooted nodes (suc depth) node root

-- Each node has a root.
abbrev pub IsForest : Nodes → Type 0
IsForest nodes = (node : ℕ) → (depth root : ℕ) × Rooted nodes depth node root

root-parent :
    {nodes : Nodes} {depth node root : ℕ}
    → Rooted nodes depth node root
    → get_parent root nodes ≡ none
root-parent (at_root e) = e
root-parent (below e r) = root-parent r

-- A node below a root by `depth` parents: the loop of `get_root`, on fuel above `depth`, ends at that root.
pub get_root-Rooted :
    {nodes : Nodes} {depth node root : ℕ} (fuel : ℕ)
    → depth < fuel
    → Rooted nodes depth node root
    → get_root fuel node nodes ≡ ok root
unfolding get_root
get_root-Rooted zero h r = absurd (omega (arith, h))
get_root-Rooted (suc fuel) h (at_root e) = rw (e, get_root)
get_root-Rooted (suc fuel) h (below e r) =
    rw (e, get_root) (get_root-Rooted fuel (omega (arith, h)) r)

abbrev parent_of : Option Node → Option ℕ
parent_of none = none
parent_of (some n) = n.parent

-- Two stores have the same nodes, with the same parents but for that of `child`.
record Reparents (child parent : ℕ) (before after : Nodes) : Type 0 where
  alive_as_before : (node : ℕ) → is_alive (after node) ≡ is_alive (before node)
  new_parent : parent_of (after child) ≡ some parent
  others : (node : ℕ) → child ≢ node → parent_of (after node) ≡ parent_of (before node)

get_parent_lem :
    (node : ℕ) (nodes : Nodes) → get_parent node nodes ≡ lock (parent_of (nodes node)) nodes
unfolding get_parent
get_parent_lem node nodes = elim (Option-cases (nodes node)) [
  | inl e ↦ rw (e, get_parent)
  | inr (n, e) ↦ rw (e, get_parent)
]

lock-same :
    (before after : Nodes) (p : Option ℕ)
    → ((node : ℕ) → is_alive (after node) ≡ is_alive (before node))
    → lock p after ≡ lock p before
lock-same before after none h = refl
lock-same before after (some p) h = rw (h p)

put-alive :
    (node x : ℕ) (n m : Node) (nodes : Nodes)
    → nodes node ≡ some n
    → is_alive (put node m nodes x) ≡ is_alive (nodes x)
put-alive node x n m nodes e = elim (==-cases node x) [
  | inl (same, t) ↦ rw (t, ← same, e)
  | inr (apart, t) ↦ rw t
]

put-parent :
    (node x : ℕ) (n m : Node) (nodes : Nodes)
    → nodes node ≡ some n
    → m.parent ≡ n.parent
    → parent_of (put node m nodes x) ≡ parent_of (nodes x)
put-parent node x n m nodes e f = elim (==-cases node x) [
  | inl (same, t) ↦ rw (t, ← same, e) f
  | inr (apart, t) ↦ rw t
]

alive-some : (o : Option Node) → is_alive o ≡ true → (n : Node) × (o ≡ some n)
alive-some none e = absurd (cc)
alive-some (some n) e = (n, refl)

set_parent-Reparents :
    (child parent : ℕ) (nodes : Nodes)
    → is_alive (nodes child) ≡ true
    → (after : Nodes) × (set_parent child parent nodes ≡ ok after)
      × Reparents child parent nodes after
unfolding set_parent
set_parent-Reparents child parent nodes alive =
    let (n, e) = alive-some (nodes child) alive in
    let m : Node = record n { parent = some parent } in
    (
      put child m nodes,
      rw e,
      record {
        alive_as_before = λ x. put-alive child x n m nodes e;
        new_parent = rw (beq_refl child);
        others = λ x apart. rw (≢→== child x apart);
      },
    )

add_child-Reparents :
    (parent child : ℕ) (nodes : Nodes)
    → is_alive (nodes parent) ≡ true
    → is_alive (nodes child) ≡ true
    → (after : Nodes) × (add_child parent (some child) nodes ≡ ok after)
      × Reparents child parent nodes after
unfolding add_child
add_child-Reparents parent child nodes alive_parent alive_child =
    let (n, e) = alive-some (nodes parent) alive_parent in
    let m : Node = record n { children = n.children ++ child ∷ [] } in
    let mid = put parent m nodes in
    let (after, returns, r) =
      set_parent-Reparents child parent mid (rw (put-alive parent child n m nodes e) alive_child) in
    (
      after,
      rw e returns,
      record {
        alive_as_before = λ x. r.alive_as_before x ∙ put-alive parent x n m nodes e;
        new_parent = r.new_parent;
        others = λ x apart. r.others x apart ∙ put-parent parent x n m nodes e refl;
      },
    )

module _ {child parent : ℕ} {before after : Nodes} (r : Reparents child parent before after) where
  parent-other : (node : ℕ) → child ≢ node → get_parent node after ≡ get_parent node before
  parent-other node apart =
      rw (get_parent_lem node after, r.others node apart, get_parent_lem node before)
        (lock-same before after (parent_of (before node)) r.alive_as_before)

  parent-child : is_alive (before parent) ≡ true → get_parent child after ≡ some parent
  parent-child alive =
      rw (get_parent_lem child after, r.new_parent, r.alive_as_before parent, alive)

  -- Above a node whose root is not the child, nothing changes.
  Rooted-apart :
      {depth node root : ℕ}
      → get_parent child before ≡ none
      → child ≢ root
      → Rooted before depth node root
      → Rooted after depth node root
  Rooted-apart orphan apart (at_root e) = at_root (parent-other _ apart ∙ e)
  Rooted-apart orphan apart (below {node = node} e up) =
      below (parent-other node (λ same. (let f = ap (λ k. get_parent k before) same in cc)) ∙ e)
        (Rooted-apart orphan apart up)

  -- The nodes below the child come below the root of its parent.
  Rooted-child :
      {depth node root depth_up root_up : ℕ}
      → get_parent child before ≡ none
      → is_alive (before parent) ≡ true
      → Rooted before depth_up parent root_up
      → child ≢ root_up
      → Rooted before depth node root
      → child ≡ root
      → (d : ℕ) × Rooted after d node root_up
  Rooted-child {depth_up} {root_up} orphan alive up apart (at_root {node} e) same = (
    suc depth_up,
    subst (λ k. Rooted after (suc depth_up) k root_up) same
        (below (parent-child alive) (Rooted-apart orphan apart up)),
  )
  Rooted-child orphan alive up apart (below {node = node} e r) same =
      let (d, rooted) = Rooted-child orphan alive up apart r same in
      (
        suc d,
        below (parent-other node (λ f. (let g = ap (λ k. get_parent k before) f in cc)) ∙ e) rooted,
      )

-- What `add_child` makes of the root of a node.
abbrev pub root_after : (child root_up root : ℕ) → ℕ
root_after child root_up root = if child == root then root_up else root

-- `add_child` of a node without a parent that is not itself the root above its new parent, in a store where each node
-- has a root: it throws nothing, the nodes whose root was the child have the root of the new parent, all others the
-- root that they had, and so each node has a root again.
pub add_child-Rooted :
    (parent child : ℕ) (nodes : Nodes)
    → IsForest nodes
    → is_alive (nodes parent) ≡ true
    → is_alive (nodes child) ≡ true
    → get_parent child nodes ≡ none
    → (depth_up root_up : ℕ) → Rooted nodes depth_up parent root_up
    → child ≢ root_up
    → (after : Nodes) × (add_child parent (some child) nodes ≡ ok after)
      × ((node depth root : ℕ)
          → Rooted nodes depth node root
          → (d : ℕ) × Rooted after d node (root_after child root_up root))
      × IsForest after
add_child-Rooted parent child nodes forest alive_parent alive_child orphan depth_up root_up up
      apart =
    let (after, returns, r) = add_child-Reparents parent child nodes alive_parent alive_child in
    let moved : (node depth root : ℕ)
        → Rooted nodes depth node root
        → (d : ℕ) × Rooted after d node (root_after child root_up root) =
      λ node depth root rooted. (elim (==-cases child root) [
        | inl (same, t) ↦ rw t (Rooted-child r orphan alive_parent up apart rooted same)
        | inr (other, t) ↦ rw t (depth, Rooted-apart r orphan other rooted)
      ]) in
    (
      after,
      returns,
      moved,
      λ node.
          let (depth, root, rooted) = forest node in
          let (d, new) = moved node depth root rooted in (d, root_after child root_up root, new),
    )
