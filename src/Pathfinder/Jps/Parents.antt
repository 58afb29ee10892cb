-- ===== src/Pathfinder/Jps/Parents.antt =====
-- What the jump point search keeps of its parents and open nodes.
use tower_main.Common.{ℕ, ◌≡◌, subst, ◌⊎◌, inl, inr, ◌∈◌, some}
use tower_main.Grid.{Grid, Point, point_eq}
use tower_main.Grid.Adjacents.{IsInt}
use tower_main.Pathfinder.{PointMap, update}
use tower_main.Pathfinder.Frontier.{Node}
use tower_main.Pathfinder.Walks.{Step}
use tower_main.Pathfinder.Invariant.{update-entry}
use tower_main.Pathfinder.Jps.{Jump, note_parent, opens, close}
use tower_main.Common.{==-cases}

abbrev pub HasParent : PointMap Point → Point → Type 0
HasParent parents p = (o : Point) × (parents p ≡ some o)

-- The start, or a point to which the search has come.
abbrev pub IsKnown : Point → PointMap Point → Point → Type 0
IsKnown start parents p = (start ≡ p) ⊎ HasParent parents p

-- Each parent is a step away, and is known, as are the open nodes.
pub record Inv (grid : Grid) (start : Point) (s : Jump) : Type 0 where
  pub linked : (p o : Point) → s.parents p ≡ some o → Step grid o p × IsKnown start s.parents o
  pub opened : (n : Node) → n ∈ s.open_nodes → IsInt n.p × IsKnown start s.parents n.p

-- Parents are changed, never taken away.
abbrev pub Grows : PointMap Point → PointMap Point → Type 0
Grows before after = (p : Point) → HasParent before p → HasParent after p

pub Grows-known :
    {start p : Point} {before after : PointMap Point}
    → Grows before after
    → IsKnown start before p
    → IsKnown start after p
Grows-known grows (inl e) = inl e
Grows-known grows (inr h) = inr (grows _ h)

pub update-Grows : (parents : PointMap Point) (p o : Point) → Grows parents (update parents p o)
update-Grows parents p o q (r, e) = elim (==-cases p q) [
  | inl (_, t) ↦ (o, rw t)
  | inr (_, t) ↦ (r, rw t e)
]

module _ (grid : Grid) (start : Point) where
  pub note_parent-Inv :
      (s : Jump) (p o : Point)
      → Inv grid start s
      → Step grid o p
      → IsKnown start s.parents o
      → Inv grid start (note_parent p o s)
  note_parent-Inv s p o i step known =
      let grows = update-Grows s.parents p o in
      record {
        linked = λ q r e. elim (update-entry s.parents p q o r e) [
          | inl (same, same') ↦ (
            subst (λ k. Step grid k q) same' (subst (λ k. Step grid o k) same step),
            subst (λ k. IsKnown start (update s.parents p o) k) same' (Grows-known grows known),
          )
          | inr (_, old) ↦ ((i.linked q r old).0, Grows-known grows (i.linked q r old).1)
        ];
        opened = λ n m. ((i.opened n m).0, Grows-known grows (i.opened n m).1);
      }

  pub opens-Inv :
      (f : ℕ) (s : Jump) (p : Point)
      → Inv grid start s
      → IsInt p
      → IsKnown start s.parents p
      → Inv grid start (opens p f s)
  opens-Inv f s p i int known = record {
    linked = i.linked;
    opened = λ n. elim [ inl same ↦ (rw same int, rw same known) | inr old ↦ i.opened n old ];
  }

  pub close-Inv : (s : Jump) (p : Point) → Inv grid start s → Inv grid start (close p s)
  close-Inv s p i = record { linked = i.linked; opened = i.opened }
