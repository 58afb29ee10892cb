-- ===== src/Pathfinder/Jps/Probes.antt =====
-- A probe, and a jump, ends within its fuel, throws nothing and keeps the invariant.
use tower_main.Common.{
  ℕ, zero, suc, ◌<◌, ◌≡◌, refl, inl, inr, Bool, true, false, ◌||◌, List, [], ◌∷◌, ◌∈◌, ◌==◌,
  Bool-cases, Result, ok, ◌>>=◌, arith,
}
use tower_main.Common.Int.{int_eq}
use tower_main.Grid.{Grid, Point, point_eq, add, adjacents_8way}
use tower_main.Grid.Cells.{
  IsValid, Inside, Touches, is_blocked_cell, plus, minus, distance, manhattan_distance-fits,
}
use tower_main.Grid.Adjacents.{IsInt, Inside-IsInt, mem-adjacents_8way}
use tower_main.Pathfinder.{contains}
use tower_main.Pathfinder.Walks.{Step}
use tower_main.Pathfinder.Jps.{
  Jump, row_only, col_only, is_diagonal, opens, stop_at, note_parent, close, probe, probe_fuel,
  jump_to, jump_all, jump,
}
use tower_main.Pathfinder.Jps.Rooms.{
  IsDirection, room, room-le, room-step, diagonal-row, diagonal-col, room-row, room-col, minus-plus,
  minus-minus, Touches-IsDirection, minus-Touches,
}
use tower_main.Pathfinder.Jps.Blocks.{add-plus, sub-minus, near-IsInt, IsClose}
use tower_main.Pathfinder.Jps.Parents.{
  HasParent, IsKnown, Inv, Grows, Grows-known, update-Grows, note_parent-Inv, opens-Inv, close-Inv,
}
use tower_main.Pathfinder.Invariant.{update_self}
use tower_main.Pathfinder.Jps.Answers.{is_free-cases, is_jump_point-Answers, direction-IsInt}

module _ (grid : Grid) (valid : IsValid grid) where
  module _ (start end : Point) (close_by : IsClose grid end) where
    -- A run that ends in a state of the invariant, with all parents that there were.
    record Keeps (before : Jump) (r : Result (Bool × Jump)) : Type 0 where
      found : Bool
      after : Jump
      returns : r ≡ ok (found, after)
      inv : Inv grid start after
      grows : Grows before.parents after.parents

    Keeps-after :
        {s t : Jump} {r : Result (Bool × Jump)} → Grows s.parents t.parents → Keeps t r → Keeps s r
    Keeps-after {s} {t} {r} grows k = record {
      found = k.found;
      after = k.after;
      returns = k.returns;
      inv = k.inv;
      grows = λ q h. k.grows q (grows q h);
    }

    -- The search stops at a point that it has noted, which it opens if it is a jump point.
    stops-Keeps :
        (p : Point) (s : Jump)
        → Inside grid p
        → HasParent s.parents p
        → Inv grid start s
        → Keeps s (stop_at end p s)
    stops-Keeps p s k known inv = record {
      found = true;
      after = opens p (distance p end) s;
      returns = rw (manhattan_distance-fits p end (close_by p k));
      inv = opens-Inv grid start (distance p end) s p inv (Inside-IsInt valid k) (inr known);
      grows = λ q h. h;
    }

    probe-Keeps :
        (fuel : ℕ) (p d : Point) (s : Jump)
        → room grid p d < fuel
        → IsDirection d
        → Inside grid (minus p d)
        → IsKnown start s.parents (minus p d)
        → Inv grid start s
        → Keeps s (probe grid end fuel p d s)
    unfolding probe
    probe-Keeps zero p d s enough i from known inv = absurd (omega (arith, enough))
    probe-Keeps (suc fuel) p d s enough i from known inv = elim (is_free-cases grid valid p) [
      | inr e ↦
          rw e (record { found = false; after = s; returns = refl; inv = inv; grows = λ q h. h })
      | inl (e, k, read) ↦
          let noted = note_parent p (minus p d) s in
          let step : Step grid (minus p d) p = record {
            from_inside = from;
            to_inside = k;
            touches = minus-Touches p d i;
            free = read;
          } in
          let kept = note_parent-Inv grid start s p (minus p d) inv step known in
          let grows = update-Grows s.parents p (minus p d) in
          let has : HasParent noted.parents p = (minus p d, update_self s.parents p (minus p d)) in
          let (forced, tested) = is_jump_point-Answers grid valid p d k i in
          let behind = sub-minus p d (near-IsInt valid k d i.row_step i.col_step).1 in
          let go_on : (f : Point) (t : Jump)
              → room grid (plus p f) f < fuel
              → IsDirection f
              → Inv grid start t
              → HasParent t.parents p
              → Keeps t (add p f >>= λ q. probe grid end fuel q f t) =
            λ f t room_left i' inv' has'.
              rw (add-plus p f (near-IsInt valid k f i'.row_step i'.col_step).0) (
                probe-Keeps fuel (plus p f) f t room_left i' (rw (minus-plus p f) k)
                  (rw (minus-plus p f) (inr has')) inv') in
          elim (Bool-cases (p == end)) [
            | inl u ↦
                rw (e, behind, u)
                  (record {
                    found = true;
                    after = noted;
                    returns = refl;
                    inv = kept;
                    grows = grows;
                  })
            | inr u ↦ elim (Bool-cases forced) [
              | inl v ↦
                  rw (e, behind, u, tested, v)
                    (Keeps-after {t = noted} grows (stops-Keeps p noted k has kept))
              | inr v ↦ elim (Bool-cases (is_diagonal d)) [
                | inr w ↦
                    rw (e, behind, u, tested, v, w)
                      (Keeps-after {t = close p noted} grows (
                        go_on d (close p noted) (omega (arith, enough, room-step grid p d k i)) i
                          (close-Inv grid start noted p kept) has))
                | inl w ↦
                    let row = diagonal-row d i w in
                    let col = diagonal-col d i w in
                    let a =
                      go_on (row_only d) noted (omega (arith, enough, room-row grid p d k row)) row
                        kept has in
                    let has_a = a.grows p has in
                    let b =
                      go_on (col_only d) a.after (omega (arith, enough, room-col grid p d k col))
                        col a.inv has_a in
                    let has_b = b.grows p has_a in
                    let grows_b : Grows s.parents b.after.parents =
                      λ q h. b.grows q (a.grows q (grows q h)) in
                    elim (Bool-cases (a.found || b.found)) [
                      | inl x ↦
                          rw (e, behind, u, tested, v, w, a.returns, b.returns, x)
                            (Keeps-after {t = b.after} grows_b
                              (stops-Keeps p b.after k has_b b.inv))
                      | inr x ↦
                          rw (e, behind, u, tested, v, w, a.returns, b.returns, x)
                            (Keeps-after {t = close p b.after} grows_b (
                              go_on d (close p b.after)
                                (omega (arith, enough, room-step grid p d k i)) i
                                (close-Inv grid start b.after p b.inv) has_b))
                    ]
              ]
            ]
          ]
    ]

    -- A jump that ends in a state of the invariant.
    abbrev pub JumpsTo : Result Jump → Type 0
    JumpsTo r = (after : Jump) × (r ≡ ok after) × Inv grid start after

    jump_to-JumpsTo :
        (p neighbor : Point) (s : Jump)
        → Inside grid p
        → Inside grid neighbor
        → Touches p neighbor
        → IsKnown start s.parents p
        → Inv grid start s
        → (after : Jump) × (jump_to grid end p neighbor s ≡ ok after)
          × Inv grid start after
          × Grows s.parents after.parents
    unfolding jump_to
    jump_to-JumpsTo p neighbor s k l touch known inv =
        elim (Bool-cases (contains neighbor s.closed)) [
          | inl old ↦ (s, rw old, inv, λ q h. h)
          | inr new ↦
              let (b, _, read) = is_blocked_cell grid neighbor valid l in
              elim (Bool-cases b) [
                | inl t ↦ (s, rw (new, read, t), inv, λ q h. h)
                | inr t ↦
                    let direction = Touches-IsDirection p neighbor touch in
                    let moved =
                      sub-minus neighbor p
                        (direction-IsInt grid valid (minus neighbor p) direction) in
                    let run =
                      probe-Keeps (probe_fuel grid end) neighbor (minus neighbor p) s
                        (omega (arith, room-le grid neighbor (minus neighbor p) l)) direction
                        (rw (minus-minus p neighbor) k) (rw (minus-minus p neighbor) known) inv in
                    (run.after, rw (new, read, t, moved, run.returns), run.inv, run.grows)
              ]
        ]

    jump_all-JumpsTo :
        (p : Point) (neighbors : List Point) (s : Jump)
        → ((q : Point) → q ∈ neighbors → Inside grid p × Inside grid q × Touches p q)
        → IsKnown start s.parents p
        → Inv grid start s
        → JumpsTo (jump_all grid end p neighbors s)
    unfolding jump_all
    jump_all-JumpsTo p [] s near known inv = (s, refl, inv)
    jump_all-JumpsTo p (q ∷ rest) s near known inv =
        let (k, l, touch) = near q (inl refl) in
        let (mid, returns, inv', grows) = jump_to-JumpsTo p q s k l touch known inv in
        let (after, returns', kept) =
          jump_all-JumpsTo p rest mid (λ o m. near o (inr m)) (Grows-known grows known) inv' in
        (after, rw returns returns', kept)

    -- On a valid grid, for an end whose distance from each point of the grid is below 2^31, from a known point with `int`
    -- coordinates in a state of the invariant: a jump ends, with fuel of the rows and the columns and one for each of
    -- its probes, throws nothing, overflows no `int` and keeps the invariant.
    pub jump-JumpsTo :
        (p : Point) (s : Jump)
        → IsInt p
        → IsKnown start s.parents p
        → Inv grid start s
        → JumpsTo (jump grid end p s)
    unfolding jump
    jump-JumpsTo p s int known inv =
        jump_all-JumpsTo p (adjacents_8way grid p) (close p s)
          (λ q m. (mem-adjacents_8way grid p q valid int).0 m) known (close-Inv grid start s p inv)
