-- ===== src/Network/Terrain.antt =====
-- `Zone::create` of tower/network/zone.cpp: the obstacles of a zone, from the data of its file. Reading the file
-- and the checks of the flatbuffers verifier are not part of it: `ZoneData` is what has passed them.
use tower_main.Common.{
  ℕ, zero, suc, ◌≢◌, ≢→==, beq_refl, ◌+◌, ◌*◌, ◌≤◌, ◌<◌, ◌%◌, ◌^◌, ◌≡◌, refl, ap, ◌∙◌, subst, ◌⊎◌,
  inl, inr, Bool, true, false, ltb, not, ◌==◌, nat_eq, if◌then◌else◌, List, [], ◌∷◌, length,
  length-set, length-replicate, set, get_elem?, get_elem?-set_self, get_elem?-set_ne, Option, none,
  some, Result, ok, err, ◌>>=◌, precondition, arith, ==-cases,
}
use tower_main.Grid.{Grid, new, size_mod}
use tower_main.Grid.Cells.{IsValid}
use native.Mathlib.Nat.{mod-eq_of_lt, mul-le-mul}

-- `size_x` and `size_z` are `uint32_t`.
pub record ZoneData : Type 0 where
  pub size_x : ℕ
  pub size_z : ℕ
  pub blocked : List Bool

-- `obstacles_grid.at(i) = ...`, which is unchecked: past the end it is undefined.
unfoldable pub assign : ℕ → Bool → Grid → Result Grid
assign i blocked g =
    if ltb i (length g.cells)
    then ok (record g { cells = set g.cells i blocked })
    else err precondition

pub fill : ℕ → List Bool → Grid → Result Grid
unfolding assign
fill i [] g = ok g
fill i (b ∷ bs) g = assign i b g >>= fill (suc i) bs

-- `none` is the error that is logged.
unfoldable pub create : ZoneData → Result (Option Grid)
unfolding fill new
create z =
    if not (z.size_x * z.size_z % 2 ^ 32 == length z.blocked)
    then ok none
    else (fill 0 z.blocked (new z.size_z z.size_x) >>= λ g. ok (some g))

-- What `fill` makes of a grid from the cell `i` on.
pub record Fills (i : ℕ) (bs : List Bool) (g : Grid) (r : Result Grid) : Type 0 where
  pub out : Grid
  pub returns : r ≡ ok out
  pub same_rows : out.rows ≡ g.rows
  pub same_cols : out.cols ≡ g.cols
  pub same_length : length out.cells ≡ length g.cells
  pub before : (j : ℕ) → j < i → get_elem? out.cells j ≡ get_elem? g.cells j
  pub filled : (j : ℕ) → j < length bs → get_elem? out.cells (i + j) ≡ get_elem? bs j

filled-cons :
    (i : ℕ) (b : Bool) (bs cells outs : List Bool)
    → i < length cells
    → ((j : ℕ) → j < suc i → get_elem? outs j ≡ get_elem? (set cells i b) j)
    → ((j : ℕ) → j < length bs → get_elem? outs (suc i + j) ≡ get_elem? bs j)
    → (j : ℕ) → j < length (b ∷ bs)
    → get_elem? outs (i + j) ≡ get_elem? (b ∷ bs) j
filled-cons i b bs cells outs inside before after zero lt =
    let same : i + 0 ≡ i = omega arith in
    ap (get_elem? outs) same ∙ before i (omega arith) ∙ get_elem?-set_self cells i b inside
filled-cons i b bs cells outs inside before after (suc j) lt =
    let same : i + suc j ≡ suc i + j = omega arith in
    ap (get_elem? outs) same ∙ after j (omega arith)

fill-Fills :
    (i : ℕ) (bs : List Bool) (g : Grid)
    → i + length bs ≤ length g.cells
    → Fills i bs g (fill i bs g)
unfolding fill assign
fill-Fills i [] g h = record {
  out = g;
  returns = refl;
  same_rows = refl;
  same_cols = refl;
  same_length = refl;
  before = λ j lt. refl;
  filled = λ j lt. absurd (omega arith);
}
fill-Fills i (b ∷ bs) g h =
    let next : Grid = record g { cells = set g.cells i b } in
    let inside : ltb i (length g.cells) ≡ true = ground arith in
    let rest = fill-Fills (suc i) bs next (omega (arith, length-set g.cells i b)) in
    rw inside (record {
      out = rest.out;
      returns = rest.returns;
      same_rows = rest.same_rows;
      same_cols = rest.same_cols;
      same_length = rest.same_length ∙ length-set g.cells i b;
      before =
          λ j lt. rest.before j (omega arith) ∙ get_elem?-set_ne g.cells i j b (λ e. omega arith);
      filled = filled-cons i b bs g.cells rest.out.cells (omega arith) rest.before rest.filled;
    })

-- The grid of a zone, against its data.
pub record Terrain (z : ZoneData) (r : Result (Option Grid)) : Type 0 where
  pub grid : Grid
  pub returns : r ≡ ok (some grid)
  pub valid : IsValid grid
  pub rows_lem : grid.rows ≡ z.size_z
  pub cols_lem : grid.cols ≡ z.size_x
  pub cell_lem : (j : ℕ) → j < length z.blocked → get_elem? grid.cells j ≡ get_elem? z.blocked j

new-length :
    (rows cols : ℕ) → rows < 2 ^ 31 → cols < 2 ^ 31 → length (new rows cols).cells ≡ rows * cols
unfolding new
new-length rows cols h k =
    let h' : rows ≤ 2 ^ 31 = omega arith in
    let k' : cols ≤ 2 ^ 31 = omega arith in
    let small : rows * cols < size_mod = omega (arith, mul-le-mul h' k') in
    length-replicate (rows * cols % size_mod) false ∙ mod-eq_of_lt small

create-rejects :
    (z : ZoneData) → z.size_x * z.size_z % 2 ^ 32 ≢ length z.blocked → create z ≡ ok none
unfolding create
create-rejects z apart = rw (≢→== _ _ apart)

product_le :
    (z : ZoneData)
    → z.size_x * z.size_z % 2 ^ 32 ≡ length z.blocked
    → length z.blocked ≤ z.size_z * z.size_x
product_le z same = grind arith

zero_add : (j : ℕ) → j ≡ 0 + j
zero_add j = omega arith

sides : {a b c d : ℕ} → a ≡ b → c ≡ d → b * d ≡ a * c
sides e f = cc

create-Terrain :
    (z : ZoneData)
    → z.size_x < 2 ^ 31
    → z.size_z < 2 ^ 31
    → z.size_x * z.size_z % 2 ^ 32 ≡ length z.blocked
    → Terrain z (create z)
unfolding create
create-Terrain z h k same =
    let room = new-length z.size_z z.size_x k h in
    let blank = new z.size_z z.size_x in
    let rest = fill-Fills 0 z.blocked blank (omega (arith, room, product_le z same)) in
    let checked : (z.size_x * z.size_z % 2 ^ 32 == length z.blocked) ≡ true =
      subst (λ n. (z.size_x * z.size_z % 2 ^ 32 == n) ≡ true) same
        (beq_refl (z.size_x * z.size_z % 2 ^ 32)) in
    rw (checked, rest.returns)
      (record {
        grid = rest.out;
        returns = refl;
        valid = record {
          rows_int = rw rest.same_rows k;
          cols_int = rw rest.same_cols h;
          size = rest.same_length ∙ room ∙ sides rest.same_rows rest.same_cols;
        };
        rows_lem = rest.same_rows;
        cols_lem = rest.same_cols;
        cell_lem = λ j lt. ap (get_elem? rest.out.cells) (zero_add j) ∙ rest.filled j lt;
      })

-- For sides that an `int` holds, `create` writes no cell past the end. It refuses data whose number of cells is not the product
-- of the sides modulo 2^32, and makes of any other data a valid grid with the sides and the cells of the data.
pub create-cases :
    (z : ZoneData)
    → z.size_x < 2 ^ 31
    → z.size_z < 2 ^ 31
    → (z.size_x * z.size_z % 2 ^ 32 ≢ length z.blocked) × (create z ≡ ok none)
      ⊎ (z.size_x * z.size_z % 2 ^ 32 ≡ length z.blocked) × Terrain z (create z)
create-cases z h k = elim (==-cases (z.size_x * z.size_z % 2 ^ 32) (length z.blocked)) [
  | inl (same, _) ↦ inr (same, create-Terrain z h k same)
  | inr (apart, _) ↦ inl (apart, create-rejects z apart)
]
