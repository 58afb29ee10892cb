-- ===== src/Grid/Insertions.antt =====
-- What the guarded insertions of `get_4way_adjacents` and `get_8way_adjacents` put into their vector.
use tower_main.Common.{
  ℕ, ◌+◌, ◌≤◌, ◌≡◌, ◌↔◌, ◌⊎◌, Bool, true, false, length, List, [], ◌∷◌, ◌&&◌, ◌∈◌, mem-append,
  length-append, ltb, leb, arith, inl, inr,
}
use tower_main.Grid
use tower_main.Grid.{
  Grid, Point, size_mod, to_int, to_size, is_inside_point, of_size, add_size, sub_size, emplace_if,
  adjacents_8way, adjacents_4way, get_8way_adjacents, get_4way_adjacents,
}

pub and_left : {a : Bool} (b : Bool) → (a && b) ≡ true → a ≡ true
and_left b e = ground arith

pub and_right : (a : Bool) {b : Bool} → (a && b) ≡ true → b ≡ true
and_right a e = ground arith

pub and_both : {a b : Bool} → a ≡ true → b ≡ true → (a && b) ≡ true
and_both e h = rw (e, h)

mem-emplace_if :
    (q : Point) (b : Bool) (r c : ℕ) (xs : List Point)
    → (q ∈ emplace_if b r c xs) ↔ ((q ∈ xs) ⊎ (b ≡ true) × (q ≡ of_size r c))
mem-emplace_if q true r c xs =
    let split = mem-append q xs (of_size r c ∷ []) in
    (λ m. ground (arith, split.0 m), λ m. split.1 (ground arith))
mem-emplace_if q false r c xs = (λ m. inl m, λ m. ground arith)

-- The guard of an insertion of the two functions, and the point that it inserts.
abbrev pub Inserts : Point → Bool → ℕ → ℕ → Type 0
Inserts q b r c = (b ≡ true) × (q ≡ of_size r c)

or_left : {A B C : Type 0} → A ↔ B → (A ⊎ C) ↔ (B ⊎ C)
or_left e =
    (elim [ inl a ↦ inl (e.0 a) | inr c ↦ inr c ], elim [ inl b ↦ inl (e.1 b) | inr c ↦ inr c ])

iff_trans : {A B C : Type 0} → A ↔ B → B ↔ C → A ↔ C
iff_trans e f = (λ a. f.0 (e.0 a), λ c. e.1 (f.1 c))

module _ (q : Point) (b₁ b₂ b₃ b₄ : Bool) (r₁ r₂ r₃ r₄ c₁ c₂ c₃ c₄ : ℕ) where
  abbrev pub FourInserts : Type 0 → Type 0
  FourInserts X =
      (((X ⊎ Inserts q b₁ r₁ c₁) ⊎ Inserts q b₂ r₂ c₂) ⊎ Inserts q b₃ r₃ c₃) ⊎ Inserts q b₄ r₄ c₄

  mem-four_inserts :
      (xs : List Point)
      → (q
          ∈ emplace_if b₄ r₄ c₄
              (emplace_if b₃ r₃ c₃ (emplace_if b₂ r₂ c₂ (emplace_if b₁ r₁ c₁ xs))))
        ↔ FourInserts (q ∈ xs)
  mem-four_inserts xs = iff_trans (mem-emplace_if q b₄ r₄ c₄ _) (
      or_left (
        iff_trans (mem-emplace_if q b₃ r₃ c₃ _) (
          or_left
            (iff_trans (mem-emplace_if q b₂ r₂ c₂ _) (or_left (mem-emplace_if q b₁ r₁ c₁ xs))))))

abbrev pub below : Grid → ℕ → Bool
below g r = ltb r (sub_size g.rows 1)

abbrev pub beside : Grid → ℕ → Bool
beside g c = ltb c (sub_size g.cols 1)

module _ (g : Grid) (r c : ℕ) (q : Point) where
  abbrev pub Straight : Type 0
  Straight =
      FourInserts q (below g r) (leb 1 r) (beside g c) (leb 1 c) (add_size r 1) (sub_size r 1) r r c
        c (add_size c 1) (sub_size c 1) ⊥

  abbrev pub Diagonal : Type 0 → Type 0
  Diagonal =
      FourInserts q (below g r && beside g c) (below g r && leb 1 c) (leb 1 r && beside g c)
        (leb 1 r && leb 1 c) (add_size r 1) (add_size r 1) (sub_size r 1) (sub_size r 1)
        (add_size c 1) (sub_size c 1) (add_size c 1) (sub_size c 1)

  pub mem-straight : (q ∈ Grid.emplace_straight g r c) ↔ Straight
  unfolding Grid.emplace_straight
  mem-straight = mem-four_inserts q _ _ _ _ _ _ _ _ _ _ _ _ []

  pub mem-diagonal : (xs : List Point) → (q ∈ Grid.emplace_diagonal g r c xs) ↔ Diagonal (q ∈ xs)
  unfolding Grid.emplace_diagonal
  mem-diagonal xs = mem-four_inserts q _ _ _ _ _ _ _ _ _ _ _ _ xs

length-emplace_if :
    (b : Bool) (r c : ℕ) (xs : List Point) → length (emplace_if b r c xs) ≤ length xs + 1
length-emplace_if true r c xs = omega (arith, length-append xs (of_size r c ∷ []))
length-emplace_if false r c xs = omega arith

module _ (b₁ b₂ b₃ b₄ : Bool) (r₁ r₂ r₃ r₄ c₁ c₂ c₃ c₄ : ℕ) where
  length-four_inserts :
      (xs : List Point)
      → length
          (emplace_if b₄ r₄ c₄ (emplace_if b₃ r₃ c₃ (emplace_if b₂ r₂ c₂ (emplace_if b₁ r₁ c₁ xs))))
        ≤ length xs + 4
  length-four_inserts xs = omega (
    arith,
    length-emplace_if b₄ r₄ c₄ (emplace_if b₃ r₃ c₃ (emplace_if b₂ r₂ c₂ (emplace_if b₁ r₁ c₁ xs))),
    length-emplace_if b₃ r₃ c₃ (emplace_if b₂ r₂ c₂ (emplace_if b₁ r₁ c₁ xs)),
    length-emplace_if b₂ r₂ c₂ (emplace_if b₁ r₁ c₁ xs),
    length-emplace_if b₁ r₁ c₁ xs,
  )

pub straight-length : (g : Grid) (r c : ℕ) → length (Grid.emplace_straight g r c) ≤ 4
unfolding Grid.emplace_straight
straight-length g r c =
    length-four_inserts (below g r) (leb 1 r) (beside g c) (leb 1 c) (add_size r 1) (sub_size r 1) r
      r c c (add_size c 1) (sub_size c 1) []

pub diagonal-length :
    (g : Grid) (r c : ℕ) (xs : List Point) → length (Grid.emplace_diagonal g r c xs) ≤ length xs + 4
unfolding Grid.emplace_diagonal
diagonal-length g r c xs =
    length-four_inserts (below g r && beside g c) (below g r && leb 1 c) (leb 1 r && beside g c)
      (leb 1 r && leb 1 c) (add_size r 1) (add_size r 1) (sub_size r 1) (sub_size r 1)
      (add_size c 1) (sub_size c 1) (add_size c 1) (sub_size c 1) xs
