-- ===== src/Player/Loading.antt =====
-- What is loaded of a player.
use Prim.Native.String.{String}
use tower_main.Common.{
  ℕ, ◌^◌, ◌≤◌, ◌<◌, ◌≡◌, [], ◌∷◌, Option, none, some, if◌then◌else◌, ◌==◌, Result, ok,
}
use tower_main.Common.Int.{ℤ, pos, pos_part, neg_part}
use tower_main.Common.Map.{Map, lookup}
use tower_main.Common.Text.{string_eq}
use tower_main.Player.{Player, Field, int64_field, string_field, null_field, Row, Stats}

-- The values that an integer type of `2 * half` values holds.
abbrev pub Fits : ℕ → ℤ → Type 0
Fits half z = (pos_part z < half) × (neg_part z ≤ half)

pub record FitsAll (s : Stats) : Type 0 where
  pub level : Fits (2 ^ 15) s.level
  pub exp : Fits (2 ^ 31) s.exp
  pub str : Fits (2 ^ 15) s.str
  pub mag : Fits (2 ^ 15) s.mag
  pub agi : Fits (2 ^ 15) s.agi
  pub con : Fits (2 ^ 15) s.con
  pub faith : (z : ℤ) → s.optional_faith ≡ some z → Fits (2 ^ 15) z

-- The field of an optional stat.
abbrev pub faith_field : Option ℤ → Field
faith_field none = null_field
faith_field (some z) = int64_field z

-- The rows in which a character and its stats are stored.
abbrev pub character_row : ℕ → String → String → Row
character_row id name race = int64_field (pos id) ∷ string_field name ∷ string_field race ∷ []

abbrev pub stats_row : ℕ → Stats → Row
stats_row id s =
    int64_field (pos id)
    ∷ int64_field s.level
    ∷ int64_field s.exp
    ∷ int64_field s.str
    ∷ int64_field s.mag
    ∷ int64_field s.agi
    ∷ int64_field s.con
    ∷ faith_field s.optional_faith
    ∷ []

-- What the map of the types gives for a race, and what it holds afterwards: a known race has its type, and leaves the map
-- as it is; an unknown one has the default type, under which it is found from then on, as the others are under theirs.
pub data TypesRace (race : String) (types : Map String ℕ) (entity_type : ℕ)
    (more_types : Map String ℕ) : Type 0 where
  known :
      lookup race types ≡ some entity_type
      → more_types ≡ types
      → TypesRace race types entity_type more_types
  unknown :
      lookup race types ≡ none
      → entity_type ≡ 0
      → ((other : String)
          → lookup other more_types ≡ (if race == other then some 0 else lookup other types))
      → TypesRace race types entity_type more_types

-- What a load makes of a stored character: a player of the type `entity_type`, and the map of the types.
abbrev pub LoadsAs :
    ℕ → String → String → Stats → Map String ℕ → Result (Option Player × Map String ℕ) → Type 0
LoadsAs id name race s types r =
    (entity_type : ℕ) × (more_types : Map String ℕ) × (r
      ≡ ok (
        some (record { entity_type = entity_type; character_id = id; name = name; stats = s }),
        more_types,
      ))
    × TypesRace race types entity_type more_types
