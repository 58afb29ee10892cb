-- ===== src/Player.antt =====
-- `Player::load` of tower/player/player.cpp, with the stats of tower/player/stat.hpp, and the inventory of
-- tower/player/inventory.cpp. The outcomes of the two queries are arguments: their rows, or none where a query failed. The options for
-- formatting the second query are taken to be known.
pub mod Loading
mod Tests
use Prim.Native.String.{String}
use tower_main.Common.{
  ℕ, suc, ◌+◌, ◌-◌, ◌%◌, ◌^◌, Bool, true, false, not, ◌*◌, ltb, if◌then◌else◌, List, [], ◌∷◌,
  get_elem?, Option, none, some, Result, ok, err, ◌>>=◌, or_fail, out_of_range,
}
use tower_main.Common.Int.{ℤ, pos, negsuc}
use tower_main.Common.Map.{Map, lookup, insert}
use tower_main.Common.Text.{string_eq}

-- `field_view`, by the kinds that are read.
pub data Field : Type 0 where
  int64_field : ℤ → Field
  string_field : String → Field
  null_field other_field : Field

abbrev pub Row : Type 0
Row = List Field

-- The stats that the code names. Of the optional ones only `FAITH` is loaded.
pub data StatType : Type 0 where
  level_type exp_type str_type mag_type agi_type con_type faith_type : StatType

-- The column of a stat, by a map that has none for the first two.
unfoldable pub type_to_string : StatType → Result String
type_to_string level_type = err out_of_range
type_to_string exp_type = err out_of_range
type_to_string str_type = ok "str"
type_to_string mag_type = ok "mag"
type_to_string agi_type = ok "agi"
type_to_string con_type = ok "con"
type_to_string faith_type = ok "faith"

pub record Stats : Type 0 where
  pub level : ℤ
  pub exp : ℤ
  pub str : ℤ
  pub mag : ℤ
  pub agi : ℤ
  pub con : ℤ
  pub optional_faith : Option ℤ

pub record Player : Type 0 where
  pub entity_type : ℕ
  pub character_id : ℕ
  pub name : String
  pub stats : Stats

-- A cast to a signed integer of `2 * half` values: the low bits, in two's complement.
abbrev pub cast_low : ℕ → ℕ → ℤ
cast_low half low = if ltb low half then pos low else negsuc (2 * half - 1 - low)

abbrev pub cast : ℕ → ℤ → ℤ
cast half (pos n) = cast_low half (n % (2 * half))
cast half (negsuc n) = cast_low half (2 * half - 1 - n % (2 * half))

abbrev pub to_int16 : ℤ → ℤ
to_int16 z = cast (2 ^ 15) z

abbrev pub to_int32 : ℤ → ℤ
to_int32 z = cast (2 ^ 31) z

-- `uint32_t` of an `int64_t`.
abbrev pub to_uint32 : ℤ → ℕ
to_uint32 (pos n) = n % 2 ^ 32
to_uint32 (negsuc n) = 2 ^ 32 - 1 - n % 2 ^ 32

-- A block of reads that `bad_field_access` leaves: the player is not loaded. The `std::out_of_range` of `at` is not caught.
abbrev pub Reads : Type 0 → Type 0
Reads A = Result (Option A)

abbrev pub then_read : {A B : Type 0} → Reads A → (A → Reads B) → Reads B
then_read r f = r >>= λ found. elim found [ none ↦ ok none | some a ↦ f a ]

abbrev pub as_int64 : Field → Option ℤ
as_int64 (int64_field z) = some z
as_int64 _ = none

abbrev pub as_string : Field → Option String
as_string (string_field s) = some s
as_string _ = none

abbrev pub is_null : Field → Bool
is_null null_field = true
is_null _ = false

abbrev pub field_at : Row → ℕ → Result Field
field_at row i = or_fail (get_elem? row i) out_of_range

abbrev pub int64_at : Row → ℕ → Reads ℤ
int64_at row i = field_at row i >>= λ f. ok (as_int64 f)

abbrev pub string_at : Row → ℕ → Reads String
string_at row i = field_at row i >>= λ f. ok (as_string f)

-- The first row of a result, if the query succeeded and there is one.
abbrev pub first_row : Option (List Row) → Option Row
first_row none = none
first_row (some []) = none
first_row (some (row ∷ rows)) = some row

-- `entity_types_map[race]`: a missing entry is made, with the value 0.
abbrev pub entity_type_of : String → Map String ℕ → ℕ × Map String ℕ
entity_type_of race types = elim (lookup race types) [
  | none ↦ (0, insert race 0 types)
  | some t ↦ (t, types)
]

unfoldable pub read_character : Row → Reads (ℤ × String × String)
read_character row = then_read (int64_at row 0) (λ id.
    then_read (string_at row 1)
      (λ name. then_read (string_at row 2) (λ race. ok (some (id, name, race)))))

unfoldable pub read_faith : Row → Reads (Option ℤ)
read_faith row = field_at row 7 >>= λ f.
    if is_null f
    then ok (some none)
    else then_read (ok (as_int64 f)) (λ z. ok (some (some (to_int16 z))))

unfoldable pub read_stats : Row → Reads Stats
unfolding read_faith
read_stats row = then_read (int64_at row 1) (λ level. then_read (int64_at row 2) (λ exp.
    then_read (int64_at row 3) (λ str. then_read (int64_at row 4) (λ mag.
      then_read (int64_at row 5) (λ agi. then_read (int64_at row 6) (λ con.
        then_read (read_faith row) (λ faith. ok (
          some (record {
            level = to_int16 level;
            exp = to_int32 exp;
            str = to_int16 str;
            mag = to_int16 mag;
            agi = to_int16 agi;
            con = to_int16 con;
            optional_faith = faith;
          })))))))))

-- From the second query on: its first row has the stats.
unfoldable pub load_stats : (entity_type character_id : ℕ) → String → Option Row → Reads Player
unfolding read_stats
load_stats entity_type character_id name none = ok none
load_stats entity_type character_id name (some row) = then_read (read_stats row) (λ stats. ok (
    some (record {
      entity_type = entity_type;
      character_id = character_id;
      name = name;
      stats = stats;
    })))

-- From the first query on; the map of the types is shared by all loads.
unfoldable pub load_character :
    (ℕ → Option (List Row))
    → Map String ℕ
    → Option (ℤ × String × String)
    → Result (Option Player × Map String ℕ)
unfolding load_stats
load_character stats_of types none = ok (none, types)
load_character stats_of types (some (id, name, race)) =
    let character_id = to_uint32 id in
    let (entity_type, more_types) = entity_type_of race types in
    load_stats entity_type character_id name (first_row (stats_of character_id)) >>= λ player.
    ok (player, more_types)

abbrev pub if_row : (Row → Reads (ℤ × String × String)) → Option Row → Reads (ℤ × String × String)
if_row read none = ok none
if_row read (some row) = read row

-- `prepared` is the outcome of the first statement; `stats_of` is that of the second query, for an identifier.
unfoldable pub load :
    Bool
    → Option (List Row)
    → (ℕ → Option (List Row))
    → Map String ℕ
    → Result (Option Player × Map String ℕ)
unfolding read_character load_character
load prepared characters stats_of types =
    if not prepared
    then ok (none, types)
    else (if_row (λ row. read_character row) (first_row characters)
        >>= load_character stats_of types)

-- `Inventory`: the address of the main weapon.
pub record Inventory : Type 0 where
  pub main_weapon : Option ℕ

unfoldable pub get_main_weapon : Inventory → Option ℕ
get_main_weapon i = i.main_weapon

unfoldable pub set_main_weapon : Option ℕ → Inventory → Inventory
set_main_weapon weapon i = record i { main_weapon = weapon }
