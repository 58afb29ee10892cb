-- ===== src/Player/Tests.antt =====
-- A player with a faith.
use Prim.Native.String.{String}
use tower_main.Common.{
  ℕ, ◌≡◌, refl, List, [], ◌∷◌, ◌==◌, nat_eq, if◌then◌else◌, Option, none, some, ok,
}
use tower_main.Common.Int.{pos, negsuc}
use tower_main.Common.Map.{Map}
use tower_main.Player.{Row, Stats, read_stats}
use tower_main.Player.Loading.{stats_row}

abbrev hero : Stats
hero = record {
  level = pos 12;
  exp = pos 70000;
  str = pos 9;
  mag = negsuc 0;
  agi = pos 4;
  con = pos 7;
  optional_faith = some (pos 3);
}

abbrev types : Map String ℕ
types = ("HUMAN", 1) ∷ []

abbrev stats_of : ℕ → Option (List Row)
stats_of id = if id == 5 then some (stats_row 5 hero ∷ []) else none

-- A level of 40000 is stored, and another one is loaded.
wrapped_level :
    (s : Stats) × (read_stats (stats_row 5 (record hero { level = pos 40000 })) ≡ ok (some s))
    × (s.level ≡ negsuc 25535)
unfolding read_stats
wrapped_level = (_, refl, refl)
