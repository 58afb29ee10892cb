-- ===== src/Containers/Tests.antt =====
-- Runs of the two containers.
use tower_main.Common.{ℕ, ◌≡◌, nat_eq, leb, List, [], ◌∷◌, ◌++◌, ◌+◌}
use tower_main.Common.Map.{Map}
use tower_main.Containers.Queue
use tower_main.Containers.Queue.{Call, pushes, pops, swaps, Run, contents, pushed, run-contents}
use tower_main.Containers.Refinement.{
  MapCall, inserts, erases, extracts, applies, applies_some, view, calls, spec_calls, view-calls,
}

abbrev packet_calls : List (Call ℕ)
packet_calls = pushes 7 ∷ pops ∷ pushes 8 ∷ swaps (3 ∷ 4 ∷ []) ∷ pops ∷ pushes 9 ∷ []

abbrev waiting_packets : Run ℕ
waiting_packets = record { queue = 5 ∷ []; taken = [] }

run-contents_example :
    contents (Queue.run 0 packet_calls waiting_packets)
    ≡ contents waiting_packets ++ pushed packet_calls
run-contents_example = run-contents 0 packet_calls waiting_packets

abbrev first_player : ℕ
first_player = 1

abbrev players : Map ℕ ℕ
players = (1, 10) ∷ (2, 20) ∷ []

abbrev accesses : List (MapCall ℕ ℕ)
accesses =
    inserts 3 30
    ∷ applies 2 (λ v. v + 1)
    ∷ extracts 1
    ∷ applies_some (leb 25) (λ v. v + 1)
    ∷ erases 2
    ∷ []

view-calls_example :
    view (calls 0 accesses (record { entries = players; extracted = [] }))
    ≡ spec_calls accesses (view (record { entries = players; extracted = [] }))
view-calls_example = view-calls 0 accesses (record { entries = players; extracted = [] })
