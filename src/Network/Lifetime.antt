-- ===== src/Network/Lifetime.antt =====
-- From the socket to the removal of a client: which tasks are still to come for it, and that the server never looks
-- up the zone of a client that it does not have when it removes one.
pub mod Connected
pub mod Ready
pub mod ZoneTasks
pub mod Edits
pub mod Tasks
pub mod Steps
use tower_main.Common.{
  ℕ, ◌≡◌, Bool, true, false, if◌then◌else◌, List, [], ◌∷◌, Option, none, some, ◌==◌, nat_eq,
}
use tower_main.Common.Map.{Map, lookup}
use tower_main.Network.Client.{Client, Store}
use tower_main.Network.Membership.{holds}
use tower_main.Network.Server
use tower_main.Network.Server.{Server, ServerTask}
use tower_main.Network.Zone.{Gameplay}

abbrev pub is_open : Option Client → Bool
is_open none = false
is_open (some c) = c.is_connected

abbrev pub connected : ℕ → Store → Bool
connected id store = is_open (lookup id store)

-- From `present`, the tasks of the queue add and remove the client in turn, remove it only where it is present, and
-- leave it present or not as `target` says.
abbrev pub Ready : ℕ → Bool → List ServerTask → Bool → Type 0
Ready id target [] present = present ≡ target
Ready id target (Server.adds j ∷ ts) present =
    Ready id target ts (if j == id then true else present)
Ready id target (Server.removes j ∷ ts) present =
    (j ≡ id → present ≡ true) × Ready id target ts (if j == id then false else present)
Ready id target (Server.handles j packet ∷ ts) present = Ready id target ts present
Ready id target (Server.resumes j outcome ∷ ts) present = Ready id target ts present
Ready id target (Server.cleans ∷ ts) present = Ready id target ts present

-- The two maps of the server have the same clients, and once the tasks have run, these are the connected ones.
pub record Lives (tasks : List ServerTask) (clients current_zones : Map ℕ ℕ) (store : Store)
    : Type 0 where
  pub same_keys : (id : ℕ) → holds id clients ≡ holds id current_zones
  pub ready : (id : ℕ) → Ready id (connected id store) tasks (holds id current_zones)

abbrev pub IsLive : {game : Gameplay} → Server game → Type 0
IsLive s = Lives s.tasks s.clients s.clients_current_zone s.shared.store
