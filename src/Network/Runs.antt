-- ===== src/Network/Runs.antt =====
-- The runs of the server, its zones and the outside world: sequences of steps, in any order.
use tower_main.Common.{
  ℕ, ◌≡◌, Bool, String, List, ◌∷◌, [], ◌++◌, Option, some, ok, err, Error, nat_eq,
}
use tower_main.Common.Map.{lookup, insert}
use tower_main.Network.Client.{Packet}
use tower_main.Network.Zone
use tower_main.Network.Zone.{Gameplay, ZoneTask, Shared}
use tower_main.Network.Server
use tower_main.Network.Server.{
  Server, ServerTask, JoinOutcome, lose_connection, accept_client, receive,
}

-- A step of the program: something comes in from outside, or a strand runs its first task. A task of the server that
-- throws is over, and has changed nothing.
pub data Step {game : Gameplay} (verify : String → String → Bool)
    : Server game → Server game → Type 1 where
  accepts : (s : Server game) → Step verify s (accept_client s)
  receives :
      (now later id size : ℕ) (packet : Option Packet) (s : Server game)
      → Step verify s (receive now later id size packet s)
  loses : (id : ℕ) (s : Server game) → Step verify s (lose_connection id s)
  resumes :
      (id : ℕ) (outcome : JoinOutcome) (s : Server game)
      → Step verify s (record s { tasks = s.tasks ++ Server.resumes id outcome ∷ [] })
  runs :
      (task : ServerTask) (rest : List ServerTask) (s s' : Server game)
      → s.tasks ≡ task ∷ rest
      → Server.run_task verify task (record s { tasks = rest }) ≡ ok s'
      → Step verify s s'
  throws :
      (task : ServerTask) (rest : List ServerTask) (s : Server game) (error : Error)
      → s.tasks ≡ task ∷ rest
      → Server.run_task verify task (record s { tasks = rest }) ≡ err error
      → Step verify s (record s { tasks = rest })
  starts : (s : Server game) → Step verify s (Server.start s)
  stops : (s : Server game) → Step verify s (Server.stop s)
  zone_runs :
      (now later z : ℕ) (zone zone' : Zone.Zone game.Subworld) (shared' : Shared game.Entities)
      (task : ZoneTask) (rest : List ZoneTask) (s : Server game)
      → lookup z s.zones ≡ some zone
      → zone.tasks ≡ task ∷ rest
      → Zone.run_task game now later task (record zone { tasks = rest }) s.shared
        ≡ ok (zone', shared')
      → Step verify s (record s { zones = insert z zone' s.zones; shared = shared' })

pub data Run {game : Gameplay} (verify : String → String → Bool)
    : Server game → Server game → Type 1 where
  done : (s : Server game) → Run verify s s
  after : {s t u : Server game} → Step verify s t → Run verify t u → Run verify s u
