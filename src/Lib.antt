-- ===== src/Lib.antt =====
-- A model of the tower game server, with the theorems that make its parts correct.
--
-- The server (tower/network) accepts clients and moves them between zones. Each zone holds a subworld with
-- a grid of obstacles, in which entities with a health and a state machine move; monsters find their way to a
-- player over the grid. The files and what they model:
--
--   Common        numbers, lists, integers, results and association lists that the parts share
--   Grid          tower/system/container/grid.hpp: Point and Grid<bool>
--   Pathfinder    tower/world/path_finder.hpp: Pathfinder::find_path, astar and reconstruct_path, and in
--                 Pathfinder/Jps the jump point search
--   Nodes         tower/world/node.hpp: the tree of nodes
--   StateMachine  tower/system/state.hpp and state_machine.hpp: State and StateMachine
--   Health        tower/entity/entity.hpp: EntityResource::change_health
--   Containers    tower/system/container/concurrent_queue.hpp and concurrent_map.hpp
--   Profiler      tower/network/profiler.hpp: Profiler
--   Subworld      tower/world/subworld.cpp: the contacts of collision areas, the queries for collisions, and in
--                 Subworld/Trees the entities, with CollisionObject of tower/physics/collision_object.hpp
--   Attack        tower/skill/melee_attack.hpp: MeleeAttack::use, with the machine and the health with which
--                 tower/player/player.cpp and tower/entity/simple_monster.cpp create an entity
--   Monster       tower/entity/simple_monster.cpp: SimpleMonster::tick
--   Player        tower/player/player.cpp: Player::load, with the stats of stat.hpp, and inventory.cpp
--   Network       tower/network/client.cpp, connection.cpp, zone.cpp and server.cpp: Network/Client has the
--                 clients and their connections, Network/Receive the receipt of a packet, Network/HeartBeat the
--                 HeartBeater, Network/Terrain the grid that Zone::create builds, Network/Zone and
--                 Network/Server the tasks of the two strands, Network/Runs the runs of all of them, with
--                 Network/Membership on the clients of the zones and Network/Lifetime on those of the
--                 server, Network/Refusals the packets at which a handler throws, and Network/Startup
--                 Server::init
--
-- A definition has the name of the function it models. A member function takes its object as the last argument, or
-- as the first where it only reads it, and returns what the object becomes; `Result` is a call that may throw, or
-- whose behaviour C++ leaves undefined. A task that is posted to a strand is an entry of a queue, and a run is a
-- sequence of steps, each of which runs the first task of a queue or brings something in from outside. A coroutine is
-- split where it waits. `size_t`, `uint64_t` and `int` are numbers and integers with their bounds and conversions
-- written out.
--
-- Bounds and fuel. The loop of A* runs on the fuel 8 * rows * cols + 2: each round closes a cell for the first time,
-- which adds at most 8 entries to the queue, or takes one of these out. A path is followed for at most twice as many
-- steps, since the cost from the start falls at each. The theorem on A* shows that both are enough. The priority
-- queue is any that takes out a least entry, and `least_first` is one. Costs and coordinates are `int`s, and a
-- sum, a difference or a magnitude that leaves the type is an error. A cost is at most 2 for each cell that is settled,
-- and the heuristic less than the sum of the sides, so that no cost overflows on a grid of which twice the number of
-- cells, with the rows and the columns, is below 2^31. The jump point search has no costs, and computes the distance to
-- an end that it does not check, which an `int` has to hold.
--
-- The walks over the tree of nodes and the rounds of the jump point search run on a fuel that is an argument. A probe of
-- the jump point search has the rows and the columns and one as its fuel, which a theorem shows to be enough; its
-- rounds, and the path that it reconstructs, have no such bound, and the latter may never end.
--
-- Not modelled: floating-point geometry and movement (whether two shapes touch is an argument of the contacts and of
-- the attacks, and the comparisons of distances are arguments of the tick of a monster); the tick of a subworld as a
-- whole, for which the zones have an interface; the update of a stat, and the packet that describes a player; input
-- and output, that is sockets, files, the database, logging and settings. The check of a token, the outcome of the
-- queries and what is read from a socket are arguments of the handlers. The packets, whose schemas are not in the
-- repository, are data with what the handlers read.
pub mod Common
pub mod Grid
pub mod Pathfinder
pub mod Nodes
pub mod StateMachine
pub mod Health
pub mod Containers
pub mod Attack
pub mod Monster
pub mod Player
pub mod Network
pub mod Profiler
pub mod Subworld
