-- ===== src/Network.antt =====
-- tower/network: the server, its zones and their clients. A strand is a queue of tasks, of which a thread runs
-- the first; `Server.Step` says in which order the strands and the outside world may act.
pub mod Client
pub mod HeartBeat
pub mod Terrain
pub mod Zone
pub mod Server
pub mod Runs
pub mod Membership
pub mod Lifetime
pub mod Refusals
pub mod Startup
pub mod Receive
mod Tests
