-- ===== src/Containers.antt =====
-- tower/system/container/concurrent_queue.hpp and concurrent_map.hpp. Each member function holds the mutex
-- for its whole body, so a run of several threads is a sequence of whole calls.
pub mod Queue
pub mod SharedMap
pub mod Refinement
mod Tests
