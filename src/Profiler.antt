-- ===== src/Profiler.antt =====
-- tower/network/profiler.hpp: a sliding window over the packets received. Times are milliseconds of the steady
-- clock, and an argument of each call. The totals are `uint64_t`, the size of a record `uint16_t`.
pub mod Window
mod Tests
use package.tower_main.Common.{
  ℕ, zero, suc, ◌+◌, ◌-◌, ◌*◌, ◌/◌, ◌%◌, ◌^◌, Bool, true, false, ltb, if◌then◌else◌, List, [], ◌∷◌,
  ◌++◌,
}

abbrev pub window_length : ℕ
window_length = 5000

abbrev pub max_pops : ℕ
max_pops = 10000

pub record PacketRecord : Type 0 where
  pub timestamp : ℕ
  pub bytes : ℕ

-- The front of the queue is the head of `records`.
pub record Profiler : Type 0 where
  pub records : List PacketRecord
  pub is_renewing : Bool
  pub total_packets : ℕ
  pub total_bytes : ℕ

abbrev pub add_uint64 : ℕ → ℕ → ℕ
add_uint64 a b = (a + b) % 2 ^ 64

abbrev pub sub_uint64 : ℕ → ℕ → ℕ
sub_uint64 a b = (a + 2 ^ 64 - b) % 2 ^ 64

-- The record at the front leaves the window.
pub pop_record : PacketRecord → List PacketRecord → Profiler → Profiler
pop_record r rest p = record p {
  records = rest;
  total_packets = sub_uint64 p.total_packets 1;
  total_bytes = sub_uint64 p.total_bytes r.bytes;
}

-- `while (pops++ < max_pops && !_records.empty())`, with the pops that are left and the records in the queue.
pub renew_loop : ℕ → ℕ → List PacketRecord → Profiler → Profiler
unfolding pop_record
renew_loop zero now records p = p
renew_loop (suc pops) now [] p = p
renew_loop (suc pops) now (r ∷ rest) p =
    let popped = renew_loop pops now rest (pop_record r rest p) in
    if ltb now (r.timestamp + window_length) then p else popped

-- `exchange(true)` returns the old flag: a call that finds the other at work returns at once.
unfoldable pub renew : ℕ → Profiler → Profiler
unfolding renew_loop
renew now p =
    if p.is_renewing
    then p
    else (let renewed = renew_loop max_pops now p.records (record p { is_renewing = true }) in
        record renewed { is_renewing = false })

-- Under the lock: the record, whose size is cut to 16 bits, and the totals.
pub record_packet : ℕ → ℕ → Profiler → Profiler
record_packet now packet_bytes p = record p {
  records = p.records ++ record { timestamp = now; bytes = packet_bytes % 2 ^ 16 } ∷ [];
  total_packets = add_uint64 p.total_packets 1;
  total_bytes = add_uint64 p.total_bytes packet_bytes;
}

-- `packet_bytes` is a `uint32_t`. The clock is read again by `renew`.
unfoldable pub add_packet : ℕ → ℕ → ℕ → Profiler → Profiler
unfolding record_packet renew
add_packet now later packet_bytes p = renew later (record_packet now packet_bytes p)

unfoldable pub get_pps : Profiler → ℕ
get_pps p = p.total_packets * 1000 % 2 ^ 64 / window_length

unfoldable pub get_bps : Profiler → ℕ
get_bps p = p.total_bytes * 1000 % 2 ^ 64 / window_length
