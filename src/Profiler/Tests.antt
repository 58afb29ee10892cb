-- ===== src/Profiler/Tests.antt =====
-- A window from which one of two packets has fallen.
use tower_main.Common.{◌≡◌, refl, ◌↔◌, ◌∈◌, inl, inr, false, [], ◌∷◌, arith}
use tower_main.Profiler.{Profiler, PacketRecord, renew, record_packet}
use tower_main.Profiler.Window.{IsValid, InWindow, IsSorted, renew_window, record_packet-IsValid}

abbrev early : PacketRecord
early = record { timestamp = 0; bytes = 40 }

abbrev late : PacketRecord
late = record { timestamp = 6000; bytes = 60 }

abbrev two_packets : Profiler
two_packets = record {
  records = early ∷ late ∷ [];
  is_renewing = false;
  total_packets = 2;
  total_bytes = 100;
}

two_packets-IsValid : IsValid two_packets
two_packets-IsValid = record {
  counted = refl;
  summed = refl;
  packets_fit = omega arith;
  bytes_fit = omega arith;
}

two_packets-IsSorted : IsSorted (early ∷ late ∷ [])
two_packets-IsSorted = (
  λ s m. elim m [ inl e ↦ rw e (omega arith) | inr nowhere ↦ absurd nowhere ],
  (λ s m. absurd m, tt),
)

renew_window_example :
    IsValid (renew 7000 two_packets)
    × ((renew 7000 two_packets).is_renewing ≡ false)
    × ((s : PacketRecord)
        → (s ∈ (renew 7000 two_packets).records) ↔ ((s ∈ early ∷ late ∷ []) × InWindow 7000 s))
renew_window_example =
    renew_window 7000 two_packets two_packets-IsValid refl two_packets-IsSorted (omega arith)

record_packet-IsValid_example : IsValid (record_packet 7000 300 two_packets)
record_packet-IsValid_example =
    record_packet-IsValid 7000 300 two_packets two_packets-IsValid (omega arith) (omega arith)
      (omega arith)
