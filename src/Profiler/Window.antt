-- ===== src/Profiler/Window.antt =====
-- The totals of the profiler are those of the records in its window.
use tower_main.Common.{
  ℕ, zero, suc, ◌+◌, ◌%◌, ◌^◌, ◌≤◌, ◌<◌, ◌≡◌, refl, ap, subst, ◌↔◌, inl, inr, Bool, true, false,
  ltb, if◌then◌else◌, List, [], ◌∷◌, ◌++◌, ◌∈◌, length, length-append, arith, Bool-cases, ltb→lt,
  ltb→le,
}
use tower_main.Profiler.{
  Profiler, PacketRecord, window_length, max_pops, pop_record, renew_loop, renew, record_packet,
}

abbrev sum_bytes : List PacketRecord → ℕ
sum_bytes [] = 0
sum_bytes (r ∷ rs) = r.bytes + sum_bytes rs

-- The totals count the records and add up their sizes, and no total wraps.
pub record IsValid (p : Profiler) : Type 0 where
  pub counted : p.total_packets ≡ length p.records
  pub summed : p.total_bytes ≡ sum_bytes p.records
  pub packets_fit : length p.records < 2 ^ 64
  pub bytes_fit : sum_bytes p.records < 2 ^ 64

-- The records after those that `renew` may pop: `kept` is what it leaves of `rs`.
pub data Pops (now : ℕ) : ℕ → List PacketRecord → List PacketRecord → Type 0 where
  spent : (rs : List PacketRecord) → Pops now zero rs rs
  ended : (pops : ℕ) → Pops now (suc pops) [] []
  young :
      (pops : ℕ) (r : PacketRecord) (rs : List PacketRecord)
      → now < r.timestamp + window_length
      → Pops now (suc pops) (r ∷ rs) (r ∷ rs)
  old :
      (pops : ℕ) (r : PacketRecord) {rs kept : List PacketRecord}
      → r.timestamp + window_length ≤ now
      → Pops now pops rs kept
      → Pops now (suc pops) (r ∷ rs) kept

-- What the loop makes of a valid profiler.
pub record Renewed (now pops : ℕ) (rs : List PacketRecord) (p p' : Profiler) : Type 0 where
  pub pops_old : Pops now pops rs p'.records
  pub valid : IsValid p'
  pub same_flag : p'.is_renewing ≡ p.is_renewing

pop_record-IsValid :
    (r : PacketRecord) (rest : List PacketRecord) (p : Profiler)
    → p.records ≡ r ∷ rest
    → IsValid p
    → IsValid (pop_record r rest p)
unfolding pop_record
pop_record-IsValid r rest p e v =
    let count = ap length e in
    let sum = ap sum_bytes e in
    record {
      counted = omega (arith, v.counted, v.packets_fit);
      summed = omega (arith, v.summed, v.bytes_fit);
      packets_fit = omega (arith, v.packets_fit);
      bytes_fit = omega (arith, v.bytes_fit);
    }

renew_loop-Renewed :
    (pops now : ℕ) (rs : List PacketRecord) (p : Profiler)
    → p.records ≡ rs
    → IsValid p
    → Renewed now pops rs p (renew_loop pops now rs p)
unfolding renew_loop
renew_loop-Renewed zero now rs p e v = record {
  pops_old = rw e (spent rs);
  valid = v;
  same_flag = refl;
}
renew_loop-Renewed (suc pops) now [] p e v = record {
  pops_old = rw e (ended pops);
  valid = v;
  same_flag = refl;
}
renew_loop-Renewed (suc pops) now (r ∷ rest) p e v =
    elim (Bool-cases (ltb now (r.timestamp + window_length))) [
      | inl t ↦ rw t (record {
        pops_old = rw e (young pops r rest (ltb→lt _ _ t));
        valid = v;
        same_flag = refl;
      })
      | inr t ↦
          let more =
            renew_loop-Renewed pops now rest (pop_record r rest p) refl
              (pop_record-IsValid r rest p e v) in
          rw t (record {
            pops_old = old pops r (ltb→le _ _ t) more.pops_old;
            valid = more.valid;
            same_flag = more.same_flag;
          })
    ]

abbrev pub IsSorted : List PacketRecord → Type 0
IsSorted [] = Unit
IsSorted (r ∷ rs) = ((s : PacketRecord) → s ∈ rs → r.timestamp ≤ s.timestamp) × IsSorted rs

abbrev pub InWindow : ℕ → PacketRecord → Type 0
InWindow now r = now < r.timestamp + window_length

Pops-InWindow :
    {now pops : ℕ} {rs kept : List PacketRecord}
    → Pops now pops rs kept
    → length rs ≤ pops
    → IsSorted rs
    → (s : PacketRecord) → (s ∈ kept) ↔ ((s ∈ rs) × InWindow now s)
Pops-InWindow (spent []) le sorted s = (λ m. absurd m, λ m. m.0)
Pops-InWindow (spent (r ∷ rs)) le sorted s = absurd (omega arith)
Pops-InWindow (ended pops) le sorted s = (λ m. absurd m, λ m. m.0)
Pops-InWindow {now} (young pops r rs h) le sorted s =
    (λ m. (m, elim m [ inl e ↦ rw e h | inr later ↦ omega (arith, sorted.0 s later) ]), λ m. m.0)
Pops-InWindow {now} (old pops r {rs} {kept} h t) le sorted s =
    let rest = Pops-InWindow t (omega arith) sorted.1 s in
    (
      λ m. (inr (rest.0 m).0, (rest.0 m).1),
      λ m. rest.1 (
        elim m.0 [
          | inl e ↦ absurd (let w = subst (λ x. InWindow now x) e m.1 in omega arith)
          | inr later ↦ later
        ],
        m.1,
      ),
    )

renewed : ℕ → Profiler → Profiler
renewed now p = renew_loop max_pops now p.records (record p { is_renewing = true })

renew-idle :
    (now : ℕ) (p : Profiler)
    → p.is_renewing ≡ false
    → renew now p ≡ record (renewed now p) { is_renewing = false }
unfolding renew renewed
renew-idle now p e =
    ap (λ (b : Bool). if b then p else (record (renewed now p) { is_renewing = false })) e

-- `renew` while no other call of it runs, on at most 10000 records in the order of their times, whose totals are
-- right: the totals stay those of the records, the flag is cleared, and exactly the records of the last 5 seconds
-- are left.
pub renew_window :
    (now : ℕ) (p : Profiler)
    → IsValid p
    → p.is_renewing ≡ false
    → IsSorted p.records
    → length p.records ≤ max_pops
    → IsValid (renew now p)
      × ((renew now p).is_renewing ≡ false)
      × ((s : PacketRecord) → (s ∈ (renew now p).records) ↔ ((s ∈ p.records) × InWindow now s))
unfolding renewed
renew_window now p v idle sorted few =
    let begun : Profiler = record p { is_renewing = true } in
    let run = renew_loop-Renewed max_pops now p.records begun refl (record {
      counted = v.counted;
      summed = v.summed;
      packets_fit = v.packets_fit;
      bytes_fit = v.bytes_fit;
    }) in
    rw (renew-idle now p idle) (
      record {
        counted = run.valid.counted;
        summed = run.valid.summed;
        packets_fit = run.valid.packets_fit;
        bytes_fit = run.valid.bytes_fit;
      },
      refl,
      Pops-InWindow run.pops_old few sorted,
    )

sum_bytes-append : (rs ss : List PacketRecord) → sum_bytes (rs ++ ss) ≡ sum_bytes rs + sum_bytes ss
sum_bytes-append [] ss = omega arith
sum_bytes-append (r ∷ rs) ss = omega (arith, sum_bytes-append rs ss)

-- Recording a packet smaller than 2^16 bytes keeps the totals those of the records, while neither total reaches
-- 2^64.
pub record_packet-IsValid :
    (now packet_bytes : ℕ) (p : Profiler)
    → IsValid p
    → packet_bytes < 2 ^ 16
    → length p.records + 1 < 2 ^ 64
    → sum_bytes p.records + packet_bytes < 2 ^ 64
    → IsValid (record_packet now packet_bytes p)
unfolding record_packet
record_packet-IsValid now packet_bytes p v small room space =
    let added : PacketRecord = record { timestamp = now; bytes = packet_bytes % 2 ^ 16 } in
    let count = length-append p.records (added ∷ []) in
    let sum = sum_bytes-append p.records (added ∷ []) in
    record {
      counted = omega (arith, v.counted);
      summed = omega (arith, v.summed);
      packets_fit = omega arith;
      bytes_fit = omega arith;
    }
