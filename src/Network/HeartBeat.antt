-- ===== src/Network/HeartBeat.antt =====
-- `Client::HeartBeater` of tower/network/client.cpp. Times are milliseconds of the steady clock.
use tower_main.Common.{
  ℕ, suc, ◌+◌, ◌≤◌, ◌<◌, ◌≡◌, refl, ◌∙◌, sym, ap, subst, ◌++◌, Bool, true, false, leb, not,
  if◌then◌else◌, List, [], ◌∷◌, length, arith,
}

abbrev pub max_dead_beats : ℕ
max_dead_beats = 3

abbrev pub beat_interval : ℕ
beat_interval = 5000

-- `stops` counts the calls of `Client::stop`, `beats_sent` the `HeartBeat` packets sent.
pub record HeartBeater : Type 0 where
  pub last_beat : ℕ
  pub dead_beats : ℕ
  pub is_ticking : Bool
  pub stops : ℕ
  pub beats_sent : ℕ

unfoldable pub start : ℕ → HeartBeater → HeartBeater
start now h = record h { last_beat = now; is_ticking = true }

unfoldable pub stop : HeartBeater → HeartBeater
stop h = record h { is_ticking = false }

unfoldable pub beat : ℕ → HeartBeater → HeartBeater
beat now h = record h { last_beat = now; dead_beats = 0 }

-- The slot of the signal `timeout`, which `Client::stop` in turn disconnects.
unfoldable pub on_timeout : ℕ → HeartBeater → HeartBeater
unfolding stop
on_timeout now h =
    if not h.is_ticking
    then h
    else if leb max_dead_beats h.dead_beats
    then stop (record h { stops = suc h.stops })
    else if leb now (h.last_beat + beat_interval)
    then h
    else record h { dead_beats = suc h.dead_beats; beats_sent = suc h.beats_sent }

-- The packets of the client and the timeouts, in the order of their times.
pub data Event : Type 0 where
  packet_at timeout_at : (now : ℕ) → Event

unfoldable pub handle : Event → HeartBeater → HeartBeater
unfolding beat on_timeout
handle (packet_at now) h = beat now h
handle (timeout_at now) h = on_timeout now h

pub handle_all : List Event → HeartBeater → HeartBeater
unfolding handle
handle_all [] h = h
handle_all (e ∷ es) h = handle_all es (handle e h)

abbrev pub AreLate : ℕ → List Event → Type 0
AreLate last [] = Unit
AreLate last (packet_at now ∷ es) = ⊥
AreLate last (timeout_at now ∷ es) = (last + beat_interval < now) × AreLate last es

-- What a silent client makes of the heart beater, from `h` to `h'`, if `n` late timeouts pass.
pub record Silent (n : ℕ) (h h' : HeartBeater) : Type 0 where
  pub counted : h'.dead_beats ≡ h.dead_beats + n
  pub sent : h'.beats_sent ≡ h.beats_sent + n
  pub no_stop : h'.stops ≡ h.stops
  pub ticking : h'.is_ticking ≡ true

late_beat : HeartBeater → HeartBeater
late_beat h = record h { dead_beats = suc h.dead_beats; beats_sent = suc h.beats_sent }

on_timeout-late :
    (now : ℕ) (h : HeartBeater)
    → h.is_ticking ≡ true
    → h.dead_beats < max_dead_beats
    → h.last_beat + beat_interval < now
    → on_timeout now h ≡ late_beat h
unfolding on_timeout late_beat
on_timeout-late now h t few late = ground arith

handle_all-Silent :
    (es : List Event) (h : HeartBeater)
    → h.is_ticking ≡ true
    → AreLate h.last_beat es
    → h.dead_beats + length es ≤ max_dead_beats
    → Silent (length es) h (handle_all es h)
unfolding handle_all handle late_beat
handle_all-Silent [] h t late few = record {
  counted = omega arith;
  sent = omega arith;
  no_stop = refl;
  ticking = t;
}
handle_all-Silent (packet_at now ∷ es) h t late few = absurd late
handle_all-Silent (timeout_at now ∷ es) h t late few =
    let rest = handle_all-Silent es (late_beat h) t late.1 (omega arith) in
    subst (λ x. Silent (suc (length es)) h (handle_all es x))
      (sym (on_timeout-late now h t (omega arith) late.0))
      (record {
        counted = omega (arith, rest.counted);
        sent = omega (arith, rest.sent);
        no_stop = rest.no_stop;
        ticking = rest.ticking;
      })

handle_all-append :
    (es fs : List Event) (h : HeartBeater)
    → handle_all (es ++ fs) h ≡ handle_all fs (handle_all es h)
unfolding handle_all
handle_all-append [] fs h = refl
handle_all-append (e ∷ es) fs h = handle_all-append es fs (handle e h)

on_timeout-stops :
    (now : ℕ) (h : HeartBeater)
    → h.is_ticking ≡ true
    → max_dead_beats ≤ h.dead_beats
    → on_timeout now h ≡ stop (record h { stops = suc h.stops })
unfolding on_timeout
on_timeout-stops now h t many = ground arith

-- A client sends nothing after a beat at `last` while three timeouts pass, each later than the interval, and then
-- a fourth: it is sent a beat by each of the three, and the fourth stops it, once, and the timer with it.
pub silent_client-stops :
    (last now : ℕ) (es : List Event) (h : HeartBeater)
    → h.is_ticking ≡ true
    → AreLate last es
    → length es ≡ 3
    → ((handle_all (packet_at last ∷ es) h).stops ≡ h.stops)
      × ((handle_all (packet_at last ∷ es) h).beats_sent ≡ h.beats_sent + 3)
      × ((handle_all (packet_at last ∷ es ++ timeout_at now ∷ []) h).stops ≡ suc h.stops)
      × ((handle_all (packet_at last ∷ es ++ timeout_at now ∷ []) h).is_ticking ≡ false)
unfolding handle_all handle beat stop
silent_client-stops last now es h t late three =
    let heard = beat last h in
    let silent = handle_all-Silent es heard t late (omega arith) in
    let after =
      on_timeout-stops now (handle_all es heard) silent.ticking (omega (arith, silent.counted)) in
    let whole = handle_all-append es (timeout_at now ∷ []) heard ∙ after in
    (
      silent.no_stop,
      omega (arith, silent.sent),
      ap (λ (x : HeartBeater). x.stops) whole ∙ ap suc silent.no_stop,
      ap (λ (x : HeartBeater). x.is_ticking) whole,
    )
