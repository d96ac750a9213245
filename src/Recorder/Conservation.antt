-- ===== src/Recorder/Conservation.antt =====
-- No accepted hit is lost or counted twice, with the memory statistics behind the recorder.
use vshortlink.Prelude.{
  ℕ, ◌+◌, ◌%◌, ◌^◌, ◌≡◌, refl, ap, ◌∙◌, true, false, List, [], ◌∷◌, ◌++◌, Text, same, same_iff,
  occurrences, ltb, if◌then◌else◌, length, arith, if_elim,
}
use vshortlink.Prelude.Keyed.{lookup, insert, text_key}
use vshortlink.Memory.Stats.{
  Counts, MemoryShortLinkStats, or_zero, or_new, add_deltas, incr_batch, memory_stats,
}
use vshortlink.Memory.Stats.Counters.{delta_of, lookup-add_deltas}
use vshortlink.Recorder.{
  Merge, Recorder, record_hit, count_hit, drain, Event, hit, receive, tick, stop, flush_now,
  receive_from, running, finished, run_event, run_events,
}

occurrences-append :
    (code : Text) (cs ds : List Text)
    → occurrences code (cs ++ ds) ≡ occurrences code cs + occurrences code ds
occurrences-append code [] ds = omega arith
occurrences-append code (c ∷ cs) ds = omega (arith, occurrences-append code cs ds)

-- The counters of a code, over all days.
pub total : Text → List (Text × Counts) → ℕ
total code [] = 0
total code ((day, counts) ∷ rest) = or_zero (lookup code counts) + total code rest

total-insert :
    (code day : Text) (counts : Counts) (data_rows : List (Text × Counts))
    → total code (insert day counts data_rows)
        + or_zero (lookup code (or_new (lookup day data_rows)))
      ≡ total code data_rows + or_zero (lookup code counts)
unfolding total insert lookup
total-insert code day counts [] = ground arith
total-insert code day counts ((d, old) ∷ rest) = ground (arith, total-insert code day counts rest)

delta_of-insert :
    (code c : Text) (n : ℕ) (m : Merge)
    → delta_of code (insert c n m) + (if same c code then or_zero (lookup c m) else 0)
      ≡ delta_of code m + (if same c code then n else 0)
unfolding insert lookup
delta_of-insert code c n [] = ground arith
delta_of-insert code c n ((d, old) ∷ m) =
    ground (arith, same_iff d c, same_iff c code, same_iff d code, delta_of-insert code c n m)

-- Congruence modulo 2^64, the modulus of the counters.
abbrev pub Congruent : ℕ → ℕ → Type 0
Congruent a b = a % 2 ^ 64 ≡ b % 2 ^ 64

delta_of-count_hit :
    (code c : Text) (m : Merge)
    → Congruent (delta_of code (count_hit c m)) (delta_of code m + (if same c code then 1 else 0))
unfolding count_hit
delta_of-count_hit code c m =
    let n : ℕ = (or_zero (lookup c m) + 1) % 2 ^ 64 in ground (arith, delta_of-insert code c n m)

delta_of-drain :
    (code : Text) (cs : List Text) (m : Merge)
    → Congruent (delta_of code (drain cs m)) (delta_of code m + occurrences code cs)
unfolding drain
delta_of-drain code [] m = omega arith
delta_of-drain code (c ∷ cs) m =
    omega (arith, delta_of-drain code cs (count_hit c m), delta_of-count_hit code c m)

abbrev System : Type 0
System = Recorder × MemoryShortLinkStats

-- The hits of a code that are in the channel, in the merge map and in the counters.
abbrev pub held : Text → Recorder × MemoryShortLinkStats → ℕ
held code (r, t) = occurrences code r.channel + delta_of code r.merge + total code t.days_data

total-flush :
    (code day : Text) (m : Merge) (r : Recorder) (t : MemoryShortLinkStats)
    → Congruent
        (total code (flush_now memory_stats day m (r, t)).1.days_data)
        (total code t.days_data + delta_of code m)
unfolding flush_now incr_batch
total-flush code day [] r t = omega arith
total-flush code day (d ∷ m) r t =
    let old = or_new (lookup day t.days_data) in
    omega (
      arith,
      total-insert code day (add_deltas (d ∷ m) old) t.days_data,
      lookup-add_deltas code (d ∷ m) old,
    )

module _ (day : Text) (m : Merge) (r : Recorder) (t : MemoryShortLinkStats) where
  channel-flush : (flush_now memory_stats day m (r, t)).0.channel ≡ r.channel
  unfolding flush_now
  channel-flush = ground arith

  merge-flush : (flush_now memory_stats day m (r, t)).0.merge ≡ r.merge
  unfolding flush_now
  merge-flush = ground arith

-- Whether an event puts a hit of the code into the channel.
abbrev pub accepts : Text → Event → Recorder → ℕ
accepts code (hit c) r =
    if ltb (length r.channel) r.buffer_size then (if same c code then 1 else 0) else 0
accepts code receive r = 0
accepts code (tick day) r = 0
accepts code (stop day) r = 0

held-record_hit :
    (code c : Text) (r : Recorder) (t : MemoryShortLinkStats)
    → held code (record_hit c r, t) ≡ held code (r, t) + accepts code (hit c) r
unfolding record_hit
held-record_hit code c r t = ground (arith, occurrences-append code r.channel (c ∷ []))

held-flush :
    (code day : Text) (m : Merge) (r : Recorder) (t : MemoryShortLinkStats)
    → Congruent
        (held code (flush_now memory_stats day m (r, t)))
        (held code (r, t) + delta_of code m)
held-flush code day m r t =
    rw (channel-flush day m r t, merge-flush day m r t) (omega (arith, total-flush code day m r t))

held-receive :
    (code : Text) (cs : List Text) (r : Recorder) (t : MemoryShortLinkStats)
    → r.channel ≡ cs
    → Congruent (held code (receive_from memory_stats cs (r, t))) (held code (r, t))
unfolding receive_from
held-receive code [] r t e = refl
held-receive code (c ∷ cs) r t e =
    omega (arith, delta_of-count_hit code c r.merge, ap (occurrences code) e)

held-running :
    (code : Text) (e : Event) (x : Recorder × MemoryShortLinkStats)
    → Congruent (held code (running memory_stats e x)) (held code x + accepts code e x.0)
unfolding running
held-running code (hit c) (r, t) = omega (arith, held-record_hit code c r t)
held-running code receive (r, t) = omega (arith, held-receive code r.channel r t refl)
held-running code (tick day) (r, t) =
    omega (arith, held-flush code day r.merge (record r { merge = [] }) t)
held-running code (stop day) (r, t) = omega (
  arith,
  held-flush code day (drain r.channel r.merge) (record r { channel = []; merge = []; done = true })
      t,
  delta_of-drain code r.channel r.merge,
)

held-finished :
    (code : Text) (e : Event) (x : Recorder × MemoryShortLinkStats)
    → Congruent (held code (finished memory_stats e x)) (held code x + accepts code e x.0)
unfolding finished
held-finished code (hit c) (r, t) = omega (arith, held-record_hit code c r t)
held-finished code receive x = omega arith
held-finished code (tick day) x = omega arith
held-finished code (stop day) x = omega arith

held-run_event :
    (code : Text) (e : Event) (x : Recorder × MemoryShortLinkStats)
    → Congruent (held code (run_event memory_stats e x)) (held code x + accepts code e x.0)
unfolding run_event
held-run_event code e (r, t) =
    if_elim (λ y. Congruent (held code y) (held code (r, t) + accepts code e r)) r.done
      (finished memory_stats e (r, t)) (running memory_stats e (r, t)) (held-finished code e (r, t))
      (held-running code e (r, t))

-- The hits of a code that the events of a run put into the channel.
pub accepted : Text → List Event → Recorder × MemoryShortLinkStats → ℕ
accepted code [] x = 0
accepted code (e ∷ es) x = accepts code e x.0 + accepted code es (run_event memory_stats e x)

held-run_events :
    (code : Text) (es : List Event) (x : Recorder × MemoryShortLinkStats)
    → Congruent (held code (run_events memory_stats es x)) (held code x + accepted code es x)
unfolding run_events accepted
held-run_events code [] x = omega arith
held-run_events code (e ∷ es) x =
    omega (arith, held-run_event code e x, held-run_events code es (run_event memory_stats e x))

run_event-running :
    (e : Event) (x : Recorder × MemoryShortLinkStats)
    → x.0.done ≡ false
    → run_event memory_stats e x ≡ running memory_stats e x
unfolding run_event
run_event-running e (r, t) going =
    ap (λ b. if b then finished memory_stats e (r, t) else running memory_stats e (r, t)) going

run_events-append :
    (es : List Event) (e : Event) (x : Recorder × MemoryShortLinkStats)
    → run_events memory_stats (es ++ e ∷ []) x
      ≡ run_event memory_stats e (run_events memory_stats es x)
unfolding run_events
run_events-append [] e x = refl
run_events-append (d ∷ es) e x = run_events-append es e (run_event memory_stats d x)

stop_empties :
    (day : Text) (x : Recorder × MemoryShortLinkStats)
    → ((running memory_stats (stop day) x).0.channel ≡ [])
      × ((running memory_stats (stop day) x).0.merge ≡ [])
unfolding running
stop_empties day (r, t) =
    let r' : Recorder = record r { channel = []; merge = []; done = true } in
    (
      channel-flush day (drain r.channel r.merge) r' t,
      merge-flush day (drain r.channel r.merge) r' t,
    )

-- However hits, receives and ticks interleave, after `stop` every hit that found room in the channel
-- has been added to the counter of its code, once (counters are modulo 2^64): the channel and the
-- merge map are empty, and the counters have grown by the accepted hits and by what was held before.
pub stop_flushes_all_hits :
    (code day : Text) (es : List Event) (x : Recorder × MemoryShortLinkStats)
    → (run_events memory_stats es x).0.done ≡ false
    → (y : Recorder × MemoryShortLinkStats) × (run_events memory_stats (es ++ stop day ∷ []) x ≡ y)
      × (y.0.channel ≡ [])
      × (y.0.merge ≡ [])
      × Congruent (total code y.1.days_data) (held code x + accepted code es x)
stop_flushes_all_hits code day es x going =
    let x' = run_events memory_stats es x in
    let y : Recorder × MemoryShortLinkStats = running memory_stats (stop day) x' in
    let (no_channel, no_merge) = stop_empties day x' in
    (
      y,
      run_events-append es (stop day) x ∙ run_event-running (stop day) x' going,
      no_channel,
      no_merge,
      omega (
        arith,
        held-running code (stop day) x',
        held-run_events code es x,
        ap (occurrences code) no_channel,
        ap (delta_of code) no_merge,
      ),
    )
