-- ===== src/Examples/Codes.antt =====
-- Base 62, the generator and the recorder at concrete inputs.
use vshortlink.Prelude.{
  ◌+◌, ◌*◌, ◌≡◌, ◌≢◌, refl, false, List, [], ◌∷◌, ◌++◌, codes, length, All, ok, arith,
}
use vshortlink.Prelude.Int.{ℤ, pos}
use vshortlink.Prelude.Keyed.{lookup, insert, text_key}
use vshortlink.Base62.{to_base62, from_base62, index_rune}
use vshortlink.Base62.RoundTrip.{from_base62-to_base62, to_base62-from_base62}
use vshortlink.Gen.{Generator, new_generator, generate_batch_numbers}
use vshortlink.Gen.Batches.{step_of, generator_of}
use vshortlink.Gen.Codes.{batch-lengths, batches_disjoint, last_batch_reissues}
use vshortlink.Memory.Stats.{MemoryShortLinkStats, new_stats, memory_stats}
use vshortlink.Recorder.{Recorder, new_recorder, hit, receive, tick, stop, Event, run_events}
use vshortlink.Recorder.Conservation.{held, accepted, total, Congruent, stop_flushes_all_hits}

from_base62-to_base62_example : from_base62 (to_base62 (pos 125) 4) ≡ pos 125
from_base62-to_base62_example = from_base62-to_base62 125 4 (omega arith)

read_abc : from_base62 (codes "00aZ") ≡ pos 681
unfolding from_base62 index_rune
read_abc = refl

to_base62-from_base62_example : to_base62 (pos 681) (length (codes "00aZ")) ≡ codes "00aZ"
to_base62-from_base62_example = to_base62-from_base62 (codes "00aZ") 681 (omega arith) read_abc

batch-lengths_example :
    (g : Generator) × (ns : List ℤ) × (new_generator 2 10 ≡ ok g)
    × (generate_batch_numbers g (pos 3) ≡ ok ns)
    × (length ns ≡ 10)
    × All (λ z. length (to_base62 z 2) ≡ 2) ns
batch-lengths_example = batch-lengths 2 10 (omega arith) (omega arith) 3 (omega arith)

abbrev batch_0 : List ℤ
batch_0 = pos 0 ∷ pos 1281 ∷ pos 2562 ∷ []

abbrev batch_5 : List ℤ
batch_5 = pos 5 ∷ pos 1286 ∷ pos 2567 ∷ []

generate_0 : generate_batch_numbers (generator_of 2 3) (pos 0) ≡ ok batch_0
unfolding generate_batch_numbers
generate_0 = refl

generate_5 : generate_batch_numbers (generator_of 2 3) (pos 5) ≡ ok batch_5
unfolding generate_batch_numbers
generate_5 = refl

batches_disjoint_example : All (λ z. All (λ w. to_base62 z 2 ≢ to_base62 w 2) batch_5) batch_0
batches_disjoint_example =
    batches_disjoint 2 3 (omega arith) 0 5 (omega arith) (omega arith) (omega arith) batch_0 batch_5
      generate_0 generate_5

last_batch_reissues_example :
    (xs : List ℤ) × (generate_batch_numbers (generator_of 2 3) (pos 0) ≡ ok (pos 0 ∷ xs))
    × (generate_batch_numbers (generator_of 2 3) (pos (step_of 2 3))
        ≡ ok (xs ++ pos (3 * step_of 2 3) ∷ []))
    × (length xs + 1 ≡ 3)
last_batch_reissues_example = last_batch_reissues 2 3 (omega arith) (omega arith)

abbrev two_hits : List Event
two_hits = hit (codes "ab") ∷ receive ∷ hit (codes "ab") ∷ tick (codes "20260101") ∷ []

abbrev idle : Recorder × MemoryShortLinkStats
idle = (new_recorder 2, new_stats)

still_running : (run_events memory_stats two_hits idle).0.done ≡ false
unfolding run_events insert lookup
still_running = refl

stop_flushes_all_hits_example :
    (y : Recorder × MemoryShortLinkStats) × (run_events memory_stats
        (two_hits ++ stop (codes "20260102") ∷ [])
        idle
      ≡ y)
    × (y.0.channel ≡ [])
    × (y.0.merge ≡ [])
    × Congruent
        (total (codes "ab") y.1.days_data)
        (held (codes "ab") idle + accepted (codes "ab") two_hits idle)
stop_flushes_all_hits_example =
    stop_flushes_all_hits (codes "ab") (codes "20260102") two_hits idle still_running
