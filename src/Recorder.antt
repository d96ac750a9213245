-- ===== src/Recorder.antt =====
-- cores/stats_recorder.go: `statsRecorder`. A state holds what the source keeps in the struct and
-- in the variables of `run`; the channel is a bounded queue.
pub mod Conservation
use vshortlink.Prelude.{
  ℕ, ◌+◌, ◌%◌, ◌^◌, Bool, true, false, Option, none, some, List, [], ◌∷◌, ◌++◌, Text, ltb,
  if◌then◌else◌, length, Result, ok, err, Exec,
}
use vshortlink.Prelude.Keyed.{lookup, insert, text_key}
use vshortlink.Interfaces.{ShortLinkStats}

abbrev pub Merge : Type 0
Merge = List (Text × ℕ)

pub record Recorder : Type 0 where
  pub channel : List Text
  pub buffer_size : ℕ
  pub drops : ℕ
  pub merge : Merge
  pub done : Bool

abbrev pub new_recorder : ℕ → Recorder
new_recorder buffer_size = record {
  channel = [];
  buffer_size = buffer_size;
  drops = 0;
  merge = [];
  done = false;
}

-- `Record`: a send that does not block.
unfoldable pub record_hit : Text → Recorder → Recorder
record_hit code r =
    if ltb (length r.channel) r.buffer_size
    then record r { channel = r.channel ++ code ∷ [] }
    else record r { drops = r.drops + 1 }

-- `merge[code]++`
unfoldable pub count_hit : Text → Merge → Merge
count_hit code merge =
    insert code ((elim (lookup code merge) [ none ↦ 0 | some n ↦ n ] + 1) % 2 ^ 64) merge

-- `drain`
unfoldable pub drain : List Text → Merge → Merge
unfolding count_hit
drain [] merge = merge
drain (code ∷ channel) merge = drain channel (count_hit code merge)

-- What the `select` of `run` takes, and a `Record` of another goroutine. `tick` and `stop` carry the
-- day key of their instant.
pub data Event : Type 0 where
  hit : Text → Event
  receive : Event
  tick : Text → Event
  stop : Text → Event

module _ {T : Type 0} (stats : ShortLinkStats T) where
  -- `flushNow`: an error of the backend is logged, and the counts are gone all the same.
  unfoldable pub flush_now : Text → Merge → Recorder × T → Recorder × T
  flush_now day [] (r, t) = (r, t)
  flush_now day (m ∷ merge) (r, t) =
      (record r { drops = 0 }, (stats.incr_batch day (m ∷ merge) t).1)

  receive_from : List Text → Recorder × T → Recorder × T
  receive_from [] (r, t) = (r, t)
  receive_from (code ∷ channel) (r, t) =
      (record r { channel = channel; merge = count_hit code r.merge }, t)

  running : Event → Recorder × T → Recorder × T
  unfolding flush_now receive_from count_hit drain
  running (hit code) (r, t) = (record_hit code r, t)
  running receive (r, t) = receive_from r.channel (r, t)
  running (tick day) (r, t) = flush_now day r.merge (record r { merge = [] }, t)
  running (stop day) (r, t) =
      flush_now day (drain r.channel r.merge)
        (record r { channel = []; merge = []; done = true }, t)

  -- `run` has returned: hits still go into the channel, and nobody takes them out.
  finished : Event → Recorder × T → Recorder × T
  finished (hit code) (r, t) = (record_hit code r, t)
  finished receive x = x
  finished (tick day) x = x
  finished (stop day) x = x

  unfoldable pub run_event : Event → Recorder × T → Recorder × T
  unfolding running finished record_hit
  run_event e (r, t) = if r.done then finished e (r, t) else running e (r, t)

  unfoldable pub run_events : List Event → Recorder × T → Recorder × T
  unfolding run_event
  run_events [] x = x
  run_events (e ∷ es) x = run_events es (run_event e x)
