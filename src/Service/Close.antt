-- ===== src/Service/Close.antt =====
-- cores/service.go: `Close`.
use vshortlink.Prelude.{Text, if◌then◌else◌}
use vshortlink.Interfaces.{ShortLinkCache, ShortCodePool, ShortLinkStats}
use vshortlink.Recorder.{stop, run_event}
use vshortlink.Service.State.{Config, State, on_cache, on_pool, on_stats}

module _ {R C P T L : Type 0} (cache : ShortLinkCache C) (pool : ShortCodePool P)
    (stats : ShortLinkStats T) (c : Config) (day : Text) where
  -- The runner stops, and the recorder has flushed when `done` is closed.
  unfoldable pub stop_recorder : State R C P T L → State R C P T L
  stop_recorder s =
      if c.stats_enabled
      then (let (r, t) = run_event stats (stop day) (s.recorder, s.stats) in
          record s { recorder = r; stats = t })
      else s

  close_stats : State R C P T L → State R C P T L
  close_stats s = if c.stats_enabled then (on_stats stats.close s).1 else s

  -- Errors of the backends are logged.
  unfoldable pub close_service : State R C P T L → State R C P T L
  unfolding stop_recorder close_stats
  close_service s = close_stats (on_pool pool.close (on_cache cache.close (stop_recorder s)).1).1
