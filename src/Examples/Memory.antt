-- ===== src/Examples/Memory.antt =====
-- The memory backends at concrete inputs.
use mathlib.Core.List.{Perm}
use vshortlink.Prelude.{
  map, keep, some, ltb, ◌+◌, ◌≡◌, refl, true, none, List, [], ◌∷◌, Text, codes, member,
  if◌then◌else◌, at_most, ok, arith,
}
use vshortlink.Prelude.Int.{pos}
use vshortlink.Prelude.Keyed.{lookup, lookup_nil, nat_key, text_key}
use vshortlink.Memory.Pool
use vshortlink.Memory.Pool.{MemoryShortCodePool}
use vshortlink.Memory.Pool.Queue.{lock_excludes_nobody}
use vshortlink.Memory.Cache.{MemoryShortLinkCache}
use vshortlink.Memory.Stats.{MemoryShortLinkStats, Counts, Table}
use vshortlink.Memory.Stats.Counters.{cell}
use vshortlink.Service.State.{Config, default_config}
use vshortlink.Service.Query.{get_stats, batch_get_stats}
use vshortlink.Service.Query.Batch.{batch_get_stats-get_stats}
use vshortlink.Memory.Stats.{memory_stats}
use vshortlink.Examples.Data.{Sample, sample, day_key, two_links, in_order}
use vshortlink.Memory.Repo
use vshortlink.Memory.Repo.{MemoryShortLinkRepository}
use vshortlink.Memory.Repo.Rows.{matching, above, Ascending}
use vshortlink.Memory.Repo.Order.{list_in_order}
use vshortlink.Link.{ShortLink}

abbrev two_codes : MemoryShortCodePool
two_codes = record { pools = (4, codes "aaaa" ∷ codes "bbbb" ∷ []) ∷ []; lock_status = [] }

abbrev locked_once : MemoryShortCodePool
locked_once = (Pool.lock 100 4 60 two_codes).1

abbrev locked_twice : MemoryShortCodePool
locked_twice = (Pool.lock 130 4 90 locked_once).1

lock_excludes_nobody_example :
    ((Pool.lock 100 4 60 two_codes).0 ≡ ok tt)
    × (lookup 4 locked_once.lock_status ≡ some (100 + 60))
    × ((Pool.lock 130 4 90 locked_once).0 ≡ ok tt)
    × (lookup 4 locked_twice.lock_status ≡ some (if ltb 130 (100 + 60) then 100 + 60 else 130 + 90))
    × (lookup 4 (Pool.unlock 4 locked_twice).lock_status ≡ none)
lock_excludes_nobody_example = lock_excludes_nobody two_codes 4 60 90 100 130 (lookup_nil 4)

abbrev one_item : MemoryShortLinkCache
one_item = record {
  cache = (2, (codes "ab", record { link = codes "http://x"; expire_time = 50 }) ∷ []) ∷ [];
}

abbrev counted : MemoryShortLinkStats
counted = record { days_data = (day_key 1, (codes "ab", 3) ∷ []) ∷ [] }

abbrev asked_codes : List Text
asked_codes = codes "ab" ∷ codes "cd" ∷ []

abbrev enabled : Config
enabled = record default_config { stats_enabled = true }

abbrev counting : Sample
counting = record sample { stats = counted }

batch_get_stats-get_stats_example :
    (table : Table) × (counts : Counts) × (batch_get_stats memory_stats enabled day_key asked_codes
        (pos 2)
        counting
      ≡ (ok table, counting))
    × (get_stats memory_stats enabled day_key (codes "ab") (pos 2) counting ≡ (ok counts, counting))
    × (cell table (codes "ab") (day_key 1)
        ≡ (if member (codes "ab") asked_codes then lookup (day_key 1) counts else none))
batch_get_stats-get_stats_example =
    batch_get_stats-get_stats enabled day_key asked_codes (codes "ab") (day_key 1) (pos 2) counting
      refl (ground arith) (ground arith)

list_in_order_example :
    (all : List ShortLink) × Ascending all
    × Perm all (map (λ e. e.1) (keep (matching 1 (1 ∷ [])) two_links.links))
    × (Repo.list in_order (pos 1) (1 ∷ []) 10 (pos 1) true two_links
        ≡ (ok (at_most 10 (above 1 all)), two_links))
list_in_order_example = list_in_order in_order two_links 1 10 1 (1 ∷ []) (ground arith)
