-- ===== src/Memory/Cache.antt =====
-- ext/memx/cache.go: `MemoryShortLinkCache`, a map from lengths to maps from codes to items.
pub mod Entries
pub mod Contract
use vshortlink.Prelude.{ℕ, Option, none, some, List, [], ◌∷◌, Text, ltb, if◌then◌else◌, ok, Exec}
use vshortlink.Prelude.Keyed.{lookup, insert, delete, nat_key, text_key}
use vshortlink.Link.{Time}
use vshortlink.Interfaces.{ShortLinkCache}

pub record CacheItem : Type 0 where
  pub link : Text
  pub expire_time : Time

abbrev pub CodeMap : Type 0
CodeMap = List (Text × CacheItem)

pub record MemoryShortLinkCache : Type 0 where
  pub cache : List (ℕ × CodeMap)

abbrev pub new_cache : MemoryShortLinkCache
new_cache = record { cache = [] }

-- The maps are shared by reference: a change of a code map is a change of the cache.
get_item :
    Time
    → ℕ
    → Text
    → CodeMap
    → Option CacheItem
    → MemoryShortLinkCache
    → Option Text × MemoryShortLinkCache
get_item now length' code code_map none c = (none, c)
get_item now length' code code_map (some item) c =
    if ltb item.expire_time now
    then (none, record { cache = insert length' (delete code code_map) c.cache })
    else (some item.link, c)

unfoldable pub get : Time → ℕ → Text → MemoryShortLinkCache → Option Text × MemoryShortLinkCache
unfolding get_item
get now length' code c = elim (lookup length' c.cache) [
  | none ↦ (none, c)
  | some code_map ↦ get_item now length' code code_map (lookup code code_map) c
]

pub code_map_or_new : Option CodeMap → CodeMap
code_map_or_new none = []
code_map_or_new (some code_map) = code_map

unfoldable pub add : ℕ → Text → Text → Time → Exec MemoryShortLinkCache (Unit {0})
unfolding code_map_or_new
add length' code link expire_time c =
    let code_map = code_map_or_new (lookup length' c.cache) in
    let item : CacheItem = record { link = link; expire_time = expire_time } in
    (ok tt, record { cache = insert length' (insert code item code_map) c.cache })

unfoldable pub remove : ℕ → Text → Exec MemoryShortLinkCache (Unit {0})
remove length' code c = elim (lookup length' c.cache) [
  | none ↦ (ok tt, c)
  | some code_map ↦ (ok tt, record { cache = insert length' (delete code code_map) c.cache })
]

unfoldable pub close : Exec MemoryShortLinkCache (Unit {0})
close c = (ok tt, record { cache = [] })

abbrev pub memory_cache : ShortLinkCache MemoryShortLinkCache
memory_cache = record { get = get; add = add; remove = remove; close = close }
