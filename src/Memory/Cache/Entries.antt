-- ===== src/Memory/Cache/Entries.antt =====
-- What the memory cache holds: an item for some pairs of a length and a code.
use vshortlink.Prelude.{
  ℕ, ◌&&◌, Option, none, some, Text, same, same_iff, ltb, ◌==◌, ==_iff, if◌then◌else◌, ◌≡◌, arith,
}
use vshortlink.Prelude.Keyed.{
  lookup, lookup_nil, lookup-insert, lookup-delete, insert, delete, nat_key, text_key,
}
use vshortlink.Link.{Time}
use vshortlink.Memory.Cache.{CacheItem, MemoryShortLinkCache, get, code_map_or_new, add, remove}

-- The item that is stored, expired or not.
unfoldable pub entry : MemoryShortLinkCache → ℕ → Text → Option CacheItem
unfolding code_map_or_new
entry c length' code = lookup code (code_map_or_new (lookup length' c.cache))

-- What a reader at the instant `now` sees of an item.
abbrev pub visible : Time → Option CacheItem → Option Text
visible now none = none
visible now (some item) = if ltb item.expire_time now then none else some item.link

module _ (c : MemoryShortLinkCache) (n m : ℕ) (k j : Text) where
  -- An `add` sets the item of its pair and of no other.
  pub entry-add :
      (link : Text) (e : Time)
      → entry (add n k link e c).1 m j ≡ (
          if (n == m) && same k j
          then some (record { link = link; expire_time = e })
          else entry c m j)
  unfolding entry add code_map_or_new
  entry-add link e =
      let item : CacheItem = record { link = link; expire_time = e } in
      let code_map = code_map_or_new (lookup n c.cache) in
      ground (
        arith,
        ==_iff n m,
        lookup-insert n m (insert k item code_map) c.cache,
        lookup-insert k j item code_map,
      )

  -- A `remove` clears its pair and no other.
  pub entry-remove :
      entry (remove n k c).1 m j ≡ (if (n == m) && same k j then none else entry c m j)
  unfolding entry remove code_map_or_new
  entry-remove =
      let code_map = code_map_or_new (lookup n c.cache) in
      ground (
        arith,
        ==_iff n m,
        lookup_nil {V = CacheItem} k,
        lookup_nil {V = CacheItem} j,
        lookup-insert n m (delete k code_map) c.cache,
        lookup-delete k j code_map,
      )

  -- A `get` returns the link unless it is missing or expired, and drops an expired item.
  pub get-entry :
      (now : Time)
      → ((get now n k c).0 ≡ visible now (entry c n k))
        × (visible now (entry (get now n k c).1 m j) ≡ visible now (entry c m j))
  unfolding entry get code_map_or_new
  get-entry now =
      let code_map = code_map_or_new (lookup n c.cache) in
      (
        ground (arith, lookup_nil {V = CacheItem} k),
        ground (
          arith,
          lookup_nil {V = CacheItem} j,
          ==_iff n m,
          same_iff k j,
          lookup-insert n m (delete k code_map) c.cache,
          lookup-delete k j code_map,
        ),
      )
