-- ===== src/Examples/Data.antt =====
-- The states that the examples share.
use vshortlink.Prelude.{ℕ, Bool, Option, none, some, List, [], ◌∷◌, Text, codes, length}
use vshortlink.Prelude.Int.{pos}
use vshortlink.Gen.Batches.{generator_of}
use vshortlink.Link.{ShortLink}
use vshortlink.Memory.Pool.{MemoryShortCodePool}
use vshortlink.Memory.Cache.{MemoryShortLinkCache}
use vshortlink.Memory.Stats.{MemoryShortLinkStats, new_stats}
use vshortlink.Memory.Repo.{MemoryShortLinkRepository}
use vshortlink.Recorder.{new_recorder}
use vshortlink.Service.State.{Config, State, LruCache, default_config}
use vshortlink.Http.Types.{EditLinkRequest, Request}
use vshortlink.Prelude.{err, code_is_empty}

abbrev pub stored_link : ℕ → Text → ShortLink
stored_link id code = record {
  id = id;
  length = length code;
  code = code;
  title = codes "t";
  link = codes "http://x";
  expire = 1000;
  status = 1;
  create_time = 0;
  modify_time = 0;
}

abbrev pub two_links : MemoryShortLinkRepository
two_links = record {
  links = (2, stored_link 2 (codes "b")) ∷ (1, stored_link 1 (codes "a")) ∷ [];
  code_to_id = (codes "b", 2) ∷ (codes "a", 1) ∷ [];
  start_index = (1, pos 2) ∷ [];
  next_id = 3;
}

abbrev pub in_order : List (ℕ × ShortLink) → List (ℕ × ShortLink)
in_order entries = entries

abbrev pub Sample : Type 0
Sample =
    State MemoryShortLinkRepository MemoryShortLinkCache MemoryShortCodePool MemoryShortLinkStats
      (Option Text)

-- Two links of one character, and the item of "a" in the cache.
abbrev pub sample : Sample
sample = record {
  repo = two_links;
  cache = record {
    cache = (1, (codes "a", record { link = codes "http://x"; expire_time = 1000 }) ∷ []) ∷ [];
  };
  pool = record { pools = (1, codes "c" ∷ codes "d" ∷ []) ∷ []; lock_status = [] };
  stats = new_stats;
  mem_lru_cache = none;
  recorder = new_recorder 2;
  generators = (1, generator_of 1 10) ∷ [];
  spawned = [];
}

-- An LRU cache of one link, under whatever code.
abbrev pub one_link_lru : LruCache (Option Text)
one_link_lru = record { add = λ code link x. some link; get = λ code x. (x, x) }

abbrev pub secured : Config
secured = record default_config { auth_token = codes "secret" }

abbrev pub no_edit : EditLinkRequest
no_edit = record { code = []; title = []; link = []; length = pos 0; expire = 0 }

abbrev pub get_request : Text → Request
get_request path = record {
  method = codes "GET";
  path = path;
  authorization = [];
  query_string = λ k. ([], Bool.false);
  query_int = λ k. (pos 0, Bool.false);
  query_bool = λ k. (Bool.false, Bool.false);
  edit_body = err code_is_empty;
  stats_batch_body = err code_is_empty;
}

abbrev pub day_key : ℕ → Text
day_key back = back ∷ []
