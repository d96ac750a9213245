-- ===== src/Examples/Http.antt =====
-- The handlers at concrete requests.
use vshortlink.Prelude.{
  ◌≡◌, refl, sym, subst, Text, ltb, none, some, codes, same, if◌then◌else◌, link_not_found, arith,
}
use vshortlink.Prelude.Int.{pos}
use vshortlink.Prelude.Keyed.{lookup, text_key}
use vshortlink.Memory.Pool.{memory_pool}
use vshortlink.Memory.Cache.{MemoryShortLinkCache, memory_cache}
use vshortlink.Memory.Cache.Contract.{memory_cache_refines}
use vshortlink.Http.Lawful.{redirect-add}
use vshortlink.Link.{Time}
use vshortlink.Memory.Stats.{memory_stats}
use vshortlink.Memory.Repo.{memory_repository}
use vshortlink.Service.State.{default_config}
use vshortlink.Service.Edit.{add, remove}
use vshortlink.Http.Types.{EditLinkRequest, bad_msg, bad_error, redirect, strip_prefix}
use vshortlink.Http.Manage.{http_handle_create}
use vshortlink.Http.Redirect.{http_handle}
use vshortlink.Http.Auth.{unauthorized_changes_nothing, manual_create_fails}
use vshortlink.Http.Answers.{IsCodeRequest, answer, removed_still_redirects}
use vshortlink.Examples.Data.{Sample, sample, in_order, one_link_lru, secured, get_request, day_key}

unauthorized_changes_nothing_example :
    http_handle
      (memory_repository in_order)
      memory_cache
      memory_pool
      memory_stats
      one_link_lru
      secured
      day_key
      100
      (get_request (codes "/__remove"))
      sample
    ≡ (bad_msg (codes "unauthorized"), sample)
unauthorized_changes_nothing_example =
    unauthorized_changes_nothing (memory_repository in_order) memory_cache memory_pool memory_stats
      one_link_lru secured day_key 100 (get_request (codes "/__remove")) (codes "remove") sample
      refl (ground arith) (ground arith) (ground arith)

abbrev manual : EditLinkRequest
manual = record {
  code = codes "zz";
  title = codes "t";
  link = codes "u";
  length = pos 2;
  expire = 900;
}

no_zz : lookup (codes "zz") sample.repo.code_to_id ≡ none
unfolding lookup same
no_zz = refl

manual_create_fails_example :
    http_handle_create
      (memory_repository in_order)
      memory_cache
      memory_pool
      default_config
      100
      manual
      sample
    ≡ (bad_error link_not_found, sample)
manual_create_fails_example =
    manual_create_fails in_order memory_cache memory_pool default_config 100 manual sample
      (ground arith) (ground arith) (ground arith) refl refl (omega arith) no_zz

abbrev holding : Sample
holding = record sample { mem_lru_cache = some (codes "http://x") }

a_request : IsCodeRequest default_config (get_request (codes "/a")) (codes "a")
unfolding strip_prefix
a_request = record {
  path = refl;
  method = ground arith;
  plain = refl;
  nonempty = ground arith;
  short = omega arith;
}

removed_still_redirects_example :
    (http_handle
      (memory_repository in_order)
      memory_cache
      memory_pool
      memory_stats
      one_link_lru
      default_config
      day_key
      100
      (get_request (codes "/a"))
      (remove (memory_repository in_order) memory_cache memory_pool (codes "a") holding).1).0
    ≡ redirect (codes "http://x")
removed_still_redirects_example =
    removed_still_redirects (memory_repository in_order) memory_cache memory_pool memory_stats
      one_link_lru default_config day_key 100 (get_request (codes "/a")) (codes "a")
      (codes "http://x") holding a_request refl

redirect-add_example :
    (http_handle
      (memory_repository in_order)
      memory_cache
      memory_pool
      memory_stats
      one_link_lru
      default_config
      day_key
      100
      (get_request (codes "/a"))
      (add
        (memory_repository in_order)
        memory_cache
        memory_pool
        90
        (codes "a")
        (codes "t")
        (codes "u")
        900
        sample).1).0
    ≡ answer (if ltb (memory_cache_refines.0.kept 900) 100 then none else some (codes "u"))
redirect-add_example =
    redirect-add (memory_repository in_order) memory_cache memory_pool memory_stats one_link_lru
      default_config day_key memory_cache_refines.0 100 (get_request (codes "/a")) (codes "a")
      sample a_request refl
      (subst (λ (F : MemoryShortLinkCache → Type 0). F sample.cache) (sym memory_cache_refines.1)
        tt)
      90 (codes "t") (codes "u") 900
      (subst (λ (F : Text → Time → Type 0). F (codes "u") 900) (sym memory_cache_refines.2) tt)
