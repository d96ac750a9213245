-- ===== src/Examples/Service.antt =====
-- The service over the memory backends at concrete inputs.
use vshortlink.Prelude.{
  List, ◌∷◌, [], ℕ, ◌≡◌, refl, ◌&&◌, not, none, some, [], ◌∷◌, ◌++◌, Text, codes, same, member, map,
  ltb, ◌==◌, if◌then◌else◌, length, Distinct, ok, err, link_not_found, arith,
}
use vshortlink.Prelude.Int.{pos}
use vshortlink.Prelude.Keyed.{lookup, nat_key, text_key}
use vshortlink.Base62.{to_base62}
use vshortlink.Gen.Batches.{generator_of}
use vshortlink.Link.{Time}
use vshortlink.Memory.Pool.{memory_pool, new_pool}
use vshortlink.Memory.Pool.Queue.{queue, head_or_empty, rest_of}
use vshortlink.Memory.Cache.{memory_cache}
use vshortlink.Memory.Cache.Entries.{entry}
use vshortlink.Memory.Repo
use vshortlink.Memory.Repo.{memory_repository, new_repository}
use vshortlink.Memory.Repo.Index.{IsIndexed, new_repository-IsIndexed}
use vshortlink.Service.Edit.Invariant.{
  Edit, adding, creating, updating, removing, after_edits, edits-IsIndexed,
}
use vshortlink.Memory.Repo.Rows.{rows}
use vshortlink.Service.State.{default_config}
use vshortlink.Service.Edit.{create, update, remove}
use vshortlink.Service.Edit.Memory.{new_link, create-holds}
use vshortlink.Service.Edit.Change.{edited, update-holds, remove-holds}
use vshortlink.Service.Rebuild.{rebuild_code_pool}
use vshortlink.Service.Rebuild.Loops.{batches}
use vshortlink.Service.Rebuild.Pages.{used_links}
use vshortlink.Service.Rebuild.Codes.{rebuild_code_pool_exact}
use vshortlink.Service.Generate.Issue.{after_batches, batches_issued_once}
use vshortlink.Examples.Data.{two_links, Sample, sample, in_order, stored_link}

start_index_1 : Repo.get_start_index 1 sample.repo ≡ (ok (pos 2), sample.repo)
unfolding Repo.get_start_index lookup
start_index_1 = refl

generator_1 : lookup 1 sample.generators ≡ some (generator_of 1 10)
unfolding lookup
generator_1 = refl

used_1 : length (used_links (in_order sample.repo.links) 1) ≡ 2
unfolding rows Repo.sort_by_id
used_1 = refl

rebuild_code_pool_exact_example :
    (s' : Sample) × (rebuild_code_pool
        (memory_repository in_order)
        memory_pool
        9
        default_config
        100
        (pos 1)
        sample
      ≡ (ok tt, s'))
    × Distinct (queue s'.pool 1)
    × ((code : Text)
        → member code (queue s'.pool 1) ≡ (
            member code (map (λ z. to_base62 z 1) (batches (generator_of 1 10) 2 0))
            && not (member code (map (λ l. l.code) (used_links (in_order sample.repo.links) 1)))))
rebuild_code_pool_exact_example =
    rebuild_code_pool_exact in_order 1 10 2 100 9 default_config sample (omega arith) (omega arith)
      (omega arith) (omega arith) generator_1 start_index_1 (ground arith) (omega (arith, used_1))

create-holds_example :
    (s' : Sample) × (create
        (memory_repository in_order)
        memory_cache
        memory_pool
        default_config
        100
        (codes "t")
        (codes "u")
        (pos 1)
        900
        sample
      ≡ (
        ok (
            new_link sample.repo.next_id
              (head_or_empty (queue sample.pool 1))
              (codes "t")
              (codes "u")
              900),
        s',
      ))
    × ((Repo.get_by_code (head_or_empty (queue sample.pool 1)) s'.repo).0
        ≡ ok (
            some (
              new_link sample.repo.next_id
                (head_or_empty (queue sample.pool 1))
                (codes "t")
                (codes "u")
                900)))
    × (entry s'.cache
          (length (head_or_empty (queue sample.pool 1)))
          (head_or_empty (queue sample.pool 1))
        ≡ some (record { link = codes "u"; expire_time = 900 }))
    × (queue s'.pool 1 ≡ rest_of (queue sample.pool 1))
    × (s'.spawned ≡ (
        if ltb 10 (length (rest_of (queue sample.pool 1)))
        then sample.spawned
        else sample.spawned ++ 1 ∷ []))
create-holds_example =
    create-holds in_order default_config sample 1 100 (codes "t") (codes "u") 900 (omega arith)
      (omega arith)

index_a : lookup (codes "a") sample.repo.code_to_id ≡ some 1
unfolding lookup same
index_a = refl

link_1 : lookup 1 sample.repo.links ≡ some (stored_link 1 (codes "a"))
unfolding lookup
link_1 = refl

update-holds_example :
    (s' : Sample) × (update
        (memory_repository in_order)
        memory_cache
        memory_pool
        100
        (codes "a")
        (codes "t")
        (codes "u")
        900
        sample
      ≡ (ok tt, s'))
    × ((Repo.get_by_code (codes "a") s'.repo).0
        ≡ ok (some (edited (stored_link 1 (codes "a")) (codes "t") (codes "u") 900)))
    × (entry s'.cache (length (codes "a")) (codes "a")
        ≡ some (record { link = codes "u"; expire_time = 900 }))
update-holds_example =
    update-holds in_order sample 100 (codes "a") (codes "t") (codes "u") 900 1
      (stored_link 1 (codes "a")) index_a link_1 refl refl

remove-holds_example :
    (s' : Sample) × (remove (memory_repository in_order) memory_cache memory_pool (codes "a") sample
      ≡ (ok tt, s'))
    × ((Repo.get_by_code (codes "a") s'.repo).0 ≡ err link_not_found)
    × ((m : ℕ) (other : Text)
        → entry s'.cache m other ≡ (
            if (length (codes "a") == m) && same (codes "a") other
            then none
            else entry sample.cache m other))
remove-holds_example = remove-holds in_order sample (codes "a") 1 index_a

index_b : lookup (codes "b") sample.repo.code_to_id ≡ some 2
unfolding lookup same
index_b = refl

abbrev no_codes_left : Sample
no_codes_left = record sample { pool = new_pool }

new_pool_empty : queue no_codes_left.pool 1 ≡ []
unfolding queue lookup
new_pool_empty = refl

abbrev two_instants : List Time
two_instants = 100 ∷ 160 ∷ []

batches_issued_once_example :
    (queue (after_batches in_order 1 10 (omega arith) two_instants no_codes_left).pool 1
      ≡ map (λ z. to_base62 z 1) (batches (generator_of 1 10) 2 2))
    × Distinct (queue (after_batches in_order 1 10 (omega arith) two_instants no_codes_left).pool 1)
    × ((Repo.get_start_index 1
          (after_batches in_order 1 10 (omega arith) two_instants no_codes_left).repo).0
        ≡ ok (pos 4))
batches_issued_once_example =
    batches_issued_once in_order 1 10 (omega arith) two_instants 2 no_codes_left generator_1
      start_index_1 new_pool_empty (omega arith)

abbrev all_issued : Sample
all_issued = record sample { repo = record two_links { start_index = (1, pos 7) ∷ [] } }

start_index_7 : Repo.get_start_index 1 all_issued.repo ≡ (ok (pos 7), all_issued.repo)
unfolding Repo.get_start_index lookup
start_index_7 = refl

abbrev fresh : Sample
fresh = record sample { repo = new_repository }

abbrev some_edits : List Edit
some_edits =
    adding 100 (codes "ab") (codes "t") (codes "u") 900
    ∷ creating 100 (codes "t") (codes "u") (pos 1) 900
    ∷ updating 110 (codes "ab") (codes "t") (codes "v") 900
    ∷ removing (codes "zz")
    ∷ []

edits-IsIndexed_example : IsIndexed (after_edits in_order default_config some_edits fresh).repo
edits-IsIndexed_example =
    edits-IsIndexed in_order default_config some_edits fresh new_repository-IsIndexed
