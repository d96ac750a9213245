-- ===== src/Redis/Pool/Laws.antt =====
-- The Redis pool keeps the contract of a pool.
use vshortlink.Prelude.{
  ℕ, ◌≤◌, ◌≡◌, refl, ap, ◌∙◌, false, true, ◌&&◌, List, [], ◌∷◌, Text, same, same_refl, occurrences,
  ◌==◌, ==_iff, if◌then◌else◌, length, ok, arith, inl, inr,
}
use vshortlink.Link.{Time}
use vshortlink.Interfaces.Contract.{PoolLaws, Pulled}
use vshortlink.Redis.{Redis}
use vshortlink.Redis.Keys.{get_pool_key, unix}
use vshortlink.Redis.Keys.Apart.{same-get_pool_key}
use vshortlink.Redis.Server.{RedisLaws, holds_sorted, members, at_most_one, others}
use vshortlink.Redis.Server.Frame.{framed, framed_test}
use vshortlink.Redis.Pool.{size, pull, pull_first, add, remove, clear, lock, unlock, redis_pool}
use vshortlink.Redis.Pool.Leases.{lock-Keeps, codes_at-unlock}

module _ {D : Type 0} (redis : Redis D) (laws : RedisLaws redis) (p : Text) where
  -- Every key of the pool holds a sorted set or nothing.
  pub IsSorted : D → Type 0
  IsSorted d = (n : ℕ) → holds_sorted (laws.stored d (get_pool_key p n)) ≡ true

  pub amount_of : D → ℕ → Text → ℕ
  amount_of d n x = occurrences x (members (laws.stored d (get_pool_key p n)))

  effect :
      (d d' : D) (n : ℕ)
      → ((k : Text) → same (get_pool_key p n) k ≡ false → laws.stored d' k ≡ laws.stored d k)
      → holds_sorted (laws.stored d' (get_pool_key p n)) ≡ true
      → IsSorted d
      → IsSorted d'
        × ((m : ℕ) (x : Text)
            → amount_of d' m x ≡ (
                if n == m
                then occurrences x (members (laws.stored d' (get_pool_key p n)))
                else amount_of d m x))
  unfolding IsSorted amount_of
  effect d d' n frame holds fine = (
    framed_test laws.stored (get_pool_key p) (λ a b. a == b) ==_iff (same-get_pool_key p) d d' n
        frame holds_sorted holds fine,
    λ m x.
        framed laws.stored (get_pool_key p) (λ a b. a == b) ==_iff (same-get_pool_key p) d d' n
          frame (λ v. occurrences x (members v)) _ refl m,
  )

  pull_first-Pulled :
      (n : ℕ) (ms : List Text) (d d' : D)
      → IsSorted d'
      → ((x : Text) → amount_of d n x ≡ occurrences x ms)
      → ((m : ℕ) (x : Text)
          → amount_of d' m x ≡ (if n == m then occurrences x (others ms) else amount_of d m x))
      → IsSorted (pull_first redis p n (at_most_one ms) d').1
        × Pulled amount_of n d (pull_first redis p n (at_most_one ms) d')
  unfolding pull_first size
  pull_first-Pulled n [] d d' fine here left =
      (fine, inl (refl, λ m x. (here x, left m x ∙ ground (arith, ==_iff n m, here x))))
  pull_first-Pulled n (c ∷ ms) d d' fine here left =
      let sized : redis.z_card (get_pool_key p n) d'
          ≡ (ok (length (members (laws.stored d' (get_pool_key p n)))), d') =
        laws.z_card_ok (get_pool_key p n) d' (unfold IsSorted in fine n) in
      rw sized (fine, inr (c, _, refl, λ m x. ground (arith, ==_iff n m, here x, left m x)))

  pull-Pulled :
      (d : D) (n : ℕ)
      → IsSorted d
      → IsSorted (pull redis p n d).1 × Pulled amount_of n d (pull redis p n d)
  unfolding pull
  pull-Pulled d n fine =
      let key = get_pool_key p n in
      let (popped, holds, left) = laws.z_pop_min_ok key d (unfold IsSorted in fine n) in
      let (kept, amounts) =
        effect d (redis.z_pop_min key d).1 n (λ j. laws.z_pop_min_other key j d) holds fine in
      rw popped (
        pull_first-Pulled n (members (laws.stored d key)) d (redis.z_pop_min key d).1 kept
          (λ x. unfold amount_of in refl)
          (λ m x.
            amounts m x ∙ ap (λ ms. if n == m then occurrences x ms else amount_of d m x) left))

  add_lem :
      (d : D) (now : Time) (n : ℕ) (k : Text)
      → IsSorted d
      → ((add redis p now n k d).0 ≡ ok tt)
        × IsSorted (add redis p now n k d).1
        × ((m : ℕ) (x : Text)
            → amount_of (add redis p now n k d).1 m x
              ≡ (if (n == m) && same k x then 1 else amount_of d m x))
  unfolding add amount_of
  add_lem d now n k fine =
      let key = get_pool_key p n in
      let (done, holds, counts) = laws.z_add_ok key (unix now) k d (unfold IsSorted in fine n) in
      let (kept, amounts) =
        effect d (redis.z_add key (unix now) k d).1 n (λ j. laws.z_add_other key j (unix now) k d)
          holds fine in
      (done, kept, λ m x. amounts m x ∙ ground (arith, ==_iff n m, counts x))

  remove_lem :
      (d : D) (n : ℕ) (k : Text)
      → IsSorted d
      → ((remove redis p n k d).0 ≡ ok tt)
        × IsSorted (remove redis p n k d).1
        × ((m : ℕ) (x : Text)
            → amount_of (remove redis p n k d).1 m x
              ≡ (if (n == m) && same k x then 0 else amount_of d m x))
  unfolding remove amount_of
  remove_lem d n k fine =
      let key = get_pool_key p n in
      let (done, holds, counts) = laws.z_rem_ok key k d (unfold IsSorted in fine n) in
      let (kept, amounts) =
        effect d (redis.z_rem key k d).1 n (λ j. laws.z_rem_other key j k d) holds fine in
      (done, kept, λ m x. amounts m x ∙ ground (arith, ==_iff n m, counts x))

  clear_lem :
      (d : D) (n : ℕ)
      → IsSorted d
      → ((clear redis p n d).0 ≡ ok tt)
        × IsSorted (clear redis p n d).1
        × ((m : ℕ) (x : Text)
            → amount_of (clear redis p n d).1 m x ≡ (if n == m then 0 else amount_of d m x))
  unfolding clear amount_of
  clear_lem d n fine =
      let key = get_pool_key p n in
      let (done, gone) = laws.del_ok key d in
      let (kept, amounts) =
        effect d (redis.del key d).1 n (λ j. laws.del_other key j d) (ap holds_sorted gone) fine in
      (
        done,
        kept,
        λ m x.
            amounts m x
            ∙ ap (λ v. if n == m then occurrences x (members v) else amount_of d m x) gone,
      )

  -- A sorted set has no code twice.
  pub amount_once : (d : D) (n : ℕ) (x : Text) → amount_of d n x ≤ 1
  unfolding amount_of
  amount_once d n x = laws.once d (get_pool_key p n) x

  same_pools :
      (d d' : D)
      → ((m : ℕ) → laws.stored d' (get_pool_key p m) ≡ laws.stored d (get_pool_key p m))
      → IsSorted d
      → IsSorted d' × ((m : ℕ) (x : Text) → amount_of d' m x ≡ amount_of d m x)
  unfolding IsSorted amount_of
  same_pools d d' same_values fine = (
    λ m. ap holds_sorted (same_values m) ∙ fine m,
    λ m x. ap (λ v. occurrences x (members v)) (same_values m),
  )

  -- Over a Redis server that answers: the pool keeps the contract of a pool in every state in which
  -- its keys hold sorted sets or nothing, with the members of the sets as the codes that it holds.
  pub redis_pool_refines :
      (fuel : ℕ)
      → (contract : PoolLaws (redis_pool redis p fuel)) × (contract.IsFine ≡ IsSorted)
        × (contract.amount ≡ amount_of)
  redis_pool_refines fuel = (
    record {
      IsFine = IsSorted;
      amount = amount_of;
      pull_amount = λ d n fine. pull-Pulled d n fine;
      add_amount = λ d now n k fine.
          let (done, kept, amounts) = add_lem d now n k fine in
          (
            done,
            kept,
            ground (arith, amounts n k, ==_iff n n, same_refl k),
            ground (arith, amounts n k, ==_iff n n, same_refl k),
            λ m x other. amounts m x ∙ ground (arith, other),
          );
      remove_amount = λ d n k fine.
          let (done, kept, amounts) = remove_lem d n k fine in
          (done, kept, λ m x. amounts m x ∙ ground (arith, amount_once d m x));
      clear_amount = λ d n fine. clear_lem d n fine;
      lock_amount = λ d now n expire fine.
          same_pools d (lock redis p fuel now n expire d).1
            (λ m. lock-Keeps redis laws p n m fuel now expire d) fine;
      unlock_amount = λ d n fine.
          same_pools d (unlock redis p n d) (λ m. codes_at-unlock redis laws p n m d) fine;
    },
    refl,
    refl,
  )
