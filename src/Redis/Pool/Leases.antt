-- ===== src/Redis/Pool/Leases.antt =====
-- The lock of the Redis pool and its codes, which stand under other keys.
use vshortlink.Prelude.{
  ℕ, zero, suc, ◌≡◌, refl, ◌∙◌, true, false, Option, none, some, Text, same, same_iff,
  if◌then◌else◌, Exec, Option-cases, Bool-cases, inl, inr, arith, ◌>>=◌, pure, ◌+◌,
}
use vshortlink.Prelude.Int.{ltb_ℤ}
use vshortlink.Prelude.Decimal.{format_int, parse_int}
use vshortlink.Link.{Time}
use vshortlink.Service.Keeps.{Keeps, bind-Keeps}
use vshortlink.Redis.{Redis}
use vshortlink.Redis.Keys.{get_pool_key, get_lock_key, unix}
use vshortlink.Redis.Keys.Apart.{pool_apart_from_lock}
use vshortlink.Redis.Server.{RedisLaws, Value}
use vshortlink.Redis.Pool.{lock, lock_held, lock_time, unlock}

module _ {D : Type 0} (redis : Redis D) (laws : RedisLaws redis) (p : Text) (n m : ℕ) where
  abbrev codes_at : D → Value
  codes_at d = laws.stored d (get_pool_key p m)

  apart : same (get_lock_key p n) (get_pool_key p m) ≡ false
  apart = ground (
    arith,
    pool_apart_from_lock p m n,
    same_iff (get_lock_key p n) (get_pool_key p m),
    same_iff (get_pool_key p m) (get_lock_key p n),
  )

  pub codes_at-unlock : (d : D) → codes_at (unlock redis p n d) ≡ codes_at d
  unfolding unlock
  codes_at-unlock d = laws.del_other (get_lock_key p n) (get_pool_key p m) d apart

  lock_held-Keeps :
      (retry : Exec D (Unit {0})) (now : Time) (o : Option Text)
      → Keeps codes_at retry
      → Keeps codes_at (lock_held redis p retry now n o)
  unfolding lock_held lock_time
  lock_held-Keeps retry now none keeps d = keeps d
  lock_held-Keeps retry now (some t) keeps d = elim (Option-cases (parse_int t)) [
    | inl bad ↦ rw bad refl
    | inr (e, good) ↦ elim (Bool-cases (ltb_ℤ e (unix now))) [
      | inl over ↦ rw (good, over) (keeps (unlock redis p n d) ∙ codes_at-unlock d)
      | inr valid ↦ rw (good, valid) refl
    ]
  ]

  pub lock-Keeps :
      (fuel : ℕ) (now : Time) (expire : ℕ) → Keeps codes_at (lock redis p fuel now n expire)
  unfolding lock
  lock-Keeps zero now expire d = refl
  lock-Keeps (suc fuel) now expire d =
      bind-Keeps codes_at
        (redis.set_nx (get_lock_key p n) (format_int (unix (now + expire))) expire)
        (λ success.
          if success
          then pure tt
          else (redis.get (get_lock_key p n)
              >>= lock_held redis p (lock redis p fuel now n expire) now n))
        (λ d. laws.set_nx_other (get_lock_key p n) (get_pool_key p m) _ expire d apart)
        (λ success.
          elim success
            as (λ b. Keeps codes_at (
              if b
              then pure tt
              else (redis.get (get_lock_key p n)
                  >>= lock_held redis p (lock redis p fuel now n expire) now n))) [
                    | true ↦ λ d. refl
                    | false ↦
                        bind-Keeps codes_at (redis.get (get_lock_key p n))
                          (lock_held redis p (lock redis p fuel now n expire) now n)
                          (λ d. laws.get_reads (get_lock_key p n) d (get_pool_key p m))
                          (λ o.
                            lock_held-Keeps (lock redis p fuel now n expire) now o
                              (lock-Keeps fuel now expire))
                  ])
        d
