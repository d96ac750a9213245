-- ===== src/Redis/Cache/Contract.antt =====
-- The Redis cache keeps the contract of a cache, for links without a newline, to the second.
use vshortlink.Prelude.{
  ℕ, ◌≤◌, ◌≡◌, refl, sym, subst, Result, ap, ◌∙◌, false, true, ◌&&◌, Option, none, some, Text, same,
  same_iff, ltb, ◌==◌, ==_iff, if◌then◌else◌, ok, arith, Bool-cases, inl, inr,
}
use vshortlink.Prelude.Int.{ℤ}
use vshortlink.Prelude.Decimal.RoundTrip.{Lacks}
use vshortlink.Link.{Time}
use vshortlink.Interfaces.Contract.{CacheLaws}
use vshortlink.Redis.{Redis}
use vshortlink.Redis.Keys.{get_cache_key, after_unix}
use vshortlink.Redis.Keys.Apart.{same-get_cache_key}
use vshortlink.Redis.Server.Frame.{framed, framed_test}
use vshortlink.Redis.Server.{RedisLaws, holds_hash, field}
use vshortlink.Redis.Cache.{
  format_link_with_expire_time, split_link_and_expire_time, read_parts, add, remove, get,
  redis_cache, read_reply, check_expiry,
}
use vshortlink.Redis.Cache.Entries.{IsInstant, to_second, after_unix-unix, read-format}

after_unix_mono :
    (now later : Time) (u : ℤ) → now ≤ later → after_unix now u ≡ true → after_unix later u ≡ true
unfolding after_unix
after_unix_mono now later u h after = ground arith

-- What a reader at an instant makes of a value.
abbrev seen_parts : Time → Option (Text × ℤ) → Option Text
seen_parts now none = none
seen_parts now (some (link, u)) = if after_unix now u then none else some link

abbrev pub seen : Time → Option Text → Option Text
seen now none = none
seen now (some value) = seen_parts now (read_parts (split_link_and_expire_time value))

module _ {D : Type 0} (redis : Redis D) (laws : RedisLaws redis) (p : Text) where
  -- Every key of the cache holds a hash or nothing.
  pub IsHashed : D → Type 0
  IsHashed d = (n : ℕ) → holds_hash (laws.stored d (get_cache_key p n)) ≡ true

  pub value_of : D → ℕ → Text → Option Text
  value_of d n k = field (laws.stored d (get_cache_key p n)) k

  effect :
      (d d' : D) (n : ℕ)
      → ((k : Text) → same (get_cache_key p n) k ≡ false → laws.stored d' k ≡ laws.stored d k)
      → holds_hash (laws.stored d' (get_cache_key p n)) ≡ true
      → IsHashed d
      → IsHashed d'
        × ((m : ℕ) (j : Text)
            → value_of d' m j
              ≡ (if n == m then field (laws.stored d' (get_cache_key p n)) j else value_of d m j))
  unfolding IsHashed value_of
  effect d d' n frame hashed fine = (
    framed_test laws.stored (get_cache_key p) (λ a b. a == b) ==_iff (same-get_cache_key p) d d' n
        frame holds_hash hashed fine,
    λ m j.
        framed laws.stored (get_cache_key p) (λ a b. a == b) ==_iff (same-get_cache_key p) d d' n
          frame (λ v. field v j) _ refl m,
  )

  add_lem :
      (d : D) (n : ℕ) (k link : Text) (e : Time)
      → IsHashed d
      → ((add redis p n k link e d).0 ≡ ok tt)
        × IsHashed (add redis p n k link e d).1
        × ((m : ℕ) (j : Text)
            → value_of (add redis p n k link e d).1 m j ≡ (
                if (n == m) && same k j
                then some (format_link_with_expire_time link e)
                else value_of d m j))
  unfolding add value_of
  add_lem d n k link e fine =
      let key = get_cache_key p n in
      let v = format_link_with_expire_time link e in
      let (done, hashed, fields) = laws.h_set_ok key k v d (unfold IsHashed in fine n) in
      let (kept, values) =
        effect d (redis.h_set key k v d).1 n (λ j. laws.h_set_other key j k v d) hashed fine in
      (done, kept, λ m j. values m j ∙ ground (arith, ==_iff n m, fields j))

  remove_lem :
      (d : D) (n : ℕ) (k : Text)
      → IsHashed d
      → ((remove redis p n k d).0 ≡ ok tt)
        × IsHashed (remove redis p n k d).1
        × ((m : ℕ) (j : Text)
            → value_of (remove redis p n k d).1 m j
              ≡ (if (n == m) && same k j then none else value_of d m j))
  unfolding remove value_of
  remove_lem d n k fine =
      let key = get_cache_key p n in
      let (done, hashed, fields) = laws.h_del_ok key k d (unfold IsHashed in fine n) in
      let (kept, values) =
        effect d (redis.h_del key k d).1 n (λ j. laws.h_del_other key j k d) hashed fine in
      (done, kept, λ m j. values m j ∙ ground (arith, ==_iff n m, fields j))

  -- What a read of a value leaves, and answers.
  Read : Time → ℕ → Text → Option Text → D → Option Text × D → Type 0
  Read now n k o d (answered, d') =
      (answered ≡ seen now o)
      × IsHashed d'
      × ((later : Time) (m : ℕ) (j : Text)
          → now ≤ later
          → seen later (value_of d' m j) ≡ seen later (value_of d m j))

  check_expiry-Read :
      (now : Time) (n : ℕ) (k value : Text) (parts : Option (Text × ℤ)) (d : D)
      → IsHashed d
      → read_parts (split_link_and_expire_time value) ≡ parts
      → value_of d n k ≡ some value
      → Read now n k (some value) d (check_expiry redis p now n k parts d)
  unfolding Read check_expiry
  check_expiry-Read now n k value none d fine e here =
      (ap (seen_parts now) (sym e), fine, λ later m j h. refl)
  check_expiry-Read now n k value (some (link, u)) d fine e here =
      elim (Bool-cases (after_unix now u)) [
        | inl after ↦
            let (done, kept, values) = remove_lem d n k fine in
            rw after (
              sym (ap (seen_parts now) e ∙ rw after refl),
              kept,
              λ later m j h. elim (Bool-cases ((n == m) && same k j)) [
                | inl own ↦
                    let en : n ≡ m = ground arith in
                    let ek : k ≡ j = ground (arith, same_iff k j) in
                    ap (seen later) (values m j ∙ ap (λ b. if b then none else value_of d m j) own)
                    ∙ sym (
                        ap (λ i. seen later (value_of d i j)) (sym en)
                        ∙ ap (λ i. seen later (value_of d n i)) (sym ek)
                        ∙ ap (seen later) here
                        ∙ ap (seen_parts later) e
                        ∙ rw (after_unix_mono now later u h after) refl)
                | inr other ↦
                    ap (seen later)
                      (values m j ∙ ap (λ b. if b then none else value_of d m j) other)
              ],
            )
        | inr before ↦
            rw before (sym (ap (seen_parts now) e ∙ rw before refl), fine, λ later m j h. refl)
      ]

  read_reply-Read :
      (now : Time) (n : ℕ) (k : Text) (d : D) (o : Option Text)
      → IsHashed d
      → value_of d n k ≡ o
      → Read now n k o d (read_reply redis p now n k (ok o) d)
  unfolding read_reply
  read_reply-Read now n k d none fine e = unfold Read in (refl, fine, λ later m j h. refl)
  read_reply-Read now n k d (some value) fine e = check_expiry-Read now n k value _ d fine refl e

  get-Read :
      (now : Time) (n : ℕ) (k : Text) (d : D)
      → IsHashed d
      → Read now n k (value_of d n k) d (get redis p now n k d)
  unfolding get
  get-Read now n k d fine =
      let reply : redis.h_get (get_cache_key p n) k d ≡ (ok (value_of d n k), d) =
        unfold IsHashed value_of in laws.h_get_ok (get_cache_key p n) k d (fine n) in
      subst
        (λ (x : Result (Option Text) × D).
          Read now n k (value_of d n k) d (read_reply redis p now n k x.0 x.1))
        (sym reply) (read_reply-Read now n k d (value_of d n k) fine refl)

  -- Over a Redis server that answers: the cache keeps the contract of a cache in every state in which
  -- its keys hold hashes or nothing. It takes links without a newline whose expiry is an `int64` of
  -- seconds, keeps the expiry cut down to the second, and shows what a reader makes of the fields.
  pub redis_cache_refines :
      (contract : CacheLaws (redis_cache redis p)) × (contract.IsFine ≡ IsHashed)
      × (contract.Takes ≡ (λ link e. Lacks b'\n' link × IsInstant e))
      × (contract.kept ≡ to_second)
      × (contract.shown ≡ (λ d now n k. seen now (value_of d n k)))
  unfolding Read
  redis_cache_refines = (
    record {
      IsFine = IsHashed;
      Takes = λ link e. Lacks b'\n' link × IsInstant e;
      kept = to_second;
      shown = λ d now n k. seen now (value_of d n k);
      get_shown = λ d now n k fine. get-Read now n k d fine;
      add_shown = λ d n k link e fine takes.
          let (done, kept, values) = add_lem d n k link e fine in
          let shows : (now : Time)
              → seen now (some (format_link_with_expire_time link e))
                ≡ (if ltb (to_second e) now then none else some link) =
            λ now.
              ap (seen_parts now) (read-format link e takes.0 takes.1)
              ∙ ap (λ b. if b then none else some link) (after_unix-unix now e takes.1) in
          (done, kept, λ now m j. ap (seen now) (values m j) ∙ ground (arith, shows now));
      remove_shown = λ d n k fine.
          let (done, kept, values) = remove_lem d n k fine in
          (done, kept, λ now m j. ap (seen now) (values m j) ∙ ground arith);
    },
    refl,
    refl,
    refl,
    refl,
  )
