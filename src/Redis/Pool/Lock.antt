-- ===== src/Redis/Pool/Lock.antt =====
-- The lock of the Redis pool: who gets it, and after how many calls.
use vshortlink.Prelude.{
  ℕ, suc, ◌+◌, ◌%◌, ◌^◌, ◌<◌, ◌≤◌, ◌/◌, arith, false, ap, ltb, ◌&&◌, not, Option, none, ◌≡◌, refl,
  ◌∙◌, true, false, some, Text, if◌then◌else◌, ok, err, pool_locked, Bool-cases, inl, inr,
}
use vshortlink.Prelude.Int.{ℤ, ltb_ℤ}
use vshortlink.Prelude.Decimal.{format_int, parse_int}
use vshortlink.Prelude.Decimal.RoundTrip.{parse_int-format_int}
use vshortlink.Link.{Time}
use vshortlink.Redis.{Redis}
use vshortlink.Redis.Keys.{get_lock_key, unix}
use vshortlink.Redis.Server.Leases.{LeaseLaws}
use vshortlink.Redis.Cache.Entries.{IsInstant, unix-IsInt64}
use vshortlink.Redis.Pool.{lock, lock_held, unlock}

unix_mono : (a b : Time) → a ≤ b → ltb_ℤ (unix b) (unix a) ≡ false
unix_mono a b h = let seconds : a / 10 ^ 9 ≤ b / 10 ^ 9 = omega arith in ground (arith, seconds)

module _ {D : Type 0} (redis : Redis D) (laws : LeaseLaws redis) (p : Text) (n : ℕ) where
  -- The value under the key of the lock.
  abbrev pub lease : D → Option Text
  lease d = laws.value d (get_lock_key p n)

  lock_absent :
      (fuel : ℕ) (now : Time) (expire : ℕ) (d : D)
      → lease d ≡ none
      → lock redis p (suc fuel) now n expire d
        ≡ (ok tt, (redis.set_nx (get_lock_key p n) (format_int (unix (now + expire))) expire d).1)
  unfolding lock
  lock_absent fuel now expire d free =
      rw (laws.set_nx_new (get_lock_key p n) (format_int (unix (now + expire))) expire d free) refl

  lock_taken :
      (fuel : ℕ) (now : Time) (expire : ℕ) (d : D) (t : Text)
      → lease d ≡ some t
      → lock redis p (suc fuel) now n expire d
        ≡ lock_held redis p (lock redis p fuel now n expire) now n (some t) d
  unfolding lock
  lock_taken fuel now expire d t held =
      let key = get_lock_key p n in
      rw (
        laws.set_nx_held key (format_int (unix (now + expire))) t expire d held,
        laws.get_held key t d held,
      )

  lock_refused :
      (fuel : ℕ) (now : Time) (expire : ℕ) (d : D) (u : ℤ) (t : Text)
      → lease d ≡ some t
      → parse_int t ≡ some u
      → ltb_ℤ u (unix now) ≡ false
      → lock redis p (suc fuel) now n expire d ≡ (err pool_locked, d)
  lock_refused fuel now expire d u t held number valid =
      lock_taken fuel now expire d t held ∙ unfold lock_held in rw (number, valid)

  lease-unlock : (d : D) → lease (unlock redis p n d) ≡ none
  unfolding unlock
  lease-unlock d = laws.del_drops (get_lock_key p n) d

  lock_expired :
      (fuel : ℕ) (now : Time) (expire : ℕ) (d : D) (u : ℤ) (t : Text)
      → lease d ≡ some t
      → parse_int t ≡ some u
      → ltb_ℤ u (unix now) ≡ true
      → lock redis p (suc fuel) now n expire d ≡ lock redis p fuel now n expire (unlock redis p n d)
  lock_expired fuel now expire d u t held number over =
      lock_taken fuel now expire d t held ∙ unfold lock_held in rw (number, over)

  -- What a `Lock` finds, and answers.
  answer :
      (fuel : ℕ) (now clock : Time) (expire next t : ℕ) (d : D)
      → lease d ≡ (if ltb t expire then some (format_int (unix (now + expire))) else none)
      → IsInstant (now + expire)
      → lock redis p (suc (suc fuel)) clock n next d ≡ (
          if ltb t expire && not (ltb_ℤ (unix (now + expire)) (unix clock))
          then (err pool_locked, d)
          else (ok tt, (lock redis p (suc (suc fuel)) clock n next d).1))
  answer fuel now clock expire next t d held fits =
      let u : ℤ = unix (now + expire) in
      let number = parse_int-format_int u (unix-IsInt64 (now + expire) fits) in
      elim (Bool-cases (ltb t expire)) [
        | inl running ↦
            let own : lease d ≡ some (format_int u) = held ∙ rw running refl in
            elim (Bool-cases (ltb_ℤ u (unix clock))) [
              | inl over ↦
                  rw (running, over)
                    (ap (λ r. (r, (lock redis p (suc (suc fuel)) clock n next d).1))
                      (ap (λ x. x.0)
                        (lock_expired (suc fuel) clock next d u (format_int u) own number over
                          ∙ lock_absent fuel clock next (unlock redis p n d) (lease-unlock d))))
              | inr valid ↦
                  rw (running, valid)
                    (lock_refused (suc fuel) clock next d u (format_int u) own number valid)
            ]
        | inr ended ↦ rw ended (
            ap (λ r. (r, (lock redis p (suc (suc fuel)) clock n next d).1))
              (ap (λ x. x.0) (lock_absent (suc fuel) clock next d (held ∙ rw ended refl))))
      ]

  -- Over a Redis server that answers, where the lock of a length is free: `Lock`, for a time of whole
  -- milliseconds, not 0, that ends at an `int64` of seconds, takes it, with one call. Of another caller,
  -- some time later and by whatever clock, `Lock` is refused and changes nothing while that time has not
  -- passed and the clock is not past the second that it ends in; otherwise it succeeds, with at most
  -- one call of itself. So by a clock that agrees with the first caller's it is refused exactly while
  -- the time has not passed. After `Unlock` it succeeds at once.
  pub lock_leases :
      (fuel : ℕ) (now clock : Time) (expire next t : ℕ) (d : D)
      → lease d ≡ none
      → 0 < expire
      → expire % 10 ^ 6 ≡ 0
      → IsInstant (now + expire)
      → let later = laws.wait t (lock redis p (suc fuel) now n expire d).1 in
        let again = lock redis p (suc (suc fuel)) clock n next later in
        ((lock redis p (suc fuel) now n expire d).0 ≡ ok tt)
        × (again ≡ (
            if ltb t expire && not (ltb_ℤ (unix (now + expire)) (unix clock))
            then (err pool_locked, later)
            else (ok tt, again.1)))
        × ((lock redis p (suc (suc fuel)) (now + t) n next later).0
            ≡ (if ltb t expire then err pool_locked else ok tt))
        × ((lock redis p (suc fuel) clock n next (unlock redis p n later)).0 ≡ ok tt)
  lock_leases fuel now clock expire next t d free some_time whole fits =
      let key : Text = get_lock_key p n in
      let v : Text = format_int (unix (now + expire)) in
      let later = laws.wait t (lock redis p (suc fuel) now n expire d).1 in
      let takes = lock_absent fuel now expire d free in
      let held : lease later ≡ (if ltb t expire then some v else none) =
        ap (λ x. lease (laws.wait t x.1)) takes
        ∙ laws.set_nx_lease key v expire d free some_time whole t in
      (
        ap (λ x. x.0) takes,
        answer fuel now clock expire next t later held fits,
        ap (λ x. x.0) (answer fuel now (now + t) expire next t later held fits)
            ∙ elim (Bool-cases (ltb t expire)) [
              | inl running ↦
                  rw (running, unix_mono (now + t) (now + expire) (ground (arith, running))) refl
              | inr ended ↦ rw ended refl
            ],
        ap (λ x. x.0) (lock_absent fuel clock next (unlock redis p n later) (lease-unlock later)),
      )
