-- ===== src/Examples/Leases.antt =====
-- A small Redis server whose keys end by themselves, and the lock of the Redis pool on it.
use vshortlink.Prelude.{
  ℕ, ◌+◌, ◌-◌, ◌≡◌, refl, Bool, true, false, ◌&&◌, not, Option, none, some, Text, codes, same,
  same_refl, ltb, if◌then◌else◌, ok, err, backend, pool_locked, Exec, arith,
}
use vshortlink.Prelude.Int.{ltb_ℤ}
use vshortlink.Redis.{Redis}
use vshortlink.Redis.Keys.{unix, get_lock_key}
use vshortlink.Redis.Server.Leases.{LeaseLaws}
use vshortlink.Redis.Pool.{lock, unlock}
use vshortlink.Redis.Pool.Lock.{lock_leases}

-- A value, and the nanoseconds that it is left for.
abbrev Timed : Type 0
Timed = Text → Option (Text × ℕ)

value_of : Option (Text × ℕ) → Option Text
value_of none = none
value_of (some (v, left)) = some v

after : ℕ → Option (Text × ℕ) → Option (Text × ℕ)
after t none = none
after t (some (v, left)) = if ltb t left then some (v, left - t) else none

refused : {A : Type 0} → Exec Timed A
refused d = (err (backend 0), d)

set_free : Text → Text → ℕ → Option Text → Exec Timed Bool
set_free k v ttl none d = (ok true, λ j. if same k j then some (v, ttl) else d j)
set_free k v ttl (some held) d = (ok false, d)

timed : Redis Timed
unfolding refused set_free value_of
timed = record {
  z_add = λ k score m. refused;
  z_pop_min = λ k. refused;
  z_card = λ k. refused;
  z_rem = λ k m. refused;
  del = λ k d. (ok tt, λ j. if same k j then none else d j);
  set_nx = λ k v ttl d. set_free k v ttl (value_of (d k)) d;
  get = λ k d. (ok (value_of (d k)), d);
  h_get = λ k f. refused;
  h_set = λ k f v. refused;
  h_del = λ k f. refused;
  h_incr_by = λ k f n. refused;
  expire = λ k ttl. refused;
  h_m_get = λ k fs. refused;
}

timed_laws : LeaseLaws timed
unfolding timed set_free value_of after
timed_laws = record {
  value = λ d k. value_of (d k);
  wait = λ t d k. after t (d k);
  set_nx_new = λ k v ttl d h. rw h refl;
  set_nx_lease = λ k v ttl d h some_time whole t. rw h (rw (same_refl k) (ground arith));
  set_nx_held = λ k v held ttl d h. rw h refl;
  get_held = λ k held d h. rw h refl;
  del_drops = λ k d. rw (same_refl k) refl;
}

abbrev empty : Timed
empty k = none

abbrev waited : Timed
waited = timed_laws.wait 4000000000 (lock timed (codes "app:") 2 5 6 9000000000 empty).1

no_lease : timed_laws.value empty (get_lock_key (codes "app:") 6) ≡ none
unfolding timed_laws value_of
no_lease = refl

lock_leases_example :
    ((lock timed (codes "app:") 2 5 6 9000000000 empty).0 ≡ ok tt)
    × (lock timed (codes "app:") 3 70 6 1 waited ≡ (
        if ltb 4000000000 9000000000 && not (ltb_ℤ (unix (5 + 9000000000)) (unix 70))
        then (err pool_locked, waited)
        else (ok tt, (lock timed (codes "app:") 3 70 6 1 waited).1)))
    × ((lock timed (codes "app:") 3 (5 + 4000000000) 6 1 waited).0
        ≡ (if ltb 4000000000 9000000000 then err pool_locked else ok tt))
    × ((lock timed (codes "app:") 2 70 6 1 (unlock timed (codes "app:") 6 waited)).0 ≡ ok tt)
lock_leases_example =
    lock_leases timed timed_laws (codes "app:") 6 1 5 70 9000000000 1 4000000000 empty no_lease
      (omega arith) refl (omega arith)
