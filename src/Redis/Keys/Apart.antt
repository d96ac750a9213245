-- ===== src/Redis/Keys/Apart.antt =====
-- No two keys of different purpose, length or day are the same.
use vshortlink.Prelude.{
  ℕ, ◌≡◌, refl, ap, ◌∙◌, false, [], ◌∷◌, ◌++◌, Text, codes, same, same_iff, ◌==◌, ==_iff, arith,
}
use vshortlink.Prelude.Int.{pos}
use vshortlink.Prelude.Decimal.{format_int}
use vshortlink.Prelude.Decimal.RoundTrip.{format_int-inj, format_int-cons}
use vshortlink.Redis.Keys.{get_pool_key, get_lock_key, get_cache_key, get_stats_key}

-- A common start does not matter.
same-append : (s t u : Text) → same (s ++ t) (s ++ u) ≡ same t u
unfolding same
same-append [] t u = refl
same-append (c ∷ s) t u = ground (arith, same-append s t u)

same-format_int : (n m : ℕ) → same (format_int (pos n)) (format_int (pos m)) ≡ (n == m)
same-format_int n m = ground (
  arith,
  same_iff (format_int (pos n)) (format_int (pos m)),
  format_int-inj n m,
  ==_iff n m,
  ap (λ k. format_int (pos k)) {x = n} {y = m},
)

module _ (p : Text) (n m : ℕ) where
  pub same-get_pool_key : same (get_pool_key p n) (get_pool_key p m) ≡ (n == m)
  unfolding get_pool_key
  same-get_pool_key =
      same-append p _ _ ∙ same-append (codes "shortlink:pool:") _ _ ∙ same-format_int n m

  pub same-get_lock_key : same (get_lock_key p n) (get_lock_key p m) ≡ (n == m)
  unfolding get_lock_key
  same-get_lock_key =
      same-append p _ _ ∙ same-append (codes "shortlink:pool:lock:") _ _ ∙ same-format_int n m

  pub same-get_cache_key : same (get_cache_key p n) (get_cache_key p m) ≡ (n == m)
  unfolding get_cache_key
  same-get_cache_key =
      same-append p _ _ ∙ same-append (codes "shortlink:cache:") _ _ ∙ same-format_int n m

  pub pool_apart_from_lock : same (get_pool_key p n) (get_lock_key p m) ≡ false
  unfolding get_pool_key get_lock_key same
  pool_apart_from_lock =
      let (c, s, e, low, high) = format_int-cons n in
      same-append p _ _
      ∙ same-append (codes "shortlink:pool:") (format_int (pos n))
          (codes "lock:" ++ format_int (pos m))
      ∙ ap (λ t. same t (codes "lock:" ++ format_int (pos m))) e
      ∙ ground arith

  pub pool_apart_from_cache : same (get_pool_key p n) (get_cache_key p m) ≡ false
  unfolding get_pool_key get_cache_key same
  pool_apart_from_cache = same-append p _ _

  pub lock_apart_from_cache : same (get_lock_key p n) (get_cache_key p m) ≡ false
  unfolding get_lock_key get_cache_key same
  lock_apart_from_cache = same-append p _ _

module _ (p : Text) (n : ℕ) (day : Text) where
  pub pool_apart_from_stats : same (get_pool_key p n) (get_stats_key p day) ≡ false
  unfolding get_pool_key get_stats_key same
  pool_apart_from_stats = same-append p _ _

  pub lock_apart_from_stats : same (get_lock_key p n) (get_stats_key p day) ≡ false
  unfolding get_lock_key get_stats_key same
  lock_apart_from_stats = same-append p _ _

  pub cache_apart_from_stats : same (get_cache_key p n) (get_stats_key p day) ≡ false
  unfolding get_cache_key get_stats_key same
  cache_apart_from_stats = same-append p _ _

pub same-get_stats_key :
    (p day other : Text) → same (get_stats_key p day) (get_stats_key p other) ≡ same day other
unfolding get_stats_key
same-get_stats_key p day other = same-append p _ _ ∙ same-append (codes "shortlink:stats:") _ _
