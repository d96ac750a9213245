-- ===== src/Examples/Server.antt =====
-- A small Redis server: a value for each key, and the laws that the theorems ask for.
use vshortlink.Prelude.{
  ◌^◌, ◌≤◌, ◌≡◌, refl, ap, ◌∙◌, Bool, true, false, Option, none, some, List, [], ◌∷◌, map, Text,
  same, same_iff, same_refl, occurrences, ltb, if◌then◌else◌, if_elim, length, Result, ok, err,
  backend, Exec, arith, Bool-cases, Option-cases, inl, inr,
}
use vshortlink.Prelude.Int.{ℤ, pos, negsuc, add_ℤ, ltb_ℤ}
use vshortlink.Prelude.Decimal.{format_int}
use vshortlink.Prelude.Decimal.RoundTrip.{IsInt64}
use vshortlink.Redis.{Redis}
use vshortlink.Redis.Server.{
  RedisLaws, Value, absent, string, sorted, hash, holds_sorted, holds_hash, members, field,
  at_most_one, others, number_of,
}

abbrev IsOnce : Value → Type 0
IsOnce v = (x : Text) → occurrences x (members v) ≤ 1

abbrev pub Store : Type 0
Store = (f : Text → Value) × ((k : Text) → IsOnce (f k))

abbrev put : Text → (v : Value) → IsOnce v → Store → Store
put k v once (f, all_once) =
    (λ j. if same k j then v else f j, λ j. if_elim IsOnce (same k j) v (f j) once (all_once j))

put_own : (k : Text) (v : Value) (once : IsOnce v) (d : Store) → (put k v once d).0 k ≡ v
put_own k v once d = rw (same_refl k) refl

put_other :
    (k j : Text) (v : Value) (once : IsOnce v) (d : Store)
    → same k j ≡ false
    → (put k v once d).0 j ≡ d.0 j
put_other k j v once d h = rw h refl

abbrev without : Text → List Text → List Text
without m [] = []
without m (c ∷ cs) = let rest = without m cs in if same m c then rest else c ∷ rest

occurrences-without :
    (m x : Text) (cs : List Text)
    → occurrences x (without m cs) ≡ (if same m x then 0 else occurrences x cs)
occurrences-without m x [] = ground arith
occurrences-without m x (c ∷ cs) =
    ground (arith, occurrences-without m x cs, same_iff m c, same_iff c x, same_iff m x)

refused : {A : Type 0} → Exec Store A
refused d = (err (backend 0), d)

add-IsOnce : (m : Text) (v : Value) → IsOnce v → IsOnce (sorted (m ∷ without m (members v)))
add-IsOnce m v once x = ground (arith, occurrences-without m x (members v), once x)

without-IsOnce : (m : Text) (v : Value) → IsOnce v → IsOnce (sorted (without m (members v)))
without-IsOnce m v once x = ground (arith, occurrences-without m x (members v), once x)

occurrences-others : (x : Text) (ms : List Text) → occurrences x (others ms) ≤ occurrences x ms
occurrences-others x [] = omega arith
occurrences-others x (m ∷ ms) = omega arith

others-IsOnce : (v : Value) → IsOnce v → IsOnce (sorted (others (members v)))
others-IsOnce v once x = omega (arith, occurrences-others x (members v), once x)

nothing_once : (x : Text) → 0 ≤ 1
nothing_once x = omega arith

abbrev in_int64 : ℤ → Bool
in_int64 (pos n) = ltb n (2 ^ 63)
in_int64 (negsuc n) = ltb n (2 ^ 63)

abbrev is_absent : Value → Bool
is_absent absent = true
is_absent (string t) = false
is_absent (sorted ms) = false
is_absent (hash f) = false

abbrev change : (Value → Bool) → Text → (v : Value) → IsOnce v → Store → Result (Unit {0}) × Store
change test k v once d = if test (d.0 k) then (ok tt, put k v once d) else refused d

server_h_incr_by : Text → Text → ℤ → Exec Store (Unit {0})
server_h_incr_by k f δ d = elim (number_of (field (d.0 k) f)) [
  | none ↦ refused d
  | some old ↦
      if in_int64 (add_ℤ old δ)
      then change holds_hash k
          (hash (λ g. if same f g then some (format_int (add_ℤ old δ)) else field (d.0 k) g))
          nothing_once d
      else refused d
]

read_value : Value → Exec Store (Option Text)
unfolding refused
read_value absent d = (ok none, d)
read_value (string t) d = (ok (some t), d)
read_value (sorted ms) d = refused d
read_value (hash f) d = refused d

pub server : Redis Store
unfolding refused server_h_incr_by read_value
server = record {
  z_add = λ k score m d.
      change holds_sorted k (sorted (m ∷ without m (members (d.0 k))))
        (add-IsOnce m (d.0 k) (d.1 k)) d;
  z_pop_min = λ k d.
      if holds_sorted (d.0 k)
      then (
        ok (at_most_one (members (d.0 k))),
        put k (sorted (others (members (d.0 k)))) (others-IsOnce (d.0 k) (d.1 k)) d,
      )
      else refused d;
  z_card = λ k d. if holds_sorted (d.0 k) then (ok (length (members (d.0 k))), d) else refused d;
  z_rem = λ k m d.
      change holds_sorted k (sorted (without m (members (d.0 k))))
        (without-IsOnce m (d.0 k) (d.1 k)) d;
  del = λ k d. (ok tt, put k absent nothing_once d);
  set_nx = λ k v ttl d.
      if is_absent (d.0 k) then (ok true, put k (string v) nothing_once d) else (ok false, d);
  get = λ k d. read_value (d.0 k) d;
  h_get = λ k f d. if holds_hash (d.0 k) then (ok (field (d.0 k) f), d) else refused d;
  h_set = λ k f v d.
      change holds_hash k (hash (λ g. if same f g then some v else field (d.0 k) g)) nothing_once d;
  h_del = λ k f d.
      change holds_hash k (hash (λ g. if same f g then none else field (d.0 k) g)) nothing_once d;
  h_incr_by = server_h_incr_by;
  expire =
      λ k ttl d. if ltb_ℤ (pos 0) ttl then (ok tt, d) else (ok tt, put k absent nothing_once d);
  h_m_get = λ k fs d. if holds_hash (d.0 k) then (ok (map (field (d.0 k)) fs), d) else refused d;
}

change_ok :
    (test : Value → Bool) (k : Text) (v : Value) (once : IsOnce v) (d : Store)
    → test (d.0 k) ≡ true
    → test v ≡ true
    → ((change test k v once d).0 ≡ ok tt)
      × (test ((change test k v once d).1.0 k) ≡ true)
      × ((change test k v once d).1.0 k ≡ v)
change_ok test k v once d h hv = rw h (refl, ap test (put_own k v once d) ∙ hv, put_own k v once d)

change_other :
    (test : Value → Bool) (k j : Text) (v : Value) (once : IsOnce v) (d : Store)
    → same k j ≡ false
    → (change test k v once d).1.0 j ≡ d.0 j
unfolding refused
change_other test k j v once d h = elim (Bool-cases (test (d.0 k))) [
  | inl fits ↦ rw fits (put_other k j v once d h)
  | inr wrong ↦ rw wrong refl
]

-- What is unchanged under a key that is not written, whether or not the command is carried out.
if_other :
    {A : Type 0} (b : Bool) (j : Text) (r : Result A × Store) (e : Result A) (d : Store)
    → r.1.0 j ≡ d.0 j
    → (if b then r else (e, d)).1.0 j ≡ d.0 j
if_other true j r e d h = h
if_other false j r e d h = refl

in_int64-IsInt64 : (z : ℤ) → IsInt64 z → in_int64 z ≡ true
in_int64-IsInt64 (pos n) h = ground arith
in_int64-IsInt64 (negsuc n) h = ground arith

hash_ok :
    (k : Text) (new : Text → Option Text) (d : Store)
    → holds_hash (d.0 k) ≡ true
    → ((change holds_hash k (hash new) nothing_once d).0 ≡ ok tt)
      × (holds_hash ((change holds_hash k (hash new) nothing_once d).1.0 k) ≡ true)
      × ((g : Text) → field ((change holds_hash k (hash new) nothing_once d).1.0 k) g ≡ new g)
hash_ok k new d h =
    let (done, holds, own) = change_ok holds_hash k (hash new) nothing_once d h refl in
    (done, holds, λ g. ap (λ v. field v g) own)

incr_ok :
    (k f : Text) (old δ : ℤ) (d : Store)
    → holds_hash (d.0 k) ≡ true
    → number_of (field (d.0 k) f) ≡ some old
    → in_int64 (add_ℤ old δ) ≡ true
    → server_h_incr_by k f δ d
      ≡ change holds_hash k
          (hash (λ g. if same f g then some (format_int (add_ℤ old δ)) else field (d.0 k) g))
          nothing_once
          d
unfolding server_h_incr_by
incr_ok k f old δ d h number fits = rw (number, server_h_incr_by, fits) refl

incr_other :
    (k j f : Text) (δ : ℤ) (d : Store) → same k j ≡ false → (server_h_incr_by k f δ d).1.0 j ≡ d.0 j
unfolding server_h_incr_by refused
incr_other k j f δ d h = elim (Option-cases (number_of (field (d.0 k) f))) [
  | inl missing ↦ rw (missing, server_h_incr_by) refl
  | inr (old, number) ↦
      rw (number, server_h_incr_by)
        (if_other (in_int64 (add_ℤ old δ)) j _ (err (backend 0)) d
          (change_other holds_hash k j _ nothing_once d h))
]

read_same : (v : Value) (d : Store) → (read_value v d).1 ≡ d
unfolding read_value refused
read_same absent d = refl
read_same (string t) d = refl
read_same (sorted ms) d = refl
read_same (hash f) d = refl

pub server_laws : RedisLaws server
unfolding server refused read_value
server_laws = record {
  stored = λ d. d.0;
  once = λ d k x. d.1 k x;
  z_add_ok = λ k score m d h.
      let v = sorted (m ∷ without m (members (d.0 k))) in
      let (done, holds, own) = change_ok holds_sorted k v (add-IsOnce m (d.0 k) (d.1 k)) d h refl in
      (
        done,
        holds,
        λ x.
            ap (λ w. occurrences x (members w)) own
            ∙ ground (arith, occurrences-without m x (members (d.0 k))),
      );
  z_add_other =
      λ k j score m d h. change_other holds_sorted k j _ (add-IsOnce m (d.0 k) (d.1 k)) d h;
  z_pop_min_ok = λ k d h. rw h (
    refl,
    ap holds_sorted (put_own k _ (others-IsOnce (d.0 k) (d.1 k)) d),
    ap members (put_own k _ (others-IsOnce (d.0 k) (d.1 k)) d),
  );
  z_pop_min_other = λ k j d h.
      if_other (holds_sorted (d.0 k)) j _ (err (backend 0)) d
        (put_other k j _ (others-IsOnce (d.0 k) (d.1 k)) d h);
  z_card_ok = λ k d h. rw h refl;
  z_rem_ok = λ k m d h.
      let v = sorted (without m (members (d.0 k))) in
      let (done, holds, own) =
        change_ok holds_sorted k v (without-IsOnce m (d.0 k) (d.1 k)) d h refl in
      (
        done,
        holds,
        λ x. ap (λ w. occurrences x (members w)) own ∙ occurrences-without m x (members (d.0 k)),
      );
  z_rem_other = λ k j m d h. change_other holds_sorted k j _ (without-IsOnce m (d.0 k) (d.1 k)) d h;
  del_ok = λ k d. (refl, put_own k absent nothing_once d);
  del_other = λ k j d h. put_other k j absent nothing_once d h;
  set_nx_other = λ k j v ttl d h.
      if_other (is_absent (d.0 k)) j _ (ok false) d (put_other k j (string v) nothing_once d h);
  get_reads = λ k d j. ap (λ x. x.0 j) (read_same (d.0 k) d);
  h_set_ok = λ k f v d h. hash_ok k _ d h;
  h_set_other = λ k j f v d h. change_other holds_hash k j _ nothing_once d h;
  h_get_ok = λ k f d h. rw h refl;
  h_m_get_ok = λ k fs d h. rw h refl;
  h_del_ok = λ k f d h. hash_ok k _ d h;
  h_del_other = λ k j f d h. change_other holds_hash k j _ nothing_once d h;
  h_incr_by_ok = λ k f old δ sum d h number total fits.
      let fits' : in_int64 (add_ℤ old δ) ≡ true = ap in_int64 total ∙ in_int64-IsInt64 sum fits in
      rw (incr_ok k f old δ d h number fits', ← total) (hash_ok k _ d h);
  h_incr_by_other = λ k j f δ d h. incr_other k j f δ d h;
  expire_ok = λ k ttl d h. rw h (refl, λ j. refl);
}
