-- ===== src/Examples/Table.antt =====
-- A small database: the rows of both tables, committed and in a transaction.
use vshortlink.Prelude.{
  ℕ, ◌+◌, ◌<◌, ◌≡◌, refl, Bool, not, none, some, List, [], ◌∷◌, ◌++◌, ltb, ltb→lt, ◌==◌,
  if◌then◌else◌, keep, All, All-imp, All-append, Bool-cases, inl, inr, arith, ok,
}
use vshortlink.Prelude.{ap, false, ==_iff}
use vshortlink.Prelude.Int.{ℤ}
use vshortlink.Sql.Repo.{only_index}
use vshortlink.Sql.Starts.{IndexLaws}
use vshortlink.Sql.{ShortLinkModel, StartIndexModel, Gorm}
use vshortlink.Sql.Table.{GormLaws, GormAnswers, IsAscending, saved, run_query, meets}

abbrev Rows : Type 0
Rows = (ms : List ShortLinkModel) × IsAscending ms

pub record Database : Type 0 where
  pub shown : Rows
  pub written : Rows
  pub indices : List StartIndexModel

All-saved :
    (n : ℕ) (m : ShortLinkModel) (ms : List ShortLinkModel)
    → n < m.id
    → All (λ k. n < k.id) ms
    → All (λ k. n < k.id) (saved m ms)
unfolding saved
All-saved n m [] h all = (h, tt)
All-saved n m (r ∷ rs) h all = elim (Bool-cases (m.id == r.id)) [
  | inl own ↦ rw own (h, all.1)
  | inr other ↦ elim (Bool-cases (ltb m.id r.id)) [
    | inl before ↦ rw (other, before) (h, all)
    | inr after ↦ rw (other, after) (all.0, All-saved n m rs h all.1)
  ]
]

pub saved-IsAscending :
    (m : ShortLinkModel) (ms : List ShortLinkModel)
    → 0 < m.id
    → IsAscending ms
    → IsAscending (saved m ms)
unfolding saved
saved-IsAscending m [] h a = (h, tt, tt)
saved-IsAscending m (r ∷ rs) h a = elim (Bool-cases (m.id == r.id)) [
  | inl own ↦
      let later : All (λ k. m.id < k.id) rs =
        All-imp (λ k. r.id < k.id) (λ k. m.id < k.id) (λ k g. ground arith) rs a.1 in
      rw own (h, later, a.2)
  | inr other ↦ elim (Bool-cases (ltb m.id r.id)) [
    | inl before ↦
        let next : m.id < r.id = ltb→lt m.id r.id before in
        let later : All (λ k. m.id < k.id) rs =
          All-imp (λ k. r.id < k.id) (λ k. m.id < k.id) (λ k g. omega (arith, g, next)) rs a.1 in
        rw (other, before) (h, (next, later), a)
    | inr after ↦
        let earlier : r.id < m.id = ground arith in
        rw (other, after) (a.0, All-saved r.id m rs earlier a.1, saved-IsAscending m rs h a.2)
  ]
]

pub next_id : List ShortLinkModel → ℕ
next_id [] = 1
next_id (m ∷ ms) = next_id ms + m.id

pub All-next_id : (ms : List ShortLinkModel) → (0 < next_id ms) × All (λ k. k.id < next_id ms) ms
unfolding next_id
All-next_id [] = (omega arith, tt)
All-next_id (m ∷ ms) =
    let (some_id, below) = All-next_id ms in
    (
      omega arith,
      (
        omega arith,
        All-imp (λ k. k.id < next_id ms) (λ k. k.id < next_id ms + m.id) (λ k h. omega (arith, h))
            ms below,
      ),
    )

pub append-IsAscending :
    (m : ShortLinkModel) (ms : List ShortLinkModel)
    → 0 < m.id
    → All (λ k. k.id < m.id) ms
    → IsAscending ms
    → IsAscending (ms ++ m ∷ [])
append-IsAscending m [] h below a = (h, tt, tt)
append-IsAscending m (r ∷ rs) h below a = (
  a.0,
  All-append (λ k. r.id < k.id) rs (m ∷ []) a.1 (below.0, tt),
  append-IsAscending m rs h below.1 a.2,
)

module _ (test : ShortLinkModel → Bool) where
  All-keep :
      (n : ℕ) (ms : List ShortLinkModel)
      → All (λ k. n < k.id) ms
      → All (λ k. n < k.id) (keep test ms)
  All-keep n [] h = tt
  All-keep n (m ∷ ms) h = elim (Bool-cases (test m)) [
    | inl passed ↦ rw passed (h.0, All-keep n ms h.1)
    | inr failed ↦ rw failed (All-keep n ms h.1)
  ]

  pub keep-IsAscending : (ms : List ShortLinkModel) → IsAscending ms → IsAscending (keep test ms)
  keep-IsAscending [] a = tt
  keep-IsAscending (m ∷ ms) a = elim (Bool-cases (test m)) [
    | inl passed ↦ rw passed (a.0, All-keep m.id ms a.1, keep-IsAscending ms a.2)
    | inr failed ↦ rw failed (keep-IsAscending ms a.2)
  ]

  abbrev kept : Rows → Rows
  kept (ms, a) = (keep test ms, keep-IsAscending ms a)

abbrev added : ShortLinkModel → Rows → Rows
added m (ms, a) =
    let (some_id, below) = All-next_id ms in
    (
      ms ++ record m { id = next_id ms } ∷ [],
      append-IsAscending (record m { id = next_id ms }) ms some_id below a,
    )

-- A row without an id is not written.
abbrev written_to : ShortLinkModel → Rows → Rows
written_to m (ms, a) = (
  if ltb 0 m.id then saved m ms else ms,
  elim (Bool-cases (ltb 0 m.id)) [
    | inl has_id ↦ rw has_id (saved-IsAscending m ms (ltb→lt 0 m.id has_id) a)
    | inr no_id ↦ rw no_id a
  ],
)

pub written_to-saved : (m : ShortLinkModel) (t : Rows) → 0 < m.id → (written_to m t).0 ≡ saved m t.0
written_to-saved m t h = ground arith

unfoldable pub database : Gorm Database
database = record {
  create = λ m d. (ok (record m { id = next_id d.shown.0 }), record d { shown = added m d.shown });
  save = λ m d. (ok tt, record d { shown = written_to m d.shown });
  begin = λ d. (ok tt, record d { written = d.shown });
  tx_save = λ m d. (ok tt, record d { written = written_to m d.written });
  rollback = λ d. record d { written = d.shown };
  commit = λ d. (ok tt, record d { shown = d.written });
  delete = λ id d. (ok tt, record d { shown = kept (λ m. not (m.id == id)) d.shown });
  delete_where = λ c d. (ok tt, record d { shown = kept (λ m. not (meets m c)) d.shown });
  find = λ q d. (ok (run_query q d.shown.0), d);
  first = λ id d. (ok (elim (keep (λ m. m.id == id) d.shown.0) [ [] ↦ none | m ∷ ms ↦ some m ]), d);
  find_index = λ id d. (ok (keep (λ m. m.id == id) d.indices), d);
  upsert_index =
      λ m d. (ok tt, record d { indices = m ∷ keep (λ k. not (k.id == m.id)) d.indices });
}

unfoldable pub database_laws : GormLaws database
unfolding database
database_laws = record {
  committed = λ d. d.shown.0;
  pending = λ d. d.written.0;
  by_id = λ d. d.shown.1;
  find_shows = λ q d. refl;
  create_adds = λ m d h. inl (next_id d.shown.0, refl, refl);
  save_writes = λ m d h. inl (refl, written_to-saved m d.shown h);
  delete_where_drops = λ c d. inl (refl, refl);
  upsert_index_keeps = λ m d. refl;
  begin_opens = λ d. (refl, λ h. refl);
  tx_save_writes = λ m d h. (refl, λ g. written_to-saved m d.written h);
  rollback_drops = λ d. refl;
  commit_shows = λ d. inl (refl, refl);
}

pub database_answers : GormAnswers database
unfolding database
database_answers = record {
  create_ok = λ m d. (record m { id = next_id d.shown.0 }, refl);
  begin_ok = λ d. refl;
  tx_save_ok = λ m d. refl;
  commit_ok = λ d. refl;
}

keep_other :
    (n m : ℕ) (ms : List StartIndexModel)
    → (m == n) ≡ false
    → keep (λ k. k.id == n) (keep (λ k. not (k.id == m)) ms) ≡ keep (λ k. k.id == n) ms
keep_other n m [] h = refl
keep_other n m (k ∷ ks) h = elim (Bool-cases (k.id == m)) [
  | inl own ↦
      let other : (k.id == n) ≡ false =
        ground (arith, own, h, ==_iff k.id m, ==_iff k.id n, ==_iff m n) in
      rw (own, other) (keep_other n m ks h)
  | inr other ↦ rw other (elim (Bool-cases (k.id == n)) [
    | inl same ↦ rw same (ap (◌∷◌ k) (keep_other n m ks h))
    | inr apart ↦ rw apart (keep_other n m ks h)
  ])
]

abbrev pub stored_start : List StartIndexModel → ℕ → ℤ
stored_start ms n = only_index (keep (λ m. m.id == n) ms)

pub stored_start-upsert :
    (m : StartIndexModel) (ms : List StartIndexModel) (n : ℕ)
    → 0 < m.id
    → stored_start (m ∷ keep (λ k. not (k.id == m.id)) ms) n
      ≡ (if m.id == n then m.start_index else stored_start ms n)
stored_start-upsert m ms n h = elim (Bool-cases (m.id == n)) [
  | inl own ↦ rw own (ground (arith, h))
  | inr other ↦ rw other (ap only_index (keep_other n m.id ms other))
]

unfoldable pub database_index : IndexLaws database
unfolding database
database_index = record {
  starts = λ d n. stored_start d.indices n;
  find_index_shows = λ n d. (keep (λ m. m.id == n) d.indices, refl, refl);
  upsert_index_writes = λ m d h. (refl, λ n. stored_start-upsert m d.indices n h);
  create_keeps = λ m d n. refl;
  save_keeps = λ m d n. refl;
  delete_where_keeps = λ c d n. refl;
  begin_keeps = λ d n. refl;
  tx_save_keeps = λ m d n. refl;
  commit_keeps = λ d n. refl;
  rollback_keeps = λ d n. refl;
}
