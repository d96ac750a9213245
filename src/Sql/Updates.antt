-- ===== src/Sql/Updates.antt =====
-- `Updates` of the SQL repository writes all its links or none.
use vshortlink.Prelude.{
  ◌<◌, ◌≡◌, ◌⊎◌, refl, ap, ◌∙◌, List, [], ◌∷◌, All, Result, ok, err, Result-cases, Error, inl, inr,
  arith,
}
use vshortlink.Link.{Time, ShortLink}
use vshortlink.Sql.{ShortLinkModel, from_core, Gorm}
use vshortlink.Sql.Repo.{save_all, updates}
use vshortlink.Sql.Table.{GormLaws, GormAnswers, saved}

-- The row that `Updates` writes for a link.
abbrev pub written : Time → ShortLink → ShortLinkModel
written now link = record (from_core link) { modify_time = now }

unfoldable pub all_saved : Time → List ShortLink → List ShortLinkModel → List ShortLinkModel
all_saved now [] table = table
all_saved now (link ∷ links) table = all_saved now links (saved (written now link) table)

module _ {D : Type 0} (gorm : Gorm D) (laws : GormLaws gorm) (now : Time) where
  -- What a call did that found the table as `before` and was to leave it as `after`.
  abbrev pub AllOrNothing :
      Result (Unit {0}) × D → List ShortLinkModel → List ShortLinkModel → Type 0
  AllOrNothing x before after =
      ((x.0 ≡ ok tt) × (laws.committed x.1 ≡ after))
      ⊎ ((e : Error) × (x.0 ≡ err e) × (laws.committed x.1 ≡ before))

  over :
      {x : Result (Unit {0}) × D} {b b' a a' : List ShortLinkModel}
      → b ≡ b'
      → a ≡ a'
      → AllOrNothing x b a
      → AllOrNothing x b' a'
  over same_before same_after (inl (done, shows)) = inl (done, shows ∙ same_after)
  over same_before same_after (inr (e, failed, shows)) = inr (e, failed, shows ∙ same_before)

  save_all-AllOrNothing :
      (links : List ShortLink) (d : D)
      → All (λ l. 0 < l.id) links
      → AllOrNothing
          (save_all gorm now links d)
          (laws.committed d)
          (all_saved now links (laws.pending d))
  unfolding save_all all_saved
  save_all-AllOrNothing [] d has_ids = laws.commit_shows d
  save_all-AllOrNothing (link ∷ links) d has_ids =
      let (same_table, writes) = laws.tx_save_writes (written now link) d has_ids.0 in
      elim (Result-cases (gorm.tx_save (written now link) d).0) [
        | inl (u, done) ↦
            rw (done, save_all)
              (over same_table (ap (all_saved now links) (writes done))
                (save_all-AllOrNothing links (gorm.tx_save (written now link) d).1 has_ids.1))
        | inr (e, failed) ↦
            rw (failed, save_all)
              (inr
                (e, refl, laws.rollback_drops (gorm.tx_save (written now link) d).1 ∙ same_table))
      ]

  -- With GORM's calls free to fail, over links with ids: `Updates` returns no error and every link is
  -- written with the current time, or it returns an error and the table that others see is as it was.
  pub updates-AllOrNothing :
      (links : List ShortLink) (d : D)
      → All (λ l. 0 < l.id) links
      → AllOrNothing
          (updates gorm now links d)
          (laws.committed d)
          (all_saved now links (laws.committed d))
  unfolding updates
  updates-AllOrNothing links d has_ids =
      let (same_table, opens) = laws.begin_opens d in
      elim (Result-cases (gorm.begin d).0) [
        | inl (u, done) ↦
            rw (done, save_all)
              (over same_table (ap (all_saved now links) (opens done))
                (save_all-AllOrNothing links (gorm.begin d).1 has_ids))
        | inr (e, failed) ↦ rw failed (inr (e, refl, same_table))
      ]

  save_all-GormAnswers :
      (links : List ShortLink) (d : D) → GormAnswers gorm → (save_all gorm now links d).0 ≡ ok tt
  unfolding save_all
  save_all-GormAnswers [] d answers = answers.commit_ok d
  save_all-GormAnswers (link ∷ links) d answers =
      rw (answers.tx_save_ok (written now link) d, save_all)
        (save_all-GormAnswers links (gorm.tx_save (written now link) d).1 answers)

  -- Where no call fails, every link is written.
  pub updates_succeed :
      (links : List ShortLink) (d : D)
      → GormAnswers gorm
      → All (λ l. 0 < l.id) links
      → ((updates gorm now links d).0 ≡ ok tt)
        × (laws.committed (updates gorm now links d).1 ≡ all_saved now links (laws.committed d))
  unfolding updates
  updates_succeed links d answers has_ids =
      let done : (updates gorm now links d).0 ≡ ok tt =
        rw (answers.begin_ok d) (save_all-GormAnswers links (gorm.begin d).1 answers) in
      elim (updates-AllOrNothing links d has_ids) [
        | inl all ↦ all
        | inr (e, failed, shows) ↦ ground (arith, done, failed)
      ]
