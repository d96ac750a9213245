-- ===== src/Service/Rebuild.antt =====
-- cores/service.go: `RebuildCodePool` and its two helpers.
pub mod Loops
pub mod Pages
pub mod Codes
use vshortlink.Prelude.{
  ℕ, zero, suc, ◌+◌, ◌*◌, ◌||◌, Bool, true, Option, none, some, List, [], ◌∷◌, Text, if◌then◌else◌,
  Result, ok, err, Error, Exec, panicked, invalid_length, out_of_fuel, ◌>>=◌, ◌>>◌, pure, throw,
}
use vshortlink.Prelude.Int.{ℤ, pos, pos_part, ltb_ℤ}
use vshortlink.Base62.{to_base62}
use vshortlink.Link.{Time, ShortLink, link_status_active, link_status_expired}
use vshortlink.Interfaces.{ShortLinkRepository, ShortCodePool}
use vshortlink.Service.State.{Config, State, on_repo, on_pool, minute}
use vshortlink.Service.Generate.{numbers_at, unlocking}
use vshortlink.Service.Expire.{last_id}

-- `continue` after an error that a call returned; a panic goes on up.
after_error : Error → Result ℕ
after_error panicked = err panicked
after_error e = ok 0

unfoldable pub tolerate : Result ℕ → Result ℕ
unfolding after_error
tolerate (ok n) = ok n
tolerate (err e) = after_error e

abbrev pub one_if_ok : Result (Unit {0}) → ℕ
one_if_ok (ok u) = 1
one_if_ok (err e) = 0

-- The call in the loop of step 5, whose error is logged.
abbrev pub tolerant : {S : Type 0} → Exec S ℕ → Exec S ℕ
tolerant m s = let (r, s') = m s in (tolerate r, s')

module _ {R C P T L : Type 0} (repo : ShortLinkRepository R) (pool : ShortCodePool P) where
  -- The loop of `regenerateBatchAtIndex`: a code that cannot be added is passed over.
  unfoldable pub add_numbers : Time → ℕ → List ℤ → ℕ → Exec (State R C P T L) ℕ
  add_numbers now length' [] added_count s = (ok added_count, s)
  add_numbers now length' (number ∷ numbers) added_count s =
      let (r, s') = on_pool (pool.add now length' (to_base62 number length')) s in
      add_numbers now length' numbers (added_count + one_if_ok r) s'

  unfoldable pub regenerate_batch_at_index : Time → ℕ → ℤ → Exec (State R C P T L) ℕ
  unfolding numbers_at add_numbers
  regenerate_batch_at_index now length' start_index = do
    batch_numbers ← numbers_at length' start_index
    add_numbers now length' batch_numbers 0

  -- Step 5: the start indices from `start_index` on, `rounds` of them.
  unfoldable pub regenerate_all : Time → ℕ → ℕ → ℕ → ℕ → Exec (State R C P T L) ℕ
  unfolding regenerate_batch_at_index tolerate
  regenerate_all now length' zero start_index total_added = pure total_added
  regenerate_all now length' (suc rounds) start_index total_added = do
    added ← tolerant (regenerate_batch_at_index now length' (pos start_index))
    regenerate_all now length' rounds (start_index + 1) (total_added + added)

  -- The inner loop of `removeUsedCodesFromPool`.
  unfoldable pub remove_codes : ℕ → List ShortLink → ℕ → Exec (State R C P T L) ℕ
  remove_codes length' [] total_removed s = (ok total_removed, s)
  remove_codes length' (link ∷ links) total_removed s =
      let (r, s') = on_pool (pool.remove length' link.code) s in
      remove_codes length' links (total_removed + one_if_ok r) s'

  unfoldable pub remove_used_codes_from_pool : ℕ → ℕ → ℕ → ℕ → Exec (State R C P T L) ℕ
  unfolding remove_codes
  remove_used_codes_from_pool zero length' from_id total_removed = throw out_of_fuel
  remove_used_codes_from_pool (suc fuel) length' from_id total_removed = do
    links ← on_repo (
        repo.list (pos length') (link_status_active ∷ link_status_expired ∷ []) 1000 (pos from_id)
          true)
    elim links [
      | [] ↦ pure total_removed
      | link ∷ rest ↦ do
        removed ← remove_codes length' (link ∷ rest) total_removed
        remove_used_codes_from_pool fuel length' (last_id link rest) removed
    ]

  rebuild_locked : ℕ → Time → ℕ → Exec (State R C P T L) (Unit {0})
  unfolding regenerate_all remove_used_codes_from_pool
  rebuild_locked fuel now length' = do
    on_pool (pool.clear length')
    current_start_index ← on_repo (repo.get_start_index length')
    regenerate_all now length' (pos_part current_start_index) 0 0
    remove_used_codes_from_pool fuel length' 0 0
    (λ s. (ok tt, (on_pool (pool.size length') s).1))

  -- `fuel` bounds the pages of used codes.
  unfoldable pub rebuild_code_pool : ℕ → Config → Time → ℤ → Exec (State R C P T L) (Unit {0})
  unfolding rebuild_locked
  rebuild_code_pool fuel c now length' =
      if ltb_ℤ length' (pos 1) || ltb_ℤ (pos c.max_code_length) length'
      then throw invalid_length
      else do
        on_pool (pool.lock now (pos_part length') (5 * minute))
        unlocking pool (pos_part length') (rebuild_locked fuel now (pos_part length'))
