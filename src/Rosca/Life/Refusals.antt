-- ===== src/Rosca/Life/Refusals.antt =====
-- The calls that a circle refuses in the other parts of its life.
use dotcircles.Prelude.{none, true, ℕ, ◌≡◌}
use dotcircles.Rosca.Active.{contribute_to_rosca, manually_end_rosca}
use dotcircles.Rosca.Effects.Returns.{Returns, of_check, of_read, of_signer}
use dotcircles.Rosca.Start.{start_rosca}
use dotcircles.Rosca.Storage.{Runtime, State}

module _ (rt : Runtime) (rosca_id : ℕ) (origin : rt.Origin) (s : State rt.Ledger) where
  -- Where the circle is not active, no contribution returns.
  pub contribute_to_rosca-inactive :
      s.active_roscas rosca_id ≡ none
      → Returns true s (contribute_to_rosca rt rosca_id origin) (λ _ _. ⊥)
  unfolding contribute_to_rosca
  contribute_to_rosca-inactive inactive = of_signer _ _ λ signer e.
      of_check _ _ _ _ λ member. of_check _ _ _ _ λ running. of_read _ _ _ λ rosca er. absurd cc

  pub manually_end_rosca-inactive :
      s.active_roscas rosca_id ≡ none
      → Returns true s (manually_end_rosca rt rosca_id origin) (λ _ _. ⊥)
  unfolding manually_end_rosca
  manually_end_rosca-inactive inactive =
      of_signer _ _ λ signer e. of_read _ _ _ λ rosca er. absurd cc

  -- Where the circle is not pending, no start returns.
  pub start_rosca-not_pending :
      s.pending_rosca_details rosca_id ≡ none
      → Returns true s (start_rosca rt origin rosca_id) (λ _ _. ⊥)
  unfolding start_rosca
  start_rosca-not_pending gone = of_signer _ _ λ signer e.
      of_check _ _ _ _ λ inactive. of_read _ _ _ λ place ep. of_read _ _ _ λ rosca er. absurd cc
