-- ===== src/Governance/Tracks.antt =====
-- The origins that open a track, and the track that they open.
use dotcircles.Prelude.{
  Option, arith, if◌then◌else◌, none, of_some, refl, some, sym, ℕ, ◌==◌, ◌∙◌, ◌≡◌, ◌≤◌,
}
use dotcircles.Governance.{
  PalletsOrigin, TrackInfo, big_spender, big_tipper, governance, info, medium_spender, not_root,
  other, referendum_canceller, referendum_killer, root, small_spender, small_tipper, track_for,
  tracks, treasurer, whitelisted_caller,
}

abbrev track_of : Option ℕ → Option TrackInfo
track_of none = none
track_of (some i) = info tracks i

-- The origin of a track, from its id.
abbrev origin_of : ℕ → PalletsOrigin
origin_of i =
    if i == 0
    then root
    else if i == 1
    then governance whitelisted_caller
    else if i == 11
    then governance treasurer
    else if i == 20
    then governance referendum_canceller
    else if i == 21
    then governance referendum_killer
    else if i == 30
    then governance small_tipper
    else if i == 31
    then governance big_tipper
    else if i == 32
    then governance small_spender
    else if i == 33
    then governance medium_spender
    else governance big_spender

origin_of_lem : (o : PalletsOrigin) (i : ℕ) → track_for o ≡ some i → origin_of i ≡ o
unfolding track_for
origin_of_lem root i h = rw (← of_some h) refl
origin_of_lem not_root i h = cc
origin_of_lem other i h = cc
origin_of_lem (governance treasurer) i h = rw (← of_some h) refl
origin_of_lem (governance referendum_canceller) i h = rw (← of_some h) refl
origin_of_lem (governance referendum_killer) i h = rw (← of_some h) refl
origin_of_lem (governance small_tipper) i h = rw (← of_some h) refl
origin_of_lem (governance big_tipper) i h = rw (← of_some h) refl
origin_of_lem (governance small_spender) i h = rw (← of_some h) refl
origin_of_lem (governance medium_spender) i h = rw (← of_some h) refl
origin_of_lem (governance big_spender) i h = rw (← of_some h) refl
origin_of_lem (governance whitelisted_caller) i h = rw (← of_some h) refl

-- Two origins that `track_for` answers with the same id are the same.
track_for_injective :
    (o o' : PalletsOrigin) (i : ℕ) → track_for o ≡ some i → track_for o' ≡ some i → o ≡ o'
track_for_injective o o' i h h' = sym (origin_of_lem o i h) ∙ origin_of_lem o' i h'

-- Every id that `track_for` answers stands in the table of tracks, with a confirmation period that
-- is no longer than the decision period.
track_for-info :
    (o : PalletsOrigin) (i : ℕ)
    → track_for o ≡ some i
    → (t : TrackInfo) × (info tracks i ≡ some t) × (t.confirm_period ≤ t.decision_period)
unfolding track_for tracks
track_for-info root i h = rw (← of_some h) (_, refl, omega arith)
track_for-info not_root i h = absurd cc
track_for-info other i h = absurd cc
track_for-info (governance treasurer) i h = rw (← of_some h) (_, refl, omega arith)
track_for-info (governance referendum_canceller) i h = rw (← of_some h) (_, refl, omega arith)
track_for-info (governance referendum_killer) i h = rw (← of_some h) (_, refl, omega arith)
track_for-info (governance small_tipper) i h = rw (← of_some h) (_, refl, omega arith)
track_for-info (governance big_tipper) i h = rw (← of_some h) (_, refl, omega arith)
track_for-info (governance small_spender) i h = rw (← of_some h) (_, refl, omega arith)
track_for-info (governance medium_spender) i h = rw (← of_some h) (_, refl, omega arith)
track_for-info (governance big_spender) i h = rw (← of_some h) (_, refl, omega arith)
track_for-info (governance whitelisted_caller) i h = rw (← of_some h) (_, refl, omega arith)
