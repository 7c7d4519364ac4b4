-- ===== src/Rosca/Life/Schedule.antt =====
-- A started circle keeps to the rounds that its start has announced.
use dotcircles.Prelude.{List, [], inl, inr, map, none, ℕ, ◌≡◌, ◌⊎◌}
use dotcircles.Rosca.Life.{
  Step, Steps, adds, claims, contributes, ends, goes_on, joins, leaves, passes, starts, stays,
}
use dotcircles.Rosca.Active.{contribute_to_rosca, manually_end_rosca}
use dotcircles.Rosca.Active.Paying.{contribute_to_rosca-Returns}
use dotcircles.Rosca.Active.WindUp.{manually_end_rosca-IsOver}
use dotcircles.Rosca.Effects.{ok}
use dotcircles.Rosca.Life.Frames.{
  Touched, Touched-IsActive, Touched-IsOpen, Touched-IsOver, add_to_security_deposit-Touched,
  claim_security_deposit-Touched, passes-Touched,
}
use dotcircles.Rosca.Life.Refusals.{
  contribute_to_rosca-inactive, manually_end_rosca-inactive, start_rosca-not_pending,
}
use dotcircles.Rosca.Pending.Invariant.{IsPending}
use dotcircles.Rosca.Pending.Join.{join_rosca-Joined}
use dotcircles.Rosca.Pending.Leave.{leave_rosca-Left}
use dotcircles.Rosca.Rounds.Agenda.{IsSuffix, IsSuffix-trans, agenda_of}
use dotcircles.Rosca.Rounds.Invariant.{Clears, IsActive, IsOpen, IsOver}
use dotcircles.Rosca.Start.{start_rosca}
use dotcircles.Rosca.Start.Calling.{Told, start_rosca-IsAsAnnounced}
use dotcircles.Rosca.Start.Schedule.{turn_of}
use dotcircles.Rosca.Start.Starting.{IsUnplayed}
use dotcircles.Rosca.Storage.{Runtime, State}
use dotcircles.Rosca.Types.{RoundInfo}

-- A circle that is over, or runs in an open round with the last ones of the rounds in `turns` before
-- it: what a client that knows the announced rounds expects to see.
abbrev pub Follows : {L : Type 0} → ℕ → List (ℕ × ℕ) → State L → Type 0
Follows rosca_id turns s =
    IsOver rosca_id s ⊎ ((w : IsActive rosca_id s) × IsOpen w × IsSuffix (agenda_of w) turns)

module _ (rt : Runtime) (clears : Clears rt) (rosca_id : ℕ) (turns : List (ℕ × ℕ)) where
  Follows-gone :
      (s : State rt.Ledger) → Follows rosca_id turns s → s.pending_rosca_details rosca_id ≡ none
  Follows-gone s (inl o) = o.gone
  Follows-gone s (inr (w, op, later)) = w.gone

  Touched-Follows :
      {s s' : State rt.Ledger} → Touched s s' → Follows rosca_id turns s → Follows rosca_id turns s'
  unfolding Touched-IsActive
  Touched-Follows t (inl o) = inl (Touched-IsOver t o)
  Touched-Follows t (inr (w, op, later)) = inr (Touched-IsActive t w, Touched-IsOpen t w op, later)

  contributes-Follows :
      (origin : rt.Origin) (s s' : State rt.Ledger)
      → contribute_to_rosca rt rosca_id origin s ≡ (ok tt, s')
      → Follows rosca_id turns s
      → Follows rosca_id turns s'
  contributes-Follows origin s s' h (inl o) =
      absurd ((contribute_to_rosca-inactive rt rosca_id origin s o.closed).at tt s' h)
  contributes-Follows origin s s' h (inr (w, op, later)) =
      elim ((contribute_to_rosca-Returns rt clears rosca_id origin s w op).at tt s' h) [
        | inl over ↦ inl over
        | inr (w', op', left) ↦ inr (w', op', IsSuffix-trans _ _ _ left later)
      ]

  ends-Follows :
      (origin : rt.Origin) (s s' : State rt.Ledger)
      → manually_end_rosca rt rosca_id origin s ≡ (ok tt, s')
      → Follows rosca_id turns s
      → Follows rosca_id turns s'
  ends-Follows origin s s' h (inl o) =
      absurd ((manually_end_rosca-inactive rt rosca_id origin s o.closed).at tt s' h)
  ends-Follows origin s s' h (inr (w, op, later)) =
      inl (manually_end_rosca-IsOver rt clears rosca_id origin s s' w h)

  pub Step-Follows :
      {s s' : State rt.Ledger}
      → Step rt rosca_id s s'
      → Follows rosca_id turns s
      → Follows rosca_id turns s'
  Step-Follows {s = s} {s' = s'} (joins origin position h) v =
      let j = join_rosca-Joined rt origin rosca_id position s s' h in
      absurd cc (j.pending, Follows-gone s v)
  Step-Follows {s = s} {s' = s'} (leaves origin h) v =
      let f = leave_rosca-Left rt origin rosca_id s s' h in absurd cc (f.pending, Follows-gone s v)
  Step-Follows {s = s} {s' = s'} (starts origin h) v =
      absurd ((start_rosca-not_pending rt rosca_id origin s (Follows-gone s v)).at tt s' h)
  Step-Follows {s = s} {s' = s'} (contributes origin h) v = contributes-Follows origin s s' h v
  Step-Follows {s = s} {s' = s'} (ends origin h) v = ends-Follows origin s s' h v
  Step-Follows {s = s} {s' = s'} (adds origin amount h) v =
      Touched-Follows ((add_to_security_deposit-Touched rt rosca_id origin s amount).at tt s' h) v
  Step-Follows {s = s} {s' = s'} (claims origin asset h) v =
      Touched-Follows ((claim_security_deposit-Touched rt rosca_id origin s asset).at tt s' h) v
  Step-Follows {s = s} (passes time block l) v = Touched-Follows (passes-Touched time block l s) v

  pub Steps-Follows :
      {s s' : State rt.Ledger}
      → Steps rt rosca_id s s'
      → Follows rosca_id turns s
      → Follows rosca_id turns s'
  Steps-Follows stays v = v
  Steps-Follows (goes_on steps step) v = Step-Follows step (Steps-Follows steps v)

module _ (rt : Runtime) (clears : Clears rt) (origin : rt.Origin) (bound rosca_id : ℕ)
    (s s₁ s' : State rt.Ledger) where
  -- Where `clear_prefix` removes all keys that its limit covers: a call of start that returns, on a
  -- circle that has its invariant and of which no round has been played, puts an event before the
  -- others that announces rounds, and in every state that steps of the circle lead to from there,
  -- the circle is over, or runs in an open round where the recipients and the cutoffs of the rounds
  -- that are left are the last ones of those announced, in their order.
  pub Steps-keep_announced :
      IsPending bound rosca_id s
      → IsUnplayed rosca_id s
      → start_rosca rt origin rosca_id s ≡ (ok tt, s₁)
      → Steps rt rosca_id s₁ s'
      → (rounds : List RoundInfo) × Told rosca_id rounds s s₁
        × Follows rosca_id (map turn_of rounds) s'
  Steps-keep_announced v u h steps =
      let (rounds, (w, op, turns, told)) =
        start_rosca-IsAsAnnounced rt origin bound rosca_id s s₁ v u h in
      (
        rounds,
        told,
        Steps-Follows rt clears rosca_id (map turn_of rounds) steps (inr (w, op, ([], turns))),
      )
