-- ===== src/Rosca/Start/Calling.antt =====
-- The whole call of `start_rosca` on a circle that has not started.
use dotcircles.Prelude.{
  Bool, List, SameItems, arith, if◌then◌else◌, init, inl, last?, length, map, of_some, refl,
  reverse, some, subst, sym, true, ℕ, ◌*◌, ◌+◌, ◌-◌, ◌∙◌, ◌∷◌, ◌≡◌, ◌≢◌,
}
use dotcircles.Rosca.Start.{compact, shuffle_participants, start_rosca}
use dotcircles.Rosca.Effects.{ok, panic, pure}
use dotcircles.Rosca.Effects.Returns.{
  Returns, last_event, of_bind, of_check, of_ensure, of_gets, of_if, of_index, of_modify, of_ok_or,
  of_pure, of_read, of_signer,
}
use dotcircles.Rosca.Pending.Invariant.{IsPending}
use dotcircles.Rosca.Pending.Seats.{filled}
use dotcircles.Rosca.Rounds.Advance.{try_rotate_right_lem}
use dotcircles.Rosca.Rounds.Agenda.{agenda_of}
use dotcircles.Rosca.Rounds.Invariant.{IsActive, IsOpen}
use dotcircles.Rosca.Start.Announced.{IsAnnounced, generate_rounds-Returns, recipient_of}
use dotcircles.Rosca.Start.Cutoffs.{extend_cutoff-Returns}
use dotcircles.Rosca.Start.Placing.{shuffle_participants-Returns}
use dotcircles.Rosca.Start.Schedule.{turn_of}
use dotcircles.Rosca.Start.Starting.{
  IsUnplayed, agenda_of-begun, begun, begun-IsActive, last?-of_count, order-count,
}
use dotcircles.Rosca.Storage.{Runtime, State}
use dotcircles.Rosca.Types.{RoundInfo, rosca_started}

-- A running circle, in an open round.
abbrev pub IsBegun : {L : Type 0} → ℕ → State L → Type 0
IsBegun rosca_id s' = (w : IsActive rosca_id s') × IsOpen w

-- From `s` to `s'` an event has been added that announces the rounds.
abbrev pub Told : {L : Type 0} → ℕ → List RoundInfo → State L → State L → Type 0
Told rosca_id rounds s s' =
    (signer : ℕ) × (first : ℕ) × (next : ℕ) × (s'.events
      ≡ rosca_started rosca_id signer rounds first next ∷ s.events)

-- A circle that has been started in the state `s`: its event tells the rounds that it has left.
abbrev pub IsAsAnnounced : {L : Type 0} → ℕ → State L → State L → List RoundInfo → Type 0
IsAsAnnounced rosca_id s s' rounds =
    (w : IsActive rosca_id s') × IsOpen w
    × (agenda_of w ≡ map turn_of rounds)
    × Told rosca_id rounds s s'

module _ (rt : Runtime) (bound rosca_id : ℕ) (s : State rt.Ledger) (v : IsPending bound rosca_id s)
    (u : IsUnplayed rosca_id s) where
  abbrev Announces : State rt.Ledger → Type 0
  Announces s' = (rounds : List RoundInfo) × IsAsAnnounced rosca_id s s' rounds

  order-Returns :
      (random : Bool) (filtered : List ℕ)
      → Returns true s
          (if random then shuffle_participants rt filtered else pure filtered)
          (λ order s'. (s' ≡ s) × SameItems order filtered × (length order ≡ length filtered))
  order-Returns random filtered =
      of_if random _ _ (λ _. shuffle_participants-Returns rt filtered s)
        (λ _. of_pure filtered (refl, (λ a. refl), refl))

  pub start_rosca-Returns :
      (origin : rt.Origin) → Returns true s (start_rosca rt origin rosca_id) (λ _ s'. Announces s')
  unfolding start_rosca
  start_rosca-Returns origin = of_signer _ _ λ signer e. of_check _ _ _ _ λ inactive.
      of_read _ _ _ λ place ep. of_read _ _ _ λ rosca er. of_read _ _ _ λ pending eo. of_gets _ _ (
        of_ensure _ _ _ λ in_time. of_read _ _ _ λ n en. of_ensure _ _ _ λ enough.
          of_ensure _ _ _ λ fits.
            let rosca' : rosca ≡ v.details = ground (arith, v.found, er) in
            let pending' : pending ≡ v.order = ground (arith, v.ordered, eo) in
            let n' : n ≡ filled v.order = ground (arith, v.counted, en) in
            rw (rosca', pending', n')
              (of_bind _ _ _ (order-Returns v.details.random_order (compact (reverse v.order)))
                λ order s₁ (same, items, size). rw same (
                  of_bind _ _ _ (generate_rounds-Returns rt order s.now _ s)
                    λ rounds s₂ (same', names, announced). rw same' (
                      of_index _ _
                        (λ b.
                          last?-of_count order signer
                            (order-count bound rosca_id s v order items signer (ground arith)))
                        λ first ef. of_modify _ _ (
                          of_ok_or _ _ _ λ turned erot. of_modify _ _ (
                            of_ok_or _ _ _ λ next enext.
                              of_bind _ _ _ (extend_cutoff-Returns rt _ _ next _)
                                λ final s₃ (same₃, sum). rw same₃ (
                                  of_modify _ _ (
                                    last_event _ (
                                      begins signer order items size rounds first ef next final sum
                                        names announced (ground (arith, enext)) turned
                                        (of_some
                                          (sym erot ∙ try_rotate_right_lem order first ef)))))))))))
    where
      begins :
          (signer : ℕ) (order : List ℕ) (items : SameItems order (compact (reverse v.order)))
          → length order ≡ length (compact (reverse v.order))
          → (rounds : List RoundInfo) (first : ℕ) → last? order ≡ some first
          → (next final : ℕ)
          → next + (filled v.order - 1) * v.details.contribution_frequency ≡ final
          → map recipient_of rounds ≡ reverse order
          → IsAnnounced order s.now v.details.contribution_frequency rounds
          → next ≡ s.now + v.details.contribution_frequency
          → (turned : List ℕ) → turned ≡ first ∷ init order
          → Announces (begun rosca_id signer v.details rounds first turned next final s)
      begins signer order items size rounds first ef next final sum names announced at turned erot =
          subst (λ o. Announces (begun rosca_id signer v.details rounds first o next final s))
            (sym erot)
            (
              rounds,
              (
                begun-IsActive bound rosca_id s v order items size u first signer next final rounds
                    ef sum,
                inl (ground (arith, u.contributors)),
                agenda_of-begun bound rosca_id s v order items size u first signer next final rounds
                    ef sum s.now at names announced,
                (signer, first, next, refl),
              ),
            )

module _ (rt : Runtime) (origin : rt.Origin) (bound rosca_id : ℕ) (s s' : State rt.Ledger) where
  -- Starting a circle that has its invariant and of which no round has been played, if the call
  -- returns, leaves the circle running in an open round with the invariant of a running circle,
  -- whether the order is shuffled or not.
  pub start_rosca-IsBegun :
      IsPending bound rosca_id s
      → IsUnplayed rosca_id s
      → start_rosca rt origin rosca_id s ≡ (ok tt, s')
      → IsBegun rosca_id s'
  start_rosca-IsBegun v u h =
      let (rounds, (w, op, turns, told)) =
        (start_rosca-Returns rt bound rosca_id s v u origin).at tt s' h in
      (w, op)

  -- Starting a circle that has its invariant and of which no round has been played, if the call
  -- returns, puts an event before the others that announces rounds, and leaves the circle running in
  -- an open round, where the recipients and the cutoffs of the rounds that it has left are those of
  -- the rounds announced, in their order.
  pub start_rosca-IsAsAnnounced :
      IsPending bound rosca_id s
      → IsUnplayed rosca_id s
      → start_rosca rt origin rosca_id s ≡ (ok tt, s')
      → (rounds : List RoundInfo) × IsAsAnnounced rosca_id s s' rounds
  start_rosca-IsAsAnnounced v u h = (start_rosca-Returns rt bound rosca_id s v u origin).at tt s' h

  -- On a circle that has the invariant of those not started, and of which no round has been played,
  -- a call of start does not panic: the order is not empty when its last account is taken.
  pub start_rosca_calm :
      IsPending bound rosca_id s
      → IsUnplayed rosca_id s
      → start_rosca rt origin rosca_id s ≢ (panic, s')
  start_rosca_calm v u = (start_rosca-Returns rt bound rosca_id s v u origin).calm s' refl
