-- ===== src/Rosca/Life/Frames.antt =====
-- The steps that leave a circle's own items as they are.
use dotcircles.Prelude.{DoubleMap, List, Option, insert₂, none, refl, some, true, ℕ, ◌∷◌, ◌≡◌}
use dotcircles.Rosca.Deposits.{add_to_security_deposit, claim_security_deposit}
use dotcircles.Rosca.Effects.Returns.{
  Returns, last_event, of_check, of_ensure, of_gets, of_modify, of_ok_or, of_read, of_signer,
  of_transfer,
}
use dotcircles.Rosca.Pending.Invariant.{IsPending}
use dotcircles.Rosca.Rounds.Invariant.{IsActive, IsOpen, IsOver}
use dotcircles.Rosca.Start.Starting.{IsUnplayed}
use dotcircles.Rosca.Storage.{Runtime, State}
use dotcircles.Rosca.Types.{
  Event, PaymentAssets, security_deposit_claimed, security_deposit_contribution,
}

abbrev pub touched :
    {L : Type 0}
    → L
    → DoubleMap (Option ℕ)
    → List Event
    → (now block_number : ℕ) → State L
    → State L
touched l deposits events now block_number s = record s {
  ledger = l;
  rosca_security_deposits = deposits;
  events = events;
  now = now;
  block_number = block_number;
}

-- Only the ledger, the deposits, the events, the clock and the block number differ.
pub record Touched {L : Type 0} (s s' : State L) : Type 0 where
  pub l : L
  pub deposits : DoubleMap (Option ℕ)
  pub logged : List Event
  pub time : ℕ
  pub block : ℕ
  pub same : s' ≡ touched l deposits logged time block s

-- Time passes.
pub passes-Touched :
    {L : Type 0} (time block : ℕ) (l : L) (s : State L)
    → Touched s (record s { now = time; block_number = block; ledger = l })
passes-Touched time block l s = record {
  l = l;
  deposits = s.rosca_security_deposits;
  logged = s.events;
  time = time;
  block = block;
  same = refl;
}

module _ {L : Type 0} {rosca_id : ℕ} {s s' : State L} (t : Touched s s') where
  pub Touched-IsPending : {bound : ℕ} → IsPending bound rosca_id s → IsPending bound rosca_id s'
  Touched-IsPending v = rw t.same (record {
    details = v.details;
    order = v.order;
    inactive = v.inactive;
    found = v.found;
    ordered = v.ordered;
    counted = v.counted;
    sized = v.sized;
    fits = v.fits;
    positive = v.positive;
    pays = v.pays;
    threshold = v.threshold;
    seat = v.seat;
    taken = v.taken;
    invited = v.invited;
  })

  pub Touched-IsUnplayed : IsUnplayed rosca_id s → IsUnplayed rosca_id s'
  Touched-IsUnplayed u = rw t.same (record {
    running = u.running;
    contributors = u.contributors;
    contributions = u.contributions;
  })

  pub Touched-IsOver : IsOver rosca_id s → IsOver rosca_id s'
  Touched-IsOver o =
      rw t.same (record { closed = o.closed; completed = o.completed; gone = o.gone })

  unfoldable pub Touched-IsActive : IsActive rosca_id s → IsActive rosca_id s'
  Touched-IsActive v = record {
    details = v.details;
    claimant = v.claimant;
    rest = v.rest;
    next = v.next;
    final = v.final;
    left = v.left;
    active = rw t.same v.active;
    running = rw t.same v.running;
    gone = rw t.same v.gone;
    eligible = rw t.same v.eligible;
    ordered = rw t.same v.ordered;
    distinct = v.distinct;
    next_at = rw t.same v.next_at;
    final_at = rw t.same v.final_at;
    positive = v.positive;
    pays = v.pays;
    rounds = v.rounds;
    few = v.few;
    counted = rw t.same v.counted;
    bounded = rw t.same v.bounded;
    members = rw t.same v.members;
  }

  pub Touched-IsOpen : (v : IsActive rosca_id s) → IsOpen v → IsOpen (Touched-IsActive v)
  unfolding Touched-IsActive
  Touched-IsOpen v op = rw t.same op

module _ (rt : Runtime) (rosca_id : ℕ) (origin : rt.Origin) (s : State rt.Ledger) where
  pub claim_security_deposit-Touched :
      (asset : PaymentAssets)
      → Returns true s (claim_security_deposit rt rosca_id origin asset) (λ _ s'. Touched s s')
  unfolding claim_security_deposit
  claim_security_deposit-Touched asset = of_signer _ _ λ signer e. of_gets _ _ (
      of_read _ _ _ λ final ef. of_ensure _ _ _ λ late. of_gets _ _ (
        of_ensure _ _ _ λ over. of_read _ _ _ λ deposit ed. of_ensure _ _ _ λ some_held.
          of_transfer rt _ _ _ _ _ λ l paid. of_modify _ _ (
            last_event _ (record {
              l = l;
              deposits = insert₂ s.rosca_security_deposits rosca_id signer none;
              logged = security_deposit_claimed rosca_id signer deposit ∷ s.events;
              time = s.now;
              block = s.block_number;
              same = refl;
            }))))

  pub add_to_security_deposit-Touched :
      (amount : ℕ)
      → Returns true s (add_to_security_deposit rt rosca_id origin amount) (λ _ s'. Touched s s')
  unfolding add_to_security_deposit
  add_to_security_deposit-Touched amount = of_signer _ _ λ signer e. of_check _ _ _ _ λ member.
      of_check _ _ _ _ λ running. of_read _ _ _ λ rosca er. of_transfer rt _ _ _ _ _ λ l paid.
        of_gets _ _ (
          of_ok_or _ _ _ λ more em. of_modify _ _ (
            last_event _ (record {
              l = l;
              deposits = insert₂ s.rosca_security_deposits rosca_id signer (some more);
              logged = security_deposit_contribution rosca_id signer amount ∷ s.events;
              time = s.now;
              block = s.block_number;
              same = refl;
            })))
