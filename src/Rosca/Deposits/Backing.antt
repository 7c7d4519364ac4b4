-- ===== src/Rosca/Deposits/Backing.antt =====
-- The calls on the deposits of any circle keep those of the circle `j` covered.
use dotcircles.Prelude.{Option, ap, arith, none, or_else, some, ℕ, ◌+◌, ◌∙◌, ◌≡◌}
use dotcircles.Rosca.Backing.{Backed, Journal}
use dotcircles.Rosca.Backing.Flow.{CoveredAt-in, CoveredAt-out, Guarded}
use dotcircles.Rosca.Deposits.Exact.{Added, Claimed}
use dotcircles.Rosca.Pending.{unwrap_or}
use dotcircles.Rosca.Storage.{Runtime, State}
use dotcircles.Rosca.Types.{PaymentAssets, RoscaDetails, id}

module _ (rt : Runtime) (journal : Journal rt) (j p : ℕ) (guarded : Guarded rt j) where
  pub Claimed-Backed :
      (i : ℕ) (origin : rt.Origin) (asset : PaymentAssets) (s s' : State rt.Ledger)
      → Claimed rt i origin asset s s'
      → Backed rt journal j p s
      → Backed rt journal j p s'
  Claimed-Backed i origin asset s s' c b = rw c.left (
    b.0,
    b.1,
    b.2,
    CoveredAt-out rt journal j p guarded i c.signer (id asset) c.deposit none
        s.rosca_security_deposits s.ledger c.l b.3 c.signer c.paid (rw c.held (omega arith)),
  )

  pub Added-Backed :
      (i amount : ℕ) (origin : rt.Origin) (s s' : State rt.Ledger)
      → Added rt i origin amount s s'
      → Backed rt journal j p s
      → Backed rt journal j p s'
  Added-Backed i amount origin s s' c b = rw c.left (
    b.0,
    b.1,
    b.2,
    CoveredAt-in rt journal j p guarded i c.signer (id c.rosca.payment_asset) amount
        (some (unwrap_or (s.rosca_security_deposits i c.signer) 0 + amount))
        s.rosca_security_deposits s.ledger c.l b.3 c.signer
        (λ e. guarded.keyless origin (c.signed ∙ ap some e))
        (λ e.
          priced (s.active_roscas i) (s.pending_rosca_details i) (λ r h. b.1 r (rw (← e) h))
            (λ r h. b.2 r (rw (← e) h)) c.found)
        c.paid (omega arith),
  )
    where
      priced :
          (o o' : Option RoscaDetails)
          → ((r : RoscaDetails) → o ≡ some r → id r.payment_asset ≡ p)
          → ((r : RoscaDetails) → o' ≡ some r → id r.payment_asset ≡ p)
          → or_else o o' ≡ some c.rosca
          → id c.rosca.payment_asset ≡ p
      priced none o' f g h = g _ h
      priced (some r) o' f g h = f _ h
