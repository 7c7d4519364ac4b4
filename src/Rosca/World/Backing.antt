-- ===== src/Rosca/World/Backing.antt =====
-- No creation and no step on any circle leaves a deposit of the circle `j` uncovered.
use dotcircles.Prelude.{
  Distinct, List, Map, Option, [], arith, none, refl, suc, u32_mod, zero, ℕ, ◌+◌, ◌<◌, ◌∷◌, ◌≡◌,
  ◌≢◌, ◌≤◌,
}
use dotcircles.Rosca.World.{IsBlank, Moves, acts, creates, moves_on, rests}
use dotcircles.Rosca.Active.Backing.{contribute_to_rosca-Backed, manually_end_rosca-Backed}
use dotcircles.Rosca.Backing.{Backed, Covered-weaken, Journal, banked, drawn, total}
use dotcircles.Rosca.Backing.Flow.{CoveredAt-out, Guarded}
use dotcircles.Rosca.Deposits.Backing.{Added-Backed, Claimed-Backed}
use dotcircles.Rosca.Deposits.Exact.{add_to_security_deposit_lem, claim_security_deposit_lem}
use dotcircles.Rosca.Effects.{ok}
use dotcircles.Rosca.Effects.Kept.{kept_to}
use dotcircles.Rosca.Life.{Step, adds, claims, contributes, ends, joins, leaves, passes, starts}
use dotcircles.Rosca.Pending.Create.{Request, create, create_rosca-Returns}
use dotcircles.Rosca.Pending.Join.{join_rosca-Joined}
use dotcircles.Rosca.Pending.Leave.{Refunded, leave_rosca-Left}
use dotcircles.Rosca.Rounds.Owing.{held}
use dotcircles.Rosca.Start.Backing.{start_rosca-Backed}
use dotcircles.Rosca.Storage.{Runtime, State}
use dotcircles.Rosca.Types.{PaymentAssets, id}
use dotcircles.Rosca.World.Others.{create_rosca-SameAt, next_rosca_id-create_rosca}
use native.Mathlib.Nat.{mod-eq_of_lt}

module _ (rt : Runtime) (journal : Journal rt) (j p : ℕ) where
  -- While time passes, others do not draw on the account of the circle.
  abbrev pub Spared : rt.Ledger → rt.Ledger → Type 0
  Spared l l' =
      (drawn p (rt.sub_account j) (journal.entries l')
        ≤ drawn p (rt.sub_account j) (journal.entries l))
      × (banked p (rt.sub_account j) (journal.entries l)
          ≤ banked p (rt.sub_account j) (journal.entries l'))

  abbrev pub SparedStep : (i : ℕ) {s s' : State rt.Ledger} → Step rt i s s' → Type 0
  SparedStep i (passes time block l {s = s}) = Spared s.ledger l
  SparedStep i _ = Unit {0}

  abbrev pub SparedMoves : {s s' : State rt.Ledger} → Moves rt s s' → Type 0
  SparedMoves rests = Unit {0}
  SparedMoves (moves_on ms (creates origin r position fits h)) = SparedMoves ms
  SparedMoves (moves_on ms (acts i st)) = SparedMoves ms × SparedStep i st

  module _ (guarded : Guarded rt j) where
    Refunded-Backed :
        (i signer d : ℕ) (asset : PaymentAssets) (s s' : State rt.Ledger)
        → d ≤ held i s signer
        → Refunded rt i signer asset d s s'
        → Backed rt journal j p s
        → Backed rt journal j p s'
    Refunded-Backed i signer zero asset s s' le e b = rw e b
    Refunded-Backed i signer (suc d) asset s s' le (l, h, e) b = rw e (
      b.0,
      b.1,
      b.2,
      CoveredAt-out rt journal j p guarded i signer (id asset) (suc d) none
          s.rosca_security_deposits s.ledger l b.3 signer h (omega (arith, le)),
    )

    -- Each step, on this circle or another.
    pub Step-Backed :
        (i : ℕ) {s s' : State rt.Ledger} (st : Step rt i s s')
        → SparedStep i st
        → Backed rt journal j p s
        → Backed rt journal j p s'
    Step-Backed i {s = s} {s' = s'} (joins origin position h) q b =
        rw (join_rosca-Joined rt origin i position s s' h).left b
    Step-Backed i {s = s} {s' = s'} (leaves origin h) q b =
        let f = leave_rosca-Left rt origin i s s' h in
        rw f.left
          (Refunded-Backed i f.signer _ f.rosca.payment_asset _ f.paid (omega arith) f.refunded b)
    Step-Backed i {s = s} {s' = s'} (starts origin h) q b =
        kept_to (Backed rt journal j p) _ s s' (ok tt) (start_rosca-Backed rt journal j p i origin)
          h b
    Step-Backed i {s = s} {s' = s'} (contributes origin h) q b =
        kept_to (Backed rt journal j p) _ s s' (ok tt)
          (contribute_to_rosca-Backed rt journal j p guarded i origin) h b
    Step-Backed i {s = s} {s' = s'} (ends origin h) q b =
        kept_to (Backed rt journal j p) _ s s' (ok tt)
          (manually_end_rosca-Backed rt journal j p guarded i origin) h b
    Step-Backed i {s = s} {s' = s'} (adds origin amount h) q b =
        Added-Backed rt journal j p guarded i amount origin s s'
          ((add_to_security_deposit_lem rt i origin s amount s').0 h) b
    Step-Backed i {s = s} {s' = s'} (claims origin asset h) q b =
        Claimed-Backed rt journal j p guarded i origin asset s s'
          ((claim_security_deposit_lem rt i origin s asset s').0 h) b
    Step-Backed i {s = s} (passes time block l) q b =
        (b.0, b.1, b.2, Covered-weaken (s.rosca_security_deposits j) _ _ _ _ b.3 q.0 q.1)

    creates-Backed :
        (origin : rt.Origin) (r : Request) (position : Option ℕ) (s s' : State rt.Ledger)
        → s.next_rosca_id + 1 < u32_mod
        → create rt origin r position s ≡ (ok tt, s')
        → Backed rt journal j p s
        → Backed rt journal j p s'
    creates-Backed origin r position s s' fits h b =
        let n = next_rosca_id-create_rosca rt origin r position s s' h fits in
        let ne : j ≢ s.next_rosca_id = λ e. omega (arith, e, b.0) in
        let c = (create_rosca-Returns rt origin r position s).at tt s' h in
        let same = create_rosca-SameAt rt origin r position s s' h j ne in
        rw c.left (
          omega (arith, b.0, fits, mod-eq_of_lt fits),
          b.1,
          λ d e. b.2 d (ground (arith, e, ne)),
          b.3,
        )

    -- Calls on all circles, in any order.
    pub Moves-Backed :
        {s s' : State rt.Ledger} (ms : Moves rt s s')
        → SparedMoves ms
        → Backed rt journal j p s
        → Backed rt journal j p s'
    Moves-Backed rests q b = b
    Moves-Backed (moves_on {s₁ = s₁} {s' = s'} ms (creates origin r position fits h)) q b =
        creates-Backed origin r position s₁ s' fits h (Moves-Backed ms q b)
    Moves-Backed (moves_on ms (acts i st)) q b = Step-Backed i st q.1 (Moves-Backed ms q.0 b)

-- A circle that has just been created.
pub create_rosca-Backed :
    (rt : Runtime) (journal : Journal rt) (origin : rt.Origin) (r : Request) (position : Option ℕ)
    (s s' : State rt.Ledger)
    → s.next_rosca_id + 1 < u32_mod
    → IsBlank s.next_rosca_id s
    → ((a : ℕ) → s.rosca_security_deposits s.next_rosca_id a ≡ none)
    → drawn (id r.asset) (rt.sub_account s.next_rosca_id) (journal.entries s.ledger)
      ≤ banked (id r.asset) (rt.sub_account s.next_rosca_id) (journal.entries s.ledger)
    → create rt origin r position s ≡ (ok tt, s')
    → Backed rt journal s.next_rosca_id (id r.asset) s'
create_rosca-Backed rt journal origin r position s s' fits blank empty sound h =
    let c = (create_rosca-Returns rt origin r position s).at tt s' h in
    rw c.left (
      omega (arith, fits, mod-eq_of_lt fits),
      λ d e. absurd (ground (arith, blank.inactive, e)),
      λ d e. ground (arith, e),
      λ xs dist. omega (arith, sound, nothing (s.rosca_security_deposits s.next_rosca_id) empty xs),
    )
  where
    nothing : (f : Map (Option ℕ)) → ((a : ℕ) → f a ≡ none) → (xs : List ℕ) → total f xs ≡ 0
    nothing f e [] = refl
    nothing f e (x ∷ xs) = ground (arith, e x, nothing f e xs)

module _ (rt : Runtime) (journal : Journal rt) (origin : rt.Origin) (r : Request)
    (position : Option ℕ) (s s₁ s' : State rt.Ledger) (guarded : Guarded rt s.next_rosca_id) where
  -- The security deposits of a circle are covered by its account, whatever comes to pass. Where
  -- transfers are kept in a journal and no caller signs as the account of the circle, which is no
  -- other circle's: from the creation of a circle at an unused id without deposits, whose account
  -- has not paid out more of the circle's asset than it has been paid, calls on all circles in any
  -- order, and time in which nobody else draws on the account, lead only to states in which the
  -- deposits of any distinct accounts at the circle, together with what its account has paid out of
  -- the asset, are no more than what it has been paid of it. An id that would wrap round at 2^32 is
  -- left out.
  pub create_rosca-Covered :
      s.next_rosca_id + 1 < u32_mod
      → IsBlank s.next_rosca_id s
      → ((a : ℕ) → s.rosca_security_deposits s.next_rosca_id a ≡ none)
      → drawn (id r.asset) (rt.sub_account s.next_rosca_id) (journal.entries s.ledger)
        ≤ banked (id r.asset) (rt.sub_account s.next_rosca_id) (journal.entries s.ledger)
      → create rt origin r position s ≡ (ok tt, s₁)
      → (ms : Moves rt s₁ s') → SparedMoves rt journal s.next_rosca_id (id r.asset) ms
      → (accounts : List ℕ) → Distinct accounts
      → total (s'.rosca_security_deposits s.next_rosca_id) accounts
          + drawn (id r.asset) (rt.sub_account s.next_rosca_id) (journal.entries s'.ledger)
        ≤ banked (id r.asset) (rt.sub_account s.next_rosca_id) (journal.entries s'.ledger)
  create_rosca-Covered fits blank empty sound h ms q =
      (Moves-Backed rt journal s.next_rosca_id (id r.asset) guarded ms q
        (create_rosca-Backed rt journal origin r position s s₁ fits blank empty sound h)).3
