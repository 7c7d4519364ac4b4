-- ===== src/Rosca/Witnesses/Backing/Sparing.antt =====
-- A ledger in which every account keeps the least balance of 70.
-- Nothing is paid that would leave the payer, or be all that the payee has been paid, below 70;
-- every account below 10 begins with 10000 of each asset.
use dotcircles.Prelude.{
  List, [], arith, if◌then◌else◌, leb, ltb, refl, ℕ, ◌++◌, ◌+◌, ◌<◌, ◌∷◌, ◌≡◌, ◌≤◌,
}
use dotcircles.Rosca.Witnesses.Backing.{noting, noting-Guarded}
use dotcircles.Rosca.Backing.{Entry, Journal, banked, drawn}
use dotcircles.Rosca.Backing.Flow.{Guarded, Solvent, set_aside}
use dotcircles.Rosca.Storage.{Runtime, Transfer, moved, refused}

abbrev start_of : ℕ → ℕ
start_of a = if ltb a 10 then 10000 else 0

abbrev pub spare_note : ℕ → ℕ → ℕ → ℕ → List Entry → Transfer (List Entry)
spare_note asset from to amount es =
    if leb 70 (start_of to + banked asset to es + amount)
    then if leb (drawn asset from es + amount + 70) (start_of from + banked asset from es)
      then moved (record { asset = asset; from = from; to = to; amount = amount } ∷ es)
      else refused 1
    else refused 0

abbrev pub sparing : Runtime
sparing = record noting { transfer = spare_note }

pub spared :
    (asset from to amount : ℕ) (l l' : List Entry)
    → spare_note asset from to amount l ≡ moved l'
    → l' ≡ record { asset = asset; from = from; to = to; amount = amount } ∷ l
spared asset from to amount l l' h = ground (arith, h)

abbrev pub kept_aside : Entry
kept_aside = record { asset = 1984; from = 1000; to = 0; amount = 70 }

-- The journal in which the account 1000 has set its least balance aside.
unfoldable pub spare_notes : Journal sparing
spare_notes = set_aside (record { entries = λ l. l; writes = spared }) kept_aside

drawn_aside : (l : List Entry) → drawn 1984 1000 (l ++ (kept_aside ∷ [])) ≡ drawn 1984 1000 l + 70
drawn_aside [] = refl
drawn_aside (e ∷ l) = ground (arith, drawn_aside l)

banked_aside : (l : List Entry) → banked 1984 1000 (l ++ (kept_aside ∷ [])) ≡ banked 1984 1000 l
banked_aside [] = refl
banked_aside (e ∷ l) = ground (arith, banked_aside l)

pub spare_pays :
    (from to amount : ℕ) (l : List Entry)
    → to < 10
    → drawn 1984 from l + amount + 70 ≤ start_of from + banked 1984 from l
    → (l' : List Entry) × (spare_note 1984 from to amount l ≡ moved l')
spare_pays from to amount l small le =
    (record { asset = 1984; from = from; to = to; amount = amount } ∷ l, ground (arith, small, le))

-- Those who can take any amount.
abbrev pub Small : ℕ → Type 0
Small a = a < 10

abbrev pub AnyLedger : List Entry → Type 0
AnyLedger l = Unit

pub sparing-Solvent : Solvent sparing spare_notes 1000 1984 Small AnyLedger
unfolding spare_notes
sparing-Solvent = record {
  pays = λ to amount l small ready le.
      spare_pays 1000 to amount l small (omega (arith, drawn_aside l, banked_aside l, le));
  stays = λ unit to amount l l' h ready. tt;
}

pub sparing-Guarded : Guarded sparing 0
sparing-Guarded = record {
  keyless = (noting-Guarded 0).keyless;
  unshared = (noting-Guarded 0).unshared;
}
