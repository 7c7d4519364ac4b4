-- ===== src/Rosca/Rounds/Payees.antt =====
-- The recipients of the rounds that a circle has left.
-- Everyone whose round is still to come, or runs, is a payee.
use dotcircles.Prelude.{List, [], subst, sym, ℕ, ◌++◌, ◌∷◌}
use dotcircles.Rosca.Rounds.Agenda.{IsSuffix}

abbrev pub AllPayees : (ℕ → Type 0) → List (ℕ × ℕ) → Type 0
AllPayees Payee [] = Unit
AllPayees Payee ((c, next) ∷ rest) = Payee c × AllPayees Payee rest

pub AllPayees-suffix :
    (Payee : ℕ → Type 0) (ys xs : List (ℕ × ℕ))
    → IsSuffix ys xs
    → AllPayees Payee xs
    → AllPayees Payee ys
AllPayees-suffix Payee ys xs (zs, e) all = dropped zs (subst (AllPayees Payee) (sym e) all)
  where
    dropped : (zs : List (ℕ × ℕ)) → AllPayees Payee (zs ++ ys) → AllPayees Payee ys
    dropped [] h = h
    dropped ((c, next) ∷ zs) (p, h) = dropped zs h
