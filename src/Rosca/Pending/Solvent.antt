-- ===== src/Rosca/Pending/Solvent.antt =====
-- A member can leave a circle whose deposits are covered.
use dotcircles.Rosca.Backing.Flow.{Solvent}
