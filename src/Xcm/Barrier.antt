-- ===== src/Xcm/Barrier.antt =====
-- Which messages are run without payment: the barrier's filters.
use dotcircles.Prelude.{List, [], length, ℕ, ◌∷◌, ◌≡◌, ◌≢◌}
use dotcircles.Xcm.{
  Instruction, Location, Matching, ProcessMessageError, Processed, accepted, and_then,
  is_notification, rejected,
}

-- What the documentation of `xcm_builder` says of the matcher: it goes over the instructions, the
-- first test is on the number of those that are left, and the closure's answer on the next one is
-- the answer.
pub record IsDocumented (m : Matching) : Type 0 where
  pub left : m.Cursor → List Instruction
  pub at_first : (xs : List Instruction) → left (m.matcher xs) ≡ xs
  pub counted :
      (c : m.Cursor) (n : ℕ)
      → length (left c) ≡ n
      → (c' : m.Cursor) × (m.assert_remaining_insts c n ≡ accepted c') × (left c' ≡ left c)
  pub miscounted :
      (c : m.Cursor) (n : ℕ)
      → length (left c) ≢ n
      → (e : ProcessMessageError) × (m.assert_remaining_insts c n ≡ rejected e)
  pub matched :
      (c : m.Cursor) (f : Instruction → Processed Unit) (i : Instruction) (r : List Instruction)
      → left c ≡ i ∷ r
      → f i ≡ accepted tt
      → (c' : m.Cursor) × (m.match_next_inst c f ≡ accepted c')
  pub unmatched :
      (c : m.Cursor) (f : Instruction → Processed Unit) (i : Instruction) (r : List Instruction)
      (e : ProcessMessageError)
      → left c ≡ i ∷ r
      → f i ≡ rejected e
      → m.match_next_inst c f ≡ rejected e

abbrev pub relay_chain : Location
relay_chain = record { parents = 1; interior = [] }

-- The two tests on the instructions.
abbrev notices : Matching → List Instruction → Processed Unit
notices m xs =
    and_then (m.assert_remaining_insts (m.matcher xs) 1)
      (λ c. and_then (m.match_next_inst c is_notification) (λ _. accepted tt))
