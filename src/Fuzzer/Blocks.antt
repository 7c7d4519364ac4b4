-- ===== src/Fuzzer/Blocks.antt =====
-- The blocks that the fuzzer builds: their numbers and their weights.
use dotcircles.Prelude.{
  Bool, List, Option, [], ap, arith, checked_add, false, leb, none, of_some, refl, saturating_add,
  some, subst, sym, true, u32_mod, u64_mod, ℕ, ◌%◌, ◌*◌, ◌+◌, ◌<◌, ◌∙◌, ◌∷◌, ◌≡◌, ◌≢◌, ◌≤◌,
}
use dotcircles.Fuzzer.{
  Fuzzing, Line, Mock, assert, call_extrinsic, called, check_balances, fuzz, initializing,
  next_block, open_block, run, skipping, start_block, ◌>>=◌,
}

-- A sequence that does not panic is two parts that do not.
pub of_both :
    {A B : Type 0} (o : Option A) (f : A → Option B) (b : B)
    → (o >>= f) ≡ some b
    → (a : A) × (o ≡ some a) × (f a ≡ some b)
of_both none f b h = absurd cc
of_both (some a) f b h = (a, refl, h)

-- The weight that the calls of the last block have in the lines printed, the last one first.
abbrev pub spent : List Line → ℕ
spent [] = 0
spent (initializing n ∷ lines) = 0
spent (skipping ∷ lines) = spent lines
spent (called account weight ∷ lines) = weight + spent lines

-- After each call, the calls of its block so far weigh less than `limit`.
abbrev pub IsLight : (limit : ℕ) → List Line → Type 0
IsLight limit [] = Unit
IsLight limit (initializing n ∷ lines) = IsLight limit lines
IsLight limit (skipping ∷ lines) = IsLight limit lines
IsLight limit (called account weight ∷ lines) =
    (weight + spent lines < limit) × (account < 5) × IsLight limit lines

abbrev pub last_block : List Line → Option ℕ
last_block [] = none
last_block (initializing n ∷ lines) = some n
last_block (skipping ∷ lines) = last_block lines
last_block (called account weight ∷ lines) = last_block lines

-- No block has a smaller number than the one before.
abbrev pub IsRising : List Line → Type 0
IsRising [] = Unit
IsRising (initializing n ∷ lines) = ((k : ℕ) → last_block lines ≡ some k → k ≤ n) × IsRising lines
IsRising (skipping ∷ lines) = IsRising lines
IsRising (called account weight ∷ lines) = IsRising lines

unopened : (k : ℕ) → last_block [] ≢ some k
unopened k h = cc

none_run : {A : Type 0} (a : A) → Path (Option (Option A)) (some none) (some (some a)) → ⊥
none_run a h = cc

pub record IsSteady {m : Mock} (f : Fuzzing m) : Type 0 where
  pub light : IsLight (m.weight_ref_time_per_second * 2) f.printed
  pub counted : spent f.printed ≤ f.current_weight
  pub word : f.current_weight < u64_mod
  pub at_block : last_block f.printed ≡ some f.current_block
  pub rising : IsRising f.printed

module _ (m : Mock) (limit : m.weight_ref_time_per_second * 2 < u64_mod) where
  call_extrinsic-IsSteady :
      (origin : ℕ) (e : m.Call) (f f' : Fuzzing m)
      → call_extrinsic m origin e f ≡ some f'
      → IsSteady f
      → IsSteady f'
  unfolding call_extrinsic
  call_extrinsic-IsSteady origin e f f' h v = decided _ refl
    where
      w : ℕ
      w = m.dispatch_weight e f.externalities

      decided :
          (b : Bool)
          → leb (m.weight_ref_time_per_second * 2) (saturating_add u64_mod f.current_weight w) ≡ b
          → IsSteady f'
      decided true heavy = subst IsSteady (of_some (rw heavy at h)) (record {
        light = v.light;
        counted = ground (arith, v.counted, v.word);
        word = ground (arith, v.word);
        at_block = v.at_block;
        rising = v.rising;
      })
      decided false small =
          let (x, moved, same) =
            of_both (m.dispatch (origin % 5) e f.externalities) _ f' (rw small at h) in
          subst IsSteady (of_some same) (record {
            light = (ground (arith, v.counted, v.word, small), ground arith, v.light);
            counted = ground (arith, v.counted, v.word);
            word = ground (arith, v.word);
            at_block = v.at_block;
            rising = v.rising;
          })

  -- A block that starts where the numbers had come to, or at the first, is the last one.
  start_block-printed :
      (block lapse : ℕ) (f f' : Fuzzing m)
      → start_block m block lapse f ≡ some f'
      → (x : m.X) × (f'
          ≡ record f { externalities = x; printed = initializing (block + lapse) ∷ f.printed })
        × (block + lapse < u32_mod)
  unfolding start_block
  start_block-printed block lapse f f' h =
      let (n, e, h') = of_both (checked_add u32_mod block lapse) _ f' h in
      let (x, e', h'') = of_both (open_block m n f.externalities) _ f' h' in
      let sum : n ≡ block + lapse = ground (arith, e) in
      let small : block + lapse < u32_mod = ground (arith, e) in
      (
        x,
        sym (of_some h'')
            ∙ ap (λ k. record f { externalities = x; printed = initializing k ∷ f.printed }) sum,
        small,
      )

  next_block-IsSteady :
      (lapse : Option ℕ) (f f' : Fuzzing m)
      → next_block m lapse f ≡ some f'
      → IsSteady f
      → IsSteady f'
  unfolding next_block
  next_block-IsSteady none f f' h v = subst IsSteady (of_some h) v
  next_block-IsSteady (some lapse) f f' h v =
      let (g, e, h') =
        of_both (start_block m f.current_block lapse (record f { current_weight = 0; elapsed = 0 }))
          _ f' h in
      let (n, e', h'') = of_both (checked_add u32_mod g.current_block lapse) _ f' h' in
      let (x, same, small) = start_block-printed f.current_block lapse _ g e in
      let at : checked_add u32_mod f.current_block lapse ≡ some n =
        subst (λ k. checked_add u32_mod k.current_block lapse ≡ some n) same e' in
      let n' : f.current_block + lapse ≡ n = ground (arith, at) in
      subst IsSteady
        (ap {A = Fuzzing m} (λ k. record k { current_block = n }) (sym same) ∙ of_some h'')
        (record {
          light = v.light;
          counted = omega arith;
          word = omega arith;
          at_block = ap some n';
          rising = (
            λ k last. let k' : k ≡ f.current_block = of_some (sym last ∙ v.at_block) in omega arith,
            v.rising,
          );
        })

  pub run-IsSteady :
      (es : List (Option ℕ × ℕ × m.Call)) (f f' : Fuzzing m)
      → run m es f ≡ some f'
      → IsSteady f
      → IsSteady f'
  unfolding run
  run-IsSteady [] f f' h v = subst IsSteady (of_some h) v
  run-IsSteady ((lapse, origin, e) ∷ rest) f f' h v =
      let (g, at, h') = of_both (next_block m lapse f) _ f' h in
      let (k, called', h'') = of_both (call_extrinsic m origin e g) _ f' h' in
      run-IsSteady rest k f' h''
        (call_extrinsic-IsSteady origin e g k called' (next_block-IsSteady lapse f g at v))

  -- Where twice the weight of a second is a number of 64 bits: in a run that does not panic, after
  -- each call that has been dispatched, the calls that its block has dispatched weigh less than the
  -- limit of a block, and the call was by one of the five accounts; the number of the current block
  -- is that of the last block that has been initialised, and no block has a smaller number than the
  -- one before.
  pub fuzz-IsSteady :
      (es : List (Option ℕ × ℕ × m.Call)) (f : Fuzzing m) → fuzz m es ≡ some (some f) → IsSteady f
  unfolding fuzz
  fuzz-IsSteady [] f h = absurd (none_run f h)
  fuzz-IsSteady (e ∷ rest) f h =
      let (g, started, h₁) = of_both (start_block m 1 0 _) _ _ h in
      let (k, ended, h₂) = of_both (run m (e ∷ rest) g) _ _ h₁ in
      let (u₁, soon, h₃) =
        of_both (assert (leb (m.as_secs k.elapsed) m.max_time_for_block)) _ _ h₂ in
      let (closed, final, h₃') = of_both (m.finalize_block k.externalities) _ _ h₃ in
      let (tried, good, h₄) = of_both (m.try_state k.current_block closed.1) _ _ h₃' in
      let (u₂, checked, h₅) = of_both (check_balances m tried) _ _ h₄ in
      let (x, whole, h₆) = of_both (m.integrity_test tried) _ _ h₅ in
      let (y, same, small) = start_block-printed 1 0 _ g started in
      let first : IsSteady g = subst IsSteady (sym same) (record {
        light = tt;
        counted = omega arith;
        word = omega arith;
        at_block = refl;
        rising = (λ k last. absurd (unopened k last), tt);
      }) in
      let v = run-IsSteady (e ∷ rest) g k ended first in
      subst IsSteady (of_some (of_some h₆)) (record {
        light = v.light;
        counted = v.counted;
        word = v.word;
        at_block = v.at_block;
        rising = v.rising;
      })
