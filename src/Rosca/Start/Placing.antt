-- ===== src/Rosca/Start/Placing.antt =====
-- The last loop of `shuffle_participants`, and the whole function.
use dotcircles.Prelude.{
  Bool, List, SameItems, SameItems-contains, [], ap, append_assoc, arith, contains, get_elem?,
  length, length-append, ltb, refl, set, some, subst, suc, sym, true, zero, ℕ, ◌++◌, ◌+◌, ◌<◌, ◌∙◌,
  ◌∷◌, ◌≡◌,
}
use dotcircles.Rosca.Start.{first_byte, indices, place_all, shuffle_participants}
use dotcircles.Rosca.Backing.{drawn}
use dotcircles.Rosca.Effects.{Exec, ok, ◌>>=◌}
use dotcircles.Rosca.Effects.Keeps.{Keeps}
use dotcircles.Rosca.Effects.Returns.{Returns}
use dotcircles.Rosca.Pending.{unwrap_or}
use dotcircles.Rosca.Start.Shuffle.{
  count-drawn_from, draw_lem, drawn_from, length-drawn_from, map-drawn_from, picked,
}
use dotcircles.Rosca.Storage.{Runtime, State}
use mathlib.Core.List.{map}

-- The account at an index of the order.
abbrev account_at : List ℕ → ℕ → ℕ
account_at p j = unwrap_or (get_elem? p j) 0

abbrev Below : ℕ → List ℕ → Type 0
Below n [] = Unit
Below n (x ∷ xs) = (x < n) × Below n xs

Below-of_contains : (n : ℕ) (xs : List ℕ) → ((a : ℕ) → contains xs a ≡ true → a < n) → Below n xs
Below-of_contains n [] h = tt
Below-of_contains n (x ∷ xs) h =
    (h x (ground arith), Below-of_contains n xs (λ a e. h a (ground arith)))

contains-indices : (i n a : ℕ) → contains (indices i n) a ≡ true → a < i + n
contains-indices i zero a h = cc
contains-indices i (suc n) a h = ground (arith, contains-indices (i + 1) n a)

length-indices : (i n : ℕ) → length (indices i n) ≡ n
length-indices i zero = refl
length-indices i (suc n) = ap suc (length-indices (i + 1) n)

map-indices :
    (p : List ℕ) (i : ℕ) (suf : List ℕ)
    → ((k : ℕ) → get_elem? p (i + k) ≡ get_elem? suf k)
    → map (account_at p) (indices i (length suf)) ≡ suf
map-indices p i [] h = refl
map-indices p i (x ∷ suf) h =
    let e : get_elem? p i ≡ some x = ground (arith, h 0) in
    rw e (ap (λ t. x ∷ t) (map-indices p (i + 1) suf (λ k. ground (arith, h (suc k)))))

set-append :
    (pre : List ℕ) (r a : ℕ) (rest : List ℕ)
    → set (pre ++ (r ∷ rest)) (length pre) a ≡ pre ++ (a ∷ rest)
set-append [] r a rest = refl
set-append (x ∷ pre) r a rest = ap (λ t. x ∷ t) (set-append pre r a rest)

module _ (rt : Runtime) where
  -- Indices that are within range are all read and written.
  place_all_lem :
      (p drawn pre rest : List ℕ) (s : State rt.Ledger)
      → length rest ≡ length drawn
      → Below (length p) drawn
      → place_all rt (length pre) drawn p (pre ++ rest) s
        ≡ (ok (pre ++ map (account_at p) drawn), s)
  unfolding place_all ◌>>=◌
  place_all_lem p [] pre [] s e below = refl
  place_all_lem p [] pre (r ∷ rest) s e below = absurd (omega arith)
  place_all_lem p (j ∷ drawn) pre [] s e below = absurd (omega arith)
  place_all_lem p (j ∷ drawn) pre (r ∷ rest) s e (inside, below) =
      let (a, at) = picked p j inside in
      let n : length pre + 1 ≡ length (pre ++ a ∷ []) = sym (length-append pre (a ∷ [])) in
      let fits : ltb (length pre) (length (pre ++ (r ∷ rest))) ≡ true =
        ground (arith, length-append pre (r ∷ rest)) in
      rw (at, fits, set-append pre r a rest, n, ← append_assoc pre (a ∷ []) rest)
        (place_all_lem p drawn (pre ++ a ∷ []) rest s (omega arith) below
          ∙ ap (λ t. (ok t, s)) (append_assoc pre (a ∷ []) (map (account_at p) drawn)))

  -- The two loops together draw from the accounts themselves.
  pub placed_lem :
      (b : ℕ) (p : List ℕ) (s : State rt.Ledger)
      → place_all rt 0 (drawn_from b (length p) (indices 0 (length p))) p p s
        ≡ (ok (drawn_from b (length p) p), s)
  placed_lem b p s =
      let drawn = drawn_from b (length p) (indices 0 (length p)) in
      let e = sym (length-indices 0 (length p)) in
      let same = count-drawn_from b (length p) (indices 0 (length p)) e in
      let below : (a : ℕ) → contains drawn a ≡ true → a < length p = λ a h.
        let h' = SameItems-contains drawn (indices 0 (length p)) same a h in
        omega (arith, contains-indices 0 (length p) a h') in
      place_all_lem p drawn [] p s (sym (length-drawn_from b (length p) (indices 0 (length p)) e))
        (Below-of_contains (length p) drawn below)
      ∙ ap (λ t. (ok t, s))
          (map-drawn_from (account_at p) b (length p) (indices 0 (length p)) e
            ∙ ap (drawn_from b (length p))
                (map-indices p 0 p (λ k. ap (get_elem? p) (omega arith))))

  -- The byte that picks every index.
  abbrev byte_of : State rt.Ledger → ℕ
  byte_of s = first_byte (rt.blake2_128 (rt.blake2_128 (rt.block_hash s.block_number)))

  shuffle_participants_lem :
      (p : List ℕ) (s : State rt.Ledger)
      → shuffle_participants rt p s ≡ (ok (drawn_from (byte_of s) (length p) p), s)
  unfolding shuffle_participants ◌>>=◌
  shuffle_participants_lem p s =
      rw
        (draw_lem rt (byte_of s) (length p) (indices 0 (length p)) s
          (sym (length-indices 0 (length p))))
        (placed_lem (byte_of s) p s)

  -- The shuffle writes nothing.
  pub shuffle_participants-Keeps :
      {P : State rt.Ledger → Type 0} (p : List ℕ) → Keeps P (shuffle_participants rt p)
  shuffle_participants-Keeps {P} p = record {
    at = λ s h. subst P (ap (λ o. o.1) (sym (shuffle_participants_lem p s))) h;
  }

of_returned :
    {L A : Type 0} {safe : Bool} {s : State L} {Q : A → State L → Type 0} (m : Exec L A) (a : A)
    → m s ≡ (ok a, s)
    → Q a s
    → Returns safe s m Q
of_returned m a e q = record {
  at = λ b s' h. ground (arith, e, h, q);
  ends = λ s' h. cc (e, h);
  calm = λ s' b h. cc (e, h);
}

module _ (rt : Runtime) {safe : Bool} where
  pub shuffle_participants-Returns :
      (participants : List ℕ) (s : State rt.Ledger)
      → Returns safe s (shuffle_participants rt participants) (λ order s'.
        (s' ≡ s) × SameItems order participants × (length order ≡ length participants))
  shuffle_participants-Returns participants s =
      of_returned _ _ (shuffle_participants_lem rt participants s) (
        refl,
        count-drawn_from _ (length participants) participants refl,
        length-drawn_from _ (length participants) participants refl,
      )

module _ (rt : Runtime) (participants : List ℕ) (s : State rt.Ledger) where
  -- Whatever the hashes are, the loop of the shuffle ends, no index of it is out of range, and it
  -- answers with an order of the same accounts, each as often as before, and writes nothing.
  pub shuffle_participants-SameItems :
      (order : List ℕ) × (shuffle_participants rt participants s ≡ (ok order, s))
      × SameItems order participants
  shuffle_participants-SameItems = (
    _,
    shuffle_participants_lem rt participants s,
    count-drawn_from _ (length participants) participants refl,
  )
