-- ===== src/Rosca/Start/Schedule.antt =====
-- The agenda of a circle that has just started is what its event has announced.
use dotcircles.Prelude.{
  List, [], ap, append_assoc, arith, init, last?, length, length-reverse, map, of_some, refl,
  reverse, some, suc, sym, ℕ, ◌*◌, ◌++◌, ◌+◌, ◌∙◌, ◌∷◌, ◌≡◌,
}
use dotcircles.Rosca.Rounds.Agenda.{agenda, rotated, rotated_lem}
use dotcircles.Rosca.Start.Announced.{IsAnnounced, recipient_of}
use dotcircles.Rosca.Types.{RoundInfo}
use mathlib.Core.List.{reverse-append, reverse-cons, reverse-reverse}

-- The recipients with their cutoffs, a frequency apart.
abbrev pub timed : (t frequency : ℕ) → List ℕ → List (ℕ × ℕ)
timed t frequency [] = []
timed t frequency (x ∷ xs) = (x, t) ∷ timed (t + frequency) frequency xs

-- The recipient and the cutoff of a round in the event of the start.
abbrev pub turn_of : RoundInfo → ℕ × ℕ
turn_of r = (r.recipient, r.payment_cutoff)

last?-snoc : (x : ℕ) (xs : List ℕ) (y : ℕ) → last? (x ∷ (xs ++ y ∷ [])) ≡ some y
last?-snoc x [] y = refl
last?-snoc x (z ∷ xs) y = last?-snoc z xs y

init-snoc : (x : ℕ) (xs : List ℕ) (y : ℕ) → init (x ∷ (xs ++ y ∷ [])) ≡ x ∷ xs
init-snoc x [] y = refl
init-snoc x (z ∷ xs) y = ap (λ t. x ∷ t) (init-snoc z xs y)

pub init_last : (xs : List ℕ) (y : ℕ) → last? xs ≡ some y → init xs ++ y ∷ [] ≡ xs
init_last [] y h = cc
init_last (x ∷ []) y h = ap (λ t. t ∷ []) (sym (of_some h))
init_last (x ∷ z ∷ r) y h = ap (λ t. x ∷ t) (init_last (z ∷ r) y h)

-- The order read from its last account on, after `seen` have come to the front.
agenda-timed :
    (ys : List ℕ) (t f c : ℕ) (seen : List ℕ)
    → agenda (suc (length ys)) t f (c ∷ (seen ++ reverse ys)) ≡ timed t f (c ∷ ys)
agenda-timed [] t f c seen = refl
agenda-timed (y ∷ ys) t f c seen =
    ap (λ z. (c, t) ∷ z)
      (ap (agenda (suc (length ys)) (t + f) f) (
          ap (λ z. rotated (c ∷ z))
            (ap (λ z. seen ++ z) (reverse-cons y ys)
              ∙ sym (append_assoc seen (reverse ys) (y ∷ [])))
          ∙ rotated_lem (c ∷ ((seen ++ reverse ys) ++ y ∷ [])) y
              (last?-snoc c (seen ++ reverse ys) y)
          ∙ ap (λ z. y ∷ z) (init-snoc c (seen ++ reverse ys) y))
        ∙ agenda-timed ys (t + f) f y (c ∷ seen))

-- An order whose last account comes to the front is gone through from its end.
pub agenda_lem :
    (order : List ℕ) (first n t f : ℕ)
    → last? order ≡ some first
    → n ≡ length (init order)
    → agenda (suc n) t f (first ∷ init order) ≡ timed t f (reverse order)
agenda_lem order first n t f last size =
    ap (λ k. agenda (suc k) t f (first ∷ init order)) (size ∙ sym (length-reverse (init order)))
    ∙ ap (λ z. agenda (suc (length (reverse (init order)))) t f (first ∷ z))
        (sym (reverse-reverse (init order)))
    ∙ agenda-timed (reverse (init order)) t f first []
    ∙ ap (timed t f)
        (sym (reverse-append (init order) (first ∷ [])) ∙ ap reverse (init_last order first last))

-- The rounds of the event are the recipients with their cutoffs.
pub turn_of-timed :
    (participants : List ℕ) (t f : ℕ) (rounds : List RoundInfo)
    → IsAnnounced participants t f rounds
    → map turn_of rounds ≡ timed (t + f) f (map recipient_of rounds)
turn_of-timed participants t f [] v = refl
turn_of-timed participants t f (r ∷ rounds) v = cc (
  (v 0 r refl).0,
  turn_of-timed participants (t + f) f rounds
      (λ k q h. ((v (suc k) q h).0 ∙ later k, (v (suc k) q h).1)),
  first,
)
  where
    later : (k : ℕ) → t + (suc k + 1) * f ≡ t + f + (k + 1) * f
    later k = grind arith

    first : t + (0 + 1) * f ≡ t + f
    first = grind arith
