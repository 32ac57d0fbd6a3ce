-- ===== src/Hub/Ops/Acked.antt =====
-- What `filterAcked` lets through.
use leyline.Base.{
  All, Bool-cases, List, [], ap, append-nil, arith, inl, inr, ltb, refl, some, sym, true, ℕ, ◌++◌,
  ◌<◌, ◌↔◌, ◌∙◌, ◌∷◌, ◌≡◌, ◌≤◌,
}
use leyline.Protocol.Op.{Op}
use leyline.Hub.Ops.{filter_acked, from_cutoff, is_rising}

-- The sequence numbers rise from above `prev`.
abbrev pub RisesAbove : ℕ → List Op → Type 0
RisesAbove prev [] = Unit
RisesAbove prev (op ∷ ops) = (prev < op.seq) × RisesAbove op.seq ops

abbrev pub AreAcked : ℕ → List Op → Type 0
AreAcked highest ops = All (λ (op : Op). op.seq ≤ highest) ops

-- `tail` is what is left of a batch without a prefix that was acked.
pub record IsTail (ops : List Op) (highest : ℕ) (tail : List Op) : Type 0 where
  pub acked : List Op
  pub splits : ops ≡ acked ++ tail
  pub below : AreAcked highest acked
  pub above : RisesAbove highest tail

is_rising_sound : (ops : List Op) (prev : ℕ) → is_rising ops prev ≡ true → RisesAbove prev ops
unfolding is_rising
is_rising_sound [] prev h = tt
is_rising_sound (op ∷ ops) prev h =
    (ground (arith, h), is_rising_sound ops op.seq (ground (arith, h)))

is_rising_complete : (ops : List Op) (prev : ℕ) → RisesAbove prev ops → is_rising ops prev ≡ true
unfolding is_rising
is_rising_complete [] prev h = refl
is_rising_complete (op ∷ ops) prev h = ground (arith, h.0, is_rising_complete ops op.seq h.1)

record IsCut (ops : List Op) (highest : ℕ) (tail : List Op) : Type 0 where
  acked : List Op
  splits : ops ≡ acked ++ tail
  below : AreAcked highest acked

from_cutoff-IsCut : (ops : List Op) (highest : ℕ) → IsCut ops highest (from_cutoff ops highest)
unfolding from_cutoff
from_cutoff-IsCut [] highest = record { acked = []; splits = refl; below = tt }
from_cutoff-IsCut (op ∷ ops) highest = elim (Bool-cases (ltb highest op.seq)) [
  | inl e ↦ rw e (record { acked = []; splits = refl; below = tt })
  | inr e ↦ rw e (
      let rest = from_cutoff-IsCut ops highest in
      record {
        acked = op ∷ rest.acked;
        splits = ap (◌∷◌ op) rest.splits;
        below = (ground (arith, e), rest.below);
      })
]

from_cutoff-acked :
    (acked tail : List Op) (highest : ℕ)
    → AreAcked highest acked
    → RisesAbove highest tail
    → from_cutoff (acked ++ tail) highest ≡ tail
unfolding from_cutoff
from_cutoff-acked [] [] highest below above = refl
from_cutoff-acked [] (op ∷ tail) highest below above = ground (arith, above.0)
from_cutoff-acked (op ∷ acked) tail highest below above =
    ground (arith, below.0, from_cutoff-acked acked tail highest below.1 above)

filter_acked_sound :
    (ops : List Op) (highest : ℕ) (tail : List Op)
    → filter_acked ops highest ≡ some tail
    → IsTail ops highest tail
unfolding filter_acked
filter_acked_sound ops highest tail h =
    let cut = from_cutoff-IsCut ops highest in
    let same : from_cutoff ops highest ≡ tail = ground (arith, h) in
    record {
      acked = cut.acked;
      splits = cut.splits ∙ ap (◌++◌ cut.acked) same;
      below = cut.below;
      above = is_rising_sound tail highest (ground (arith, h, same));
    }

filter_acked_complete :
    (ops : List Op) (highest : ℕ) (tail : List Op)
    → IsTail ops highest tail
    → filter_acked ops highest ≡ some tail
unfolding filter_acked
filter_acked_complete ops highest tail t =
    rw
      (
        t.splits,
        from_cutoff-acked t.acked tail highest t.below t.above,
        is_rising_complete tail highest t.above,
      )
      refl

-- `filterAcked` returns a tail exactly when the batch is some operations at or below `highest`, and
-- then the tail, whose sequence numbers rise strictly from above `highest`.
pub filter_acked-eq_some_iff :
    (ops : List Op) (highest : ℕ) (tail : List Op)
    → (filter_acked ops highest ≡ some tail) ↔ IsTail ops highest tail
filter_acked-eq_some_iff ops highest tail =
    (filter_acked_sound ops highest tail, filter_acked_complete ops highest tail)

-- A batch that was acked as a whole leaves nothing to do.
pub filter_acked-acked :
    (ops : List Op) (highest : ℕ) → AreAcked highest ops → filter_acked ops highest ≡ some []
filter_acked-acked ops highest h =
    filter_acked_complete ops highest []
      (record { acked = ops; splits = sym (append-nil ops); below = h; above = tt })
