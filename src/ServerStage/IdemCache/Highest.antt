-- ===== src/ServerStage/IdemCache/Highest.antt =====
-- The highest sequence number of a client under the calls of `Accept`.
use leyline.Base.{
  Bool-cases, List, Text, [], ap, arith, false, if◌then◌else◌, inl, inr, leb, ltb, refl, some, sym,
  text_eq, text_eq_iff, true, ℕ, ◌∙◌, ◌∷◌, ◌≡◌,
}
use leyline.Base.Dict
use leyline.ServerStage.IdemCache.{IdemCache, accept, highest_or_zero, highest_seq}

-- A call of `Accept`.
pub record Acceptance : Type 0 where
  pub client_id : Text
  pub seq : ℕ
  pub now : ℕ

abbrev pub accepts : IdemCache → List Acceptance → IdemCache
accepts c [] = c
accepts c (a ∷ calls) = accepts (accept c a.client_id a.seq a.now).1 calls

abbrev pub max : ℕ → ℕ → ℕ
max m n = if ltb m n then n else m

-- The greatest sequence number of the client's calls, from the number that it starts with.
abbrev pub greatest : Text → ℕ → List Acceptance → ℕ
greatest client_id n [] = n
greatest client_id n (a ∷ calls) =
    greatest client_id (if text_eq a.client_id client_id then max n a.seq else n) calls

-- A number that is not above the highest one, under `max`.
kept :
    (c : IdemCache) (a : Acceptance) (k : Text)
    → leb a.seq (highest_or_zero (Dict.get c.records a.client_id)) ≡ true
    → highest_or_zero (Dict.get c.records k) ≡ (
        if text_eq a.client_id k
        then max (highest_or_zero (Dict.get c.records k)) a.seq
        else highest_or_zero (Dict.get c.records k))
kept c a k e = elim (Bool-cases (text_eq a.client_id k)) [
  | inl same ↦ rw (same, sym ((text_eq_iff a.client_id k).0 same)) (ground (arith, e))
  | inr differs ↦ rw differs refl
]

raised :
    (c : IdemCache) (a : Acceptance) (k : Text)
    → leb a.seq (highest_or_zero (Dict.get c.records a.client_id)) ≡ false
    → highest_or_zero (
        if text_eq a.client_id k
        then some (record { highest = a.seq; last_seen = a.now })
        else Dict.get c.records k)
      ≡ (if text_eq a.client_id k
          then max (highest_or_zero (Dict.get c.records k)) a.seq
          else highest_or_zero (Dict.get c.records k))
raised c a k e = elim (Bool-cases (text_eq a.client_id k)) [
  | inl same ↦ rw (same, sym ((text_eq_iff a.client_id k).0 same)) (ground (arith, e))
  | inr differs ↦ rw differs refl
]

pub highest_seq-accept :
    (c : IdemCache) (a : Acceptance) (k : Text)
    → highest_seq (accept c a.client_id a.seq a.now).1 k
      ≡ (if text_eq a.client_id k then max (highest_seq c k) a.seq else highest_seq c k)
unfolding accept highest_seq
highest_seq-accept c a k =
    elim (Bool-cases (leb a.seq (highest_or_zero (Dict.get c.records a.client_id)))) [
      | inl e ↦ rw e (kept c a k e)
      | inr e ↦ rw (e, Dict.get-put c.records a.client_id k _) (raised c a k e)
    ]

-- After any calls of `Accept`, whatever they answered, `Highest` is the greatest sequence number
-- that the client was accepted with or called with: no call of another client changes it, and none
-- lowers it.
pub highest_seq-accepts :
    (c : IdemCache) (calls : List Acceptance) (client_id : Text)
    → highest_seq (accepts c calls) client_id ≡ greatest client_id (highest_seq c client_id) calls
highest_seq-accepts c [] k = refl
highest_seq-accepts c (a ∷ calls) k =
    highest_seq-accepts (accept c a.client_id a.seq a.now).1 calls k
    ∙ ap (λ n. greatest k n calls) (highest_seq-accept c a k)
