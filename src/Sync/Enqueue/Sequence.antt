-- ===== src/Sync/Enqueue/Sequence.antt =====
-- The sequence numbers of the staged log rise, below the next number to be given.
use leyline.Base.{
  Bool, Bool-cases, List, [], ap, append-nil, append_assoc, arith, false, inl, inr, keep, length,
  map, none, not, refl, suc, sym, true, ℕ, ◌%◌, ◌&&◌, ◌++◌, ◌+◌, ◌<◌, ◌^◌, ◌∙◌, ◌∷◌, ◌≡◌, ◌≤◌,
}
use leyline.Protocol.Op.{Op}
use leyline.Sync.Enqueue.{
  Queue, StagedOp, enqueue_from, enqueue_ops, fail_op, is_existing, numbered, push_op,
}

abbrev pub seq_of : StagedOp → ℕ
seq_of s = s.op.seq

-- From a bound on, the numbers rise strictly, and stay below the last bound.
abbrev pub Rises : ℕ → List StagedOp → ℕ → Type 0
Rises lo [] hi = lo ≤ hi
Rises lo (s ∷ ss) hi = (lo ≤ seq_of s) × Rises (suc (seq_of s)) ss hi

abbrev pub IsOrdered : Queue → Type 0
IsOrdered q = Rises 0 q.staged q.next_seq

Rises-append :
    (lo : ℕ) (ss : List StagedOp) (s : StagedOp) (hi : ℕ)
    → Rises lo ss hi
    → seq_of s ≡ hi
    → Rises lo (ss ++ s ∷ []) (suc hi)
Rises-append lo [] s hi h e = (omega arith, omega arith)
Rises-append lo (x ∷ ss) s hi h e = (h.0, Rises-append (suc (seq_of x)) ss s hi h.1 e)

Rises-weaken :
    (lo : ℕ) (ss : List StagedOp) (hi hi' : ℕ) → Rises lo ss hi → hi ≤ hi' → Rises lo ss hi'
Rises-weaken lo [] hi hi' h k = omega arith
Rises-weaken lo (x ∷ ss) hi hi' h k = (h.0, Rises-weaken (suc (seq_of x)) ss hi hi' h.1 k)

Rises-lower :
    (lo lo' : ℕ) (ss : List StagedOp) (hi : ℕ) → Rises lo ss hi → lo' ≤ lo → Rises lo' ss hi
Rises-lower lo lo' [] hi h k = omega arith
Rises-lower lo lo' (x ∷ ss) hi h k = (omega (arith, h.0), h.1)

next_no_wrap : (n : ℕ) → suc n < 2 ^ 64 → (n + 1) % 2 ^ 64 ≡ suc n
next_no_wrap n h = omega arith

-- A log with the numbers taken off.
abbrev pub unnumbered : List StagedOp → List Op
unnumbered = map (λ s. numbered 0 s.op)

unnumbered-append :
    (ss : List StagedOp) (s : StagedOp)
    → unnumbered (ss ++ s ∷ []) ≡ unnumbered ss ++ numbered 0 s.op ∷ []
unnumbered-append [] s = refl
unnumbered-append (x ∷ ss) s = ap (◌∷◌ (numbered 0 x.op)) (unnumbered-append ss s)

module _ (appended : Op → Bool) (frozen : Bool) where
  push_op-IsOrdered :
      (op : Op) (q : Queue)
      → IsOrdered q
      → suc q.next_seq < 2 ^ 64
      → IsOrdered (push_op appended frozen op q)
  unfolding push_op numbered
  push_op-IsOrdered op q h b = rw (next_no_wrap q.next_seq b) (
      Rises-append 0 q.staged
        record { op = numbered q.next_seq op; frozen = frozen; frozen_local_hash = none } q.next_seq
        h refl)

  next_seq-push_op :
      (op : Op) (q : Queue)
      → suc q.next_seq < 2 ^ 64
      → (push_op appended frozen op q).next_seq ≡ suc q.next_seq
  unfolding push_op
  next_seq-push_op op q b = next_no_wrap q.next_seq b

  fail_op-IsOrdered :
      (q : Queue) → IsOrdered q → suc q.next_seq < 2 ^ 64 → IsOrdered (fail_op appended frozen q)
  unfolding fail_op
  fail_op-IsOrdered q h b =
      rw (next_no_wrap q.next_seq b)
        (Rises-weaken 0 q.staged q.next_seq (suc q.next_seq) h (omega arith))

  enqueue_from-IsOrdered :
      (existing : List StagedOp) (wrote : Bool) (ops : List Op) (q : Queue)
      → IsOrdered q
      → q.next_seq + length ops < 2 ^ 64
      → IsOrdered (enqueue_from appended frozen existing wrote ops q).queue
  unfolding enqueue_from
  enqueue_from-IsOrdered existing wrote [] q h b = h
  enqueue_from-IsOrdered existing wrote (op ∷ ops) q h b =
      let one : suc q.next_seq < 2 ^ 64 = omega (arith, b) in
      elim (Bool-cases (is_existing existing op.path)) [
        | inl e ↦ rw e (enqueue_from-IsOrdered existing wrote ops q h (omega (arith, b)))
        | inr e ↦ elim (Bool-cases (appended (numbered q.next_seq op))) [
          | inl a ↦
              rw (e, a)
                (enqueue_from-IsOrdered existing true ops (push_op appended frozen op q)
                  (push_op-IsOrdered op q h one) (omega (arith, b, next_seq-push_op op q one)))
          | inr a ↦ rw (e, a) (fail_op-IsOrdered q h one)
        ]
      ]

  -- From a log whose numbers rise strictly, below the next number to be given, the log has such
  -- numbers after the operations are enqueued, whether or not the appends succeed, provided that
  -- the counter does not reach 2 ^ 64.
  pub enqueue_ops-IsOrdered :
      (written : Bool) (ops : List Op) (q : Queue)
      → IsOrdered q
      → q.next_seq + length ops < 2 ^ 64
      → IsOrdered (enqueue_ops appended frozen written ops q).queue
  unfolding enqueue_ops
  enqueue_ops-IsOrdered written ops q h b =
      let r = enqueue_from appended frozen q.staged false ops q in
      let k = enqueue_from-IsOrdered q.staged false ops q h b in
      elim (Bool-cases (r.ok && r.writes_base)) [ inl e ↦ rw e k | inr e ↦ rw e k ]

module _ (frozen : Bool) where
  push_op-unnumbered :
      (op : Op) (q : Queue)
      → unnumbered (push_op (λ op. true) frozen op q).staged
        ≡ unnumbered q.staged ++ numbered 0 op ∷ []
  unfolding push_op numbered
  push_op-unnumbered op q =
      unnumbered-append q.staged
        record { op = numbered q.next_seq op; frozen = frozen; frozen_local_hash = none }

  enqueue_from-unnumbered :
      (existing : List StagedOp) (wrote : Bool) (ops : List Op) (q : Queue)
      → unnumbered (enqueue_from (λ op. true) frozen existing wrote ops q).queue.staged
        ≡ unnumbered q.staged
          ++ map (numbered 0) (keep (λ op. not (is_existing existing op.path)) ops)
  unfolding enqueue_from
  enqueue_from-unnumbered existing wrote [] q = sym (append-nil _)
  enqueue_from-unnumbered existing wrote (op ∷ ops) q =
      elim (Bool-cases (is_existing existing op.path)) [
        | inl e ↦ rw (e, keep) (enqueue_from-unnumbered existing wrote ops q)
        | inr e ↦
            rw (e, keep)
              (enqueue_from-unnumbered existing true ops (push_op (λ op. true) frozen op q)
                ∙ ap
                    (λ t.
                      t ++ map (numbered 0) (keep (λ op. not (is_existing existing op.path)) ops))
                    (push_op-unnumbered op q)
                ∙ append_assoc (unnumbered q.staged) (numbered 0 op ∷ [])
                    (map (numbered 0) (keep (λ op. not (is_existing existing op.path)) ops)))
      ]

  -- Where every append succeeds, the log has the operations that it had, and after them those that
  -- are enqueued and whose path none of the former has, in their order, several of one path too;
  -- the numbers apart.
  pub enqueue_ops-appends :
      (written : Bool) (ops : List Op) (q : Queue)
      → unnumbered (enqueue_ops (λ op. true) frozen written ops q).queue.staged
        ≡ unnumbered q.staged
          ++ map (numbered 0) (keep (λ op. not (is_existing q.staged op.path)) ops)
  unfolding enqueue_ops
  enqueue_ops-appends written ops q =
      let r = enqueue_from (λ op. true) frozen q.staged false ops q in
      let k = enqueue_from-unnumbered q.staged false ops q in
      elim (Bool-cases (r.ok && r.writes_base)) [ inl e ↦ rw e k | inr e ↦ rw e k ]
