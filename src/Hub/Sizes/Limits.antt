-- ===== src/Hub/Sizes/Limits.antt =====
-- The projection of `WouldExceed` agrees with `Apply`.
use leyline.Base.{
  Bool-cases, List, Option, Option-cases, Text, [], ap, arith, if◌then◌else◌, inl, inr, length,
  none, refl, some, sum_by, sym, text_eq, ℕ, ◌+◌, ◌-◌, ◌<◌, ◌↔◌, ◌∙◌, ◌∷◌, ◌≡◌, ◌≤◌,
}
use leyline.Base.Dict
use leyline.Base.Dict.Keys.{
  HasDistinctKeys, is_present, length-remove, put-HasDistinctKeys, remove-HasDistinctKeys,
  remove_absent, size_of, sum_by-remove,
}
use leyline.Hub.Sizes.{
  Projection, SizeTracker, absent_count, apply_size, apply_sizes, delete_found, delete_size,
  lookup_size, project, project_all, project_delete, project_delete_found, project_rename_found,
  project_write, rename_found, rename_size, set_size, shadow_or, size_or_zero, start_projection,
  would_exceed,
}
use leyline.Protocol.Op.{Op, OpType, op_delete, op_rename, op_write, other}

-- What holds of every tracker: one entry to a path, and the sum of the entries as the total.
pub record IsConsistent (s : SizeTracker) : Type 0 where
  pub distinct : HasDistinctKeys s.sizes
  pub total : s.total_bytes ≡ sum_by (λ e. e.1) s.sizes

abbrev total_of : List (Text × ℕ) → ℕ
total_of m = sum_by (λ e. e.1) m

size_of-same : (o : Option ℕ) → size_of (λ n. n) o ≡ size_or_zero o
size_of-same none = refl
size_of-same (some n) = refl

total_of-remove :
    (m : List (Text × ℕ)) (k : Text)
    → HasDistinctKeys m
    → total_of m ≡ total_of (Dict.remove m k) + size_or_zero (Dict.get m k)
total_of-remove m k h = rw (sym (size_of-same (Dict.get m k))) (sum_by-remove (λ n. n) m k h)

set_size-IsConsistent :
    (s : SizeTracker) (path : Text) (n : ℕ) → IsConsistent s → IsConsistent (set_size s path n)
unfolding set_size
set_size-IsConsistent s path n c = record {
  distinct = put-HasDistinctKeys s.sizes path n c.distinct;
  total = unfold Dict.put in omega (arith, c.total, total_of-remove s.sizes path c.distinct);
}

-- What `Delete` does, whether or not there is an entry.
delete_size-cleared :
    (s : SizeTracker) (path : Text)
    → delete_size s path ≡ record {
      sizes = Dict.remove s.sizes path;
      total_bytes = s.total_bytes - size_or_zero (Dict.get s.sizes path);
    }
unfolding delete_size delete_found
delete_size-cleared s path = elim (Option-cases (Dict.get s.sizes path)) [
  | inl e ↦
      rw (e, remove_absent s.sizes path e)
        (ap (λ b. record s { total_bytes = b })
          (let z : s.total_bytes ≡ s.total_bytes - 0 = omega arith in z))
  | inr (n, e) ↦ rw e refl
]

delete_size-IsConsistent :
    (s : SizeTracker) (path : Text) → IsConsistent s → IsConsistent (delete_size s path)
delete_size-IsConsistent s path c = rw (delete_size-cleared s path) (record {
  distinct = remove-HasDistinctKeys s.sizes path c.distinct;
  total = omega (arith, c.total, total_of-remove s.sizes path c.distinct);
})

-- The projection `p` describes the tracker `t`.
record Describes (s : SizeTracker) (p : Projection) (t : SizeTracker) : Type 0 where
  looked_up : (path : Text) → lookup_size s p path ≡ Dict.get t.sizes path
  count : p.proj_count ≡ length t.sizes
  bytes : p.proj_bytes ≡ t.total_bytes

lookup_size-put :
    (s : SizeTracker) (sh : List (Text × Option ℕ)) (k : Text) (v : Option ℕ) (c b c1 b1 : ℕ)
    (j : Text)
    → lookup_size s (record { shadowed = Dict.put sh k v; proj_count = c; proj_bytes = b }) j ≡ (
        if text_eq k j
        then v
        else lookup_size s (record { shadowed = sh; proj_count = c1; proj_bytes = b1 }) j)
unfolding lookup_size shadow_or
lookup_size-put s sh k v c b c1 b1 j =
    rw (Dict.get-put sh k j v)
      (elim (Bool-cases (text_eq k j)) [ inl e ↦ rw e refl | inr e ↦ rw e refl ])

counted_once : (o : Option ℕ) → is_present o + absent_count o ≡ 1
counted_once none = omega arith
counted_once (some n) = omega arith

length-put :
    (m : List (Text × ℕ)) (k : Text) (n : ℕ)
    → HasDistinctKeys m
    → length m + absent_count (Dict.get m k) ≡ length (Dict.put m k n)
unfolding Dict.put
length-put m k n h = omega (arith, length-remove m k h, counted_once (Dict.get m k))

project_write-Describes :
    (s : SizeTracker) (p : Projection) (t : SizeTracker) (path : Text) (n : ℕ)
    → IsConsistent t
    → Describes s p t
    → Describes s (project_write s p path n) (set_size t path n)
unfolding project_write set_size
project_write-Describes s p t path n c d = record {
  looked_up = λ j.
      lookup_size-put s p.shadowed path (some n) _ _ p.proj_count p.proj_bytes j
      ∙ rw (Dict.get-put t.sizes path j n)
          (ap (λ o. if text_eq path j then some n else o) (d.looked_up j));
  count = rw (d.looked_up path, d.count) (length-put t.sizes path n c.distinct);
  bytes = rw (d.looked_up path, d.bytes) refl;
}

project_delete-Describes :
    (s : SizeTracker) (p : Projection) (t : SizeTracker) (path : Text)
    → IsConsistent t
    → Describes s p t
    → Describes s (project_delete s p path) (delete_size t path)
unfolding project_delete project_delete_found delete_size delete_found
project_delete-Describes s p t path c d = elim (Option-cases (Dict.get t.sizes path)) [
  | inl e ↦ rw (d.looked_up path, e) d
  | inr (n, e) ↦
      rw (d.looked_up path, e)
        (record {
          looked_up = λ j.
              lookup_size-put s p.shadowed path none _ _ p.proj_count p.proj_bytes j
              ∙ rw (Dict.get-remove t.sizes path j)
                  (ap (λ o. if text_eq path j then none else o) (d.looked_up j));
          count = omega (arith, d.count, length-remove t.sizes path c.distinct, ap is_present e);
          bytes = ap (λ b. b - n) d.bytes;
        })
]

apply_size-IsConsistent :
    (ty : OpType) (op : Op) (t : SizeTracker) → IsConsistent t → IsConsistent (apply_size ty op t)
unfolding apply_size rename_size rename_found
apply_size-IsConsistent op_write op t c = set_size-IsConsistent t op.path _ c
apply_size-IsConsistent op_delete op t c = delete_size-IsConsistent t op.path c
apply_size-IsConsistent op_rename op t c = elim (Option-cases (Dict.get t.sizes op.from)) [
  | inl e ↦ rw e c
  | inr (n, e) ↦
      rw e (
        set_size-IsConsistent (delete_size t op.from) op.to n
          (delete_size-IsConsistent t op.from c))
]
apply_size-IsConsistent (other x) op t c = c

-- Every tracker that `Apply` builds, from the empty one for instance, has one entry to a path, and
-- the sum of its entries as its total.
pub apply_sizes-IsConsistent :
    (t : SizeTracker) (ops : List Op) → IsConsistent t → IsConsistent (apply_sizes t ops)
unfolding apply_sizes
apply_sizes-IsConsistent t [] c = c
apply_sizes-IsConsistent t (op ∷ ops) c =
    apply_sizes-IsConsistent (apply_size op.type op t) ops (apply_size-IsConsistent op.type op t c)

project-Describes :
    (s : SizeTracker) (ty : OpType) (op : Op) (p : Projection) (t : SizeTracker)
    → IsConsistent t
    → Describes s p t
    → Describes s (project s ty op p) (apply_size ty op t)
unfolding project apply_size rename_size rename_found project_rename_found
project-Describes s op_write op p t c d = project_write-Describes s p t op.path _ c d
project-Describes s op_delete op p t c d = project_delete-Describes s p t op.path c d
project-Describes s op_rename op p t c d = elim (Option-cases (Dict.get t.sizes op.from)) [
  | inl e ↦ rw (d.looked_up op.from, e) d
  | inr (n, e) ↦
      rw (d.looked_up op.from, e)
        (project_write-Describes s (project_delete s p op.from) (delete_size t op.from) op.to n
          (delete_size-IsConsistent t op.from c) (project_delete-Describes s p t op.from c d))
]
project-Describes s (other x) op p t c d = d

project_all-Describes :
    (s : SizeTracker) (ops : List Op) (p : Projection) (t : SizeTracker)
    → IsConsistent t
    → Describes s p t
    → Describes s (project_all s ops p) (apply_sizes t ops)
unfolding project_all apply_sizes
project_all-Describes s [] p t c d = d
project_all-Describes s (op ∷ ops) p t c d =
    project_all-Describes s ops (project s op.type op p) (apply_size op.type op t)
      (apply_size-IsConsistent op.type op t c) (project-Describes s op.type op p t c d)

start_projection-Describes : (s : SizeTracker) → Describes s (start_projection s) s
unfolding lookup_size shadow_or Dict.get
start_projection-Describes s = record { looked_up = λ path. refl; count = refl; bytes = refl }

-- A tracker within the two caps, where a cap of 0 is none.
pub record Fits (t : SizeTracker) (max_files max_bytes : ℕ) : Type 0 where
  pub files : 0 < max_files → length t.sizes ≤ max_files
  pub bytes : 0 < max_bytes → t.total_bytes ≤ max_bytes

-- `WouldExceed` lets a batch through exactly when `Apply` of the batch leaves the tracker within the
-- caps, where the tracker has one entry to a path and the sum of its entries as its total.
pub would_exceed-eq_none_iff :
    (s : SizeTracker) (ops : List Op) (max_files max_bytes : ℕ)
    → IsConsistent s
    → (would_exceed s ops max_files max_bytes ≡ none) ↔ Fits (apply_sizes s ops) max_files max_bytes
unfolding would_exceed
would_exceed-eq_none_iff s ops max_files max_bytes c =
    let d : Describes s (project_all s ops (start_projection s)) (apply_sizes s ops) =
      project_all-Describes s ops (start_projection s) s c (start_projection-Describes s) in
    (
      (λ h. record { files = ground (arith, d.count); bytes = ground (arith, d.bytes) }),
      (λ f. ground (arith, d.count, d.bytes, f.files, f.bytes)),
    )
