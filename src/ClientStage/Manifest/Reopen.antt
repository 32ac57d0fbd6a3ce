-- ===== src/ClientStage/Manifest/Reopen.antt =====
-- What is read back from the file of a manifest.
use leyline.Base.{
  All, Bool, Bool-cases, List, Option, Text, [], ap, arith, false, if◌then◌else◌, inl, inr, length,
  ltb, map, none, refl, some, text_eq, true, ◌&&◌, ◌*◌, ◌++◌, ◌+◌, ◌||◌, ◌∙◌, ◌∷◌, ◌≡◌,
}
use leyline.Base.Dict
use leyline.Base.Dict.Keys.{HasDistinctKeys, absent_at, put-HasDistinctKeys, remove-HasDistinctKeys}
use leyline.ClientStage.Rows.{
  Replace, Tail, broken, ended, not_reopened, not_replaced, replaced, row_after, unended, write_row,
}
use leyline.ClientStage.Manifest.{
  Manifest, ManifestEntry, Writer, Writes, add_row, append_open, append_row, append_with, closed,
  compact, compacted_file, not_synced, ready, row_cut, stuck, synced, take_row, take_rows,
}

abbrev pub Live : Type 0
Live = List (Text × ManifestEntry)

-- Every entry of the map stands at its path, and is not deleted.
abbrev pub AreFiled : Live → Type 0
AreFiled live = All (λ (e : Text × ManifestEntry). (e.1.path ≡ e.0) × (e.1.deleted ≡ false)) live

-- The two maps have the same entries.
abbrev pub Agree : Live → Live → Type 0
Agree m n = (k : Text) → Dict.get m k ≡ Dict.get n k

abbrev first : Option ManifestEntry → Option ManifestEntry → Option ManifestEntry
first none o = o
first (some e) o = some e

first-none : (o : Option ManifestEntry) → first o none ≡ o
first-none none = refl
first-none (some e) = refl

take_row-filed :
    (e : ManifestEntry) (j : Text) (live : Live)
    → e.path ≡ j
    → e.deleted ≡ false
    → take_row e live ≡ Dict.put live j e
unfolding take_row
take_row-filed e j live p d =
    ap (λ b. if b then Dict.remove live e.path else Dict.put live e.path e) d
    ∙ ap (λ q. Dict.put live q e) p

-- The rows of a map whose keys are distinct, taken from another map, lay the one over the other.
take_rows-map :
    (m acc : Live) (k : Text)
    → HasDistinctKeys m
    → AreFiled m
    → Dict.get (take_rows (map (λ e. e.1) m) acc) k ≡ first (Dict.get m k) (Dict.get acc k)
unfolding take_rows Dict.get
take_rows-map [] acc k d f = refl
take_rows-map ((j, e) ∷ m) acc k d f =
    ap (λ live. Dict.get (take_rows (map (λ e. e.1) m) live) k) (take_row-filed e j acc f.0.0 f.0.1)
    ∙ take_rows-map m (Dict.put acc j e) k d.1 f.1
    ∙ rw (Dict.get-put acc j k e) (elim (Bool-cases (text_eq j k)) [
      | inl h ↦ rw (h, absent_at m j k h d.0) refl
      | inr h ↦ rw h refl
    ])

-- The file reads back as the map that is kept.
pub record IsMirrored (m : Manifest) : Type 0 where
  pub ends : m.file.tail ≡ ended
  pub held : Agree (take_rows m.file.rows []) m.live

-- The map is one, and where `settled` holds, it is the one of the file.
pub record IsKept (settled : Bool) (m : Manifest) : Type 0 where
  pub distinct : HasDistinctKeys m.live
  pub filed : AreFiled m.live
  pub mirrored : settled ≡ true → IsMirrored m

compacted_file-held :
    (m : Manifest)
    → HasDistinctKeys m.live
    → AreFiled m.live
    → Agree (take_rows (compacted_file m).rows []) m.live
unfolding Dict.get
compacted_file-held m d f k = take_rows-map m.live [] k d f ∙ first-none (Dict.get m.live k)

-- Does the compaction put the new file in place?
abbrev pub replaces : Replace → Bool
replaces replaced = true
replaces not_replaced = false
replaces not_reopened = true

pub compact-IsKept :
    (settled : Bool) (r : Replace) (m : Manifest)
    → IsKept settled m
    → IsKept (settled || replaces r) (compact r m).1
unfolding compact
compact-IsKept settled replaced m v = record {
  distinct = v.distinct;
  filed = v.filed;
  mirrored = λ h. record { ends = refl; held = compacted_file-held m v.distinct v.filed };
}
compact-IsKept settled not_reopened m v = record {
  distinct = v.distinct;
  filed = v.filed;
  mirrored = λ h. record { ends = refl; held = compacted_file-held m v.distinct v.filed };
}
compact-IsKept settled not_replaced m v = record {
  distinct = v.distinct;
  filed = v.filed;
  mirrored = λ h. let w = v.mirrored (ground (arith, h)) in record { ends = w.ends; held = w.held };
}

take_rows-append :
    (es : List ManifestEntry) (e : ManifestEntry) (live : Live)
    → take_rows (es ++ e ∷ []) live ≡ take_row e (take_rows es live)
unfolding take_rows
take_rows-append [] e live = refl
take_rows-append (d ∷ es) e live = take_rows-append es e (take_row d live)

-- The map after a row, where the field `Deleted` is the test.
abbrev pub after_row : Bool → ManifestEntry → Live → Live
after_row b e live = if b then Dict.remove live e.path else Dict.put live e.path e

after_row-Agree :
    (b : Bool) (e : ManifestEntry) (m n : Live)
    → Agree m n
    → Agree (after_row b e m) (after_row b e n)
after_row-Agree true e m n a k =
    rw (Dict.get-remove m e.path k, Dict.get-remove n e.path k, a k) refl
after_row-Agree false e m n a k =
    rw (Dict.get-put m e.path k e, Dict.get-put n e.path k e, a k) refl

pub after_row-HasDistinctKeys :
    (b : Bool) (e : ManifestEntry) (m : Live)
    → HasDistinctKeys m
    → HasDistinctKeys (after_row b e m)
after_row-HasDistinctKeys true e m d = remove-HasDistinctKeys m e.path d
after_row-HasDistinctKeys false e m d = put-HasDistinctKeys m e.path e d

remove-AreFiled : (m : Live) (k : Text) → AreFiled m → AreFiled (Dict.remove m k)
unfolding Dict.remove
remove-AreFiled [] k f = tt
remove-AreFiled ((j, e) ∷ m) k f = elim (Bool-cases (text_eq j k)) [
  | inl h ↦ rw h (remove-AreFiled m k f.1)
  | inr h ↦ rw h (f.0, remove-AreFiled m k f.1)
]

pub after_row-AreFiled :
    (b : Bool) (e : ManifestEntry) (m : Live)
    → e.deleted ≡ b
    → AreFiled m
    → AreFiled (after_row b e m)
unfolding Dict.put
after_row-AreFiled true e m h f = remove-AreFiled m e.path f
after_row-AreFiled false e m h f = ((refl, h), remove-AreFiled m e.path f)

-- The manifest with a row more.
abbrev pub with_row : ManifestEntry → Manifest → Manifest
with_row e m = record m { live = take_row e m.live; rows = m.rows + 1; file = write_row m.file e }

write_row-held :
    (e : ManifestEntry) (t : Tail) (rows : List ManifestEntry) (live : Live)
    → t ≡ ended
    → Agree (take_rows rows []) live
    → ((row_after t rows e).tail ≡ ended)
      × Agree (take_rows (row_after t rows e).rows []) (take_row e live)
unfolding take_row
write_row-held e ended rows live h a = (
  refl,
  (λ k.
      ap (λ live. Dict.get live k) (take_rows-append rows e [])
      ∙ after_row-Agree e.deleted e (take_rows rows []) live a k),
)
write_row-held e unended rows live h a = cc
write_row-held e broken rows live h a = cc

with_row-IsKept :
    (settled : Bool) (e : ManifestEntry) (m : Manifest)
    → IsKept settled m
    → IsKept settled (with_row e m)
unfolding take_row
with_row-IsKept settled e m v = record {
  distinct = after_row-HasDistinctKeys e.deleted e m.live v.distinct;
  filed = after_row-AreFiled e.deleted e m.live refl v.filed;
  mirrored = λ h.
      let w = v.mirrored h in
      let n = write_row-held e m.file.tail m.file.rows m.live w.ends w.held in
      record { ends = n.0; held = n.1 };
}

IsKept-weaken : (b c : Bool) (m : Manifest) → (c ≡ true → b ≡ true) → IsKept b m → IsKept c m
IsKept-weaken b c m i v = record {
  distinct = v.distinct;
  filed = v.filed;
  mirrored = λ h. v.mirrored (i h);
}

add_row-IsKept :
    (settled : Bool) (r : Replace) (e : ManifestEntry) (m : Manifest)
    → IsKept settled m
    → IsKept settled (add_row r e m).1
unfolding add_row
add_row-IsKept settled r e m v =
    let next = with_row e m in
    elim (Bool-cases (ltb (2 * length next.live) next.rows && ltb 0 (length next.live))) [
      | inl h ↦ rw h (
          IsKept-weaken (settled || replaces r) settled _ (λ k. ground (arith, k))
            (compact-IsKept settled r next (with_row-IsKept settled e m v)))
      | inr h ↦ rw h (with_row-IsKept settled e m v)
    ]

-- Is the row written and synced?
abbrev pub is_synced : Writes → Bool
is_synced (row_cut c) = false
is_synced not_synced = false
is_synced (synced r) = true

append_open-IsKept :
    (settled : Bool) (w : Writes) (e : ManifestEntry) (m : Manifest)
    → IsKept settled m
    → IsKept (settled && is_synced w) (append_open w e m).1
unfolding append_open
append_open-IsKept settled (row_cut c) e m v = record {
  distinct = v.distinct;
  filed = v.filed;
  mirrored = λ h. absurd (ground (arith, h));
}
append_open-IsKept settled not_synced e m v = record {
  distinct = v.distinct;
  filed = v.filed;
  mirrored = λ h. absurd (ground (arith, h));
}
append_open-IsKept settled (synced r) e m v =
    IsKept-weaken settled _ _ (λ k. ground (arith, k)) (add_row-IsKept settled r e m v)

append_with-IsKept :
    (settled : Bool) (writer : Writer) (w : Writes) (e : ManifestEntry) (m : Manifest)
    → IsKept settled m
    → IsKept (settled && is_synced w) (append_with writer w e m).1
append_with-IsKept settled ready w e m v = append_open-IsKept settled w e m v
append_with-IsKept settled stuck w e m v = IsKept-weaken settled _ _ (λ k. ground (arith, k)) v
append_with-IsKept settled closed w e m v = IsKept-weaken settled _ _ (λ k. ground (arith, k)) v

pub append_row-IsKept :
    (settled : Bool) (w : Writes) (e : ManifestEntry) (m : Manifest)
    → IsKept settled m
    → IsKept (settled && is_synced w) (append_row w e m).1
unfolding append_row
append_row-IsKept settled w e m v = append_with-IsKept settled m.writer w e m v
