-- ===== src/ClientStage/Manifest/Calls.antt =====
-- The calls of a manifest, against a map that no file stands behind.
use mathlib.Core.Path.{fun_ext, subst}
use leyline.Base.{
  Bool, Bool-cases, List, Option, Text, [], ap, arith, false, if◌then◌else◌, inl, inr, length, ltb,
  none, refl, some, text_eq, true, ◌&&◌, ◌*◌, ◌||◌, ◌∙◌, ◌∷◌, ◌≡◌,
}
use leyline.Base.Dict
use leyline.Base.Dict.Keys.{HasDistinctKeys}
use leyline.ClientStage.Rows.{Replace, not_reopened, not_replaced, replaced, whole_file}
use leyline.ClientStage.Manifest.{
  Manifest, ManifestEntry, Writer, Writes, add_row, append_open, append_row, append_with,
  close_manifest, closed, compact, delete_entry, not_synced, open_manifest, open_rows, put_entry,
  ready, row_cut, stuck, synced, take_row, take_rows,
}
use leyline.ClientStage.Manifest.Reopen.{
  AreFiled, IsKept, IsMirrored, Live, after_row-AreFiled, after_row-HasDistinctKeys,
  append_row-IsKept, compact-IsKept, is_synced, replaces, with_row,
}

-- A call, with what becomes of its writes. A call that panics leaves the manifest as it was.
pub data Call : Type 0 where
  put_call : Writes → Text → ManifestEntry → Call
  delete_call : Writes → Text → Call
  compact_call : Replace → Call
  close_call : Call

unfoldable pub call : Manifest → Call → Manifest
call m (put_call w path e) = (put_entry w path e m).1
call m (delete_call w path) = (delete_entry w path m).1
call m (compact_call r) = (compact r m).1
call m close_call = close_manifest m

abbrev pub calls : Manifest → List Call → Manifest
calls m [] = m
calls m (c ∷ cs) = calls (call m c) cs

abbrev pub View : Type 0
View = Text → Option ManifestEntry

abbrev pub view_of : Manifest → View
view_of m k = Dict.get m.live k

abbrev pub is_ready : Writer → Bool
is_ready ready = true
is_ready stuck = false
is_ready closed = false

-- A put or a delete takes effect if the writer is open and the row is written and synced.
abbrev pub takes : Writer → Writes → Bool
takes writer w = is_ready writer && is_synced w

-- The map after a call of a manifest with this writer.
pub ideal : Writer → Call → View → View
ideal writer (put_call w path e) v k =
    if takes writer w && text_eq path k
    then some (record e { path = path; deleted = false })
    else v k
ideal writer (delete_call w path) v k = if takes writer w && text_eq path k then none else v k
ideal writer (compact_call r) v k = v k
ideal writer close_call v k = v k

-- The map after the calls of the manifest.
abbrev pub ideals : Manifest → List Call → View → View
ideals m [] v = v
ideals m (c ∷ cs) v = ideals (call m c) cs (ideal m.writer c v)

-- Has no write of a row and no fsync failed since the last call of `Compact` that put its file in
-- place?
abbrev pub settled_by : Bool → Call → Bool
settled_by b (put_call w path e) = b && is_synced w
settled_by b (delete_call w path) = b && is_synced w
settled_by b (compact_call r) = b || replaces r
settled_by b close_call = b

abbrev pub is_settled : Bool → List Call → Bool
is_settled b [] = b
is_settled b (c ∷ cs) = is_settled (settled_by b c) cs

live-compact : (r : Replace) (m : Manifest) → (compact r m).1.live ≡ m.live
unfolding compact
live-compact replaced m = refl
live-compact not_replaced m = refl
live-compact not_reopened m = refl

live-add_row :
    (r : Replace) (e : ManifestEntry) (m : Manifest) → (add_row r e m).1.live ≡ take_row e m.live
unfolding add_row
live-add_row r e m =
    let next = with_row e m in
    elim (Bool-cases (ltb (2 * length next.live) next.rows && ltb 0 (length next.live))) [
      | inl h ↦ rw h (live-compact r next)
      | inr h ↦ rw h refl
    ]

live-append_open :
    (w : Writes) (e : ManifestEntry) (m : Manifest)
    → (append_open w e m).1.live ≡ (if is_synced w then take_row e m.live else m.live)
unfolding append_open
live-append_open (row_cut c) e m = refl
live-append_open not_synced e m = refl
live-append_open (synced r) e m = live-add_row r e m

live-append_with :
    (writer : Writer) (w : Writes) (e : ManifestEntry) (m : Manifest)
    → (append_with writer w e m).1.live ≡ (if takes writer w then take_row e m.live else m.live)
live-append_with ready w e m = live-append_open w e m
live-append_with stuck w e m = refl
live-append_with closed w e m = refl

view-append_row :
    (w : Writes) (e : ManifestEntry) (m : Manifest) (k : Text)
    → Dict.get (append_row w e m).1.live k
      ≡ (if takes m.writer w then Dict.get (take_row e m.live) k else Dict.get m.live k)
unfolding append_row
view-append_row w e m k =
    ap (λ live. Dict.get live k) (live-append_with m.writer w e m) ∙ ground arith

view-call :
    (c : Call) (m : Manifest) (k : Text) → view_of (call m c) k ≡ ideal m.writer c (view_of m) k
unfolding call ideal put_entry delete_entry close_manifest
view-call (put_call w path e) m k =
    view-append_row w _ m k ∙ unfold take_row in rw (Dict.get-put m.live path k _) (ground arith)
view-call (delete_call w path) m k =
    view-append_row w _ m k ∙ unfold take_row in rw (Dict.get-remove m.live path k) (ground arith)
view-call (compact_call r) m k = ap (λ live. Dict.get live k) (live-compact r m)
view-call close_call m k = refl

view-calls :
    (cs : List Call) (m : Manifest) (v : View)
    → ((k : Text) → view_of m k ≡ v k)
    → (k : Text) → view_of (calls m cs) k ≡ ideals m cs v k
view-calls [] m v h k = h k
view-calls (c ∷ cs) m v h k =
    view-calls cs (call m c) (ideal m.writer c v)
      (λ j. view-call c m j ∙ ap (λ u. ideal m.writer c u j) (fun_ext h)) k

call-IsKept : (b : Bool) (c : Call) (m : Manifest) → IsKept b m → IsKept (settled_by b c) (call m c)
unfolding call put_entry delete_entry close_manifest
call-IsKept b (put_call w path e) m v = append_row-IsKept b w _ m v
call-IsKept b (delete_call w path) m v = append_row-IsKept b w _ m v
call-IsKept b (compact_call r) m v = compact-IsKept b r m v
call-IsKept b close_call m v = record {
  distinct = v.distinct;
  filed = v.filed;
  mirrored = λ h. let w = v.mirrored h in record { ends = w.ends; held = w.held };
}

calls-IsKept :
    (b : Bool) (cs : List Call) (m : Manifest) → IsKept b m → IsKept (is_settled b cs) (calls m cs)
calls-IsKept b [] m v = v
calls-IsKept b (c ∷ cs) m v = calls-IsKept (settled_by b c) cs (call m c) (call-IsKept b c m v)

take_rows-HasDistinctKeys :
    (es : List ManifestEntry) (live : Live)
    → HasDistinctKeys live
    → HasDistinctKeys (take_rows es live)
unfolding take_rows take_row
take_rows-HasDistinctKeys [] live d = d
take_rows-HasDistinctKeys (e ∷ es) live d =
    take_rows-HasDistinctKeys es (take_row e live) (after_row-HasDistinctKeys e.deleted e live d)

take_rows-AreFiled :
    (es : List ManifestEntry) (live : Live) → AreFiled live → AreFiled (take_rows es live)
unfolding take_rows take_row
take_rows-AreFiled [] live f = f
take_rows-AreFiled (e ∷ es) live f =
    take_rows-AreFiled es (take_row e live) (after_row-AreFiled e.deleted e live refl f)

-- The manifest that is opened on a file whose lines all end and parse.
abbrev pub opened : List ManifestEntry → Manifest
opened es = record {
  live = take_rows es [];
  rows = length es;
  file = whole_file es;
  writer = ready;
}

opened-IsKept : (es : List ManifestEntry) → IsKept true (opened es)
opened-IsKept es = record {
  distinct = take_rows-HasDistinctKeys es [] tt;
  filed = take_rows-AreFiled es [] tt;
  mirrored = λ h. record { ends = refl; held = λ k. refl };
}

-- A manifest that opens and has these entries.
abbrev pub OpensAs : View → Option Manifest → Type 0
OpensAs v none = ⊥
OpensAs v (some m) = (k : Text) → view_of m k ≡ v k

OpensAs-mirrored :
    (m : Manifest) (v : View)
    → IsMirrored m
    → ((k : Text) → view_of m k ≡ v k)
    → OpensAs v (open_manifest m.file)
unfolding open_manifest open_rows
OpensAs-mirrored m v w h = rw w.ends (λ k. w.held k ∙ h k)

-- A manifest that is opened on a file of whole rows, goes through any calls, and is opened again on
-- the file that is left, opens and has the entries that the calls made of those of the first file:
-- the puts and deletes whose row was written and synced by an open writer, however often the file
-- was compacted, and whether or not compactions fail. A write of a row or an fsync that fails is
-- followed by a call of `Compact` that puts its file in place.
pub calls-reopen :
    (es : List ManifestEntry) (cs : List Call) (m : Manifest)
    → open_manifest (whole_file es) ≡ some m
    → is_settled true cs ≡ true
    → OpensAs (ideals m cs (view_of m)) (open_manifest (calls m cs).file)
unfolding open_manifest open_rows
calls-reopen es cs m e h =
    let same : opened es ≡ m = ap (λ o. get_or_opened es o) e in
    subst (λ m. OpensAs (ideals m cs (view_of m)) (open_manifest (calls m cs).file)) same
      (OpensAs-mirrored (calls (opened es) cs) _
        ((calls-IsKept true cs (opened es) (opened-IsKept es)).mirrored h)
        (view-calls cs (opened es) (view_of (opened es)) (λ j. refl)))
  where
    get_or_opened : List ManifestEntry → Option Manifest → Manifest
    get_or_opened es none = opened es
    get_or_opened es (some m) = m
