-- ===== src/ServerStage/Wal/Crash.antt =====
-- What a replay reads from the file that a crash leaves.
use leyline.Base.{
  All, All-keep, Bool, Bool-cases, List, Option, Text, [], ap, append-nil, append_assoc, arith,
  drop, drop-append_self, false, inl, inr, is_empty, keep, length, length-append, ltb, none, not,
  refl, some, suc, sym, take, take-append_self, zero, ℕ, ◌%◌, ◌++◌, ◌+◌, ◌-◌, ◌<◌, ◌^◌, ◌∙◌, ◌∷◌,
  ◌≡◌, ◌≤◌,
}
use leyline.ServerStage.Wal.{
  Replayed, checksum_ieee, frames, make_frame, max_wal_payload_len, put_uint32, replay,
  replay_rounds, truncate_file, uint32, with_entry,
}

uint32-put : (n : ℕ) (s : Text) → n < 2 ^ 32 → uint32 (put_uint32 n s) ≡ n
unfolding uint32 put_uint32
uint32-put n s h = omega arith

checksum_ieee-bound : (p : Text) → checksum_ieee p < 2 ^ 32
unfolding checksum_ieee
checksum_ieee-bound p = omega arith

length-make_frame : (p : Text) → length (make_frame p) ≡ 8 + length p
unfolding make_frame put_uint32
length-make_frame p = omega arith

append-make_frame :
    (p rest : Text)
    → make_frame p ++ rest
      ≡ put_uint32 (length p % 2 ^ 32) (put_uint32 (checksum_ieee p) (p ++ rest))
unfolding make_frame put_uint32
append-make_frame p rest = refl

length-frame : (n c : ℕ) (s : Text) → length (put_uint32 n (put_uint32 c s)) ≡ 8 + length s
unfolding put_uint32
length-frame n c s = omega arith

drop-header : (n c : ℕ) (s : Text) → drop 8 (put_uint32 n (put_uint32 c s)) ≡ s
unfolding put_uint32
drop-header n c s = refl

drop-length : (n c : ℕ) (s : Text) → drop 4 (put_uint32 n (put_uint32 c s)) ≡ put_uint32 c s
unfolding put_uint32
drop-length n c s = refl

is_empty-frame : (n c : ℕ) (s : Text) → is_empty (put_uint32 n (put_uint32 c s)) ≡ false
unfolding put_uint32
is_empty-frame n c s = refl

module _ {Entry : Type 0} (encode : Entry → Option Text) (decode : Text → Option Entry) where
  -- A frame is read whole, and the replay goes on after it.
  replay_rounds-frame :
      (fuel : ℕ) (p rest : Text)
      → length p ≤ max_wal_payload_len
      → replay_rounds encode decode (suc fuel) (make_frame p ++ rest)
        ≡ with_entry encode decode (decode p) (replay_rounds encode decode fuel rest)
  unfolding replay_rounds
  replay_rounds-frame fuel p rest h =
      let small : length p % 2 ^ 32 ≡ length p = omega (arith, h) in
      rw
        (
          append-make_frame p rest,
          small,
          is_empty-frame (length p) (checksum_ieee p) (p ++ rest),
          drop-header (length p) (checksum_ieee p) (p ++ rest),
          drop-length (length p) (checksum_ieee p) (p ++ rest),
          uint32-put (length p) (put_uint32 (checksum_ieee p) (p ++ rest)) (omega (arith, h)),
          uint32-put (checksum_ieee p) (p ++ rest) (checksum_ieee-bound p),
          take-append_self p rest,
          drop-append_self p rest,
          length-append p rest,
          length-frame (length p) (checksum_ieee p) (p ++ rest),
        )
        (ground (arith, h))

  -- An entry that the log can hold: its encoding decodes to it and is no longer than a frame may be.
  pub record IsStorable (e : Entry) : Type 0 where
    pub bytes : Text
    pub encoded : encode e ≡ some bytes
    pub decoded : decode bytes ≡ some e
    pub short : length bytes ≤ max_wal_payload_len

  replay_rounds-short :
      (fuel : ℕ) (s : Text) → length s < 8 → (replay_rounds encode decode fuel s).0 ≡ []
  unfolding replay_rounds
  replay_rounds-short zero s h = refl
  replay_rounds-short (suc fuel) [] h = refl
  replay_rounds-short (suc fuel) (b ∷ s) h = ground (arith, h)

  length-take : (k : ℕ) (s : Text) → length (take k s) ≤ k
  length-take zero s = omega arith
  length-take (suc k) [] = omega arith
  length-take (suc k) (b ∷ s) = omega (arith, length-take k s)

  take-header :
      (j n c : ℕ) (s : Text)
      → take (8 + j) (put_uint32 n (put_uint32 c s)) ≡ put_uint32 n (put_uint32 c (take j s))
  unfolding put_uint32
  take-header j n c s =
      let grown : 8 + j ≡ suc (suc (suc (suc (suc (suc (suc (suc j))))))) = omega arith in
      rw grown refl

  -- A frame whose payload is cut short is not read.
  replay_rounds-cut :
      (fuel j : ℕ) (q : Text)
      → length q ≤ max_wal_payload_len
      → j < length q
      → (replay_rounds encode decode fuel (take (8 + j) (make_frame q))).0 ≡ []
  unfolding replay_rounds make_frame
  replay_rounds-cut zero j q h k = refl
  replay_rounds-cut (suc fuel) j q h k =
      let small : length q % 2 ^ 32 ≡ length q = omega (arith, h) in
      rw
        (
          take-header j (length q % 2 ^ 32) (checksum_ieee q) q,
          small,
          is_empty-frame (length q) (checksum_ieee q) (take j q),
          drop-header (length q) (checksum_ieee q) (take j q),
          uint32-put (length q) (put_uint32 (checksum_ieee q) (take j q)) (omega (arith, h)),
          length-frame (length q) (checksum_ieee q) (take j q),
        )
        (ground (arith, h, k, length-take j q))

  replay_rounds-torn :
      (fuel k : ℕ) (q : Text)
      → length q ≤ max_wal_payload_len
      → k < length (make_frame q)
      → (replay_rounds encode decode fuel (take k (make_frame q))).0 ≡ []
  replay_rounds-torn fuel k q h t = elim (Bool-cases (ltb k 8)) [
    | inl e ↦
        replay_rounds-short fuel (take k (make_frame q))
          (ground (arith, e, length-take k (make_frame q)))
    | inr e ↦
        let parts : k ≡ 8 + (k - 8) = ground (arith, e) in
        rw parts (replay_rounds-cut fuel (k - 8) q h (ground (arith, e, t, length-make_frame q)))
  ]

  frames-cons :
      (e : Entry) (es : List Entry) (g : IsStorable e)
      → frames encode decode (e ∷ es) ≡ make_frame g.bytes ++ frames encode decode es
  unfolding frames
  frames-cons e es g = rw g.encoded refl

  -- What the replay of the tail of a file, with the fuel that is left, makes of the whole.
  abbrev Continues : ℕ → List Entry → Text → Type 0
  Continues fuel es tail =
      (left : ℕ) × (replay_rounds encode decode fuel (frames encode decode es ++ tail) ≡ (
        es ++ (replay_rounds encode decode left tail).0,
        (replay_rounds encode decode left tail).1,
      ))

  replay_rounds-frames :
      (es : List Entry) (fuel : ℕ) (tail : Text)
      → All IsStorable es
      → length (frames encode decode es ++ tail) ≤ fuel
      → Continues fuel es tail
  unfolding with_entry
  replay_rounds-frames [] fuel tail g h = (fuel, unfold frames in refl)
  replay_rounds-frames (e ∷ es) zero tail g h = absurd (
      ground (
        arith,
        h,
        ap (λ f. length (f ++ tail)) (frames-cons e es g.0),
        length-append (make_frame g.0.bytes ++ frames encode decode es) tail,
        length-append (make_frame g.0.bytes) (frames encode decode es),
        length-make_frame g.0.bytes,
      ))
  replay_rounds-frames (e ∷ es) (suc fuel) tail g h =
      let shorter : length (frames encode decode es ++ tail) ≤ fuel = ground (
        arith,
        h,
        ap (λ f. length (f ++ tail)) (frames-cons e es g.0),
        length-append (make_frame g.0.bytes ++ frames encode decode es) tail,
        length-append (make_frame g.0.bytes) (frames encode decode es),
        length-append (frames encode decode es) tail,
        length-make_frame g.0.bytes,
      ) in
      let next = replay_rounds-frames es fuel tail g.1 shorter in
      (
        next.0,
        ap (λ f. replay_rounds encode decode (suc fuel) (f ++ tail)) (frames-cons e es g.0)
            ∙ ap (replay_rounds encode decode (suc fuel))
                (append_assoc (make_frame g.0.bytes) (frames encode decode es) tail)
            ∙ replay_rounds-frame fuel g.0.bytes (frames encode decode es ++ tail) g.0.short
            ∙ ap
                (λ o.
                  with_entry encode decode o
                    (replay_rounds encode decode fuel (frames encode decode es ++ tail)))
                g.0.decoded
            ∙ ap (with_entry encode decode (some e)) next.1,
      )

  -- After a crash within the append of a frame the replay reads the entries that were appended
  -- before, all of them and nothing else: where each of them is storable, and the file ends in a
  -- proper prefix of a frame with a payload of at most 15 MiB.
  pub replay-torn :
      (es : List Entry) (q : Text) (k : ℕ)
      → All IsStorable es
      → length q ≤ max_wal_payload_len
      → k < length (make_frame q)
      → (replay encode decode (frames encode decode es ++ take k (make_frame q))).0 ≡ es
  unfolding replay
  replay-torn es q k g h t =
      let whole = replay_rounds-frames es _ (take k (make_frame q)) g (omega arith) in
      ap (λ (r : Replayed encode decode). r.0) whole.1
      ∙ rw (replay_rounds-torn whole.0 k q h t) (append-nil es)

  replay_rounds-nil : (n : ℕ) → replay_rounds encode decode n [] ≡ ([], none)
  unfolding replay_rounds
  replay_rounds-nil zero = refl
  replay_rounds-nil (suc n) = refl

  -- A file of whole frames is read without an error.
  replay-frames :
      (es : List Entry)
      → All IsStorable es
      → replay encode decode (frames encode decode es) ≡ (es, none)
  unfolding replay
  replay-frames es g =
      let file = frames encode decode es in
      let whole = replay_rounds-frames es (length file) [] g (rw (append-nil file) (omega arith)) in
      ap (replay_rounds encode decode (length file)) (sym (append-nil file))
      ∙ whole.1
      ∙ rw (replay_rounds-nil whole.0, append-nil es) refl

  -- A truncation after such a crash writes a file that is read without an error, and holds the
  -- entries of the other clients, in their order.
  pub replay-truncate_file :
      (es : List Entry) (q : Text) (k : ℕ) (is_client : Entry → Bool)
      → All IsStorable es
      → length q ≤ max_wal_payload_len
      → k < length (make_frame q)
      → replay encode decode
          (truncate_file encode decode is_client (frames encode decode es ++ take k (make_frame q)))
        ≡ (keep (λ e. not (is_client e)) es, none)
  unfolding truncate_file
  replay-truncate_file es q k is_client g h t =
      rw (replay-torn es q k g h t)
        (replay-frames (keep (λ e. not (is_client e)) es) (All-keep _ _ es g))
