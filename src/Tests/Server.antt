-- ===== src/Tests/Server.antt =====
-- Tests of the parts of the server around the push handler.
use leyline.Allowed.Size.{parse_size}
use leyline.Protocol.Version.{parse_digits}
use leyline.Base.Int.{pos}
use leyline.Base.{
  All, List, Option, Text, [], any, arith, codes, length, none, refl, some, take, text_eq, ◌++◌,
  ◌<◌, ◌↔◌, ◌∷◌, ◌≡◌,
}
use leyline.Base.Dict
use leyline.Protocol.Op.{Hash, Op}
use leyline.Protocol.PathUtil.Validate.{validate_path}
use leyline.Protocol.PathUtil.Validate.Wire.{IsWirePath, validate_path-eq_none_iff}
use leyline.ServerStage.Wal.{checksum_ieee, frames, make_frame, put_uint32, replay}
use leyline.ServerStage.Wal.Crash.{IsStorable, replay-torn}
use leyline.Hub.Sizes.{
  SizeTracker, apply_sizes, lookup_size, project_delete, project_write, would_exceed,
}
use leyline.Hub.Sizes.Limits.{Fits, IsConsistent, would_exceed-eq_none_iff}
use leyline.Hub.Stuck.{would_repeat}
use leyline.Hub.Stuck.Recent.{ring_of, would_repeat-recent}
use leyline.Hub.Broadcast.{broadcast_base, broadcast_ops}
use leyline.Hub.Broadcast.Visible.{broadcast_ops-filter, by_filter}
use leyline.Tests.Samples.{rename_op, write_op}
use leyline.Tests.Hub.{ann, any_form, any_glob, rules}

-- The check value of the polynomial.
checksum_ieee-digits : checksum_ieee (codes "123456789") ≡ 0xCBF43926
unfolding checksum_ieee
checksum_ieee-digits = refl

-- Texts as entries that are their own encoding.
abbrev texts : List Text
texts = codes "ab" ∷ codes "c" ∷ []

abbrev plain : Text → Option Text
plain p = some p

texts-IsStorable : All (IsStorable plain plain) texts
texts-IsStorable = (
  record { bytes = codes "ab"; encoded = refl; decoded = refl; short = omega arith },
  (record { bytes = codes "c"; encoded = refl; decoded = refl; short = omega arith }, tt),
)

frame-long : 9 < length (make_frame (codes "xyz"))
unfolding make_frame put_uint32
frame-long = omega arith

replay-torn_example :
    (replay plain plain (frames plain plain texts ++ take 9 (make_frame (codes "xyz")))).0 ≡ texts
replay-torn_example =
    replay-torn plain plain texts (codes "xyz") 9 texts-IsStorable (omega arith) frame-long

abbrev tracker : SizeTracker
tracker = record { sizes = (codes "a.md", 3) ∷ []; total_bytes = 3 }

tracker-IsConsistent : IsConsistent tracker
unfolding Dict.get
tracker-IsConsistent = record { distinct = (refl, tt); total = refl }

abbrev size_ops : List Op
size_ops = write_op 1 "b.md" "xyz" ∷ rename_op 2 "b.md" "a.md" ∷ []

would_exceed-renamed : would_exceed tracker size_ops 1 3 ≡ none
unfolding would_exceed project_write lookup_size project_delete Dict.get Dict.put Dict.remove
    text_eq
would_exceed-renamed = refl

would_exceed-eq_none_iff_example :
    (would_exceed tracker size_ops 1 3 ≡ none) ↔ Fits (apply_sizes tracker size_ops) 1 3
would_exceed-eq_none_iff_example =
    would_exceed-eq_none_iff tracker size_ops 1 3 tracker-IsConsistent

validate_path-eq_none_iff_example :
    (validate_path any_form (codes "notes/a.md") ≡ none) ↔ IsWirePath any_form (codes "notes/a.md")
validate_path-eq_none_iff_example = validate_path-eq_none_iff any_form (codes "notes/a.md")

abbrev hashes : List Hash
hashes = codes "5" ∷ codes "4" ∷ codes "3" ∷ codes "2" ∷ codes "1" ∷ []

would_repeat-recent_example :
    would_repeat (ring_of hashes) (codes "2") ≡ any (λ x. text_eq x (codes "2")) (take 3 hashes)
would_repeat-recent_example = would_repeat-recent hashes (codes "2")

abbrev shared_ops : List Op
shared_ops = write_op 1 ".leyline/vaultconfig/roles" "x" ∷ write_op 2 "a.md" "y" ∷ []

broadcast_ops-filter_example :
    broadcast_ops any_glob 7 rules (codes "c2") shared_ops (ann ∷ [])
    ≡ by_filter 7 any_glob (codes "c2") (broadcast_base any_glob 7 rules shared_ops) (ann ∷ [])
broadcast_ops-filter_example =
    broadcast_ops-filter any_glob 7 rules (codes "c2") shared_ops (ann ∷ [])

parse_size-mb : parse_size (codes "10mb") ≡ some (pos 10485760)
unfolding parse_size parse_digits text_eq
parse_size-mb = refl

-- The product wraps around: the limit is off.
parse_size-wraps : parse_size (codes "17179869184gb") ≡ some (pos 0)
unfolding parse_size parse_digits text_eq
parse_size-wraps = refl

parse_size-no_unit : parse_size (codes "12345") ≡ none
unfolding parse_size parse_digits text_eq
parse_size-no_unit = refl
