-- ===== src/ServerStage/IdemCache.antt =====
-- internal/server/stage/idemcache.go: the highest sequence number that was accepted from each
-- client. The two maps have the same keys, since every method that writes one writes the other; a
-- time is a number of nanoseconds, and `now` is the reading of the clock.
pub mod Highest
use leyline.Base.{
  Bool, List, Option, Text, [], false, if◌then◌else◌, is_none, keep, leb, length, ltb, none, not,
  some, suc, true, zero, ℕ, ◌+◌, ◌-◌, ◌∷◌,
}
use leyline.Base.Dict

-- An element of `highest` with the element of `last` of the same client.
pub record IdemRecord : Type 0 where
  pub highest : ℕ
  pub last_seen : ℕ

pub record IdemCache : Type 0 where
  pub records : List (Text × IdemRecord)
  pub dirty : Bool

abbrev pub new_idem_cache : IdemCache
new_idem_cache = record { records = []; dirty = false }

-- The zero value of a missing key.
abbrev pub highest_or_zero : Option IdemRecord → ℕ
highest_or_zero none = 0
highest_or_zero (some r) = r.highest

unfoldable pub highest_seq : IdemCache → Text → ℕ
highest_seq c client_id = highest_or_zero (Dict.get c.records client_id)

unfoldable pub accept : IdemCache → Text → ℕ → ℕ → Bool × IdemCache
unfolding highest_seq
accept c client_id seq now = if leb seq (highest_seq c client_id) then (false, c) else (
  true,
  record {
    records = Dict.put c.records client_id (record { highest = seq; last_seen = now });
    dirty = true;
  },
)

unfoldable pub contains : IdemCache → Text → Bool
contains c client_id = not (is_none (Dict.get c.records client_id))

abbrev pub Entries : Type 0
Entries = List (Text × IdemRecord)

-- The inner loop of `CapEntries`: the entry that was seen longest ago, the first of several, before
-- the entries that are left. Their order, like that of a range over a Go map, decides only between
-- equal times, so the swap of the source is left out.
unfoldable pub take_oldest : Text × IdemRecord → Entries → (Text × IdemRecord) × Entries
take_oldest e [] = (e, [])
take_oldest e (d ∷ es) =
    let later = take_oldest d es in
    if ltb later.0.1.last_seen e.1.last_seen then (later.0, e ∷ later.1) else (e, d ∷ es)

-- The clients that `to_evict` rounds of the outer loop delete.
unfoldable pub oldest : ℕ → Entries → List Text
unfolding take_oldest
oldest zero es = []
oldest (suc n) [] = []
oldest (suc n) (e ∷ es) = let found = take_oldest e es in found.0.0 ∷ oldest n found.1

unfoldable pub delete_all : List Text → Entries → Entries
delete_all [] es = es
delete_all (k ∷ ks) es = delete_all ks (Dict.remove es k)

unfoldable pub cap_entries : IdemCache → ℕ → IdemCache
unfolding oldest delete_all
cap_entries c n = if leb (length c.records) n then c else record {
  records = delete_all (oldest (length c.records - n) c.records) c.records;
  dirty = true;
}

-- The instants before the clock's zero are not times: `now` is past the threshold.
unfoldable pub prune_idle : IdemCache → ℕ → ℕ → IdemCache
prune_idle c now threshold = record c {
  records = keep (λ e. not (ltb (e.1.last_seen + threshold) now)) c.records;
}
