-- ===== src/Protocol/Caps.antt =====
-- protocol/caps/caps.go: capabilities, the sets of them, and the roles that resolve to sets.
use leyline.Base.{
  Bool, List, Option, Text, [], all, any, codes, false, has_suffix, if◌then◌else◌, is_none, length,
  ltb, none, not, some, text_eq, true, ℕ, ◌==◌, ◌∷◌,
}
use leyline.Base.Dict

-- A set of capabilities: a map with empty values, as the list of its keys. `none` for `expires_at`
-- is the zero time.
pub record CapSet : Type 0 where
  pub caps : List Text
  pub expires_at : Option ℕ

abbrev pub sync_pull : Text
sync_pull = codes "sync.pull"

abbrev pub sync_push : Text
sync_push = codes "sync.push"

abbrev pub keys_manage : Text
keys_manage = codes "keys.manage"

abbrev pub vault_admin : Text
vault_admin = codes "vault.admin"

abbrev pub history_tag : Text
history_tag = codes "history.tag"

abbrev pub history_revert : Text
history_revert = codes "history.revert"

abbrev known_capabilities : List Text
known_capabilities =
    sync_pull ∷ sync_push ∷ keys_manage ∷ vault_admin ∷ history_tag ∷ history_revert ∷ []

-- `_, ok := m[c]`
unfoldable pub is_member : List Text → Text → Bool
is_member cs c = any (λ d. text_eq d c) cs

unfoldable pub known : Text → Bool
unfolding is_member
known c = is_member known_capabilities c

-- `none` is `ok == false`.
unfoldable pub parse_capability : Text → Option Text
unfolding known
parse_capability s = if known s then some s else none

-- `expires_at` is set and past at the time `now`.
unfoldable pub is_past : Option ℕ → ℕ → Bool
is_past none now = false
is_past (some t) now = ltb t now

unfoldable pub expired : CapSet → ℕ → Bool
unfolding is_past
expired s now = is_past s.expires_at now

-- `now` is the reading of the clock.
unfoldable pub has : CapSet → ℕ → Text → Bool
unfolding is_past is_member
has s now c = if is_past s.expires_at now then false else is_member s.caps c

-- `setOf`: a capability that is listed twice is in the map once.
unfoldable pub set_of : List Text → List Text
unfolding is_member
set_of [] = []
set_of (c ∷ cs) = let rest = set_of cs in if is_member rest c then rest else c ∷ rest

unfoldable pub new_set : List Text → CapSet
unfolding set_of
new_set cs = record { caps = set_of cs; expires_at = none }

unfoldable pub builtins : List (Text × CapSet)
unfolding new_set
builtins =
    (codes "admin", new_set known_capabilities)
    ∷ (codes "editor", new_set (sync_pull ∷ sync_push ∷ history_revert ∷ []))
    ∷ (codes "reader", new_set (sync_pull ∷ []))
    ∷ []

unfoldable pub is_reserved : Text → Bool
unfolding builtins
is_reserved name =
    if not (is_none (Dict.get builtins name)) then true else has_suffix name (codes "_guest")

-- The lookup of a role among the custom ones.
unfoldable pub resolve_custom : Text → List (Text × CapSet) → Option ℕ → Option CapSet
resolve_custom role custom expires_at = elim (Dict.get custom role) [
  | some c ↦ some record { caps = c.caps; expires_at = expires_at }
  | none ↦ none
]

-- `none` is `ErrUnknownRole`.
unfoldable pub resolve : Text → List (Text × CapSet) → Option ℕ → Option CapSet
unfolding builtins resolve_custom
resolve role custom expires_at = elim (Dict.get builtins role) [
  | some b ↦ some record { caps = b.caps; expires_at = expires_at }
  | none ↦ resolve_custom role custom expires_at
]

-- `expiresAt.Equal`
unfoldable pub same_time : Option ℕ → Option ℕ → Bool
same_time none none = true
same_time (some s) (some t) = s == t
same_time s t = false

unfoldable pub equal : CapSet → CapSet → Bool
unfolding is_member same_time
equal s t =
    if not (length s.caps == length t.caps)
    then false
    else if not (all (is_member t.caps) s.caps)
    then false
    else same_time s.expires_at t.expires_at
