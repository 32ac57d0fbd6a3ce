-- ===== src/Protocol/Access.antt =====
-- protocol/access/access.go: the keys of a vault, with their roles. The store is the list of its
-- entries; the file behind it is written by `flush`, whose success is an argument. `now` is the
-- reading of the clock, one for all the tests of an operation.
pub mod Admin
pub mod Names
pub mod Tokens
use leyline.Base.{
  Bool, List, Option, Text, [], any, false, has_prefix, if◌then◌else◌, inl, inr, is_empty, length,
  ltb, none, not, some, text_eq, true, ℕ, ◌&&◌, ◌++◌, ◌==◌, ◌||◌, ◌∷◌, ◌⊎◌,
}
use leyline.Protocol.Caps.{CapSet, has, is_past, resolve, vault_admin}

-- `none` for `expires_at` is the zero time.
pub record Entry : Type 0 where
  pub name : Text
  pub role : Text
  pub hash : Text
  pub generated : Text
  pub last_seen : Text
  pub expires_at : Option ℕ
  pub email : Text

pub record AuthResult : Type 0 where
  pub name : Text
  pub role : Text
  pub expires_at : Option ℕ
  pub email : Text

pub data AccessError : Type 0 where
  invalid_name name_exists no_token not_flushed not_found : AccessError
  last_admin invalid_key expired_key : AccessError

-- An error or a value, and the entries that are left.
abbrev pub Outcome : Type 0 → Type 0
Outcome A = (AccessError ⊎ A) × List Entry

-- The UTF-8 bytes of the code points for which unicode.IsSpace holds.
abbrev spaces : List Text
spaces =
    (9 ∷ [])
    ∷ (10 ∷ [])
    ∷ (11 ∷ [])
    ∷ (12 ∷ [])
    ∷ (13 ∷ [])
    ∷ (32 ∷ [])
    ∷ (0xC2 ∷ 0x85 ∷ [])
    ∷ (0xC2 ∷ 0xA0 ∷ [])
    ∷ (0xE1 ∷ 0x9A ∷ 0x80 ∷ [])
    ∷ (0xE2 ∷ 0x80 ∷ 0x80 ∷ [])
    ∷ (0xE2 ∷ 0x80 ∷ 0x81 ∷ [])
    ∷ (0xE2 ∷ 0x80 ∷ 0x82 ∷ [])
    ∷ (0xE2 ∷ 0x80 ∷ 0x83 ∷ [])
    ∷ (0xE2 ∷ 0x80 ∷ 0x84 ∷ [])
    ∷ (0xE2 ∷ 0x80 ∷ 0x85 ∷ [])
    ∷ (0xE2 ∷ 0x80 ∷ 0x86 ∷ [])
    ∷ (0xE2 ∷ 0x80 ∷ 0x87 ∷ [])
    ∷ (0xE2 ∷ 0x80 ∷ 0x88 ∷ [])
    ∷ (0xE2 ∷ 0x80 ∷ 0x89 ∷ [])
    ∷ (0xE2 ∷ 0x80 ∷ 0x8A ∷ [])
    ∷ (0xE2 ∷ 0x80 ∷ 0xA8 ∷ [])
    ∷ (0xE2 ∷ 0x80 ∷ 0xA9 ∷ [])
    ∷ (0xE2 ∷ 0x80 ∷ 0xAF ∷ [])
    ∷ (0xE2 ∷ 0x81 ∷ 0x9F ∷ [])
    ∷ (0xE3 ∷ 0x80 ∷ 0x80 ∷ [])
    ∷ []

-- strings.ContainsFunc(s, unicode.IsSpace)
unfoldable pub has_space : Text → Bool
has_space [] = false
has_space (a ∷ s) = any (λ p. has_prefix (a ∷ s) p) spaces || has_space s

-- The tests of `AddKey` on a name, in their order.
unfoldable pub is_valid_name : Text → Bool
unfolding has_space
is_valid_name name =
    if is_empty name || has_space name
    then false
    else if ltb 128 (length name)
    then false
    else not (any (λ c. c == b'<' || c == b'>') name)

unfoldable pub has_name : Text → Entry → Bool
has_name name e = text_eq e.name name

-- The first entry with the name.
unfoldable pub find_name : Text → List Entry → Option Entry
unfolding has_name
find_name name [] = none
find_name name (e ∷ es) = if has_name name e then some e else find_name name es

-- `append(s.entries[:idx], s.entries[idx+1:]...)`, at the first entry with the name.
unfoldable pub remove_name : Text → List Entry → List Entry
unfolding has_name
remove_name name [] = []
remove_name name (e ∷ es) =
    let rest = remove_name name es in if has_name name e then es else e ∷ rest

-- `s.entries[i] = f(e)`, at the first entry with the name.
unfoldable pub update_name : (Entry → Entry) → Text → List Entry → List Entry
unfolding has_name
update_name f name [] = []
update_name f name (e ∷ es) =
    let rest = update_name f name es in if has_name name e then f e ∷ es else e ∷ rest

unfoldable pub has_vault_admin : List (Text × CapSet) → ℕ → Entry → Bool
has_vault_admin custom now e = elim (resolve e.role custom e.expires_at) [
  | none ↦ false
  | some s ↦ has s now vault_admin
]

-- No other entry than those of the name has vault.admin.
unfoldable pub would_orphan_admin : List (Text × CapSet) → ℕ → Text → List Entry → Bool
unfolding has_name
would_orphan_admin custom now name [] = true
would_orphan_admin custom now name (e ∷ es) =
    let rest = would_orphan_admin custom now name es in
    if has_name name e then rest else if has_vault_admin custom now e then false else rest

-- `return s.flush()`
unfoldable pub after_flush {ℓ} : {A : Type ℓ} → Bool → A → AccessError ⊎ A
after_flush flushed a = if flushed then inr a else inl not_flushed

-- `RemoveKey`, from the entry with the name, if there is one.
unfoldable pub remove_found :
    List (Text × CapSet) → ℕ → Bool → Text → List Entry → Option Entry → Outcome Unit
unfolding after_flush
remove_found custom now flushed name entries none = (inl not_found, entries)
remove_found custom now flushed name entries (some e) =
    if has_vault_admin custom now e && would_orphan_admin custom now name entries
    then (inl last_admin, entries)
    else (after_flush flushed tt, remove_name name entries)

unfoldable pub remove_key : List (Text × CapSet) → ℕ → Bool → Text → List Entry → Outcome Unit
unfolding remove_found
remove_key custom now flushed name entries =
    remove_found custom now flushed name entries (find_name name entries)

unfoldable pub with_role : Text → Entry → Entry
with_role role e = record e { role = role }

-- `UpdateRole`, from the entry with the name, if there is one.
unfoldable pub update_found :
    List (Text × CapSet) → ℕ → Bool → Text → Text → List Entry → Option Entry → Outcome Unit
unfolding after_flush
update_found custom now flushed name role entries none = (inl not_found, entries)
update_found custom now flushed name role entries (some e) =
    if has_vault_admin custom now e
      && not (has_vault_admin custom now (with_role role e))
      && would_orphan_admin custom now name entries
    then (inl last_admin, entries)
    else (after_flush flushed tt, update_name (with_role role) name entries)

unfoldable pub update_role :
    List (Text × CapSet) → ℕ → Bool → Text → Text → List Entry → Outcome Unit
unfolding update_found
update_role custom now flushed name role entries =
    update_found custom now flushed name role entries (find_name name entries)

unfoldable pub with_last_seen : Text → Entry → Entry
with_last_seen today e = record e { last_seen = today }

-- `UpdateLastSeen`, from the entry with the name, if there is one.
unfoldable pub seen_found : Bool → Text → Text → List Entry → Option Entry → Outcome Unit
unfolding after_flush
seen_found flushed today name entries none = (inl not_found, entries)
seen_found flushed today name entries (some e) =
    if text_eq e.last_seen today
    then (inr tt, entries)
    else (after_flush flushed tt, update_name (with_last_seen today) name entries)

unfoldable pub update_last_seen : Bool → Text → Text → List Entry → Outcome Unit
unfolding seen_found
update_last_seen flushed today name entries =
    seen_found flushed today name entries (find_name name entries)

unfoldable pub auth_result : Entry → AuthResult
auth_result e = record { name = e.name; role = e.role; expires_at = e.expires_at; email = e.email }

-- `none` is `ok == false`.
unfoldable pub lookup_by_hash : Text → List Entry → Option AuthResult
unfolding auth_result
lookup_by_hash hash [] = none
lookup_by_hash hash (e ∷ es) =
    if text_eq e.hash hash then some (auth_result e) else lookup_by_hash hash es

-- `token_hash` is `TokenHash`.
module _ (token_hash : Text → Text) where
  unfoldable pub new_entry : Text → Text → Text → Text → Entry
  new_entry name role token stamp = record {
    name = name;
    role = role;
    hash = token_hash token;
    generated = stamp;
    last_seen = [];
    expires_at = none;
    email = [];
  }

  -- `generated` is the result of `GenerateToken`, `none` its error; `stamp` is the time, printed.
  unfoldable pub add_key : Option Text → Text → Bool → Text → Text → List Entry → Outcome Text
  unfolding after_flush new_entry
  add_key generated stamp flushed name role entries =
      if not (is_valid_name name)
      then (inl invalid_name, entries)
      else if any (has_name name) entries
      then (inl name_exists, entries)
      else elim generated [
        | none ↦ (inl no_token, entries)
        | some token ↦ (after_flush flushed token, entries ++ new_entry name role token stamp ∷ [])
      ]

  unfoldable pub authenticate : ℕ → Text → List Entry → AccessError ⊎ AuthResult
  unfolding auth_result
  authenticate now token [] = inl invalid_key
  authenticate now token (e ∷ es) =
      if text_eq e.hash (token_hash token)
      then if is_past e.expires_at now then inl expired_key else inr (auth_result e)
      else authenticate now token es
