-- ===== src/Tests/Protocol.antt =====
-- Tests of package protocol.
use leyline.Base.{
  List, String, [], codes, false, has_prefix, inl, inr, none, refl, some, split, text_eq, true, ◌↔◌,
  ◌∷◌, ◌≡◌,
}
use leyline.Base.Dict
use leyline.Protocol.Op.{IsValid, Op, bad_seq, validate_op, validate_op-eq_none_iff}
use leyline.Protocol.Caps.{has, is_past, resolve}
use leyline.Protocol.Access.{
  Entry, add_key, authenticate, find_name, has_name, has_vault_admin, is_valid_name, last_admin,
  lookup_by_hash, remove_key, update_role, with_role, would_orphan_admin,
}
use leyline.Protocol.Access.Admin.{
  Call, add, calls, calls-keep_admin, change_role, has_admin, remove, see,
}
use leyline.Protocol.Access.Names.{calls-distinct_names, is_distinct}
use leyline.Protocol.Access.Tokens.{authenticate-add_key, authenticate-lookup_by_hash}
use leyline.Protocol.Version.{compare_versions}
use leyline.Protocol.Version.Order.{Says, compare_versions-Says, part}
use leyline.Base.Int.{negsuc, pos}
use leyline.Tests.Samples.{delete_op, rename_op, same_bytes, write_op}

abbrev no_seq : Op
no_seq = record (write_op 1 "a.md" "x") { seq = 0 }

validate_op-rename : validate_op (rename_op 1 "a.md" "b.md") ≡ none
unfolding validate_op
validate_op-rename = refl

validate_op-no_seq : validate_op no_seq ≡ some bad_seq
unfolding validate_op
validate_op-no_seq = refl

validate_op-eq_none_iff_example :
    (validate_op (delete_op 3 "a.md") ≡ none) ↔ IsValid (delete_op 3 "a.md")
validate_op-eq_none_iff_example = validate_op-eq_none_iff (delete_op 3 "a.md")

abbrev key_of : String → String → String → Entry
key_of name role hash = record {
  name = codes name;
  role = codes role;
  hash = codes hash;
  generated = codes "2026-01-01T00:00";
  last_seen = [];
  expires_at = none;
  email = [];
}

abbrev two_keys : List Entry
two_keys = key_of "ann" "admin" "h1" ∷ key_of "bob" "reader" "h2" ∷ []

abbrev four_calls : List Call
four_calls =
    add (some (codes "t3")) (codes "now") true (codes "eve") (codes "admin")
    ∷ remove true (codes "ann")
    ∷ change_role true (codes "eve") (codes "reader")
    ∷ see true (codes "today") (codes "eve")
    ∷ []

-- The only administrator stays, in either way of taking the role away.
remove_key-last_admin : (remove_key [] 0 true (codes "ann") two_keys).0 ≡ inl last_admin
unfolding remove_key find_name text_eq has_vault_admin resolve Dict.get has would_orphan_admin
remove_key-last_admin = refl

update_role-last_admin :
    (update_role [] 0 true (codes "ann") (codes "reader") two_keys).0 ≡ inl last_admin
unfolding update_role find_name text_eq has_vault_admin resolve Dict.get has with_role
    would_orphan_admin
update_role-last_admin = refl

calls-keep_admin_example : has_admin [] 0 (calls same_bytes [] 0 four_calls two_keys) ≡ true
unfolding has_vault_admin text_eq resolve Dict.get has
calls-keep_admin_example = calls-keep_admin same_bytes [] 0 four_calls two_keys refl

calls-distinct_names_example : is_distinct (calls same_bytes [] 0 four_calls two_keys) ≡ true
unfolding has_name text_eq
calls-distinct_names_example = calls-distinct_names same_bytes [] 0 four_calls two_keys refl

authenticate-add_key_example :
    ((add_key same_bytes (some (codes "t3")) [] true (codes "eve") (codes "editor") two_keys).0
      ≡ inr (codes "t3"))
    × (authenticate same_bytes 5
          (codes "t3")
          (add_key same_bytes (some (codes "t3")) [] true (codes "eve") (codes "editor") two_keys).1
        ≡ inr (record { name = codes "eve"; role = codes "editor"; expires_at = none; email = [] }))
unfolding has_name text_eq is_valid_name has_prefix
authenticate-add_key_example =
    authenticate-add_key same_bytes (codes "t3") [] (codes "eve") (codes "editor") 5 two_keys refl
      refl refl

authenticate-lookup_by_hash_example :
    (authenticate same_bytes 5 (codes "h2") two_keys
      ≡ inr (record { name = codes "bob"; role = codes "reader"; expires_at = none; email = [] }))
    ↔ ((lookup_by_hash (codes "h2") two_keys
          ≡ some
              (record { name = codes "bob"; role = codes "reader"; expires_at = none; email = [] }))
        × (is_past none 5 ≡ false))
authenticate-lookup_by_hash_example =
    authenticate-lookup_by_hash same_bytes 5 (codes "h2") two_keys
      (record { name = codes "bob"; role = codes "reader"; expires_at = none; email = [] })

-- The components are compared as numbers, and a missing one is 0.
compare_versions-numbers : compare_versions (codes "1.2.9") (codes "1.10") ≡ negsuc 0
unfolding compare_versions split
compare_versions-numbers = refl

compare_versions-dev : compare_versions (codes "dev") (codes "0.0.0") ≡ pos 0
unfolding compare_versions split
compare_versions-dev = refl

-- A number out of range is the greatest, whatever stands after the digit that leaves the range.
compare_versions-out_of_range :
    compare_versions (codes "99999999999999999999x") (codes "9223372036854775807") ≡ pos 0
unfolding compare_versions split
compare_versions-out_of_range = refl

compare_versions-Says_example :
    Says
      (compare_versions (codes "1.2.9") (codes "1.10"))
      (part (split (codes "1.2.9") b'.'))
      (part (split (codes "1.10") b'.'))
compare_versions-Says_example = compare_versions-Says (codes "1.2.9") (codes "1.10")
