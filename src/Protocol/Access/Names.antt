-- ===== src/Protocol/Access/Names.antt =====
-- The names of the keys of a vault stay different.
use leyline.Base.{
  Bool, List, Option, Text, [], any, arith, eq_of_iff, false, none, not, refl, some, sym,
  text_eq_iff, true, ℕ, ◌&&◌, ◌++◌, ◌||◌, ◌∷◌, ◌≡◌,
}
use leyline.Protocol.Access.{
  Entry, add_key, has_name, new_entry, remove_found, remove_key, remove_name, seen_found,
  update_found, update_last_seen, update_name, update_role, with_last_seen, with_role,
}
use leyline.Protocol.Access.Admin.{Call, add, call, calls, change_role, remove, see}
use leyline.Protocol.Caps.{CapSet}

-- No two entries have one name.
abbrev pub is_distinct : List Entry → Bool
is_distinct [] = true
is_distinct (e ∷ es) = not (any (has_name e.name) es) && is_distinct es

any_name-remove :
    (n name : Text) (es : List Entry)
    → any (has_name n) es ≡ false
    → any (has_name n) (remove_name name es) ≡ false
unfolding remove_name
any_name-remove n name [] h = refl
any_name-remove n name (e ∷ es) h = ground (arith, any_name-remove n name es)

is_distinct-remove :
    (name : Text) (es : List Entry)
    → is_distinct es ≡ true
    → is_distinct (remove_name name es) ≡ true
unfolding remove_name
is_distinct-remove name [] h = refl
is_distinct-remove name (e ∷ es) h =
    ground (arith, is_distinct-remove name es, any_name-remove e.name name es)

module _ (f : Entry → Entry) (keeps : (e : Entry) → (f e).name ≡ e.name) where
  any_name-update :
      (n name : Text) (es : List Entry)
      → any (has_name n) (update_name f name es) ≡ any (has_name n) es
  unfolding update_name has_name
  any_name-update n name [] = refl
  any_name-update n name (e ∷ es) = ground (arith, any_name-update n name es, keeps e)

  is_distinct-update :
      (name : Text) (es : List Entry) → is_distinct (update_name f name es) ≡ is_distinct es
  unfolding update_name
  is_distinct-update name [] = refl
  is_distinct-update name (e ∷ es) =
      ground (arith, is_distinct-update name es, any_name-update e.name name es, keeps e)

any_name-append :
    (n : Text) (es : List Entry) (e : Entry)
    → any (has_name n) (es ++ e ∷ []) ≡ any (has_name n) es || has_name n e
any_name-append n [] e = ground arith
any_name-append n (x ∷ es) e = ground (arith, any_name-append n es e)

has_name_comm : (x e : Entry) → has_name x.name e ≡ has_name e.name x
unfolding has_name
has_name_comm x e = eq_of_iff _ _ (
  λ h. (text_eq_iff x.name e.name).1 (sym ((text_eq_iff e.name x.name).0 h)),
  λ h. (text_eq_iff e.name x.name).1 (sym ((text_eq_iff x.name e.name).0 h)),
)

is_distinct-append :
    (es : List Entry) (e : Entry)
    → is_distinct es ≡ true
    → any (has_name e.name) es ≡ false
    → is_distinct (es ++ e ∷ []) ≡ true
is_distinct-append [] e h k = refl
is_distinct-append (x ∷ es) e h k =
    ground (arith, is_distinct-append es e, any_name-append x.name es e, has_name_comm x e)

module _ (token_hash : Text → Text) (custom : List (Text × CapSet)) (now : ℕ) where
  remove_found-is_distinct :
      (flushed : Bool) (name : Text) (es : List Entry) (o : Option Entry)
      → is_distinct es ≡ true
      → is_distinct (remove_found custom now flushed name es o).1 ≡ true
  unfolding remove_found
  remove_found-is_distinct flushed name es none h = h
  remove_found-is_distinct flushed name es (some e) h = ground (arith, is_distinct-remove name es h)

  update_found-is_distinct :
      (flushed : Bool) (name role : Text) (es : List Entry) (o : Option Entry)
      → is_distinct es ≡ true
      → is_distinct (update_found custom now flushed name role es o).1 ≡ true
  unfolding update_found with_role
  update_found-is_distinct flushed name role es none h = h
  update_found-is_distinct flushed name role es (some e) h =
      ground (arith, is_distinct-update (with_role role) (λ e. refl) name es)

  seen_found-is_distinct :
      (flushed : Bool) (today name : Text) (es : List Entry) (o : Option Entry)
      → is_distinct es ≡ true
      → is_distinct (seen_found flushed today name es o).1 ≡ true
  unfolding seen_found with_last_seen
  seen_found-is_distinct flushed today name es none h = h
  seen_found-is_distinct flushed today name es (some e) h =
      ground (arith, is_distinct-update (with_last_seen today) (λ e. refl) name es)

  call-is_distinct :
      (c : Call) (es : List Entry)
      → is_distinct es ≡ true
      → is_distinct (call token_hash custom now c es) ≡ true
  unfolding add_key remove_key update_role update_last_seen new_entry
  call-is_distinct (add none stamp flushed name role) es h = ground arith
  call-is_distinct (add (some token) stamp flushed name role) es h =
      ground (arith, is_distinct-append es (new_entry token_hash name role token stamp) h)
  call-is_distinct (remove flushed name) es h = remove_found-is_distinct flushed name es _ h
  call-is_distinct (change_role flushed name role) es h =
      update_found-is_distinct flushed name role es _ h
  call-is_distinct (see flushed today name) es h = seen_found-is_distinct flushed today name es _ h

  -- From entries with different names, any sequence of calls leaves entries with different names.
  pub calls-distinct_names :
      (cs : List Call) (es : List Entry)
      → is_distinct es ≡ true
      → is_distinct (calls token_hash custom now cs es) ≡ true
  calls-distinct_names [] es h = h
  calls-distinct_names (c ∷ cs) es h = calls-distinct_names cs _ (call-is_distinct c es h)
