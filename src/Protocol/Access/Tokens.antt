-- ===== src/Protocol/Access/Tokens.antt =====
-- What a bearer token of a key is worth.
use leyline.Base.{
  Bool, List, Text, [], any, arith, false, inr, none, refl, some, text_eq, text_eq_refl, true, ℕ,
  ◌++◌, ◌↔◌, ◌∷◌, ◌≡◌,
}
use leyline.Protocol.Caps.{is_past}
use leyline.Protocol.Access.{
  AuthResult, Entry, add_key, after_flush, auth_result, authenticate, has_name, is_valid_name,
  lookup_by_hash, new_entry,
}

module _ (token_hash : Text → Text) where
  -- The test on an entry in `Authenticate`.
  abbrev pub holds_token : Text → Entry → Bool
  holds_token token e = text_eq e.hash (token_hash token)

  authenticate-append :
      (now : ℕ) (token : Text) (es : List Entry) (e : Entry)
      → any (holds_token token) es ≡ false
      → holds_token token e ≡ true
      → e.expires_at ≡ none
      → authenticate token_hash now token (es ++ e ∷ []) ≡ inr (auth_result e)
  unfolding authenticate
  authenticate-append now token [] e h k x = rw (k, x) (unfold is_past in refl)
  authenticate-append now token (a ∷ es) e h k x =
      ground (arith, authenticate-append now token es e)

  -- A key that is added with a valid name, which no entry has, and a token whose hash no entry has
  -- returns the token, if the file is written, and from then on the token authenticates its name
  -- and role, at any time.
  pub authenticate-add_key :
      (token stamp name role : Text) (now : ℕ) (es : List Entry)
      → is_valid_name name ≡ true
      → any (has_name name) es ≡ false
      → any (holds_token token) es ≡ false
      → (add_key token_hash (some token) stamp true name role es).0 ≡ inr token
        × authenticate token_hash now token
            (add_key token_hash (some token) stamp true name role es).1
          ≡ inr record { name = name; role = role; expires_at = none; email = [] }
  unfolding add_key new_entry auth_result after_flush
  authenticate-add_key token stamp name role now es v n t =
      rw (v, n)
        (
          refl,
          authenticate-append now token es (new_entry token_hash name role token stamp) t
              (text_eq_refl (token_hash token)) refl,
        )

  -- A token authenticates exactly when the first entry with its hash has not expired, and then the
  -- result is the one that the lookup of the hash gives.
  pub authenticate-lookup_by_hash :
      (now : ℕ) (token : Text) (es : List Entry) (r : AuthResult)
      → (authenticate token_hash now token es ≡ inr r)
        ↔ ((lookup_by_hash (token_hash token) es ≡ some r) × (is_past r.expires_at now ≡ false))
  unfolding authenticate lookup_by_hash auth_result
  authenticate-lookup_by_hash now token [] r = ground arith
  authenticate-lookup_by_hash now token (e ∷ es) r =
      ground (arith, authenticate-lookup_by_hash now token es r)
