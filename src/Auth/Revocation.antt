-- ===== src/Auth/Revocation.antt =====
-- `revoke_key` of src/claudestruct/server/routers/keys.py.
use claude_struct.Prelude.{
  ℕ, ◌≡◌, ◌≢◌, refl, sym, ap, ◌∙◌, Bool, true, Bool-cases, inl, inr, String, Option, none, some,
  List, [], ◌∷◌, map, ◌==◌, str_eq, eq_iff, keep, In, In-keep, arith,
}
use claude_struct.Calendar.{DateTime}
use claude_struct.Audit.{Codec}
use claude_struct.Auth.{
  admin, Principal, ApiKey, Accounts, granted, Lookup, missing, one, several, one_or_none,
  parse_key, key_is_active, authenticate, Answer, ok, err, require_role,
}
use claude_struct.Auth.Access.{one-In, ByKey, authenticate-ByKey}
use claude_struct.Auth.Endpoints.{
  is_own_key, set_revoked, revoke, revoke_found, revoke_as, revoke_key,
}

In-map : {A : Type 0} (f : A → A) (x : A) (xs : List A) → In x xs → In (f x) (map f xs)
In-map f x [] m = absurd m
In-map f x (y ∷ xs) (inl q) = inl (ap f q)
In-map f x (y ∷ xs) (inr i) = inr (In-map f x xs i)

pub In-keep_back :
    {A : Type 0} (p : A → Bool) (x : A) (xs : List A) → In x xs → p x ≡ true → In x (keep p xs)
In-keep_back p x [] m t = absurd m
In-keep_back p x (y ∷ xs) (inl q) t = rw (ap p (sym q) ∙ t) (inl q)
In-keep_back p x (y ∷ xs) (inr i) t = elim (Bool-cases (p y)) [
  | inl e ↦ rw e (inr (In-keep_back p x xs i t))
  | inr e ↦ rw e (In-keep_back p x xs i t)
]

module _ {Payload : Type 0} (c : Codec Payload) (now : DateTime) (p : Principal) (key_id : String)
    (payload : Payload) (a : Accounts) where
  -- A row of the key that is revoked.
  record IsRevoked (b : Accounts) : Type 0 where
    key : ApiKey
    row : In key b.api_keys
    named : key.key_id ≡ key_id
    revoked : key.revoked_at ≢ none

  revoke-revoked :
      (org : ℕ) (k : ApiKey)
      → is_own_key key_id org k ≡ true
      → (revoke now key_id org k).revoked_at ≢ none
  revoke-revoked org k own = rw own (set (k.revoked_at))
    where
      set : (t : Option DateTime) → set_revoked now t ≢ none
      set none = λ h. cc
      set (some t) = λ h. cc

  own_named : (org : ℕ) (k : ApiKey) → is_own_key key_id org k ≡ true → k.key_id ≡ key_id
  unfolding is_own_key
  own_named org k own = (eq_iff k.key_id key_id).0 (ground arith)

  revoke-named :
      (org : ℕ) (k : ApiKey)
      → is_own_key key_id org k ≡ true
      → (revoke now key_id org k).key_id ≡ key_id
  revoke-named org k own = rw own (own_named org k own)

  found-IsRevoked :
      (q : Principal) (l : Lookup ApiKey) (done : String)
      → one_or_none (keep (is_own_key key_id q.org_id) a.api_keys) ≡ l
      → (revoke_found c now q key_id payload a l).0 ≡ ok done
      → IsRevoked (revoke_found c now q key_id payload a l).1
  found-IsRevoked q missing done e h = cc
  found-IsRevoked q several done e h = cc
  found-IsRevoked q (one k) done e h =
      let (row, own) = In-keep (is_own_key key_id q.org_id) k a.api_keys (one-In _ k e) in
      elim (Bool-cases (key_is_active k.revoked_at)) [
        | inl t ↦ rw t (record {
          key = revoke now key_id q.org_id k;
          row = In-map (revoke now key_id q.org_id) k a.api_keys row;
          named = revoke-named q.org_id k own;
          revoked = revoke-revoked q.org_id k own;
        })
        | inr n ↦ rw n (record {
          key = k;
          row = row;
          named = own_named q.org_id k own;
          revoked = λ z. cc (rw z at n);
        })
      ]

  as-IsRevoked :
      (r : Answer Principal) (done : String)
      → (revoke_as c now key_id payload a r).0 ≡ ok done
      → IsRevoked (revoke_as c now key_id payload a r).1
  as-IsRevoked (err e) done h = cc
  as-IsRevoked (ok q) done h = found-IsRevoked q _ done refl h

  no_door :
      (hash : String → String) (later : DateTime) (b : Accounts) (full_key secret : String)
      (q : Principal)
      → IsRevoked b
      → parse_key full_key ≡ some (key_id, secret)
      → ByKey hash later b q full_key
      → ⊥
  no_door hash later b full_key secret q k e d =
      let same : d.key.key_id ≡ key_id = cc (sym d.presented ∙ e) in
      let here =
        In-keep_back (λ x. str_eq x.key_id d.key.key_id) k.key b.api_keys k.row
          ((eq_iff k.key.key_id d.key.key_id).1 (k.named ∙ sym same)) in
      only_row (rw d.only at here)
    where
      only_row : In k.key (d.key ∷ []) → ⊥
      only_row (inl z) = k.revoked (ap (λ (x : ApiKey). x.revoked_at) z ∙ d.in_force)
      only_row (inr z) = absurd z

  -- After `revoke_key` has answered that a key is revoked, no text with that key's id lets anybody
  -- in, whatever secret it carries.
  pub revoke_key-locks_out :
      (later : DateTime) (full_key secret done : String) (q : Principal)
      → (revoke_key c now p key_id payload a).0 ≡ ok done
      → parse_key full_key ≡ some (key_id, secret)
      → (authenticate c.sha256_hex later (revoke_key c now p key_id payload a).1 full_key).0
        ≢ granted q
  unfolding revoke_key
  revoke_key-locks_out later full_key secret done q h e g =
      no_door c.sha256_hex later _ full_key secret q (as-IsRevoked (require_role admin p) done h) e
        (authenticate-ByKey c.sha256_hex later _ q full_key g)

  keep-revoke :
      (org other : ℕ) (ks : List ApiKey)
      → other ≢ org
      → keep (λ k. k.org_id == other) (map (revoke now key_id org) ks)
        ≡ keep (λ k. k.org_id == other) ks
  unfolding is_own_key
  keep-revoke org other [] ne = refl
  keep-revoke org other (k ∷ ks) ne = ground (arith, keep-revoke org other ks ne)

  -- A call of `revoke_key`, whether it is allowed or refused, changes no key of an org other than
  -- the caller's.
  pub revoke_key-other_orgs :
      (other : ℕ)
      → other ≢ p.org_id
      → keep (λ k. k.org_id == other) (revoke_key c now p key_id payload a).1.api_keys
        ≡ keep (λ k. k.org_id == other) a.api_keys
  unfolding revoke_key require_role
  revoke_key-other_orgs other ne = ground (arith, keep-revoke p.org_id other a.api_keys ne)
