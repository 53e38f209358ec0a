-- ===== src/Auth/Keys.antt =====
-- `create_key` of src/claudestruct/server/routers/keys.py and `authenticate` of src/claudestruct/server/auth.py.
use claude_struct.Prelude.{
  ℕ, ◌≡◌, refl, sym, ap, ◌∙◌, Bool, true, Bool-cases, inl, inr, String, Option, some, List, [], ◌∷◌,
  ◌++◌, str_eq, eq_refl, keep, arith,
}
use claude_struct.Calendar.{DateTime}
use claude_struct.Audit.{Codec}
use claude_struct.Auth.{
  Role, admin, Principal, Membership, UserRow, OrgRow, ApiKey, Accounts, granted, Lookup, missing,
  one, several, one_or_none, generate_key, get_user, get_org, as_member, parse_role, memberships_of,
  authenticate, Answer, ok, err, require_role,
}
use claude_struct.Auth.Endpoints.{NewKey, new_key_row, insert_free, create_as, create_key}
use claude_struct.Auth.KeyText.{IsHex, parse_key-generate_key}

one_or_none-missing : {A : Type 0} (xs : List A) → one_or_none xs ≡ missing → xs ≡ []
one_or_none-missing [] h = refl
one_or_none-missing (x ∷ []) h = cc
one_or_none-missing (x ∷ y ∷ xs) h = cc

keep-append_only :
    {A : Type 0} (p : A → Bool) (xs : List A) (r : A)
    → keep p xs ≡ []
    → p r ≡ true
    → keep p (xs ++ r ∷ []) ≡ r ∷ []
keep-append_only p [] r h k = rw k refl
keep-append_only p (x ∷ xs) r h k = elim (Bool-cases (p x)) [
  | inl e ↦ cc (rw e at h)
  | inr e ↦ rw e (keep-append_only p xs r (rw e at h) k)
]

require_role-ok : (r : Role) (p q : Principal) → require_role r p ≡ ok q → q ≡ p
unfolding require_role
require_role-ok r p q h = ground (arith, h)

member_granted :
    (a next : Accounts) (user org : ℕ) (m : Membership) (u : UserRow) (o : OrgRow) (r : Role)
    → get_user user a.users ≡ some u
    → get_org org a.orgs ≡ some o
    → parse_role m.role ≡ some r
    → (as_member a next user org (one m)).0
      ≡ granted (record {
        user_id = u.id;
        user_email = u.email;
        org_id = o.id;
        org_slug = o.slug;
        role = r;
      })
member_granted a next user org m u o r eu eo er = rw (eu, eo) (rw er refl)

module _ {Payload : Type 0} (c : Codec Payload) (now : DateTime) (p : Principal) (key_id : String)
    (payload : Payload) (a : Accounts) where
  module _ (secret : String) (name : Option String) where
    -- The accounts with the new row.
    record Created (k : NewKey) (result : Answer NewKey × Accounts) : Type 0 where
      full_key : k.full_key ≡ generate_key key_id secret
      was_free : keep (λ x. str_eq x.key_id key_id) a.api_keys ≡ []
      keys :
          result.1.api_keys ≡ a.api_keys ++ new_key_row now p key_id (c.sha256_hex secret) name ∷ []
      users : result.1.users ≡ a.users
      orgs : result.1.orgs ≡ a.orgs
      memberships : result.1.memberships ≡ a.memberships

    free-Created :
        (k : NewKey) (l : Lookup ApiKey)
        → one_or_none (keep (λ x. str_eq x.key_id key_id) a.api_keys) ≡ l
        → (insert_free c now p key_id secret name payload a l).0 ≡ ok k
        → Created k (insert_free c now p key_id secret name payload a l)
    free-Created k (one x) e h = cc
    free-Created k several e h = cc
    free-Created k missing e h = record {
      full_key =
          let q : (record {
            full_key = generate_key key_id secret;
            key_id = key_id;
            name = name;
            created_at = now;
          })
              ≡ k =
            cc in
          ap (λ (x : NewKey). x.full_key) (sym q);
      was_free = one_or_none-missing _ e;
      keys = refl;
      users = refl;
      orgs = refl;
      memberships = refl;
    }

    as-Created :
        (k : NewKey) (r : Answer Principal)
        → require_role admin p ≡ r
        → (create_as c now key_id secret name payload a r).0 ≡ ok k
        → Created k (create_as c now key_id secret name payload a r)
    as-Created k (err e) g h = cc
    as-Created k (ok q) g h =
        rw (require_role-ok admin p q g)
          (free-Created k _ refl (rw (require_role-ok admin p q g) at h))

    created :
        (k : NewKey)
        → (create_key c now p key_id secret name payload a).0 ≡ ok k
        → Created k (create_key c now p key_id secret name payload a)
    unfolding create_key
    created k h = as-Created k (require_role admin p) refl h

    -- Where the two random texts are hex, and the caller's membership, user and org rows are
    -- there, with a role that is one: the key that `create_key` has returned lets its user in at
    -- once, into the same org and with the membership's role.
    pub create_key-authenticates :
        (later : DateTime) (k : NewKey) (m : Membership) (u : UserRow) (o : OrgRow) (r : Role)
        → IsHex key_id
        → IsHex secret
        → (create_key c now p key_id secret name payload a).0 ≡ ok k
        → memberships_of a p.user_id p.org_id ≡ one m
        → get_user p.user_id a.users ≡ some u
        → get_org p.org_id a.orgs ≡ some o
        → parse_role m.role ≡ some r
        → (authenticate c.sha256_hex later
            (create_key c now p key_id secret name payload a).1
            k.full_key).0
          ≡ granted (record {
            user_id = u.id;
            user_email = u.email;
            org_id = o.id;
            org_slug = o.slug;
            role = r;
          })
    unfolding authenticate memberships_of
    create_key-authenticates later k m u o r hex_id hex_secret h em eu eo er =
        let x = created k h in
        let only =
          keep-append_only (λ y. str_eq y.key_id key_id) a.api_keys
            (new_key_row now p key_id (c.sha256_hex secret) name) x.was_free (eq_refl key_id) in
        rw (x.full_key, parse_key-generate_key key_id secret hex_id hex_secret)
          (rw (x.keys, only)
            (rw (eq_refl (c.sha256_hex secret)) (
              rw x.memberships (
                rw em (
                  member_granted (create_key c now p key_id secret name payload a).1 _ p.user_id
                    p.org_id m u o r (ap (get_user p.user_id) x.users ∙ eu)
                    (ap (get_org p.org_id) x.orgs ∙ eo) er)))))
