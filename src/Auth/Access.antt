-- ===== src/Auth/Access.antt =====
-- `current_principal` of src/claudestruct/server/auth.py: members, roles, keys and sessions.
use claude_struct.Prelude.{
  ℕ, ◌≡◌, refl, sym, ap, ◌∙◌, true, ◌&&◌, Bool-cases, inl, inr, String, Option, none, some, List,
  [], ◌∷◌, ◌==◌, ==_iff, str_eq, eq_iff, keep, In, In-keep, arith,
}
use claude_struct.Calendar.{DateTime, before}
use claude_struct.Auth.{
  Role, parse_role, Principal, UserRow, OrgRow, Membership, ApiKey, UserSession, Accounts, Login,
  granted, refused, raised, Lookup, missing, one, several, one_or_none, parse_key, key_is_active,
  session_is_active, is_member, get_user, get_org, with_role, principal_of, as_member,
  memberships_of, touched, checked_key, authenticate_key, authenticate, checked_session,
  authenticate_session_cookie, ok, login_answer, current_principal,
}

-- The membership that a principal stands for.
pub record IsMember (a : Accounts) (user org : ℕ) (p : Principal) : Type 0 where
  pub membership : Membership
  pub row : In membership a.memberships
  pub member : (membership.user_id ≡ user) × (membership.org_id ≡ org)
  pub role : parse_role membership.role ≡ some p.role
  pub is_user : p.user_id ≡ user
  pub is_org : p.org_id ≡ org

pub one-In : {A : Type 0} (xs : List A) (x : A) → one_or_none xs ≡ one x → In x xs
one-In [] x h = cc
one-In (y ∷ []) x h = let q : y ≡ x = cc in inl (sym q)
one-In (y ∷ z ∷ ys) x h = cc

pub one_only : {A : Type 0} (xs : List A) (x : A) → one_or_none xs ≡ one x → xs ≡ x ∷ []
one_only [] x h = cc
one_only (y ∷ []) x h = cc
one_only (y ∷ z ∷ ys) x h = cc

get_user_id : (id : ℕ) (us : List UserRow) (u : UserRow) → get_user id us ≡ some u → u.id ≡ id
get_user_id id [] u h = cc
get_user_id id (x ∷ us) u h = elim (Bool-cases (x.id == id)) [
  | inl e ↦
      let q : x ≡ u = cc (rw e at h) in ap (λ (y : UserRow). y.id) (sym q) ∙ (==_iff x.id id).0 e
  | inr e ↦ get_user_id id us u (rw e at h)
]

get_org_id : (id : ℕ) (os : List OrgRow) (o : OrgRow) → get_org id os ≡ some o → o.id ≡ id
get_org_id id [] o h = cc
get_org_id id (x ∷ os) o h = elim (Bool-cases (x.id == id)) [
  | inl e ↦
      let q : x ≡ o = cc (rw e at h) in ap (λ (y : OrgRow). y.id) (sym q) ∙ (==_iff x.id id).0 e
  | inr e ↦ get_org_id id os o (rw e at h)
]

module _ (a next : Accounts) (user org : ℕ) (p : Principal) where
  with_role-granted :
      (u : UserRow) (o : OrgRow) (r : Option Role)
      → with_role u o r ≡ granted p
      → (r ≡ some p.role) × (p.user_id ≡ u.id) × (p.org_id ≡ o.id)
  with_role-granted u o none h = cc
  with_role-granted u o (some r) h =
      let q : (record {
        user_id = u.id;
        user_email = u.email;
        org_id = o.id;
        org_slug = o.slug;
        role = r;
      })
          ≡ p =
        cc in
      (
        ap (λ (x : Principal). some x.role) q,
        ap (λ (x : Principal). x.user_id) (sym q),
        ap (λ (x : Principal). x.org_id) (sym q),
      )

  rows-IsMember :
      (m : Membership) (u : Option UserRow) (o : Option OrgRow)
      → In m a.memberships × (is_member user org m ≡ true)
      → get_user user a.users ≡ u
      → get_org org a.orgs ≡ o
      → (principal_of a next m u o).0 ≡ granted p
      → IsMember a user org p
  unfolding is_member
  rows-IsMember m none o k e f h = cc
  rows-IsMember m (some u) none k e f h = cc
  rows-IsMember m (some u) (some o) (row, member) e f h =
      let (r, i, j) = with_role-granted u o (parse_role m.role) h in
      record {
        membership = m;
        row = row;
        member = ground arith;
        role = r;
        is_user = i ∙ get_user_id user a.users u e;
        is_org = j ∙ get_org_id org a.orgs o f;
      }

  as_member-IsMember :
      (l : Lookup Membership)
      → memberships_of a user org ≡ l
      → (as_member a next user org l).0 ≡ granted p
      → IsMember a user org p
  unfolding memberships_of
  as_member-IsMember missing e h = cc
  as_member-IsMember several e h = cc
  as_member-IsMember (one m) e h =
      rows-IsMember m (get_user user a.users) (get_org org a.orgs)
        (In-keep (is_member user org) m a.memberships
          (one-In (keep (is_member user org) a.memberships) m e))
        refl refl h

module _ (hash_secret : String → String) (now : DateTime) (a : Accounts) (p : Principal) where
  -- A key row that opens the door: not revoked, and its secret is the one presented.
  pub record ByKey (full_key : String) : Type 0 where
    pub key : ApiKey
    pub secret : String
    pub row : In key a.api_keys
    pub only : keep (λ k. str_eq k.key_id key.key_id) a.api_keys ≡ key ∷ []
    pub presented : parse_key full_key ≡ some (key.key_id, secret)
    pub in_force : key.revoked_at ≡ none
    pub right_secret : key.hashed_secret ≡ hash_secret secret
    pub who : IsMember a key.user_id key.org_id p

  -- A session row that opens the door.
  pub record ByCookie (cookie : String) : Type 0 where
    pub session : UserSession
    pub row : In session a.sessions
    pub presented : session.session_token ≡ cookie
    pub in_force : (session.revoked_at ≡ none) × (before now session.expires_at ≡ true)
    pub who : IsMember a session.user_id session.org_id p

  checked-ByKey :
      (full_key key_id secret : String) (l : Lookup ApiKey)
      → parse_key full_key ≡ some (key_id, secret)
      → one_or_none (keep (λ k. str_eq k.key_id key_id) a.api_keys) ≡ l
      → (checked_key hash_secret now a secret l).0 ≡ granted p
      → ByKey full_key
  checked-ByKey full_key key_id secret missing e f h = cc
  checked-ByKey full_key key_id secret several e f h = cc
  checked-ByKey full_key key_id secret (one k) e f h =
      elim (Bool-cases
        (key_is_active k.revoked_at && str_eq k.hashed_secret (hash_secret secret))) [
          | inr n ↦ cc (rw n at h)
          | inl t ↦
              let (row, same) = In-keep (λ k. str_eq k.key_id key_id) k a.api_keys (one-In _ k f) in
              record {
                key = k;
                secret = secret;
                row = row;
                only = rw (← (eq_iff k.key_id key_id).0 same) at (one_only _ k f);
                presented = e ∙ ap (λ x. some (x, secret)) (sym ((eq_iff k.key_id key_id).0 same));
                in_force = ground arith;
                right_secret = (eq_iff k.hashed_secret (hash_secret secret)).0 (ground arith);
                who =
                    as_member-IsMember a (touched now k.key_id a) k.user_id k.org_id p _ refl
                      (rw t at h);
              }
        ]

  key-ByKey :
      (full_key : String) (o : Option (String × String))
      → parse_key full_key ≡ o
      → (authenticate_key hash_secret now a o).0 ≡ granted p
      → ByKey full_key
  key-ByKey full_key none e h = cc
  key-ByKey full_key (some (key_id, secret)) e h = checked-ByKey full_key key_id secret _ e refl h

  -- A key that authenticates is a row of the table, not revoked, with the hash of the secret that
  -- was presented, and the principal is a member of the key's org, as its user and with the
  -- membership's role.
  pub authenticate-ByKey :
      (full_key : String) → (authenticate hash_secret now a full_key).0 ≡ granted p → ByKey full_key
  unfolding authenticate
  authenticate-ByKey full_key h = key-ByKey full_key (parse_key full_key) refl h

  checked-ByCookie :
      (cookie : String) (l : Lookup UserSession)
      → one_or_none (keep (λ s. str_eq s.session_token cookie) a.sessions) ≡ l
      → (checked_session now a l).0 ≡ granted p
      → ByCookie cookie
  unfolding session_is_active
  checked-ByCookie cookie missing f h = cc
  checked-ByCookie cookie several f h = cc
  checked-ByCookie cookie (one s) f h = elim (Bool-cases (session_is_active now s)) [
    | inr n ↦ cc (rw n at h)
    | inl t ↦
        let (row, same) =
          In-keep (λ s. str_eq s.session_token cookie) s a.sessions (one-In _ s f) in
        record {
          session = s;
          row = row;
          presented = (eq_iff s.session_token cookie).0 same;
          in_force = ground arith;
          who = as_member-IsMember a a s.user_id s.org_id p _ refl (rw t at h);
        }
  ]

  pub authenticate_session-ByCookie :
      (cookie : String) → (authenticate_session_cookie now a cookie).0 ≡ granted p → ByCookie cookie
  unfolding authenticate_session_cookie
  authenticate_session-ByCookie cookie h = checked-ByCookie cookie _ refl h

  login_ok : (l : Login × Accounts) → (login_answer l).0 ≡ ok p → l.0 ≡ granted p
  login_ok (granted q, b) h = let e : q ≡ p = cc in ap granted e
  login_ok (refused, b) h = cc
  login_ok (raised, b) h = cc

  -- Which of the two a request came in by.
  abbrev pub Admitted : Option String → Option String → Type 0
  Admitted (some bearer) cookie = ByKey bearer
  Admitted none (some cookie) = ByCookie cookie
  Admitted none none = ⊥

  -- A request that gets a principal has a bearer key in force, or no bearer token at all and a
  -- session cookie in force; either way the principal is a member of the org, with that role. A bad
  -- bearer token is not made good by a cookie.
  pub current_principal-Admitted :
      (bearer cookie : Option String)
      → (current_principal hash_secret now a bearer cookie).0 ≡ ok p
      → Admitted bearer cookie
  unfolding current_principal
  current_principal-Admitted (some bearer) cookie h = authenticate-ByKey bearer (login_ok _ h)
  current_principal-Admitted none none h = cc
  current_principal-Admitted none (some cookie) h = elim (Bool-cases (str_eq cookie "")) [
    | inl e ↦ cc (rw e at h)
    | inr e ↦ authenticate_session-ByCookie cookie (login_ok _ (rw e at h))
  ]
