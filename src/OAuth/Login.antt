-- ===== src/OAuth/Login.antt =====
-- Who signs in: the callback, and the session that it opens.
use claude_struct.Prelude.{
  ℕ, ◌≤◌, ◌≡◌, ◌≢◌, refl, sym, ap, ap₂, ◌∙◌, Bool, true, false, ◌&&◌, Bool-cases, inl, inr, String,
  Option, none, some, List, [], ◌∷◌, ◌++◌, ◌==◌, ==_iff, str_eq, eq_iff, keep, In, In-keep, All,
  sort_up, In-sort_up, sort_up-In, IsAscending, sort_up-IsAscending, arith,
}
use claude_struct.Calendar.{DateTime, instant, before}
use claude_struct.Audit.{Codec, record_event}
use claude_struct.Auth.{
  Role, parse_role, UserRow, OrgRow, Membership, UserSession, Accounts, granted, Lookup, missing,
  one, several, get_user, get_org, memberships_of, session_is_active, authenticate_session_cookie,
}
use claude_struct.Auth.Access.{one-In}
use claude_struct.Auth.Revocation.{In-keep_back}
use claude_struct.OAuth.{
  is_set, or_empty, GithubApi, Talk, said, oauth_error, crash, Identity, first_of, first_membership,
  Callback, CallbackReply, signed_in, unavailable, bad_request, forbidden, server_error, has_token,
  session_row, session_event, open_session, with_membership, with_user, user_by_email, identified,
  who_is, github_callback, session_expiry,
}

module _ {Payload : Type 0} (c : Codec Payload) (dict : String → Payload) (str : ℕ → String)
    (api : GithubApi) (q : Callback) (a : Accounts) where
  -- The accounts after a session row is added and logged.
  abbrev pub opened : UserSession → Accounts
  opened s = record a {
    sessions = a.sessions ++ s ∷ [];
    audit = (record_event c a.audit (session_event c dict str "auth.login.success" s) q.now).1;
  }

  -- A user, found by the email of an identity, and the earliest membership.
  pub record Entered (who : Identity) (token : String) (b : Accounts) : Type 0 where
    pub user : UserRow
    pub user_row : In user a.users
    pub email : user.email ≡ who.email
    pub membership : Membership
    pub row : In membership a.memberships
    pub of_user : membership.user_id ≡ user.id
    pub earliest :
        (m : Membership)
        → In m a.memberships
        → m.user_id ≡ user.id
        → instant membership.created_at ≤ instant m.created_at
    pub token_is : token ≡ q.fresh_token
    pub fresh : has_token token a.sessions ≡ false
    pub after : b ≡ opened (session_row c dict str q user membership)

  -- A sign-in: the states agree, and GitHub names the identity for the code.
  pub record SignedIn (token : String) (b : Accounts) : Type 0 where
    pub state : String
    pub not_empty : state ≢ ""
    pub given : q.state ≡ some state
    pub kept : q.state_cookie ≡ some state
    pub who : Identity
    pub talk : who_is c dict str api (or_empty q.code) ≡ said who
    pub entered : Entered who token b

  abbrev Inner : Identity → CallbackReply × Accounts → Type 0
  Inner who (signed_in token, b) = Entered who token b
  Inner who (unavailable, b) = b ≡ a
  Inner who (bad_request, b) = b ≡ a
  Inner who (forbidden, b) = b ≡ a
  Inner who (server_error, b) = b ≡ a

  abbrev pub Outcome : CallbackReply × Accounts → Type 0
  Outcome (signed_in token, b) = SignedIn token b
  Outcome (unavailable, b) = b ≡ a
  Outcome (bad_request, b) = b ≡ a
  Outcome (forbidden, b) = b ≡ a
  Outcome (server_error, b) = b ≡ a

  from_All :
      (k : ℕ) (n : Membership) (xs : List Membership)
      → All (λ (y : Membership). k ≤ instant y.created_at) xs
      → In n xs
      → k ≤ instant n.created_at
  from_All k n [] h m = absurd m
  from_All k n (y ∷ ys) h (inl same) = rw same h.0
  from_All k n (y ∷ ys) h (inr m) = from_All k n ys h.1 m

  first_of-least :
      (xs : List Membership) (m : Membership)
      → IsAscending (λ m. instant m.created_at) xs
      → first_of xs ≡ some m
      → In m xs × ((n : Membership) → In n xs → instant m.created_at ≤ instant n.created_at)
  first_of-least [] m up h = cc
  first_of-least (x ∷ xs) m up h =
      let same : m ≡ x = cc in
      (
        inl same,
        λ n i. elim i [
          | inl is ↦ rw (same, is) (omega arith)
          | inr deep ↦ rw same (from_All (instant x.created_at) n xs up.0 deep)
        ],
      )

  first_membership-least :
      (id : ℕ) (m : Membership)
      → first_membership id a.memberships ≡ some m
      → In m a.memberships
        × (m.user_id ≡ id)
        × ((n : Membership)
            → In n a.memberships
            → n.user_id ≡ id
            → instant m.created_at ≤ instant n.created_at)
  unfolding first_membership
  first_membership-least id m h =
      let p : Membership → Bool = λ n. n.user_id == id in
      let key : Membership → ℕ = λ n. instant n.created_at in
      let ms = keep p a.memberships in
      let (is_in, least) = first_of-least (sort_up key ms) m (sort_up-IsAscending key ms) h in
      let (row, named) = In-keep p m a.memberships (In-sort_up key m ms is_in) in
      (
        row,
        (==_iff m.user_id id).0 named,
        λ n i of.
            least n
              (sort_up-In key n ms (In-keep_back p n a.memberships i ((==_iff n.user_id id).1 of))),
      )

  open-Inner :
      (who : Identity) (u : UserRow) (m : Membership)
      → In u a.users
      → u.email ≡ who.email
      → first_membership u.id a.memberships ≡ some m
      → Inner who (open_session c dict str q (session_row c dict str q u m) a)
  open-Inner who u m row email first = elim (Bool-cases (has_token q.fresh_token a.sessions)) [
    | inl e ↦ rw e refl
    | inr e ↦
        (let (is_in, of, least) = first_membership-least u.id m first in
          rw e (record {
            user = u;
            user_row = row;
            email = email;
            membership = m;
            row = is_in;
            of_user = of;
            earliest = least;
            token_is = refl;
            fresh = e;
            after = refl;
          }))
  ]

  membership-Inner :
      (who : Identity) (u : UserRow) (o : Option Membership)
      → In u a.users
      → u.email ≡ who.email
      → first_membership u.id a.memberships ≡ o
      → Inner who (with_membership c dict str q u a o)
  membership-Inner who u none row email e = refl
  membership-Inner who u (some m) row email e = open-Inner who u m row email e

  user-Inner :
      (who : Identity) (l : Lookup UserRow)
      → user_by_email c dict str who.email a ≡ l
      → Inner who (with_user c dict str q a l)
  unfolding user_by_email
  user-Inner who missing e = refl
  user-Inner who several e = refl
  user-Inner who (one u) e =
      let (row, named) = In-keep (λ v. str_eq v.email who.email) u a.users (one-In _ u e) in
      membership-Inner who u _ row ((eq_iff u.email who.email).0 named) refl

  -- The two halves put together.
  join :
      (t : String) (who : Identity) (r : CallbackReply) (b : Accounts)
      → t ≢ ""
      → q.state ≡ some t
      → q.state_cookie ≡ some t
      → who_is c dict str api (or_empty q.code) ≡ said who
      → Inner who (r, b)
      → Outcome (r, b)
  join t who (signed_in token) b ne s k talk inner = record {
    state = t;
    not_empty = ne;
    given = s;
    kept = k;
    who = who;
    talk = talk;
    entered = inner;
  }
  join t who unavailable b ne s k talk inner = inner
  join t who bad_request b ne s k talk inner = inner
  join t who forbidden b ne s k talk inner = inner
  join t who server_error b ne s k talk inner = inner

  identified-Outcome :
      (t : String) (o : Talk Identity)
      → t ≢ ""
      → q.state ≡ some t
      → q.state_cookie ≡ some t
      → who_is c dict str api (or_empty q.code) ≡ o
      → Outcome (identified c dict str q a o)
  identified-Outcome t oauth_error ne s k talk = refl
  identified-Outcome t crash ne s k talk = refl
  identified-Outcome t (said who) ne s k talk = join t who _ _ ne s k talk (user-Inner who _ refl)

  set_text : (o : Option String) → is_set o ≡ true → (s : String) × (o ≡ some s) × (s ≢ "")
  set_text none h = cc
  set_text (some s) h = (s, refl, λ e. ground (arith, eq_iff s ""))

  states :
      (state cookie : Option String)
      → is_set state ≡ true
      → (is_set cookie && str_eq (or_empty cookie) (or_empty state)) ≡ true
      → (t : String) × (t ≢ "") × (state ≡ some t) × (cookie ≡ some t)
  states none cookie set same = cc
  states (some s) none set same = cc
  states (some s) (some k) set same =
      let is : k ≡ s = (eq_iff k s).0 (ground arith) in
      (s, λ e. ground (arith, eq_iff s ""), refl, ap some is)

  -- The callback signs a caller in only where the state in the query is that of the cookie and not
  -- empty, and GitHub names for the code an identity whose email a user of the database has; the
  -- session it then opens, of a token that no session had, is of that user and of the org of the
  -- user's earliest membership, and is logged; and in every other case it changes nothing.
  pub github_callback-Outcome : Outcome (github_callback c dict str api q a)
  unfolding github_callback
  github_callback-Outcome = elim (Bool-cases q.configured) [
    | inr off ↦ rw off refl
    | inl on ↦ elim (Bool-cases (is_set q.code && is_set q.state)) [
      | inr gone ↦ rw (on, gone) refl
      | inl there ↦
          elim (Bool-cases
            (is_set q.state_cookie && str_eq (or_empty q.state_cookie) (or_empty q.state))) [
              | inr differs ↦ rw (on, there, differs) refl
              | inl same ↦
                  (let (t, ne, s, k) = states q.state q.state_cookie (ground arith) same in
                    simp (on, there, same) (identified-Outcome t _ ne s k refl))
            ]
    ]
  ]

  -- The sign-in behind an answer that carries a session.
  pub signed :
      (token : String) (b : Accounts)
      → github_callback c dict str api q a ≡ (signed_in token, b)
      → SignedIn token b
  signed token b h = let outcome = github_callback-Outcome in rw h at outcome

  abbrev pub user_in :
      (token : String) (b : Accounts)
      → github_callback c dict str api q a ≡ (signed_in token, b)
      → UserRow
  user_in token b h = (signed token b h).entered.user

  abbrev pub membership_in :
      (token : String) (b : Accounts)
      → github_callback c dict str api q a ≡ (signed_in token, b)
      → Membership
  membership_in token b h = (signed token b h).entered.membership

  keep-fresh :
      (token : String) (s : UserSession) (ss : List UserSession)
      → s.session_token ≡ token
      → has_token token ss ≡ false
      → keep (λ r. str_eq r.session_token token) (ss ++ s ∷ []) ≡ s ∷ []
  keep-fresh token s [] is fresh = rw ((eq_iff s.session_token token).1 is) refl
  keep-fresh token s (r ∷ ss) is fresh = elim (Bool-cases (str_eq r.session_token token)) [
    | inl e ↦ cc (rw e at fresh)
    | inr e ↦ rw e (keep-fresh token s ss is (rw e at fresh))
  ]

  opened-authenticates :
      (v : UserRow) (n : Membership) (later : DateTime) (m : Membership) (u : UserRow) (o : OrgRow)
      (r : Role)
      → has_token q.fresh_token a.sessions ≡ false
      → before later (session_expiry q.now) ≡ true
      → memberships_of a v.id n.org_id ≡ one m
      → parse_role m.role ≡ some r
      → get_user v.id a.users ≡ some u
      → get_org n.org_id a.orgs ≡ some o
      → (authenticate_session_cookie later (opened (session_row c dict str q v n)) q.fresh_token).0
        ≡ granted (record {
          user_id = u.id;
          user_email = u.email;
          org_id = o.id;
          org_slug = o.slug;
          role = r;
        })
  unfolding authenticate_session_cookie session_is_active memberships_of
  opened-authenticates v n later m u o r fresh time one_of is_role user org =
      let s = session_row c dict str q v n in
      rw (keep-fresh q.fresh_token s a.sessions refl fresh, time, one_of, user, org, is_role) refl

  -- The session cookie that the callback hands out logs its bearer in, from then on until the
  -- session expires, as the user whose email GitHub named, in the org of the earliest membership and
  -- with the role of the membership there, where the user and the org still exist, the membership is
  -- the only one of that user in that org, and its role is one.
  pub callback_session-authenticates :
      (token : String) (b : Accounts) (later : DateTime)
      (h : github_callback c dict str api q a ≡ (signed_in token, b)) (m : Membership) (u : UserRow)
      (o : OrgRow) (r : Role)
      → before later (session_expiry q.now) ≡ true
      → memberships_of a (user_in token b h).id (membership_in token b h).org_id ≡ one m
      → parse_role m.role ≡ some r
      → get_user (user_in token b h).id a.users ≡ some u
      → get_org (membership_in token b h).org_id a.orgs ≡ some o
      → (authenticate_session_cookie later b token).0
        ≡ granted (record {
          user_id = u.id;
          user_email = u.email;
          org_id = o.id;
          org_slug = o.slug;
          role = r;
        })
  callback_session-authenticates token b later h m u o r time one_of is_role user org =
      let e = (signed token b h).entered in
      let fresh : has_token q.fresh_token a.sessions ≡ false =
        ap (λ t. has_token t a.sessions) (sym e.token_is) ∙ e.fresh in
      ap₂ (λ d t. (authenticate_session_cookie later d t).0) e.after e.token_is
      ∙ opened-authenticates e.user e.membership later m u o r fresh time one_of is_role user org
