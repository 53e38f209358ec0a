-- ===== src/OAuth.antt =====
-- src/claudestruct/server/oauth.py and src/claudestruct/server/routers/oauth.py: signing in with GitHub.
pub mod Identities
pub mod Login
pub mod Logout
use claude_struct.Prelude.{
  ℕ, zero, suc, ◌+◌, Bool, true, false, not, ◌&&◌, ◌||◌, String, Option, none, some, List, [], ◌∷◌,
  ◌++◌, map, ◌==◌, ltb, str_eq, if◌then◌else◌, keep, sort_up,
}
use claude_struct.Calendar.{DateTime, instant, days_in_month}
use claude_struct.Audit.{Codec, Event, record_event}
use claude_struct.Auth.{
  UserRow, Membership, UserSession, Accounts, Lookup, missing, one, several, one_or_none,
}

abbrev pub is_set : Option String → Bool
is_set none = false
is_set (some s) = not (str_eq s "")

abbrev pub or_empty : Option String → String
or_empty none = ""
or_empty (some s) = s

-- What GitHub answers, by the fields that are read; a field that is absent or no text is `none`.
pub record TokenResponse : Type 0 where
  pub status_code : ℕ
  pub access_token : Option String

pub record UserResponse : Type 0 where
  pub status_code : ℕ
  pub login : Option String
  pub name : Option String
  pub email : Option String

pub record EmailEntry : Type 0 where
  pub primary : Bool
  pub verified : Bool
  pub email : Option String

pub record EmailsResponse : Type 0 where
  pub status_code : ℕ
  pub entries : List EmailEntry

-- The HTTP client: the exchange of a code, the user and the emails of a token. `none` is an
-- exception of the client.
pub record GithubApi : Type 0 where
  pub exchange : String → Option TokenResponse
  pub user : String → Option UserResponse
  pub emails : String → Option EmailsResponse

-- How a talk with GitHub ends: a result, an `OAuthError`, or another exception.
pub data Talk (A : Type 0) : Type 0 where
  said : A → Talk A
  oauth_error : Talk A
  crash : Talk A

infixl 5 ◌>>=◌
abbrev pub ◌>>=◌ : {A B : Type 0} → Talk A → (A → Talk B) → Talk B
said a >>= f = f a
oauth_error >>= f = oauth_error
crash >>= f = crash

abbrev pub responded : {A : Type 0} → Option A → Talk A
responded none = crash
responded (some a) = said a

abbrev pub said_if : {A : Type 0} → Bool → A → Talk A
said_if b a = if b then said a else oauth_error

-- `exchange_code_for_token`.
unfoldable pub exchange_code_for_token : GithubApi → String → Talk String
exchange_code_for_token api code = do
  r ← responded (api.exchange code)
  said_if ((r.status_code == 200) && is_set r.access_token) (or_empty r.access_token)

-- The loop over the emails: the first primary and verified one ends it.
unfoldable pub primary_email : List EmailEntry → String
primary_email [] = ""
primary_email (e ∷ es) =
    let rest = primary_email es in if e.primary && e.verified then or_empty e.email else rest

pub record Identity : Type 0 where
  pub login : String
  pub email : String
  pub name : String

abbrev pub listed_email : EmailsResponse → String
listed_email r = if r.status_code == 200 then primary_email r.entries else ""

abbrev pub email_of : GithubApi → String → UserResponse → Talk String
email_of api token r =
    if is_set r.email
    then said (or_empty r.email)
    else (do listed ← responded (api.emails token); said (listed_email listed))

abbrev pub identity : UserResponse → String → Identity
identity r email = record {
  login = or_empty r.login;
  email = email;
  name = if is_set r.name then or_empty r.name else or_empty r.login;
}

-- `fetch_github_user`.
unfoldable pub fetch_github_user : GithubApi → String → Talk Identity
unfolding primary_email
fetch_github_user api token = do
  r ← responded (api.user token)
  checked ← said_if (r.status_code == 200) r
  email ← email_of api token checked
  said_if (is_set checked.login && not (str_eq email "")) (identity checked email)

abbrev pub next_day : DateTime → DateTime
next_day t =
    if ltb t.day (days_in_month t.year t.month)
    then record t { day = t.day + 1 }
    else if ltb t.month 12
    then record t { month = t.month + 1; day = 1 }
    else record t { year = t.year + 1; month = 1; day = 1 }

abbrev pub add_days : ℕ → DateTime → DateTime
add_days zero t = t
add_days (suc n) t = add_days n (next_day t)

-- `session_expiry`, with `SESSION_TTL`.
unfoldable pub session_expiry : DateTime → DateTime
session_expiry now = add_days 14 now

-- `ORDER BY created_at LIMIT 1` over the memberships of a user.
abbrev pub first_of : List Membership → Option Membership
first_of [] = none
first_of (m ∷ ms) = some m

unfoldable pub first_membership : ℕ → List Membership → Option Membership
first_membership user ms =
    first_of (sort_up (λ m. instant m.created_at) (keep (λ m. m.user_id == user) ms))

-- The query of the callback, the state cookie, the clock, the fresh token, and the primary key that
-- the database gives the session's row.
pub record Callback : Type 0 where
  pub configured : Bool
  pub code : Option String
  pub state : Option String
  pub state_cookie : Option String
  pub now : DateTime
  pub fresh_token : String
  pub fresh_id : ℕ

-- 302 with the session cookie, 503, 400, 403 and 500.
pub data CallbackReply : Type 0 where
  signed_in : String → CallbackReply
  unavailable bad_request forbidden server_error : CallbackReply

abbrev pub has_token : String → List UserSession → Bool
has_token token [] = false
has_token token (s ∷ ss) = str_eq s.session_token token || has_token token ss

module _ {Payload : Type 0} (c : Codec Payload) (dict : String → Payload) (str : ℕ → String) where
  abbrev pub session_row : Callback → UserRow → Membership → UserSession
  session_row q u m = record {
    id = q.fresh_id;
    user_id = u.id;
    org_id = m.org_id;
    session_token = q.fresh_token;
    provider = "github";
    expires_at = session_expiry q.now;
    revoked_at = none;
  }

  abbrev pub session_event : String → UserSession → Event Payload
  session_event action s = record {
    org_id = s.org_id;
    actor_user_id = some s.user_id;
    action = action;
    resource_type = "user_session";
    resource_id = str s.id;
    payload = dict s.provider;
  }

  -- The row of the session and the one of the audit log; a token that is taken is an
  -- `IntegrityError`.
  abbrev pub open_session : Callback → UserSession → Accounts → CallbackReply × Accounts
  open_session q s a = if has_token s.session_token a.sessions then (server_error, a) else (
    signed_in s.session_token,
    record a {
      sessions = a.sessions ++ s ∷ [];
      audit = (record_event c a.audit (session_event "auth.login.success" s) q.now).1;
    },
  )

  abbrev pub with_membership :
      Callback → UserRow → Accounts → Option Membership → CallbackReply × Accounts
  with_membership q u a none = (forbidden, a)
  with_membership q u a (some m) = open_session q (session_row q u m) a

  abbrev pub with_user : Callback → Accounts → Lookup UserRow → CallbackReply × Accounts
  with_user q a missing = (forbidden, a)
  with_user q a several = (server_error, a)
  with_user q a (one u) = with_membership q u a (first_membership u.id a.memberships)

  unfoldable pub user_by_email : String → Accounts → Lookup UserRow
  user_by_email email a = one_or_none (keep (λ u. str_eq u.email email) a.users)

  abbrev pub identified : Callback → Accounts → Talk Identity → CallbackReply × Accounts
  identified q a oauth_error = (bad_request, a)
  identified q a crash = (server_error, a)
  identified q a (said i) = with_user q a (user_by_email i.email a)

  abbrev pub who_is : GithubApi → String → Talk Identity
  who_is api code = do token ← exchange_code_for_token api code; fetch_github_user api token

  -- `github_callback`.
  unfoldable pub github_callback : GithubApi → Callback → Accounts → CallbackReply × Accounts
  github_callback api q a =
      if q.configured
      then (if is_set q.code && is_set q.state
          then (if is_set q.state_cookie && str_eq (or_empty q.state_cookie) (or_empty q.state)
              then identified q a (who_is api (or_empty q.code))
              else (bad_request, a))
          else (bad_request, a))
      else (unavailable, a)

  abbrev pub revoke_session : DateTime → String → UserSession → UserSession
  revoke_session now cookie s =
      if str_eq s.session_token cookie then record s { revoked_at = some now } else s

  abbrev pub logged_out : DateTime → String → UserSession → Accounts → Option DateTime → Accounts
  logged_out now cookie s a (some t) = a
  logged_out now cookie s a none = record a {
    sessions = map (revoke_session now cookie) a.sessions;
    audit = (record_event c a.audit (session_event "auth.logout" s) now).1;
  }

  -- `logout` of a session; `none` is a `MultipleResultsFound`.
  abbrev pub logout_found : DateTime → String → Accounts → Lookup UserSession → Option Accounts
  logout_found now cookie a missing = some a
  logout_found now cookie a several = none
  logout_found now cookie a (one s) = some (logged_out now cookie s a s.revoked_at)

  -- `logout`.
  unfoldable pub logout : DateTime → Option String → Accounts → Option Accounts
  logout now cookie a =
      if is_set cookie
      then logout_found now (or_empty cookie) a
          (one_or_none (keep (λ s. str_eq s.session_token (or_empty cookie)) a.sessions))
      else some a
