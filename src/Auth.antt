-- ===== src/Auth.antt =====
-- src/claudestruct/server/auth.py and src/claudestruct/server/routers/keys.py: API keys, session cookies,
-- and roles; the endpoints that manage keys are in a child module.
pub mod Access
pub mod Endpoints
pub mod KeyText
pub mod Keys
pub mod Revocation
use Prim.Native.Char.{Char, code}
use claude_struct.Prelude.{
  ℕ, Bool, true, false, ◌&&◌, String, text_append, Option, none, some, List, [], ◌∷◌, ◌++◌, map,
  ◌==◌, ltb, str_eq, if◌then◌else◌, keep, sort_down,
}
use claude_struct.Calendar.{DateTime, instant, before}
use claude_struct.Audit.{Codec, AuditEntry, Event, record_event}

-- `Role` of src/claudestruct/server/models.py, and its value as a column holds it.
pub data Role : Type 0 where
  viewer member admin : Role

unfoldable pub role_value : Role → String
role_value viewer = "viewer"
role_value member = "member"
role_value admin = "admin"

-- `Role(text)`; `none` is the `ValueError`.
unfoldable pub parse_role : String → Option Role
parse_role s =
    if str_eq s "viewer"
    then some viewer
    else if str_eq s "member"
    then some member
    else if str_eq s "admin"
    then some admin
    else none

-- `_ROLE_RANK`.
unfoldable pub role_rank : Role → ℕ
role_rank viewer = 0
role_rank member = 1
role_rank admin = 2

-- `Principal`.
pub record Principal : Type 0 where
  pub user_id : ℕ
  pub user_email : String
  pub org_id : ℕ
  pub org_slug : String
  pub role : Role

-- The rows that a login reads.
pub record UserRow : Type 0 where
  pub id : ℕ
  pub email : String

pub record OrgRow : Type 0 where
  pub id : ℕ
  pub slug : String

pub record Membership : Type 0 where
  pub user_id : ℕ
  pub org_id : ℕ
  pub role : String
  pub created_at : DateTime

pub record ApiKey : Type 0 where
  pub user_id : ℕ
  pub org_id : ℕ
  pub key_id : String
  pub hashed_secret : String
  pub name : Option String
  pub created_at : DateTime
  pub last_used_at : Option DateTime
  pub revoked_at : Option DateTime

pub record UserSession : Type 0 where
  pub id : ℕ
  pub user_id : ℕ
  pub org_id : ℕ
  pub session_token : String
  pub provider : String
  pub expires_at : DateTime
  pub revoked_at : Option DateTime

pub record Accounts : Type 0 where
  pub users : List UserRow
  pub orgs : List OrgRow
  pub memberships : List Membership
  pub api_keys : List ApiKey
  pub sessions : List UserSession
  pub audit : List AuditEntry

-- How a login ends: a principal, `None`, or an exception (a duplicate row, or a role that is none).
pub data Login : Type 0 where
  granted : Principal → Login
  refused : Login
  raised : Login

-- `scalar_one_or_none`.
pub data Lookup (A : Type 0) : Type 0 where
  missing : Lookup A
  one : A → Lookup A
  several : Lookup A

abbrev pub one_or_none : {A : Type 0} → List A → Lookup A
one_or_none [] = missing
one_or_none (x ∷ []) = one x
one_or_none (_ ∷ _ ∷ _) = several

-- `str.startswith` and what follows the prefix.
unfoldable pub drop_prefix : String → String → Option String
drop_prefix String.[] s = some s
drop_prefix (String.◌∷◌ c p) String.[] = none
drop_prefix (String.◌∷◌ c p) (String.◌∷◌ d s) =
    let rest = drop_prefix p s in if code c == code d then rest else none

abbrev pub led_by : Char → Option (String × String) → Option (String × String)
led_by c none = none
led_by c (some (a, b)) = some (String.◌∷◌ c a, b)

-- `body.split("_", 1)`; `none` where there is no underscore.
unfoldable pub split_underscore : String → Option (String × String)
split_underscore String.[] = none
split_underscore (String.◌∷◌ c s) =
    let rest = split_underscore s in if code c == 95 then some ("", s) else led_by c rest

abbrev pub both_set : Option (String × String) → Option (String × String)
both_set none = none
both_set (some (a, b)) = if str_eq a "" then none else if str_eq b "" then none else some (a, b)

abbrev pub parse_body : Option String → Option (String × String)
parse_body none = none
parse_body (some body) = both_set (split_underscore body)

-- `parse_key`: the key's id and its secret.
unfoldable pub parse_key : String → Option (String × String)
parse_key full_key = parse_body (drop_prefix "ck_" full_key)

-- `generate_key`, from the two random texts.
unfoldable pub generate_key : String → String → String
generate_key key_id secret = text_append "ck_" (text_append key_id (text_append "_" secret))

-- `is_active` of a key and of a session.
abbrev pub key_is_active : Option DateTime → Bool
key_is_active none = true
key_is_active (some _) = false

unfoldable pub session_is_active : DateTime → UserSession → Bool
session_is_active now s = key_is_active s.revoked_at && before now s.expires_at

unfoldable pub is_member : ℕ → ℕ → Membership → Bool
is_member user org m = (m.user_id == user) && (m.org_id == org)

abbrev pub get_user : ℕ → List UserRow → Option UserRow
get_user id [] = none
get_user id (u ∷ us) = if u.id == id then some u else get_user id us

abbrev pub get_org : ℕ → List OrgRow → Option OrgRow
get_org id [] = none
get_org id (o ∷ os) = if o.id == id then some o else get_org id os

abbrev pub with_role : UserRow → OrgRow → Option Role → Login
with_role u o none = raised
with_role u o (some r) =
    granted
      (record { user_id = u.id; user_email = u.email; org_id = o.id; org_slug = o.slug; role = r })

-- The end that both logins share: the membership, the user and the org; `next` is what the login
-- commits before it builds the principal.
abbrev pub principal_of :
    Accounts → Accounts → Membership → Option UserRow → Option OrgRow → Login × Accounts
principal_of a next m (some u) (some o) = (with_role u o (parse_role m.role), next)
principal_of a next m _ _ = (refused, a)

abbrev pub as_member : Accounts → Accounts → ℕ → ℕ → Lookup Membership → Login × Accounts
as_member a next user org missing = (refused, a)
as_member a next user org several = (raised, a)
as_member a next user org (one m) =
    principal_of a next m (get_user user a.users) (get_org org a.orgs)

unfoldable pub memberships_of : Accounts → ℕ → ℕ → Lookup Membership
memberships_of a user org = one_or_none (keep (is_member user org) a.memberships)

abbrev pub touch : DateTime → String → ApiKey → ApiKey
touch now key_id k = if str_eq k.key_id key_id then record k { last_used_at = some now } else k

abbrev pub touched : DateTime → String → Accounts → Accounts
touched now key_id a = record a { api_keys = map (touch now key_id) a.api_keys }

-- The endpoints' errors.
pub data AuthError : Type 0 where
  unauthorized forbidden not_found server_error : AuthError

pub data Answer (A : Type 0) : Type 0 where
  ok : A → Answer A
  err : AuthError → Answer A

module _ (hash_secret : String → String) where
  abbrev pub checked_key : DateTime → Accounts → String → Lookup ApiKey → Login × Accounts
  checked_key now a secret missing = (refused, a)
  checked_key now a secret several = (raised, a)
  checked_key now a secret (one k) =
      if key_is_active k.revoked_at && str_eq k.hashed_secret (hash_secret secret)
      then as_member a (touched now k.key_id a) k.user_id k.org_id
          (memberships_of a k.user_id k.org_id)
      else (refused, a)

  abbrev pub authenticate_key : DateTime → Accounts → Option (String × String) → Login × Accounts
  authenticate_key now a none = (refused, a)
  authenticate_key now a (some (key_id, secret)) =
      checked_key now a secret (one_or_none (keep (λ k. str_eq k.key_id key_id) a.api_keys))

  -- `authenticate`.
  unfoldable pub authenticate : DateTime → Accounts → String → Login × Accounts
  authenticate now a full_key = authenticate_key now a (parse_key full_key)

abbrev pub checked_session : DateTime → Accounts → Lookup UserSession → Login × Accounts
checked_session now a missing = (refused, a)
checked_session now a several = (raised, a)
checked_session now a (one s) =
    if session_is_active now s
    then as_member a a s.user_id s.org_id (memberships_of a s.user_id s.org_id)
    else (refused, a)

-- `authenticate_session_cookie`.
unfoldable pub authenticate_session_cookie : DateTime → Accounts → String → Login × Accounts
authenticate_session_cookie now a cookie =
    checked_session now a (one_or_none (keep (λ s. str_eq s.session_token cookie) a.sessions))

abbrev pub login_answer : Login × Accounts → Answer Principal × Accounts
login_answer (granted p, a) = (ok p, a)
login_answer (refused, a) = (err unauthorized, a)
login_answer (raised, a) = (err server_error, a)

module _ (hash_secret : String → String) where
  abbrev pub by_cookie : DateTime → Accounts → Option String → Answer Principal × Accounts
  by_cookie now a none = (err unauthorized, a)
  by_cookie now a (some cookie) =
      if str_eq cookie ""
      then (err unauthorized, a)
      else login_answer (authenticate_session_cookie now a cookie)

  -- `current_principal`: the bearer token if there is one, otherwise the cookie.
  unfoldable pub current_principal :
      DateTime → Accounts → Option String → Option String → Answer Principal × Accounts
  current_principal now a (some bearer) cookie =
      login_answer (authenticate hash_secret now a bearer)
  current_principal now a none cookie = by_cookie now a cookie

-- `require_role`.
unfoldable pub require_role : Role → Principal → Answer Principal
require_role least p = if ltb (role_rank p.role) (role_rank least) then err forbidden else ok p
