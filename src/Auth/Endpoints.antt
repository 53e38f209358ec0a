-- ===== src/Auth/Endpoints.antt =====
-- src/claudestruct/server/routers/keys.py: the endpoints that list, create and revoke API keys.
use claude_struct.Prelude.{
  ℕ, Bool, ◌&&◌, String, Option, none, some, List, [], ◌∷◌, ◌++◌, map, ◌==◌, str_eq, if◌then◌else◌,
  keep, sort_down,
}
use claude_struct.Calendar.{DateTime, instant}
use claude_struct.Audit.{Codec, Event, record_event}
use claude_struct.Auth.{
  Accounts, Answer, ApiKey, Lookup, Principal, generate_key, key_is_active, one_or_none,
  require_role, admin, missing, one, several, not_found, server_error, ok, err,
}

-- `CreateKeyResponse`, without the columns that are empty on a new key.
pub record NewKey : Type 0 where
  pub full_key : String
  pub key_id : String
  pub name : Option String
  pub created_at : DateTime

abbrev pub new_key_row : DateTime → Principal → String → String → Option String → ApiKey
new_key_row now p key_id hashed name = record {
  user_id = p.user_id;
  org_id = p.org_id;
  key_id = key_id;
  hashed_secret = hashed;
  name = name;
  created_at = now;
  last_used_at = none;
  revoked_at = none;
}

unfoldable pub is_own_key : String → ℕ → ApiKey → Bool
is_own_key key_id org k = str_eq k.key_id key_id && (k.org_id == org)

abbrev pub set_revoked : DateTime → Option DateTime → Option DateTime
set_revoked now none = some now
set_revoked now (some t) = some t

abbrev pub revoke : DateTime → String → ℕ → ApiKey → ApiKey
revoke now key_id org k =
    if is_own_key key_id org k then record k { revoked_at = set_revoked now k.revoked_at } else k

module _ {Payload : Type 0} (c : Codec Payload) where
  abbrev pub key_event : Principal → String → String → Payload → Event Payload
  key_event p action key_id payload = record {
    org_id = p.org_id;
    actor_user_id = some p.user_id;
    action = action;
    resource_type = "api_key";
    resource_id = key_id;
    payload = payload;
  }

  abbrev pub insert_key :
      DateTime
      → Principal
      → String
      → String
      → Option String
      → Payload
      → Accounts
      → Answer NewKey × Accounts
  insert_key now p key_id secret name payload a = (
    ok (record {
      full_key = generate_key key_id secret;
      key_id = key_id;
      name = name;
      created_at = now;
    }),
    record a {
      api_keys = a.api_keys ++ new_key_row now p key_id (c.sha256_hex secret) name ∷ [];
      audit = (record_event c a.audit (key_event p "key.create" key_id payload) now).1;
    },
  )

  -- A key id that is taken violates the UNIQUE constraint.
  abbrev pub insert_free :
      DateTime
      → Principal
      → String
      → String
      → Option String
      → Payload
      → Accounts
      → Lookup ApiKey
      → Answer NewKey × Accounts
  insert_free now p key_id secret name payload a missing =
      insert_key now p key_id secret name payload a
  insert_free now p key_id secret name payload a _ = (err server_error, a)

  -- `create_key`, behind its role.
  abbrev pub create_as :
      DateTime
      → String
      → String
      → Option String
      → Payload
      → Accounts
      → Answer Principal
      → Answer NewKey × Accounts
  create_as now key_id secret name payload a (err e) = (err e, a)
  create_as now key_id secret name payload a (ok p) =
      insert_free now p key_id secret name payload a
        (one_or_none (keep (λ k. str_eq k.key_id key_id) a.api_keys))

  unfoldable pub create_key :
      DateTime
      → Principal
      → String
      → String
      → Option String
      → Payload
      → Accounts
      → Answer NewKey × Accounts
  create_key now p key_id secret name payload a =
      create_as now key_id secret name payload a (require_role admin p)

  -- The row was found in the caller's org, so `require_org_owned` refuses a missing one only.
  abbrev pub revoke_found :
      DateTime → Principal → String → Payload → Accounts → Lookup ApiKey → Answer String × Accounts
  revoke_found now p key_id payload a missing = (err not_found, a)
  revoke_found now p key_id payload a several = (err server_error, a)
  revoke_found now p key_id payload a (one k) =
      if key_is_active k.revoked_at
      then (
        ok key_id,
        record a {
          api_keys = map (revoke now key_id p.org_id) a.api_keys;
          audit = (record_event c a.audit (key_event p "key.revoke" key_id payload) now).1;
        },
      )
      else (ok key_id, a)

  abbrev pub revoke_as :
      DateTime → String → Payload → Accounts → Answer Principal → Answer String × Accounts
  revoke_as now key_id payload a (err e) = (err e, a)
  revoke_as now key_id payload a (ok p) =
      revoke_found now p key_id payload a
        (one_or_none (keep (is_own_key key_id p.org_id) a.api_keys))

  -- `revoke_key`.
  unfoldable pub revoke_key :
      DateTime → Principal → String → Payload → Accounts → Answer String × Accounts
  revoke_key now p key_id payload a = revoke_as now key_id payload a (require_role admin p)

-- `list_keys`: the org's keys, the newest first.
abbrev pub list_as : Accounts → Answer Principal → Answer (List ApiKey)
list_as a (err e) = err e
list_as a (ok p) =
    ok (sort_down (λ k. instant k.created_at) (keep (λ k. k.org_id == p.org_id) a.api_keys))

unfoldable pub list_keys : Principal → Accounts → Answer (List ApiKey)
list_keys p a = list_as a (require_role admin p)
