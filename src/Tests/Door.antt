-- ===== src/Tests/Door.antt =====
-- Logins and keys.
use claude_struct.Prelude.{◌≡◌, ◌≢◌, refl, none, some}
use claude_struct.Auth.{
  admin, parse_role, role_rank, granted, one, is_member, memberships_of, parse_key, drop_prefix,
  split_underscore, authenticate, ok, current_principal, require_role, generate_key,
}
use claude_struct.Auth.Access.{Admitted, current_principal-Admitted}
use claude_struct.Auth.KeyText.{IsHex}
use claude_struct.Auth.Keys.{create_key-authenticates}
use claude_struct.Auth.Revocation.{revoke_key-locks_out}
use claude_struct.Auth.Endpoints.{NewKey, create_key, revoke_key, is_own_key}
use claude_struct.Tests.Data.{march, padded, a_codec, a_principal, some_accounts}

the_request :
    (current_principal (padded 64) (march 5 8) some_accounts (some "ck_ab_s") none).0
    ≡ ok a_principal
unfolding current_principal authenticate parse_key drop_prefix split_underscore memberships_of
    is_member parse_role
the_request = refl

current_principal-Admitted_example :
    Admitted (padded 64) (march 5 8) some_accounts a_principal (some "ck_ab_s") none
current_principal-Admitted_example =
    current_principal-Admitted (padded 64) (march 5 8) some_accounts a_principal (some "ck_ab_s")
      none the_request

IsHex-cd : IsHex "cd"
IsHex-cd = record { not_empty = λ e. cc; no_underscore = refl }

abbrev new_key : NewKey
new_key = record { full_key = "ck_cd_cd"; key_id = "cd"; name = none; created_at = march 5 8 }

key_created :
    (create_key a_codec (march 5 8) a_principal "cd" "cd" none "{}" some_accounts).0 ≡ ok new_key
unfolding create_key require_role role_rank generate_key
key_created = refl

one_membership :
    memberships_of some_accounts 3 2
    ≡ one (record { user_id = 3; org_id = 2; role = "admin"; created_at = march 1 8 })
unfolding memberships_of is_member
one_membership = refl

admin_parses : parse_role "admin" ≡ some admin
unfolding parse_role
admin_parses = refl

create_key-authenticates_example :
    (authenticate
      (padded 64)
      (march 6 8)
      (create_key a_codec (march 5 8) a_principal "cd" "cd" none "{}" some_accounts).1
      new_key.full_key).0
    ≡ granted a_principal
create_key-authenticates_example =
    create_key-authenticates a_codec (march 5 8) a_principal "cd" "{}" some_accounts "cd" none
      (march 6 8) new_key
      (record { user_id = 3; org_id = 2; role = "admin"; created_at = march 1 8 })
      (record { id = 3; email = "ann@acme.test" }) (record { id = 2; slug = "acme" }) admin IsHex-cd
      IsHex-cd key_created one_membership refl refl admin_parses

key_revoked : (revoke_key a_codec (march 5 8) a_principal "ab" "{}" some_accounts).0 ≡ ok "ab"
unfolding revoke_key require_role role_rank is_own_key
key_revoked = refl

read_key : parse_key "ck_ab_s" ≡ some ("ab", "s")
unfolding parse_key drop_prefix split_underscore
read_key = refl

revoke_key-locks_out_example :
    (authenticate
      (padded 64)
      (march 6 8)
      (revoke_key a_codec (march 5 8) a_principal "ab" "{}" some_accounts).1
      "ck_ab_s").0
    ≢ granted a_principal
revoke_key-locks_out_example =
    revoke_key-locks_out a_codec (march 5 8) a_principal "ab" "{}" some_accounts (march 6 8)
      "ck_ab_s" "s" "ab" a_principal key_revoked read_key
