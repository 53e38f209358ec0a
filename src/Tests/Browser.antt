-- ===== src/Tests/Browser.antt =====
-- Signing in with GitHub and out again.
use claude_struct.Prelude.{
  ◌≡◌, ◌≢◌, In, inl, inr, sort_up, refl, ap, ap₂, ◌∙◌, true, String, Option, none, some, [], ◌∷◌,
}
use claude_struct.Calendar.{DateTime, before, instant, days_in_month}
use claude_struct.Auth.{
  admin, parse_role, Principal, UserRow, Membership, get_user, get_org, Accounts, granted, one,
  is_member, memberships_of, authenticate_session_cookie,
}
use claude_struct.OAuth.{
  GithubApi, Identity, said, Callback, signed_in, exchange_code_for_token, fetch_github_user,
  first_membership, user_by_email, session_expiry, github_callback, session_row, logout,
}
use claude_struct.OAuth.Identities.{Named, fetch_github_user-Named}
use claude_struct.OAuth.Login.{
  opened, Outcome, github_callback-Outcome, signed, user_in, membership_in,
  callback_session-authenticates,
}
use claude_struct.OAuth.Logout.{logout-locks_out}
use claude_struct.Tests.Data.{march, a_codec, a_principal, some_accounts}

abbrev an_api : GithubApi
an_api = record {
  exchange = λ code. some (record { status_code = 200; access_token = some "gho" });
  user =
      λ token. some (record { status_code = 200; login = some "ann"; name = none; email = none });
  emails = λ token. some (record {
    status_code = 200;
    entries = record { primary = true; verified = true; email = some "ann@acme.test" } ∷ [];
  });
}

abbrev a_callback : Callback
a_callback = record {
  configured = true;
  code = some "c0de";
  state = some "st";
  state_cookie = some "st";
  now = march 5 8;
  fresh_token = "tok";
  fresh_id = 4;
}

abbrev ann : UserRow
ann = record { id = 3; email = "ann@acme.test" }

abbrev her_membership : Membership
her_membership = record { user_id = 3; org_id = 2; role = "admin"; created_at = march 1 8 }

abbrev after_login : Accounts
after_login =
    opened a_codec (λ s. s) (λ n. "4") an_api a_callback some_accounts
      (session_row a_codec (λ s. s) (λ n. "4") a_callback ann her_membership)

github_callback-Outcome_example :
    Outcome a_codec
      (λ s. s)
      (λ n. "4")
      an_api
      a_callback
      some_accounts
      (github_callback a_codec (λ s. s) (λ n. "4") an_api a_callback some_accounts)
github_callback-Outcome_example =
    github_callback-Outcome a_codec (λ s. s) (λ n. "4") an_api a_callback some_accounts

signs_in :
    github_callback a_codec (λ s. s) (λ n. "4") an_api a_callback some_accounts
    ≡ (signed_in "tok", after_login)
unfolding github_callback exchange_code_for_token fetch_github_user user_by_email first_membership
    sort_up
signs_in = refl

still_open : before (march 6 8) (session_expiry (march 5 8)) ≡ true
unfolding before session_expiry instant days_in_month
still_open = refl

only_one : {A : Type 0} (x y : A) → In x (y ∷ []) → x ≡ y
only_one x y (inl same) = same
only_one x y (inr m) = absurd m

user_is :
    user_in a_codec (λ s. s) (λ n. "4") an_api a_callback some_accounts "tok" after_login signs_in
    ≡ ann
user_is =
    only_one _ _
      (signed a_codec (λ s. s) (λ n. "4") an_api a_callback some_accounts "tok" after_login
        signs_in).entered.user_row

membership_is :
    membership_in a_codec
      (λ s. s)
      (λ n. "4")
      an_api
      a_callback
      some_accounts
      "tok"
      after_login
      signs_in
    ≡ her_membership
membership_is =
    only_one _ _
      (signed a_codec (λ s. s) (λ n. "4") an_api a_callback some_accounts "tok" after_login
        signs_in).entered.row

one_membership : memberships_of some_accounts 3 2 ≡ one her_membership
unfolding memberships_of is_member
one_membership = refl

admin_parses : parse_role "admin" ≡ some admin
unfolding parse_role
admin_parses = refl

callback_session-authenticates_example :
    (authenticate_session_cookie (march 6 8) after_login "tok").0 ≡ granted a_principal
callback_session-authenticates_example =
    callback_session-authenticates a_codec (λ s. s) (λ n. "4") an_api a_callback some_accounts "tok"
      after_login (march 6 8) signs_in her_membership ann (record { id = 2; slug = "acme" }) admin
      still_open
      (ap₂ (λ (u : UserRow) (m : Membership). memberships_of some_accounts u.id m.org_id) user_is
          membership_is
        ∙ one_membership)
      admin_parses (ap (λ (u : UserRow). get_user u.id some_accounts.users) user_is)
      (ap (λ (m : Membership). get_org m.org_id some_accounts.orgs) membership_is)

abbrev after_logout : Option Accounts
after_logout = logout a_codec (λ s. s) (λ n. "4") (march 7 8) (some "tok") after_login

abbrev or_same : Option Accounts → Accounts
or_same none = after_login
or_same (some b) = b

logs_out : after_logout ≡ some (or_same after_logout)
unfolding logout
logs_out = refl

abbrev tok : String
tok = "tok"

tok_is_set : tok ≢ ""
tok_is_set h = cc

logout-locks_out_example :
    ((later : DateTime) (p : Principal)
      → (authenticate_session_cookie later (or_same after_logout) "tok").0 ≢ granted p)
    × ((later : DateTime) (other : String)
        → other ≢ tok
        → (authenticate_session_cookie later (or_same after_logout) other).0
          ≡ (authenticate_session_cookie later after_login other).0)
logout-locks_out_example =
    logout-locks_out a_codec (λ s. s) (λ n. "4") (march 7 8) "tok" after_login
      (or_same after_logout) tok_is_set logs_out

abbrev her_identity : Identity
her_identity = record { login = "ann"; email = "ann@acme.test"; name = "ann" }

identified_as : fetch_github_user an_api "gho" ≡ said her_identity
unfolding fetch_github_user
identified_as = refl

fetch_github_user-Named_example : Named an_api "gho" her_identity
fetch_github_user-Named_example = fetch_github_user-Named an_api "gho" her_identity identified_as
