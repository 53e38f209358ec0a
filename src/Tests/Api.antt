-- ===== src/Tests/Api.antt =====
-- Submissions to the API and reads of runs.
use claude_struct.Prelude.{◌≡◌, refl, String, none, some, [], ◌∷◌, arith, false, ltb, if◌then◌else◌}
use claude_struct.Calendar.{
  in_period, month_bounds, month_start, instant, ordinal, days_before_year, days_before_month,
  days_before_common, is_leap, before, not_after,
}
use claude_struct.Models.{Run, queued, done}
use claude_struct.Billing.{
  get_or_default, find_subscription, placeholder, tier_value, tier_token_cap, tier_token_caps,
  parse_tier, current_period_token_usage, current_period_bounds, is_org_run_in,
}
use claude_struct.Submission.{
  ok, err, payment_required, Server, Call, find_keyed, CreateRunResponse, create_run,
  normalised_key, strip, lstrip, rstrip, is_space, enforce_token_cap, replay, has_key,
  violates_unique, row, get_run,
}
use claude_struct.Submission.Keys.{HasUniqueKeys, create_run-HasUniqueKeys}
use claude_struct.Submission.Replay.{create_run_idempotent, capped_retry}
use claude_struct.Submission.Cap.{cap_of, used_of}
use claude_struct.Auth.{Principal}
use claude_struct.Tests.Data.{
  march, run_three, a_db, a_run, spent, a_codec, a_principal, a_request, a_call, a_server,
}

a_db-HasUniqueKeys : HasUniqueKeys a_db.runs
unfolding has_key
a_db-HasUniqueKeys = record { at = λ org k. ground arith }

create_run-HasUniqueKeys_example :
    HasUniqueKeys
      (create_run a_codec (a_call "r-4" 4) a_principal a_request (some " j ") a_server).1.db.runs
create_run-HasUniqueKeys_example =
    create_run-HasUniqueKeys a_codec (a_call "r-4" 4) a_principal a_request (some " j ") a_server
      (λ d u. u) a_db-HasUniqueKeys

the_key : normalised_key (some " j ") ≡ some "j"
unfolding normalised_key strip lstrip rstrip is_space
the_key = refl

abbrev a_response : CreateRunResponse
a_response = record { run_id = "r-4"; status = queued; note = none }

-- The server after the first submission.
abbrev after_first : Server
after_first = (create_run a_codec (a_call "r-4" 4) a_principal a_request (some " j ") a_server).1

first_accepted :
    (create_run a_codec (a_call "r-4" 4) a_principal a_request (some " j ") a_server).0
    ≡ ok a_response
unfolding create_run normalised_key strip lstrip rstrip is_space enforce_token_cap get_or_default
    find_subscription tier_token_cap tier_token_caps parse_tier has_key violates_unique
first_accepted = refl

cap_passes : enforce_token_cap after_first.db 2 (march 6 8) ≡ ok after_first.db
unfolding create_run normalised_key strip lstrip rstrip is_space enforce_token_cap get_or_default
    find_subscription tier_token_cap tier_token_caps parse_tier has_key violates_unique
cap_passes = refl

create_run_idempotent_example :
    (r : Run) × (create_run a_codec
        (record (a_call "r-5" 5) { now = march 6 8 })
        a_principal
        a_request
        (some " j ")
        after_first
      ≡ (ok (replay "idempotent replay" r), after_first))
    × (r.run_id ≡ a_response.run_id)
create_run_idempotent_example =
    create_run_idempotent a_codec (a_call "r-4" 4) (record (a_call "r-5" 5) { now = march 6 8 })
      a_principal a_request a_request (some " j ") "j" a_server a_response after_first.db the_key
      first_accepted cap_passes

-- The tokens of an org of the free tier are used up while its submission is under way.
abbrev busy_call : Call
busy_call = record (a_call "r-4" 4) {
  others = λ d. record d {
    runs = record (a_run 9 "r-9" 1 done (march 1 8)) { outcome = spent 100000 } ∷ d.runs;
  };
}

abbrev solo_principal : Principal
solo_principal = record a_principal { org_id = 1 }

abbrev spent_server : Server
spent_server = (create_run a_codec busy_call solo_principal a_request (some " j ") a_server).1

busy_accepted :
    create_run a_codec busy_call solo_principal a_request (some " j ") a_server
    ≡ (ok a_response, spent_server)
unfolding create_run normalised_key strip lstrip rstrip is_space enforce_token_cap get_or_default
    find_subscription tier_token_cap tier_token_caps parse_tier has_key violates_unique
    current_period_token_usage placeholder tier_value current_period_bounds is_org_run_in in_period
    month_bounds month_start instant ordinal days_before_year days_before_month days_before_common
    is_leap before not_after
busy_accepted = refl

free_cap : cap_of spent_server.db 1 ≡ some 100000
unfolding create_run normalised_key strip lstrip rstrip is_space enforce_token_cap get_or_default
    find_subscription tier_token_cap tier_token_caps parse_tier has_key violates_unique
    current_period_token_usage placeholder tier_value current_period_bounds is_org_run_in in_period
    month_bounds month_start instant ordinal days_before_year days_before_month days_before_common
    is_leap before not_after
free_cap = refl

capped_retry_example :
    (r : Run) × (find_keyed 1 (some "j") spent_server.db.runs ≡ some r)
    × (r.run_id ≡ "r-4")
    × (create_run a_codec (a_call "r-5" 5) solo_principal a_request (some " j ") spent_server ≡ (
      (if ltb (used_of spent_server.db 1 (march 5 8)) 100000
          then ok (replay "idempotent replay" r)
          else err (
              payment_required (record {
                used_tokens = used_of spent_server.db 1 (march 5 8);
                cap_tokens = 100000;
                period_end =
                    (current_period_bounds (get_or_default spent_server.db 1).0 (march 5 8)).1;
                tier = (get_or_default spent_server.db 1).0.tier;
              }))),
      spent_server,
    ))
capped_retry_example =
    capped_retry a_codec busy_call (a_call "r-5" 5) solo_principal a_request a_request (some " j ")
      "j" a_server spent_server a_response 100000 the_key busy_accepted free_cap

cap_used : ltb (used_of spent_server.db 1 (march 5 8)) 100000 ≡ false
unfolding create_run normalised_key strip lstrip rstrip is_space enforce_token_cap get_or_default
    find_subscription tier_token_cap tier_token_caps parse_tier has_key violates_unique
    current_period_token_usage placeholder tier_value current_period_bounds is_org_run_in in_period
    month_bounds month_start instant ordinal days_before_year days_before_month days_before_common
    is_leap before not_after
cap_used = refl

-- The log files hold no summary here.
abbrev summary_id : String → String
summary_id s = s

own_run : get_run summary_id a_db [] a_principal "r-3" ≡ ok (row run_three)
unfolding get_run
own_run = refl
