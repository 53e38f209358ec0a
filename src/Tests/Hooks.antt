-- ===== src/Tests/Hooks.antt =====
-- Deliveries of GitHub.
use claude_struct.Prelude.{
  ◌≡◌, ◌≢◌, ◌⊎◌, inl, inr, refl, true, false, some, none, [], ◌∷◌, In, if◌then◌else◌,
}
use claude_struct.Auth.{one, missing, several, drop_prefix}
use claude_struct.Json.{Json, int, str, obj, end, field, got, lookup, starts_with, contains, slice}
use claude_struct.Github.{GithubInstallation, is_active, Services, posted, detect_trigger}
use claude_struct.Github.Receive.{
  GithubServer, Delivery, unauthorized, server_error, is_ascii, verify_signature, installation,
  receive_webhook, queued_run, matches_filter, enqueue, webhook_run, post_ack_comment_safe,
}
use claude_struct.Github.Gate.{Enqueued, receive_webhook-Enqueued}
use claude_struct.Github.Refusals.{Names, refusals_alike, foreign_signature_tells}
use claude_struct.Submission.{violates_unique, strip}
use claude_struct.Tests.Data.{march, a_db}

abbrev a_payload : Json
a_payload = obj (
    field "installation" (obj (field "id" (int 7) end)) (
      field "action" (str "opened")
        (field "repository" (obj (field "full_name" (str "acme/app") end)) end)))

abbrev some_services : Services
some_services = record {
  loads = λ raw. some a_payload;
  hmac_sha256_hex = λ secret raw. secret;
  lower = λ s. s;
  text_of = λ v. elim v [ str s ↦ s | _ ↦ "?" ];
  configured = true;
  post_ack_comment = λ call. posted;
}

abbrev an_installation : GithubInstallation
an_installation = record {
  installation_id = 7;
  org_id = 2;
  webhook_secret = "abc";
  repo_filter = some "acme";
  bot_user_id = 9;
  revoked_at = none;
}

abbrev a_github : GithubServer
a_github = record { db = a_db; installations = an_installation ∷ []; webhook_errors = [] }

abbrev a_delivery : Delivery
a_delivery = record { now = march 6 9; fresh_run_id = "run-1"; fresh_id = 9 }

receive_webhook-Enqueued_example :
    ((receive_webhook some_services a_delivery
        (some "pull_request")
        (some "sha256=abc")
        []
        a_github).1
      ≡ a_github)
    ⊎ Enqueued some_services a_delivery
        (some "pull_request")
        (some "sha256=abc")
        []
        a_github
        (receive_webhook some_services a_delivery
          (some "pull_request")
          (some "sha256=abc")
          []
          a_github).1
        (receive_webhook some_services a_delivery
          (some "pull_request")
          (some "sha256=abc")
          []
          a_github).0
receive_webhook-Enqueued_example =
    receive_webhook-Enqueued some_services a_delivery (some "pull_request") (some "sha256=abc") []
      a_github

Names-seven : Names some_services [] 7
unfolding lookup
Names-seven = record {
  payload = a_payload;
  id = int 7;
  read = refl;
  object = refl;
  found = refl;
  is = refl;
}

only_seven : installation 7 a_github.installations ≡ one an_installation
unfolding installation
only_seven = refl

one-ne-several : installation 7 a_github.installations ≢ several
one-ne-several e = cc only_seven

wrong_signature :
    (i : GithubInstallation)
    → In i a_github.installations
    → i.installation_id ≡ 7
    → is_active i ≡ true
    → verify_signature some_services i.webhook_secret [] (some "sha256=def") ≡ got false
unfolding verify_signature
wrong_signature i m id active = elim m [ inl e ↦ rw e refl | inr none_left ↦ absurd none_left ]

refusals_alike_example :
    receive_webhook some_services a_delivery (some "pull_request") (some "sha256=def") [] a_github
    ≡ (unauthorized, a_github)
refusals_alike_example =
    refusals_alike some_services a_delivery (some "pull_request") [] 7 Names-seven
      (some "sha256=def") a_github one-ne-several wrong_signature

foreign_prefix : drop_prefix "sha256=" "sha256=é" ≡ some "é"
unfolding drop_prefix
foreign_prefix = refl

foreign : is_ascii "é" ≡ false
unfolding is_ascii
foreign = refl

foreign_signature_tells_example :
    ((i : GithubInstallation)
      → installation 7 a_github.installations ≡ one i
      → receive_webhook some_services a_delivery (some "push") (some "sha256=é") [] a_github
        ≡ ((if is_active i then server_error else unauthorized), a_github))
    × (installation 7 a_github.installations ≡ missing
        → receive_webhook some_services a_delivery (some "push") (some "sha256=é") [] a_github
          ≡ (unauthorized, a_github))
foreign_signature_tells_example =
    foreign_signature_tells some_services a_delivery (some "push") [] 7 Names-seven "sha256=é" "é"
      a_github foreign_prefix foreign

-- The delivery of an opened pull request that the secret signed is queued.
an_opened_pull_request_is_queued :
    (receive_webhook some_services a_delivery
      (some "pull_request")
      (some "sha256=abc")
      []
      a_github).0
    ≡ queued_run "run-1" "pull_request.opened" "acme/app"
unfolding receive_webhook lookup installation is_active verify_signature detect_trigger
    matches_filter starts_with contains enqueue webhook_run post_ack_comment_safe violates_unique
    strip slice
an_opened_pull_request_is_queued = refl
