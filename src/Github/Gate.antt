-- ===== src/Github/Gate.antt =====
-- `receive_webhook` of src/claudestruct/server/routers/github.py: who can enqueue a run.
use claude_struct.Prelude.{
  ℕ, ◌≡◌, ◌⊎◌, refl, sym, ap, Bool, true, false, inl, inr, Bool-cases, String, Option, none, some,
  List, [], ◌∷◌, ◌++◌, ==_iff, str_eq, keep, In, In-keep,
}
use claude_struct.Models.{Run, queued}
use claude_struct.Submission.{violates_unique}
use claude_struct.Auth.{Lookup, missing, one, several, one_or_none}
use claude_struct.Json.{Json, Got, got, raised, as_int, as_str}
use claude_struct.Github.{GithubInstallation, is_active, Services, Decision, detect_trigger}
use claude_struct.Github.Receive.{
  GithubServer, Delivery, HookReply, queued_run, verify_signature, matches_filter, webhook_run,
  enqueue, enqueue_in, decide, event_or_empty, authentic, installation, with_installation,
  install_id_of, looked_up, routed, is_object, parsed, receive_webhook,
}

one_of_list :
    {A : Type 0} (p : A → Bool) (xs : List A) (a : A)
    → one_or_none (keep p xs) ≡ one a
    → In a xs × (p a ≡ true)
one_of_list p xs a h = In-keep p a xs (first (keep p xs) h)
  where
    first : (ys : List _) → one_or_none ys ≡ one a → In a ys
    first [] k = cc
    first (y ∷ []) k = inl (sym (same k))
      where
        same : one y ≡ one a → y ≡ a
        same k = cc
    first (y ∷ z ∷ ys) k = cc

pub installation_found :
    (n : ℕ) (is : List GithubInstallation) (i : GithubInstallation)
    → installation n is ≡ one i
    → In i is × (i.installation_id ≡ n)
unfolding installation
installation_found n is i h =
    let (m, q) = one_of_list _ is i h in (m, (==_iff i.installation_id n).0 q)

module _ (services : Services) (d : Delivery) (event signature : Option String) (raw : List ℕ) where
  -- One run has been enqueued, for the org of an active installation whose secret signed the body,
  -- on a repository that the installation's filter lets through.
  pub record Enqueued (s s' : GithubServer) (reply : HookReply) : Type 0 where
    pub installed : GithubInstallation
    pub repo : String
    pub decision : Decision
    pub run : Run
    pub known : In installed s.installations
    pub active : is_active installed ≡ true
    pub signed : verify_signature services installed.webhook_secret raw signature ≡ got true
    pub matched : matches_filter services installed.repo_filter repo ≡ true
    pub added : s'.db ≡ record (s.db) { runs = s.db.runs ++ run ∷ [] }
    pub org : run.org_id ≡ installed.org_id
    pub bot : run.user_id ≡ installed.bot_user_id
    pub is_queued : run.status ≡ queued
    pub described : run.request.description ≡ decision.description
    pub from : run.github.installation_id ≡ some installed.installation_id
    pub on : run.github.repo_full_name ≡ some repo
    pub answered : reply ≡ queued_run run.run_id decision.trigger repo
    pub kept : s'.installations ≡ s.installations

  abbrev pub Outcome : GithubServer → HookReply × GithubServer → Type 0
  Outcome s r = (r.1 ≡ s) ⊎ Enqueued s r.1 r.0

  module _ (s : GithubServer) (i : GithubInstallation) (n : ℕ) where
    enqueue-Outcome :
        (decision : Decision) (repo : String)
        → In i s.installations
        → i.installation_id ≡ n
        → is_active i ≡ true
        → verify_signature services i.webhook_secret raw signature ≡ got true
        → matches_filter services i.repo_filter repo ≡ true
        → Outcome s (enqueue services d i n decision repo s)
    unfolding enqueue webhook_run
    enqueue-Outcome decision repo known id active signed matched =
        elim (Bool-cases (violates_unique (webhook_run services d i n decision repo) s.db.runs)) [
          | inl taken ↦ inl (rw taken)
          | inr free ↦ inr (
              rw free (record {
                installed = i;
                repo = repo;
                decision = decision;
                run = webhook_run services d i n decision repo;
                known = known;
                active = active;
                signed = signed;
                matched = matched;
                added = refl;
                org = refl;
                bot = refl;
                is_queued = refl;
                described = refl;
                from = ap some (sym id);
                on = refl;
                answered = refl;
                kept = refl;
              }))
        ]

    decide-Outcome :
        (found : Got (Option Decision))
        → In i s.installations
        → i.installation_id ≡ n
        → is_active i ≡ true
        → verify_signature services i.webhook_secret raw signature ≡ got true
        → Outcome s (decide services d i n event s found)
    decide-Outcome raised known id active signed = inl refl
    decide-Outcome (got none) known id active signed = inl refl
    decide-Outcome (got (some decision)) known id active signed =
        named (as_str decision.repo_full_name)
      where
        named : (repo : Option String) → Outcome s (enqueue_in services d i n decision repo s)
        named none = inl refl
        named (some repo) = elim (Bool-cases (matches_filter services i.repo_filter repo)) [
          | inl matched ↦ rw matched (enqueue-Outcome decision repo known id active signed matched)
          | inr left_out ↦ inl (rw left_out)
        ]

    authentic-Outcome :
        (payload : Json) (v : Got Bool)
        → In i s.installations
        → i.installation_id ≡ n
        → is_active i ≡ true
        → verify_signature services i.webhook_secret raw signature ≡ v
        → Outcome s (authentic services d i n event payload s v)
    authentic-Outcome payload raised known id active signed = inl refl
    authentic-Outcome payload (got false) known id active signed = inl refl
    authentic-Outcome payload (got true) known id active signed =
        elim (Bool-cases (str_eq (event_or_empty event) "ping")) [
          | inl ping ↦ inl (rw ping)
          | inr other ↦ rw other (
              decide-Outcome (detect_trigger services (event_or_empty event) payload) known id
                active signed)
        ]

  module _ (s : GithubServer) (payload : Json) where
    installed-Outcome :
        (n : ℕ) (l : Lookup GithubInstallation)
        → installation n s.installations ≡ l
        → Outcome s (with_installation services d n event signature raw payload s l)
    installed-Outcome n missing found = inl refl
    installed-Outcome n several found = inl refl
    installed-Outcome n (one i) found = elim (Bool-cases (is_active i)) [
      | inl active ↦
          (let (known, id) = installation_found n s.installations i found in
            rw active (authentic-Outcome s i n payload _ known id active refl))
      | inr revoked ↦ inl (rw revoked)
    ]

    routed-Outcome : (v : Got Json) → Outcome s (routed services d event signature raw payload s v)
    routed-Outcome raised = inl refl
    routed-Outcome (got v) = by_id (as_int v)
      where
        by_id : (o : Option ℕ) → Outcome s (looked_up services d event signature raw payload s o)
        by_id none = inl refl
        by_id (some n) = installed-Outcome n (installation n s.installations) refl

  -- A delivery changes nothing, or it adds exactly one run, queued, under the org and the bot user
  -- of an active installation whose secret signed the body, with the name of a repository that the
  -- installation's filter lets through, and answers with that run's id.
  pub receive_webhook-Enqueued :
      (s : GithubServer) → Outcome s (receive_webhook services d event signature raw s)
  unfolding receive_webhook
  receive_webhook-Enqueued s = read (services.loads raw)
    where
      read : (o : Option Json) → Outcome s (parsed services d event signature raw s o)
      read none = inl refl
      read (some payload) = elim (Bool-cases (is_object payload)) [
        | inl object ↦ rw object (routed-Outcome s payload (install_id_of payload))
        | inr other ↦ inl (rw other)
      ]
