-- ===== src/Secrets/Chain.antt =====
-- `get` of src/claudestruct/secrets.py over a chain of providers.
use claude_struct.Prelude.{
  ℕ, ◌≤◌, ◌≡◌, inl, inr, refl, sym, ap, ◌∙◌, Bool, true, false, Bool-cases, String, Option, none,
  some, List, [], ◌∷◌, All, In, str_eq, arith,
}
use claude_struct.Secrets.{
  is_set, Outside, Cache, Provider, env, keyring, pass, file, aws_secrets, vault, Fetched, fetched,
  raised, provider_get, Answer, answer, failed, before, or_next, get,
}
use claude_struct.Secrets.Configured.{
  provider_of, or_skipped, providers_of, or_env, parts, default_chain,
}
use claude_struct.Submission.{strip}
use claude_struct.Secrets.Freshness.{
  World, IsCacheFresh, IsFresh, Held, Sourced, asked, unset_now, grown, provider_get-IsFresh,
}

module _ (world : World) (now' : ℕ) (key : String) where
  -- An answer comes from the first provider whose store has one: the stores before it have none
  -- that is set now.
  pub data Served : List Provider → Option String → Type 0 where
    nobody : Served [] none
    first :
        (p : Provider) (ps : List Provider) (v : String)
        → Held world now' p key v
        → is_set (some v) ≡ true
        → Served (p ∷ ps) (some v)
    later :
        (p : Provider) (ps : List Provider) (o : Option String)
        → is_set (asked (world now') p key) ≡ false
        → Served ps o
        → Served (p ∷ ps) o

  module _ (now : ℕ) (since : now ≤ now') where
    Fine : List Provider → Answer → Type 0
    Fine ps (failed ps') = All (IsFresh world now') ps'
    Fine ps (answer o ps') = All (IsFresh world now') ps' × Served ps o

    Served-first :
        (p : Provider) (ps : List Provider) (o : Option String)
        → Sourced world now' p key o
        → is_set o ≡ true
        → Served (p ∷ ps) o
    Served-first p ps none sourced set = cc
    Served-first p ps (some v) sourced set = first p ps v sourced set

    passed_on :
        (p p' : Provider) (ps : List Provider) (rest : Answer)
        → IsFresh world now' p'
        → is_set (asked (world now') p key) ≡ false
        → Fine ps rest
        → Fine (p ∷ ps) (before p' rest)
    unfolding Fine
    passed_on p p' ps (failed ps') fresh unset fine = (fresh, fine)
    passed_on p p' ps (answer o ps') fresh unset fine = ((fresh, fine.0), later p ps o unset fine.1)

    next_Fine :
        (p : Provider) (ps : List Provider) (a : Fetched)
        → provider_get (world now') now' p key ≡ a
        → IsFresh world now p
        → All (IsFresh world now') ps
        → (rest : Answer) → Fine ps rest
        → Fine (p ∷ ps) (or_next p ps a rest)
    unfolding Fine
    next_Fine p ps raised is fresh kept rest fine = (grown world now now' p since fresh, kept)
    next_Fine p ps (fetched o p') is fresh kept rest fine =
        let (fresh', sourced) = provider_get-IsFresh world now now' since key p p' o fresh is in
        elim (Bool-cases (is_set o)) [
          | inl set ↦ rw set ((fresh', kept), Served-first p ps o sourced set)
          | inr unset ↦
              rw unset
                (passed_on p p' ps rest fresh' (unset_now world now' p key o sourced unset) fine)
        ]

    All-grown : (ps : List Provider) → All (IsFresh world now) ps → All (IsFresh world now') ps
    All-grown [] fresh = tt
    All-grown (p ∷ ps) fresh = (grown world now now' p since fresh.0, All-grown ps fresh.1)

    get-Fine :
        (ps : List Provider) → All (IsFresh world now) ps → Fine ps (get (world now') now' ps key)
    unfolding Fine get
    get-Fine [] fresh = (tt, nobody)
    get-Fine (p ∷ ps) fresh =
        next_Fine p ps _ refl fresh.0 (All-grown ps fresh.1) _ (get-Fine ps fresh.1)

    -- Where the caches of a chain hold nothing but what the stores answered, each a lifetime before
    -- it expires, they do so after `get` too, also where it raises an exception; a text that `get`
    -- answers is one that is not empty, of the first provider whose store has one, which holds it now
    -- or held it less than its lifetime ago, while the stores before it have none now; and where
    -- `get` answers none, no store of the chain has one now.
    pub get-Served :
        (ps ps' : List Provider)
        → All (IsFresh world now) ps
        → ((o : Option String)
            → get (world now') now' ps key ≡ answer o ps'
            → All (IsFresh world now') ps' × Served ps o)
          × (get (world now') now' ps key ≡ failed ps' → All (IsFresh world now') ps')
    unfolding Fine
    get-Served ps ps' fresh =
        let fine = get-Fine ps fresh in (λ o h. rw h at fine, λ h. rw h at fine)

abbrev nothing_cached : Cache → Bool
nothing_cached [] = true
nothing_cached (_ ∷ _) = false

abbrev is_cold : Provider → Bool
is_cold (aws_secrets s) = nothing_cached s.cache
is_cold (vault s) = nothing_cached s.cache
is_cold _ = true

abbrev cold_if_any : Option Provider → Bool
cold_if_any none = true
cold_if_any (some p) = is_cold p

cold_cache :
    (ask : ℕ → String → Option String) (ttl now : ℕ) (c : Cache)
    → nothing_cached c ≡ true
    → IsCacheFresh ask ttl now c
cold_cache ask ttl now [] h = tt
cold_cache ask ttl now (e ∷ c) h = cc

cold-IsFresh : (world : World) (now : ℕ) (p : Provider) → is_cold p ≡ true → IsFresh world now p
cold-IsFresh world now env h = tt
cold-IsFresh world now keyring h = tt
cold-IsFresh world now (pass _) h = tt
cold-IsFresh world now (file _) h = tt
cold-IsFresh world now (aws_secrets s) h = cold_cache _ s.cache_ttl now s.cache h
cold-IsFresh world now (vault s) h = cold_cache _ s.cache_ttl now s.cache h

module _ (out : Outside) (now : ℕ) (key : String) where
  -- A chain whose caches are empty remembers nothing, in whatever world.
  abbrev Empty : Provider → Type 0
  Empty p = (world : World) → IsFresh world now p

  provider_of-Empty : (part : String) → (p : Provider) → provider_of out part ≡ some p → Empty p
  unfolding provider_of
  provider_of-Empty part p h =
      let cold : cold_if_any (provider_of out part) ≡ true = ground arith in
      λ world. cold-IsFresh world now p (ap cold_if_any (sym h) ∙ cold)

  or_skipped-Empty :
      (o : Option Provider) (ps : List Provider)
      → ((p : Provider) → o ≡ some p → Empty p)
      → All Empty ps
      → All Empty (or_skipped o ps)
  or_skipped-Empty none ps h hs = hs
  or_skipped-Empty (some p) ps h hs = (h p refl, hs)

  providers_of-Empty : (parts : List String) → All Empty (providers_of out parts)
  unfolding providers_of
  providers_of-Empty [] = tt
  providers_of-Empty (part ∷ parts) = elim (Bool-cases (str_eq (strip part) "")) [
    | inl e ↦ rw e (providers_of-Empty parts)
    | inr e ↦ rw e (
        or_skipped-Empty (provider_of out (strip part)) _ (provider_of-Empty (strip part))
          (providers_of-Empty parts))
  ]

  or_env-Empty : (ps : List Provider) → All Empty ps → All Empty (or_env ps)
  or_env-Empty [] h = (λ world. tt, tt)
  or_env-Empty (p ∷ ps) h = h

  default_chain-Empty : All Empty (default_chain out)
  unfolding default_chain
  default_chain-Empty = or_env-Empty _ (providers_of-Empty (parts out))

  Empty-IsFresh : (ps : List Provider) → All Empty ps → All (IsFresh (λ _. out) now) ps
  Empty-IsFresh [] h = tt
  Empty-IsFresh (p ∷ ps) h = (h.0 (λ _. out), Empty-IsFresh ps h.1)

  -- What an answer says of the stores as they are now.
  current :
      (ps : List Provider) (o : Option String)
      → Served (λ _. out) now key ps o
      → ((v : String) → o ≡ some v → (p : Provider) × In p ps × (asked out p key ≡ some v))
        × (o ≡ none → All (λ p. is_set (asked out p key) ≡ false) ps)
  current _ _ nobody = (λ v h. cc, λ h. tt)
  current _ _ (first p ps w (t, past, age, held) set) = (λ v h. (p, inl refl, held ∙ h), λ h. cc)
  current _ _ (later p ps o unset served) =
      let (found, missed) = current ps o served in
      (λ v h. let (q, among, held) = found v h in (q, inr among, held), λ h. (unset, missed h))

  -- Over the chain that the environment selects, which is made anew for each call, `get` answers
  -- only a text that a store of the chain holds at that moment, and answers none only if no store
  -- holds one then: nothing that an earlier call has fetched is ever answered from a cache.
  pub default_get_is_current :
      (ps' : List Provider) (o : Option String)
      → get out now (default_chain out) key ≡ answer o ps'
      → ((v : String)
          → o ≡ some v
          → (p : Provider) × In p (default_chain out) × (asked out p key ≡ some v))
        × (o ≡ none → All (λ p. is_set (asked out p key) ≡ false) (default_chain out))
  default_get_is_current ps' o h =
      let fresh = Empty-IsFresh (default_chain out) default_chain-Empty in
      let served =
        (get-Served (λ _. out) now key now (omega arith) (default_chain out) ps' fresh).0 o h in
      current (default_chain out) o served.1
