-- ===== src/Secrets/Freshness.antt =====
-- What the providers of src/claudestruct/secrets.py answer, and how old it may be.
use claude_struct.Prelude.{
  ℕ, ◌+◌, ◌≤◌, ◌<◌, ◌≡◌, ◌⊎◌, inl, inr, refl, sym, ap, ◌∙◌, true, false, Bool-cases, String, Option,
  none, some, [], ◌∷◌, str_eq, eq_iff, ltb, All, arith,
}
use claude_struct.Secrets.{
  is_set, or_none, AwsSecret, VaultSecret, field_value, no_value, bad_shape, no_mapping, Outside,
  Cache, AwsStore, VaultStore, Provider, env, keyring, pass, file, aws_secrets, vault, Fetched,
  fetched, raised, env_get, pass_get, file_get, read_text, cached, remember, binary_value,
  aws_value, vault_value, vault_raises, first_stripped, remembered, store_path, aws_fetch,
  vault_fetch, hit_or, provider_get,
}

abbrev pub aws_asked :
    AwsStore → String → Option (String → String → Option AwsSecret) → Option String
aws_asked s key none = none
aws_asked s key (some client) = aws_value (client s.region_name (store_path s.key_prefix key))

abbrev pub vault_asked :
    VaultStore → String → Option (String → String → String → Option VaultSecret) → Option String
vault_asked s key none = none
vault_asked s key (some client) = vault_value (client s.url s.mount (store_path s.key_prefix key))

abbrev value_of : Fetched → Option String
value_of (fetched v p) = v
value_of raised = none

-- What the store of a provider holds for a key, whatever the provider remembers.
unfoldable pub asked : Outside → Provider → String → Option String
unfolding env_get pass_get file_get
asked out env key = env_get out key
asked out keyring key = out.keychain key
asked out (pass prefix) key = value_of (pass_get out prefix key)
asked out (file base) key = value_of (file_get out base key)
asked out (aws_secrets s) key = aws_asked s key out.aws_client
asked out (vault s) key = vault_asked s key out.vault_client

or_none-set : (s v : String) → or_none s ≡ some v → is_set (some v) ≡ true
or_none-set s v h = elim (Bool-cases (str_eq s "")) [
  | inl e ↦ cc (rw e at h)
  | inr e ↦ (let same : some s ≡ some v = rw e at h in ap (λ o. is_set o) (sym same) ∙ rw e refl)
]

binary_value-set :
    (r : Option (Option String)) (v : String) → binary_value r ≡ some v → is_set (some v) ≡ true
binary_value-set none v h = cc
binary_value-set (some none) v h = cc
binary_value-set (some (some s)) v h = or_none-set s v h

aws_value-set : (r : Option AwsSecret) (v : String) → aws_value r ≡ some v → is_set (some v) ≡ true
aws_value-set none v h = cc
aws_value-set (some r) v h = elim (Bool-cases (is_set r.secret_string)) [
  | inl e ↦ (let same : r.secret_string ≡ some v = rw e at h in ap (λ o. is_set o) (sym same) ∙ e)
  | inr e ↦ binary_value-set r.secret_binary v (rw e at h)
]

vault_value-set :
    (r : Option VaultSecret) (v : String) → vault_value r ≡ some v → is_set (some v) ≡ true
vault_value-set none v h = cc
vault_value-set (some (field_value s)) v h = or_none-set s v h
vault_value-set (some no_value) v h = cc
vault_value-set (some bad_shape) v h = cc
vault_value-set (some no_mapping) v h = cc

-- Every value remembered is what the store held at a moment, a lifetime before the value expires.
abbrev pub IsCacheFresh : (ℕ → String → Option String) → ℕ → ℕ → Cache → Type 0
IsCacheFresh ask ttl now c =
    All (λ e. (t : ℕ) × (t ≤ now) × (e.2 ≡ t + ttl) × (ask t e.0 ≡ some e.1)) c

module _ (ask : ℕ → String → Option String) (ttl now : ℕ) where
  cached-was_asked :
      (key v : String) (now' : ℕ) (c : Cache)
      → IsCacheFresh ask ttl now c
      → cached key now' c ≡ some v
      → (t : ℕ) × (t ≤ now) × (now' < t + ttl) × (ask t key ≡ some v)
  unfolding cached
  cached-was_asked key v now' [] fresh h = cc
  cached-was_asked key v now' ((k, w, expires) ∷ c) fresh h = elim (Bool-cases (str_eq k key)) [
    | inl e ↦ elim (Bool-cases (ltb now' expires)) [
      | inl in_time ↦
          (let (t, past, lasts, is) = fresh.0 in
            let same : some w ≡ some v = rw (e, in_time) at h in
            let k_is : k ≡ key = (eq_iff k key).0 e in
            (t, past, ground arith, ap (λ j. ask t j) (sym k_is) ∙ is ∙ same))
      | inr late ↦ cc (rw (e, late) at h)
    ]
    | inr e ↦ cached-was_asked key v now' c fresh.1 (rw e at h)
  ]

  older :
      (now' : ℕ) (c : Cache) → now ≤ now' → IsCacheFresh ask ttl now c → IsCacheFresh ask ttl now' c
  older now' [] later fresh = tt
  older now' (e ∷ c) later fresh =
      ((fresh.0.0, omega (arith, fresh.0.1), fresh.0.2, fresh.0.3), older now' c later fresh.1)

  remember-IsCacheFresh :
      (key v : String) (now' : ℕ) (c : Cache)
      → now ≤ now'
      → IsCacheFresh ask ttl now c
      → ask now' key ≡ some v
      → IsCacheFresh ask ttl now' (remember key v (now' + ttl) c)
  unfolding remember
  remember-IsCacheFresh key v now' [] later fresh is = ((now', omega arith, refl, is), tt)
  remember-IsCacheFresh key v now' ((k, w, expires) ∷ c) later fresh is =
      elim (Bool-cases (str_eq k key)) [
        | inl e ↦ rw e ((now', omega arith, refl, is), older now' c later fresh.1)
        | inr e ↦ rw e (
          (fresh.0.0, omega (arith, fresh.0.1), fresh.0.2, fresh.0.3),
          remember-IsCacheFresh key v now' c later fresh.1 is,
        )
      ]

  remembered-IsCacheFresh :
      (key : String) (now' : ℕ) (c : Cache)
      → now ≤ now'
      → IsCacheFresh ask ttl now c
      → (o : Option String) → ask now' key ≡ o
      → IsCacheFresh ask ttl now' (remembered key o now' ttl c)
  remembered-IsCacheFresh key now' c later fresh none is = older now' c later fresh
  remembered-IsCacheFresh key now' c later fresh (some v) is = elim (Bool-cases (ltb 0 ttl)) [
    | inl e ↦ rw e (remember-IsCacheFresh key v now' c later fresh is)
    | inr e ↦ rw e (older now' c later fresh)
  ]

-- The outside as it is at every moment.
abbrev pub World : Type 0
World = ℕ → Outside

abbrev pub IsFresh : World → ℕ → Provider → Type 0
IsFresh world now env = Unit {0}
IsFresh world now keyring = Unit {0}
IsFresh world now (pass prefix) = Unit {0}
IsFresh world now (file base) = Unit {0}
IsFresh world now (aws_secrets s) =
    IsCacheFresh (λ t key. aws_asked s key ((world t).aws_client)) s.cache_ttl now s.cache
IsFresh world now (vault s) =
    IsCacheFresh (λ t key. vault_asked s key ((world t).vault_client)) s.cache_ttl now s.cache

abbrev pub ttl_of : Provider → ℕ
ttl_of (aws_secrets s) = s.cache_ttl
ttl_of (vault s) = s.cache_ttl
ttl_of _ = 0

-- A text that the store of a provider holds now, or held less than the lifetime ago.
abbrev pub Held : World → ℕ → Provider → String → String → Type 0
Held world now p key v =
    (t : ℕ) × (t ≤ now) × ((t ≡ now) ⊎ (now < t + ttl_of p)) × (asked (world t) p key ≡ some v)

-- An answer: a text that is held, or none that is there now.
abbrev pub Sourced : World → ℕ → Provider → String → Option String → Type 0
Sourced world now p key none = asked (world now) p key ≡ none
Sourced world now p key (some v) = Held world now p key v

held_now :
    (world : World) (now : ℕ) (p : Provider) (key : String) (o : Option String)
    → asked (world now) p key ≡ o
    → Sourced world now p key o
held_now world now p key none h = h
held_now world now p key (some v) h = (now, omega arith, inl refl, h)

module _ (world : World) (now now' : ℕ) (later : now ≤ now') (key : String) where
  Good : Provider → Fetched → Type 0
  Good p raised = Unit {0}
  Good p (fetched o p') = IsFresh world now' p' × Sourced world now' p key o

  aws-Good :
      (s : AwsStore)
      → IsFresh world now (aws_secrets s)
      → (o : Option String) → cached key now' s.cache ≡ o
      → (client : Option (String → String → Option AwsSecret)) → (world now').aws_client ≡ client
      → Good (aws_secrets s) (hit_or (aws_secrets s) o (aws_fetch s key now' client))
  unfolding Good asked
  aws-Good s fresh (some v) hit client is =
      let (t, past, lasts, held) =
        cached-was_asked _ s.cache_ttl now key v now' s.cache fresh hit in
      (older _ s.cache_ttl now now' s.cache later fresh, (t, omega arith, inr lasts, held))
  aws-Good s fresh none hit none is = tt
  aws-Good s fresh none hit (some client) is =
      let o = aws_asked s key (some client) in
      let held : aws_asked s key ((world now').aws_client) ≡ o = ap (aws_asked s key) is in
      (
        remembered-IsCacheFresh _ s.cache_ttl now key now' s.cache later fresh o held,
        held_now world now' (aws_secrets s) key o held,
      )

  vault-Good :
      (s : VaultStore)
      → IsFresh world now (vault s)
      → (o : Option String) → cached key now' s.cache ≡ o
      → (client : Option (String → String → String → Option VaultSecret))
      → (world now').vault_client ≡ client
      → Good (vault s) (hit_or (vault s) o (vault_fetch s key now' client))
  unfolding Good asked
  vault-Good s fresh (some v) hit client is =
      let (t, past, lasts, held) =
        cached-was_asked _ s.cache_ttl now key v now' s.cache fresh hit in
      (older _ s.cache_ttl now now' s.cache later fresh, (t, omega arith, inr lasts, held))
  vault-Good s fresh none hit none is = tt
  vault-Good s fresh none hit (some client) is =
      let o = vault_asked s key (some client) in
      let held : vault_asked s key ((world now').vault_client) ≡ o = ap (vault_asked s key) is in
      elim (Bool-cases (vault_raises (client s.url s.mount (store_path s.key_prefix key)))) [
        | inl broken ↦ rw broken tt
        | inr fine ↦ rw fine (
          remembered-IsCacheFresh _ s.cache_ttl now key now' s.cache later fresh o held,
          held_now world now' (vault s) key o held,
        )
      ]

  pass-Good :
      (prefix : String) (o : Option (Option String))
      → first_stripped prefix o ≡ pass_get (world now') prefix key
      → Good (pass prefix) (first_stripped prefix o)
  unfolding Good asked
  pass-Good prefix none is = (tt, held_now world now' (pass prefix) key none (ap value_of (sym is)))
  pass-Good prefix (some none) is = tt
  pass-Good prefix (some (some t)) is =
      (tt, held_now world now' (pass prefix) key _ (ap value_of (sym is)))

  file-Good :
      (base : String) (o : Option (Option String))
      → read_text base o ≡ file_get (world now') base key
      → Good (file base) (read_text base o)
  unfolding Good asked
  file-Good base none is = (tt, held_now world now' (file base) key none (ap value_of (sym is)))
  file-Good base (some none) is = tt
  file-Good base (some (some t)) is =
      (tt, held_now world now' (file base) key _ (ap value_of (sym is)))

  provider_get-Good :
      (p : Provider) → IsFresh world now p → Good p (provider_get (world now') now' p key)
  unfolding Good provider_get asked file_get pass_get
  provider_get-Good env fresh = (tt, held_now world now' env key _ refl)
  provider_get-Good keyring fresh = (tt, held_now world now' keyring key _ refl)
  provider_get-Good (pass prefix) fresh = pass-Good prefix _ refl
  provider_get-Good (file base) fresh = file-Good base _ refl
  provider_get-Good (aws_secrets s) fresh = aws-Good s fresh _ refl _ refl
  provider_get-Good (vault s) fresh = vault-Good s fresh _ refl _ refl

  pub provider_get-IsFresh :
      (p p' : Provider) (o : Option String)
      → IsFresh world now p
      → provider_get (world now') now' p key ≡ fetched o p'
      → IsFresh world now' p' × Sourced world now' p key o
  unfolding Good
  provider_get-IsFresh p p' o fresh h = let good = provider_get-Good p fresh in rw h at good

-- What a caching provider holds is set.
aws_asked-set :
    (s : AwsStore) (key v : String) (c : Option (String → String → Option AwsSecret))
    → aws_asked s key c ≡ some v
    → is_set (some v) ≡ true
aws_asked-set s key v none h = cc
aws_asked-set s key v (some client) h =
    aws_value-set (client s.region_name (store_path s.key_prefix key)) v h

vault_asked-set :
    (s : VaultStore) (key v : String) (c : Option (String → String → String → Option VaultSecret))
    → vault_asked s key c ≡ some v
    → is_set (some v) ≡ true
vault_asked-set s key v none h = cc
vault_asked-set s key v (some client) h =
    vault_value-set (client s.url s.mount (store_path s.key_prefix key)) v h

held_before :
    (p : Provider) (out : Outside) (key v : String) (t now : ℕ)
    → t ≤ now
    → now < t + ttl_of p
    → asked out p key ≡ some v
    → is_set (some v) ≡ true
unfolding asked
held_before env out key v t now past lasts h = absurd (omega arith)
held_before keyring out key v t now past lasts h = absurd (omega arith)
held_before (pass _) out key v t now past lasts h = absurd (omega arith)
held_before (file _) out key v t now past lasts h = absurd (omega arith)
held_before (aws_secrets s) out key v t now past lasts h = aws_asked-set s key v out.aws_client h
held_before (vault s) out key v t now past lasts h = vault_asked-set s key v out.vault_client h

-- Where a provider's answer is not set, its store holds nothing now that is.
pub unset_now :
    (world : World) (now : ℕ) (p : Provider) (key : String) (o : Option String)
    → Sourced world now p key o
    → is_set o ≡ false
    → is_set (asked (world now) p key) ≡ false
unset_now world now p key none is unset = rw is refl
unset_now world now p key (some v) (t, past, inl same, held) unset =
    ap (λ n. is_set (asked (world n) p key)) (sym same) ∙ ap (λ o. is_set o) held ∙ unset
unset_now world now p key (some v) (t, past, inr lasts, held) unset =
    cc (held_before p (world t) key v t now past lasts held)

pub grown :
    (world : World) (now now' : ℕ) (p : Provider)
    → now ≤ now'
    → IsFresh world now p
    → IsFresh world now' p
grown world now now' env later fresh = tt
grown world now now' keyring later fresh = tt
grown world now now' (pass _) later fresh = tt
grown world now now' (file _) later fresh = tt
grown world now now' (aws_secrets s) later fresh = older _ s.cache_ttl now now' s.cache later fresh
grown world now now' (vault s) later fresh = older _ s.cache_ttl now now' s.cache later fresh
