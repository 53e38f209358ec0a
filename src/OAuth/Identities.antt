-- ===== src/OAuth/Identities.antt =====
-- Whose identity GitHub names.
use claude_struct.Prelude.{
  ◌≡◌, ◌≢◌, ◌⊎◌, inl, inr, refl, sym, ap, ◌∙◌, true, not, ◌&&◌, Bool-cases, String, Option, none,
  some, List, [], ◌∷◌, ◌==◌, ==_iff, str_eq, eq_iff, In, arith,
}
use claude_struct.OAuth.{
  is_set, or_empty, UserResponse, EmailEntry, EmailsResponse, GithubApi, Talk, said, oauth_error,
  crash, ◌>>=◌, responded, said_if, primary_email, Identity, listed_email, email_of, identity,
  fetch_github_user,
}

-- An email of the list that GitHub has verified as the account's primary one.
pub record IsVerified (email : String) (es : List EmailEntry) : Type 0 where
  pub entry : EmailEntry
  pub row : In entry es
  pub primary : entry.primary ≡ true
  pub verified : entry.verified ≡ true
  pub address : or_empty entry.email ≡ email

primary_email-IsVerified :
    (es : List EmailEntry) → primary_email es ≢ "" → IsVerified (primary_email es) es
unfolding primary_email
primary_email-IsVerified [] set = absurd (set refl)
primary_email-IsVerified (e ∷ es) set = elim (Bool-cases (e.primary && e.verified)) [
  | inl is ↦ rw is (record {
    entry = e;
    row = inl refl;
    primary = ground arith;
    verified = ground arith;
    address = refl;
  })
  | inr other ↦
      (let v = primary_email-IsVerified es (rw other at set) in
        rw other (record {
          entry = v.entry;
          row = inr v.row;
          primary = v.primary;
          verified = v.verified;
          address = v.address;
        }))
]

module _ (api : GithubApi) (token : String) where
  -- What GitHub said of the token's account.
  pub record Named (i : Identity) : Type 0 where
    pub reply : UserResponse
    pub answered : api.user token ≡ some reply
    pub fine : reply.status_code ≡ 200
    pub login : reply.login ≡ some i.login
    pub not_empty : i.email ≢ ""
    pub source :
        (reply.email ≡ some i.email)
        ⊎ ((listed : EmailsResponse) × (api.emails token ≡ some listed)
            × (listed.status_code ≡ 200)
            × IsVerified i.email listed.entries)

  set_text : (o : Option String) → is_set o ≡ true → o ≡ some (or_empty o)
  set_text none h = cc
  set_text (some s) h = refl

  after_user : Option UserResponse → Talk Identity
  after_user o = do
    r ← responded o
    checked ← said_if (r.status_code == 200) r
    email ← email_of api token checked
    said_if (is_set checked.login && not (str_eq email "")) (identity checked email)

  -- Where the email comes from.
  Source : UserResponse → String → Type 0
  Source r email =
      (r.email ≡ some email)
      ⊎ ((listed : EmailsResponse) × (api.emails token ≡ some listed)
          × (listed.status_code ≡ 200)
          × IsVerified email listed.entries)

  from_list :
      (r : UserResponse) (o : Option EmailsResponse) (email : String)
      → api.emails token ≡ o
      → (responded o >>= (λ (x : EmailsResponse). said (listed_email x))) ≡ said email
      → email ≢ ""
      → Source r email
  unfolding Source
  from_list r none email e h set = cc
  from_list r (some listed) email e h set = elim (Bool-cases (listed.status_code == 200)) [
    | inl fine ↦
        (let same : primary_email listed.entries ≡ email = cc (rw fine at h) in
          let verified = primary_email-IsVerified listed.entries (rw (← same) at set) in
          inr (listed, e, (==_iff listed.status_code 200).0 fine, rw same at verified))
    | inr broken ↦
        (let none_listed : "" ≡ email = cc (rw broken at h) in absurd (set (sym none_listed)))
  ]

  email-Source :
      (r : UserResponse) (email : String)
      → email_of api token r ≡ said email
      → email ≢ ""
      → Source r email
  unfolding Source
  email-Source r email h set = elim (Bool-cases (is_set r.email)) [
    | inl there ↦
        let same : or_empty r.email ≡ email = cc (rw there at h) in
        inl (set_text r.email there ∙ ap some same)
    | inr gone ↦ from_list r _ email refl (rw gone at h) set
  ]

  named :
      (r : UserResponse) (t : Talk String) (i : Identity)
      → api.user token ≡ some r
      → r.status_code ≡ 200
      → email_of api token r ≡ t
      → (t >>= (λ email. said_if (is_set r.login && not (str_eq email "")) (identity r email)))
        ≡ said i
      → Named i
  unfolding Source
  named r oauth_error i answered fine e h = cc
  named r crash i answered fine e h = cc
  named r (said email) i answered fine e h =
      elim (Bool-cases (is_set r.login && not (str_eq email ""))) [
        | inr off ↦ cc (rw off at h)
        | inl on ↦
            (let same : identity r email ≡ i = cc (rw on at h) in
              let set : email ≢ "" = λ no_text. ground (arith, eq_iff email "") in
              rw (← same) (record {
                reply = r;
                answered = answered;
                fine = fine;
                login = set_text r.login (ground arith);
                not_empty = set;
                source = email-Source r email e set;
              }))
      ]

  answered_by :
      (o : Option UserResponse) (i : Identity)
      → api.user token ≡ o
      → after_user o ≡ said i
      → Named i
  unfolding after_user
  answered_by none i e h = cc
  answered_by (some r) i e h = elim (Bool-cases (r.status_code == 200)) [
    | inr off ↦ cc (rw off at h)
    | inl on ↦ named r _ i e ((==_iff r.status_code 200).0 on) refl (rw on at h)
  ]

  -- An identity that `fetch_github_user` returns is the token's: GitHub answered 200 with its login,
  -- and its email, which is not empty, is the one of the profile, or else one that GitHub lists, with
  -- a 200, as the account's primary and verified email.
  pub fetch_github_user-Named : (i : Identity) → fetch_github_user api token ≡ said i → Named i
  unfolding fetch_github_user after_user
  fetch_github_user-Named i h = answered_by (api.user token) i refl h
