-- ===== src/OAuth/Logout.antt =====
-- `logout` of src/claudestruct/server/routers/oauth.py.
use claude_struct.Prelude.{
  ℕ, ◌≡◌, ◌≢◌, refl, sym, ap, ap₂, ◌∙◌, Bool, false, Bool-cases, inl, inr, String, Option, none,
  some, List, [], ◌∷◌, map, str_eq, eq_iff, keep, In, arith,
}
use claude_struct.Calendar.{DateTime}
use claude_struct.Audit.{Codec}
use claude_struct.Auth.{
  Principal, UserRow, OrgRow, Membership, UserSession, Accounts, granted, session_is_active,
  is_member, get_user, get_org, principal_of, as_member, checked_session, memberships_of, Lookup,
  missing, one, several, one_or_none, authenticate_session_cookie,
}
use claude_struct.Auth.Access.{one_only, authenticate_session-ByCookie}
use claude_struct.Auth.Revocation.{In-keep_back}
use claude_struct.OAuth.{revoke_session, logged_out, logout_found, logout}

In-map_back :
    {A : Type 0} (f : A → A) (x : A) (xs : List A) → In x (map f xs) → (y : A) × In y xs × (x ≡ f y)
In-map_back f x [] m = absurd m
In-map_back f x (y ∷ ys) (inl q) = (y, inl refl, q)
In-map_back f x (y ∷ ys) (inr i) = let (z, there, is) = In-map_back f x ys i in (z, inr there, is)

module _ {Payload : Type 0} (c : Codec Payload) (dict : String → Payload) (str : ℕ → String)
    (now : DateTime) (cookie : String) (a : Accounts) where
  -- Every session of the cookie is revoked.
  Closed : Accounts → Type 0
  Closed b = (s : UserSession) → In s b.sessions → s.session_token ≡ cookie → s.revoked_at ≢ none

  abbrev named : UserSession → Bool
  named s = str_eq s.session_token cookie

  kept :
      (s : UserSession) → In s a.sessions → s.session_token ≡ cookie → In s (keep named a.sessions)
  kept s row is = In-keep_back named s a.sessions row ((eq_iff s.session_token cookie).1 is)

  revokes :
      (s : UserSession)
      → (revoke_session c dict str now cookie s).session_token ≡ cookie
      → (revoke_session c dict str now cookie s).revoked_at ≢ none
  revokes s is = elim (Bool-cases (named s)) [
    | inl e ↦ rw e (λ h. cc)
    | inr e ↦ rw e (λ still. cc ((eq_iff s.session_token cookie).1 (rw e at is)))
  ]

  is_only :
      (s r : UserSession) (t : DateTime)
      → s.revoked_at ≡ some t
      → r.revoked_at ≡ none
      → In r (s ∷ [])
      → ⊥
  is_only s r t was still (inl same) = cc (ap (λ (x : UserSession). x.revoked_at) same)
  is_only s r t was still (inr m) = m

  none_kept : (xs : List UserSession) (s : UserSession) → one_or_none xs ≡ missing → In s xs → ⊥
  none_kept [] s e m = m
  none_kept (x ∷ []) s e m = cc
  none_kept (x ∷ y ∷ xs) s e m = cc

  logged_out-Closed :
      (s : UserSession)
      → keep named a.sessions ≡ s ∷ []
      → (t : Option DateTime) → s.revoked_at ≡ t
      → Closed (logged_out c dict str now cookie s a t)
  unfolding Closed
  logged_out-Closed s only (some t) is =
      λ r row named_so still. is_only s r t is still (rw only at (kept r row named_so))
  logged_out-Closed s only none is = λ r row named_so still.
      let (r0, there, same) = In-map_back (revoke_session c dict str now cookie) r a.sessions row in
      revokes r0 (ap (λ (x : UserSession). x.session_token) (sym same) ∙ named_so)
        (ap (λ (x : UserSession). x.revoked_at) (sym same) ∙ still)

  found-Closed :
      (l : Lookup UserSession) (b : Accounts)
      → one_or_none (keep named a.sessions) ≡ l
      → logout_found c dict str now cookie a l ≡ some b
      → Closed b
  unfolding Closed
  found-Closed missing b e h = λ s row is still.
      let same : a ≡ b = cc in
      none_kept (keep named a.sessions) s e (kept s (rw (← same) at row) is)
  found-Closed several b e h = cc
  found-Closed (one s) b e h =
      let same : logged_out c dict str now cookie s a s.revoked_at ≡ b = cc in
      rw (← same) (logged_out-Closed s (one_only _ s e) s.revoked_at refl)

  logout-Closed :
      (b : Accounts) → cookie ≢ "" → logout c dict str now (some cookie) a ≡ some b → Closed b
  unfolding logout Closed
  logout-Closed b set h =
      let is : str_eq cookie "" ≡ false = ground (arith, eq_iff cookie "") in
      found-Closed _ b refl (rw is at h)

  -- The same login by another cookie, from accounts that differ in their sessions and the log.
  abbrev Alike : Accounts → Type 0
  Alike b =
      (b.users ≡ a.users)
      × (b.orgs ≡ a.orgs)
      × (b.memberships ≡ a.memberships)
      × ((other : String)
          → other ≢ cookie
          → keep (λ s. str_eq s.session_token other) b.sessions
            ≡ keep (λ s. str_eq s.session_token other) a.sessions)

  keep-revoke :
      (other : String) (ss : List UserSession)
      → other ≢ cookie
      → keep (λ s. str_eq s.session_token other) (map (revoke_session c dict str now cookie) ss)
        ≡ keep (λ s. str_eq s.session_token other) ss
  keep-revoke other [] ne = refl
  keep-revoke other (s ∷ ss) ne =
      ground (
        arith,
        keep-revoke other ss ne,
        eq_iff s.session_token other,
        eq_iff s.session_token cookie,
      )

  logged_out-Alike :
      (s : UserSession) (t : Option DateTime) → Alike (logged_out c dict str now cookie s a t)
  logged_out-Alike s none = (refl, refl, refl, λ other ne. keep-revoke other a.sessions ne)
  logged_out-Alike s (some t) = (refl, refl, refl, λ other ne. refl)

  found-Alike :
      (l : Lookup UserSession) (b : Accounts)
      → logout_found c dict str now cookie a l ≡ some b
      → Alike b
  found-Alike missing b h =
      let same : a ≡ b = cc in rw (← same) (refl, refl, refl, λ other ne. refl)
  found-Alike several b h = cc
  found-Alike (one s) b h =
      let same : logged_out c dict str now cookie s a s.revoked_at ≡ b = cc in
      rw (← same) (logged_out-Alike s s.revoked_at)

  principal-Alike :
      (b : Accounts) (m : Membership) (u : Option UserRow) (o : Option OrgRow)
      → (principal_of b b m u o).0 ≡ (principal_of a a m u o).0
  principal-Alike b m none o = refl
  principal-Alike b m (some u) none = refl
  principal-Alike b m (some u) (some o) = refl

  member-Alike :
      (b : Accounts) (user org : ℕ) (l : Lookup Membership)
      → Alike b
      → (as_member b b user org l).0 ≡ (as_member a a user org l).0
  member-Alike b user org missing same = refl
  member-Alike b user org several same = refl
  member-Alike b user org (one m) (us, os, ms, ss) =
      principal-Alike b m _ _
      ∙ ap₂ (λ u o. (principal_of a a m (get_user user u) (get_org org o)).0) us os

  session-Alike :
      (b : Accounts) (later : DateTime) (l : Lookup UserSession)
      → Alike b
      → (checked_session later b l).0 ≡ (checked_session later a l).0
  unfolding memberships_of
  session-Alike b later missing same = refl
  session-Alike b later several same = refl
  session-Alike b later (one s) same = elim (Bool-cases (session_is_active later s)) [
    | inr e ↦ rw e refl
    | inl e ↦ rw e (
        member-Alike b s.user_id s.org_id _ same
        ∙ ap
            (λ ms.
              (as_member a a s.user_id s.org_id
                (one_or_none (keep (is_member s.user_id s.org_id) ms))).0)
            (same.2))
  ]

  login-Alike :
      (b : Accounts) (later : DateTime) (other : String)
      → Alike b
      → other ≢ cookie
      → (authenticate_session_cookie later b other).0
        ≡ (authenticate_session_cookie later a other).0
  unfolding authenticate_session_cookie
  login-Alike b later other same ne =
      session-Alike b later _ same
      ∙ ap (λ ss. (checked_session later a (one_or_none ss)).0) (same.3 other ne)

  -- After `logout` with a cookie that is not empty the cookie lets nobody in, at whatever time, and
  -- every other cookie logs in as it did before.
  pub logout-locks_out :
      (b : Accounts)
      → cookie ≢ ""
      → logout c dict str now (some cookie) a ≡ some b
      → ((later : DateTime) (p : Principal)
          → (authenticate_session_cookie later b cookie).0 ≢ granted p)
        × ((later : DateTime) (other : String)
            → other ≢ cookie
            → (authenticate_session_cookie later b other).0
              ≡ (authenticate_session_cookie later a other).0)
  unfolding logout Closed
  logout-locks_out b set h =
      let is : str_eq cookie "" ≡ false = ground (arith, eq_iff cookie "") in
      (
        λ later p granted_to.
            let door = authenticate_session-ByCookie c.sha256_hex later b p cookie granted_to in
            logout-Closed b set h door.session door.row door.presented door.in_force.0,
        λ later other ne. login-Alike b later other (found-Alike _ b (rw is at h)) ne,
      )
