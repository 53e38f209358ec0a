-- ===== src/Audit/Verify.antt =====
-- `verify_chain` of src/claudestruct/server/audit.py, and chains described without it.
use claude_struct.Prelude.{
  ℕ, ◌+◌, ◌≡◌, ◌↔◌, refl, true, Bool-cases, Option-cases, inl, inr, String, Option, none, some,
  List, [], ◌∷◌, ◌==◌, ==_iff, str_eq, eq_iff, arith,
}
use claude_struct.Audit.{
  Codec, AuditEntry, genesis_hash, BrokenReason, chain_of, last_row, compute_entry_hash, event_of,
  check_hash, check_row, walk, report, verify_chain,
}

module _ {Payload : Type 0} (c : Codec Payload) where
  -- A row whose payload text can be read, and whose hash is that of the row as it stands.
  pub record IsSealed (e : AuditEntry) : Type 0 where
    pub payload : Payload
    pub readable : c.loads e.payload_json ≡ some payload
    pub hashed : compute_entry_hash c e.prev_hash (event_of c e payload) e.created_at ≡ e.entry_hash

  -- Sealed rows numbered from `seq` without a gap, each linked to the one before it, the first to
  -- `prev`.
  abbrev pub IsChain : String → ℕ → List AuditEntry → Type 0
  IsChain prev seq [] = Unit
  IsChain prev seq (e ∷ es) =
      (e.seq ≡ seq) × (e.prev_hash ≡ prev) × IsSealed e × IsChain e.entry_hash (seq + 1) es

  check_hash-IsSealed :
      (e : AuditEntry) (p : Option Payload)
      → c.loads e.payload_json ≡ p
      → check_hash c e p ≡ none
      → IsSealed e
  check_hash-IsSealed e none l h = cc
  check_hash-IsSealed e (some p) l h = record {
    payload = p;
    readable = l;
    hashed = (eq_iff _ _).0 (ground arith);
  }

  IsSealed-check_hash :
      (e : AuditEntry) → IsSealed e → check_hash c e (c.loads e.payload_json) ≡ none
  IsSealed-check_hash e s = rw (s.readable) (rw ((eq_iff _ _).1 s.hashed))

  row_sound :
      (prev : String) (seq : ℕ) (e : AuditEntry)
      → check_row c prev seq e ≡ none
      → (e.seq ≡ seq) × (e.prev_hash ≡ prev) × IsSealed e
  unfolding check_row
  row_sound prev seq e h = elim (Bool-cases (e.seq == seq)) [
    | inr n ↦ cc (rw n at h)
    | inl s ↦ elim (Bool-cases (str_eq e.prev_hash prev)) [
      | inr n ↦ cc (rw (s, n) at h)
      | inl p ↦ ((==_iff _ _).0 s, (eq_iff _ _).0 p, check_hash-IsSealed e _ refl (rw (s, p) at h))
    ]
  ]

  row_complete :
      (prev : String) (seq : ℕ) (e : AuditEntry)
      → e.seq ≡ seq
      → e.prev_hash ≡ prev
      → IsSealed e
      → check_row c prev seq e ≡ none
  unfolding check_row
  row_complete prev seq e s p k =
      rw ((==_iff _ _).1 s) (rw ((eq_iff _ _).1 p) (IsSealed-check_hash e k))

  pub walk_sound :
      (prev : String) (seq : ℕ) (es : List AuditEntry)
      → walk c prev seq es ≡ none
      → IsChain prev seq es
  unfolding walk
  walk_sound prev seq [] h = tt
  walk_sound prev seq (e ∷ es) h = elim (Option-cases (check_row c prev seq e)) [
    | inr (why, n) ↦ cc (rw n at h)
    | inl k ↦
        let (s, p, z) = row_sound prev seq e k in
        (s, p, z, walk_sound e.entry_hash (seq + 1) es (rw k at h))
  ]

  pub walk_complete :
      (prev : String) (seq : ℕ) (es : List AuditEntry)
      → IsChain prev seq es
      → walk c prev seq es ≡ none
  unfolding walk
  walk_complete prev seq [] h = refl
  walk_complete prev seq (e ∷ es) (s, p, z, rest) =
      rw (row_complete prev seq e s p z) (walk_complete e.entry_hash (seq + 1) es rest)

  pub last_row-some :
      (e : AuditEntry) (es : List AuditEntry) → (l : AuditEntry) × (last_row (e ∷ es) ≡ some l)
  last_row-some e [] = (e, refl)
  last_row-some e (x ∷ es) = last_row-some x es

  report-some :
      (rows : List AuditEntry) (l : AuditEntry) (w : Option (ℕ × BrokenReason))
      → ((report c rows (some l) w).ok ≡ true) ↔ (w ≡ none)
  report-some rows l none = (λ h. refl, λ h. refl)
  report-some rows l (some (seq, why)) = (λ h. cc, λ h. cc)

  report-walk :
      (rows : List AuditEntry)
      → ((report c rows (last_row rows) (walk c genesis_hash 1 rows)).ok ≡ true)
        ↔ (walk c genesis_hash 1 rows ≡ none)
  report-walk [] = unfold walk in (λ h. refl, λ h. refl)
  report-walk (e ∷ es) =
      let (l, is) = last_row-some e es in
      rw is (report-some (e ∷ es) l (walk c genesis_hash 1 (e ∷ es)))

  -- The report is favourable exactly if the rows of the org, in the order of their numbers, are
  -- numbered from 1 without a gap, each linked to the one before it, the first to the genesis hash,
  -- and each hashes to its own hash.
  pub verify_chain-IsChain :
      (table : List AuditEntry) (org : ℕ)
      → ((verify_chain c table org).ok ≡ true) ↔ IsChain genesis_hash 1 (chain_of org table)
  unfolding verify_chain
  verify_chain-IsChain table org =
      let rows = chain_of org table in
      (
        λ h. walk_sound genesis_hash 1 rows ((report-walk rows).0 h),
        λ k. (report-walk rows).1 (walk_complete genesis_hash 1 rows k),
      )
