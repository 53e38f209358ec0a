-- ===== src/Audit/Prune.antt =====
-- `prune_audit` of src/claudestruct/server/audit.py.
use claude_struct.Prelude.{
  ℕ, ◌+◌, ◌*◌, ◌≤◌, ◌≡◌, ◌≢◌, refl, not, Bool-cases, inl, inr, List, [], ◌∷◌, ◌==◌, leb, ltb, keep,
  length, arith, All,
}
use claude_struct.Calendar.{DateTime, instant}
use claude_struct.Audit.{Codec, AuditEntry, rows_of, chain_of, verify_chain, is_pruned, prune_audit}

module _ (org days : ℕ) (now : DateTime) where
  split_length :
      (es : List AuditEntry)
      → length (keep (is_pruned org days now) es)
          + length (keep (λ e. not (is_pruned org days now e)) es)
        ≡ length es
  split_length [] = refl
  split_length (e ∷ es) = ground (arith, split_length es)

  keep_other :
      (other : ℕ) (es : List AuditEntry)
      → other ≢ org
      → keep (λ e. e.org_id == other) (keep (λ e. not (is_pruned org days now e)) es)
        ≡ keep (λ e. e.org_id == other) es
  unfolding is_pruned
  keep_other other [] ne = refl
  keep_other other (e ∷ es) ne = ground (arith, keep_other other es ne)

  rest_recent :
      (es : List AuditEntry)
      → All
          (λ e. instant now ≤ instant e.created_at + days * 86400000000)
          (rows_of org (keep (λ e. not (is_pruned org days now e)) es))
  unfolding rows_of is_pruned
  rest_recent [] = tt
  rest_recent (e ∷ es) = elim (Bool-cases (e.org_id == org)) [
    | inr other ↦ rw other (rw other (rest_recent es))
    | inl own ↦ elim (Bool-cases (ltb (instant e.created_at + days * 86400000000) (instant now))) [
      | inl old ↦ rw own (rw old (rest_recent es))
      | inr young ↦ rw own (rw young (rw own (ground arith, rest_recent es)))
    ]
  ]

  -- The rows of the org that are still in time.
  young_stay :
      (es : List AuditEntry)
      → rows_of org (keep (λ e. not (is_pruned org days now e)) es)
        ≡ keep (λ e. leb (instant now) (instant e.created_at + days * 86400000000)) (rows_of org es)
  unfolding rows_of is_pruned
  young_stay [] = refl
  young_stay (e ∷ es) = ground (arith, young_stay es)

  -- What pruning an org's log to a number of days leaves: it counts the rows that are gone; of the
  -- org's rows exactly those stay, in their order, whose age is at most so many days; all rows of
  -- every other org stay, in their order, so that no report on another org changes.
  pub prune_audit_keeps :
      {Payload : Type 0} (c : Codec Payload) (table : List AuditEntry)
      → ((prune_audit table org days now).0 + length (prune_audit table org days now).1
          ≡ length table)
        × (rows_of org (prune_audit table org days now).1
            ≡ keep
                (λ e. leb (instant now) (instant e.created_at + days * 86400000000))
                (rows_of org table))
        × All
            (λ e. instant now ≤ instant e.created_at + days * 86400000000)
            (rows_of org (prune_audit table org days now).1)
        × ((other : ℕ)
            → other ≢ org
            → (rows_of other (prune_audit table org days now).1 ≡ rows_of other table)
              × (verify_chain c (prune_audit table org days now).1 other
                  ≡ verify_chain c table other))
  unfolding prune_audit verify_chain chain_of rows_of
  prune_audit_keeps c table = (
    split_length table,
    young_stay table,
    rest_recent table,
    λ other ne. (keep_other other table ne, rw (keep_other other table ne) refl),
  )
