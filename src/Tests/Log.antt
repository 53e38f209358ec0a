-- ===== src/Tests/Log.antt =====
-- An audit log of two orgs.
use claude_struct.Prelude.{
  ℕ, ◌+◌, ◌*◌, ◌≤◌, ◌≡◌, ◌≢◌, ◌↔◌, ◌⊎◌, refl, true, some, List, [], map, length, All, keep, leb,
}
unfoldable use claude_struct.Prelude.{sort_up, sort_down}
use claude_struct.Audit.{
  AuditEntry, genesis_hash, chain_of, rows_of, record_event, verify_chain, prune_audit,
  head_for_org, compute_entry_hash, blob, blob_rest, walk, check_row,
}
use claude_struct.Audit.Verify.{IsChain, verify_chain-IsChain}
use claude_struct.Audit.Append.{JsonRoundTrip, record_event-verifies}
use claude_struct.Audit.Tamper.{Collision, row_blob, tamper_evident}
use claude_struct.Audit.Prune.{prune_audit_keeps}
use claude_struct.Calendar.{instant}
use claude_struct.Tests.Data.{march, a_codec, an_event, count-padded}

abbrev a_log : List AuditEntry
a_log = (record_event a_codec [] (an_event 1 "key.create") (march 1 8)).1

verify_chain-IsChain_example :
    ((verify_chain a_codec a_log 1).ok ≡ true) ↔ IsChain a_codec genesis_hash 1 (chain_of 1 a_log)
verify_chain-IsChain_example = verify_chain-IsChain a_codec a_log 1

a_codec-JsonRoundTrip : JsonRoundTrip a_codec
a_codec-JsonRoundTrip p = (p, refl, refl)

empty_verifies : (verify_chain a_codec [] 1).ok ≡ true
unfolding verify_chain chain_of rows_of sort_up
empty_verifies = refl

a_log_verifies : (verify_chain a_codec a_log 1).ok ≡ true
a_log_verifies =
    (record_event-verifies a_codec [] (an_event 1 "key.create") (march 1 8) a_codec-JsonRoundTrip
      empty_verifies).0

record_event-verifies_example :
    ((verify_chain a_codec
        (record_event a_codec a_log (an_event 1 "run.submit") (march 2 8)).1
        1).ok
      ≡ true)
    × ((verify_chain a_codec
          (record_event a_codec a_log (an_event 1 "run.submit") (march 2 8)).1
          1).total
        ≡ (verify_chain a_codec a_log 1).total + 1)
    × ((verify_chain a_codec
          (record_event a_codec a_log (an_event 1 "run.submit") (march 2 8)).1
          1).head_seq
        ≡ some (record_event a_codec a_log (an_event 1 "run.submit") (march 2 8)).0.seq)
    × ((verify_chain a_codec
          (record_event a_codec a_log (an_event 1 "run.submit") (march 2 8)).1
          1).head_hash
        ≡ some (record_event a_codec a_log (an_event 1 "run.submit") (march 2 8)).0.entry_hash)
record_event-verifies_example =
    record_event-verifies a_codec a_log (an_event 1 "run.submit") (march 2 8) a_codec-JsonRoundTrip
      a_log_verifies

-- The log with another action in its only row. The toy hash takes 64 characters, which are those of
-- the link, so that the two rows collide.
abbrev a_forged_log : List AuditEntry
a_forged_log = (record_event a_codec [] (an_event 1 "key.revoke") (march 1 8)).1

a_forged_log_verifies : (verify_chain a_codec a_forged_log 1).ok ≡ true
a_forged_log_verifies =
    (record_event-verifies a_codec [] (an_event 1 "key.revoke") (march 1 8) a_codec-JsonRoundTrip
      empty_verifies).0

same_total : (verify_chain a_codec a_log 1).total ≡ (verify_chain a_codec a_forged_log 1).total
unfolding verify_chain chain_of rows_of sort_up record_event head_for_org compute_entry_hash blob
    blob_rest sort_down genesis_hash walk check_row
same_total = refl

same_head :
    (verify_chain a_codec a_log 1).head_hash ≡ (verify_chain a_codec a_forged_log 1).head_hash
unfolding verify_chain chain_of rows_of sort_up record_event head_for_org compute_entry_hash blob
    blob_rest sort_down genesis_hash walk check_row
same_head = refl

tamper_evident_example :
    (map (row_blob a_codec) (chain_of 1 a_log) ≡ map (row_blob a_codec) (chain_of 1 a_forged_log))
    ⊎ Collision a_codec (chain_of 1 a_log) (chain_of 1 a_forged_log)
tamper_evident_example =
    tamper_evident a_codec (count-padded 64) a_log a_forged_log 1 a_log_verifies
      a_forged_log_verifies same_total same_head

prune_audit_keeps_example :
    ((prune_audit a_log 1 90 (march 31 8)).0 + length (prune_audit a_log 1 90 (march 31 8)).1
      ≡ length a_log)
    × (rows_of 1 (prune_audit a_log 1 90 (march 31 8)).1
        ≡ keep
            (λ e. leb (instant (march 31 8)) (instant e.created_at + 90 * 86400000000))
            (rows_of 1 a_log))
    × All
        (λ e. instant (march 31 8) ≤ instant e.created_at + 90 * 86400000000)
        (rows_of 1 (prune_audit a_log 1 90 (march 31 8)).1)
    × ((other : ℕ)
        → other ≢ 1
        → (rows_of other (prune_audit a_log 1 90 (march 31 8)).1 ≡ rows_of other a_log)
          × (verify_chain a_codec (prune_audit a_log 1 90 (march 31 8)).1 other
              ≡ verify_chain a_codec a_log other))
prune_audit_keeps_example = prune_audit_keeps 1 90 (march 31 8) a_codec a_log
