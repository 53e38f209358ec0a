-- ===== src/Audit.antt =====
-- src/claudestruct/server/audit.py: the audit log of an org as a chain of hashes.
pub mod Verify
pub mod Append
pub mod Tamper
pub mod Prune
use claude_struct.Prelude.{
  ℕ, ◌+◌, ◌*◌, Bool, true, false, ◌&&◌, not, String, text_append, Option, none, some, List, [], ◌∷◌,
  ◌++◌, ◌==◌, str_eq, ltb, if◌then◌else◌, keep, length, sort_up, sort_down,
}
use claude_struct.Calendar.{DateTime, instant}

-- What the log takes from Python's library: canonical JSON and its reading (`none` is a decode
-- error), SHA-256 as a hex text, ISO-8601 and decimal texts.
pub record Codec (Payload : Type 0) : Type 0 where
  pub canonical_json : Payload → String
  pub loads : String → Option Payload
  pub sha256_hex : String → String
  pub iso : DateTime → String
  pub decimal : ℕ → String

-- `AuditEntry`.
pub record AuditEntry : Type 0 where
  pub org_id : ℕ
  pub actor_user_id : Option ℕ
  pub action : String
  pub resource_type : String
  pub resource_id : String
  pub payload_json : String
  pub created_at : DateTime
  pub seq : ℕ
  pub prev_hash : String
  pub entry_hash : String

-- What an entry is made from.
pub record Event (Payload : Type 0) : Type 0 where
  pub org_id : ℕ
  pub actor_user_id : Option ℕ
  pub action : String
  pub resource_type : String
  pub resource_id : String
  pub payload : Payload

-- 64 zeros.
unfoldable pub genesis_hash : String
genesis_hash = "0000000000000000000000000000000000000000000000000000000000000000"

-- Why a chain is refused, with the numbers of the message.
pub data BrokenReason : Type 0 where
  seq_gap : ℕ → ℕ → BrokenReason
  prev_hash_mismatch : ℕ → BrokenReason
  payload_not_json : ℕ → BrokenReason
  hash_divergence : ℕ → BrokenReason

pub record VerifyReport : Type 0 where
  pub ok : Bool
  pub total : ℕ
  pub head_seq : Option ℕ
  pub head_hash : Option String
  pub broken_at_seq : Option ℕ
  pub broken_reason : Option BrokenReason

pub record HeadInfo : Type 0 where
  pub seq : ℕ
  pub entry_hash : String

-- `"|".join` of one more part.
abbrev pub joined : String → String → String
joined part rest = text_append part (text_append "|" rest)

-- The rows of an org, and the rows in the order of their sequence numbers.
unfoldable pub rows_of : ℕ → List AuditEntry → List AuditEntry
rows_of org table = keep (λ e. e.org_id == org) table

unfoldable pub chain_of : ℕ → List AuditEntry → List AuditEntry
chain_of org table = sort_up (λ e. e.seq) (rows_of org table)

abbrev pub first_head : List AuditEntry → Option HeadInfo
first_head [] = none
first_head (e ∷ _) = some (record { seq = e.seq; entry_hash = e.entry_hash })

unfoldable pub head_for_org : List AuditEntry → ℕ → Option HeadInfo
head_for_org table org = first_head (sort_down (λ e. e.seq) (rows_of org table))

abbrev pub head_seq_or_zero : Option HeadInfo → ℕ
head_seq_or_zero none = 0
head_seq_or_zero (some h) = h.seq

abbrev pub head_hash_or_genesis : Option HeadInfo → String
head_hash_or_genesis none = genesis_hash
head_hash_or_genesis (some h) = h.entry_hash

abbrev pub last_row : List AuditEntry → Option AuditEntry
last_row [] = none
last_row (e ∷ []) = some e
last_row (_ ∷ e ∷ es) = last_row (e ∷ es)

module _ {Payload : Type 0} (c : Codec Payload) where
  abbrev pub actor_text : Option ℕ → String
  actor_text none = ""
  actor_text (some n) = c.decimal n

  -- What follows the link in the text that is hashed.
  unfoldable pub blob_rest : Event Payload → DateTime → String
  blob_rest v at = joined (c.decimal v.org_id) (
      joined (actor_text v.actor_user_id) (
        joined v.action (
          joined v.resource_type
            (joined v.resource_id (joined (c.canonical_json v.payload) (c.iso at))))))

  unfoldable pub blob : String → Event Payload → DateTime → String
  blob prev v at = joined prev (blob_rest v at)

  unfoldable pub compute_entry_hash : String → Event Payload → DateTime → String
  compute_entry_hash prev v at = c.sha256_hex (blob prev v at)

  abbrev pub entry_after : Option HeadInfo → Event Payload → DateTime → AuditEntry
  entry_after head v now = record {
    org_id = v.org_id;
    actor_user_id = v.actor_user_id;
    action = v.action;
    resource_type = v.resource_type;
    resource_id = v.resource_id;
    payload_json = c.canonical_json v.payload;
    created_at = now;
    seq = head_seq_or_zero head + 1;
    prev_hash = head_hash_or_genesis head;
    entry_hash = compute_entry_hash (head_hash_or_genesis head) v now;
  }

  -- `record`: the new row and the table with it.
  unfoldable pub record_event :
      List AuditEntry → Event Payload → DateTime → AuditEntry × List AuditEntry
  record_event table v now =
      let row = entry_after (head_for_org table v.org_id) v now in (row, table ++ row ∷ [])

  -- The event that a row claims to be, with the payload as it was decoded.
  abbrev pub event_of : AuditEntry → Payload → Event Payload
  event_of e p = record {
    org_id = e.org_id;
    actor_user_id = e.actor_user_id;
    action = e.action;
    resource_type = e.resource_type;
    resource_id = e.resource_id;
    payload = p;
  }

  abbrev pub check_hash : AuditEntry → Option Payload → Option BrokenReason
  check_hash e none = some (payload_not_json e.seq)
  check_hash e (some p) =
      if str_eq (compute_entry_hash e.prev_hash (event_of e p) e.created_at) e.entry_hash
      then none
      else some (hash_divergence e.seq)

  -- The tests of one round of the loop, the first that fails.
  unfoldable pub check_row : String → ℕ → AuditEntry → Option BrokenReason
  check_row expected_prev expected_seq e =
      if e.seq == expected_seq
      then (if str_eq e.prev_hash expected_prev
          then check_hash e (c.loads e.payload_json)
          else some (prev_hash_mismatch e.seq))
      else some (seq_gap expected_seq e.seq)

  abbrev pub or_walk :
      ℕ → Option BrokenReason → Option (ℕ × BrokenReason) → Option (ℕ × BrokenReason)
  or_walk seq none rest = rest
  or_walk seq (some why) rest = some (seq, why)

  -- The loop: where it breaks off and why.
  unfoldable pub walk : String → ℕ → List AuditEntry → Option (ℕ × BrokenReason)
  walk expected_prev expected_seq [] = none
  walk expected_prev expected_seq (e ∷ es) =
      or_walk e.seq (check_row expected_prev expected_seq e)
        (walk e.entry_hash (expected_seq + 1) es)

  abbrev pub report : List AuditEntry → Option AuditEntry → Option (ℕ × BrokenReason) → VerifyReport
  report rows none _ = record {
    ok = true;
    total = 0;
    head_seq = none;
    head_hash = none;
    broken_at_seq = none;
    broken_reason = none;
  }
  report rows (some last) none = record {
    ok = true;
    total = length rows;
    head_seq = some last.seq;
    head_hash = some last.entry_hash;
    broken_at_seq = none;
    broken_reason = none;
  }
  report rows (some last) (some (seq, why)) = record {
    ok = false;
    total = length rows;
    head_seq = some last.seq;
    head_hash = some last.entry_hash;
    broken_at_seq = some seq;
    broken_reason = some why;
  }

  unfoldable pub verify_chain : List AuditEntry → ℕ → VerifyReport
  verify_chain table org =
      let rows = chain_of org table in report rows (last_row rows) (walk genesis_hash 1 rows)

-- `prune_audit`: the count deleted, and the table that stays. A day has 86400 million microseconds.
unfoldable pub is_pruned : ℕ → ℕ → DateTime → AuditEntry → Bool
is_pruned org days now e =
    (e.org_id == org) && ltb (instant e.created_at + days * 86400000000) (instant now)

unfoldable pub prune_audit : List AuditEntry → ℕ → ℕ → DateTime → ℕ × List AuditEntry
prune_audit table org days now =
    (length (keep (is_pruned org days now) table), keep (λ e. not (is_pruned org days now e)) table)
