-- ===== src/Audit/Append.antt =====
-- `record` of src/claudestruct/server/audit.py and the chain it writes to.
use claude_struct.Prelude.{
  ℕ, ◌+◌, ◌≤◌, ◌<◌, ◌≡◌, ◌≢◌, refl, sym, ap, ◌∙◌, Bool, true, false, Bool-cases, inl, inr, String,
  Option, none, some, List, [], ◌∷◌, ◌++◌, ◌==◌, ==_iff, if◌then◌else◌, arith, length,
  length-append, keep, In, All, In-middle, sort_up-In, sort_up, sort_up-append_last, IsFirstBest,
  Head, empty, first, sort_down-Head, All-sort_up,
}
use claude_struct.Calendar.{DateTime}
use claude_struct.Audit.{
  Codec, AuditEntry, Event, genesis_hash, BrokenReason, rows_of, chain_of, first_head, head_for_org,
  head_seq_or_zero, head_hash_or_genesis, last_row, blob, blob_rest, compute_entry_hash,
  entry_after, record_event, report, verify_chain,
}
use claude_struct.Audit.Verify.{IsSealed, IsChain, verify_chain-IsChain, last_row-some}

keep-append_one {ℓ} :
    {A : Type ℓ} (p : A → Bool) (xs : List A) (r : A)
    → keep p (xs ++ r ∷ []) ≡ (if p r then keep p xs ++ r ∷ [] else keep p xs)
keep-append_one p [] r = ground arith
keep-append_one p (x ∷ xs) r = elim (Bool-cases (p x)) [
  | inl e ↦ rw (e, keep-append_one p xs r) (ground arith)
  | inr e ↦ rw (e, keep-append_one p xs r)
]

-- The hash that the next row links to.
abbrev pub end_hash : String → List AuditEntry → String
end_hash prev [] = prev
end_hash prev (e ∷ es) = end_hash e.entry_hash es

module _ {Payload : Type 0} (c : Codec Payload) where
  -- In a chain, the row of the greatest number is the last, and the numbers count the rows.
  greatest_is_last :
      (prev : String) (seq : ℕ) (e : AuditEntry) (es : List AuditEntry)
      → IsChain c prev seq es
      → In e es
      → All (λ x. x.seq ≤ e.seq) es
      → (e.seq + 1 ≡ seq + length es) × (e.entry_hash ≡ end_hash prev es)
  greatest_is_last prev seq e [] k m h = absurd m
  greatest_is_last prev seq e (x ∷ []) k (inl q) h =
      (rw q (rw k.0 (omega arith)), ap (λ y. y.entry_hash) q)
  greatest_is_last prev seq e (x ∷ y ∷ es) k (inl q) h =
      let n : e.seq ≡ x.seq = ap (λ z. z.seq) q in absurd (omega (arith, k.0, k.3.0, h.1.0))
  greatest_is_last prev seq e (x ∷ es) k (inr m) h =
      let (n, z) = greatest_is_last x.entry_hash (seq + 1) e es k.3 m h.1 in (omega (arith, n), z)

  IsChain-append :
      (prev : String) (seq : ℕ) (es : List AuditEntry) (r : AuditEntry)
      → IsChain c prev seq es
      → r.seq ≡ seq + length es
      → r.prev_hash ≡ end_hash prev es
      → IsSealed c r
      → IsChain c prev seq (es ++ r ∷ [])
  IsChain-append prev seq [] r k n p s = (omega (arith, n), p, s, tt)
  IsChain-append prev seq (e ∷ es) r k n p s =
      (k.0, k.1, k.2, IsChain-append e.entry_hash (seq + 1) es r k.3 (omega (arith, n)) p s)

  -- What `head_for_org` tells of a chain.
  record IsHead (table : List AuditEntry) (org : ℕ) : Type 0 where
    counts : head_seq_or_zero (head_for_org table org) ≡ length (chain_of org table)
    links :
        head_hash_or_genesis (head_for_org table org) ≡ end_hash genesis_hash (chain_of org table)
    bounds : All (λ x. x.seq ≤ head_seq_or_zero (head_for_org table org)) (rows_of org table)

  chain_of_empty :
      (table : List AuditEntry) (org : ℕ) → rows_of org table ≡ [] → chain_of org table ≡ []
  unfolding chain_of sort_up
  chain_of_empty table org e = rw e

  All-below_best :
      (best : AuditEntry) (xs : List AuditEntry)
      → IsFirstBest (λ e. e.seq) best xs
      → All (λ x. x.seq ≤ best.seq) xs
  All-below_best best xs f = rw f.split (go f.before f.smaller)
    where
      go :
          (pre : List AuditEntry)
          → All (λ x. x.seq < best.seq) pre
          → All (λ x. x.seq ≤ best.seq) (pre ++ best ∷ f.behind)
      go [] h = (omega arith, f.no_greater)
      go (x ∷ pre) h = let b : x.seq < best.seq = h.0 in (omega arith, go pre h.1)

  Head-from :
      (table : List AuditEntry) (org : ℕ) (sorted : List AuditEntry)
      → IsChain c genesis_hash 1 (chain_of org table)
      → Head (λ e. e.seq) (rows_of org table) sorted
      → (head_seq_or_zero (first_head sorted) ≡ length (chain_of org table))
        × (head_hash_or_genesis (first_head sorted) ≡ end_hash genesis_hash (chain_of org table))
        × All (λ x. x.seq ≤ head_seq_or_zero (first_head sorted)) (rows_of org table)
  Head-from table org sorted k (empty e) = rw (chain_of_empty table org e, e) (refl, refl, tt)
  Head-from table org sorted k (first best rest f) =
      let below = All-below_best best (rows_of org table) f in
      let row : In best (rows_of org table) = rw f.split (In-middle best f.before f.behind) in
      let (n, z) =
        greatest_is_last genesis_hash 1 best (chain_of org table) k
          (unfold chain_of in sort_up-In (λ e. e.seq) best (rows_of org table) row)
          (unfold chain_of in
            All-sort_up (λ e. e.seq) (λ x. x.seq ≤ best.seq) (rows_of org table) below) in
      (omega (arith, n), z, below)

  IsHead-of_chain :
      (table : List AuditEntry) (org : ℕ)
      → IsChain c genesis_hash 1 (chain_of org table)
      → IsHead table org
  IsHead-of_chain table org k =
      let (n, z, b) = Head-from table org _ k (sort_down-Head (λ e. e.seq) (rows_of org table)) in
      record {
        counts = unfold head_for_org in n;
        links = unfold head_for_org in z;
        bounds = unfold head_for_org in b;
      }

  -- JSON that was written can be read back, to a value that is written the same.
  abbrev pub JsonRoundTrip : Type 0
  JsonRoundTrip =
      (p : Payload)
      → (q : Payload) × (c.loads (c.canonical_json p) ≡ some q)
        × (c.canonical_json q ≡ c.canonical_json p)

  hash_payload :
      (prev : String) (v : Event Payload) (q : Payload) (at : DateTime)
      → c.canonical_json q ≡ c.canonical_json v.payload
      → compute_entry_hash c prev (record v { payload = q }) at ≡ compute_entry_hash c prev v at
  unfolding compute_entry_hash blob blob_rest
  hash_payload prev v q at w = cc

  last_row-append : (es : List AuditEntry) (r : AuditEntry) → last_row (es ++ r ∷ []) ≡ some r
  last_row-append [] r = refl
  last_row-append (e ∷ []) r = refl
  last_row-append (e ∷ x ∷ es) r = last_row-append (x ∷ es) r

  pub total-report :
      (rows : List AuditEntry) (w : Option (ℕ × BrokenReason))
      → (report c rows (last_row rows) w).total ≡ length rows
  total-report [] w = refl
  total-report (e ∷ es) none = let (l, is) = last_row-some c e es in rw is
  total-report (e ∷ es) (some (seq, why)) = let (l, is) = last_row-some c e es in rw is

  head_seq-report :
      (rows : List AuditEntry) (r : AuditEntry) (w : Option (ℕ × BrokenReason))
      → (report c (rows ++ r ∷ []) (last_row (rows ++ r ∷ [])) w).head_seq ≡ some r.seq
  head_seq-report rows r none = rw (last_row-append rows r)
  head_seq-report rows r (some (seq, why)) = rw (last_row-append rows r)

  head_hash-report :
      (rows : List AuditEntry) (r : AuditEntry) (w : Option (ℕ × BrokenReason))
      → (report c (rows ++ r ∷ []) (last_row (rows ++ r ∷ [])) w).head_hash ≡ some r.entry_hash
  head_hash-report rows r none = rw (last_row-append rows r)
  head_hash-report rows r (some (seq, why)) = rw (last_row-append rows r)

  module _ (table : List AuditEntry) (v : Event Payload) (now : DateTime) where
    abbrev new_row : AuditEntry
    new_row = entry_after c (head_for_org table v.org_id) v now

    new_row-IsSealed : JsonRoundTrip → IsSealed c new_row
    new_row-IsSealed law =
        let (q, r, w) = law v.payload in
        record {
          payload = q;
          readable = r;
          hashed = hash_payload (head_hash_or_genesis (head_for_org table v.org_id)) v q now w;
        }

    new_row_is_last :
        (n : ℕ) (rows : List AuditEntry) → All (λ x. x.seq ≤ n) rows → All (λ x. x.seq ≤ n + 1) rows
    new_row_is_last n [] h = tt
    new_row_is_last n (x ∷ rows) h =
        let b : x.seq ≤ n = h.0 in (omega arith, new_row_is_last n rows h.1)

    rows-record_event :
        rows_of v.org_id (record_event c table v now).1 ≡ rows_of v.org_id table ++ new_row ∷ []
    unfolding record_event rows_of
    rows-record_event =
        keep-append_one (λ e. e.org_id == v.org_id) table new_row
        ∙ rw ((==_iff v.org_id v.org_id).1 refl)

    chain-record_event :
        IsHead table v.org_id
        → chain_of v.org_id (record_event c table v now).1 ≡ chain_of v.org_id table ++ new_row ∷ []
    unfolding chain_of
    chain-record_event h = rw rows-record_event (
        sort_up-append_last (λ e. e.seq) (rows_of v.org_id table) new_row
          (new_row_is_last _ (rows_of v.org_id table) h.bounds))

    -- Where JSON that was written reads back, a log whose org verifies still verifies after a new
    -- event of the org is recorded, with one row more, and the new row's number and hash at its head.
    pub record_event-verifies :
        JsonRoundTrip
        → (verify_chain c table v.org_id).ok ≡ true
        → ((verify_chain c (record_event c table v now).1 v.org_id).ok ≡ true)
          × ((verify_chain c (record_event c table v now).1 v.org_id).total
              ≡ (verify_chain c table v.org_id).total + 1)
          × ((verify_chain c (record_event c table v now).1 v.org_id).head_seq
              ≡ some (record_event c table v now).0.seq)
          × ((verify_chain c (record_event c table v now).1 v.org_id).head_hash
              ≡ some (record_event c table v now).0.entry_hash)
    unfolding verify_chain record_event
    record_event-verifies law verified =
        let k = (verify_chain-IsChain c table v.org_id).0 verified in
        let h = IsHead-of_chain table v.org_id k in
        let chain = chain-record_event h in
        let rows = chain_of v.org_id table in
        (
          (verify_chain-IsChain c (record_event c table v now).1 v.org_id).1 (
              rw chain (
                IsChain-append genesis_hash 1 rows new_row k (omega (arith, h.counts)) h.links
                  (new_row-IsSealed law))),
          total-report _ _
              ∙ ap length chain
              ∙ length-append rows (new_row ∷ [])
              ∙ ap (λ n. n + 1) (sym (total-report rows _)),
          rw chain (head_seq-report rows new_row _),
          rw chain (head_hash-report rows new_row _),
        )

    -- Recording an event of one org changes no report of `verify_chain` on another.
    pub record_event_other :
        (org : ℕ)
        → org ≢ v.org_id
        → verify_chain c (record_event c table v now).1 org ≡ verify_chain c table org
    unfolding verify_chain chain_of rows_of record_event
    record_event_other org ne =
        rw (keep-append_one (λ e. e.org_id == org) table new_row, other) refl
      where
        other : (v.org_id == org) ≡ false
        other = ground arith
