-- ===== src/Audit/Tamper.antt =====
-- Two histories of one org, as `verify_chain` of src/claudestruct/server/audit.py reports them.
use Prim.Native.String.{count}
use text.Mathlib.TextLemmas.{append_inj}
use claude_struct.Prelude.{
  ℕ, ◌+◌, ◌≡◌, ◌≢◌, refl, sym, ap, ap₂, ◌∙◌, true, Bool-cases, inl, inr, ◌⊎◌, String, Option, none,
  some, List, [], ◌∷◌, map, str_eq, eq_iff, arith, length, In,
}
use claude_struct.Calendar.{DateTime}
use claude_struct.Audit.{
  Codec, Event, AuditEntry, genesis_hash, chain_of, last_row, BrokenReason, report, blob, event_of,
  compute_entry_hash, verify_chain,
}
use claude_struct.Audit.Verify.{IsSealed, IsChain, verify_chain-IsChain, last_row-some}
use claude_struct.Audit.Append.{end_hash, total-report}

module _ {Payload : Type 0} (c : Codec Payload) where
  abbrev blob_of : AuditEntry → Option Payload → String
  blob_of e none = ""
  blob_of e (some p) = blob c e.prev_hash (event_of c e p) e.created_at

  -- The text that a row's hash is taken of.
  abbrev pub row_blob : AuditEntry → String
  row_blob e = blob_of e (c.loads e.payload_json)

  -- The rows of two histories, each with the one at the same place in the other.
  abbrev pub side_by_side : List AuditEntry → List AuditEntry → List (AuditEntry × AuditEntry)
  side_by_side [] ys = []
  side_by_side (x ∷ xs) [] = []
  side_by_side (x ∷ xs) (y ∷ ys) = (x, y) ∷ side_by_side xs ys

  -- Two rows at the same place whose texts differ and have the same hash.
  pub record Collision (xs ys : List AuditEntry) : Type 0 where
    pub left : AuditEntry
    pub right : AuditEntry
    pub placed : In (left, right) (side_by_side xs ys)
    pub differ : row_blob left ≢ row_blob right
    pub collide : c.sha256_hex (row_blob left) ≡ c.sha256_hex (row_blob right)

  further :
      (x y : AuditEntry) (xs ys : List AuditEntry) → Collision xs ys → Collision (x ∷ xs) (y ∷ ys)
  further x y xs ys col = record {
    left = col.left;
    right = col.right;
    placed = inr col.placed;
    differ = col.differ;
    collide = col.collide;
  }

  hashed_blob : (e : AuditEntry) → IsSealed c e → c.sha256_hex (row_blob e) ≡ e.entry_hash
  hashed_blob e s = rw s.readable (unfold compute_entry_hash in s.hashed)

  blob_link :
      (p q : String) (v w : Event Payload) (a b : DateTime)
      → count p ≡ count q
      → blob c p v a ≡ blob c q w b
      → p ≡ q
  unfolding blob
  blob_link p q v w a b n e = (append_inj e n).0

  -- The head hash of a log, if it has a row.
  abbrev chain_head : List AuditEntry → Option String
  chain_head [] = none
  chain_head (e ∷ es) = some (end_hash e.entry_hash es)

  last_row-chain_head :
      (e l : AuditEntry) (es : List AuditEntry)
      → last_row (e ∷ es) ≡ some l
      → l.entry_hash ≡ end_hash e.entry_hash es
  last_row-chain_head e l [] h = ground arith
  last_row-chain_head e l (x ∷ es) h = last_row-chain_head x l es h

  head_hash-report :
      (rows : List AuditEntry) (w : Option (ℕ × BrokenReason))
      → (report c rows (last_row rows) w).head_hash ≡ chain_head rows
  head_hash-report [] w = refl
  head_hash-report (e ∷ es) none =
      let (l, is) = last_row-some c e es in rw is (ap some (last_row-chain_head e l es is))
  head_hash-report (e ∷ es) (some (seq, why)) =
      let (l, is) = last_row-some c e es in rw is (ap some (last_row-chain_head e l es is))

  head_eq :
      (prev : String) (xs ys : List AuditEntry)
      → length xs ≡ length ys
      → chain_head xs ≡ chain_head ys
      → end_hash prev xs ≡ end_hash prev ys
  head_eq prev [] [] n e = refl
  head_eq prev [] (y ∷ ys) n e = absurd (omega arith)
  head_eq prev (x ∷ xs) [] n e = absurd (omega arith)
  head_eq prev (x ∷ xs) (y ∷ ys) n e = cc

  genesis_length : count genesis_hash ≡ 64
  unfolding genesis_hash
  genesis_length = refl

  module _ (hex_length : (s : String) → count (c.sha256_hex s) ≡ 64) where
    link_length : (e : AuditEntry) → IsSealed c e → count e.entry_hash ≡ 64
    link_length e s = rw (← hashed_blob e s) (hex_length (row_blob e))

    same_link :
        (x y : AuditEntry)
        → IsSealed c x
        → IsSealed c y
        → count x.prev_hash ≡ count y.prev_hash
        → row_blob x ≡ row_blob y
        → x.prev_hash ≡ y.prev_hash
    same_link x y s t n e =
        blob_link _ _ (event_of c x s.payload) (event_of c y t.payload) x.created_at y.created_at n
          (rw (s.readable, t.readable) at e)

    compare_rows :
        (x y : AuditEntry) (xs ys : List AuditEntry)
        → IsSealed c x
        → IsSealed c y
        → x.entry_hash ≡ y.entry_hash
        → (row_blob x ≡ row_blob y) ⊎ Collision (x ∷ xs) (y ∷ ys)
    compare_rows x y xs ys s t e = elim (Bool-cases (str_eq (row_blob x) (row_blob y))) [
      | inl same ↦ inl ((eq_iff _ _).0 same)
      | inr other ↦ inr (record {
        left = x;
        right = y;
        placed = inl refl;
        differ = λ p. cc ((eq_iff (row_blob x) (row_blob y)).1 p);
        collide = hashed_blob x s ∙ e ∙ sym (hashed_blob y t);
      })
    ]

    rows_agree :
        (prev prev' : String) (seq : ℕ) (xs ys : List AuditEntry)
        → IsChain c prev seq xs
        → IsChain c prev' seq ys
        → length xs ≡ length ys
        → count prev ≡ 64
        → count prev' ≡ 64
        → end_hash prev xs ≡ end_hash prev' ys
        → ((prev ≡ prev') × (map row_blob xs ≡ map row_blob ys)) ⊎ Collision xs ys
    rows_agree prev prev' seq [] [] k l n p q e = inl (e, refl)
    rows_agree prev prev' seq [] (y ∷ ys) k l n p q e = absurd (omega arith)
    rows_agree prev prev' seq (x ∷ xs) [] k l n p q e = absurd (omega arith)
    rows_agree prev prev' seq (x ∷ xs) (y ∷ ys) (_, xp, xs_ok, k) (_, yp, ys_ok, l) n p q e = join (
        rows_agree x.entry_hash y.entry_hash (seq + 1) xs ys k l (omega arith) (link_length x xs_ok)
          (link_length y ys_ok) e)
      where
        settled :
            map row_blob xs ≡ map row_blob ys
            → (row_blob x ≡ row_blob y) ⊎ Collision (x ∷ xs) (y ∷ ys)
            → ((prev ≡ prev') × (map row_blob (x ∷ xs) ≡ map row_blob (y ∷ ys)))
              ⊎ Collision (x ∷ xs) (y ∷ ys)
        settled rest (inr col) = inr col
        settled rest (inl b) = inl (
          sym xp ∙ same_link x y xs_ok ys_ok (ap count xp ∙ p ∙ sym (ap count yp ∙ q)) b ∙ yp,
          ap₂ ◌∷◌ b rest,
        )

        join :
            ((x.entry_hash ≡ y.entry_hash) × (map row_blob xs ≡ map row_blob ys)) ⊎ Collision xs ys
            → ((prev ≡ prev') × (map row_blob (x ∷ xs) ≡ map row_blob (y ∷ ys)))
              ⊎ Collision (x ∷ xs) (y ∷ ys)
        join (inr col) = inr (further x y xs ys col)
        join (inl (h, rest)) = settled rest (compare_rows x y xs ys xs_ok ys_ok h)

    -- For SHA-256 texts of 64 characters: if two logs verify for an org with the same number of
    -- rows and the same head hash, then the rows of both, in order, are hashed from the same texts,
    -- or two rows at the same place in both have different texts with the same hash.
    pub tamper_evident :
        (before after : List AuditEntry) (org : ℕ)
        → (verify_chain c before org).ok ≡ true
        → (verify_chain c after org).ok ≡ true
        → (verify_chain c before org).total ≡ (verify_chain c after org).total
        → (verify_chain c before org).head_hash ≡ (verify_chain c after org).head_hash
        → (map row_blob (chain_of org before) ≡ map row_blob (chain_of org after))
          ⊎ Collision (chain_of org before) (chain_of org after)
    unfolding verify_chain
    tamper_evident before after org h k n e =
        let xs = chain_of org before in
        let ys = chain_of org after in
        let same_length = sym (total-report c xs _) ∙ n ∙ total-report c ys _ in
        let same_head = sym (head_hash-report xs _) ∙ e ∙ head_hash-report ys _ in
        elim (rows_agree genesis_hash genesis_hash 1 xs ys ((verify_chain-IsChain c before org).0 h)
          ((verify_chain-IsChain c after org).0 k) same_length genesis_length genesis_length
          (head_eq genesis_hash xs ys same_length same_head)) [
            | inl both ↦ inl both.1
            | inr col ↦ inr col
          ]
