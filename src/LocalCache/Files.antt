-- ===== src/LocalCache/Files.antt =====
-- `get` and `put` of src/claudestruct/local_cache.py over the files of a directory.
use claude_struct.Prelude.{
  ℕ, ◌≡◌, ◌≢◌, refl, ap, ◌∙◌, Bool, true, false, not, ◌&&◌, Bool-cases, inl, inr, String, Option,
  none, some, [], ◌+◌, ◌∷◌, str_eq, eq_iff, eq_refl, if◌then◌else◌, keep, length, arith,
}
use claude_struct.Json.{Json, str, int, got, raised, lookup}
use claude_struct.LocalCache.{
  CachedResponse, FileName, entry, temporary, other, Contents, not_utf8, CacheFile, Directory,
  Services, shard_of, same_name, read_file, write_file, remove_file, response_in, written,
  response_of, get, response_text, write_temporary, replace_entry, put, is_entry, is_sound_entry,
  stats, clear,
}

-- JSON that was written reads back, and so do a text, a number of tokens and a time.
pub record IsFaithful (services : Services) : Type 0 where
  pub reads : (v : Json) → services.loads (services.dumps v) ≡ some v
  pub texts : (s : String) → services.str_of (str s) ≡ s
  pub counts : (n : ℕ) → services.int_of (int n) ≡ some n
  pub times : (n : ℕ) → services.float_of (services.number_of n) ≡ some n

same_name_refl : (n : FileName) → same_name n n ≡ true
same_name_refl (entry a) = eq_refl a
same_name_refl (temporary a) = eq_refl a
same_name_refl (other a) = eq_refl a

same_name-eq : (a b : FileName) → same_name a b ≡ true → a ≡ b
same_name-eq (entry a) (entry b) h = ap entry ((eq_iff a b).0 h)
same_name-eq (temporary a) (temporary b) h = ap temporary ((eq_iff a b).0 h)
same_name-eq (other a) (other b) h = ap other ((eq_iff a b).0 h)
same_name-eq (entry a) (temporary b) h = cc
same_name-eq (entry a) (other b) h = cc
same_name-eq (temporary a) (entry b) h = cc
same_name-eq (temporary a) (other b) h = cc
same_name-eq (other a) (entry b) h = cc
same_name-eq (other a) (temporary b) h = cc

and_right : (a b : Bool) → (a && b) ≡ true → b ≡ true
and_right a b h = ground arith

and_false : (a b : Bool) → b ≡ false → (a && b) ≡ false
and_false a b h = ground arith

-- Reading an entry after a write of another file.
read-write_other :
    (shard key : String) (g : CacheFile) (d : Directory)
    → same_name g.name (entry key) ≡ false
    → read_file shard (entry key) (write_file g d) ≡ read_file shard (entry key) d
unfolding read_file write_file
read-write_other shard key g [] h = ground arith
read-write_other shard key g (f ∷ fs) h =
    elim (Bool-cases (str_eq f.shard g.shard && same_name f.name g.name)) [
      | inl e ↦
          (let same : f.name ≡ g.name = same_name-eq f.name g.name (and_right _ _ e) in
            let no_g = and_false (str_eq g.shard shard) _ h in
            let named : same_name f.name (entry key) ≡ false = rw same h in
            let no_f = and_false (str_eq f.shard shard) _ named in rw (e, no_g, no_f) refl)
      | inr e ↦
          (let ih = read-write_other shard key g fs h in
            rw e (
              ap
                (λ (o : Option CacheFile).
                  if str_eq f.shard shard && same_name f.name (entry key) then some f else o)
                ih))
    ]

read-write_own :
    (g : CacheFile) (d : Directory) → read_file g.shard g.name (write_file g d) ≡ some g
unfolding read_file write_file
read-write_own g [] = rw (eq_refl g.shard, same_name_refl g.name) refl
read-write_own g (f ∷ fs) = elim (Bool-cases (str_eq f.shard g.shard && same_name f.name g.name)) [
  | inl e ↦ rw e (rw (eq_refl g.shard, same_name_refl g.name) refl)
  | inr e ↦ rw (e, e) (read-write_own g fs)
]

read-remove :
    (shard shard' key : String) (name : FileName) (d : Directory)
    → same_name name (entry key) ≡ false
    → read_file shard (entry key) (remove_file shard' name d) ≡ read_file shard (entry key) d
unfolding read_file remove_file
read-remove shard shard' key name [] h = refl
read-remove shard shard' key name (f ∷ fs) h =
    let ih = read-remove shard shard' key name fs h in
    elim (Bool-cases (str_eq f.shard shard' && same_name f.name name)) [
      | inl e ↦
          (let same : f.name ≡ name = same_name-eq f.name name (and_right _ _ e) in
            let named : same_name f.name (entry key) ≡ false = rw same h in
            let no_f = and_false (str_eq f.shard shard) _ named in rw (e, no_f) ih)
      | inr e ↦ rw e (
          ap
            (λ (o : Option CacheFile).
              if str_eq f.shard shard && same_name f.name (entry key) then some f else o)
            ih)
    ]

module _ (services : Services) (f : IsFaithful services) where
  response_in-written :
      (v : CachedResponse) → response_in services (some (written services v)) ≡ some v
  unfolding lookup
  response_in-written v =
      rw
        (
          f.counts v.input_tokens,
          f.counts v.output_tokens,
          f.counts v.cache_read_tokens,
          f.counts v.cache_creation_tokens,
          f.times v.created_at,
          f.texts v.text,
        )
        refl

  -- While an entry is written, whatever the temporary file holds, every key is answered as before;
  -- afterwards the key is answered with the response that was put, and every other key as before.
  pub get-put :
      (key : String) (v : CachedResponse) (d : Directory)
      → ((t : Contents) (j : String)
          → get services j (write_temporary services key t d) ≡ get services j d)
        × (get services key (put services key v d) ≡ got (some v))
        × ((j : String) → j ≢ key → get services j (put services key v d) ≡ get services j d)
  unfolding get put write_temporary replace_entry response_text
  get-put key v d = (
    λ t j. ap (response_of services) (read-write_other (shard_of j) j _ d refl),
    ap (response_of services) (read-write_own _ _)
        ∙ rw (f.reads _) (ap got (response_in-written v)),
    λ j other.
        let apart : str_eq key j ≡ false = ground (arith, eq_iff key j) in
        ap (response_of services) (
          read-write_other (shard_of j) j _ _ apart
          ∙ read-remove (shard_of j) (shard_of key) j (temporary key) _ refl
          ∙ read-write_other (shard_of j) j _ d refl),
  )

not_entry : (n : FileName) (key : String) → is_entry n ≡ false → same_name n (entry key) ≡ false
not_entry (entry a) key h = cc
not_entry (temporary a) key h = refl
not_entry (other a) key h = refl

-- No entry is left where none failed to be deleted.
read-cleared :
    (shard key : String) (d : Directory)
    → read_file shard (entry key) (keep (λ f. not (is_sound_entry (λ _. false) f)) d) ≡ none
unfolding read_file
read-cleared shard key [] = refl
read-cleared shard key (f ∷ fs) = elim (Bool-cases (is_sound_entry (λ _. false) f)) [
  | inl e ↦ rw e (read-cleared shard key fs)
  | inr e ↦
      (let no_entry : is_entry f.name ≡ false = ground arith in
        let no_f = and_false (str_eq f.shard shard) _ (not_entry f.name key no_entry) in
        rw (e, no_f) (read-cleared shard key fs))
]

sum_of-cleared :
    (size : CacheFile → ℕ) (d : Directory)
    → keep (is_sound_entry (λ _. false)) (keep (λ f. not (is_sound_entry (λ _. false) f)) d) ≡ []
sum_of-cleared size [] = refl
sum_of-cleared size (f ∷ fs) = ground (arith, sum_of-cleared size fs)

length-cleared :
    (p : CacheFile → Bool) (d : Directory)
    → length (keep p d) + length (keep (λ f. not (p f)) d) ≡ length d
length-cleared p [] = refl
length-cleared p (f ∷ fs) = ground (arith, length-cleared p fs)

-- Clearing counts the files that are gone, whatever cannot be deleted; and where every entry can be
-- deleted and measured, it counts as many as `stats` did, and afterwards no key is answered and
-- `stats` counts nothing.
pub clear_empties :
    (services : Services) (size : CacheFile → ℕ) (d : Directory)
    → ((fails : CacheFile → Bool) → (clear fails d).0 + length (clear fails d).1 ≡ length d)
      × ((clear (λ _. false) d).0 ≡ (stats (λ _. false) size d).entries)
      × ((key : String) → get services key (clear (λ _. false) d).1 ≡ got none)
      × (stats (λ _. false) size (clear (λ _. false) d).1 ≡ record { entries = 0; bytes = 0 })
unfolding clear stats get
clear_empties services size d = (
  λ fails. length-cleared (is_sound_entry fails) d,
  refl,
  λ key. ap (response_of services) (read-cleared (shard_of key) key d),
  rw (sum_of-cleared size d) refl,
)

-- An entry whose bytes are no UTF-8 makes reading its key raise an exception, until the key is put
-- again.
pub garbled_entry_raises :
    (services : Services) (key : String) (v : CachedResponse) (d : Directory)
    → IsFaithful services
    → let garbled =
        write_file (record { shard = shard_of key; name = entry key; contents = not_utf8 }) d in
      (get services key garbled ≡ raised)
      × (get services key (put services key v garbled) ≡ got (some v))
unfolding get
garbled_entry_raises services key v d f =
    (ap (response_of services) (read-write_own _ d), (get-put services f key v _).1)
