-- ===== src/Schema/TxnKeys.antt =====
-- schema/src/system/keys.rs: the keys of a transaction's record in the table of transactions. Characters are
-- ASCII bytes, versions 64 bit words.
use sekv.Prelude.{
  ℕ, ◌<◌, ◌≡◌, refl, ◌≢◌, ap, sym, ◌∙◌, false, inl, inr, [], ◌∷◌, ◌++◌, take, drop,
  take_append_left, Bool-cases,
}
use sekv.Rock.Num.{u64_mod}
use sekv.Prelude.Bytes.{
  Bytes, eq_bytes, eq_bytes_iff, to_be_bytes, length-to_be_bytes, from_be_bytes,
  from_be_bytes-to_be_bytes, cmp, cmp_append_left,
}

abbrev pub txn_prefix_bytes : Bytes
txn_prefix_bytes = b't' ∷ b'x' ∷ b'n' ∷ b'_' ∷ []

abbrev pub txn_suffix_state : Bytes
txn_suffix_state = b's' ∷ b't' ∷ b'a' ∷ b't' ∷ b'e' ∷ []

abbrev pub txn_suffix_heartbeat : Bytes
txn_suffix_heartbeat = b'h' ∷ b'b' ∷ []

abbrev pub txn_suffix_commit : Bytes
txn_suffix_commit = b'c' ∷ b'o' ∷ b'm' ∷ b'm' ∷ b'i' ∷ b't' ∷ []

unfoldable pub txn_lower_key : ℕ → Bytes
txn_lower_key hash_tag = txn_prefix_bytes ++ hash_tag ∷ []

unfoldable pub txn_prefix : ℕ → ℕ → Bytes
txn_prefix hash_tag txn_id = txn_lower_key hash_tag ++ to_be_bytes 8 txn_id

unfoldable pub txn_state_key : ℕ → ℕ → Bytes
txn_state_key hash_tag txn_id = txn_prefix hash_tag txn_id ++ txn_suffix_state

unfoldable pub txn_heartbeat_key : ℕ → ℕ → Bytes
txn_heartbeat_key hash_tag txn_id = txn_prefix hash_tag txn_id ++ txn_suffix_heartbeat

unfoldable pub txn_commit_key : ℕ → ℕ → Bytes
txn_commit_key hash_tag txn_id = txn_prefix hash_tag txn_id ++ txn_suffix_commit

eq_bytes_append_left : (p a b : Bytes) → eq_bytes (p ++ a) (p ++ b) ≡ eq_bytes a b
unfolding eq_bytes
eq_bytes_append_left p a b = rw (eq_bytes, cmp_append_left p a b) refl

-- The keys of one transaction differ.
module _ (h t : ℕ) where
  pub heartbeat-state : eq_bytes (txn_heartbeat_key h t) (txn_state_key h t) ≡ false
  unfolding txn_heartbeat_key txn_state_key eq_bytes cmp
  heartbeat-state = eq_bytes_append_left (txn_prefix h t) txn_suffix_heartbeat txn_suffix_state

  pub commit-state : eq_bytes (txn_commit_key h t) (txn_state_key h t) ≡ false
  unfolding txn_commit_key txn_state_key eq_bytes cmp
  commit-state = eq_bytes_append_left (txn_prefix h t) txn_suffix_commit txn_suffix_state

  pub heartbeat-commit : eq_bytes (txn_heartbeat_key h t) (txn_commit_key h t) ≡ false
  unfolding txn_heartbeat_key txn_commit_key eq_bytes cmp
  heartbeat-commit = eq_bytes_append_left (txn_prefix h t) txn_suffix_heartbeat txn_suffix_commit

  pub state-heartbeat : eq_bytes (txn_state_key h t) (txn_heartbeat_key h t) ≡ false
  unfolding txn_heartbeat_key txn_state_key eq_bytes cmp
  state-heartbeat = eq_bytes_append_left (txn_prefix h t) txn_suffix_state txn_suffix_heartbeat

  pub state-commit : eq_bytes (txn_state_key h t) (txn_commit_key h t) ≡ false
  unfolding txn_state_key txn_commit_key eq_bytes cmp
  state-commit = eq_bytes_append_left (txn_prefix h t) txn_suffix_state txn_suffix_commit

  pub commit-heartbeat : eq_bytes (txn_commit_key h t) (txn_heartbeat_key h t) ≡ false
  unfolding txn_commit_key txn_heartbeat_key eq_bytes cmp
  commit-heartbeat = eq_bytes_append_left (txn_prefix h t) txn_suffix_commit txn_suffix_heartbeat

-- the bytes of a key that hold the version
abbrev id_part : Bytes → Bytes
id_part key = take 8 (drop 5 key)

id_part-txn_prefix :
    (h t : ℕ) (suffix : Bytes) → id_part (txn_prefix h t ++ suffix) ≡ to_be_bytes 8 t
unfolding txn_prefix txn_lower_key
id_part-txn_prefix h t suffix = take_append_left (to_be_bytes 8 t) suffix 8 (length-to_be_bytes 8 t)

-- No key of a transaction is a key of another.
txn_prefix_differ :
    (h k t u : ℕ) (a b : Bytes)
    → t ≢ u
    → t < u64_mod
    → u < u64_mod
    → eq_bytes (txn_prefix h t ++ a) (txn_prefix k u ++ b) ≡ false
txn_prefix_differ h k t u a b n l m =
    elim (Bool-cases (eq_bytes (txn_prefix h t ++ a) (txn_prefix k u ++ b))) [
      | inl e ↦
          let same : txn_prefix h t ++ a ≡ txn_prefix k u ++ b =
            (eq_bytes_iff (txn_prefix h t ++ a) (txn_prefix k u ++ b)).0 e in
          let ids : to_be_bytes 8 t ≡ to_be_bytes 8 u =
            sym (id_part-txn_prefix h t a) ∙ ap id_part same ∙ id_part-txn_prefix k u b in
          absurd (
            n (
              sym (from_be_bytes-to_be_bytes 8 t l)
              ∙ ap from_be_bytes ids
              ∙ from_be_bytes-to_be_bytes 8 u m))
      | inr e ↦ e
    ]
