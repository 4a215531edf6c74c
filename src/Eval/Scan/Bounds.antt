-- ===== src/Eval/Scan/Bounds.antt =====
-- What a scan returns is visible to its reader and within its limit.
use sekv.Prelude.{
  ℕ, zero, suc, ◌≤◌, ◌≢◌, Bool, Bool-cases, inl, inr, true, false, not, ◌&&◌, Option, none, some,
  List, [], arith, All, All-append, ltb, ◌==◌, if◌then◌else◌,
}
use sekv.Prelude.Bytes.{Bytes}
use sekv.Api.{Value, ValueSet, IntentCodec, ShardScanRequest}
use sekv.Result.{Error, invalid_data, decode_error, Result, ok, err, ◌>>=◌, ok_or}
use sekv.Engine.Entry.{MvccEntry, entry_version, entry_value}
use sekv.Engine.Snapshot.{Snapshot, next_mvcc_entry}
use sekv.Eval.Get.{txn_intent_version, Resolve}
use sekv.Eval.Scan.{
  resolve_txn, read_version, version_round, entry_round, scan_entries, push_version,
  is_exclude_boundary,
}

-- The version is not newer than the reader.
abbrev pub IsVisible : ℕ → Value → Type 0
IsVisible start_version v = v.version ≤ start_version

-- A value set of a scan: it has a value, and all are visible.
abbrev pub IsVisibleSet : ℕ → ValueSet → Type 0
IsVisibleSet start_version set = (set.values ≢ []) × All (IsVisible start_version) set.values

pub if_intro {ℓ κ} :
    {A : Type ℓ} (P : A → Type κ) (b : Bool) (x y : A) → P x → P y → P (if b then x else y)
if_intro P true x y h k = h
if_intro P false x y h k = k

pub bind_intro {ℓ κ} :
    {A : Type ℓ} {B : Type κ} (P : Result B → Type 0) (r : Result A) (f : A → Result B)
    → ((e : Error) → P (err e))
    → ((a : A) → P (f a))
    → P (r >>= f)
bind_intro P (err e) f h k = h e
bind_intro P (ok a) f h k = k a

module _ (codec : IntentCodec) (resolve : Resolve) (req : ShardScanRequest) where
  abbrev VersionFits : Result (Option (Option Bytes × ℕ)) → Type 0
  VersionFits (err e) = Unit
  VersionFits (ok none) = Unit
  VersionFits (ok (some version)) = version.1 ≤ req.start_version

  -- a version that the test on the reader lets through
  not_newer-VersionFits :
      (n : ℕ) (r : Result (Option (Option Bytes × ℕ)))
      → (n ≤ req.start_version → VersionFits r)
      → VersionFits (if ltb req.start_version n then ok none else r)
  not_newer-VersionFits n r h = elim (Bool-cases (ltb req.start_version n)) [
    | inl e ↦ rw e tt
    | inr e ↦ rw e (h (ground arith))
  ]

  resolved-VersionFits :
      (o : Option Value)
      → VersionFits (elim o as (λ _. Result (Option (Option Bytes × ℕ))) [
        | none ↦ ok none
        | some v ↦
            ok (if ltb req.start_version v.version then none else some (v.content, v.version))
      ])
  resolved-VersionFits none = tt
  resolved-VersionFits (some v) = elim (Bool-cases (ltb req.start_version v.version)) [
    | inl e ↦ rw e tt
    | inr e ↦ rw e (ground arith)
  ]

  resolve_txn-VersionFits :
      (user_key encoded : Bytes) → VersionFits (resolve_txn codec resolve req user_key encoded)
  unfolding resolve_txn
  resolve_txn-VersionFits user_key encoded =
      bind_intro VersionFits (ok_or (codec.decode encoded) decode_error) _ (λ e. tt)
        (λ intent. if_intro VersionFits (ltb req.start_version intent.start_version) _ _ tt (
          bind_intro VersionFits
            (resolve req.shard_id user_key req.start_version intent.start_version) _ (λ e. tt)
            resolved-VersionFits))

  read_version-VersionFits :
      (entry : MvccEntry) → VersionFits (read_version codec resolve req entry)
  unfolding read_version
  read_version-VersionFits entry =
      if_intro VersionFits (entry_version entry == txn_intent_version && not req.ignore_txn_intent)
        _ _
        (bind_intro VersionFits (entry_value entry) _ (λ e. tt)
          (λ content.
            bind_intro VersionFits (ok_or content invalid_data) _ (λ e. tt)
              (resolve_txn-VersionFits entry.user_key)))
        (not_newer-VersionFits (entry_version entry) _
          (λ h. bind_intro VersionFits (entry_value entry) _ (λ e. tt) (λ v. h)))

  abbrev pub EntriesFit : Result (Option (List Value × ℕ) × Snapshot) → Type 0
  EntriesFit (err e) = Unit
  EntriesFit (ok (none, s)) = Unit
  EntriesFit (ok (some (values, total_bytes), s)) = All (IsVisible req.start_version) values

  push_version-fits :
      (values : List Value) (total_bytes : ℕ) (version : Option Bytes × ℕ)
      → version.1 ≤ req.start_version
      → All (IsVisible req.start_version) values
      → All
          (IsVisible req.start_version)
          (push_version req.include_raw_data values total_bytes version).0
  push_version-fits values total_bytes (some value, n) h a = All-append _ values _ a (h, tt)
  push_version-fits values total_bytes (none, n) h a = elim (Bool-cases req.include_raw_data) [
    | inl e ↦ rw e (All-append _ values _ a (h, tt))
    | inr e ↦ rw e a
  ]

  version_round-fits :
      (continue : List Value → ℕ → Result (Option (List Value × ℕ) × Snapshot)) (s : Snapshot)
      (values : List Value) (total_bytes : ℕ)
      → ((vs : List Value) (n : ℕ)
          → All (IsVisible req.start_version) vs
          → EntriesFit (continue vs n))
      → All (IsVisible req.start_version) values
      → (r : Result (Option (Option Bytes × ℕ))) → VersionFits r
      → EntriesFit (version_round codec resolve req continue s values total_bytes r)
  unfolding version_round
  version_round-fits continue s values total_bytes k a (err e) h = tt
  version_round-fits continue s values total_bytes k a (ok none) h = k values total_bytes a
  version_round-fits continue s values total_bytes k a (ok (some version)) h =
      elim (Bool-cases req.include_raw_data) [
        | inl e ↦ rw e (k _ _ (rw (← e) (push_version-fits values total_bytes version h a)))
        | inr e ↦ rw e (rw (← e) (push_version-fits values total_bytes version h a))
      ]

  entry_round-fits :
      (continue : List Value → ℕ → Result (Option (List Value × ℕ) × Snapshot))
      (values : List Value) (total_bytes : ℕ)
      → ((vs : List Value) (n : ℕ)
          → All (IsVisible req.start_version) vs
          → EntriesFit (continue vs n))
      → All (IsVisible req.start_version) values
      → (r : Option (Result MvccEntry)) (s : Snapshot)
      → EntriesFit (entry_round codec resolve req continue (r, s) values total_bytes)
  unfolding entry_round
  entry_round-fits continue values total_bytes k a none s = a
  entry_round-fits continue values total_bytes k a (some (err e)) s = tt
  entry_round-fits continue values total_bytes k a (some (ok entry)) s =
      if_intro EntriesFit (is_exclude_boundary req entry.user_key) _ _ tt (
        version_round-fits continue s values total_bytes k a (read_version codec resolve req entry)
          (read_version-VersionFits entry))

  pub scan_entries-fits :
      (fuel : ℕ) (s : Snapshot) (values : List Value) (total_bytes : ℕ)
      → All (IsVisible req.start_version) values
      → EntriesFit (scan_entries codec resolve req fuel s values total_bytes)
  unfolding scan_entries
  scan_entries-fits zero s values total_bytes a = a
  scan_entries-fits (suc fuel) s values total_bytes a =
      entry_round-fits (λ vs n. scan_entries codec resolve req fuel (next_mvcc_entry s).1 vs n)
        values total_bytes (λ vs n b. scan_entries-fits fuel (next_mvcc_entry s).1 vs n b) a
        (next_mvcc_entry s).0 (next_mvcc_entry s).1
