-- ===== src/Eval/Scan/Limits.antt =====
-- The response of a scan: its value sets, visible to the reader, and its limit.
use sekv.Prelude.{
  ℕ, zero, suc, ◌+◌, ◌≤◌, ◌<◌, ◌≡◌, refl, Bool, Bool-cases, ◌⊎◌, inl, inr, true, false, Option,
  none, some, List, [], ◌∷◌, ◌++◌, arith, All, All-append, length, length-append, ◌==◌,
  if◌then◌else◌,
}
use sekv.Prelude.Bytes.{Bytes}
use sekv.Api.{Value, ValueSet, IntentCodec, ExecCtx, ShardScanRequest, ShardScanResponse}
use sekv.Result.{Result, ok, err, panicked, forward, ◌>>=◌, ok_or}
use sekv.Engine.Snapshot.{Snapshot, next_mvcc_iterator}
use sekv.Engine.Group.{GroupEngine, snapshot}
use sekv.Eval.Get.{Resolve}
use sekv.Eval.Scan.{
  scan_entries, value_set_of, scan_value_set, reaches_limit, is_exceeds, set_round, key_round,
  scan_rounds, scan_inner, moving_out, scan_snapshot, scanned, mode_of, scan,
}
use sekv.Eval.Scan.Bounds.{IsVisibleSet, if_intro, bind_intro, EntriesFit, scan_entries-fits}

module _ (codec : IntentCodec) (resolve : Resolve) (req : ShardScanRequest) where
  abbrev Fits : Result (Option (List Value × ℕ) × Snapshot) → Type 0
  Fits = EntriesFit codec resolve req

  abbrev SetFits : Result (Option (ValueSet × ℕ) × Snapshot) → Type 0
  SetFits (err e) = Unit
  SetFits (ok (none, s)) = Unit
  SetFits (ok (some (set, total_bytes), s)) = IsVisibleSet req.start_version set

  value_set_of-SetFits :
      (r : Result (Option (List Value × ℕ) × Snapshot))
      → Fits r
      → SetFits (r >>= value_set_of codec resolve req)
  value_set_of-SetFits (err e) h = tt
  value_set_of-SetFits (ok (none, s)) h = tt
  value_set_of-SetFits (ok (some ([], n), s)) h = tt
  value_set_of-SetFits (ok (some (v ∷ values, n), s)) h =
      bind_intro SetFits (ok_or s.core.current_key panicked) _ (λ e. tt) (λ key. ((λ e. cc), h))

  scan_value_set-SetFits : (s : Snapshot) → SetFits (scan_value_set codec resolve req s)
  unfolding scan_value_set
  scan_value_set-SetFits s =
      value_set_of-SetFits
        (scan_entries codec resolve req (suc (suc (length s.core.db_iter))) s [] 0)
        (scan_entries-fits codec resolve req (suc (suc (length s.core.db_iter))) s [] 0 tt)

  -- The value sets are visible, and no more than the limit.
  abbrev pub ResponseFits : Result ShardScanResponse → Type 0
  ResponseFits (err e) = Unit
  ResponseFits (ok resp) =
      All (IsVisibleSet req.start_version) resp.data_sets
      × ((req.limit ≡ 0) ⊎ (length resp.data_sets ≤ req.limit))

  -- what a round that goes on keeps
  abbrev Collected : List ValueSet → Type 0
  Collected sets =
      All (IsVisibleSet req.start_version) sets × ((req.limit ≡ 0) ⊎ (length sets < req.limit))

  abbrev Continue : Type 0
  Continue = Snapshot → List ValueSet → ℕ → Result ShardScanResponse

  Collected-end :
      (sets : List ValueSet) → Collected sets → (req.limit ≡ 0) ⊎ (length sets ≤ req.limit)
  Collected-end sets (a, inl e) = inl e
  Collected-end sets (a, inr h) = inr (omega arith)

  pushed :
      (sets : List ValueSet) (set : ValueSet)
      → Collected sets
      → (req.limit ≡ 0) ⊎ (length (sets ++ set ∷ []) ≤ req.limit)
  pushed sets set (a, inl e) = inl e
  pushed sets set (a, inr h) = inr (omega (arith, length-append sets (set ∷ [])))

  below_limit :
      (sets : List ValueSet) (total_bytes : ℕ)
      → (req.limit ≡ 0) ⊎ (length sets ≤ req.limit)
      → reaches_limit codec resolve req sets total_bytes ≡ false
      → (req.limit ≡ 0) ⊎ (length sets < req.limit)
  below_limit sets total_bytes (inl e) r = inl e
  below_limit sets total_bytes (inr h) r = elim (Bool-cases (req.limit == 0)) [
    | inl z ↦ inl (ground arith)
    | inr z ↦ inr (ground arith)
  ]

  set_round-ResponseFits :
      (continue : Continue) (sets : List ValueSet) (total_bytes : ℕ)
      → ((s : Snapshot) (ss : List ValueSet) (n : ℕ)
          → Collected ss
          → ResponseFits (continue s ss n))
      → Collected sets
      → (r : Result (Option (ValueSet × ℕ) × Snapshot)) → SetFits r
      → ResponseFits (set_round codec resolve req continue sets total_bytes r)
  unfolding set_round
  set_round-ResponseFits continue sets total_bytes k c (err e) h = tt
  set_round-ResponseFits continue sets total_bytes k c (ok (none, s)) h = k s sets total_bytes c
  set_round-ResponseFits continue sets total_bytes k c (ok (some (set, n), s)) h =
      elim (Bool-cases (reaches_limit codec resolve req (sets ++ set ∷ []) (total_bytes + n))) [
        | inl e ↦ rw e (All-append _ sets (set ∷ []) c.0 (h, tt), pushed sets set c)
        | inr e ↦ rw e (
            k s (sets ++ set ∷ []) (total_bytes + n) (
              All-append _ sets (set ∷ []) c.0 (h, tt),
              below_limit (sets ++ set ∷ []) (total_bytes + n) (pushed sets set c) e,
            ))
      ]

  key_round-ResponseFits :
      (continue : Continue) (sets : List ValueSet) (total_bytes : ℕ)
      → ((s : Snapshot) (ss : List ValueSet) (n : ℕ)
          → Collected ss
          → ResponseFits (continue s ss n))
      → Collected sets
      → (r : Option (Result (Unit {0}))) (s : Snapshot)
      → ResponseFits (key_round codec resolve req continue (r, s) sets total_bytes)
  unfolding key_round
  key_round-ResponseFits continue sets total_bytes k c none s = (c.0, Collected-end sets c)
  key_round-ResponseFits continue sets total_bytes k c (some (err e)) s = tt
  key_round-ResponseFits continue sets total_bytes k c (some (ok u)) s = go s.core.current_key
    where
      go :
          (key : Option Bytes)
          → ResponseFits (elim key as (λ _. Result ShardScanResponse) [
            | none ↦ err panicked
            | some user_key ↦
                if is_exceeds req.end_key user_key
                then ok (record { data_sets = sets; has_more = false })
                else set_round codec resolve req continue sets total_bytes
                    (scan_value_set codec resolve req s)
          ])
      go none = tt
      go (some user_key) =
          if_intro ResponseFits (is_exceeds req.end_key user_key) _ _ (c.0, Collected-end sets c)
            (set_round-ResponseFits continue sets total_bytes k c
              (scan_value_set codec resolve req s) (scan_value_set-SetFits s))

  scan_rounds-ResponseFits :
      (fuel : ℕ) (s : Snapshot) (sets : List ValueSet) (total_bytes : ℕ)
      → Collected sets
      → ResponseFits (scan_rounds codec resolve req fuel s sets total_bytes)
  unfolding scan_rounds
  scan_rounds-ResponseFits zero s sets n c = (c.0, Collected-end sets c)
  scan_rounds-ResponseFits (suc fuel) s sets n c =
      key_round-ResponseFits (λ s' ss m. scan_rounds codec resolve req fuel s' ss m) sets n
        (λ s' ss m d. scan_rounds-ResponseFits fuel s' ss m d) c (next_mvcc_iterator s).0
        (next_mvcc_iterator s).1

scanned-ResponseFits :
    (codec : IntentCodec) (resolve : Resolve) (req : ShardScanRequest) (b : Bool)
    (r : Result ShardScanResponse)
    → ResponseFits codec resolve
        (if b then record req { exclude_end_key = false; exclude_start_key = false } else req)
        r
    → ResponseFits codec resolve req r
scanned-ResponseFits codec resolve req true (err e) h = tt
scanned-ResponseFits codec resolve req true (ok resp) h = h
scanned-ResponseFits codec resolve req false r h = h

module _ (codec : IntentCodec) (resolve : Resolve) (exec_ctx : ExecCtx) (engine : GroupEngine)
    (req : ShardScanRequest) where
  inner-ResponseFits :
      (r : ShardScanRequest) (s : Snapshot)
      → ResponseFits codec resolve r (scan_inner codec resolve r s)
  unfolding scan_inner
  inner-ResponseFits r s =
      scan_rounds-ResponseFits codec resolve r (suc (suc (length s.core.db_iter))) s [] 0
        (tt, none_yet r.limit)
    where
      none_yet : (limit : ℕ) → (limit ≡ 0) ⊎ (0 < limit)
      none_yet zero = inl refl
      none_yet (suc limit) = inr (omega arith)

  snapshot-ResponseFits : ResponseFits codec resolve req (scan_snapshot codec resolve engine req)
  snapshot-ResponseFits =
      bind_intro (ResponseFits codec resolve req) (snapshot engine req.shard_id (mode_of req)) _
        (λ e. tt)
        (λ s. scanned-ResponseFits codec resolve req _ _ (inner-ResponseFits (scanned req) s))

  scan-ResponseFits : ResponseFits codec resolve req (scan codec resolve exec_ctx engine req)
  unfolding scan
  scan-ResponseFits =
      if_intro (ResponseFits codec resolve req) req.allow_scan_moving_shard _ _
        snapshot-ResponseFits
        (bind_intro (ResponseFits codec resolve req) (moving_out exec_ctx req) _ (λ e. tt)
          forwarded)
    where
      forwarded :
          (moving : Option ℕ)
          → ResponseFits codec resolve req (elim moving as (λ _. Result ShardScanResponse) [
            | none ↦ scan_snapshot codec resolve engine req
            | some dest_group_id ↦ err (
                forward (record {
                  shard_id = req.shard_id;
                  dest_group_id = dest_group_id;
                  payloads = [];
                }))
          ])
      forwarded none = snapshot-ResponseFits
      forwarded (some dest_group_id) = tt

  -- A response of `scan`, of any column family and whatever intents resolve to: each value set has a value,
  -- no version in it is newer than the reader, and there are no more value sets than the limit, where the
  -- request has one.
  pub scan-IsVisible :
      (resp : ShardScanResponse)
      → scan codec resolve exec_ctx engine req ≡ ok resp
      → All (IsVisibleSet req.start_version) resp.data_sets
        × ((req.limit ≡ 0) ⊎ (length resp.data_sets ≤ req.limit))
  scan-IsVisible resp h = go (scan codec resolve exec_ctx engine req) h scan-ResponseFits
    where
      go :
          (r : Result ShardScanResponse)
          → r ≡ ok resp
          → ResponseFits codec resolve req r
          → All (IsVisibleSet req.start_version) resp.data_sets
            × ((req.limit ≡ 0) ⊎ (length resp.data_sets ≤ req.limit))
      go (err e) p f = cc
      go (ok resp') p f = let same : resp' ≡ resp = cc in rw (← same) f
