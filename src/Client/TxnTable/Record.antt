-- ===== src/Client/TxnTable/Record.antt =====
-- The values of a transaction's record in client/src/txn_table.rs, and how they are read back.
use sekv.Prelude.{
  ℕ, ◌≡◌, refl, ◌∙◌, ◌<◌, Bool, true, false, Option, none, some, List, [], ◌∷◌, ◌++◌, if◌then◌else◌,
  map,
}
use sekv.Prelude.Bytes.{Bytes, eq_bytes, eq_bytes_refl, to_be_bytes}
use sekv.Api.{Value, ValueSet, TxnState, running, aborted, committed}
use sekv.Rock.Num.{decode_u64, decode_u64-to_be_bytes, u64_mod}
use sekv.Schema.TxnKeys.{txn_state_key, txn_heartbeat_key, txn_commit_key, heartbeat-commit}
use sekv.Client.Error.{ClientResult, ok, err, ◌>>=◌, ok_or, internal}

pub record TxnRecord : Type 0 where
  pub start_version : ℕ
  pub state : TxnState
  pub heartbeat : ℕ
  pub commit_version : Option ℕ

-- `TxnState::as_str_name`, of the generated code: the name in the .proto file
unfoldable pub as_str_name : TxnState → Bytes
as_str_name running = b'R' ∷ b'U' ∷ b'N' ∷ b'N' ∷ b'I' ∷ b'N' ∷ b'G' ∷ []
as_str_name aborted = b'A' ∷ b'B' ∷ b'O' ∷ b'R' ∷ b'T' ∷ b'E' ∷ b'D' ∷ []
as_str_name committed = b'C' ∷ b'O' ∷ b'M' ∷ b'M' ∷ b'I' ∷ b'T' ∷ b'T' ∷ b'E' ∷ b'D' ∷ []

-- `TxnState::from_str_name`
unfoldable pub from_str_name : Bytes → Option TxnState
unfolding as_str_name
from_str_name name =
    if eq_bytes name (as_str_name running)
    then some running
    else if eq_bytes name (as_str_name aborted)
    then some aborted
    else if eq_bytes name (as_str_name committed)
    then some committed
    else none

unfoldable pub txn_state_value : TxnState → Bytes
txn_state_value state = as_str_name state

unfoldable pub txn_u64_value : ℕ → Bytes
txn_u64_value val = to_be_bytes 8 val

unfoldable pub parse_u64 : Bytes → ClientResult ℕ
parse_u64 bytes = ok_or (decode_u64 bytes) internal

-- No name of a state is other than UTF-8, so that bytes which are not UTF-8 are no name.
unfoldable pub parse_txn_state : Bytes → ClientResult TxnState
parse_txn_state bytes = ok_or (from_str_name bytes) internal

abbrev first_content : List Value → Option Bytes
first_content [] = none
first_content (v ∷ values) = v.content

unfoldable pub parse_txn_value : {A : Type 0} → ValueSet → (Bytes → ClientResult A) → ClientResult A
parse_txn_value value_set parser = ok_or (first_content value_set.values) internal >>= parser

-- What the iterator is left with is returned too.
unfoldable pub parse_next_txn_key :
    {A : Type 0}
    → List ValueSet
    → Bytes
    → (Bytes → ClientResult A)
    → ClientResult (A × List ValueSet)
parse_next_txn_key [] key parser = err internal
parse_next_txn_key (value_set ∷ it) key parser =
    if eq_bytes value_set.user_key key
    then (parse_txn_value value_set parser >>= λ a. ok (a, it))
    else err internal

-- the commit version, if the iterator begins with it
unfoldable pub parse_commit :
    ℕ → ℕ → ValueSet → List ValueSet → ClientResult (Option ℕ × List ValueSet)
parse_commit hash_tag start_version value_set it =
    if eq_bytes value_set.user_key (txn_commit_key hash_tag start_version)
    then (parse_txn_value value_set parse_u64 >>= λ v. ok (some v, it))
    else ok (none, value_set ∷ it)

abbrev all_consumed : List ValueSet → TxnRecord → ClientResult (Option TxnRecord)
all_consumed [] r = ok (some r)
all_consumed (v ∷ it) r = err internal

unfoldable pub parse_txn_record : ℕ → ℕ → List ValueSet → ClientResult (Option TxnRecord)
parse_txn_record hash_tag start_version [] = ok none
parse_txn_record hash_tag start_version (value_set ∷ it) = do
  commit ← parse_commit hash_tag start_version value_set it
  heartbeat ← parse_next_txn_key commit.1 (txn_heartbeat_key hash_tag start_version) parse_u64
  state ← parse_next_txn_key heartbeat.1 (txn_state_key hash_tag start_version) parse_txn_state
  all_consumed state.1 (record {
    start_version = start_version;
    state = state.0;
    heartbeat = heartbeat.0;
    commit_version = commit.0;
  })

pub parse_txn_state-txn_state_value :
    (state : TxnState) → parse_txn_state (txn_state_value state) ≡ ok state
unfolding parse_txn_state txn_state_value from_str_name as_str_name eq_bytes sekv.Prelude.Bytes.cmp
parse_txn_state-txn_state_value running = refl
parse_txn_state-txn_state_value aborted = refl
parse_txn_state-txn_state_value committed = refl

parse_u64-txn_u64_value : (n : ℕ) → n < u64_mod → parse_u64 (txn_u64_value n) ≡ ok n
unfolding parse_u64 txn_u64_value
parse_u64-txn_u64_value n h = rw (decode_u64-to_be_bytes n h) refl

-- one version of a key, as a scan returns it
abbrev pub value_set : Bytes → Bytes → ℕ → ValueSet
value_set key content version = record {
  user_key = key;
  values = record { content = some content; version = version } ∷ [];
}

abbrev pub commit_set : ℕ → ℕ → Option ℕ → ℕ → List ValueSet
commit_set hash_tag start_version none version = []
commit_set hash_tag start_version (some commit_version) version =
    value_set (txn_commit_key hash_tag start_version) (txn_u64_value commit_version) version ∷ []

abbrev Fits : Option ℕ → Type 0
Fits none = Unit
Fits (some n) = n < u64_mod

-- The values of a transaction's record that a scan returns in the order of their keys: the commit version, if
-- there is one, the heartbeat and the state.
abbrev pub value_sets : ℕ → TxnRecord → ℕ → List ValueSet
value_sets hash_tag r version =
    commit_set hash_tag r.start_version r.commit_version version
    ++ value_set (txn_heartbeat_key hash_tag r.start_version) (txn_u64_value r.heartbeat) version
      ∷ value_set (txn_state_key hash_tag r.start_version) (txn_state_value r.state) version
      ∷ []

module _ (hash_tag version : ℕ) where
  record_read :
      (t : ℕ) (state : TxnState) (heartbeat : ℕ) (commit : Option ℕ)
      → heartbeat < u64_mod
      → Fits commit
      → let r : TxnRecord = record {
        start_version = t;
        state = state;
        heartbeat = heartbeat;
        commit_version = commit;
      } in
        parse_txn_record hash_tag t (value_sets hash_tag r version) ≡ ok (some r)
  unfolding parse_txn_record parse_commit parse_next_txn_key parse_txn_value
  record_read t state heartbeat none h f = simp (
    heartbeat-commit hash_tag t,
    eq_bytes_refl (txn_heartbeat_key hash_tag t),
    eq_bytes_refl (txn_state_key hash_tag t),
    parse_u64-txn_u64_value heartbeat h,
    parse_txn_state-txn_state_value state,
  )
  record_read t state heartbeat (some c) h f = simp (
    eq_bytes_refl (txn_commit_key hash_tag t),
    eq_bytes_refl (txn_heartbeat_key hash_tag t),
    eq_bytes_refl (txn_state_key hash_tag t),
    parse_u64-txn_u64_value heartbeat h,
    parse_u64-txn_u64_value c f,
    parse_txn_state-txn_state_value state,
  )

-- The values of a transaction's record, in the formats of `txn_u64_value` and `txn_state_value` and in the order
-- of their keys, are read back as that record, if its heartbeat and its commit version are 64 bit words.
pub parse_txn_record-value_sets :
    (hash_tag : ℕ) (r : TxnRecord) (version : ℕ)
    → r.heartbeat < u64_mod
    → Fits r.commit_version
    → parse_txn_record hash_tag r.start_version (value_sets hash_tag r version) ≡ ok (some r)
parse_txn_record-value_sets hash_tag r version h f =
    record_read hash_tag version r.start_version r.state r.heartbeat r.commit_version h f
