-- ===== src/Engine/Keys/RoundTrip.antt =====
-- Reading back the user key and the version of an mvcc key.
use sekv.Prelude.{
  ℕ, zero, suc, ◌+◌, ◌-◌, ◌≤◌, ◌≡◌, refl, ap, [], ◌∷◌, ◌++◌, arith, length, take, drop,
  length-append, length-drop, ltb, false, take_append_left, drop_append_left, take-append-drop,
}
use sekv.Prelude.Bytes.{Bytes, to_be_bytes, to_le_bytes, length-to_be_bytes, length-to_le_bytes}
use mathlib.Core.List.{append_assoc}
use sekv.Result.{ok}
use sekv.Engine.Keys.{
  u64_max, pad, group_size, encode_groups, mvcc_key, num_element, ninth, decode_groups,
  revert_mvcc_key,
}

length-pad : (n : ℕ) (key : Bytes) → length (pad n key) ≡ n
unfolding pad
length-pad zero key = refl
length-pad (suc n) [] = ap suc (length-pad n [])
length-pad (suc n) (b ∷ key) = ap suc (length-pad n key)

pad_group :
    (n : ℕ) (key rest : Bytes) (s : ℕ) → pad (suc n) (pad n key ++ s ∷ rest) ≡ pad n key ++ s ∷ []
unfolding pad
pad_group zero key rest s = refl
pad_group (suc n) [] rest s = ap (λ (t : Bytes). 0 ∷ t) (pad_group n [] rest s)
pad_group (suc n) (b ∷ key) rest s = ap (λ (t : Bytes). b ∷ t) (pad_group n key rest s)

take-pad : (n : ℕ) (key rest : Bytes) → take (length (take n key)) (pad n key ++ rest) ≡ take n key
unfolding pad
take-pad zero key rest = refl
take-pad (suc n) [] rest = refl
take-pad (suc n) (b ∷ key) rest = ap (λ (t : Bytes). b ∷ t) (take-pad n key rest)

num_element-group_size : (key : Bytes) → num_element (b'0' + group_size key) ≡ length (take 8 key)
unfolding group_size
num_element-group_size [] = refl
num_element-group_size (a ∷ []) = refl
num_element-group_size (a ∷ b ∷ []) = refl
num_element-group_size (a ∷ b ∷ c ∷ []) = refl
num_element-group_size (a ∷ b ∷ c ∷ d ∷ []) = refl
num_element-group_size (a ∷ b ∷ c ∷ d ∷ e ∷ []) = refl
num_element-group_size (a ∷ b ∷ c ∷ d ∷ e ∷ f ∷ []) = refl
num_element-group_size (a ∷ b ∷ c ∷ d ∷ e ∷ f ∷ g ∷ []) = refl
num_element-group_size (a ∷ b ∷ c ∷ d ∷ e ∷ f ∷ g ∷ h ∷ []) = refl
num_element-group_size (a ∷ b ∷ c ∷ d ∷ e ∷ f ∷ g ∷ h ∷ i ∷ key) = refl

-- The bytes that one group gives back.
group_bytes :
    (key rest : Bytes)
    → (let group = pad 9 (pad 8 key ++ (b'0' + group_size key) ∷ rest) in
        take (num_element (ninth group)) group)
      ≡ take 8 key
group_bytes key rest =
    rw
      (
        pad_group 8 key rest (b'0' + group_size key),
        drop_append_left (pad 8 key) ((b'0' + group_size key) ∷ []) 8 (length-pad 8 key),
        num_element-group_size key,
      )
      (take-pad 8 key ((b'0' + group_size key) ∷ []))

rest_bytes : (key rest : Bytes) (s : ℕ) → drop 9 (pad 8 key ++ s ∷ rest) ≡ rest
rest_bytes key rest s = rw (← append_assoc (pad 8 key) (s ∷ []) rest) (
    drop_append_left (pad 8 key ++ s ∷ []) rest 9
      (omega (arith, length-append (pad 8 key) (s ∷ []), length-pad 8 key)))

decode_groups-step :
    (f s : ℕ) (key rest : Bytes)
    → decode_groups (suc f) (pad 8 key ++ s ∷ rest)
      ≡ take (num_element (ninth (pad 9 (pad 8 key ++ s ∷ rest)))) (pad 9 (pad 8 key ++ s ∷ rest))
        ++ decode_groups f (drop 9 (pad 8 key ++ s ∷ rest))
unfolding decode_groups
decode_groups-step f s [] rest = refl
decode_groups-step f s (a ∷ key) rest = refl

encode_groups-step :
    (f a : ℕ) (key : Bytes)
    → encode_groups (suc f) (a ∷ key)
      ≡ pad 8 (a ∷ key) ++ (b'0' + group_size (a ∷ key)) ∷ encode_groups f (drop 8 (a ∷ key))
unfolding encode_groups
encode_groups-step f a key = refl

length-encode_groups :
    (f a : ℕ) (key : Bytes)
    → length (encode_groups (suc f) (a ∷ key)) ≡ 9 + length (encode_groups f (drop 8 (a ∷ key)))
length-encode_groups f a key = rw (encode_groups-step f a key) (
    omega (
      arith,
      length-append (pad 8 (a ∷ key))
          ((b'0' + group_size (a ∷ key)) ∷ encode_groups f (drop 8 (a ∷ key))),
      length-pad 8 (a ∷ key),
    ))

decode_groups-encode_groups :
    (f g : ℕ) (key : Bytes)
    → length key ≤ f
    → length (encode_groups f key) ≤ g
    → decode_groups g (encode_groups f key) ≡ key
decode_groups-encode_groups f g [] h k = unfold encode_groups decode_groups in refl
decode_groups-encode_groups zero g (a ∷ key) h k = absurd (omega arith)
decode_groups-encode_groups (suc f) zero (a ∷ key) h k =
    absurd (omega (arith, length-encode_groups f a key))
decode_groups-encode_groups (suc f) (suc g) (a ∷ key) h k =
    let fits : length (encode_groups f (drop 8 (a ∷ key))) ≤ g =
      omega (arith, length-encode_groups f a key) in
    rw
      (
        encode_groups-step f a key,
        decode_groups-step g (b'0' + group_size (a ∷ key)) (a ∷ key)
            (encode_groups f (drop 8 (a ∷ key))),
        group_bytes (a ∷ key) (encode_groups f (drop 8 (a ∷ key))),
        rest_bytes (a ∷ key) (encode_groups f (drop 8 (a ∷ key))) (b'0' + group_size (a ∷ key)),
        decode_groups-encode_groups f g (drop 8 (a ∷ key)) (omega (arith, length-drop 8 (a ∷ key)))
            fits,
      )
      (take-append-drop 8 (a ∷ key))

module _ (table_id : ℕ) (key : Bytes) (version : ℕ) where
  abbrev groups : Bytes
  groups = encode_groups (length key) key

  pub length-mvcc_key : length (mvcc_key table_id key version) ≡ 16 + length groups
  unfolding mvcc_key
  length-mvcc_key = omega (
    arith,
    length-append (to_le_bytes 8 table_id) (groups ++ to_be_bytes 8 (u64_max - version)),
    length-append groups (to_be_bytes 8 (u64_max - version)),
    length-to_le_bytes 8 table_id,
    length-to_be_bytes 8 (u64_max - version),
  )

  user_part :
      drop 8 (take (length (mvcc_key table_id key version) - 8) (mvcc_key table_id key version))
      ≡ groups
  unfolding mvcc_key
  user_part =
      let n : length (mvcc_key table_id key version) - 8 ≡ 8 + length groups =
        omega (arith, length-mvcc_key) in
      rw
        (
          n,
          mvcc_key,
          ← append_assoc (to_le_bytes 8 table_id) groups (to_be_bytes 8 (u64_max - version)),
          take_append_left (to_le_bytes 8 table_id ++ groups) (to_be_bytes 8 (u64_max - version))
              (8 + length groups)
              (omega (
                arith,
                length-append (to_le_bytes 8 table_id) groups,
                length-to_le_bytes 8 table_id,
              )),
        )
        (drop_append_left (to_le_bytes 8 table_id) groups 8 (length-to_le_bytes 8 table_id))

-- The user key comes back from the mvcc key.
pub revert_mvcc_key-mvcc_key :
    (table_id : ℕ) (key : Bytes) (version : ℕ)
    → revert_mvcc_key (mvcc_key table_id key version) ≡ ok key
unfolding revert_mvcc_key
revert_mvcc_key-mvcc_key t key v =
    let long : ltb (length (mvcc_key t key v)) 16 ≡ false =
      ground (arith, length-mvcc_key t key v) in
    rw (long, user_part t key v)
      (ap ok (
        decode_groups-encode_groups (length key) (length (groups t key v)) key (omega arith)
          (omega arith)))

-- The last eight bytes hold the complement of the version.
pub version_part :
    (table_id : ℕ) (key : Bytes) (version : ℕ)
    → drop (length (mvcc_key table_id key version) - 8) (mvcc_key table_id key version)
      ≡ to_be_bytes 8 (u64_max - version)
unfolding mvcc_key
version_part t key v =
    let n : length (mvcc_key t key v) - 8 ≡ 8 + length (groups t key v) =
      omega (arith, length-mvcc_key t key v) in
    rw
      (n, mvcc_key, ← append_assoc (to_le_bytes 8 t) (groups t key v) (to_be_bytes 8 (u64_max - v)))
      (drop_append_left (to_le_bytes 8 t ++ groups t key v) (to_be_bytes 8 (u64_max - v))
        (8 + length (groups t key v))
        (omega (arith, length-append (to_le_bytes 8 t) (groups t key v), length-to_le_bytes 8 t)))

-- The first eight bytes hold the table.
pub table_part :
    (table_id : ℕ) (key : Bytes) (version : ℕ)
    → take 8 (mvcc_key table_id key version) ≡ to_le_bytes 8 table_id
unfolding mvcc_key
table_part t key v =
    take_append_left (to_le_bytes 8 t) (groups t key v ++ to_be_bytes 8 (u64_max - v)) 8
      (length-to_le_bytes 8 t)
