-- ===== src/Eval/Latch/Keys/Distinct.antt =====
-- When a request gets all its latches at once.
use sekv.Prelude.{
  ℕ, ◌≡◌, refl, ◌↔◌, Bool-cases, inl, inr, true, false, Option, none, some, List, [], ◌∷◌, ◌++◌,
  map, arith, All,
}
use sekv.Prelude.Bytes.{Bytes, eq_bytes, eq_bytes_iff, eq_bytes_refl, le_bytes}
use sekv.Eval.Latch.{LatchBlock, get_latch_mut, acquire_internal}
use sekv.Api.{PutRequest, DeleteRequest, WriteRequest, user_key_of}
use sekv.Eval.Latch.Keys.{
  Request, write, write_intent, commit_intent, clear_intent, unlatched, collect_shard_write_keys,
  latch_keys, insert, sort, Latches, set_latch, acquire_keys, acquire_row_latches,
}

-- No request has the latch of the key.
abbrev pub IsFree : Latches → Bytes → Type 0
IsFree latches key = (get_latch_mut (latches key)).hold ≡ false

-- No key stands twice.
abbrev pub IsDistinct : List Bytes → Type 0
IsDistinct [] = Unit
IsDistinct (k ∷ keys) = All (λ l. eq_bytes l k ≡ false) keys × IsDistinct keys

held_block :
    (request : ℕ) (entry : Option LatchBlock) → (acquire_internal request entry).1.hold ≡ true
unfolding acquire_internal
held_block request none = refl
held_block request (some block) = ground arith

acquired_free :
    (request : ℕ) (entry : Option LatchBlock)
    → (get_latch_mut entry).hold ≡ false
    → (acquire_internal request entry).0 ≡ true
unfolding acquire_internal
acquired_free request none h = refl
acquired_free request (some block) h = ground arith

acquired_held :
    (request : ℕ) (entry : Option LatchBlock)
    → (get_latch_mut entry).hold ≡ true
    → (acquire_internal request entry).0 ≡ false
unfolding acquire_internal
acquired_held request none h = cc
acquired_held request (some block) h = ground arith

-- The latches of the other keys stay free.
All-IsFree-set :
    (latches : Latches) (key : Bytes) (block : LatchBlock) (keys : List Bytes)
    → All (λ l. eq_bytes l key ≡ false) keys
    → All (IsFree latches) keys
    → All (IsFree (set_latch latches key block)) keys
All-IsFree-set latches key block [] d f = tt
All-IsFree-set latches key block (l ∷ keys) d f =
    (rw (d.0) (f.0), All-IsFree-set latches key block keys d.1 f.1)

acquire_keys-IsDistinct :
    (request : ℕ) (keys : List Bytes) (latches : Latches)
    → IsDistinct keys
    → All (IsFree latches) keys
    → (acquire_keys request keys latches).0 ≡ true
unfolding acquire_keys
acquire_keys-IsDistinct request [] latches d f = refl
acquire_keys-IsDistinct request (k ∷ keys) latches d f =
    rw (acquired_free request (latches k) f.0)
      (acquire_keys-IsDistinct request keys _ d.1 (All-IsFree-set latches k _ keys d.0 f.1))

-- A key whose latch is free after another was taken is another key, and its latch was free before.
All-IsFree-unset :
    (latches : Latches) (key : Bytes) (block : LatchBlock) (keys : List Bytes)
    → block.hold ≡ true
    → All (IsFree (set_latch latches key block)) keys
    → All (λ l. eq_bytes l key ≡ false) keys × All (IsFree latches) keys
All-IsFree-unset latches key block [] h f = (tt, tt)
All-IsFree-unset latches key block (l ∷ keys) h f =
    let (d, rest) = All-IsFree-unset latches key block keys h f.1 in
    elim (Bool-cases (eq_bytes l key)) [
      | inl e ↦ absurd (ground (arith, e, h, f.0))
      | inr e ↦ ((e, d), (ground (arith, e, f.0), rest))
    ]

acquire_keys-IsFree :
    (request : ℕ) (keys : List Bytes) (latches : Latches)
    → (acquire_keys request keys latches).0 ≡ true
    → IsDistinct keys × All (IsFree latches) keys
unfolding acquire_keys
acquire_keys-IsFree request [] latches h = (tt, tt)
acquire_keys-IsFree request (k ∷ keys) latches h =
    elim (Bool-cases (get_latch_mut (latches k)).hold) [
      | inl e ↦ absurd (ground (arith, acquired_held request (latches k) e))
      | inr e ↦
          let (d, f) =
            acquire_keys-IsFree request keys
              (set_latch latches k (acquire_internal request (latches k)).1)
              (ground (arith, acquired_free request (latches k) e)) in
          let (n, g) =
            All-IsFree-unset latches k (acquire_internal request (latches k)).1 keys
              (held_block request (latches k)) f in
          ((n, d), (e, g))
    ]

eq_bytes-flip : (a b : Bytes) → eq_bytes a b ≡ false → eq_bytes b a ≡ false
eq_bytes-flip a b h = elim (Bool-cases (eq_bytes b a)) [
  | inr e ↦ e
  | inl e ↦ let same : b ≡ a = (eq_bytes_iff b a).0 e in absurd (ground (arith, eq_bytes_refl a))
]

insert-All {κ} :
    (P : Bytes → Type κ) (key : Bytes) (keys : List Bytes)
    → All P (insert key keys) ↔ (P key × All P keys)
insert-All P key [] = ((λ h. h), λ h. h)
insert-All P key (k ∷ keys) =
    let rest = insert-All P key keys in
    elim (Bool-cases (le_bytes key k)) [
      | inl e ↦ rw e ((λ h. h), λ h. h)
      | inr e ↦
          rw e ((λ h. ((rest.0 h.1).0, (h.0, (rest.0 h.1).1))), λ h. (h.1.0, rest.1 (h.0, h.1.1)))
    ]

insert-IsDistinct :
    (key : Bytes) (keys : List Bytes) → IsDistinct (insert key keys) ↔ IsDistinct (key ∷ keys)
insert-IsDistinct key [] = ((λ h. h), λ h. h)
insert-IsDistinct key (k ∷ keys) =
    let rest = insert-IsDistinct key keys in
    let apart = insert-All (λ l. eq_bytes l k ≡ false) key keys in
    elim (Bool-cases (le_bytes key k)) [
      | inl e ↦ rw e ((λ h. h), λ h. h)
      | inr e ↦ rw e (
        (λ h. (
          (eq_bytes-flip key k (apart.0 h.0).0, (rest.0 h.1).0),
          ((apart.0 h.0).1, (rest.0 h.1).1),
        )),
        λ h. (apart.1 (eq_bytes-flip k key h.0.0, h.1.0), rest.1 (h.0.1, h.1.1)),
      )
    ]

sort-IsDistinct : (keys : List Bytes) → IsDistinct (sort keys) ↔ IsDistinct keys
sort-IsDistinct [] = ((λ h. h), λ h. h)
sort-IsDistinct (k ∷ keys) =
    let apart = sort-All (λ l. eq_bytes l k ≡ false) keys in
    let rest = sort-IsDistinct keys in
    let put = insert-IsDistinct k (sort keys) in
    ((λ h. (apart.0 (put.0 h).0, rest.0 (put.0 h).1)), λ h. put.1 (apart.1 h.0, rest.1 h.1))
  where
    sort-All : (P : Bytes → Type 0) (ks : List Bytes) → All P (sort ks) ↔ All P ks
    sort-All P [] = ((λ h. h), λ h. h)
    sort-All P (l ∷ ks) =
        let i = insert-All P l (sort ks) in
        let r = sort-All P ks in ((λ h. ((i.0 h).0, r.0 (i.0 h).1)), λ h. i.1 (h.0, r.1 h.1))

All-append_iff {κ} :
    (P : Bytes → Type κ) (xs ys : List Bytes) → All P (xs ++ ys) ↔ (All P xs × All P ys)
All-append_iff P [] ys = ((λ h. (tt, h)), λ h. h.1)
All-append_iff P (x ∷ xs) ys =
    let r = All-append_iff P xs ys in
    ((λ h. ((h.0, (r.0 h.1).0), (r.0 h.1).1)), λ h. (h.0.0, r.1 (h.0.1, h.1)))

-- No key of the first list stands in the second.
abbrev pub IsApart : List Bytes → List Bytes → Type 0
IsApart xs ys = All (λ k. All (λ l. eq_bytes l k ≡ false) ys) xs

IsDistinct-append :
    (xs ys : List Bytes) → IsDistinct (xs ++ ys) ↔ (IsDistinct xs × IsDistinct ys × IsApart xs ys)
IsDistinct-append [] ys = ((λ h. (tt, h, tt)), λ h. h.1)
IsDistinct-append (x ∷ xs) ys =
    let r = IsDistinct-append xs ys in
    let a = All-append_iff (λ l. eq_bytes l x ≡ false) xs ys in
    (
      (λ h. let d = r.0 h.1 in (((a.0 h.0).0, d.0), d.1, ((a.0 h.0).1, d.2))),
      λ h. (a.1 (h.0.0, h.2.0), r.1 (h.0.1, h.1, h.2.1)),
    )

-- A batch puts no key twice, deletes no key twice, and deletes no key that it puts; every other request writes
-- one key at most.
abbrev pub WritesOnce : Request → Type 0
WritesOnce (write req) =
    IsDistinct (map (λ (p : PutRequest). p.key) req.puts)
    × IsDistinct (map (λ (d : DeleteRequest). d.key) req.deletes)
    × IsApart (map (λ (p : PutRequest). p.key) req.puts)
        (map (λ (d : DeleteRequest). d.key) req.deletes)
WritesOnce _ = Unit {0}

latch_keys-WritesOnce : (request : Request) → IsDistinct (latch_keys request) ↔ WritesOnce request
unfolding latch_keys collect_shard_write_keys
latch_keys-WritesOnce (write req) =
    IsDistinct-append (map (λ (p : PutRequest). p.key) req.puts)
      (map (λ (d : DeleteRequest). d.key) req.deletes)
latch_keys-WritesOnce (write_intent req) = by_write req.write
  where
    by_write :
        (w : Option WriteRequest)
        → IsDistinct (elim w as (λ _. List Bytes) [ none ↦ [] | some w ↦ user_key_of w ∷ [] ])
          ↔ Unit {0}
    by_write none = ((λ h. tt), λ h. tt)
    by_write (some w) = ((λ h. tt), λ h. (tt, tt))
latch_keys-WritesOnce (commit_intent req) = ((λ h. tt), λ h. (tt, tt))
latch_keys-WritesOnce (clear_intent req) = ((λ h. tt), λ h. (tt, tt))
latch_keys-WritesOnce unlatched = ((λ h. tt), λ h. tt)

-- Where no latch is taken, a request gets all its latches at once exactly where it does not write a key twice: a
-- batch of which two puts, two deletes, or a put and a delete have one key waits for its own latch.
pub acquire_row_latches_iff :
    (id : ℕ) (request : Request) (latches : Latches)
    → ((key : Bytes) → IsFree latches key)
    → ((acquire_row_latches id request latches).0 ≡ true) ↔ WritesOnce request
unfolding acquire_row_latches
acquire_row_latches_iff id request latches free =
    let d = sort-IsDistinct (latch_keys request) in
    let once = latch_keys-WritesOnce request in
    (
      (λ h. once.0 (d.0 (acquire_keys-IsFree id (sort (latch_keys request)) latches h).0)),
      λ h.
          acquire_keys-IsDistinct id (sort (latch_keys request)) latches (d.1 (once.1 h))
            (every (sort (latch_keys request))),
    )
  where
    every : (keys : List Bytes) → All (IsFree latches) keys
    every [] = tt
    every (k ∷ keys) = (free k, every keys)
