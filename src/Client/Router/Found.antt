-- ===== src/Client/Router/Found.antt =====
-- What `find_group_by_shard` of client/src/rpc/router.rs promises, where the descriptors of each group come in the
-- order of their epochs.
use sekv.Prelude.{
  ℕ, ◌==◌, ◌≡◌, ◌≤◌, ◌<◌, ◌⊎◌, refl, ap, ◌∙◌, sym, ltb, true, Option, none, some, List, [], ◌∷◌,
  arith, inl, inr, Bool-cases, ==_iff, All,
}
use mathlib.Core.Path.{subst}
use sekv.Api.Group.{GroupDesc}
use sekv.Client.Router.{
  State, RouterGroupState, UpdateEvent, find_group_by_shard, newer_entry, group_of, not_newer,
}
use sekv.Client.Router.Shards.{
  run, descs_of, has_shard, newest, latest, seen_group, seen_desc, run-Sees,
}

abbrev pub Has : GroupDesc → List GroupDesc → Type 0
Has desc [] = ⊥
Has desc (d ∷ descs) = (desc ≡ d) ⊎ Has desc descs

-- Each group's epochs grow, the last descriptor first.
abbrev pub IsInOrder : List GroupDesc → Type 0
IsInOrder [] = Unit
IsInOrder (desc ∷ descs) =
    All (λ old. old.id ≡ desc.id → old.epoch < desc.epoch) descs × IsInOrder descs

Has-All :
    (P : GroupDesc → Type 0) (desc : GroupDesc) (descs : List GroupDesc)
    → Has desc descs
    → All P descs
    → P desc
Has-All P desc (d ∷ descs) (inl e) a = subst P (sym e) a.0
Has-All P desc (d ∷ descs) (inr h) a = Has-All P desc descs h a.1
Has-All P desc [] h a = elim h [ ]

-- The newest entry of a shard is of a descriptor that has it.
abbrev From : ℕ → List GroupDesc → ℕ → ℕ → Type 0
From j descs g e =
    (desc : GroupDesc) × Has desc descs
    × (desc.id ≡ g)
    × (desc.epoch ≡ e)
    × (has_shard j desc.shards ≡ true)

From-cons :
    (j : ℕ) (d : GroupDesc) (descs : List GroupDesc) (g e : ℕ)
    → From j descs g e
    → From j (d ∷ descs) g e
From-cons j d descs g e f = (f.0, inr f.1, f.2, f.3, f.4)

newest-From :
    (j : ℕ) (descs : List GroupDesc) (g e : ℕ) → newest j descs ≡ some (g, e) → From j descs g e
newest-From j [] g e h = absurd (cc)
newest-From j (d ∷ descs) g e h = elim (Bool-cases (has_shard j d.shards)) [
  | inl has ↦ by_entry has (newest j descs) (newest-From j descs g e) (rw has at h)
  | inr not_there ↦ From-cons j d descs g e (newest-From j descs g e (rw not_there at h))
]
  where
    here :
        has_shard j d.shards ≡ true
        → Path (Option (ℕ × ℕ)) (some (d.id, d.epoch)) (some (g, e))
        → From j (d ∷ descs) g e
    here has k = (d, inl refl, cc, cc, has)

    by_entry :
        has_shard j d.shards ≡ true
        → (entry : Option (ℕ × ℕ)) → (entry ≡ some (g, e) → From j descs g e)
        → newer_entry d.id d.epoch entry ≡ some (g, e)
        → From j (d ∷ descs) g e
    by_entry has none ih k = here has k
    by_entry has (some (i, x)) ih k = elim (Bool-cases (ltb x d.epoch)) [
      | inl newer ↦ here has (rw newer at k)
      | inr older ↦ From-cons j d descs g e (ih (rw older at k))
    ]

-- An entry of an epoch or a newer one.
abbrev AtLeast : ℕ → Option (ℕ × ℕ) → Type 0
AtLeast epoch none = ⊥
AtLeast epoch (some (g, e)) = epoch ≤ e

newer_entry-AtLeast_self :
    (id epoch : ℕ) (entry : Option (ℕ × ℕ)) → AtLeast epoch (newer_entry id epoch entry)
newer_entry-AtLeast_self id epoch none = omega arith
newer_entry-AtLeast_self id epoch (some (g, e)) = ground arith

newer_entry-AtLeast :
    (id epoch x : ℕ) (entry : Option (ℕ × ℕ))
    → AtLeast x entry
    → AtLeast x (newer_entry id epoch entry)
newer_entry-AtLeast id epoch x none h = elim h [ ]
newer_entry-AtLeast id epoch x (some (g, e)) h = ground arith

-- No descriptor that has the shard is newer.
newest-AtLeast :
    (j : ℕ) (desc : GroupDesc) (descs : List GroupDesc)
    → Has desc descs
    → has_shard j desc.shards ≡ true
    → AtLeast desc.epoch (newest j descs)
newest-AtLeast j desc [] h has = elim h [ ]
newest-AtLeast j desc (d ∷ descs) (inl same) has =
    subst (λ (x : GroupDesc). AtLeast x.epoch (newest j (d ∷ descs))) (sym same)
      (rw (subst (λ (x : GroupDesc). has_shard j x.shards ≡ true) same has)
        (newer_entry-AtLeast_self d.id d.epoch (newest j descs)))
newest-AtLeast j desc (d ∷ descs) (inr h) has =
    let rest = newest-AtLeast j desc descs h has in
    elim (Bool-cases (has_shard j d.shards)) [
      | inl here ↦ rw here (newer_entry-AtLeast d.id d.epoch desc.epoch (newest j descs) rest)
      | inr not_here ↦ rw not_here rest
    ]

latest-order :
    (desc last : GroupDesc) (descs : List GroupDesc)
    → IsInOrder descs
    → Has desc descs
    → latest desc.id descs ≡ some last
    → (last ≡ desc) ⊎ (desc.epoch < last.epoch)
latest-order desc last [] o h k = elim h [ ]
latest-order desc last (d ∷ descs) o (inl e) k =
    let same : (d.id == desc.id) ≡ true = rw e ((==_iff d.id d.id).1 refl) in
    let k' : Path (Option GroupDesc) (some d) (some last) = rw same at k in
    let l : d ≡ last = cc in inl (sym (e ∙ l))
latest-order desc last (d ∷ descs) o (inr h) k = elim (Bool-cases (d.id == desc.id)) [
  | inl same ↦
      let k' : Path (Option GroupDesc) (some d) (some last) = rw same at k in
      let l : d ≡ last = cc in
      let older =
        Has-All (λ old. old.id ≡ d.id → old.epoch < d.epoch) desc descs h o.0
          (sym ((==_iff d.id desc.id).0 same)) in
      inr (subst (λ (x : GroupDesc). desc.epoch < x.epoch) l older)
  | inr other ↦ latest-order desc last descs o.1 h (rw other at k)
]

-- What the router found, in terms of the descriptors.
abbrev pub Holds : ℕ → List GroupDesc → RouterGroupState → Type 0
Holds j descs group =
    (desc : GroupDesc) × (latest group.id descs ≡ some desc)
    × (has_shard j desc.shards ≡ true)
    × (group.epoch ≡ desc.epoch)
    × ((other : GroupDesc)
        → Has other descs
        → has_shard j other.shards ≡ true
        → other.epoch ≤ desc.epoch)

-- The parts of what the router found.
abbrev Found : State → Option (ℕ × ℕ) → RouterGroupState → Type 0
Found state entry group =
    (g : ℕ) × (e : ℕ) × (entry ≡ some (g, e))
    × (state.group_id_lookup g ≡ some group)
    × (group.epoch ≤ e)

group_of-Found :
    (state : State) (entry : Option (ℕ × ℕ)) (group : RouterGroupState)
    → group_of state entry ≡ some group
    → Found state entry group
group_of-Found state none group h = absurd (cc)
group_of-Found state (some (g, e)) group h =
    let r = by_group (state.group_id_lookup g) h in (g, e, refl, r.0, r.1)
  where
    by_group :
        (known : Option RouterGroupState)
        → not_newer e known ≡ some group
        → (known ≡ some group) × (group.epoch ≤ e)
    by_group none k = absurd (cc)
    by_group (some known) k = elim (Bool-cases (ltb e known.epoch)) [
      | inl newer ↦
          let bad : Path (Option RouterGroupState) none (some group) = rw newer at k in absurd (cc)
      | inr older ↦
          let same : Path (Option RouterGroupState) (some known) (some group) = rw older at k in
          let is : known ≡ group = cc in
          (same, subst (λ (x : RouterGroupState). x.epoch ≤ e) is (ground arith))
    ]

seen-some :
    (group : RouterGroupState) (g : ℕ) (descs : List GroupDesc)
    → seen_group (some group) ≡ seen_desc (latest g descs)
    → (last : GroupDesc) × (latest g descs ≡ some last)
      × (group.id ≡ last.id)
      × (group.epoch ≡ last.epoch)
seen-some group g descs h = by_last (latest g descs) h
  where
    by_last :
        (known : Option GroupDesc)
        → seen_group (some group) ≡ seen_desc known
        → (last : GroupDesc) × (known ≡ some last)
          × (group.id ≡ last.id)
          × (group.epoch ≡ last.epoch)
    by_last none k = absurd (cc)
    by_last (some last) k = (last, refl, cc, cc)

latest-id :
    (g : ℕ) (descs : List GroupDesc) (last : GroupDesc) → latest g descs ≡ some last → last.id ≡ g
latest-id g [] last h = absurd (cc)
latest-id g (d ∷ descs) last h = ground (arith, latest-id g descs last)

-- Where the router finds a group for a shard, the last descriptor that came of that group has the shard, and no
-- descriptor of any group that has it is newer; the router has the epoch of that descriptor. The descriptors of
-- each group came in the order of their epochs, in whatever order with those of other groups and other events.
pub find_group_by_shard-Holds :
    (events : List UpdateEvent) (j : ℕ) (group : RouterGroupState)
    → IsInOrder (descs_of events)
    → find_group_by_shard (run events) j ≡ some group
    → Holds j (descs_of events) group
unfolding find_group_by_shard
find_group_by_shard-Holds events j group o h =
    let descs = descs_of events in
    let sees = run-Sees events in
    let f = group_of-Found (run events) ((run events).shard_group_lookup j) group h in
    let entry : newest j descs ≡ some (f.0, f.1) = sym (sees.0 j) ∙ f.2 in
    let last = seen-some group f.0 descs (ap seen_group (sym f.3) ∙ sees.1 f.0) in
    let from = newest-From j descs f.0 f.1 entry in
    let order =
      latest-order from.0 last.0 descs o from.1 (ap (λ g. latest g descs) from.2 ∙ last.1) in
    by_order last.0 from.0 from.4 last.3
      (ap (λ g. latest g descs) (last.2 ∙ latest-id f.0 descs last.0 last.1) ∙ last.1)
      (omega (arith, f.4, from.3))
      (λ other held has.
        let at : AtLeast other.epoch (some (f.0, f.1)) =
          subst (AtLeast other.epoch) entry (newest-AtLeast j other descs held has) in
        omega (arith, at, from.3))
      order
  where
    by_order :
        (last desc : GroupDesc)
        → has_shard j desc.shards ≡ true
        → group.epoch ≡ last.epoch
        → latest group.id (descs_of events) ≡ some last
        → group.epoch ≤ desc.epoch
        → ((other : GroupDesc)
            → Has other (descs_of events)
            → has_shard j other.shards ≡ true
            → other.epoch ≤ desc.epoch)
        → (last ≡ desc) ⊎ (desc.epoch < last.epoch)
        → Holds j (descs_of events) group
    by_order last desc has e l bound max (inl same) =
        (desc, l ∙ ap some same, has, e ∙ ap (λ (d : GroupDesc). d.epoch) same, max)
    by_order last desc has e l bound max (inr newer) = absurd (omega arith)
