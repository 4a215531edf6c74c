-- ===== src/Replica/Config/Joint.antt =====
-- What a joint change of replicas comes to once it is left, by the role of each replica:
-- server/src/replica/fsm/mod.rs.
use sekv.Prelude.{
  ℕ, ◌==◌, ◌≡◌, ◌≢◌, refl, ap, ◌∙◌, sym, not, if◌then◌else◌, Bool, true, false, Option, none, some,
  List, [], ◌∷◌, ◌++◌, map, arith, Bool-cases, inl, inr, ==_iff,
}
use mathlib.Core.Option
use mathlib.Core.Path.{subst}
use sekv.Api.Group.{
  ReplicaRole, voter, learner, incoming_voter, demoting_voter, ReplicaDesc, GroupDesc,
  ChangeReplicaType, add, remove, add_learner, ChangeReplica, retain,
}
use sekv.Result.{ok, ◌>>=◌, >>=-eq-ok, ok-eq}
use sekv.Replica.Config.{
  role_at, set_role, pushed, check_not_in_joint_state, enter_joint_one, enter_joint_all, contains,
  apply_enter_joint, leave_role, left_joint, apply_leave_joint,
}

-- The role of a replica in the lists that the changes make.
role_at-set_role :
    (j i : ℕ) (role : ReplicaRole) (replicas : List ReplicaDesc)
    → role_at j (set_role i role replicas)
      ≡ (if j == i then Option.map (λ old. role) (role_at j replicas) else role_at j replicas)
unfolding role_at set_role
role_at-set_role j i role [] = ground arith
role_at-set_role j i role (rep ∷ replicas) = ground (arith, role_at-set_role j i role replicas)

role_at-append :
    (j : ℕ) (replicas : List ReplicaDesc) (rep : ReplicaDesc)
    → role_at rep.id replicas ≡ none
    → role_at j (replicas ++ (rep ∷ []))
      ≡ (if j == rep.id then some rep.role else role_at j replicas)
unfolding role_at
role_at-append j [] rep h = ground arith
role_at-append j (r ∷ replicas) rep h = ground (arith, role_at-append j replicas rep)

role_at-retain :
    (j : ℕ) (out : List ℕ) (replicas : List ReplicaDesc)
    → role_at j (retain (λ r. not (contains out r.id)) replicas)
      ≡ (if contains out j then none else role_at j replicas)
unfolding role_at
role_at-retain j out [] = ground arith
role_at-retain j out (r ∷ replicas) = ground (arith, role_at-retain j out replicas)

role_at-left_joint :
    (j : ℕ) (replicas : List ReplicaDesc)
    → role_at j (map left_joint replicas) ≡ Option.map leave_role (role_at j replicas)
unfolding role_at
role_at-left_joint j [] = refl
role_at-left_joint j (r ∷ replicas) = ground (arith, role_at-left_joint j replicas)

-- What a change asks of a replica.
abbrev pub change_of : ℕ → List ChangeReplica → Option ChangeReplicaType
change_of id [] = none
change_of id (change ∷ changes) =
    if change.replica_id == id then some change.change_type else change_of id changes

abbrev pub IsDistinct : List ChangeReplica → Type 0
IsDistinct [] = Unit
IsDistinct (change ∷ changes) = (change_of change.replica_id changes ≡ none) × IsDistinct changes

-- The role after a change, where the joint state is left: a voter that is removed stays as a learner.
abbrev pub outcome : ChangeReplicaType → Option ReplicaRole → Option ReplicaRole
outcome add role = some voter
outcome add_learner role = some learner
outcome remove (some voter) = some learner
outcome remove _ = none

abbrev left_at : ℕ → List ReplicaDesc × List ℕ → Option ReplicaRole
left_at i state = if contains state.1 i then none else Option.map leave_role (role_at i state.0)

abbrev Steps : ChangeReplica → List ReplicaDesc × List ℕ → List ReplicaDesc × List ℕ → Type 0
Steps change state next =
    (left_at change.replica_id next
      ≡ outcome change.change_type (role_at change.replica_id state.0))
    × ((i : ℕ)
        → i ≢ change.replica_id
        → (role_at i next.0 ≡ role_at i state.0) × (contains next.1 i ≡ contains state.1 i))

module _ (change : ChangeReplica) (replicas : List ReplicaDesc) (outgoing : List ℕ)
    (fresh : contains outgoing change.replica_id ≡ false) where
  abbrev id : ℕ
  id = change.replica_id

  -- The replica takes a role that it has once the joint state is left.
  set_role-Steps :
      (old role : ReplicaRole)
      → role_at id replicas ≡ some old
      → some (leave_role role) ≡ outcome change.change_type (some old)
      → Steps change (replicas, outgoing) (set_role id role replicas, outgoing)
  set_role-Steps old role e o = (
    ground (arith, role_at-set_role id id role replicas),
    λ i other. (ground (arith, role_at-set_role i id role replicas), refl),
  )

  pushed-Steps :
      (role : ReplicaRole)
      → role_at id replicas ≡ none
      → some (leave_role role) ≡ outcome change.change_type none
      → Steps change (replicas, outgoing) (replicas ++ (pushed change role ∷ []), outgoing)
  pushed-Steps role e o = (
    ground (arith, role_at-append id replicas (pushed change role)),
    λ i other. (ground (arith, role_at-append i replicas (pushed change role)), refl),
  )

  kept-Steps :
      (role : Option ReplicaRole)
      → role_at id replicas ≡ role
      → Option.map leave_role role ≡ outcome change.change_type role
      → Steps change (replicas, outgoing) (replicas, outgoing)
  kept-Steps role e o = (ground (arith), λ i other. (refl, refl))

  outgoing-Steps :
      role_at id replicas ≡ some learner
      → change.change_type ≡ remove
      → Steps change (replicas, outgoing) (replicas, id ∷ outgoing)
  outgoing-Steps e t = (ground (arith), λ i other. (refl, ground (arith)))

  abbrev State : Type 0
  State = List ReplicaDesc × List ℕ

  enter_joint_one-Steps :
      (role : Option ReplicaRole) (type : ChangeReplicaType) (next : State)
      → role_at id replicas ≡ role
      → change.change_type ≡ type
      → check_not_in_joint_state role ≡ ok tt
      → enter_joint_one change role type (replicas, outgoing) ≡ ok next
      → Steps change (replicas, outgoing) next
  unfolding enter_joint_one check_not_in_joint_state leave_role
  enter_joint_one-Steps (some learner) add next e t c h =
      subst (λ n. Steps change (replicas, outgoing) n) (ok-eq h)
        (set_role-Steps learner incoming_voter e (rw t refl))
  enter_joint_one-Steps (some voter) add_learner next e t c h =
      subst (λ n. Steps change (replicas, outgoing) n) (ok-eq h)
        (set_role-Steps voter demoting_voter e (rw t refl))
  enter_joint_one-Steps (some voter) remove next e t c h =
      subst (λ n. Steps change (replicas, outgoing) n) (ok-eq h)
        (set_role-Steps voter demoting_voter e (rw t refl))
  enter_joint_one-Steps none add next e t c h =
      subst (λ n. Steps change (replicas, outgoing) n) (ok-eq h)
        (pushed-Steps incoming_voter e (rw t refl))
  enter_joint_one-Steps none add_learner next e t c h =
      subst (λ n. Steps change (replicas, outgoing) n) (ok-eq h)
        (pushed-Steps learner e (rw t refl))
  enter_joint_one-Steps (some learner) remove next e t c h =
      subst (λ n. Steps change (replicas, outgoing) n) (ok-eq h) (outgoing-Steps e t)
  enter_joint_one-Steps (some voter) add next e t c h =
      subst (λ n. Steps change (replicas, outgoing) n) (ok-eq h)
        (kept-Steps (some voter) e (rw t refl))
  enter_joint_one-Steps (some learner) add_learner next e t c h =
      subst (λ n. Steps change (replicas, outgoing) n) (ok-eq h)
        (kept-Steps (some learner) e (rw t refl))
  enter_joint_one-Steps none remove next e t c h =
      subst (λ n. Steps change (replicas, outgoing) n) (ok-eq h) (kept-Steps none e (rw t refl))
  enter_joint_one-Steps (some incoming_voter) type next e t c h = absurd (cc)
  enter_joint_one-Steps (some demoting_voter) type next e t c h = absurd (cc)

-- What a joint change asks of a replica comes to.
abbrev pub pending_role : Option ChangeReplicaType → Option ReplicaRole → Option ReplicaRole
pending_role none role = Option.map leave_role role
pending_role (some type) role = outcome type role

-- What is left to come of a replica.
abbrev pending : Option ChangeReplicaType → ℕ → List ReplicaDesc × List ℕ → Option ReplicaRole
pending none i state = left_at i state
pending (some type) i state = outcome type (role_at i state.0)

abbrev IsFresh : List ChangeReplica → List ReplicaDesc × List ℕ → Type 0
IsFresh changes state =
    (i : ℕ) (type : ChangeReplicaType)
    → change_of i changes ≡ some type
    → contains state.1 i ≡ false

-- No replica that the changes name is in a joint state.
abbrev pub IsSettled : List ChangeReplica → List ReplicaDesc → Type 0
IsSettled changes replicas =
    (i : ℕ) (type : ChangeReplicaType)
    → change_of i changes ≡ some type
    → check_not_in_joint_state (role_at i replicas) ≡ ok tt

module _ (change : ChangeReplica) (changes : List ChangeReplica)
    (state next : List ReplicaDesc × List ℕ) (d : IsDistinct (change ∷ changes))
    (steps : Steps change state next) where
  IsFresh-step : IsFresh (change ∷ changes) state → IsFresh changes next
  IsFresh-step f j type k = elim (Bool-cases (change.replica_id == j)) [
    | inl same ↦
        let e : change.replica_id ≡ j = (==_iff _ j).0 same in
        let gone : change_of j changes ≡ none = subst (λ j. change_of j changes ≡ none) e d.0 in
        absurd (cc)
    | inr other ↦
        let different : j ≢ change.replica_id = λ e. ground arith in
        (steps.1 j different).1 ∙ f j type (rw other k)
  ]

  IsSettled-step :
      IsSettled (change ∷ changes) state.0
      → (j : ℕ) (type : ChangeReplicaType) → change_of j changes ≡ some type
      → check_not_in_joint_state (role_at j next.0) ≡ ok tt
  IsSettled-step h j type k = elim (Bool-cases (change.replica_id == j)) [
    | inl same ↦
        let e : change.replica_id ≡ j = (==_iff _ j).0 same in
        let gone : change_of j changes ≡ none = subst (λ j. change_of j changes ≡ none) e d.0 in
        absurd (cc)
    | inr other ↦
        let different : j ≢ change.replica_id = λ e. ground arith in
        ap check_not_in_joint_state (steps.1 j different).0 ∙ h j type (rw other k)
  ]

  pending-step :
      (i : ℕ)
      → pending (change_of i changes) i next ≡ pending (change_of i (change ∷ changes)) i state
  pending-step i = elim (Bool-cases (change.replica_id == i)) [
    | inl same ↦
        let e : change.replica_id ≡ i = (==_iff _ i).0 same in
        let gone : change_of i changes ≡ none = subst (λ j. change_of j changes ≡ none) e d.0 in
        rw (same, gone)
          (subst (λ j. left_at j next ≡ outcome change.change_type (role_at j state.0)) e steps.0)
    | inr other ↦
        let different : i ≢ change.replica_id = λ e. ground arith in
        let kept = steps.1 i different in rw other (by_change (change_of i changes) kept.0 kept.1)
  ]
    where
      by_change :
          (c : Option ChangeReplicaType)
          → role_at i next.0 ≡ role_at i state.0
          → contains next.1 i ≡ contains state.1 i
          → pending c i next ≡ pending c i state
      by_change none r o = rw (r, o)
      by_change (some type) r o = rw r

enter_joint_all-pending :
    (changes : List ChangeReplica) (state fin : List ReplicaDesc × List ℕ)
    → IsDistinct changes
    → IsFresh changes state
    → enter_joint_all changes state ≡ ok fin
    → (i : ℕ) → left_at i fin ≡ pending (change_of i changes) i state
unfolding enter_joint_all
enter_joint_all-pending [] state fin d f h i = ap (left_at i) (sym (ok-eq h))
enter_joint_all-pending (change ∷ changes) state fin d f h i =
    let role = role_at change.replica_id state.0 in
    let c =
      >>=-eq-ok (check_not_in_joint_state role)
        (λ checked. enter_joint_one change role change.change_type state >>= λ next.
          enter_joint_all changes next)
        h in
    let n =
      >>=-eq-ok (enter_joint_one change role change.change_type state)
        (λ next. enter_joint_all changes next) c.2 in
    let steps =
      enter_joint_one-Steps change state.0 state.1
        (f change.replica_id change.change_type (ground (arith))) role change.change_type n.0 refl
        refl c.1 n.1 in
    let rest =
      enter_joint_all-pending changes n.0 fin d.1 (IsFresh-step change changes state n.0 d steps f)
        n.2 i in
    rest ∙ pending-step change changes state n.0 d steps i

enter_joint_one-ok :
    (change : ChangeReplica) (role : Option ReplicaRole) (type : ChangeReplicaType)
    (state : List ReplicaDesc × List ℕ)
    → check_not_in_joint_state role ≡ ok tt
    → (next : List ReplicaDesc × List ℕ) × (enter_joint_one change role type state ≡ ok next)
unfolding enter_joint_one check_not_in_joint_state
enter_joint_one-ok change (some learner) add state h = (_, refl)
enter_joint_one-ok change (some learner) remove state h = (_, refl)
enter_joint_one-ok change (some learner) add_learner state h = (_, refl)
enter_joint_one-ok change (some voter) add state h = (_, refl)
enter_joint_one-ok change (some voter) remove state h = (_, refl)
enter_joint_one-ok change (some voter) add_learner state h = (_, refl)
enter_joint_one-ok change (some incoming_voter) type state h = absurd (cc)
enter_joint_one-ok change (some demoting_voter) type state h = absurd (cc)
enter_joint_one-ok change none add state h = (_, refl)
enter_joint_one-ok change none remove state h = (_, refl)
enter_joint_one-ok change none add_learner state h = (_, refl)

enter_joint_all-ok :
    (changes : List ChangeReplica) (state : List ReplicaDesc × List ℕ)
    → IsDistinct changes
    → IsFresh changes state
    → IsSettled changes state.0
    → (fin : List ReplicaDesc × List ℕ) × (enter_joint_all changes state ≡ ok fin)
unfolding enter_joint_all
enter_joint_all-ok [] state d f h = (state, refl)
enter_joint_all-ok (change ∷ changes) state d f h =
    let role = role_at change.replica_id state.0 in
    let checked = h change.replica_id change.change_type (ground (arith)) in
    let n = enter_joint_one-ok change role change.change_type state checked in
    let steps =
      enter_joint_one-Steps change state.0 state.1
        (f change.replica_id change.change_type (ground (arith))) role change.change_type n.0 refl
        refl checked n.1 in
    let rest =
      enter_joint_all-ok changes n.0 d.1 (IsFresh-step change changes state n.0 d steps f)
        (λ j type k. IsSettled-step change changes state n.0 d steps h j type k) in
    (rest.0, rw (checked, n.1) rest.1)

-- A joint change is entered, and once it is left it comes to the change of each replica by itself: a replica to add
-- is a voter, one to add as a learner is a learner, a learner to remove is gone, and a voter to remove stays as a
-- learner; any other replica only leaves a joint role. No replica is changed twice, and none of those changed is in
-- a joint state before.
pub apply_leave_joint-apply_enter_joint :
    (desc : GroupDesc) (changes : List ChangeReplica)
    → IsDistinct changes
    → IsSettled changes desc.replicas
    → (mid : GroupDesc) × (apply_enter_joint desc changes ≡ ok mid)
      × ((i : ℕ)
          → role_at i (GroupDesc.replicas (apply_leave_joint mid))
            ≡ pending_role (change_of i changes) (role_at i desc.replicas))
unfolding apply_enter_joint apply_leave_joint
apply_leave_joint-apply_enter_joint desc changes d settled =
    let a = enter_joint_all-ok changes (desc.replicas, []) d (λ j type k. refl) settled in
    let left = retain (λ r. not (contains a.0.1 r.id)) a.0.0 in
    (
      record desc { replicas = left },
      rw a.1 refl,
      λ i.
          role_at-left_joint i left
          ∙ ap (Option.map leave_role) (role_at-retain i a.0.1 a.0.0)
          ∙ map_if (contains a.0.1 i) (role_at i a.0.0)
          ∙ enter_joint_all-pending changes (desc.replicas, []) a.0 d (λ j type k. refl) a.1 i
          ∙ pending_first (change_of i changes) i,
    )
  where
    map_if :
        (c : Bool) (role : Option ReplicaRole)
        → Option.map leave_role (if c then none else role)
          ≡ (if c then none else Option.map leave_role role)
    map_if true role = refl
    map_if false role = refl

    pending_first :
        (c : Option ChangeReplicaType) (i : ℕ)
        → pending c i (desc.replicas, []) ≡ pending_role c (role_at i desc.replicas)
    pending_first none i = refl
    pending_first (some type) i = refl
