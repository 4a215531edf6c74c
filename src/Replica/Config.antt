-- ===== src/Replica/Config.antt =====
-- The changes of a group's replicas in server/src/replica/fsm/mod.rs: a simple change, and the joint change that is
-- entered and left. The texts of the log are dropped, and with them the local replica's id.
pub mod Joint
use sekv.Prelude.{
  ℕ, ◌==◌, ◌||◌, not, if◌then◌else◌, Bool, true, false, Option, none, some, List, [], ◌∷◌, ◌++◌,
  map,
}
use sekv.Api.Group.{
  ReplicaRole, voter, learner, incoming_voter, demoting_voter, ReplicaDesc, GroupDesc,
  ChangeReplicaType, add, remove, add_learner, ChangeReplica, retain, apply_config_delta,
}
use sekv.Result.{Result, ok, err, ◌>>=◌, panicked}

-- The role of the first replica with the id, which `find_replica_mut` finds.
unfoldable pub role_at : ℕ → List ReplicaDesc → Option ReplicaRole
role_at replica_id [] = none
role_at replica_id (rep ∷ replicas) =
    if rep.id == replica_id then some rep.role else role_at replica_id replicas

-- A change of the replica that `find_replica_mut` finds.
unfoldable pub set_role : ℕ → ReplicaRole → List ReplicaDesc → List ReplicaDesc
set_role replica_id role [] = []
set_role replica_id role (rep ∷ replicas) =
    if rep.id == replica_id
    then record rep { role = role } ∷ replicas
    else rep ∷ set_role replica_id role replicas

abbrev pub pushed : ChangeReplica → ReplicaRole → ReplicaDesc
pushed change role = record { id = change.replica_id; node_id = change.node_id; role = role }

unfoldable pub check_not_in_joint_state : Option ReplicaRole → Result (Unit {0})
check_not_in_joint_state (some incoming_voter) = err panicked
check_not_in_joint_state (some demoting_voter) = err panicked
check_not_in_joint_state _ = ok tt

-- The replica takes the role, and joins the group if it is not there.
abbrev pub put_role :
    ChangeReplica → ReplicaRole → Option ReplicaRole → List ReplicaDesc → List ReplicaDesc
put_role change role none replicas = replicas ++ (pushed change role ∷ [])
put_role change role (some _) replicas = set_role change.replica_id role replicas

abbrev pub simple_replicas : ChangeReplica → ChangeReplicaType → List ReplicaDesc → List ReplicaDesc
simple_replicas change add replicas =
    put_role change voter (role_at change.replica_id replicas) replicas
simple_replicas change add_learner replicas =
    put_role change learner (role_at change.replica_id replicas) replicas
simple_replicas change remove replicas = retain (λ rep. not (rep.id == change.replica_id)) replicas

unfoldable pub apply_simple_change : GroupDesc → ChangeReplica → Result GroupDesc
unfolding check_not_in_joint_state role_at set_role
apply_simple_change desc change = do
  checked ← check_not_in_joint_state (role_at change.replica_id desc.replicas)
  ok (record desc { replicas = simple_replicas change change.change_type desc.replicas })

-- What a joint change makes of one replica, by its role: the replicas and the learners to take out.
unfoldable pub enter_joint_one :
    ChangeReplica
    → Option ReplicaRole
    → ChangeReplicaType
    → List ReplicaDesc × List ℕ
    → Result (List ReplicaDesc × List ℕ)
enter_joint_one change (some learner) add (replicas, outgoing) =
    ok (set_role change.replica_id incoming_voter replicas, outgoing)
enter_joint_one change (some voter) add_learner (replicas, outgoing) =
    ok (set_role change.replica_id demoting_voter replicas, outgoing)
enter_joint_one change (some voter) remove (replicas, outgoing) =
    ok (set_role change.replica_id demoting_voter replicas, outgoing)
enter_joint_one change none add (replicas, outgoing) =
    ok (replicas ++ (pushed change incoming_voter ∷ []), outgoing)
enter_joint_one change none add_learner (replicas, outgoing) =
    ok (replicas ++ (pushed change learner ∷ []), outgoing)
enter_joint_one change (some learner) remove (replicas, outgoing) =
    ok (replicas, change.replica_id ∷ outgoing)
enter_joint_one change (some voter) add state = ok state
enter_joint_one change (some learner) add_learner state = ok state
enter_joint_one change none remove state = ok state
enter_joint_one change (some _) _ state = err panicked

-- The loop over the changes
unfoldable pub enter_joint_all :
    List ChangeReplica → List ReplicaDesc × List ℕ → Result (List ReplicaDesc × List ℕ)
unfolding check_not_in_joint_state role_at enter_joint_one
enter_joint_all [] state = ok state
enter_joint_all (change ∷ changes) state = do
  let exist_role = role_at change.replica_id state.0
  checked ← check_not_in_joint_state exist_role
  next ← enter_joint_one change exist_role change.change_type state
  enter_joint_all changes next

abbrev pub contains : List ℕ → ℕ → Bool
contains [] id = false
contains (x ∷ xs) id = (x == id) || contains xs id

unfoldable pub apply_enter_joint : GroupDesc → List ChangeReplica → Result GroupDesc
unfolding enter_joint_all
apply_enter_joint desc changes = do
  state ← enter_joint_all changes (desc.replicas, [])
  ok (record desc { replicas = retain (λ r. not (contains state.1 r.id)) state.0 })

unfoldable pub leave_role : ReplicaRole → ReplicaRole
leave_role incoming_voter = voter
leave_role demoting_voter = learner
leave_role role = role

abbrev pub left_joint : ReplicaDesc → ReplicaDesc
left_joint rep = record rep { role = leave_role rep.role }

unfoldable pub apply_leave_joint : GroupDesc → GroupDesc
unfolding leave_role
apply_leave_joint desc = record desc { replicas = map left_joint desc.replicas }

-- `ChangeReplicaKind::new`, and the match of `apply_change_replicas` on it
unfoldable pub change_replicas : List ChangeReplica → GroupDesc → Result GroupDesc
unfolding apply_leave_joint apply_simple_change apply_enter_joint
change_replicas [] desc = ok (apply_leave_joint desc)
change_replicas (change ∷ []) desc = apply_simple_change desc change
change_replicas changes desc = apply_enter_joint desc changes
