-- ===== src/Velocity/Joint.antt =====
-- `joint_state_callback`: the cached index of the joint, the velocity filter and the position.
use marine_robotics_hil_sea.Base.{
  ℕ, ◌+◌, Bool, true, false, Option, none, some, List, [], ◌∷◌, String, str_eq, get_elem?,
  if◌then◌else◌,
}
use marine_robotics_hil_sea.Base.Int.{ℤ, pos, negsuc}
use marine_robotics_hil_sea.Float.{Double, ◌⊕◌, ◌⊖◌, ◌⊗◌, neg, f1}
use marine_robotics_hil_sea.Velocity.State.{Params, VelocityNode}

-- The fields of `sensor_msgs::msg::JointState` that the callback reads.
pub record JointState (F : Type 0) : Type 0 where
  pub names : List String
  pub position : List F
  pub velocity : List F

-- The cached index is not negative, lies within the names, and names the joint.
unfoldable pub index_holds : List String → ℤ → String → Bool
index_holds names (negsuc _) joint = false
index_holds names (pos i) joint = elim (get_elem? names i) [
  | none ↦ false
  | some name ↦ str_eq name joint
]

-- The search from index `i` on; -1 where no name fits. Indices fit an `int`.
unfoldable pub find_index : List String → String → ℕ → ℤ
find_index [] joint i = negsuc 0
find_index (name ∷ names) joint i =
    if str_eq name joint then pos i else find_index names joint (i + 1)

unfoldable pub locate : List String → ℤ → String → ℤ
locate names cached joint =
    if index_holds names cached joint then cached else find_index names joint 0

abbrev pub oriented : {F : Type 0} ⦃d : Double F⦄ → Params F → F → F
oriented p raw = if p.invert_output then neg raw else raw

module _ {T F : Type 0} ⦃d : Double F⦄ where
  -- The first sample initialises the filter.
  unfoldable pub read_velocity : Option F → VelocityNode T F → VelocityNode T F
  read_velocity none s = s
  read_velocity (some sample) s =
      let raw = oriented s.params sample in
      let alpha = s.params.filter_alpha in
      let filtered =
        if s.filter_initialized then alpha ⊗ s.filtered_vel ⊕ (f1 ⊖ alpha) ⊗ raw else raw in
      record s { filtered_vel = filtered; filter_initialized = true; last_measured_vel = filtered }

  unfoldable pub read_position : Option F → VelocityNode T F → VelocityNode T F
  read_position none s = s
  read_position (some sample) s = record s { last_measured_pos = oriented s.params sample }

  unfoldable pub read_sample : ℤ → JointState F → VelocityNode T F → VelocityNode T F
  read_sample (negsuc _) msg s = s
  read_sample (pos i) msg s =
      read_position (get_elem? msg.position i) (read_velocity (get_elem? msg.velocity i) s)

  unfoldable pub joint_state_callback : JointState F → VelocityNode T F → VelocityNode T F
  joint_state_callback msg s =
      let index = locate msg.names s.joint_index s.joint_name in
      read_sample index msg (record s { joint_index = index })
