-- ===== src/Velocity/Index.antt =====
-- The cached joint index: where `joint_state_callback` finds the joint.
use mathlib.Core.Option.{some-injective}
use native.Mathlib.Nat.{sub_self, sub-zero}
use marine_robotics_hil_sea.Base.{
  ℕ, zero, suc, ◌+◌, ◌-◌, ◌≤◌, ◌≡◌, ◌≢◌, ap, true, false, Bool-cases, inl, inr, arith, List, [],
  ◌∷◌, some, Option-cases, String, str_eq, eq_iff, get_elem?,
}
use marine_robotics_hil_sea.Base.Int.{ℤ, pos, negsuc}
use marine_robotics_hil_sea.Float.{Double}
use marine_robotics_hil_sea.Velocity.State.{VelocityNode}
use marine_robotics_hil_sea.Velocity.Joint.{
  JointState, index_holds, find_index, locate, joint_state_callback, read_sample, read_position,
  read_velocity,
}

-- An index that is not negative names the joint; a negative one says that no name is the joint's.
abbrev pub Located : List String → String → ℤ → Type 0
Located names joint (pos i) = get_elem? names i ≡ some joint
Located names joint (negsuc k) = (i : ℕ) → get_elem? names i ≢ some joint

-- The same for a search that starts at `from`.
abbrev LocatedFrom : List String → String → ℕ → ℤ → Type 0
LocatedFrom names joint from (pos i) = (from ≤ i) × (get_elem? names (i - from) ≡ some joint)
LocatedFrom names joint from (negsuc k) = (i : ℕ) → get_elem? names i ≢ some joint

not-here :
    (name joint : String) (names : List String) (i : ℕ)
    → str_eq name joint ≡ false
    → ((k : ℕ) → get_elem? names k ≢ some joint)
    → get_elem? (name ∷ names) i ≢ some joint
not-here name joint names zero other rest e =
    ground (arith, eq_iff name joint, some-injective name joint e)
not-here name joint names (suc i) other rest e = rest i e

LocatedFrom-cons :
    (name joint : String) (names : List String) (from : ℕ) (z : ℤ)
    → str_eq name joint ≡ false
    → LocatedFrom names joint (from + 1) z
    → LocatedFrom (name ∷ names) joint from z
LocatedFrom-cons name joint names from (pos i) other (le, found) =
    let step : i - from ≡ suc (i - (from + 1)) = omega arith in (omega arith, rw step found)
LocatedFrom-cons name joint names from (negsuc k) other absent =
    λ i. not-here name joint names i other absent

find_index-LocatedFrom :
    (names : List String) (joint : String) (from : ℕ)
    → LocatedFrom names joint from (find_index names joint from)
unfolding find_index
find_index-LocatedFrom [] joint from = λ i. (λ e. cc)
find_index-LocatedFrom (name ∷ names) joint from = elim (Bool-cases (str_eq name joint)) [
  | inl here ↦ rw here (omega arith, rw (sub_self from) (ap some ((eq_iff name joint).0 here)))
  | inr there ↦ rw there (
      LocatedFrom-cons name joint names from (find_index names joint (from + 1)) there
        (find_index-LocatedFrom names joint (from + 1)))
]

Located-of_from :
    (names : List String) (joint : String) (z : ℤ)
    → LocatedFrom names joint 0 z
    → Located names joint z
Located-of_from names joint (pos i) (le, found) = rw (← sub-zero i) found
Located-of_from names joint (negsuc k) absent = absent

Located-of_holds :
    (names : List String) (joint : String) (z : ℤ)
    → index_holds names z joint ≡ true
    → Located names joint z
unfolding index_holds
Located-of_holds names joint (negsuc k) h = cc
Located-of_holds names joint (pos i) h = elim (Option-cases (get_elem? names i)) [
  | inl e ↦ ground arith
  | inr (name, e) ↦ ground (arith, eq_iff name joint)
]

locate-Located :
    (names : List String) (cached : ℤ) (joint : String)
    → Located names joint (locate names cached joint)
unfolding locate
locate-Located names cached joint = elim (Bool-cases (index_holds names cached joint)) [
  | inl kept ↦ rw kept (Located-of_holds names joint cached kept)
  | inr lost ↦ rw lost (
      Located-of_from names joint (find_index names joint 0) (find_index-LocatedFrom names joint 0))
]

module _ {T F : Type 0} ⦃d : Double F⦄ where
  read_sample-joint_index :
      (z : ℤ) (msg : JointState F) (s : VelocityNode T F)
      → (read_sample z msg s).joint_index ≡ s.joint_index
  unfolding read_sample read_position read_velocity
  read_sample-joint_index z msg s = ground arith

  -- After the callback the index names the joint in the message, whatever was cached before; it is
  -- negative only if the message does not have the joint.
  pub joint_state_callback-Located :
      (msg : JointState F) (s : VelocityNode T F)
      → Located msg.names s.joint_name (joint_state_callback msg s).joint_index
  unfolding joint_state_callback
  joint_state_callback-Located msg s =
      let index = locate msg.names s.joint_index s.joint_name in
      rw (read_sample-joint_index index msg (record s { joint_index = index }))
        (locate-Located msg.names s.joint_index s.joint_name)
