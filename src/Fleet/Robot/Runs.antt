-- ===== src/Fleet/Robot/Runs.antt =====
-- robot_handle.py: the registration over a sequence of frames.
use open_rmf_adapters_quiksy.Base.{
  ℕ, All, length, ap, ◌+◌, true, String, none, some, List, [], ◌∷◌, ◌≡◌, ◌∙◌, refl, arith,
}
use open_rmf_adapters_quiksy.Base.Exec.{ok}
use open_rmf_adapters_quiksy.Python.{Value}
use open_rmf_adapters_quiksy.Python.Runtime.{Runtime}
use open_rmf_adapters_quiksy.Fleet.Robot.{
  RmfPorts, RobotScene, bind, to_rmf_robot_state, attempt_lazy_register, on_translated_state,
  on_state,
}
use open_rmf_adapters_quiksy.Fleet.Robot.Laws.{StaysBound, on_state-StaysBound}

module _ {S T H : Type 0} (rt : Runtime) (io : RmfPorts S T H) where
  unfoldable pub on_states : List Value → RobotScene S H → RobotScene S H
  on_states [] s = s
  on_states (v ∷ vs) s = on_states vs (on_state rt io v s).1

  -- A registered robot keeps the update handle that it has over every sequence of frames, and no
  -- further frame is counted as dropped or rejected.
  pub on_states-StaysBound :
      (vs : List Value) (s : RobotScene S H) (rmf : H)
      → s.handle.rmf_handle ≡ some rmf
      → StaysBound rmf s.handle (on_states vs s).handle
  unfolding on_states
  on_states-StaysBound [] s rmf h = record { handle = h; dropped = refl; rejected = refl }
  on_states-StaysBound (v ∷ vs) s rmf h =
      let a = on_state-StaysBound rt io v s rmf h in
      let b = on_states-StaysBound vs (on_state rt io v s).1 rmf a.handle in
      record {
        handle = b.handle;
        dropped = b.dropped ∙ a.dropped;
        rejected = b.rejected ∙ a.rejected;
      }

  -- What a valid frame leaves of a prepared robot that `add_robot` does not take.
  pub record IsRefused (t' : T) (s t : RobotScene S H) : Type 0 where
    pub handle : t.handle.rmf_handle ≡ none
    pub name : t.handle.robot_name ≡ s.handle.robot_name
    pub prepared : t.handle.prepared ≡ true
    pub world : t.world ≡ (io.add_robot s.handle.robot_name t' s.world).1
    pub rejected : t.handle.registrations_rejected ≡ s.handle.registrations_rejected + 1
    pub pushed : t.handle.updates_pushed ≡ s.handle.updates_pushed

  on_state-IsRefused :
      (v : Value) (t : T) (s : RobotScene S H)
      → s.handle.rmf_handle ≡ none
      → s.handle.prepared ≡ true
      → to_rmf_robot_state rt io v ≡ ok (some t)
      → (io.add_robot s.handle.robot_name t s.world).0 ≡ ok none
      → IsRefused t s (on_state rt io v s).1
  unfolding on_state on_translated_state attempt_lazy_register
  on_state-IsRefused v t s n p e refused = ground (arith, n, p, e, refused)

  on_state_accepted :
      (v : Value) (t : T) (rmf : H) (s : RobotScene S H)
      → s.handle.rmf_handle ≡ none
      → s.handle.prepared ≡ true
      → to_rmf_robot_state rt io v ≡ ok (some t)
      → (io.add_robot s.handle.robot_name t s.world).0 ≡ ok (some rmf)
      → ((on_state rt io v s).1.handle.rmf_handle ≡ some rmf)
        × ((on_state rt io v s).1.handle.updates_pushed ≡ s.handle.updates_pushed + 1)
        × ((on_state rt io v s).1.handle.registrations_rejected ≡ s.handle.registrations_rejected)
  unfolding on_state on_translated_state attempt_lazy_register bind
  on_state_accepted v t rmf s n p e taken = ground (arith, n, p, e, taken)

  -- Frames with the robot states that they are translated to.
  abbrev pub Translates : Value × T → Type 0
  Translates (v, t) = to_rmf_robot_state rt io v ≡ ok (some t)

  -- The frames of a list, and one more.
  abbrev pub frames_then : List (Value × T) → Value → List Value
  frames_then [] last = last ∷ []
  frames_then ((v, t) ∷ rest) last = v ∷ frames_then rest last

  -- `add_robot` gives None for each state of a list in turn, and then an update handle.
  abbrev pub AcceptsAfter : List (Value × T) → String → T → H → S → Type 0
  AcceptsAfter [] name last rmf w = (io.add_robot name last w).0 ≡ ok (some rmf)
  AcceptsAfter ((v, t) ∷ rest) name last rmf w =
      ((io.add_robot name t w).0 ≡ ok none)
      × AcceptsAfter rest name last rmf (io.add_robot name t w).1

  pub record IsRegistered (n : ℕ) (rmf : H) (s t : RobotScene S H) : Type 0 where
    pub handle : t.handle.rmf_handle ≡ some rmf
    pub rejected : t.handle.registrations_rejected ≡ s.handle.registrations_rejected + n
    pub pushed : t.handle.updates_pushed ≡ s.handle.updates_pushed + 1

  -- A prepared robot that is off the graph in each of some valid frames and on it in the next one is
  -- registered by then, with the handle that `add_robot` gave, one push counted and as many rejections
  -- as there were frames off the graph.
  pub on_states-IsRegistered :
      (off : List (Value × T)) (v : Value) (t : T) (rmf : H) (s : RobotScene S H)
      → s.handle.rmf_handle ≡ none
      → s.handle.prepared ≡ true
      → All Translates off
      → to_rmf_robot_state rt io v ≡ ok (some t)
      → AcceptsAfter off s.handle.robot_name t rmf s.world
      → IsRegistered (length off) rmf s (on_states (frames_then off v) s)
  unfolding on_states
  on_states-IsRegistered [] v t rmf s h p valid e taken =
      let a = on_state_accepted v t rmf s h p e taken in
      record { handle = a.0; rejected = omega (arith, a.2); pushed = a.1 }
  on_states-IsRegistered ((u, x) ∷ off) v t rmf s h p (here, valid) e (refused, later) =
      let a = on_state-IsRefused u x s h p here refused in
      let next = (on_state rt io u s).1 in
      let rest : AcceptsAfter off next.handle.robot_name t rmf next.world =
        rw a.name (rw a.world later) in
      let b = on_states-IsRegistered off v t rmf next a.handle a.prepared valid e rest in
      record {
        handle = b.handle;
        rejected = omega (arith, a.rejected, b.rejected);
        pushed = b.pushed ∙ ap (λ k. k + 1) a.pushed;
      }
