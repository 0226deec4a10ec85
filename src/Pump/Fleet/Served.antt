-- ===== src/Pump/Fleet/Served.antt =====
-- state_pump.py of the fleet adapter: which robots of a frame reach the callback.
use open_rmf_adapters_quiksy.Base.{
  ℕ, ◌+◌, String, Bool, true, false, List, [], ◌∷◌, ◌≡◌, is_empty, if◌then◌else◌,
}
use open_rmf_adapters_quiksy.Base.Exec.{Result, ok, err, is_ok}
use open_rmf_adapters_quiksy.Python.{Value, Items, Fields, null, str, dict, nil, cons, end, field}
use open_rmf_adapters_quiksy.Pump.{PumpScene}
use open_rmf_adapters_quiksy.Pump.Counts.{raises_caught}
use open_rmf_adapters_quiksy.Pump.Fleet.{RobotCallback}

-- What a frame has under one key of `robots`: a robot by its name and its other fields, or something
-- that is no dict.
pub data Entry : Type 0 where
  robot : String → Fields → Entry
  nothing : Entry

abbrev pub entry_value : Entry → Value
entry_value (robot name fs) = dict (field "name" (str name) fs)
entry_value nothing = null

abbrev pub as_list : List (String × Entry) → Items
as_list [] = nil
as_list ((key, e) ∷ es) = cons (entry_value e) (as_list es)

abbrev pub as_map : List (String × Entry) → Fields
as_map [] = end
as_map ((key, e) ∷ es) = field key (entry_value e) (as_map es)

module _ {S : Type 0} (on_robot_state : RobotCallback S) where
  -- The callback raises, of all exceptions, only an `Exception`.
  abbrev pub IsCaughtRobot : Type 0
  IsCaughtRobot = (name v : Value) (w : S) → raises_caught (on_robot_state name v w).0 ≡ true

  -- the world after the callback had each robot with a name, in order, and how often it returned
  abbrev pub entries_world : List (String × Entry) → S → S
  entries_world [] w = w
  entries_world ((key, nothing) ∷ es) w = entries_world es w
  entries_world ((key, robot name fs) ∷ es) w = entries_world es (
      if is_empty name
      then w
      else (on_robot_state (str name) (dict (field "name" (str name) fs)) w).1)

  abbrev pub entries_ok : List (String × Entry) → S → ℕ
  entries_ok [] w = 0
  entries_ok ((key, nothing) ∷ es) w = entries_ok es w
  entries_ok ((key, robot name fs) ∷ es) w =
      let (r, w') = on_robot_state (str name) (dict (field "name" (str name) fs)) w in
      if is_empty name then entries_ok es w else (if is_ok r then 1 else 0) + entries_ok es w'

  -- The call returns, the frames count on, and the entries are served.
  pub record HasServed (es : List (String × Entry)) (more : ℕ) (s : PumpScene S)
      (x : Result (Unit {0}) × PumpScene S) : Type 0 where
    pub returned : x.0 ≡ ok tt
    pub frames : x.1.pump.frames_seen ≡ s.pump.frames_seen + more
    pub dispatches : x.1.pump.dispatches_ok ≡ s.pump.dispatches_ok + entries_ok es s.world
    pub world : x.1.world ≡ entries_world es s.world

  -- what the answer for a robot makes of the pump, where its name may be empty
  abbrev counted : Bool → Result (Unit {0}) × S → PumpScene S → PumpScene S
  counted true answer s = s
  counted false (ok done, w) s = record s {
    pump = record (s.pump) { dispatches_ok = s.pump.dispatches_ok + 1 };
    world = w;
  }
  counted false (err e, w) s = record s { world = w }

  abbrev answer_for : String → Fields → S → Result (Unit {0}) × S
  answer_for name fs w = on_robot_state (str name) (dict (field "name" (str name) fs)) w
