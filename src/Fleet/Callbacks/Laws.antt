-- ===== src/Fleet/Callbacks/Laws.antt =====
-- callbacks.py: what a command does, by what the client answers.
use open_rmf_adapters_quiksy.Base.{
  Bool-cases, ap, none, String, false, Option, some, ◌≡◌, ◌⊎◌, inl, inr, refl, arith, if◌then◌else◌,
  is_empty, str_eq,
}
use open_rmf_adapters_quiksy.Base.Exec.{
  client_error, server_error, connection_error, Exn, Result, ok, err,
}
use open_rmf_adapters_quiksy.Python.{
  Value, Float, float, str, object, field, end, getattr, hasattr, find,
}
use open_rmf_adapters_quiksy.Python.Runtime.{Runtime, to_float}
use open_rmf_adapters_quiksy.Fleet.Robot.{RobotHandle, set_current_activity}
use open_rmf_adapters_quiksy.Fleet.Callbacks.{
  Destination, coordinate, yaw_of, destination_at, with_position, extract_destination, dock_name,
  speed_limit, activity_identifier, CommandPorts, CommandScene, is_logged, after_post, navigate_to,
  navigate, stop, action_executor,
}

-- An rmf_adapter destination with a point that has `x`, `y` and `yaw`
abbrev pub point : Float → Float → Float → Value
point x y yaw = object (field "x" (float x) (field "y" (float y) (field "yaw" (float yaw) end)))

abbrev pub destination_object : Destination → Value
destination_object d =
    object (field "map" (str d.map_name) (field "position" (point d.x d.y d.yaw) end))

-- What a failed POST comes to: the callbacks log three kinds of errors, the others go on.
abbrev pub outcome_of : Exn → Result (Unit {0})
outcome_of (client_error status code) = ok tt
outcome_of (server_error status) = ok tt
outcome_of connection_error = ok tt
outcome_of e = err e

is_logged-outcome_of : (e : Exn) → (if is_logged e then ok tt else err e) ≡ outcome_of e
is_logged-outcome_of (client_error status code) = refl
is_logged-outcome_of (server_error status) = refl
is_logged-outcome_of connection_error = refl
is_logged-outcome_of e = refl

-- How a command ended, by the answer of the POST and the world after it: a reply sets the activity
-- that Open-RMF is to see, an error leaves it.
abbrev pub Answered :
    {S H : Type 0}
    → Value
    → Result Value × S
    → RobotHandle H
    → Result (Unit {0}) × CommandScene S H
    → Type 0
Answered activity (ok reply, w) h x =
    x ≡ (ok tt, record { handle = record h { current_activity = activity }; world = w })
Answered activity (err e, w) h x = x ≡ (outcome_of e, record { handle = h; world = w })

module _ (rt : Runtime) where
  module _ (x y yaw : Float) where
    at_x : coordinate rt (point x y yaw) "x" 0 ≡ ok x
    unfolding coordinate hasattr getattr find str_eq to_float
    at_x = refl

    at_y : coordinate rt (point x y yaw) "y" 1 ≡ ok y
    unfolding coordinate hasattr getattr find str_eq to_float
    at_y = refl

    at_yaw : yaw_of rt (point x y yaw) ≡ ok yaw
    unfolding yaw_of hasattr getattr find str_eq to_float
    at_yaw = refl

  -- A destination with a named map and a point of floats is extracted as it is.
  pub extract_destination-destination_object :
      (d : Destination)
      → is_empty d.map_name ≡ false
      → extract_destination rt (destination_object d) ≡ ok (some d)
  unfolding extract_destination with_position destination_at getattr find str_eq
  extract_destination-destination_object d h =
      ground (arith, at_x d.x d.y d.yaw, at_y d.x d.y d.yaw, at_yaw d.x d.y d.yaw)

module _ {S H : Type 0} (rt : Runtime) (io : CommandPorts S) where
  after_post-Answered :
      (activity : Value) (r : Result Value) (w : S) (h : RobotHandle H)
      → Answered activity (r, w) h (after_post (set_current_activity activity) (r, w) h)
  unfolding after_post set_current_activity
  after_post-Answered activity (ok reply) w h = refl
  after_post-Answered activity (err e) w h =
      ap (λ r. (r, record { handle = h; world = w })) (is_logged-outcome_of e)

  -- How a navigation ends, by what its destination and its speed limit are read as.
  abbrev pub Navigated :
      Value
      → Value
      → String
      → CommandScene S H
      → Result (Option Destination)
      → Result (Option Float)
      → Result (Unit {0}) × CommandScene S H
      → Type 0
  Navigated d execution id s (ok (some body)) (ok limit) x =
      Answered (activity_identifier execution)
        (io.post_navigate s.handle.robot_name id body (dock_name d) limit s.world) s.handle x
  Navigated d execution id s (ok (some body)) (err e) x = x ≡ (err e, s)
  Navigated d execution id s (ok none) limit x = x ≡ (ok tt, s)
  Navigated d execution id s (err e) limit x = x ≡ (err e, s)

  navigate_to-Navigated :
      (d execution : Value) (id : String) (s : CommandScene S H) (body : Destination)
      (limit : Result (Option Float))
      → speed_limit rt d ≡ limit
      → Navigated d execution id s
          (ok (some body))
          limit
          (navigate_to rt io (some body) d execution id s)
  unfolding navigate_to
  navigate_to-Navigated d execution id s body (ok limit) l =
      let (r, w) = io.post_navigate s.handle.robot_name id body (dock_name d) limit s.world in
      rw (l, navigate_to) (after_post-Answered (activity_identifier execution) r w s.handle)
  navigate_to-Navigated d execution id s body (err e) l = rw (l, navigate_to) refl

  navigate-Navigated :
      (d execution : Value) (id : String) (s : CommandScene S H)
      (body : Result (Option Destination))
      → extract_destination rt d ≡ body
      → Navigated d execution id s body (speed_limit rt d) (navigate rt io d execution id s)
  unfolding navigate navigate_to
  navigate-Navigated d execution id s (ok (some body)) e =
      rw (e, navigate) (navigate_to-Navigated d execution id s body (speed_limit rt d) refl)
  navigate-Navigated d execution id s (ok none) e = rw (e, navigate) refl
  navigate-Navigated d execution id s (err x) e = rw (e, navigate) refl

  -- A navigation whose destination gives no body does nothing, and one whose destination or speed
  -- limit cannot be read raises that error and posts nothing.  Every other one is posted, and the
  -- world is what the POST leaves: a reply sets the activity; an error leaves it, and is raised again
  -- unless it is a client error, a server error or a connection error, which are not raised.
  pub navigate-Answered :
      (d execution : Value) (id : String) (s : CommandScene S H)
      → Navigated d execution id s
          (extract_destination rt d)
          (speed_limit rt d)
          (navigate rt io d execution id s)
  navigate-Answered d execution id s =
      navigate-Navigated d execution id s (extract_destination rt d) refl

  -- An action is posted whatever its category is, and ends as the answer says.
  pub action_executor-Answered :
      (category : String) (description execution : Value) (id : String) (s : CommandScene S H)
      → Answered
          (activity_identifier execution)
          (io.post_perform_action s.handle.robot_name id category description s.world)
          s.handle
          (action_executor rt io category description execution id s)
  unfolding action_executor
  action_executor-Answered category description execution id s =
      let (r, w) = io.post_perform_action s.handle.robot_name id category description s.world in
      after_post-Answered (activity_identifier execution) r w s.handle

  -- How a stop may end, with the answer of its POST.
  pub record IsStopped (r : Result Value) (h : RobotHandle H)
      (x : Result (Unit {0}) × CommandScene S H) : Type 0 where
    pub kept : x.1.handle ≡ h
    pub outcome : (x.0 ≡ ok tt) ⊎ ((e : Exn) × (x.0 ≡ err e) × (r ≡ err e) × (is_logged e ≡ false))

  after_post-IsStopped :
      (r : Result Value) (w : S) (h : RobotHandle H) → IsStopped r h (after_post (λ k. k) (r, w) h)
  unfolding after_post
  after_post-IsStopped (ok reply) w h = record { kept = refl; outcome = inl refl }
  after_post-IsStopped (err e) w h = elim (Bool-cases (is_logged e)) [
    | inl logged ↦ record { kept = refl; outcome = inl (rw logged refl) }
    | inr raised ↦ record { kept = refl; outcome = inr (e, rw raised refl, refl, raised) }
  ]

  -- A stop never changes the activity, whatever the server answers, and raises only what the three
  -- `except` clauses do not name, as the client raised it.
  pub stop-IsStopped :
      (id : String) (s : CommandScene S H)
      → IsStopped (io.post_stop s.handle.robot_name id s.world).0 s.handle (stop rt io id s)
  unfolding stop
  stop-IsStopped id s =
      let (r, w) = io.post_stop s.handle.robot_name id s.world in after_post-IsStopped r w s.handle
