-- ===== src/Lib.antt =====
-- QuikSync adapters for Open-RMF: a model of the logic of the fleet, the door and the lift adapter and
-- of the client library that they share.
--
-- The program.  packages/quiksync_client is the client: Auth0 tokens (auth.py), REST calls with
-- retries (http.py), subscriptions over WebSockets (ws.py), and the conversion of times
-- (time_conv.py).  Each adapter has pumps (state_pump.py) that drain a subscription into a callback,
-- and handles that translate between frames of the server and messages of ROS: door_handle.py,
-- lift_handle.py with session_manager.py, which keeps one session at a time on a lift, and
-- robot_handle.py with callbacks.py, which Open-RMF calls.  A node.py routes messages to the handles.
-- An adapter.py is the entry point: it loads the settings (config.py), builds the clients and runs the
-- adapter until it is interrupted; the one of the fleet binds its robots to rmf_adapter (binding.py).
--
-- The files.
--   Base      what all parts share: Boolean tests, lists, integers, dicts in insertion order, and
--             results with Python's exceptions
--   Python    the values of Python that the code handles, and the conversions int, float and str; what
--             depends on text formats or on rounding is the parameter `Runtime`; Text has `strip`,
--             `split` and `startswith`
--   Config    config.py of the three adapters: IdList (_normalise_id_list), Settings (what the three
--             from_dict share), Site (doors and lifts), Fleet, Url (ws_base_url)
--   Client    packages/quiksync_client/quiksync_client: TimeConv (time_conv.py), Auth (auth.py), Http
--             (http.py), Ws (ws.py); Net is what they are given from outside
--   Lift      packages/lift_adapter_quiksync/lift_adapter_quiksync: Session (session_manager.py),
--             Request, State and Handle (lift_handle.py), Node (node.py)
--   Door      packages/door_adapter_quiksync/door_adapter_quiksync: Handle (door_handle.py), Node (node.py)
--             with Lifecycle (start and stop of the two nodes)
--   Pump      state_pump.py of the door and the lift adapter, and, in Fleet, that of the fleet adapter
--   Fleet     packages/fleet_adapter_quiksync/fleet_adapter_quiksync: Robot (robot_handle.py),
--             Callbacks (callbacks.py), Binding (binding.py), Adapter (adapter.py)
--   Site      adapter.py of the door and the lift adapter, which are the same but for names
-- Base.Act has code that calls out of the program, with a log of its calls: the entry points and the
-- binding are of that kind, and `try_finally` and `try_except` are the statements of Python.
-- A method is a function of the same name from the state of its object to the new state, with a result
-- where it returns or raises one; where two parts have a method of the same name, the part stands in
-- the name (`dispatch_door_request`).  Reads of the clock, random numbers and fresh identifiers are
-- arguments, or functions of what happened before.  A method under `with self._lock` is one step.
--
-- Parameters.  httpx, websockets, rclpy and rmf_adapter are not in the repository.  `Net` gives every
-- reply of the servers as a function of all earlier events; `LiftPorts`, `DoorPorts`, `RmfPorts` and
-- `CommandPorts` give the calls of a handle over a state of their own, `AdapterPorts`, `EntryPorts` and
-- `SitePorts` those of the binding and of the entry points.  The file system, the YAML parser and the
-- environment are functions that config.py is given.  A theorem over all of them is
-- one over every behaviour of those libraries, exceptions included.
--
-- Bounds.  The retry loop counts down the attempts that are left, the subscription runs over the list
-- of what the network does, and the dry run of the fleet has its thirty pauses.  Only the dry run of the
-- doors and lifts runs on fuel, one unit a round; it is enough when the clock reaches the deadline in a
-- round before the last.  Times are whole milliseconds, and
-- seconds for sessions; random numbers are whole millionths.  The numbers of the model are unbounded, as
-- Python's are; floats are exact fractions or one of the special values, and only parameters round.
--
-- Not modelled: log calls, argument parsers and the texts of exceptions; the asyncio threads of
-- the nodes and of the fleet's pump with their time limits, so that two pumps or a pump and a ROS
-- callback interleave only between methods; build_door_state_msg and build_lift_state_msg; keys
-- of settings that are no texts; names of robots that count as true and are no texts, where the
-- model of the fleet stops with `outside_model`; sessions in the frames of lifts that are no
-- texts, which the type `LiftFrame` leaves out; what the threads of pumps do to the clients,
-- other than in dry runs; a `KeyboardInterrupt` from the publisher of a handle, which its model
-- takes as any other exception; and the pydantic types (types.py).
pub mod Base
pub mod Python
pub mod Config
pub mod Client
pub mod Lift
pub mod Door
pub mod Pump
pub mod Fleet
pub mod Site
