-- ===== src/Door/Node/Lifecycle.antt =====
-- node.py of the door and of the lift adapter, which are the same here: `start` and `stop` with the
-- thread of the asyncio loop and the pumps of the handles.
use open_rmf_adapters_quiksy.Base.{
  String, Bool, true, false, Option, none, some, List, [], ◌∷◌, ◌≡◌, refl, arith, inl, inr,
  Bool-cases, str_eq, if◌then◌else◌,
}
use open_rmf_adapters_quiksy.Base.Dict.{Dict, get, put}
use open_rmf_adapters_quiksy.Python.{Value, null}
use open_rmf_adapters_quiksy.Client.Ws.{WsClient, close}
use open_rmf_adapters_quiksy.Pump.{
  StatePump, PumpScene, PumpEvent, Callback, running, frame_arrives, turn_ends, subscription_raises,
  start, stop, pump_step,
}

-- `has_loop` is whether `_loop` is set; the handles share the client, and `world` is what their
-- callbacks work on.
pub record NodeRun (S : Type 0) : Type 0 where
  pub started : Bool
  pub has_loop : Bool
  pub pumps : Dict StatePump
  pub ws : WsClient
  pub world : S

-- A call of `start` or of `stop`, or what happens to the pump of a name in between.
pub data NodeEvent : Type 0 where
  node_start node_stop : NodeEvent
  frame_for : String → Value → NodeEvent
  turn_over failed : String → NodeEvent

-- `_start_all_pumps`
unfoldable pub start_all_pumps : Dict StatePump → Dict StatePump
start_all_pumps [] = []
start_all_pumps ((name, pump) ∷ pumps) = (name, start pump) ∷ start_all_pumps pumps

module _ {S : Type 0} where
  -- `_stop_all_pumps`
  unfoldable pub stop_all_pumps : Dict StatePump → WsClient → S → Dict StatePump × WsClient
  stop_all_pumps [] ws world = ([], ws)
  stop_all_pumps ((name, pump) ∷ pumps) ws world =
      let t = stop {S = S} (record { pump = pump; ws = ws; world = world }) in
      let (rest, last) = stop_all_pumps pumps t.ws world in ((name, t.pump) ∷ rest, last)

  abbrev pub started_node : NodeRun S → NodeRun S
  started_node n = record n { started = true; has_loop = true; pumps = start_all_pumps n.pumps }

  unfoldable pub start_node : NodeRun S → NodeRun S
  start_node n = if n.started then n else started_node n

  abbrev pub stopped_node : NodeRun S → NodeRun S
  stopped_node n =
      let (pumps, ws) = stop_all_pumps n.pumps n.ws n.world in
      record n { started = false; has_loop = false; pumps = pumps; ws = ws }

  unfoldable pub stop_node : NodeRun S → NodeRun S
  stop_node n = if n.started then (if n.has_loop then stopped_node n else n) else n

module _ {S : Type 0} (on_state : String → Callback S) where
  abbrev pub pump_event : String → PumpEvent → Option StatePump → NodeRun S → NodeRun S
  pump_event name e none n = n
  pump_event name e (some pump) n =
      let t = pump_step (on_state name) e (record { pump = pump; ws = n.ws; world = n.world }) in
      record n { pumps = put n.pumps name t.pump; ws = t.ws; world = t.world }

  unfoldable pub node_step : NodeEvent → NodeRun S → NodeRun S
  node_step node_start n = start_node n
  node_step node_stop n = stop_node n
  node_step (frame_for name frame) n = pump_event name (frame_arrives frame) (get n.pumps name) n
  node_step (turn_over name) n = pump_event name turn_ends (get n.pumps name) n
  node_step (failed name) n = pump_event name subscription_raises (get n.pumps name) n

  unfoldable pub node_run : List NodeEvent → NodeRun S → NodeRun S
  node_run [] n = n
  node_run (e ∷ es) n = node_run es (node_step e n)

abbrev pub is_idle : StatePump → Bool
is_idle p = elim p.task [ running ↦ false | _ ↦ true ]

abbrev pub AreIdle : Dict StatePump → Type 0
AreIdle [] = Unit
AreIdle ((name, pump) ∷ pumps) = (is_idle pump ≡ true) × AreIdle pumps

-- A node that is started has its loop, and one that is not has no pump that runs.
pub record IsLive {S : Type 0} (n : NodeRun S) : Type 0 where
  pub loop : n.started ≡ true → n.has_loop ≡ true
  pub idle : n.started ≡ false → AreIdle n.pumps

get-AreIdle :
    (pumps : Dict StatePump) (name : String) {pump : StatePump}
    → AreIdle pumps
    → get pumps name ≡ some pump
    → is_idle pump ≡ true
unfolding get
get-AreIdle [] name h g = absurd (ground (arith, g))
get-AreIdle ((other, first) ∷ pumps) name {pump} (here, rest) g =
    elim (Bool-cases (str_eq other name)) [
      | inl same ↦
          (let found : some first ≡ some pump = rw same at g in ground (arith, found, here))
      | inr differs ↦ get-AreIdle pumps name rest (rw differs at g)
    ]

put-AreIdle :
    (pumps : Dict StatePump) (name : String) (pump : StatePump)
    → AreIdle pumps
    → is_idle pump ≡ true
    → AreIdle (put pumps name pump)
unfolding put
put-AreIdle [] name pump h i = (i, tt)
put-AreIdle ((other, first) ∷ pumps) name pump (here, rest) i =
    elim (Bool-cases (str_eq other name)) [
      | inl same ↦ rw same (i, rest)
      | inr differs ↦ rw differs (here, put-AreIdle pumps name pump rest i)
    ]

module _ {S : Type 0} where
  if-IsLive :
      (b : Bool) {x y : NodeRun S}
      → (b ≡ true → IsLive x)
      → (b ≡ false → IsLive y)
      → IsLive (if b then x else y)
  if-IsLive true on off = on refl
  if-IsLive false on off = off refl

  stop_all_pumps-AreIdle :
      (pumps : Dict StatePump) (ws : WsClient) (world : S)
      → AreIdle (stop_all_pumps pumps ws world).0
  unfolding stop_all_pumps stop
  stop_all_pumps-AreIdle [] ws world = tt
  stop_all_pumps-AreIdle ((name, pump) ∷ pumps) ws world =
      (refl, stop_all_pumps-AreIdle pumps (close ws) world)

  start_node-IsLive : (n : NodeRun S) → IsLive n → IsLive (start_node n)
  unfolding start_node
  start_node-IsLive n h =
      if-IsLive n.started {x = n} {y = started_node n} (λ up. h)
        (λ down. record { loop = λ up. refl; idle = λ down. absurd (ground (arith, down)) })

  stop_node-IsLive : (n : NodeRun S) → IsLive n → IsLive (stop_node n)
  unfolding stop_node
  stop_node-IsLive n h =
      if-IsLive n.started {y = n}
        (λ up.
          if-IsLive n.has_loop {x = stopped_node n} {y = n}
            (λ has. record {
              loop = λ up. absurd (ground (arith, up));
              idle = λ down. stop_all_pumps-AreIdle n.pumps n.ws n.world;
            })
            (λ lost. h))
        (λ down. h)

  pump_step-idle :
      (on_state : Callback S) (frame : Value) (s : PumpScene S)
      → is_idle s.pump ≡ true
      → (is_idle (pump_step on_state (frame_arrives frame) s).pump ≡ true)
        × (is_idle (pump_step on_state turn_ends s).pump ≡ true)
        × (is_idle (pump_step on_state subscription_raises s).pump ≡ true)
  unfolding pump_step
  pump_step-idle on_state frame s h = (ground (arith, h), ground (arith, h), ground (arith, h))

module _ {S : Type 0} (on_state : String → Callback S) where
  -- An event of a pump that leaves an idle pump idle keeps the node live.
  pump_event-IsLive :
      (name : String) (e : PumpEvent) (n : NodeRun S)
      → ((s : PumpScene S)
          → is_idle s.pump ≡ true
          → is_idle (pump_step (on_state name) e s).pump ≡ true)
      → IsLive n
      → (found : Option StatePump) → get n.pumps name ≡ found
      → IsLive (pump_event on_state name e found n)
  pump_event-IsLive name e n keeps h none g = h
  pump_event-IsLive name e n keeps h (some pump) g = record {
    loop = h.loop;
    idle = λ down.
        put-AreIdle n.pumps name
          (pump_step (on_state name) e (record { pump = pump; ws = n.ws; world = n.world })).pump
          (h.idle down) (keeps _ (get-AreIdle n.pumps name (h.idle down) g));
  }

  node_step-IsLive : (e : NodeEvent) (n : NodeRun S) → IsLive n → IsLive (node_step on_state e n)
  unfolding node_step
  node_step-IsLive node_start n h = start_node-IsLive n h
  node_step-IsLive node_stop n h = stop_node-IsLive n h
  node_step-IsLive (frame_for name frame) n h =
      pump_event-IsLive name (frame_arrives frame) n
        (λ s i. (pump_step-idle (on_state name) frame s i).0) h (get n.pumps name) refl
  node_step-IsLive (turn_over name) n h =
      pump_event-IsLive name turn_ends n (λ s i. (pump_step-idle (on_state name) null s i).1) h
        (get n.pumps name) refl
  node_step-IsLive (failed name) n h =
      pump_event-IsLive name subscription_raises n
        (λ s i. (pump_step-idle (on_state name) null s i).2) h (get n.pumps name) refl

  -- Whatever sequence of starts, stops and events of the pumps a node goes through, it keeps this: a
  -- started node has its loop, and in a node that is not started no pump's task runs.
  pub node_run-IsLive :
      (es : List NodeEvent) (n : NodeRun S) → IsLive n → IsLive (node_run on_state es n)
  unfolding node_run
  node_run-IsLive [] n h = h
  node_run-IsLive (e ∷ es) n h =
      node_run-IsLive es (node_step on_state e n) (node_step-IsLive e n h)
