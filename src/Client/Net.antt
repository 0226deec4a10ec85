-- ===== src/Client/Net.antt =====
-- What the client has no hand in: the replies of Auth0 and of the QuikSync server through httpx, the
-- clock and the random numbers.  Each is a function of all that happened before, so that a theorem
-- over every `Net` is one over every behaviour of them.
use open_rmf_adapters_quiksy.Base.{ℕ, ◌+◌, String, Option, List, [], ◌∷◌}
use open_rmf_adapters_quiksy.Base.Int.{ℤ}
use open_rmf_adapters_quiksy.Base.Dict.{Dict}
use open_rmf_adapters_quiksy.Python.{Value}

pub data Method : Type 0 where
  get_method post_method delete_method : Method

-- What `_request_json` sends, but for the headers.
pub record Request : Type 0 where
  pub method : Method
  pub path : String
  pub body : Option Value
  pub params : Option (Dict String)

pub data Event : Type 0 where
  minted : Event
  read_clock : Event
  drew : Event
  sent : Request → Value → Event
  slept : ℕ → Event

-- The answer of Auth0: `httpx.HTTPError`, or a status and a body, which may not be JSON.
pub data MintReply : Type 0 where
  mint_lost : MintReply
  mint_status : ℕ → MintReply
  mint_body : Option Value → MintReply

-- The answer of the server: `httpx.HTTPError`, or a status with no content, with a JSON value, or
-- with a text that is not JSON.
pub data Content : Type 0 where
  no_content : Content
  json : Value → Content
  raw : String → Content

pub data HttpReply : Type 0 where
  lost : HttpReply
  response : ℕ → Content → HttpReply

-- Times are whole milliseconds.  `randint` gives whole seconds, and `random` millionths.
pub record Net : Type 0 where
  pub mint : List Event → MintReply
  pub respond : List Event → Request → Value → HttpReply
  pub clock : List Event → ℕ
  pub randint : List Event → ℤ
  pub random : List Event → ℕ

-- The requests that were sent, the last one first, as the log has them.
abbrev pub requests_of : List Event → List Request
requests_of [] = []
requests_of (sent q t ∷ log) = q ∷ requests_of log
requests_of (_ ∷ log) = requests_of log

abbrev pub mints : List Event → ℕ
mints [] = 0
mints (minted ∷ log) = mints log + 1
mints (_ ∷ log) = mints log
