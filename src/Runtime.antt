-- ===== src/Runtime.antt =====
-- What the services run on: exceptions as values, the two tables, and the world outside (the clock,
-- the HTTP servers, the random source), which answers each question that the program asks in turn.
pub mod Contracts
pub mod Results
pub mod Integers
pub mod Samples
use b24_sinedis.Prelude.{
  ℕ, zero, suc, String, ◌≡◌, refl, Option, none, some, List, [], ◌∷◌, ℤ, Bool,
}
use b24_sinedis.Value.{Value, Fields}
use b24_sinedis.Jobs.Model.{Table}
use b24_sinedis.Portals.{BitrixPortal}
use b24_sinedis.Buttons.Model.{WorkflowButton, WorkflowLaunch}
use b24_sinedis.Bitrix.Exceptions.{Failure}

pub data Result {ℓ} (A : Type ℓ) : Type ℓ where
  ok : A → Result A
  raised : Failure → Result A

-- What the program reads of an `httpx.Response`; `json` is absent where `response.json()` raises
-- ValueError.
pub record HttpResponse : Type 0 where
  pub status_code : ℕ
  pub content_type : Option String
  pub retry_after : Option String
  pub json : Option Value

-- What comes of one `post`.
pub data Exchange : Type 0 where
  response : HttpResponse → Exchange
  timeout : Exchange
  request_error : Exchange

pub record HttpRequest : Type 0 where
  pub url : String
  pub body : Fields

-- The parts of `urlsplit` that the program reads.
pub record SplitUrl : Type 0 where
  pub scheme : String
  pub netloc : String
  pub path : String
  pub query : String
  pub fragment : String
  pub hostname : Option String
  pub username : Option String
  pub password : Option String
  pub port : Option ℕ

-- Everything outside the program. The clock, the servers and the random source are asked in turn: the
-- first argument counts the questions. Random values are in millionths.
pub record Env : Type 0 where
  pub clock : ℕ → ℕ
  pub database_clock : ℕ → ℕ
  pub server : ℕ → HttpRequest → Exchange
  pub random : ℕ → ℤ
  -- `urlsplit` with `hostname` and `port`, absent where one raises ValueError
  pub urlsplit : String → Option SplitUrl
  -- `parsedate_to_datetime`, a date without a zone read as UTC; absent where it raises
  pub parse_http_date : String → Option ℕ
  -- `datetime.fromisoformat`: the instant and whether it has a zone; absent where it raises
  pub from_iso_format : String → Option (ℕ × Bool)
  pub iso_format : ℕ → String
  -- `json.dumps(…, ensure_ascii=False, separators=(",", ":"), default=str)`, and `str` of a number
  pub dumps : Value → String
  pub show : Value → String
  -- `parse_jsonpath(expression).find(value)`, absent where the parser raises
  pub jsonpath : String → Value → Option (List Value)
  -- the encryption service
  pub encrypt : String → String
  pub decrypt : String → Option String

pub record World : Type 0 where
  pub jobs : Table
  pub portals : List BitrixPortal
  pub buttons : List WorkflowButton
  pub launches : List WorkflowLaunch
  -- what was sent, the latest request first
  pub sent : List HttpRequest
  pub readings : ℕ
  pub transactions : ℕ
  pub exchanges : ℕ
  pub draws : ℕ

-- A coroutine. What it wrote before it raised stays written.
abbrev pub Action : Type 0 → Type 0
Action A = World → Result A × World

module _ {A B : Type 0} where
  abbrev pub then_do : Result A → (A → Action B) → Action B
  then_do (ok a) k w = k a w
  then_do (raised e) k w = (raised e, w)

  infixl 5 ◌>>=◌ ◌>>◌
  unfoldable pub ◌>>=◌ : Action A → (A → Action B) → Action B
  ◌>>=◌ m k w = let (r, w') = m w in then_do r k w'

  abbrev pub ◌>>◌ : Action A → Action B → Action B
  m >> n = m >>= λ _. n

  abbrev pub settle : (A → Action B) → (Failure → Action B) → Result A → Action B
  settle k h (ok a) = k a
  settle k h (raised e) = h e

  -- try m, except by `h`, else `k`
  unfoldable pub try_else : Action A → (Failure → Action B) → (A → Action B) → Action B
  try_else m h k w = let (r, w') = m w in settle k h r w'

module _ {A : Type 0} where
  unfoldable pub pure : A → Action A
  pure a w = (ok a, w)

  unfoldable pub raise : Failure → Action A
  raise e w = (raised e, w)

  unfoldable pub lift : Result A → Action A
  lift r w = (r, w)

module _ (env : Env) where
  -- datetime.now(UTC)
  unfoldable pub read_clock : Action ℕ
  read_clock w = (ok (env.clock w.readings), record w { readings = suc w.readings })

  unfoldable pub draw : Action ℤ
  draw w = (ok (env.random w.draws), record w { draws = suc w.draws })

  unfoldable pub post : HttpRequest → Action Exchange
  post q w =
      (ok (env.server w.exchanges q), record w { sent = q ∷ w.sent; exchanges = suc w.exchanges })

  -- One transaction on the jobs, which is given the time of the database.
  unfoldable pub transact : {A : Type 0} → (ℕ → Table → A × Table) → Action A
  transact f w =
      let (a, t) = f (env.database_clock w.transactions) w.jobs in
      (ok a, record w { jobs = t; transactions = suc w.transactions })
