-- ===== src/Runtime/Samples.antt =====
-- A scripted server, one portal and small worlds, on which the tests run.
use b24_sinedis.Prelude.{
  String, Bool, ◌==◌, comparable_texts, ℕ, ◌+◌, ◌*◌, true, none, some, [], ◌∷◌, pos,
}
use b24_sinedis.Value.{Value, obj, null, bool, field, end}
use b24_sinedis.Settings.{second}
use b24_sinedis.Portals.{BitrixPortal, active}
use b24_sinedis.Jobs.Model.{Table}
use b24_sinedis.Runtime.{Result, ok, Exchange, response, SplitUrl, Env, World}

abbrev pub split_portal : SplitUrl
split_portal = record {
  scheme = "https";
  netloc = "portal.example";
  path = "/rest/";
  query = "";
  fragment = "";
  hostname = some "portal.example";
  username = none;
  password = none;
  port = none;
}

abbrev pub answer : ℕ → Value → Exchange
answer status body = response (record {
  status_code = status;
  content_type = some "application/json";
  retry_after = none;
  json = some body;
})

-- A server that gives every request the same answer.
abbrev pub answering : Exchange → Env
answering e = record {
  clock = λ n. 700 + n;
  database_clock = λ n. 700 + n;
  server = λ n q. e;
  random = λ n. pos 500000;
  urlsplit = λ s. some split_portal;
  parse_http_date = λ s. none;
  from_iso_format = λ s. some (100, true);
  iso_format = λ n. "1970-01-01T00:00:00+00:00";
  dumps = λ v. "null";
  show = λ v. "0";
  jsonpath = λ s v. some (v ∷ []);
  encrypt = λ s. s;
  decrypt = λ s. some s;
}

abbrev pub willing : Env
willing = answering (answer 200 (obj (field "result" (bool true) end)))

abbrev pub broken : Env
broken = answering (answer 503 null)

abbrev pub portal : BitrixPortal
portal = record {
  id = 7;
  member_id = "m";
  domain = "portal.example";
  client_endpoint = "https://portal.example/rest/";
  server_endpoint = some "https://oauth.example/rest/";
  access_token_encrypted = some "access";
  refresh_token_encrypted = some "refresh";
  token_expires_at = some (100 * second);
  application_token_hash = none;
  status = active;
}

-- This portal, these jobs, and nothing sent yet.
abbrev pub world : Table → World
world jobs = record {
  jobs = jobs;
  portals = portal ∷ [];
  buttons = [];
  launches = [];
  sent = [];
  readings = 0;
  transactions = 0;
  exchanges = 0;
  draws = 0;
}

-- A verification that accepts one token.
abbrev pub accepting : String → String → Result Bool
accepting token stored_hash = ok (token == "application")

abbrev pub identity : String → String
identity s = s

abbrev pub installed : World
installed = record (world []) {
  portals = record portal { application_token_hash = some "hash" } ∷ [];
}
