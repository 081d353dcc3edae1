-- ===== src/Tests/Values.antt =====
-- Data for the tests: a reading of JSON and of numbers that knows one text each, and storages.
use mcpxy.Prelude.{ℕ, String, Option, none, some, true, ◌==◌, or_else, if◌then◌else◌}
use mcpxy.Api.Json.{Json, null}
use mcpxy.Api.Types.{MeResponse, pos}
use mcpxy.Api.Client.{Storage, Parsed, value, syntax_error, Response, text}
use mcpxy.Numbers.{Numbers}

abbrev pub parse_null : String → Option Json
parse_null s = if s == "null" then some null else none

abbrev pub parse_or_throw : String → Parsed
parse_or_throw s = if s == "null" then value null else syntax_error "Unexpected token"

abbrev pub read_port : String → Option ℕ
read_port s = if s == "5432" then some 5432 else none

abbrev pub port_numbers : Numbers
port_numbers = record {
  Number = ℕ;
  positive_int = read_port;
  positive_float = read_port;
  finite_number = read_port;
  int_or_one = λ s. or_else (read_port s) 1;
  ceil = λ n. n;
}

abbrev pub empty_storage : Storage
empty_storage = record { readable = true; writable = true; token = none }

abbrev pub full_storage : Storage
full_storage = record { readable = true; writable = true; token = some "secret" }

abbrev pub unauthorized : Response
unauthorized = record { status = 401; status_text = "Unauthorized"; body = text "" }

abbrev pub as_viewer : Json → MeResponse
as_viewer json = record {
  user_id = pos 1;
  email = "a@b";
  role = "viewer";
  provider = "local";
  auth_mode = "authy";
}
