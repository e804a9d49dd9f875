-- ===== src/Httpd.antt =====
-- lib/snmpy/httpd.py: routing a request to the first handler whose path matches it, and the response.
-- Parameters are the reason and text (none, where it has none) that Python's http server has for a status (`responses`) and the
-- text of a traceback; sockets, signals and the parsing of the URL are left out.
pub mod Answers
pub mod Attributes
pub mod Requests
mod Tests
use snmpy.Shared.{
  Bool, List, Option, [], drop, if◌then◌else◌, length, map, none, some, true, ℕ, ◌&&◌, ◌++◌, ◌+◌,
  ◌==◌, ◌||◌, ◌∷◌, Result, ok, raise, type_error,
}
use snmpy.Shared.Text.{Text, codes, lower, starts_with, text_eq}
use snmpy.Shared.Dicts.{Dict}
use snmpy.Shared.Numbers.{digits}
use snmpy.Shared.Int.{pos, ℤ}

-- What a handler raises: an HTTPError, or another exception with its traceback.
pub data Failure : Type 0 where
  http_error : ℕ → Failure
  other_failure : Text → Failure

-- What a handler can set as the body: a text, another value that has a length, with its `str`, or one
-- that has none.
pub data Body : Type 0 where
  text_body : Text → Body
  sized_body : ℕ → Text → Body
  bare_body : Body

-- Response: the fields that `__setattr__` lets a handler set, and `head`. `code` is an integer; `line`
-- and the headers have any values, here as `%s` writes them, with `none` for None as the line.
pub record Response : Type 0 where
  pub code : ℤ
  pub line : Option Text
  pub head : Dict Text
  pub body : Body

abbrev pub default_headers : Dict Text
default_headers =
    (codes "Connection", codes "close") ∷ (codes "Content-type", codes "text/plain") ∷ []

-- Response(head=self.default_headers)
abbrev pub new_response : Response
new_response = record {
  code = pos 200;
  line = some (codes "OK");
  head = default_headers;
  body = text_body [];
}

-- func(self, response): how it ends, and the response as it leaves it.
abbrev pub Handler : Type 0
Handler = Response → Option Failure × Response

-- `request_handlers['GET']`: the names of the routes, each literal in its pattern.
abbrev pub Routes : Type 0
Routes = List (Text × Handler)

-- What stands behind the name of a route: `/`, or the end, as `$` takes it.
is_route_end : Text → Bool
is_route_end [] = true
is_route_end (c ∷ []) = c == b'/' || c == b'\n'
is_route_end (c ∷ d ∷ s) = c == b'/'

-- re.match(r'/name(?:/|$)', path)
pub matches_route : Text → Text → Bool
matches_route name path =
    starts_with path (b'/' ∷ name) && is_route_end (drop (length name + 1) path)

-- The `for` loop with its `else`.
pub dispatch : Routes → Text → Option Failure × Response
dispatch [] path = (some (http_error 404), new_response)
dispatch ((name, func) ∷ routes) path =
    let rest = dispatch routes path in if matches_route name path then func new_response else rest

module _ (responses : ℤ → Text × Text) where
  -- `except Exception as e`
  pub handle : Option Failure × Response → Response
  handle (none, res) = res
  handle (some (http_error code), res) = record res {
    code = pos code;
    line = some (responses (pos code)).0;
    body = text_body (responses (pos code)).1;
  }
  handle (some (other_failure trace), res) = record res {
    code = pos 500;
    line = some (responses (pos 500)).0;
    body = text_body trace;
  }

  -- What is written to the socket, without the Server and Date headers of `send_response`; there is no
  -- content where the headers were not ended.
  pub record Sent : Type 0 where
    pub status : ℤ
    pub reason : Text
    pub headers : List (Text × Text)
    pub content : Option Text

  -- The loop over the headers, without any `Content-length` of the handler's.
  pub own_headers : Dict Text → List (Text × Text)
  own_headers [] = []
  own_headers ((key, val) ∷ head) =
      let rest = own_headers head in
      if text_eq (map lower key) (codes "content-length") then rest else (key, val) ∷ rest

  -- The line that `send_response` takes: where it is None, what there is for the status.
  reason_of : Response → Text
  reason_of res = elim res.line [ none ↦ (responses res.code).0 | some line ↦ line ]

  -- What is written up to the headers of the response.
  send_head : Response → Sent
  send_head res = record {
    status = res.code;
    reason = reason_of res;
    headers = own_headers res.head;
    content = none;
  }

  -- From the Content-length on, with the texts of the two timing headers.
  send_sized : ℕ → Text → Text → Text → Sent → Sent
  send_sized size content time pid sent = record sent {
    headers =
        sent.headers
        ++ (codes "Content-length", digits size)
          ∷ (codes "X-Handler-Time", time)
          ∷ (codes "X-Handler-Pid", pid)
          ∷ [];
    content = some content;
  }

  -- From `len(response.body)` on.
  send_body : Body → Text → Text → Sent → Result (Unit {0}) × Sent
  send_body (text_body s) time pid sent = (ok tt, send_sized (length s) s time pid sent)
  send_body (sized_body size s) time pid sent = (ok tt, send_sized size s time pid sent)
  send_body bare_body time pid sent = (raise type_error, sent)

  -- From `send_response` on.
  send : Text → Text → Response → Result (Unit {0}) × Sent
  send time pid res = send_body res.body time pid (send_head res)

  -- route_request, for the path that `urlparse` and `unquote` give
  pub route_request : Routes → Text → Text → Text → Result (Unit {0}) × Sent
  route_request routes path time pid = send time pid (handle (dispatch routes path))
