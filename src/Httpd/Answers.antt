-- ===== src/Httpd/Answers.antt =====
-- What lib/snmpy/httpd.py answers to any request.
use snmpy.Shared.{
  All, List, [], false, if◌then◌else◌, length, map, refl, some, true, ◌++◌, ◌∷◌, ◌≡◌, Result, none,
  ok, raise, type_error,
}
use snmpy.Shared.Text.{Text, codes, lower, text_eq}
use snmpy.Shared.Numbers.{digits}
use snmpy.Httpd.{
  Handler, Routes, dispatch, handle, http_error, matches_route, new_response, route_request, send,
  Body, Sent, bare_body, send_body, send_head, send_sized, sized_body, text_body,
}
use snmpy.Shared.Int.{pos, ℤ}

-- The values of the headers of a name, in any case.
pub headers_named : Text → List (Text × Text) → List Text
headers_named name [] = []
headers_named name ((key, val) ∷ headers) =
    let rest = headers_named name headers in
    if text_eq (map lower key) name then val ∷ rest else rest

-- No route before the last is for the path.
abbrev pub NoneMatches : Text → Routes → Type 0
NoneMatches path routes = All (λ r. matches_route r.0 path ≡ false) routes

dispatch_none :
    (routes : Routes) (path : Text)
    → NoneMatches path routes
    → dispatch routes path ≡ (some (http_error 404), new_response)
unfolding dispatch
dispatch_none [] path h = refl
dispatch_none ((other, g) ∷ routes) path (ne, h) = rw (ne, dispatch) (dispatch_none routes path h)

module _ (responses : ℤ → Text × Text) where
  -- What is sent for a body, and how that ends.
  abbrev pub IsAnswer : Body → Result (Unit {0}) × Sent responses → Type 0
  IsAnswer (text_body s) (r, sent) =
      (r ≡ ok tt)
      × (sent.content ≡ some s)
      × (headers_named (codes "content-length") sent.headers ≡ digits (length s) ∷ [])
  IsAnswer (sized_body size s) (r, sent) =
      (r ≡ ok tt)
      × (sent.content ≡ some s)
      × (headers_named (codes "content-length") sent.headers ≡ digits size ∷ [])
  IsAnswer bare_body (r, sent) =
      (r ≡ raise type_error)
      × (sent.content ≡ none)
      × (headers_named (codes "content-length") sent.headers ≡ [])

  -- A path that no route is for is answered with 404 and the text for it.
  pub route_request_none :
      (routes : Routes) (path time pid : Text)
      → NoneMatches path routes
      → ((route_request responses routes path time pid).0 ≡ ok tt)
        × ((route_request responses routes path time pid).1.status ≡ pos 404)
        × ((route_request responses routes path time pid).1.content ≡ some (responses (pos 404)).1)
  unfolding route_request send handle send_body send_head send_sized
  route_request_none routes path time pid h =
      let e = dispatch_none routes path h in rw (e, route_request, send, handle) (refl, refl, refl)

-- The first route for the path is called, and no other, on a new response.
pub dispatch_first :
    (before after : Routes) (name path : Text) (func : Handler)
    → NoneMatches path before
    → matches_route name path ≡ true
    → dispatch (before ++ (name, func) ∷ after) path ≡ func new_response
unfolding dispatch
dispatch_first [] after name path func h found = rw (found, dispatch) refl
dispatch_first ((other, g) ∷ before) after name path func (ne, h) found =
    rw (ne, dispatch) (dispatch_first before after name path func h found)
