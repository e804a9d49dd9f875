-- ===== src/Httpd/Tests.antt =====
-- Requests to a server with two routes.
use snmpy.Shared.{[], false, none, refl, true, ◌++◌, ◌∷◌, ◌≡◌, List, key_error}
use snmpy.Shared.Text.{Text, codes, starts_with}
use snmpy.Httpd.{Handler, Routes, is_route_end, matches_route, dispatch, handle, text_body}
use snmpy.Shared.Values.{Value, int, null, str}
use snmpy.Shared.Int.{pos, ℤ}
use snmpy.Httpd.Attributes.{assign_all, first_attributes}
use snmpy.Httpd.Attributes.Assigned.{IsAssigned, assign_all_lem}
use snmpy.Httpd.Requests.{
  Request, failed, served, IsQuiet, Process, limited, process_request, process_request-IsQuiet,
}

abbrev no_text : ℤ → Text × Text
no_text code = (codes "Error", [])

-- `mib` and `version`
abbrev mib : Handler
mib res = (none, record res { body = text_body (codes "text") })

abbrev version : Handler
version res = (none, record res { body = text_body (codes "2.0") })

abbrev mib_routes : Routes
mib_routes = (codes "mib", mib) ∷ []

abbrev routes : Routes
routes = mib_routes ++ (codes "version", version) ∷ []

mib_differs : matches_route (codes "mib") (codes "/version") ≡ false
unfolding matches_route is_route_end starts_with
mib_differs = refl

version_matches : matches_route (codes "version") (codes "/version") ≡ true
unfolding matches_route is_route_end starts_with
version_matches = refl

-- What the route for `mib` leaves is the text of its handler.
mib_body : (handle no_text (dispatch routes (codes "/mib/x"))).body ≡ text_body (codes "text")
unfolding handle dispatch matches_route is_route_end starts_with
mib_body = refl

abbrev assignments : List (Text × Value)
assignments =
    (codes "body", str (codes "gone"))
    ∷ (codes "code", str (codes "410"))
    ∷ (codes "code", int (pos 410))
    ∷ (codes "status", int (pos 7))
    ∷ (codes "_head", null)
    ∷ []

assign_all_lem_example :
    IsAssigned assignments first_attributes (assign_all assignments first_attributes)
assign_all_lem_example = assign_all_lem assignments first_attributes refl

-- A request that takes too long.
abbrev slow : Request
slow = record { seconds = 30; ends = served; struck = λ e. failed e }

abbrev idle : Process
idle = record { alarm = none; logged = key_error ∷ [] }

process_request-IsQuiet_example : IsQuiet (limited slow) idle (process_request slow idle)
process_request-IsQuiet_example = process_request-IsQuiet slow idle
