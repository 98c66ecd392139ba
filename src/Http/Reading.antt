-- ===== src/Http/Reading.antt =====
-- Reading the JSON that the handlers of internal/pingclaw/handlers.go write, as a client does.
use pingclaw_server.Prelude.{Option, none, some, List, [], ◌∷◌, String, codes, if◌then◌else◌, ◌==◌}
use pingclaw_server.Http.{
  Json, Fields, Items, Body, Response, obj, arr, end, field, done, item, json,
}

abbrev content : Body → Option Json
content (json v) = some v
content _ = none

abbrev pub body_of : Response → Option Json
body_of r = content r.body

abbrev pub member : String → Fields → Option Json
member k end = none
member k (field name v rest) = if codes name == codes k then some v else member k rest

-- What an object has under a name.
abbrev pub at : String → Option Json → Option Json
at k (some (obj fs)) = member k fs
at k _ = none

abbrev pub listed : Items → List Json
listed done = []
listed (item v rest) = v ∷ listed rest

-- The elements of an array.
abbrev pub elements : Option Json → List Json
elements (some (arr vs)) = listed vs
elements _ = []

-- What each object of an array has under a name.
abbrev pub column : String → List Json → List (Option Json)
column k [] = []
column k (v ∷ vs) = at k (some v) ∷ column k vs
