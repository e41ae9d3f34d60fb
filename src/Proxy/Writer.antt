-- ===== src/Proxy/Writer.antt =====
-- `simpleResponseWriter` of internal/proxy/server.go and `handleInternalAPI`. The wire is a list of
-- what is sent: a status line with its header, or a piece of a body.
use multi_protocol_proxy.Prelude.{
  ℕ, Bool, true, false, not, List, [], ◌∷◌, ◌++◌, Option, none, some, Bytes, codes, str_eq,
  if◌then◌else◌, insert,
}
use multi_protocol_proxy.HttpProxy.Headers.{Header}

pub data Sent : Type 0 where
  head : ℕ → Header → Sent
  body : Bytes → Sent

pub record Writer : Type 0 where
  pub header : Header
  pub wrote_header : Bool
  pub status : ℕ
  pub wire : List Sent

abbrev pub new_writer : Writer
new_writer = record { header = []; wrote_header = false; status = 0; wire = [] }

-- `w.header.Set(key, value)`.
abbrev pub set_header : Bytes → Bytes → Writer → Writer
set_header key value w = record w { header = insert key (value ∷ []) w.header }

-- `date` is `time.Now().Format(http.TimeFormat)`. The status line is sent before the header is
-- completed, and the header behind it.
unfoldable pub write_header : Bytes → ℕ → Writer → Writer
write_header date status w =
    if w.wrote_header
    then w
    else let h =
        insert (codes "Connection") (codes "close" ∷ [])
          (insert (codes "Date") (date ∷ []) w.header) in
      record {
        header = h;
        wrote_header = true;
        status = status;
        wire = w.wire ++ (head status h ∷ []);
      }

abbrev status_ok : ℕ
status_ok = 200

unfoldable pub write : Bytes → Bytes → Writer → Writer
write date b w =
    let w' = if not w.wrote_header then write_header date status_ok w else w in
    record w' { wire = w'.wire ++ (body b ∷ []) }

-- A call that a handler makes on its writer.
pub data Call : Type 0 where
  sets : Bytes → Bytes → Call
  writes_header : ℕ → Call
  writes : Bytes → Call

unfoldable pub call : Bytes → Call → Writer → Writer
call date (sets key value) w = set_header key value w
call date (writes_header status) w = write_header date status w
call date (writes b) w = write date b w

unfoldable pub calls : Bytes → List Call → Writer → Writer
calls date [] w = w
calls date (c ∷ cs) w = calls date cs (call date c w)

-- `StatsHandler` and `HistoryHandler`, which differ in the JSON text that they encode.
unfoldable pub stats_calls : Bytes → Bytes → Bytes → List Call
stats_calls allowed_origin method json =
    let headers =
      sets (codes "Access-Control-Allow-Origin") allowed_origin
      ∷ sets (codes "Access-Control-Allow-Methods") (codes "GET, OPTIONS")
      ∷ sets (codes "Access-Control-Allow-Headers") (codes "Content-Type")
      ∷ sets (codes "Content-Type") (codes "application/json")
      ∷ [] in
    if str_eq method (codes "OPTIONS")
    then headers ++ (writes_header status_ok ∷ [])
    else headers ++ (writes json ∷ [])

-- `http.Error(w, "Not Found", 404)`.
abbrev pub not_found_calls : List Call
not_found_calls =
    sets (codes "Content-Type") (codes "text/plain; charset=utf-8")
    ∷ sets (codes "X-Content-Type-Options") (codes "nosniff")
    ∷ writes_header 404
    ∷ writes (codes "Not Found\n")
    ∷ []

pub record ApiRequest : Type 0 where
  pub path : Bytes
  pub method : Bytes

-- The switch on the path.
unfoldable pub route_calls : Bytes → Bytes → Bytes → ApiRequest → List Call
route_calls origin stats history req =
    if str_eq req.path (codes "/api/stats")
    then stats_calls origin req.method stats
    else if str_eq req.path (codes "/api/history")
    then stats_calls origin req.method history
    else not_found_calls

-- `req` is none where `http.ReadRequest` fails.
unfoldable pub handle_internal_api : Bytes → Bytes → Bytes → Bytes → Option ApiRequest → List Sent
handle_internal_api date origin stats history none = []
handle_internal_api date origin stats history (some req) =
    let w = calls date (route_calls origin stats history req) new_writer in
    let w' = if not w.wrote_header then write_header date status_ok w else w in w'.wire
