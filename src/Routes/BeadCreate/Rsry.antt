-- ===== src/Routes/BeadCreate/Rsry.antt =====
-- src/routes/bead-create-orchestrator.ts: `createBeadViaRsry`, the step 2 over a service binding or a URL.
use Prim.Native.String.{slice}
use cloister.Prelude.{ℕ, String, Bool, true, false, Option, none, some, or_else, if◌then◌else◌}
use cloister.Prelude.Keys.{◌==◌, string_eq}
use cloister.Prelude.Results.{Result, ok, err, ◌>>=◌}
use cloister.Prelude.Text.{◌&◌, decimal}
use cloister.Routes.BeadCreate.{BeadResult, BeadFailure, rpc_error, thrown}

-- The tool's own answer, as JSON.parse gives it: `null`, or the fields that are read, each a text or
-- missing.
pub data ToolRow : Type 0 where
  null_row : ToolRow
  row : (id title state : Option String) → ToolRow

-- The body of a response: not JSON, an error, or a result with the text of its first block.
pub data RpcBody : Type 0 where
  no_json : (message : String) → RpcBody
  error_body : (code : ℕ) (message : String) → RpcBody
  result_body : (text : Option String) → RpcBody

-- What a fetch gives.
pub data Fetch : Type 0 where
  unreachable : (message : String) → Fetch
  response : (is_ok : Bool) (status : ℕ) (text : String) (body : RpcBody) → Fetch

-- The two bindings of the environment.
pub record RsryEnv : Type 0 where
  pub has_rosary_bundle : Bool
  pub rosary_mcp_url : String

abbrev internal : String → BeadFailure
internal message = rpc_error 32603 ("bead_create rsry-mode: " & message)

-- Which fetch is made: over the binding, else at the URL.
unfoldable pub rsry_fetch : RsryEnv → Fetch → (String → Fetch) → Result BeadFailure Fetch
rsry_fetch env over_binding at_url =
    if env.has_rosary_bundle
    then ok over_binding
    else if env.rosary_mcp_url == ""
    then err (internal "neither ROSARY_BUNDLE service binding nor ROSARY_MCP_URL is wired")
    else ok (at_url env.rosary_mcp_url)

-- The message shows the first 200 bytes of an ASCII text.
abbrev pub read_fetch : Fetch → Result BeadFailure RpcBody
read_fetch (unreachable message) = err (internal ("rsry unreachable: " & message))
read_fetch (response false status text body) =
    err (internal ("rsry returned " & decimal status & ": " & slice text 0 200))
read_fetch (response true status text body) = ok body

abbrev pub read_body : RpcBody → Result BeadFailure String
read_body (no_json message) = err (thrown message)
read_body (error_body code message) =
    err (rpc_error code ("bead_create: rsry_bead_create failed: " & message))
read_body (result_body none) = err (internal "rsry response missing result.content[0].text")
read_body (result_body (some text)) = ok text

-- `title` is the caller's.
abbrev pub read_row : String → ToolRow → Result BeadFailure BeadResult
read_row title null_row = err (thrown "Cannot read properties of null (reading 'id')")
read_row title (row none row_title state) = err (internal "rsry response missing `id` field")
read_row title (row (some id) row_title state) =
    ok (record { id = id; title = or_else row_title title; state = or_else state "open" })

-- `json_parse` gives the row, or the message with which it throws.
unfoldable pub create_bead_via_rsry :
    (String → Result String ToolRow)
    → RsryEnv
    → Fetch
    → (String → Fetch)
    → String
    → Result BeadFailure BeadResult
unfolding rsry_fetch
create_bead_via_rsry json_parse env over_binding at_url title = do
  fetched ← rsry_fetch env over_binding at_url
  body ← read_fetch fetched
  text ← read_body body
  elim (json_parse text) [
    | err message ↦ err (internal ("rsry returned non-JSON tool result: " & message))
    | ok parsed ↦ read_row title parsed
  ]
