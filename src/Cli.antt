-- ===== src/Cli.antt =====
-- tools/cli/commands: the client of the control API, as far as it decides something: the address, the key,
-- the paths and what it prints. The flags are read by cobra and the URL is put
-- together by net/url. `Tables` has what the list and the fleet command print. The other children prove.
pub mod Key
pub mod Tables
pub mod Agree
pub mod FleetTable
use Prim.Native.String
use llm_server_manager.Base.{
  String, ◌==◌, Bool, true, false, ◌&&◌, ◌||◌, not, Option, none, some, if◌then◌else◌, codes,
  is_some, strip_prefix?, ℤ, ℕ,
}
use llm_server_manager.Handlers.Access.{is_valid_api_key}

-- hasScheme.
unfoldable pub has_scheme : String → Bool
has_scheme s = is_some (strip_prefix? "http://" s) || is_some (strip_prefix? "https://" s)

unfoldable pub with_scheme : String → String
unfolding has_scheme
with_scheme s = if has_scheme s then s else String.◌++◌ "http://" s

-- GetServerURL: the flag if it was given, else LLAMA_SERVER_URL, else the default.
unfoldable pub get_server_url : Option String → String → String
unfolding with_scheme
get_server_url (some server) env = with_scheme server
get_server_url none env = with_scheme (if env == "" then "http://localhost:8080" else env)

-- The api-key header that DoRequest sets; a header that is not set reads as the empty text.
unfoldable pub key_header : String → String
key_header env = if not (env == "") && is_valid_api_key (codes env) then env else ""

-- Whether DoRequest uses the client that does not verify certificates.
unfoldable pub skips_verification : Bool → String → Bool
skips_verification flag url = flag && is_some (strip_prefix? "https://" url)

-- The path of the start and the stop command.
unfoldable pub command_path : String → String → String → String
command_path worker model verb =
    let on_machine = String.◌++◌ "/models/" (String.◌++◌ model (String.◌++◌ "/" verb)) in
    if worker == ""
    then String.◌++◌ "/api/v1" on_machine
    else String.◌++◌ "/api/v1/workers/" (String.◌++◌ worker on_machine)

-- The envelope of an answer, and the server in it.
pub record Envelope : Type 0 where
  pub success : Bool
  pub message : String
  pub pid : Option ℤ
  pub status : Option String

-- What a command comes to: an error, with which the tool ends with status 1, or what it prints.
pub data Result : Type 0 where
  request_failed cannot_decode : Result
  started : String → Option ℤ → Option String → Result
  stopped operating : String → Result
  no_model nothing : Result
  api_error : String → Result

-- The reply to a request: none, one whose body does not decode, or an envelope.
pub data Answer : Type 0 where
  unreachable garbled : Answer
  envelope : Envelope → Answer

-- The run of the start command.
unfoldable pub run_start : Answer → Result
run_start unreachable = request_failed
run_start garbled = cannot_decode
run_start (envelope e) = if e.success then started e.message e.pid e.status else api_error e.message

-- The run of the stop command.
unfoldable pub run_stop : Answer → Result
run_stop unreachable = request_failed
run_stop garbled = cannot_decode
run_stop (envelope e) = if e.success then stopped e.message else api_error e.message

-- The run of the status command.
unfoldable pub run_status : Answer → Result
run_status unreachable = request_failed
run_status garbled = cannot_decode
run_status (envelope e) =
    if not e.success then no_model else if e.message == "" then nothing else operating e.message

-- The exit status of the tool.
unfoldable pub exit_code : Result → ℕ
exit_code request_failed = 1
exit_code cannot_decode = 1
exit_code _ = 0
