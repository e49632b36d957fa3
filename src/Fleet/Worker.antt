-- ===== src/Fleet/Worker.antt =====
-- fleet/client.go: NewWorker, and how a worker's reply to a call becomes a result. net/url is taken as
-- `parse_url`; the transport is what a call hands over.
use llm_server_manager.Base.{
  String, ◌==◌, Bool, ◌&&◌, not, Option, none, some, List, [], ◌∷◌, ℕ, leb, eqb, if◌then◌else◌,
  trim_space, trim_right, from_option, ◌⊎◌, inl, inr,
}
use llm_server_manager.Models.{ModelItem, ServerStatus, running}
use llm_server_manager.Config.{WorkerConfig}
use llm_server_manager.Fleet.Port.{routable_port}

-- The parts of a parsed URL that the program reads: Scheme, Host, Hostname() and String().
pub record Url : Type 0 where
  pub scheme : String
  pub host : String
  pub hostname : String
  pub text : String

abbrev pub local_machine : String
local_machine = "local"

pub record Worker : Type 0 where
  pub name : String
  pub url : String
  pub api_key : String

pub data WorkerSpecError : Type 0 where
  invalid_url wrong_scheme missing_host : WorkerSpecError

abbrev slash : ℕ → Bool
slash c = eqb c b'/'

worker_of_url : WorkerConfig → Url → WorkerSpecError ⊎ Worker
worker_of_url spec u =
    if not (u.scheme == "http") && not (u.scheme == "https")
    then inl wrong_scheme
    else if u.host == ""
    then inl missing_host
    else (let name = trim_space spec.name in
        inr (record {
          name = if name == "" then u.hostname else name;
          url = trim_right slash u.text;
          api_key = spec.api_key;
        }))

-- NewWorker.
unfoldable pub new_worker : (String → Option Url) → WorkerConfig → WorkerSpecError ⊎ Worker
unfolding worker_of_url
new_worker parse_url spec = elim (parse_url (trim_space spec.url)) [
  | none ↦ inl invalid_url
  | some u ↦ worker_of_url spec u
]

-- The message of a worker's error: its own, or the generic one with the HTTP status.
pub data Message : Type 0 where
  own : String → Message
  unexpected : ℕ → Message

-- workerMessage, given the message of the reply's envelope, which is empty if there is none.
unfoldable pub worker_message : ℕ → String → Message
worker_message status message = if message == "" then unexpected status else own message

-- Why a call failed: the worker's own error, one of the transport failures that are told apart, or a
-- reply that does not decode.
pub data CallError : Type 0 where
  worker_error : ℕ → Message → CallError
  deadline_exceeded connection_refused unreachable dns_failure other_failure malformed : CallError

-- What the HTTP client hands over: a failure, or a status, the message of the reply's envelope and
-- the payload, if the body decodes.
pub data Reply (A : Type 0) : Type 0 where
  no_reply : CallError → Reply A
  replied : ℕ → String → Option A → Reply A

abbrev pub is_success : ℕ → Bool
is_success status = leb 200 status && leb status 299

module _ {A : Type 0} where
  -- call, with what its callers decode from the body of a success.
  unfoldable pub call : Reply A → CallError ⊎ Option A
  unfolding worker_message
  call (no_reply e) = inl e
  call (replied status message payload) =
      if is_success status
      then inr payload
      else inl (worker_error status (worker_message status message))

  decoded : Option A → CallError ⊎ A
  decoded none = inl malformed
  decoded (some a) = inr a

  -- ListModels: the payload of a success, or an error.
  unfoldable pub list_models : Reply A → CallError ⊎ A
  unfolding call decoded
  list_models r = elim (call r) [ inl e ↦ inl e | inr p ↦ decoded p ]

  -- StartModel and StopModel: the body of a success is not looked at.
  unfoldable pub control : Reply A → Option CallError
  unfolding call
  control r = elim (call r) [ inl e ↦ some e | inr p ↦ none ]

-- A model that a machine is running. The time is not known of a worker's model.
pub record RunningModel : Type 0 where
  pub name : String
  pub alias : String
  pub status : ServerStatus
  pub start_time : Option ℕ
  pub port : ℕ

-- RunningFromItems: the first active item.
unfoldable pub running_from_items : List ModelItem → Option RunningModel
running_from_items [] = none
running_from_items (item ∷ items) =
    if item.active
    then some (record {
      name = item.model_config.name;
      alias = item.model_config.alias;
      status = running;
      start_time = none;
      port = from_option 0 (routable_port item.model_config);
    })
    else running_from_items items

-- GetRunning.
unfoldable pub get_running : Reply (List ModelItem) → CallError ⊎ Option RunningModel
unfolding list_models running_from_items
get_running r = elim (list_models r) [ inl e ↦ inl e | inr items ↦ inr (running_from_items items) ]

-- The envelope that System decodes.
pub record SystemReply (A : Type 0) : Type 0 where
  pub success : Bool
  pub message : String
  pub content : A

pub data SystemError : Type 0 where
  call_failed : CallError → SystemError
  unsuccessful : String → SystemError

module _ {A : Type 0} where
  -- System.
  unfoldable pub system : Reply (SystemReply A) → SystemError ⊎ A
  unfolding list_models
  system r = elim (list_models r) [
    | inl e ↦ inl (call_failed e)
    | inr p ↦ if not p.success then inl (unsuccessful p.message) else inr p.content
  ]
