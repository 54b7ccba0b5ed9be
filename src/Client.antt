-- ===== src/Client.antt =====
-- AsyncMemoryClient (sdk/python/src/memory_core/client.py): how a call of the SDK is made.
pub mod Authorized
use chora_mem.Prelude.{
  ℕ, ◌+◌, Bool, true, false, ◌&&◌, not, List, [], ◌∷◌, ◌++◌, Option, none, some, is_empty, any,
  select, map, ltb, leb, eqb, nat_eq, list_eq, ◌==◌, if◌then◌else◌,
}
use chora_mem.Text.{Text, codes, strip}
use chora_mem.Text.Unicode.{is_space}
use chora_mem.Result.{
  Result, ok, err, Error, type_error, value_error, model_error, ◌>>=◌, ◌>>◌, raise_if,
}
use chora_mem.Trace.{Reply, replied, raised, answer}
use chora_mem.Agents.Calls.{
  ObserveRequest, SelectRequest, DeliveryReceipt, OutcomeRequest, SourceEventReceipt,
  OutcomeReceipt,
}
use chora_mem.Rendering.{MemoryContext}

-- What the token provider gives, at once or awaited: a `str`, another value, or an exception.
pub data Provided : Type 0 where
  token_text : Text → Provided
  no_text : Provided
  fails : Text → Provided

abbrev pub TokenProvider : Type 0
TokenProvider = Text → Provided

-- The option `timeout`: not given, a number of ticks (0 for a number that is not positive), or a
-- value that is no number.
pub data Timeout : Type 0 where
  absent : Timeout
  ticks : ℕ → Timeout
  no_number : Timeout

abbrev pub Header : Type 0
Header = Text × Text

-- the options of a call that the client reads
pub record Options : Type 0 where
  pub timeout : Timeout
  pub metadata : List Header

-- what an RPC is called with, besides its request
pub record Prepared : Type 0 where
  pub metadata : List Header
  pub timeout : ℕ

-- the fields of AsyncMemoryClient that change or decide
pub record Client : Type 0 where
  pub default_timeout : ℕ
  pub owns_channel : Bool
  pub closed : Bool

-- `__init__`
unfoldable pub new_client : ℕ → Bool → Result Client
new_client default_timeout owns_channel =
    if leb default_timeout 0
    then err (value_error (codes "default_timeout must be positive"))
    else ok
        (record { default_timeout = default_timeout; owns_channel = owns_channel; closed = false })

-- `close`, and `__aexit__`
unfoldable pub close : Client → Client
close client =
    if client.owns_channel && not client.closed then record client { closed = true } else client

-- `_bounded_timeout`
unfoldable pub bounded_timeout : ℕ → Timeout → Result ℕ
bounded_timeout default_timeout absent = ok default_timeout
bounded_timeout default_timeout (ticks n) =
    if leb n 0
    then err (value_error (codes "timeout must be positive"))
    else ok (if ltb n default_timeout then n else default_timeout)
bounded_timeout default_timeout no_number = err (value_error (codes "timeout must be positive"))

-- `_validate_bearer_token`
unfoldable pub validate_bearer_token : Provided → Result Text
unfolding is_space
validate_bearer_token (token_text token) = do
  raise_if (is_empty token) (value_error (codes "token provider returned a blank token"))
  raise_if (any is_space token)
      (value_error (codes "Bearer token must not contain Unicode whitespace"))
  ok token
validate_bearer_token no_text = err (value_error (codes "token provider returned a blank token"))
validate_bearer_token (fails what) = err (model_error what)

-- `character.lower()` on ASCII; no other character's lower case is a letter of "authorization"
abbrev pub lower : ℕ → ℕ
lower c = if leb b'A' c && leb c b'Z' then c + 32 else c

abbrev pub authorization : Text
authorization = codes "authorization"

-- `key.lower() == "authorization"`
unfoldable pub is_authorization : Header → Bool
is_authorization header = map lower header.0 == authorization

unfoldable pub bearer : Text → Header
bearer token = (authorization, codes "Bearer " ++ token)

-- the metadata of the call: the caller's without its authorization, then the client's
unfoldable pub call_metadata : List Header → Text → List Header
unfolding is_authorization bearer
call_metadata metadata token =
    select (λ header. not (is_authorization header)) metadata ++ bearer token ∷ []

-- What a call does outside the client, in order.
pub data Event (Request : Type 0) : Type 0 where
  asked_token : Text → Event Request
  called : Request → Prepared → Event Request

abbrev pub closed_error : Error
closed_error = model_error (codes "Memory Core client is closed")

module _ {Request Response : Type 0} where
  -- `_call` from the token on: the events behind the request for the token, and the result
  unfoldable pub call_with :
      (Request → Prepared → Reply Response)
      → Request
      → Options
      → ℕ
      → Provided
      → Result Response × List (Event Request)
  unfolding validate_bearer_token call_metadata
  call_with rpc request options timeout provided = elim (validate_bearer_token provided) [
    | err e ↦ (err e, [])
    | ok token ↦
        let prepared : Prepared = record {
          metadata = call_metadata options.metadata token;
          timeout = timeout;
        } in
        (answer (rpc request prepared), called request prepared ∷ [])
  ]

  -- `_call`
  unfoldable pub call :
      Client
      → TokenProvider
      → (Request → Prepared → Reply Response)
      → Request
      → Text
      → Options
      → Result Response × List (Event Request)
  unfolding strip is_space bounded_timeout call_with
  call client provider rpc request tenant_ref options =
      let go : Result Response × List (Event Request) =
        elim (bounded_timeout client.default_timeout options.timeout) [
          | err e ↦ (err e, [])
          | ok timeout ↦
              let rest = call_with rpc request options timeout (provider tenant_ref) in
              (rest.0, asked_token tenant_ref ∷ rest.1)
        ] in
      if client.closed
      then (err closed_error, [])
      else if is_empty (strip is_space tenant_ref)
      then (err (value_error (codes "request requires a nonblank tenant_ref")), [])
      else go

-- the RPCs of the generated stub
pub record Stub : Type 0 where
  pub observe_source_event : ObserveRequest → Prepared → Reply SourceEventReceipt
  pub select_memory : SelectRequest → Prepared → Reply MemoryContext
  pub record_memory_delivery : DeliveryReceipt → Prepared → Reply Text
  pub report_outcome : OutcomeRequest → Prepared → Reply OutcomeReceipt

module _ (client : Client) (provider : TokenProvider) (stub : Stub) where
  unfoldable pub observe_source_event :
      ObserveRequest → Options → Result SourceEventReceipt × List (Event ObserveRequest)
  unfolding call
  observe_source_event request options =
      call client provider stub.observe_source_event request request.scope.tenant_ref options

  unfoldable pub select_memory :
      SelectRequest → Options → Result MemoryContext × List (Event SelectRequest)
  unfolding call
  select_memory request options =
      call client provider stub.select_memory request request.scope.tenant_ref options

  unfoldable pub record_memory_delivery :
      DeliveryReceipt → Options → Result Text × List (Event DeliveryReceipt)
  unfolding call
  record_memory_delivery request options =
      call client provider stub.record_memory_delivery request request.scope.tenant_ref options

  unfoldable pub report_outcome :
      OutcomeRequest → Options → Result OutcomeReceipt × List (Event OutcomeRequest)
  unfolding call
  report_outcome request options =
      call client provider stub.report_outcome request request.scope.tenant_ref options
