-- ===== src/Tests/Clients.antt =====
-- The theorems about the SDK's client, at an RPC that always answers.
use chora_mem.Prelude.{[], ◌∷◌, All, false, true, ◌≡◌, refl, arith}
use chora_mem.Text.{Text, codes}
use chora_mem.Result.{err}
use chora_mem.Trace.{Reply, replied}
use chora_mem.Client.{
  Client, token_text, TokenProvider, ticks, Options, Prepared, call, close, closed_error,
}
use chora_mem.Client.Authorized.{IsAuthorizedEvent, call-IsAuthorized, call-close}

abbrev client : Client
client = record { default_timeout = 10; owns_channel = true; closed = false }

abbrev provider : TokenProvider
provider tenant = token_text (codes "token")

abbrev rpc : Text → Prepared → Reply Text
rpc request prepared = replied request

abbrev options : Options
options = record {
  timeout = ticks 20;
  metadata = (codes "Authorization", codes "Basic x") ∷ (codes "trace", codes "7") ∷ [];
}

call-IsAuthorized_example :
    All
      (IsAuthorizedEvent client options)
      (call client provider rpc (codes "hi") (codes "t1") options).1
call-IsAuthorized_example =
    call-IsAuthorized client provider rpc (codes "hi") (codes "t1") options (omega arith)

call-close_example :
    (call (close client) provider rpc (codes "hi") (codes "t1") options ≡ (err closed_error, []))
    × (close (close client) ≡ close client)
call-close_example = call-close client provider rpc (codes "hi") (codes "t1") options refl
