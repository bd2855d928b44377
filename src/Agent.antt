-- ===== src/Agent.antt =====
-- agent/vmapi: the agent in a user's pod and the client that reaches it. The messages are those of
-- vmapi.proto; a stream keeps the order of its messages.
pub mod Decimal
pub mod Exec
pub mod Client
pub mod Session
pub mod Files
use delegatio.Common.{ℕ, String, Bool, List, [], ◌∷◌, ◌++◌}
use delegatio.Common.Outcome.{Result, ok, err, returns, Method}
use delegatio.Store.{Bytes}

-- vmproto.ExecCommandRequest
pub record ExecCommandRequest : Type 0 where
  pub command : String
  pub args : List String
  pub tty : Bool

-- vmproto.ExecCommandStreamRequest. The two numbers of a size are of type int32.
pub data StreamRequest : Type 0 where
  command : ExecCommandRequest → StreamRequest
  stdin : Bytes → StreamRequest
  termsize : ℕ → ℕ → StreamRequest

-- vmproto.ExecCommandStreamResponse; `exit` is its field Err.
pub data StreamResponse : Type 0 where
  stderr stdout exit : Bytes → StreamResponse

-- All bytes of a list of parts, in their order.
abbrev pub concat : List Bytes → Bytes
concat [] = []
concat (part ∷ parts) = part ++ concat parts
