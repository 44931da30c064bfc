-- ===== src/Redirects.antt =====
-- internal/leaderclient/redirect.go: what a client reads from a follower's refusal, and
-- `FormatNotLeaderError` of internal/grpcapi/server.go.
pub mod Following
use arbiter_distributed_sche.Base.{
  Bool, List, Option, String, [], false, if◌then◌else◌, none, some, starts_with, str_eq, true, ◌&&◌,
  ◌||◌, ◌∷◌,
}
use arbiter_distributed_sche.Base.Int.{pos, ℤ}
use arbiter_distributed_sche.Base.Text.{contains, str_append, trim_prefix, trim_space}
use arbiter_distributed_sche.Rpc.{Code, Status, failed_precondition, not_leader_prefix, unavailable}
use arbiter_distributed_sche.Store.{Part, integer, number, text}

-- What a call of a gRPC client fails with: a status, or an error that is none.
pub data CallError : Type 0 where
  status_error : Code → String → CallError
  no_status : CallError

-- The text of a message: `digits` is `%d`.
unfoldable pub render_part : (ℤ → String) → Part → String
render_part digits (text s) = s
render_part digits (number n) = digits (pos n)
render_part digits (integer i) = digits i

unfoldable pub render : (ℤ → String) → List Part → String
unfolding render_part
render digits [] = ""
render digits (p ∷ ps) = str_append (render_part digits p) (render digits ps)

-- The error that a client gets for a status without a cause.
unfoldable pub received : (ℤ → String) → Status → CallError
unfolding render
received digits s = status_error s.code (render digits s.message)

-- `FormatNotLeaderError`
unfoldable pub format_not_leader_error : String → String
format_not_leader_error addr = str_append not_leader_prefix addr

-- `st.Code() != codes.FailedPrecondition`
unfoldable pub is_failed_precondition : Code → Bool
is_failed_precondition failed_precondition = true
is_failed_precondition _ = false

-- The address, unless it is empty or says that it is unknown.
unfoldable pub known_addr : String → Option String
known_addr addr = if str_eq addr "" || contains addr "unknown" then none else some addr

-- `ParseLeaderAddr`, of an error that is not nil.
unfoldable pub parse_leader_addr : CallError → Option String
unfolding is_failed_precondition known_addr
parse_leader_addr no_status = none
parse_leader_addr (status_error c msg) =
    if is_failed_precondition c && starts_with msg not_leader_prefix
    then known_addr (trim_space (trim_prefix msg not_leader_prefix))
    else none

-- `status.Code(err) == codes.Unavailable`
unfoldable pub is_unavailable : CallError → Bool
is_unavailable (status_error unavailable msg) = true
is_unavailable _ = false
