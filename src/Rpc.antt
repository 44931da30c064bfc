-- ===== src/Rpc.antt =====
-- internal/grpcapi/server.go: the state that the gRPC handlers work on, their replies, and the gate
-- that lets only the leader change anything. Metrics are left out.
pub mod Nodes
pub mod Jobs
pub mod Reports
pub mod Heartbeat
pub mod Recording
pub mod Followers
pub mod Survival
use arbiter_distributed_sche.Base.{
  Bool, List, Option, String, [], if◌then◌else◌, none, some, str_eq, ℕ, ◌||◌, ◌∷◌,
}
use arbiter_distributed_sche.Base.Int.{leb_ℤ, pos, ℤ}
use arbiter_distributed_sche.Cache.{Cache}
use arbiter_distributed_sche.Store.{Db, Error, Part, Tx, err, ok, text}

pub data Code : Type 0 where
  invalid_argument not_found failed_precondition internal unavailable : Code
  other_code : ℕ → Code

-- A gRPC status. `cause` is the error that `%v` would print behind the message.
pub record Status : Type 0 where
  pub code : Code
  pub message : List Part
  pub cause : Option Error

pub data Reply (A : Type 0) : Type 0 where
  reply : A → Reply A
  refuse : Status → Reply A

-- What a handler can change: the database, and the times in Redis.
pub record World : Type 0 where
  pub db : Db
  pub cache : Cache

-- A handler, from the world that it finds to its reply and the world that it leaves.
abbrev pub Handler : Type 0 → Type 0
Handler A = World → Reply A × World

abbrev pub plain : Code → List Part → Status
plain code message = record { code = code; message = message; cause = none }

abbrev pub caused : List Part → Error → Status
caused message e = record { code = internal; message = message; cause = some e }

-- A transaction of a handler: its result, and the world with the database that it leaves.
abbrev pub transact {ℓ} :
    {A : Type 0} {B : Type ℓ} → Tx A → World → (Error → World → B) → (A → World → B) → B
transact m w failure success = elim (m w.db) [
  | err e ↦ failure e w
  | ok (a, db) ↦ success a (record w { db = db })
]

pub record LeaderGate : Type 0 where
  pub is_leader : Bool
  pub leader_addr : String

abbrev pub not_leader_prefix : String
not_leader_prefix = "NOT_LEADER: current leader at "

abbrev pub not_leader : String → Status
not_leader addr =
    if str_eq addr ""
    then plain failed_precondition (text "NOT_LEADER: leader address unknown; retry shortly" ∷ [])
    else plain failed_precondition (text not_leader_prefix ∷ text addr ∷ [])

-- `requireLeader`: a nil gate lets everything through.
unfoldable pub require_leader : Option LeaderGate → Option Status
require_leader none = none
require_leader (some gate) = if gate.is_leader then none else some (not_leader gate.leader_addr)

-- `if err := s.requireLeader(); err != nil { return nil, err }`
abbrev pub led_by : {A : Type 0} → Option LeaderGate → Handler A → Handler A
led_by leader handler w = elim (require_leader leader) [
  | none ↦ handler w
  | some status ↦ (refuse status, w)
]

-- `return nil, status.Error(codes.InvalidArgument, …)` behind a test.
abbrev pub reject_if : {A : Type 0} → Bool → String → Handler A → Handler A
reject_if test message handler w =
    if test then (refuse (plain invalid_argument (text message ∷ [])), w) else handler w

pub record NodeResources : Type 0 where
  pub cpu_millicores : ℤ
  pub memory_mb : ℤ

-- The getters of the generated code read zero behind a nil pointer.
abbrev pub get_cpu : Option NodeResources → ℤ
get_cpu none = pos 0
get_cpu (some r) = r.cpu_millicores

abbrev pub get_memory : Option NodeResources → ℤ
get_memory none = pos 0
get_memory (some r) = r.memory_mb

-- `GetCpuMillicores() <= 0 || GetMemoryMb() <= 0`
abbrev pub lacks_resources : Option NodeResources → Bool
lacks_resources r = leb_ℤ (get_cpu r) (pos 0) || leb_ℤ (get_memory r) (pos 0)
