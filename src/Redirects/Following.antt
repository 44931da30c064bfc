-- ===== src/Redirects/Following.antt =====
-- internal/leaderclient/redirect.go with `requireLeader` of internal/grpcapi/server.go: the address
-- that a follower sends is the address that a client reads.
use arbiter_distributed_sche.Base.{
  Bool-cases, String, ap, false, if◌then◌else◌, inl, inr, none, refl, some, some-injective,
  starts_with-append, str_append-nil, str_eq, subst, sym, ◌∙◌, ◌≡◌,
}
use arbiter_distributed_sche.Base.Int.{ℤ}
use arbiter_distributed_sche.Base.Text.{
  contains, str_append, trim_prefix, trim_prefix-append, trim_space,
}
use arbiter_distributed_sche.Redirects.{
  format_not_leader_error, is_failed_precondition, known_addr, parse_leader_addr, received, render,
  render_part, status_error,
}
use arbiter_distributed_sche.Rpc.{
  LeaderGate, Status, failed_precondition, not_leader, not_leader_prefix, require_leader,
}

-- An address that a client takes as it is: `TrimSpace` leaves it, and it does not say "unknown".
pub record IsDialable (addr : String) : Type 0 where
  pub not_empty : str_eq addr "" ≡ false
  pub trimmed : trim_space addr ≡ addr
  pub is_known : contains addr "unknown" ≡ false

known_addr_dialable : (addr : String) → IsDialable addr → known_addr addr ≡ some addr
unfolding known_addr
known_addr_dialable addr h = rw h.not_empty (rw h.is_known refl)

-- A redirect to an address that needs no trimming is read back as that address.
pub parse-format :
    (addr : String)
    → IsDialable addr
    → parse_leader_addr (status_error failed_precondition (format_not_leader_error addr))
      ≡ some addr
unfolding parse_leader_addr is_failed_precondition format_not_leader_error
parse-format addr h =
    let msg = str_append not_leader_prefix addr in
    ap (λ b. if b then known_addr (trim_space (trim_prefix msg not_leader_prefix)) else none)
      (starts_with-append not_leader_prefix addr)
    ∙ ap (λ s. known_addr (trim_space s)) (trim_prefix-append not_leader_prefix addr)
    ∙ ap known_addr h.trimmed
    ∙ known_addr_dialable addr h

received-not_leader :
    (digits : ℤ → String) (addr : String)
    → str_eq addr "" ≡ false
    → received digits (not_leader addr)
      ≡ status_error failed_precondition (format_not_leader_error addr)
unfolding received render render_part format_not_leader_error
received-not_leader digits addr e = rw e (
    ap (λ s. status_error failed_precondition (str_append not_leader_prefix s))
      (str_append-nil addr))

refused_without : (digits : ℤ → String) → parse_leader_addr (received digits (not_leader "")) ≡ none
unfolding parse_leader_addr received render render_part is_failed_precondition
refused_without digits = refl

refused_with :
    (digits : ℤ → String) (addr : String)
    → (IsDialable addr → parse_leader_addr (received digits (not_leader addr)) ≡ some addr)
      × (addr ≡ "" → parse_leader_addr (received digits (not_leader addr)) ≡ none)
refused_with digits addr = (
  λ h. ap parse_leader_addr (received-not_leader digits addr h.not_empty) ∙ parse-format addr h,
  λ e.
      subst (λ a. parse_leader_addr (received digits (not_leader a)) ≡ none) (sym e)
        (refused_without digits),
)

-- A client that a follower refuses reads from the refusal the address that the follower has for the
-- leader, if that address is not empty, has no space around it and does not contain "unknown"; if the
-- follower has the empty address, the client reads none.
pub refusal_names_leader :
    (digits : ℤ → String) (gate : LeaderGate) (s : Status)
    → require_leader (some gate) ≡ some s
    → (IsDialable gate.leader_addr → parse_leader_addr (received digits s) ≡ some gate.leader_addr)
      × (gate.leader_addr ≡ "" → parse_leader_addr (received digits s) ≡ none)
unfolding require_leader
refusal_names_leader digits gate s e = elim (Bool-cases gate.is_leader) [
  | inl leader ↦ cc
  | inr follower ↦
      subst
        (λ s'.
          (IsDialable gate.leader_addr
            → parse_leader_addr (received digits s') ≡ some gate.leader_addr)
          × (gate.leader_addr ≡ "" → parse_leader_addr (received digits s') ≡ none))
        (some-injective
          (sym (ap (λ b. if b then none else some (not_leader gate.leader_addr)) follower) ∙ e))
        (refused_with digits gate.leader_addr)
]
