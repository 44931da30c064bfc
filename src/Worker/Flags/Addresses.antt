-- ===== src/Worker/Flags/Addresses.antt =====
-- cmd/worker/main.go: the addresses that a worker dials.
use arbiter_distributed_sche.Base.{
  All, All-map, Bool-cases, IsIn, List, String, [], ap, false, if◌then◌else◌, inl, inr, refl,
  str_eq, str_eq→eq, subst, sym, true, ◌∙◌, ◌∷◌, ◌≡◌,
}
use arbiter_distributed_sche.Base.Split.{avoids, join, split_at_each-join}
use arbiter_distributed_sche.Base.Text.{trim_space}
use arbiter_distributed_sche.Rpc.{plain}
use arbiter_distributed_sche.Worker.Flags.{
  comma, contains_addr, kept_parts, parse_addr_list, scheduler_addrs, with_addr,
}

-- An address as a flag holds it: not empty, without commas and without space around it.
abbrev pub IsAddr : String → Type 0
IsAddr a = (avoids comma a ≡ true) × (trim_space a ≡ a) × (str_eq a "" ≡ false)

kept_parts-addrs : (addrs : List String) → All IsAddr addrs → kept_parts addrs ≡ addrs
unfolding kept_parts
kept_parts-addrs [] h = refl
kept_parts-addrs (a ∷ addrs) h =
    let (plain, trimmed, filled) = h.0 in
    rw trimmed (rw filled (ap (λ x. a ∷ x) (kept_parts-addrs addrs h.1)))

parse_addr_list-join :
    (addrs : List String) → All IsAddr addrs → parse_addr_list (join "," addrs) ≡ addrs
unfolding parse_addr_list
parse_addr_list-join [] h = refl
parse_addr_list-join (a ∷ addrs) h =
    ap kept_parts (split_at_each-join "," a addrs (All-map (a ∷ addrs) (λ x k. k.0) h))
    ∙ kept_parts-addrs (a ∷ addrs) h

contains_addr→IsIn :
    (addrs : List String) (addr : String) → contains_addr addrs addr ≡ true → IsIn addr addrs
unfolding contains_addr
contains_addr→IsIn [] addr h = cc
contains_addr→IsIn (a ∷ addrs) addr h =
    elim (Bool-cases (str_eq a addr)) as (λ x. IsIn addr (a ∷ addrs)) [
      | inl same ↦ inl (sym (str_eq→eq a addr same))
      | inr other ↦ inr (
          contains_addr→IsIn addrs addr
            (subst (λ b. (if b then true else contains_addr addrs addr) ≡ true) other h))
    ]

with_addr-IsIn : (addr : String) (addrs : List String) → IsIn addr (with_addr addr addrs)
unfolding with_addr
with_addr-IsIn addr [] = inl refl
with_addr-IsIn addr (a ∷ addrs) = elim (Bool-cases (contains_addr (a ∷ addrs) addr)) [
  | inl known ↦ rw known (contains_addr→IsIn (a ∷ addrs) addr known)
  | inr unknown ↦ rw unknown (inl refl)
]

-- Addresses that are not empty, hold no comma and have no space around them are read back from
-- `--scheduler-addrs`, in their order; and whatever that flag holds, the address of
-- `--scheduler-addr` is among those that the worker dials.
pub scheduler_addrs-join :
    (addrs : List String) (raw addr : String)
    → All IsAddr addrs
    → (parse_addr_list (join "," addrs) ≡ addrs) × IsIn addr (scheduler_addrs raw addr)
unfolding scheduler_addrs
scheduler_addrs-join addrs raw addr h =
    (parse_addr_list-join addrs h, with_addr-IsIn addr (parse_addr_list raw))
