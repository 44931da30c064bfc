-- ===== src/Worker/Flags.antt =====
-- cmd/worker/main.go: the reading of `--labels` and of the schedulers' addresses.
pub mod LabelText
pub mod Addresses
use arbiter_distributed_sche.Base.{
  Bool, List, Option, String, [], false, if◌then◌else◌, none, not, some, str_eq, true, ℕ, ◌∷◌,
}
use arbiter_distributed_sche.Base.Split.{cut, split_at_each}
use arbiter_distributed_sche.Base.Text.{trim_space}
use arbiter_distributed_sche.Store.{Labels}

-- The code of ','.
abbrev pub comma : ℕ
comma = 44

-- The code of '='.
abbrev pub equals_sign : ℕ
equals_sign = 61

-- `out[key] = val`
unfoldable pub put_label : String → String → Labels → Labels
put_label key val [] = (key, val) ∷ []
put_label key val (l ∷ ls) =
    let rest = put_label key val ls in if str_eq l.0 key then (key, val) ∷ ls else l ∷ rest

-- A label, if the part is one.
unfoldable pub checked_label : Option (String × String) → Option (String × String)
checked_label none = none
checked_label (some l) = if str_eq l.0 "" then none else some l

unfoldable pub put_if_label :
    Option (String × String) → (Labels → Option Labels) → Labels → Option Labels
unfolding put_label
put_if_label none others out = none
put_if_label (some l) others out = others (put_label l.0 l.1 out)

-- The loop of `parseLabels`: none stands for the error.
unfoldable pub put_parts : List String → Labels → Option Labels
unfolding put_if_label checked_label
put_parts [] out = some out
put_parts (part ∷ parts) out =
    let skipped = put_parts parts out in
    let label = checked_label (cut equals_sign (trim_space part)) in
    if str_eq (trim_space part) "" then skipped else put_if_label label (put_parts parts) out

-- `parseLabels`
unfoldable pub parse_labels : String → Option Labels
unfolding put_parts
parse_labels raw = if str_eq raw "" then some [] else put_parts (split_at_each comma raw) []

-- The loop of `parseAddrList`.
unfoldable pub kept_parts : List String → List String
kept_parts [] = []
kept_parts (part ∷ parts) =
    let rest = kept_parts parts in
    if str_eq (trim_space part) "" then rest else trim_space part ∷ rest

-- `parseAddrList`
unfoldable pub parse_addr_list : String → List String
unfolding kept_parts
parse_addr_list raw = kept_parts (split_at_each comma raw)

-- `containsAddr`
unfoldable pub contains_addr : List String → String → Bool
contains_addr [] addr = false
contains_addr (a ∷ addrs) addr =
    let rest = contains_addr addrs addr in if str_eq a addr then true else rest

-- The addresses of `main`: those of `--scheduler-addrs`, and `--scheduler-addr` where it is not one
-- of them.
unfoldable pub with_addr : String → List String → List String
unfolding contains_addr
with_addr addr [] = addr ∷ []
with_addr addr (a ∷ addrs) =
    if not (contains_addr (a ∷ addrs) addr) then addr ∷ a ∷ addrs else a ∷ addrs

unfoldable pub scheduler_addrs : String → String → List String
unfolding with_addr parse_addr_list
scheduler_addrs raw addr = with_addr addr (parse_addr_list raw)
