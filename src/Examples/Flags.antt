-- ===== src/Examples/Flags.antt =====
-- The flags of a worker.
use arbiter_distributed_sche.Base.{
  IsIn, List, String, [], arith, eq_iff, map, none, refl, some, ◌∷◌, ◌≡◌,
}
use arbiter_distributed_sche.Base.Split.{join}
use arbiter_distributed_sche.Store.{Labels}
use arbiter_distributed_sche.Worker.Flags.{
  checked_label, contains_addr, kept_parts, parse_addr_list, parse_labels, put_if_label, put_label,
  put_parts, scheduler_addrs, with_addr,
}
use arbiter_distributed_sche.Worker.Flags.Addresses.{scheduler_addrs-join}
use arbiter_distributed_sche.Worker.Flags.LabelText.{label_text, parse_labels-join}

abbrev two_addrs : List String
two_addrs = "a:1" ∷ "b:1" ∷ []

scheduler_addrs-join_example :
    (parse_addr_list (join "," two_addrs) ≡ two_addrs)
    × IsIn "c:1" (scheduler_addrs " a:1,,b:1" "c:1")
scheduler_addrs-join_example =
    scheduler_addrs-join two_addrs " a:1,,b:1" "c:1" ((refl, refl, refl), ((refl, refl, refl), tt))

abbrev two_labels : Labels
two_labels = ("zone", "eu") ∷ ("note", "x=1") ∷ []

parse_labels-join_example : parse_labels (join "," (map label_text two_labels)) ≡ some two_labels
parse_labels-join_example =
    parse_labels-join two_labels ((refl, refl, refl, refl), ((refl, refl, refl, refl), tt))
      ((ground (arith, eq_iff "note" "zone"), tt), (tt, tt))

-- Space and empty parts are passed over, and a part without a key is an error.
skips_blank_parts : parse_labels " zone=eu, ,x=" ≡ some (("zone", "eu") ∷ ("x", "") ∷ [])
unfolding parse_labels put_parts put_if_label put_label checked_label
skips_blank_parts = refl

key_is_required : parse_labels "zone=eu,=1" ≡ none
unfolding parse_labels put_parts put_if_label put_label checked_label
key_is_required = refl

keeps_known_addr : scheduler_addrs "a:1, c:1," "c:1" ≡ "a:1" ∷ "c:1" ∷ []
unfolding scheduler_addrs parse_addr_list kept_parts with_addr contains_addr
keeps_known_addr = refl
