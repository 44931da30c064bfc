-- ===== src/Worker/Flags/LabelText.antt =====
-- cmd/worker/main.go: the labels that a worker reads back from its flag.
use mathlib.Core.List.{append-nil, append_assoc}
use arbiter_distributed_sche.Base.{
  All, All-append, List, String, [], ap, false, if◌then◌else◌, map, ne→str_eq, none, refl, some,
  str_eq, sym, true, ◌++◌, ◌∙◌, ◌∷◌, ◌≡◌, ◌≢◌,
}
use arbiter_distributed_sche.Base.Index.{AreDistinct}
use arbiter_distributed_sche.Base.Split.{
  avoids, cut, cut-pair_with, join, pair_with, pair_with-filled, split_at_each, split_at_each-join,
}
use arbiter_distributed_sche.Base.Text.{trim_space}
use arbiter_distributed_sche.Store.{Labels}
use arbiter_distributed_sche.Worker.Flags.{
  checked_label, comma, equals_sign, parse_labels, put_if_label, put_label, put_parts,
}

-- `key=value`
abbrev pub label_text : String × String → String
label_text l = pair_with "=" l.0 l.1

-- A label as the flag holds it: with a key, without commas, its key without '=', and without space
-- around its text.
abbrev pub IsLabel : String × String → Type 0
IsLabel l =
    (avoids comma (label_text l) ≡ true)
    × (trim_space (label_text l) ≡ label_text l)
    × (avoids equals_sign l.0 ≡ true)
    × (str_eq l.0 "" ≡ false)

-- No label of the list has the key.
abbrev IsNew : Labels → String → Type 0
IsNew out key = All (λ l. l.0 ≢ key) out

put_label-new :
    (key val : String) (out : Labels)
    → IsNew out key
    → put_label key val out ≡ out ++ (key, val) ∷ []
unfolding put_label
put_label-new key val [] h = refl
put_label-new key val (l ∷ out) h =
    rw (ne→str_eq l.0 key h.0) (ap (λ x. l ∷ x) (put_label-new key val out h.1))

checked_label-text :
    (l : String × String) → IsLabel l → checked_label (cut equals_sign (label_text l)) ≡ some l
unfolding checked_label
checked_label-text (key, val) (splits, trimmed, cuttable, filled) =
    ap checked_label (cut-pair_with "=" key val cuttable)
    ∙ ap (λ b. if b then none else some (key, val)) filled

label_text-filled : (l : String × String) → str_eq (label_text l) "" ≡ false
label_text-filled l = ne→str_eq (label_text l) "" (pair_with-filled "=" l.0 l.1)

IsNew-behind :
    (l : String × String) (out labels : Labels)
    → All (λ key. key ≢ l.0) (map (λ m. m.0) labels)
    → All (λ m. IsNew out m.0) labels
    → All (λ m. IsNew (out ++ l ∷ []) m.0) labels
IsNew-behind l out [] apart fresh = tt
IsNew-behind l out (m ∷ labels) apart fresh = (
  All-append (λ x. x.0 ≢ m.0) out (l ∷ []) fresh.0 ((λ e. apart.0 (sym e)), tt),
  IsNew-behind l out labels apart.1 fresh.1,
)

-- A part that holds a label puts it behind the others.
put_parts-label :
    (l : String × String) (parts : List String) (out : Labels)
    → IsLabel l
    → IsNew out l.0
    → put_parts (label_text l ∷ parts) out ≡ put_parts parts (out ++ l ∷ [])
unfolding put_parts put_if_label
put_parts-label l parts out h fresh =
    ap
      (λ t.
        if str_eq t ""
        then put_parts parts out
        else put_if_label (checked_label (cut equals_sign t)) (put_parts parts) out)
      h.1
    ∙ ap
        (λ b.
          if b
          then put_parts parts out
          else put_if_label (checked_label (cut equals_sign (label_text l))) (put_parts parts) out)
        (label_text-filled l)
    ∙ ap (λ o. put_if_label o (put_parts parts) out) (checked_label-text l h)
    ∙ ap (put_parts parts) (put_label-new l.0 l.1 out fresh)

put_parts-labels :
    (labels out : Labels)
    → All IsLabel labels
    → AreDistinct (map (λ l. l.0) labels)
    → All (λ l. IsNew out l.0) labels
    → put_parts (map label_text labels) out ≡ some (out ++ labels)
unfolding put_parts
put_parts-labels [] out h apart fresh = ap some (sym (append-nil out))
put_parts-labels (l ∷ labels) out h apart fresh =
    put_parts-label l (map label_text labels) out h.0 fresh.0
    ∙ put_parts-labels labels (out ++ l ∷ []) h.1 apart.1
        (IsNew-behind l out labels apart.0 fresh.1)
    ∙ ap some (append_assoc out (l ∷ []) labels)

any-IsNew : (labels : Labels) → All (λ l. IsNew [] l.0) labels
any-IsNew [] = tt
any-IsNew (l ∷ labels) = (tt, any-IsNew labels)

join-filled :
    (l : String × String) (labels : Labels)
    → str_eq (join "," (map label_text (l ∷ labels))) "" ≡ false
join-filled l [] = label_text-filled l
join-filled l (m ∷ labels) =
    let rest = join "," (map label_text (m ∷ labels)) in
    ne→str_eq (pair_with "," (label_text l) rest) "" (pair_with-filled "," (label_text l) rest)

All-texts :
    (labels : Labels)
    → All IsLabel labels
    → All (λ t. avoids comma t ≡ true) (map label_text labels)
All-texts [] h = tt
All-texts (l ∷ labels) h = (h.0.0, All-texts labels h.1)

-- Labels with different keys that are not empty, without commas, without '=' in a key and without
-- space around `key=value` are read back from their texts, separated by commas, in their order.
pub parse_labels-join :
    (labels : Labels)
    → All IsLabel labels
    → AreDistinct (map (λ l. l.0) labels)
    → parse_labels (join "," (map label_text labels)) ≡ some labels
unfolding parse_labels
parse_labels-join [] h apart = refl
parse_labels-join (l ∷ labels) h apart =
    let raw = join "," (map label_text (l ∷ labels)) in
    ap (λ b. if b then some [] else put_parts (split_at_each comma raw) []) (join-filled l labels)
    ∙ ap (λ parts. put_parts parts [])
        (split_at_each-join "," (label_text l) (map label_text labels) (All-texts (l ∷ labels) h))
    ∙ put_parts-labels (l ∷ labels) [] h apart (any-IsNew (l ∷ labels))
