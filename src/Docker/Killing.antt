-- ===== src/Docker/Killing.antt =====
-- internal/dockerutil/dockerutil.go: what `KillTaskContainers` leaves, on an engine that answers.
use arbiter_distributed_sche.Base.{
  All, All-map, Bool, Bool-cases, IsIn, IsIn-All, List, Option, String, [], ap, arith, eq_refl,
  false, holds_text, if◌then◌else◌, inl, inr, map, none, not, refl, select, select-All, some,
  str_eq, subst, sym, true, true≢false, ◌&&◌, ◌∙◌, ◌∷◌, ◌≡◌,
}
use arbiter_distributed_sche.Base.Order.{All-both, All-select, IsIn-map, IsIn-select}
use arbiter_distributed_sche.Docker.{
  ContainerSummary, Engine, Listed, answered, first_error, kill_by_task_label, kill_each,
  kill_listed, kill_task_containers, list_by_labels, listing_of, removal_of, remove_container,
  summary_of, unless_failed,
}
use arbiter_distributed_sche.Store.{Labels}

-- The label of a container, if it has one of that name.
abbrev pub label_found : Labels → String → Option String
label_found [] k = none
label_found ((j, v) ∷ labels) k = if str_eq j k then some v else label_found labels k

-- A container carries every label of the filter.
abbrev pub carries : Labels → Listed → Bool
carries [] c = true
carries ((k, v) ∷ rest) c = holds_text (label_found c.labels k) v && carries rest c

-- It runs the task.
abbrev pub runs_task : String → Listed → Bool
runs_task task_id c = carries (("arbiter.task_id", task_id) ∷ []) c

-- Documented behaviour of the Docker Engine, on the containers that it has: a listing answers with
-- those that carry the labels, and a forced removal by id succeeds and removes.
pub record IsAnswering {D : Type 0} (engine : Engine D) (containers : D → List Listed)
    : Type 0 where
  pub lists :
      (labels : Labels) (d : D)
      → engine.list labels true d ≡ answered 200 (some (select (carries labels) (containers d)))
  pub deletes : (id : String) (d : D) → removal_of (engine.delete id true d).0 ≡ inr tt
  pub removes :
      (id : String) (d : D)
      → containers (engine.delete id true d).1 ≡ select (λ c. not (str_eq c.id id)) (containers d)

not-true : (b : Bool) → not b ≡ true → b ≡ false
not-true b h = ground arith

module _ {D : Type 0} (engine : Engine D) (containers : D → List Listed)
    (docker : IsAnswering engine containers) where
  kill_each_step :
      (c : ContainerSummary) (cs : List ContainerSummary) (d : D)
      → kill_each engine (c ∷ cs) d ≡ kill_each engine cs (engine.delete c.id true d).1
  unfolding kill_each remove_container
  kill_each_step c cs d =
      ap (λ t. unless_failed engine (t, (engine.delete c.id true d).1) (kill_each engine cs))
        (docker.deletes c.id d)

  kill_each-succeeds : (cs : List ContainerSummary) (d : D) → (kill_each engine cs d).0 ≡ inr tt
  unfolding kill_each
  kill_each-succeeds [] d = refl
  kill_each-succeeds (c ∷ cs) d =
      ap (λ x. x.0) (kill_each_step c cs d) ∙ kill_each-succeeds cs (engine.delete c.id true d).1

  -- What all containers satisfy, those that are left satisfy.
  kill_each-keeps :
      (P : Listed → Type 0) (cs : List ContainerSummary) (d : D)
      → All P (containers d)
      → All P (containers (kill_each engine cs d).1)
  unfolding kill_each
  kill_each-keeps P [] d h = h
  kill_each-keeps P (c ∷ cs) d h =
      subst (λ x. All P (containers x.1)) (sym (kill_each_step c cs d))
        (kill_each-keeps P cs (engine.delete c.id true d).1 (
          subst (All P) (sym (docker.removes c.id d))
            (All-select P (λ x. not (str_eq x.id c.id)) (containers d) h)))

  -- None of those that are left has the id of one of the list.
  abbrev IsSpared : List ContainerSummary → Listed → Type 0
  IsSpared cs x = (c : ContainerSummary) → IsIn c cs → str_eq x.id c.id ≡ false

  IsSpared-more :
      (c : ContainerSummary) (cs : List ContainerSummary) (x : Listed)
      → (not (str_eq x.id c.id) ≡ true) × IsSpared cs x
      → IsSpared (c ∷ cs) x
  IsSpared-more c cs x h b (inl e) = ap (λ y. str_eq x.id y.id) e ∙ not-true (str_eq x.id c.id) h.0
  IsSpared-more c cs x h b (inr i) = h.1 b i

  kill_each-kills :
      (cs : List ContainerSummary) (d : D)
      → All (IsSpared cs) (containers (kill_each engine cs d).1)
  unfolding kill_each
  kill_each-kills [] d = IsIn-All (IsSpared []) (containers d) (λ x i c j. absurd j)
  kill_each-kills (c ∷ cs) d =
      let d' = (engine.delete c.id true d).1 in
      let differs =
        subst (All (λ x. not (str_eq x.id c.id) ≡ true)) (sym (docker.removes c.id d))
          (select-All (λ x. not (str_eq x.id c.id)) (containers d)) in
      subst (λ x. All (IsSpared (c ∷ cs)) (containers x.1)) (sym (kill_each_step c cs d))
        (All-map (containers (kill_each engine cs d').1) (IsSpared-more c cs) (
          All-both (λ x. not (str_eq x.id c.id) ≡ true) (IsSpared cs)
            (containers (kill_each engine cs d').1)
            (kill_each-keeps (λ x. not (str_eq x.id c.id) ≡ true) cs d' differs)
            (kill_each-kills cs d')))

  killed_by_label :
      (task_id : String) (d : D)
      → kill_by_task_label engine task_id d
        ≡ kill_each engine (map summary_of (select (runs_task task_id) (containers d))) d
  unfolding kill_by_task_label list_by_labels kill_listed listing_of
  killed_by_label task_id d =
      ap (λ a. kill_listed engine (listing_of a) d)
        (docker.lists (("arbiter.task_id", task_id) ∷ []) d)

  spared-Idle :
      (task_id : String) (d : D) (x : Listed)
      → IsIn x (containers d)
        × IsSpared (map summary_of (select (runs_task task_id) (containers d))) x
      → runs_task task_id x ≡ false
  unfolding summary_of
  spared-Idle task_id d x h = elim (Bool-cases (runs_task task_id x)) [
    | inl runs ↦
        let listed = IsIn-select (runs_task task_id) (containers d) x runs h.0 in
        let spared =
          h.1 (summary_of x)
            (IsIn-map summary_of (select (runs_task task_id) (containers d)) x listed) in
        absurd (true≢false (sym (eq_refl x.id) ∙ spared))
    | inr idle ↦ idle
  ]

  -- Once a task's containers have been killed, no container runs the task.
  kill_by_task_label-kills :
      (task_id : String) (d : D)
      → ((kill_by_task_label engine task_id d).0 ≡ inr tt)
        × All
            (λ x. runs_task task_id x ≡ false)
            (containers (kill_by_task_label engine task_id d).1)
  kill_by_task_label-kills task_id d =
      let cs = map summary_of (select (runs_task task_id) (containers d)) in
      let left = containers (kill_each engine cs d).1 in
      subst (λ r. (r.0 ≡ inr tt) × All (λ x. runs_task task_id x ≡ false) (containers r.1))
        (sym (killed_by_label task_id d))
        (
          kill_each-succeeds cs d,
          All-map left (spared-Idle task_id d) (
              All-both (λ x. IsIn x (containers d)) (IsSpared cs) left
                (kill_each-keeps (λ x. IsIn x (containers d)) cs d
                  (IsIn-All (λ x. IsIn x (containers d)) (containers d) (λ x i. i)))
                (kill_each-kills cs d)),
        )

  kill_by_task_label-keeps :
      (P : Listed → Type 0) (task_id : String) (d : D)
      → All P (containers d)
      → All P (containers (kill_by_task_label engine task_id d).1)
  kill_by_task_label-keeps P task_id d h =
      subst (λ r. All P (containers r.1)) (sym (killed_by_label task_id d))
        (kill_each-keeps P (map summary_of (select (runs_task task_id) (containers d))) d h)

  kill_task_containers-keeps :
      (P : Listed → Type 0) (ids : List String) (d : D)
      → All P (containers d)
      → All P (containers (kill_task_containers engine ids d).1)
  unfolding kill_task_containers
  kill_task_containers-keeps P [] d h = h
  kill_task_containers-keeps P (id ∷ ids) d h =
      kill_task_containers-keeps P ids (kill_by_task_label engine id d).1
        (kill_by_task_label-keeps P id d h)

  -- On a Docker Engine that answers, `KillTaskContainers` succeeds, and no container that is left runs
  -- one of the tasks.
  pub kill_task_containers-kills :
      (ids : List String) (d : D)
      → ((kill_task_containers engine ids d).0 ≡ inr tt)
        × All
            (λ id.
              All (λ x. runs_task id x ≡ false) (containers (kill_task_containers engine ids d).1))
            ids
  unfolding kill_task_containers
  kill_task_containers-kills [] d = (refl, tt)
  kill_task_containers-kills (id ∷ ids) d =
      let one = kill_by_task_label-kills id d in
      let others = kill_task_containers-kills ids (kill_by_task_label engine id d).1 in
      (
        ap
              (λ t.
                first_error t
                  (kill_task_containers engine ids (kill_by_task_label engine id d).1).0)
              one.0
            ∙ others.0,
        (
          kill_task_containers-keeps (λ x. runs_task id x ≡ false) ids
              (kill_by_task_label engine id d).1 one.1,
          others.1,
        ),
      )
