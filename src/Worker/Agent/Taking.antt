-- ===== src/Worker/Agent/Taking.antt =====
-- cmd/worker/main.go: the loop of `handleAssignments`.
use arbiter_distributed_sche.Base.{
  All, All-map, Bool, Bool-cases, IsIn, List, String, [], ap, arith, eq_refl, false, inl, inr, map,
  not, refl, subst, sym, true, true≢false, ℕ, ◌&&◌, ◌++◌, ◌==◌, ◌∙◌, ◌∷◌, ◌≡◌, ◌≢◌,
}
use arbiter_distributed_sche.Base.Index.{AreDistinct}
use arbiter_distributed_sche.Rpc.Heartbeat.{TaskAssignment}
use arbiter_distributed_sche.Worker.Agent.{TaskSpec, is_new, is_tracked, spec_of, take_each}

tracked-append :
    (id : String) (specs : List TaskSpec) (s : TaskSpec)
    → is_tracked id specs ≡ true
    → is_tracked id (specs ++ s ∷ []) ≡ true
unfolding is_tracked
tracked-append id [] s h = cc
tracked-append id (x ∷ xs) s h = ground (arith, tracked-append id xs s)

tracked-append_self :
    (specs : List TaskSpec) (s : TaskSpec) → is_tracked s.task_id (specs ++ s ∷ []) ≡ true
unfolding is_tracked
tracked-append_self [] s = rw (eq_refl s.task_id) refl
tracked-append_self (x ∷ xs) s = ground (arith, tracked-append_self xs s)

still_false :
    (x y y' : Bool) → (y ≡ true → y' ≡ true) → (x && not y) ≡ false → (x && not y') ≡ false
still_false false y y' h e = refl
still_false true true y' h e = rw (h refl) refl
still_false true false y' h e = cc

and_false : (x y : Bool) → y ≡ true → (x && not y) ≡ false
and_false x y h = ground arith

All-of_map :
    {A : Type 0} {B : Type 0} (P : B → Type 0) (f : A → B) (xs : List A)
    → All (λ x. P (f x)) xs
    → All P (map f xs)
All-of_map P f [] h = tt
All-of_map P f (x ∷ xs) h = (h.0, All-of_map P f xs h.1)

module _ (is_running : String → Bool) (epoch : ℕ) where
  -- A task that is tracked is not taken on, and neither is one that failed another test.
  old_stays :
      (a : TaskAssignment) (specs : List TaskSpec) (s : TaskSpec)
      → is_new is_running epoch a specs ≡ false
      → is_new is_running epoch a (specs ++ s ∷ []) ≡ false
  unfolding is_new
  old_stays a specs s h =
      still_false (not (is_running a.task_id) && a.assigned_epoch == epoch)
        (is_tracked a.task_id specs) (is_tracked a.task_id (specs ++ s ∷ []))
        (tracked-append a.task_id specs s) h

  tracked_is_old :
      (a : TaskAssignment) (specs : List TaskSpec)
      → is_tracked a.task_id specs ≡ true
      → is_new is_running epoch a specs ≡ false
  unfolding is_new
  tracked_is_old a specs h =
      and_false (not (is_running a.task_id) && a.assigned_epoch == epoch)
        (is_tracked a.task_id specs) h

  taken-old :
      (a : TaskAssignment) (specs : List TaskSpec)
      → is_new is_running epoch a (specs ++ spec_of a ∷ []) ≡ false
  unfolding spec_of
  taken-old a specs =
      tracked_is_old a (specs ++ spec_of a ∷ []) (tracked-append_self specs (spec_of a))

  take_each_new :
      (b : TaskAssignment) (others : List TaskAssignment) (specs : List TaskSpec)
      → is_new is_running epoch b specs ≡ true
      → let taken = take_each is_running epoch others (specs ++ spec_of b ∷ []) in
        take_each is_running epoch (b ∷ others) specs ≡ (taken.0, spec_of b ∷ taken.1)
  unfolding take_each
  take_each_new b others specs h = rw h refl

  take_each_old :
      (b : TaskAssignment) (others : List TaskAssignment) (specs : List TaskSpec)
      → is_new is_running epoch b specs ≡ false
      → take_each is_running epoch (b ∷ others) specs ≡ take_each is_running epoch others specs
  unfolding take_each
  take_each_old b others specs h = rw h refl

  -- What is not new stays so over the loop.
  take_each-old :
      (a : TaskAssignment) (others : List TaskAssignment) (specs : List TaskSpec)
      → is_new is_running epoch a specs ≡ false
      → is_new is_running epoch a (take_each is_running epoch others specs).0 ≡ false
  unfolding take_each
  take_each-old a [] specs h = h
  take_each-old a (b ∷ others) specs h = elim (Bool-cases (is_new is_running epoch b specs)) [
    | inl new ↦
        rw new (take_each-old a others (specs ++ spec_of b ∷ []) (old_stays a specs (spec_of b) h))
    | inr old ↦ rw old (take_each-old a others specs h)
  ]

  -- No assignment of the list is new.
  abbrev AreOld : List TaskAssignment → List TaskSpec → Type 0
  AreOld others specs = All (λ a. is_new is_running epoch a specs ≡ false) others

  pub take_each-AreOld :
      (others : List TaskAssignment) (specs : List TaskSpec)
      → AreOld others (take_each is_running epoch others specs).0
  unfolding take_each
  take_each-AreOld [] specs = tt
  take_each-AreOld (b ∷ others) specs = elim (Bool-cases (is_new is_running epoch b specs)) [
    | inl new ↦
        let specs' = specs ++ spec_of b ∷ [] in
        subst (λ x. AreOld (b ∷ others) x.0) (sym (take_each_new b others specs new))
          (take_each-old b others specs' (taken-old b specs), take_each-AreOld others specs')
    | inr old ↦
        subst (λ x. AreOld (b ∷ others) x.0) (sym (take_each_old b others specs old))
          (take_each-old b others specs old, take_each-AreOld others specs)
  ]

  -- A list without a new assignment starts nothing.
  pub take_each-idle :
      (others : List TaskAssignment) (specs : List TaskSpec)
      → All (λ a. is_new is_running epoch a specs ≡ false) others
      → take_each is_running epoch others specs ≡ (specs, [])
  unfolding take_each
  take_each-idle [] specs h = refl
  take_each-idle (b ∷ others) specs h = rw h.0 (take_each-idle others specs h.1)

  -- A spec that the loop starts: of an assignment of the list that was new.
  abbrev pub IsTakenOn : List TaskAssignment → List TaskSpec → TaskSpec → Type 0
  IsTakenOn others specs s =
      (a : TaskAssignment) × IsIn a others
      × (spec_of a ≡ s)
      × (is_new is_running epoch a specs ≡ true)

  newer_is_new :
      (a : TaskAssignment) (specs : List TaskSpec) (s : TaskSpec)
      → is_new is_running epoch a (specs ++ s ∷ []) ≡ true
      → is_new is_running epoch a specs ≡ true
  newer_is_new a specs s h = elim (Bool-cases (is_new is_running epoch a specs)) [
    | inl new ↦ new
    | inr old ↦ absurd (true≢false (sym h ∙ old_stays a specs s old))
  ]

  -- What is due behind an assignment is another task's.
  due_apart :
      (b : TaskAssignment) (others : List TaskAssignment) (specs : List TaskSpec) (s : TaskSpec)
      → IsTakenOn others (specs ++ spec_of b ∷ []) s
      → s.task_id ≢ b.task_id
  unfolding spec_of
  due_apart b others specs s (a, i, e, new) q = true≢false (
      sym new
      ∙ tracked_is_old a (specs ++ spec_of b ∷ []) (
          subst (λ id. is_tracked id (specs ++ spec_of b ∷ []) ≡ true)
            (sym (ap (λ x. x.task_id) e ∙ q)) (tracked-append_self specs (spec_of b))))

  IsTakenOn-later :
      (b : TaskAssignment) (others : List TaskAssignment) (specs : List TaskSpec) (s : TaskSpec)
      → IsTakenOn others (specs ++ spec_of b ∷ []) s
      → IsTakenOn (b ∷ others) specs s
  IsTakenOn-later b others specs s (a, i, e, new) =
      (a, inr i, e, newer_is_new a specs (spec_of b) new)

  IsTakenOn-older :
      (b : TaskAssignment) (others : List TaskAssignment) (specs : List TaskSpec) (s : TaskSpec)
      → IsTakenOn others specs s
      → IsTakenOn (b ∷ others) specs s
  IsTakenOn-older b others specs s (a, i, e, new) = (a, inr i, e, new)

  pub take_each-IsTakenOn :
      (others : List TaskAssignment) (specs : List TaskSpec)
      → let started = (take_each is_running epoch others specs).1 in
        All (IsTakenOn others specs) started × AreDistinct (map (λ s. s.task_id) started)
  unfolding take_each
  take_each-IsTakenOn [] specs = (tt, tt)
  take_each-IsTakenOn (b ∷ others) specs = elim (Bool-cases (is_new is_running epoch b specs)) [
    | inl new ↦
        let specs' = specs ++ spec_of b ∷ [] in
        let started = (take_each is_running epoch others specs').1 in
        let (due, apart) = take_each-IsTakenOn others specs' in
        subst (λ x. All (IsTakenOn (b ∷ others) specs) x.1 × AreDistinct (map (λ s. s.task_id) x.1))
          (sym (take_each_new b others specs new))
          (
            ((b, inl refl, refl, new), All-map started (IsTakenOn-later b others specs) due),
            (
              All-of_map (λ id. id ≢ b.task_id) (λ s. s.task_id) started
                  (All-map started (due_apart b others specs) due),
              apart,
            ),
          )
    | inr old ↦
        let (due, apart) = take_each-IsTakenOn others specs in
        subst (λ x. All (IsTakenOn (b ∷ others) specs) x.1 × AreDistinct (map (λ s. s.task_id) x.1))
          (sym (take_each_old b others specs old))
          (
            All-map (take_each is_running epoch others specs).1 (IsTakenOn-older b others specs)
                due,
            apart,
          )
  ]
