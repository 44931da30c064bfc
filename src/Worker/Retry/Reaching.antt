-- ===== src/Worker/Retry/Reaching.antt =====
-- cmd/worker/main.go: a call finds the leader past replicas that are down, and through redirects.
use arbiter_distributed_sche.Base.{
  Bool, List, Option, String, ap, arith, if◌then◌else◌, inl, inr, length, none, refl, some,
  some-injective, subst, suc, sym, true, zero, ℕ, ◌%◌, ◌+◌, ◌<◌, ◌∙◌, ◌≡◌, ◌≤◌, ◌⊎◌,
}
use arbiter_distributed_sche.Base.Index.{AreDistinct, get_elem?}
use arbiter_distributed_sche.Redirects.{CallError, is_unavailable, parse_leader_addr}
use arbiter_distributed_sche.Worker.Dialer.{
  Dialer, client_of, client_or_redial, follow_redirect, recover, redirect_if_named,
}
use arbiter_distributed_sche.Worker.Dialer.Positions.{
  IsOpen, at, client_at, recover_followed, recover_unfollowed, redirect_to_leader, rotated_at,
  unnamed,
}
use arbiter_distributed_sche.Worker.Retry.{
  after_call, again, call_once, carry_on, finished, last_call, try_each, with_leader_retry,
}

module _ {S R : Type 0} (dial : String → Bool) (call : String → S → (CallError ⊎ R) × S)
    (dials : (a : String) → dial a ≡ true) (addrs : List String) (apart : AreDistinct addrs)
    (lead : String) (s s' : S) (r : R) (serves : call lead s ≡ (inr r, s')) where
  -- The replica is unavailable.
  abbrev pub IsDown : String → Type 0
  IsDown a = (e : CallError) × (call a s ≡ (inl e, s)) × (is_unavailable e ≡ true)

  -- The replica is the leader, or refuses with the leader's address.
  abbrev pub Knows : String → Type 0
  Knows a =
      (a ≡ lead) ⊎ ((e : CallError) × (call a s ≡ (inl e, s)) × (parse_leader_addr e ≡ some lead))

  -- Within so many rotations, past replicas that are down, there is one that knows the leader.
  pub data IsAhead : ℕ → ℕ → Type 0 where
    knowing : {i : ℕ} (a : String) → get_elem? addrs i ≡ some a → Knows a → IsAhead i 0
    passing :
        {i k : ℕ} (a b : String)
        → get_elem? addrs i ≡ some a
        → IsDown a
        → get_elem? addrs ((i + 1) % length addrs) ≡ some b
        → IsAhead ((i + 1) % length addrs) k
        → IsAhead i (suc k)

  -- The leader's answer, and what its call makes of the system.
  abbrev Reached : (CallError ⊎ R) × Dialer × S → Type 0
  Reached x = (x.0 ≡ inr r) × (x.2 ≡ s')

  at_leader :
      (i : ℕ)
      → call_once dial call (client_of dial (at dial dials addrs apart i lead (some lead))) s
        ≡ finished (inr r) (at dial dials addrs apart i lead (some lead)) s'
  unfolding call_once client_of client_or_redial after_call
  at_leader i = rw serves refl

  try_each_leader :
      (n i : ℕ) → Reached (try_each dial call n (at dial dials addrs apart i lead (some lead)) s)
  unfolding try_each last_call client_of client_or_redial carry_on
  try_each_leader zero i = rw serves (refl, refl)
  try_each_leader (suc n) i =
      subst (λ t. Reached (carry_on (λ e. try_each dial call n) t)) (sym (at_leader i)) (refl, refl)

  after_recover :
      (d d' : Dialer) (e : CallError)
      → recover dial e d ≡ (true, d')
      → after_call dial call d (inl e, s) ≡ again e d' s
  unfolding after_call
  after_recover d d' e q = ap (λ x. if x.0 then again e x.1 s else finished (inl e) x.1 s) q

  redirected :
      (i : ℕ) (a : String) (e : CallError)
      → parse_leader_addr e ≡ some lead
      → (j : ℕ) × (after_call dial call (at dial dials addrs apart i a (some a)) (inl e, s)
          ≡ again e (at dial dials addrs apart j lead (some lead)) s)
  unfolding follow_redirect redirect_if_named
  redirected i a e p =
      let (j, q) = redirect_to_leader dial dials addrs apart lead i a in
      (
        j,
        after_recover (at dial dials addrs apart i a (some a))
            (at dial dials addrs apart j lead (some lead)) e
            (recover_followed dial dials addrs apart (at dial dials addrs apart i a (some a))
              (at dial dials addrs apart j lead (some lead)) e
              (ap (λ o. redirect_if_named dial o (at dial dials addrs apart i a (some a))) p ∙ q)),
      )

  rotated :
      (i : ℕ) (a b : String) (e : CallError)
      → is_unavailable e ≡ true
      → get_elem? addrs ((i + 1) % length addrs) ≡ some b
      → after_call dial call (at dial dials addrs apart i a (some a)) (inl e, s)
        ≡ again e (at dial dials addrs apart ((i + 1) % length addrs) b (some b)) s
  unfolding follow_redirect redirect_if_named
  rotated i a b e u g =
      after_recover (at dial dials addrs apart i a (some a))
        (at dial dials addrs apart ((i + 1) % length addrs) b (some b)) e
        (recover_unfollowed dial dials addrs apart (at dial dials addrs apart i a (some a)) e (
            ap (λ o. redirect_if_named dial o (at dial dials addrs apart i a (some a)))
              (unnamed dial dials addrs apart e u))
          ∙ rotated_at dial dials addrs apart i a b e u g)

  called_at :
      (i : ℕ) (a : String) (c : Option String)
      → get_elem? addrs i ≡ some a
      → IsOpen dial dials addrs apart a c
      → call_once dial call (client_of dial (at dial dials addrs apart i a c)) s
        ≡ after_call dial call (at dial dials addrs apart i a (some a)) (call a s)
  unfolding call_once
  called_at i a c g o =
      ap (λ x. call_once dial call x s) (client_at dial dials addrs apart i a c g o)

  answered_at :
      (i : ℕ) (a : String)
      → a ≡ lead
      → after_call dial call (at dial dials addrs apart i a (some a)) (call a s)
        ≡ finished (inr r) (at dial dials addrs apart i a (some a)) s'
  unfolding after_call
  answered_at i a q =
      ap (after_call dial call (at dial dials addrs apart i a (some a)))
        (ap (λ x. call x s) q ∙ serves)

  -- A round after which the loop goes on from another position.
  goes_on :
      (n i j : ℕ) (a b : String) (c : Option String) (e : CallError)
      → get_elem? addrs i ≡ some a
      → IsOpen dial dials addrs apart a c
      → call a s ≡ (inl e, s)
      → after_call dial call (at dial dials addrs apart i a (some a)) (inl e, s)
        ≡ again e (at dial dials addrs apart j b (some b)) s
      → Reached (try_each dial call n (at dial dials addrs apart j b (some b)) s)
      → Reached (try_each dial call (suc n) (at dial dials addrs apart i a c) s)
  unfolding try_each carry_on
  goes_on n i j a b c e g o q w h =
      subst (λ t. Reached (carry_on (λ e'. try_each dial call n) t))
        (sym (
          called_at i a c g o
          ∙ ap (after_call dial call (at dial dials addrs apart i a (some a))) q
          ∙ w))
        h

  -- The loop reaches the leader from a position from which a replica that knows it is ahead.
  try_each-Reached :
      (n i k : ℕ) (a : String) (c : Option String)
      → get_elem? addrs i ≡ some a
      → IsOpen dial dials addrs apart a c
      → IsAhead i k
      → k < n
      → Reached (try_each dial call n (at dial dials addrs apart i a c) s)
  unfolding try_each carry_on
  try_each-Reached zero i k a c g o h lt = absurd (omega (arith, lt))
  try_each-Reached (suc n) i zero a c g o (knowing b g' (inl q)) lt =
      let here = called_at i a c g o in
      let is_lead = some-injective (sym g ∙ g') ∙ q in
      subst (λ t. Reached (carry_on (λ e. try_each dial call n) t))
        (sym (here ∙ answered_at i a (is_lead))) (refl, refl)
  try_each-Reached (suc n) i zero a c g o (knowing b g' (inr (e, q, p))) lt =
      let same = some-injective (sym g ∙ g') in
      let (j, w) = redirected i a e p in
      goes_on n i j a lead c e g o (ap (λ x. call x s) same ∙ q) w (try_each_leader n j)
  try_each-Reached (suc n) i (suc k) a c g o (passing b b' g' (e, q, u) g'' h) lt =
      let same = some-injective (sym g ∙ g') in
      let j = (i + 1) % length addrs in
      goes_on n i j a b' c e g o (ap (λ x. call x s) same ∙ q) (rotated i a b' e u g'')
        (try_each-Reached n j k b' (some b') g'' (inr refl) h (omega (arith, lt)))

  -- A call through a dialer at its configured position succeeds, with the leader's answer and
  -- nothing else done to the system, if within seven rotations there is a replica that is the leader
  -- or refers to it, past replicas that are down. The addresses are distinct, `grpc.NewClient` accepts
  -- every address, and the leader serves the call.
  pub call_reaches_leader :
      (i k : ℕ) (a : String) (c : Option String)
      → get_elem? addrs i ≡ some a
      → (c ≡ none) ⊎ (c ≡ some a)
      → IsAhead i k
      → k ≤ 7
      → let x =
          with_leader_retry dial call (record { addrs = addrs; idx = i; addr = a; client = c }) s in
        (x.0 ≡ inr r) × (x.2 ≡ s')
  unfolding with_leader_retry
  call_reaches_leader i k a c g o h b = try_each-Reached 8 i k a c g o h (omega (arith, b))
