-- ===== src/Worker/Dialer/Positions.antt =====
-- cmd/worker/main.go: what the operations of `schedulerDialer` make of a dialer that stands at one of
-- its addresses.
use arbiter_distributed_sche.Base.{
  Bool, Bool-cases, List, Option, String, [], ap, arith, coalesce, false, if◌then◌else◌, inl, inr,
  is_some, length, none, not, refl, some, some-injective, str_eq, str_eq→eq, sym, true, ℕ, ◌%◌, ◌+◌,
  ◌==◌, ◌||◌, ◌∙◌, ◌∷◌, ◌≡◌, ◌⊎◌,
}
use arbiter_distributed_sche.Base.Index.{AreDistinct, get_elem?, index_of, index_of-get_elem?}
use arbiter_distributed_sche.Redirects.{
  CallError, is_failed_precondition, is_unavailable, no_status, parse_leader_addr, status_error,
}
use arbiter_distributed_sche.Rpc.{
  failed_precondition, internal, invalid_argument, not_found, other_code, unavailable,
}
use arbiter_distributed_sche.Worker.Dialer.{
  Dialer, client_of, follow_redirect, recover, recover_from_unavailable, redial, redialled,
  redirect_to, rotate,
}

module _ (dial : String → Bool) (dials : (a : String) → dial a ≡ true) (addrs : List String)
    (apart : AreDistinct addrs) where
  -- The dialer at a position, whether it has been dialled or not.
  abbrev pub at : ℕ → String → Option String → Dialer
  at i a c = record { addrs = addrs; idx = i; addr = a; client = c }

  abbrev pub IsOpen : String → Option String → Type 0
  IsOpen a c = (c ≡ none) ⊎ (c ≡ some a)

  redial-at :
      (i : ℕ) (a b : String) (c : Option String)
      → redial dial b (at i a c) ≡ (some b, at (coalesce (index_of b addrs) i) b (some b))
  unfolding redial redialled
  redial-at i a b c = rw (dials b) refl

  pub client_at :
      (i : ℕ) (a : String) (c : Option String)
      → get_elem? addrs i ≡ some a
      → IsOpen a c
      → client_of dial (at i a c) ≡ (some a, at i a (some a))
  unfolding client_of
  client_at i a none e o =
      redial-at i a a none
      ∙ ap (λ k. (some a, at (coalesce k i) a (some a))) (index_of-get_elem? addrs i apart e)
  client_at i a (some b) e (inl q) = cc
  client_at i a (some b) e (inr q) = ap (λ x. (some x, at i a (some x))) (some-injective q)

  pub recover_followed :
      (d d' : Dialer) (e : CallError)
      → follow_redirect dial e d ≡ (true, d')
      → recover dial e d ≡ (true, d')
  unfolding recover
  recover_followed d d' e q = ap (λ x. if x.0 then x else recover_from_unavailable dial e x.1) q

  pub recover_unfollowed :
      (d : Dialer) (e : CallError)
      → follow_redirect dial e d ≡ (false, d)
      → recover dial e d ≡ recover_from_unavailable dial e d
  unfolding recover
  recover_unfollowed d e q = ap (λ x. if x.0 then x else recover_from_unavailable dial e x.1) q

  -- A replica that refers to the leader.
  pub redirect_to_leader :
      (lead : String) (i : ℕ) (a : String)
      → (j : ℕ) × (redirect_to dial lead (at i a (some a)) ≡ (true, at j lead (some lead)))
  unfolding redirect_to
  redirect_to_leader lead i a = elim (Bool-cases (str_eq lead a)) [
    | inl same ↦ (i, rw same (ap (λ x. (true, at i x (some x))) (sym (str_eq→eq lead a same))))
    | inr differs ↦ (
      coalesce (index_of lead addrs) i,
      rw differs (ap (λ x. (is_some x.0, x.1)) (redial-at i a lead (some a))),
    )
  ]

  -- An unavailable replica names no leader.
  pub unnamed : (e : CallError) → is_unavailable e ≡ true → parse_leader_addr e ≡ none
  unfolding is_unavailable parse_leader_addr is_failed_precondition
  unnamed (status_error invalid_argument m) u = cc
  unnamed (status_error not_found m) u = cc
  unnamed (status_error failed_precondition m) u = cc
  unnamed (status_error internal m) u = cc
  unnamed (status_error unavailable m) u = refl
  unnamed (status_error (other_code n) m) u = cc
  unnamed no_status u = cc

  inhabited :
      (xs : List String) (n : ℕ) {x : String} → get_elem? xs n ≡ some x → (length xs == 0) ≡ false
  inhabited [] n g = cc
  inhabited (y ∷ ys) n g = ground arith

  rotate-at :
      (i : ℕ) (a b : String)
      → get_elem? addrs ((i + 1) % length addrs) ≡ some b
      → rotate dial (at i a (some a)) ≡ (true, at ((i + 1) % length addrs) b (some b))
  unfolding rotate
  rotate-at i a b g =
      let j = (i + 1) % length addrs in
      ap (λ o. let x = redial dial (coalesce o "") (at j a (some a)) in (is_some x.0, x.1)) g
      ∙ ap (λ x. (is_some x.0, x.1)) (redial-at j a b (some a))
      ∙ ap (λ o. (true, at (coalesce o j) b (some b))) (index_of-get_elem? addrs j apart g)

  pub rotated_at :
      (i : ℕ) (a b : String) (e : CallError)
      → is_unavailable e ≡ true
      → get_elem? addrs ((i + 1) % length addrs) ≡ some b
      → recover_from_unavailable dial e (at i a (some a))
        ≡ (true, at ((i + 1) % length addrs) b (some b))
  unfolding recover_from_unavailable
  rotated_at i a b e u g =
      ap
        (λ t.
          if not t || length addrs == 0
          then (false, at i a (some a))
          else rotate dial (at i a (some a)))
        u
      ∙ ap (λ t. if t then (false, at i a (some a)) else rotate dial (at i a (some a)))
          (inhabited addrs ((i + 1) % length addrs) g)
      ∙ rotate-at i a b g
