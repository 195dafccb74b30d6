-- ===== src/Db/CassandraClient/Handles/Steps.antt =====
-- The single steps of src/db/CassandraClient.cpp on the objects of the driver.
use db_benchmark.Prelude.{
  ℕ, ◌+◌, ◌≤◌, ◌≡◌, refl, ap, sym, subst, ◌∙◌, inl, inr, false, ◌==◌, List, [], ◌∷◌, Option, none,
  some, option_cases, arith, All,
}
use db_benchmark.Cpp.Outcome.{Outcome, ok}
use db_benchmark.Cpp.Text.{Text}
use db_benchmark.Db.CassandraClient.{check_future}
use db_benchmark.Db.CassandraClient.Handles.{
  Member, number, Pointers, Held, allocate, free, assign, await, run_future, free_member,
  free_members, new_member,
}
use db_benchmark.Db.CassandraClient.Handles.Ledger.{
  one, pointee, Balanced, owned-put, Runs, Runs-then, allocate-Balanced, free_rest, free_member_lem,
}

module _ {S : Type 0} where
  -- one object more than the rest is live, behind no pointer
  abbrev pub Leaks : (ℕ → ℕ) → Pointers → Held S → Type 0
  Leaks rest c s = ((f : ℕ) × Balanced (λ h. one f h + rest h) s) × (s.pointers ≡ c)

  abbrev pub Keeps : (ℕ → ℕ) → Pointers → Unit {0} → Held S → Type 0
  Keeps rest c a s = Balanced rest s × (s.pointers ≡ c)

  -- the call returned, the account is balanced, and some pointers are null, with all that were before
  abbrev pub FreesAll : (ℕ → ℕ) → List Member → Held S → Outcome (Unit {0}) × Held S → Type 0
  FreesAll rest ms s (res, s') =
      (res ≡ ok tt)
      × Balanced rest s'
      × All (λ m. s'.pointers m ≡ none) ms
      × ((m : Member) → s.pointers m ≡ none → s'.pointers m ≡ none)

  pub free_members_lem :
      (rest : ℕ → ℕ) (ms : List Member) (s : Held S)
      → Balanced rest s
      → FreesAll rest ms s (free_members ms s)
  unfolding free_members
  free_members_lem rest [] s b = (refl, b, tt, λ m' h. h)
  free_members_lem rest (m ∷ ms) s b =
      let (freed, b₁, null, stay) = free_member_lem rest m s b in
      let s₁ = (free_member m s).1 in
      let (freed', b', nulls, stay') = free_members_lem rest ms s₁ b₁ in
      let goes_on : free_members (m ∷ ms) s ≡ free_members ms s₁ = rw freed refl in
      subst (FreesAll rest (m ∷ ms) s) (sym goes_on)
        (freed', b', (stay' m null, nulls), λ m' h. stay' m' (stay m' h))

  pub await_lem :
      (rest : ℕ → ℕ) (f : ℕ) (c : Pointers) (call : S → Option Text × S) (context : Text)
      (s : Held S)
      → Keeps (λ h. one f h + rest h) c tt s
      → Runs
          (Keeps (λ h. one f h + rest h) c)
          (Leaks rest c)
          (await call context s).0
          (await call context s).1
  unfolding await check_future
  await_lem rest f c call context s (b, at) = elim (option_cases (call s.world).0) [
    | inl e ↦ rw e (b, at)
    | inr (message, e) ↦ rw e ((f, b), at)
  ]

  pub free_then-Keeps :
      (rest : ℕ → ℕ) (f : ℕ) (c : Pointers) (s : Held S)
      → Keeps (λ h. one f h + rest h) c tt s
      → Runs (Keeps rest c) (Leaks rest c) (free f s).0 (free f s).1
  free_then-Keeps rest f c s (b, at) =
      let (freed, b', same) = free_rest rest f s b in rw freed (b', same ∙ at)

  pub run_future_lem :
      (rest : ℕ → ℕ) (call : S → Option Text × S) (context : Text) (s : Held S)
      → Balanced rest s
      → Runs
          (Keeps rest s.pointers)
          (Leaks rest s.pointers)
          (run_future call context s).0
          (run_future call context s).1
  unfolding run_future allocate
  run_future_lem rest call context s b =
      let s₁ = (allocate s).1 in
      let f = s.next in
      Runs-then (Keeps (λ h. one f h + rest h) s.pointers) (Keeps rest s.pointers)
        (Leaks rest s.pointers) (await call context s₁).0 (await call context s₁).1 (λ u. free f)
        (await_lem rest f s.pointers call context s₁ (allocate-Balanced rest s b, refl))
        (λ u. free_then-Keeps rest f s.pointers (await call context s₁).1)

  -- Besides a future, some of what is bounded is live and behind no pointer.
  abbrev pub LeaksMore : (ℕ → ℕ) → (ℕ → ℕ) → Held S → Type 0
  LeaksMore rest bound s =
      (f : ℕ) × (lost : ℕ → ℕ) × ((h : ℕ) → lost h ≤ bound h)
      × Balanced (λ h. one f h + (lost h + rest h)) s

  -- what the pointer was to is live and behind no pointer, and the other pointers stay
  abbrev pub Replaces : (ℕ → ℕ) → Member → Pointers → Unit {0} → Held S → Type 0
  Replaces rest m c u s =
      Balanced (λ h. pointee h (c m) + rest h) s
      × ((m' : Member) → (number m == number m') ≡ false → s.pointers m' ≡ c m')

  pub assign_then-Replaces :
      (rest : ℕ → ℕ) (m : Member) (x : ℕ) (c : Pointers) (s : Held S)
      → Keeps (λ h. one x h + rest h) c tt s
      → Replaces rest m c tt (assign m (some x) s).1
  unfolding assign
  assign_then-Replaces rest m x c s (b, at) = (
    λ h. omega (arith, b h, owned-put h m (some x) s.pointers, ap (λ c. pointee h (c m)) at),
    λ m' other. rw other (ap (λ c. c m') at),
  )

  pub new_member_lem :
      (rest : ℕ → ℕ) (m : Member) (s : Held S)
      → Balanced rest s
      → ((new_member m s).0 ≡ ok tt) × Replaces rest m s.pointers tt (new_member m s).1
  unfolding new_member allocate assign
  new_member_lem rest m s b = (
    refl,
    assign_then-Replaces rest m s.next s.pointers (allocate s).1 (allocate-Balanced rest s b, refl),
  )
