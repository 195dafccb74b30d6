-- ===== src/Db/CassandraClient/Handles/Prepare.antt =====
-- What `connect` of src/db/CassandraClient.cpp does to the objects of the driver.
use db_benchmark.Prelude.{
  ℕ, ◌+◌, ◌≡◌, refl, ap, sym, subst, ◌∙◌, ◌⊎◌, false, ◌==◌, List, [], ◌∷◌, ◌++◌, Option, some,
  arith, All,
}
use db_benchmark.Cpp.Outcome.{Exception, ok, throw}
use db_benchmark.Cpp.Method.{◌>>=◌, ◌>>◌}
use db_benchmark.Cpp.Text.{Text, text}
use db_benchmark.Config.{DatabaseConfig}
use db_benchmark.Db.CassandraClient.Client.{Driver, settings_of}
use db_benchmark.Db.CassandraClient.Handles.{
  Member, cluster, session, number, Pointers, put, Held, statements, allocate, free, assign, await,
  run_future, prepare_member, prepare_members, new_member, connect_objects,
}
use db_benchmark.Db.CassandraClient.Handles.Ledger.{
  one, pointee, owned, members, Balanced, Runs, Runs-then, allocate-Balanced, free_rest,
  Runs-weaken, Runs-cases,
}
use db_benchmark.Db.CassandraClient.Handles.Steps.{
  Leaks, Keeps, await_lem, run_future_lem, LeaksMore, Replaces, assign_then-Replaces,
  new_member_lem,
}

module _ {D S : Type 0} (driver : Driver D S) where
  prepare_member_lem :
      (rest : ℕ → ℕ) (m : Member) (query : Text) (s : Held S)
      → Balanced rest s
      → Runs
          (Replaces rest m s.pointers)
          (Leaks rest s.pointers)
          (prepare_member driver m query s).0
          (prepare_member driver m query s).1
  unfolding prepare_member allocate await
  prepare_member_lem rest m query s b =
      let s₁ = (allocate s).1 in
      let f = s.next in
      let call = driver.prepare query in
      let context = text "prepare:: " ++ query in
      let s₂ = (await call context s₁).1 in
      Runs-then (Keeps (λ h. one f h + rest h) s.pointers) (Replaces rest m s.pointers)
        (Leaks rest s.pointers) (await call context s₁).0 s₂
        (λ u. allocate >>= λ p. (free f >> assign m (some p)))
        (await_lem rest f s.pointers call context s₁ (allocate-Balanced rest s b, refl))
        (λ u (b₂, at).
          let p = s₂.next in
          let s₃ = (allocate s₂).1 in
          let (freed, b₄, same) =
            free_rest (λ h. one p h + rest h) f s₃ (λ h. omega (arith, b₂ h)) in
          rw freed (assign_then-Replaces rest m p s.pointers (free f s₃).1 (b₄, same ∙ at)))

  -- no two of the members are the same
  abbrev Apart : List (Member × Text) → Type 0
  Apart [] = Unit
  Apart ((m, query) ∷ rest) = All (λ q. (number m == number q.0) ≡ false) rest × Apart rest

  abbrev pub first_of : List (Member × Text) → List Member
  first_of [] = []
  first_of ((m, query) ∷ rest) = m ∷ first_of rest

  -- the pointers of some members are those of c
  abbrev Agrees : Pointers → Pointers → List (Member × Text) → Type 0
  Agrees c' c qs = All (λ q. c' q.0 ≡ c q.0) qs

  Agrees-apart :
      (m : Member) (c' c₁ c : Pointers) (qs : List (Member × Text))
      → All (λ q. (number m == number q.0) ≡ false) qs
      → ((m' : Member) → (number m == number m') ≡ false → c' m' ≡ c₁ m')
      → Agrees c₁ c qs
      → Agrees c' c qs
  Agrees-apart m c' c₁ c [] apart stay agrees = tt
  Agrees-apart m c' c₁ c ((m', query) ∷ qs) (other, apart) stay (e, agrees) =
      (stay m' other ∙ e, Agrees-apart m c' c₁ c qs apart stay agrees)

  prepare_members_lem :
      (rest : ℕ → ℕ) (qs : List (Member × Text)) (c : Pointers) (s : Held S)
      → Apart qs
      → Agrees s.pointers c qs
      → Balanced rest s
      → Runs
          (λ (u : Unit {0}). Balanced (λ h. owned h (first_of qs) c + rest h))
          (LeaksMore rest (λ h. owned h (first_of qs) c))
          (prepare_members driver qs s).0
          (prepare_members driver qs s).1
  unfolding prepare_members
  prepare_members_lem rest [] c s apart agrees b = λ h. omega (arith, b h)
  prepare_members_lem rest ((m, query) ∷ qs) c s (other, apart) (e, agrees) b =
      let bound : ℕ → ℕ = λ h. owned h (first_of ((m, query) ∷ qs)) c in
      let s₁ = (prepare_member driver m query s).1 in
      let rest₁ : ℕ → ℕ = λ h. pointee h (s.pointers m) + rest h in
      let same : (h : ℕ) → pointee h (s.pointers m) ≡ pointee h (c m) = λ h. ap (pointee h) e in
      Runs-then (Replaces rest m s.pointers) (λ u. Balanced (λ h. bound h + rest h))
        (LeaksMore rest bound) (prepare_member driver m query s).0 s₁
        (λ u. prepare_members driver qs)
        (Runs-weaken (Replaces rest m s.pointers) (Replaces rest m s.pointers)
          (Leaks rest s.pointers) (LeaksMore rest bound) (prepare_member driver m query s).0 s₁
          (λ u x. x) (λ ((f, b'), at). (f, λ h. 0, λ h. omega arith, λ h. omega (arith, b' h)))
          (prepare_member_lem rest m query s b))
        (λ u (b₁, stay).
          Runs-weaken (λ u. Balanced (λ h. owned h (first_of qs) c + rest₁ h))
            (λ u. Balanced (λ h. bound h + rest h)) (LeaksMore rest₁ (λ h. owned h (first_of qs) c))
            (LeaksMore rest bound) (prepare_members driver qs s₁).0 (prepare_members driver qs s₁).1
            (λ u b' h. omega (arith, b' h, same h))
            (λ (f, lost, few, b'). (
              f,
              λ h. pointee h (c m) + lost h,
              λ h. omega (arith, few h),
              λ h. omega (arith, b' h, same h),
            ))
            (prepare_members_lem rest₁ qs c s₁ apart
              (Agrees-apart m s₁.pointers s.pointers c qs other stay agrees) b₁))

  Agrees-after :
      (x y : Option ℕ) (c c' : Pointers)
      → c' ≡ put session y (put cluster x c)
      → Agrees c' c statements
  unfolding statements
  Agrees-after x y c c' h =
      subst (λ c'. Agrees c' c statements) (sym h) (refl, (refl, (refl, (refl, (refl, tt)))))

  Apart-statements : Apart statements
  unfolding statements
  Apart-statements = (
    (refl, (refl, (refl, (refl, tt)))),
    ((refl, (refl, (refl, tt))), ((refl, (refl, tt)), ((refl, tt), (tt, tt)))),
  )

  -- `connect` loses what the pointers were to, as far as it came
  connect_lem :
      (rest : ℕ → ℕ) (config : DatabaseConfig) (s : Held S)
      → Balanced rest s
      → Runs
          (λ (u : Unit {0}). Balanced (λ h. owned h members s.pointers + rest h))
          (LeaksMore rest (λ h. owned h members s.pointers))
          (connect_objects driver config s).0
          (connect_objects driver config s).1
  unfolding connect_objects new_member allocate assign statements
  connect_lem rest config s b =
      let c = s.pointers in
      let s₁ = (new_member cluster s).1 in
      let s₂ = (new_member session s₁).1 in
      let (_, (b₁, _)) = new_member_lem rest cluster s b in
      let rest₁ : ℕ → ℕ = λ h. pointee h (c cluster) + rest h in
      let (_, (b₂, _)) = new_member_lem rest₁ session s₁ b₁ in
      let rest₂ : ℕ → ℕ = λ h. pointee h (s₁.pointers session) + rest₁ h in
      let call = driver.connect_session (settings_of config) in
      let context = text "CassandraClient::connect" in
      let s₃ = (run_future call context s₂).1 in
      let bound : ℕ → ℕ = λ h. owned h members c in
      let done : (u : Unit {0}) → Held S → Type 0 = λ u. Balanced (λ h. bound h + rest h) in
      Runs-then (Keeps rest₂ s₂.pointers) done (LeaksMore rest bound) (run_future call context s₂).0
        s₃ (λ u. prepare_members driver statements)
        (Runs-weaken (Keeps rest₂ s₂.pointers) (Keeps rest₂ s₂.pointers) (Leaks rest₂ s₂.pointers)
          (LeaksMore rest bound) (run_future call context s₂).0 s₃ (λ u x. x)
          (λ ((f, b'), at). (
            f,
            λ h. pointee h (c session) + pointee h (c cluster),
            λ h. omega arith,
            λ h. omega (arith, b' h),
          ))
          (run_future_lem rest₂ call context s₂ b₂))
        (λ u (b₃, at).
          Runs-weaken (λ u. Balanced (λ h. owned h (first_of statements) c + rest₂ h)) done
            (LeaksMore rest₂ (λ h. owned h (first_of statements) c)) (LeaksMore rest bound)
            (prepare_members driver statements s₃).0 (prepare_members driver statements s₃).1
            (λ u b' h. omega (arith, b' h))
            (λ (f, lost, few, b'). (
              f,
              λ h. (pointee h (c session) + pointee h (c cluster)) + lost h,
              λ h. omega (arith, few h),
              λ h. omega (arith, b' h),
            ))
            (prepare_members_lem rest₂ statements c s₃ Apart-statements
              (Agrees-after (some s.next) (some s₁.next) c s₃.pointers at) b₃))

  -- `connect` returns or throws, with the account that it leaves
  pub connect_cases :
      (rest : ℕ → ℕ) (config : DatabaseConfig) (s : Held S)
      → Balanced rest s
      → ((u : Unit {0}) × ((connect_objects driver config s).0 ≡ ok u)
          × Balanced (λ h. owned h members s.pointers + rest h) (connect_objects driver config s).1)
        ⊎ ((e : Exception) × ((connect_objects driver config s).0 ≡ throw e)
            × LeaksMore rest (λ h. owned h members s.pointers) (connect_objects driver config s).1)
  connect_cases rest config s b =
      Runs-cases (λ (u : Unit {0}). Balanced (λ h. owned h members s.pointers + rest h))
        (LeaksMore rest (λ h. owned h members s.pointers)) (connect_objects driver config s).0
        (connect_objects driver config s).1 (connect_lem rest config s b)
