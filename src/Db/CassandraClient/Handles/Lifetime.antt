-- ===== src/Db/CassandraClient/Handles/Lifetime.antt =====
-- The life of the driver's objects in src/db/CassandraClient.cpp, from `connect` to the destructor.
use db_benchmark.Prelude.{
  ℕ, ◌+◌, ◌≡◌, refl, ap, sym, ◌∙◌, inl, inr, List, [], ◌∷◌, Option, none, some, arith,
}
use db_benchmark.Cpp.Outcome.{Exception, ok, throw}
use db_benchmark.Cpp.Text.{Text}
use db_benchmark.Config.{DatabaseConfig}
use db_benchmark.Db.CassandraClient.{check_future}
use db_benchmark.Db.CassandraClient.Client.{Driver}
use db_benchmark.Db.CassandraClient.Handles.{
  Member, cluster, session, Pointers, Held, statement_members, allocate, await, run_future,
  free_member, connect_objects, close_pointer, disconnect_objects, destroy_objects,
}
use db_benchmark.Experiment.ExperimentBase.Timing.{throw≢ok}
use db_benchmark.Db.CassandraClient.Handles.Ledger.{
  tally, one, pointee, owned, members, Balanced, allocate-Balanced, free_rest, free_member_lem,
}
use db_benchmark.Db.CassandraClient.Handles.Steps.{free_members_lem}
use db_benchmark.Db.CassandraClient.Handles.Prepare.{connect_cases}

owned_null :
    (h : ℕ) (ms : List Member) (c : Pointers) → ((m : Member) → c m ≡ none) → owned h ms c ≡ 0
owned_null h [] c null = refl
owned_null h (m ∷ ms) c null = omega (arith, ap (pointee h) (null m), owned_null h ms c null)

module _ {D S : Type 0} (driver : Driver D S) where
  close_pointer_lem :
      (rest : ℕ → ℕ) (v : Option ℕ) (s : Held S)
      → Balanced rest s
      → ((close_pointer driver v s).0 ≡ ok tt)
        × Balanced rest (close_pointer driver v s).1
        × ((close_pointer driver v s).1.pointers ≡ s.pointers)
  unfolding run_future allocate await check_future
  close_pointer_lem rest none s b = (refl, b, refl)
  close_pointer_lem rest (some x) s b =
      let s₁ = (allocate s).1 in
      let call : S → Option Text × S = λ w. (none, driver.close_session w) in
      let s₂ = (await call [] s₁).1 in free_rest rest s.next s₂ (allocate-Balanced rest s b)

  -- the two members that `disconnect` frees are null then
  disconnect_lem :
      (rest : ℕ → ℕ) (s : Held S)
      → Balanced rest s
      → ((disconnect_objects driver s).0 ≡ ok tt)
        × Balanced rest (disconnect_objects driver s).1
        × ((disconnect_objects driver s).1.pointers session ≡ none)
        × ((disconnect_objects driver s).1.pointers cluster ≡ none)
  unfolding disconnect_objects
  disconnect_lem rest s b =
      let s₁ = (close_pointer driver (s.pointers session) s).1 in
      let s₂ = (free_member session s₁).1 in
      let (closed, b₁, _) = close_pointer_lem rest (s.pointers session) s b in
      let (freed, b₂, null, _) = free_member_lem rest session s₁ b₁ in
      let (freed', b₃, null', nulls) = free_member_lem rest cluster s₂ b₂ in
      rw (closed, freed) (freed', b₃, nulls session null, null')

  -- the destructor leaves the rest, and no more
  destroy_lem :
      (rest : ℕ → ℕ) (s : Held S)
      → Balanced rest s
      → ((destroy_objects driver s).0 ≡ ok tt)
        × ((h : ℕ) → tally h (destroy_objects driver s).1.live ≡ rest h)
  unfolding destroy_objects statement_members
  destroy_lem rest s b =
      let s₁ = (disconnect_objects driver s).1 in
      let (left, b₁, null, null') = disconnect_lem rest s b in
      let (freed, b₂, (n₁, (n₂, (n₃, (n₄, (n₅, _))))), stay) =
        free_members_lem rest statement_members s₁ b₁ in
      rw left (
        freed,
        λ h. omega (
          arith,
          b₂ h,
          ap (pointee h) (stay session null),
          ap (pointee h) (stay cluster null'),
          ap (pointee h) n₁,
          ap (pointee h) n₂,
          ap (pointee h) n₃,
          ap (pointee h) n₄,
          ap (pointee h) n₅,
        ),
      )

  -- A client that is made, connected and destroyed, whatever the driver answers: the destructor returns,
  -- so no object is freed that is not live, and none twice. If `connect` returned, the same objects
  -- are live as before; if it threw, one more, which is never freed.
  pub destroy-connect :
      (config : DatabaseConfig) (s : Held S)
      → ((m : Member) → s.pointers m ≡ none)
      → ((destroy_objects driver (connect_objects driver config s).1).0 ≡ ok tt)
        × ((connect_objects driver config s).0 ≡ ok tt
            → (h : ℕ)
            → tally h (destroy_objects driver (connect_objects driver config s).1).1.live
              ≡ tally h s.live)
        × ((e : Exception)
            → (connect_objects driver config s).0 ≡ throw e
            → (f : ℕ) × ((h : ℕ)
                → tally h (destroy_objects driver (connect_objects driver config s).1).1.live
                  ≡ one f h + tally h s.live))
  destroy-connect config s null =
      let rest : ℕ → ℕ = λ h. tally h s.live in
      let s₁ = (connect_objects driver config s).1 in
      let none_owned : (h : ℕ) → owned h members s.pointers ≡ 0 =
        λ h. owned_null h members s.pointers null in
      elim (connect_cases driver rest config s (λ h. omega (arith, none_owned h))) [
        | inl (u, returned, b) ↦
            let (freed, left) = destroy_lem (λ h. owned h members s.pointers + rest h) s₁ b in
            (
              freed,
              λ h' h. omega (arith, left h, none_owned h),
              λ e threw. absurd (throw≢ok e u (sym threw ∙ returned)),
            )
        | inr (e, threw, (f, lost, few, b)) ↦
            let (freed, left) = destroy_lem (λ h. one f h + (lost h + rest h)) s₁ b in
            (
              freed,
              λ returned. absurd (throw≢ok e tt (sym threw ∙ returned)),
              λ e' threw'. (f, λ h. omega (arith, left h, few h, none_owned h)),
            )
      ]

  -- A client that is connected, its pointers to live objects and no two to the same, and connects again
  -- without `disconnect`, as the experiments with cold reads do, loses what its pointers were to: if
  -- the second `connect` returns, these objects are still live behind the destructor, beside the rest
  -- that was never the client's.
  pub reconnect_leaks :
      (rest : ℕ → ℕ) (config : DatabaseConfig) (s : Held S)
      → Balanced rest s
      → (connect_objects driver config s).0 ≡ ok tt
      → ((destroy_objects driver (connect_objects driver config s).1).0 ≡ ok tt)
        × ((h : ℕ)
            → tally h (destroy_objects driver (connect_objects driver config s).1).1.live
              ≡ owned h members s.pointers + rest h)
  reconnect_leaks rest config s b returned = elim (connect_cases driver rest config s b) [
    | inl (u, _, b₁) ↦
        destroy_lem (λ h. owned h members s.pointers + rest h) (connect_objects driver config s).1
          b₁
    | inr (e, threw, _) ↦ absurd (throw≢ok e tt (sym threw ∙ returned))
  ]
