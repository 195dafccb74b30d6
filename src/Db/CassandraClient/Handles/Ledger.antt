-- ===== src/Db/CassandraClient/Handles/Ledger.antt =====
-- An account of the objects of src/db/CassandraClient.cpp: each live one is behind a pointer of the client
-- or among the rest.
use db_benchmark.Prelude.{
  ℕ, ◌+◌, ◌<◌, ◌≡◌, refl, ap, Bool-cases, ◌⊎◌, inl, inr, true, ◌==◌, List, [], ◌∷◌, Option, none,
  some, arith, count_if, if◌then◌else◌,
}
use db_benchmark.Cpp.Outcome.{Exception, Outcome, ok, throw, undefined}
use db_benchmark.Cpp.Method.{Method, then_do}
use db_benchmark.Db.CassandraClient.Handles.{
  Member, cluster, session, insert_by_id_stmt, insert_by_user_stmt, select_by_id_stmt,
  select_by_user_stmt, delete_by_id_stmt, number, Pointers, put, Held, is_live, without, allocate,
  free, assign, free_pointer, free_member,
}

-- how often an object stands in a list
abbrev pub tally : ℕ → List ℕ → ℕ
tally h = count_if (λ x. x == h)

abbrev pub one : ℕ → ℕ → ℕ
one x h = if x == h then 1 else 0

abbrev pub pointee : ℕ → Option ℕ → ℕ
pointee h none = 0
pointee h (some x) = one x h

-- how many of some pointers are to an object
abbrev pub owned : ℕ → List Member → Pointers → ℕ
owned h [] c = 0
owned h (m ∷ ms) c = pointee h (c m) + owned h ms c

abbrev pub members : List Member
members =
    cluster ∷ session ∷ insert_by_id_stmt ∷ insert_by_user_stmt ∷ select_by_id_stmt
    ∷ select_by_user_stmt ∷ delete_by_id_stmt ∷ []

-- Each live object is behind one of the client's pointers, or among the rest, as often as it is live;
-- so each pointer is to a live object, and no two are to the same.
abbrev pub Balanced : {S : Type 0} → (ℕ → ℕ) → Held S → Type 0
Balanced rest s = (h : ℕ) → tally h s.live ≡ owned h members s.pointers + rest h

pub owned-put :
    (h : ℕ) (m : Member) (v : Option ℕ) (c : Pointers)
    → owned h members (put m v c) + pointee h (c m) ≡ owned h members c + pointee h v
owned-put h cluster v c = omega arith
owned-put h session v c = omega arith
owned-put h insert_by_id_stmt v c = omega arith
owned-put h insert_by_user_stmt v c = omega arith
owned-put h select_by_id_stmt v c = omega arith
owned-put h select_by_user_stmt v c = omega arith
owned-put h delete_by_id_stmt v c = omega arith

one_self : (x : ℕ) → one x x ≡ 1
one_self x = ground arith

is_live-tally : (x : ℕ) (xs : List ℕ) → 0 < tally x xs → is_live x xs ≡ true
is_live-tally x [] h = absurd (omega arith)
is_live-tally x (y ∷ ys) h = ground (arith, is_live-tally x ys)

tally-without :
    (x h : ℕ) (xs : List ℕ) → is_live x xs ≡ true → tally h (without x xs) + one x h ≡ tally h xs
tally-without x h [] live = ground arith
tally-without x h (y ∷ ys) live = ground (arith, tally-without x h ys)

put_self : (m : Member) (v : Option ℕ) (c : Pointers) → put m v c m ≡ v
put_self m v c = ground arith

put_null : (m : Member) (c : Pointers) (m' : Member) → c m' ≡ none → put m none c m' ≡ none
put_null m c m' h = elim (Bool-cases (number m == number m')) [ inl e ↦ rw e refl | inr e ↦ rw e h ]

-- How a call ended: it returned and left P, or threw and left R.
abbrev pub Runs : {S A : Type 0} → (A → S → Type 0) → (S → Type 0) → Outcome A → S → Type 0
Runs P R (ok a) s = P a s
Runs P R (throw e) s = R s
Runs P R undefined s = ⊥

module _ {S A B : Type 0} where
  pub Runs-then :
      (P : A → S → Type 0) (Q : B → S → Type 0) (R : S → Type 0) (res : Outcome A) (s : S)
      (next : A → Method S B)
      → Runs P R res s
      → ((a : A) → P a s → Runs Q R (next a s).0 (next a s).1)
      → Runs Q R (then_do res next s).0 (then_do res next s).1
  Runs-then P Q R (ok a) s next h goes_on = goes_on a h
  Runs-then P Q R (throw e) s next h goes_on = h
  Runs-then P Q R undefined s next h goes_on = h

module _ {S : Type 0} where
  pub allocate-Balanced :
      (rest : ℕ → ℕ) (s : Held S)
      → Balanced rest s
      → Balanced (λ h. one s.next h + rest h) (allocate s).1
  unfolding allocate
  allocate-Balanced rest s b h = omega (arith, b h)

  -- what is live can be freed, and then is so once less
  free_live :
      (x : ℕ) (s : Held S)
      → 0 < tally x s.live
      → ((free x s).0 ≡ ok tt)
        × ((h : ℕ) → tally h (free x s).1.live + one x h ≡ tally h s.live)
        × ((free x s).1.pointers ≡ s.pointers)
  unfolding free
  free_live x s h =
      let live = is_live-tally x s.live h in
      rw live (refl, λ h. tally-without x h s.live live, refl)

  -- an object among the rest can be freed
  pub free_rest :
      (rest : ℕ → ℕ) (x : ℕ) (s : Held S)
      → Balanced (λ h. one x h + rest h) s
      → ((free x s).0 ≡ ok tt) × Balanced rest (free x s).1 × ((free x s).1.pointers ≡ s.pointers)
  free_rest rest x s b =
      let (freed, fewer, same) = free_live x s (omega (arith, b x, one_self x)) in
      (freed, λ h. omega (arith, fewer h, b h, ap (owned h members) same), same)

  pub assign-Balanced :
      (rest : ℕ → ℕ) (m : Member) (x : ℕ) (s : Held S)
      → Balanced (λ h. one x h + rest h) s
      → Balanced (λ h. pointee h (s.pointers m) + rest h) (assign m (some x) s).1
  unfolding assign
  assign-Balanced rest m x s b h = omega (arith, b h, owned-put h m (some x) s.pointers)

  -- the object behind a pointer can be freed, and the pointer is null then
  free_pointer_lem :
      (rest : ℕ → ℕ) (m : Member) (v : Option ℕ) (s : Held S)
      → s.pointers m ≡ v
      → Balanced rest s
      → ((free_pointer m v s).0 ≡ ok tt)
        × Balanced rest (free_pointer m v s).1
        × ((free_pointer m v s).1.pointers m ≡ none)
        × ((m' : Member) → s.pointers m' ≡ none → (free_pointer m v s).1.pointers m' ≡ none)
  unfolding assign
  free_pointer_lem rest m none s e b = (refl, b, e, λ m' h. h)
  free_pointer_lem rest m (some x) s e b =
      let behind : (h : ℕ) → pointee h (s.pointers m) ≡ one x h = λ h. ap (pointee h) e in
      let (freed, fewer, same) =
        free_live x s (omega (arith, b x, behind x, one_self x, owned-put x m none s.pointers)) in
      rw (freed, same)
        (
          refl,
          λ h. omega (arith, fewer h, b h, behind h, owned-put h m none s.pointers),
          put_self m none s.pointers,
          put_null m s.pointers,
        )

  pub free_member_lem :
      (rest : ℕ → ℕ) (m : Member) (s : Held S)
      → Balanced rest s
      → ((free_member m s).0 ≡ ok tt)
        × Balanced rest (free_member m s).1
        × ((free_member m s).1.pointers m ≡ none)
        × ((m' : Member) → s.pointers m' ≡ none → (free_member m s).1.pointers m' ≡ none)
  unfolding free_member
  free_member_lem rest m s = free_pointer_lem rest m (s.pointers m) s refl

-- What a call that throws left may be said with less.
pub Runs-weaken :
    {S A : Type 0} (P Q : A → S → Type 0) (R R' : S → Type 0) (res : Outcome A) (s : S)
    → ((a : A) → P a s → Q a s)
    → (R s → R' s)
    → Runs P R res s
    → Runs Q R' res s
Runs-weaken P Q R R' (ok a) s f g h = f a h
Runs-weaken P Q R R' (throw e) s f g h = g h
Runs-weaken P Q R R' undefined s f g h = h

-- To split on how the call ended and keep the equation.
pub Runs-cases :
    {S A : Type 0} (P : A → S → Type 0) (R : S → Type 0) (res : Outcome A) (s : S)
    → Runs P R res s
    → ((a : A) × (res ≡ ok a) × P a s) ⊎ ((e : Exception) × (res ≡ throw e) × R s)
Runs-cases P R (ok a) s h = inl (a, refl, h)
Runs-cases P R (throw e) s h = inr (e, refl, h)
Runs-cases P R undefined s h = absurd h
