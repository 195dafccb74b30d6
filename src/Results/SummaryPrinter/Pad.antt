-- ===== src/Results/SummaryPrinter/Pad.antt =====
-- `pad` of src/results/SummaryPrinter.cpp and the width of the rows.
use db_benchmark.Prelude.{
  ℕ, zero, suc, ◌+◌, ◌-◌, ◌%◌, ◌^◌, ◌≤◌, ◌<◌, min, ◌≡◌, refl, ap, sym, ◌∙◌, false, [], ◌∷◌, ◌++◌,
  arith, ltb, leb, leb→le, length, length-append, length-take, length-replicate, take, replicate,
  if◌then◌else◌, ◌&&◌, Bool-cases, inl, inr,
}
use db_benchmark.Cpp.Text.{Text, text}
use db_benchmark.Cpp.Double.{Double}
use db_benchmark.Metrics.BenchmarkResult.{BenchmarkResult}
use db_benchmark.Metrics.LatencyRecorder.{sub64}
use db_benchmark.Results.SummaryPrinter.{
  pad, is_empty, format_latency, format_throughput, summary_row,
}

take-append_le : (n : ℕ) (s t : Text) → n ≤ length s → take n (s ++ t) ≡ take n s
take-append_le zero s t h = refl
take-append_le (suc n) [] t h = elim h [ ]
take-append_le (suc n) (c ∷ s) t h = ap (◌∷◌ c) (take-append_le n s t (omega arith))

take_all : (n : ℕ) (s : Text) → length s ≤ n → take n s ≡ s
take_all zero [] h = refl
take_all zero (c ∷ s) h = absurd (omega arith)
take_all (suc n) [] h = refl
take_all (suc n) (c ∷ s) h = ap (◌∷◌ c) (take_all n s (omega arith))

take-take : (n : ℕ) (s : Text) → take n (take n s) ≡ take n s
take-take zero s = refl
take-take (suc n) [] = refl
take-take (suc n) (c ∷ s) = ap (◌∷◌ c) (take-take n s)

-- the two branches
pad_long :
    (s : Text) (width : ℕ) → length s < 2 ^ 31 → width ≤ length s → pad s width ≡ take width s
unfolding pad
pad_long s width h k = ground arith

pad_short :
    (s : Text) (width : ℕ)
    → width < 2 ^ 31
    → length s < width
    → pad s width ≡ s ++ replicate (width - length s) b' '
unfolding pad sub64
pad_short s width h k =
    let short : ltb (length s % 2 ^ 32) (2 ^ 31) && leb width (length s % 2 ^ 32) ≡ false =
      ground arith in
    let spaces : (width + 2 ^ 64 - length s) % 2 ^ 64 ≡ width - length s = omega arith in
    rw (short, spaces)

-- For a text and a width below 2^31, `pad` gives a text of just that width that begins with as much
-- of the given text as fits.
pub pad_width :
    (s : Text) (width : ℕ)
    → length s < 2 ^ 31
    → width < 2 ^ 31
    → (length (pad s width) ≡ width) × (take (min width (length s)) (pad s width) ≡ take width s)
pad_width s width h k =
    let space : ℕ = b' ' in
    elim (Bool-cases (leb width (length s))) [
      | inl long ↦
          let fits : width ≤ length s = leb→le width (length s) long in
          rw (pad_long s width h fits) (
            omega (arith, length-take width s),
            ap (λ n. take n (take width s)) (omega arith) ∙ take-take width s,
          )
      | inr short ↦
          let less : length s < width = ground arith in
          rw (pad_short s width k less) (
            omega (
              arith,
              length-append s (replicate (width - length s) b' '),
              length-replicate (width - length s) space,
            ),
            ap (λ n. take n (s ++ replicate (width - length s) b' ')) (omega arith)
                ∙ take-append_le (length s) s (replicate (width - length s) b' ') (omega arith)
                ∙ take_all (length s) s (omega arith)
                ∙ sym (take_all width s (omega arith)),
          )
    ]

abbrev pub IsShort : Text → Type 0
IsShort s = length s < 2 ^ 31

module _ {D : Type 0} ⦃d : Double D⦄ where
  -- Every row of the final summary has the width of its columns, 70 characters, the margin of two
  -- and the end of the line, if the texts of its cells are shorter than 2^31 bytes.
  pub length-summary_row :
      (r : BenchmarkResult D)
      → IsShort r.database
      → IsShort r.operation
      → IsShort r.phase
      → IsShort r.index_type
      → IsShort (format_latency r.p99_us)
      → IsShort (format_throughput r.throughput_ops_sec)
      → length (summary_row r) ≡ 73
  unfolding summary_row text
  length-summary_row r db op ph ix lat thr =
      let label = if is_empty r.phase then r.index_type else r.phase in
      let short : IsShort label = ground arith in
      let c₁ = pad r.database 12 in
      let c₂ = pad r.operation 12 in
      let c₃ = pad label 20 in
      let c₄ = pad (format_latency r.p99_us) 10 in
      let c₅ = pad (format_throughput r.throughput_ops_sec) 16 in
      simp length-append (
        omega (
          arith,
          (pad_width r.database 12 db (omega arith)).0,
          (pad_width r.operation 12 op (omega arith)).0,
          (pad_width label 20 short (omega arith)).0,
          (pad_width (format_latency r.p99_us) 10 lat (omega arith)).0,
          (pad_width (format_throughput r.throughput_ops_sec) 16 thr (omega arith)).0,
        ))
