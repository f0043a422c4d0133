-- ===== src/File/Kmp/Period.antt =====
-- Periods of a word's prefixes, which a table of longest borders records.
use jnet_lib.Base.{ℕ, suc, ◌+◌, ◌-◌, ◌≤◌, ◌<◌, ◌≡◌, ◌≢◌, ◌∙◌, sym, ap, arith, dec_lt, ℕ_discrete}

-- The first `i` places of `w` repeat after `d` places.
abbrev pub Period : (ℕ → ℕ) → ℕ → ℕ → Type 0
Period w d i = (j : ℕ) → d + j < i → w j ≡ w (d + j)

-- `t` is the length of the longest proper border of the first `i` places of `w`.
pub record Border (w : ℕ → ℕ) (t i : ℕ) : Type 0 where
  pub gap : ℕ
  pub gap_pos : 0 < gap
  pub gap_eq : gap + t ≡ i
  pub period : Period w gap i
  pub longest : (d : ℕ) → 0 < d → d ≤ i → Period w d i → i ≤ d + t

-- The search for the border of `suc i` has come down to `c`: it is a border of `i`, and the longest
-- border of `suc i` has `suc c` places at most.
pub record Candidate (w : ℕ → ℕ) (c i : ℕ) : Type 0 where
  pub gap : ℕ
  pub gap_pos : 0 < gap
  pub gap_eq : gap + c ≡ i
  pub period : Period w gap i
  pub longest : (d : ℕ) → 0 < d → d ≤ suc i → Period w d (suc i) → i ≤ d + c

module _ (w : ℕ → ℕ) where
  at-eq : {a b : ℕ} → a ≡ b → w a ≡ w b
  at-eq e = ap w e

  Period-shrink : (d i : ℕ) → Period w d (suc i) → Period w d i
  Period-shrink d i p j h = p j (omega arith)

  pub Candidate-Border : {c i : ℕ} → Candidate w c i → w i ≡ w c → Border w (suc c) (suc i)
  Candidate-Border {c} {i} k e = record {
    gap = k.gap;
    gap_pos = k.gap_pos;
    gap_eq = omega (arith, k.gap_eq);
    period = λ j h. elim (dec_lt (k.gap + j) i) [
      | yes lt ↦ k.period j lt
      | no ge ↦ at-eq (omega (arith, k.gap_eq)) ∙ sym e ∙ at-eq (omega (arith, k.gap_eq))
    ];
    longest = λ d dp dl p. omega (arith, k.longest d dp dl p);
  }

  pub Border-Candidate : {t i : ℕ} → Border w t i → Candidate w t i
  Border-Candidate {t} {i} b = record {
    gap = b.gap;
    gap_pos = b.gap_pos;
    gap_eq = b.gap_eq;
    period = b.period;
    longest = λ d dp dl p. elim (dec_lt i d) [
      | yes lt ↦ omega arith
      | no ge ↦ b.longest d dp (omega arith) (Period-shrink d i p)
    ];
  }

  -- What is left of a candidate when the next place does not extend it.
  Candidate-reject :
      {c i : ℕ} (k : Candidate w c i) (d : ℕ)
      → w i ≢ w c
      → 0 < d
      → d ≤ suc i
      → Period w d (suc i)
      → i < d + c
  Candidate-reject {c} {i} k d ne dp dl p = elim (ℕ_discrete i (d + c)) [
    | yes e ↦ absurd (ne (at-eq e ∙ sym (p c (omega arith))))
    | no n ↦ omega (arith, k.longest d dp dl p)
  ]

  pub Candidate-fallback :
      {c t i : ℕ} → Candidate w c i → w i ≢ w c → Border w t c → Candidate w t i
  Candidate-fallback {c} {t} {i} k ne b = record {
    gap = k.gap + b.gap;
    gap_pos = omega (arith, k.gap_pos);
    gap_eq = omega (arith, k.gap_eq, b.gap_eq);
    period = λ j h.
        b.period j (omega (arith, k.gap_eq))
        ∙ k.period (b.gap + j) (omega arith)
        ∙ at-eq (omega arith);
    longest = λ d dp dl p. elim (dec_lt i d) [
      | yes lt ↦ omega arith
      | no ge ↦
          let e : ℕ = d + c - i in
          let far : i < d + c = Candidate-reject k d ne dp dl p in
          let repeats : Period w e c = λ j h.
            p j (omega (arith, k.gap_eq))
            ∙ sym (k.period (e + j) (omega (arith, k.gap_eq)) ∙ at-eq (omega (arith, k.gap_eq))) in
          omega (arith, b.longest e (omega arith) (omega arith) repeats)
    ];
  }

  pub Candidate-reset : {i : ℕ} → Candidate w 0 i → w i ≢ w 0 → Border w 0 (suc i)
  Candidate-reset {i} k ne = record {
    gap = suc i;
    gap_pos = omega arith;
    gap_eq = omega arith;
    period = λ j h. absurd (omega arith);
    longest = λ d dp dl p. omega (arith, Candidate-reject k d ne dp dl p);
  }
