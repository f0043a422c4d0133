-- ===== src/File/Kmp/Search.antt =====
-- `find_eol` finds the first end of line, and otherwise what may be the beginning of one.
use jnet_lib.Base.{
  ℕ, zero, suc, ◌+◌, ◌-◌, ◌*◌, ◌≤◌, ◌<◌, ◌≡◌, ◌≢◌, refl, sym, ◌∙◌, ap, subst, inl, inr, Option,
  true, false, some, List, length, ltb, ◌==◌, if◌then◌else◌, arith, Bool-cases, ==_iff, ==_ne,
  ltb→lt, ltb→le, dec_lt, ℕ_discrete,
}
use jnet_lib.Base.Int.{ℤ}
use jnet_lib.File.Kmp.{entry, byte, index, shift, find_loop, find_eol}
use jnet_lib.File.Kmp.Period.{Period, Border}
use jnet_lib.File.Kmp.Table.{IsTable, build_kmp_table-IsTable}

module _ (word text : List ℕ) where
  -- The word stands in the text at `p`.
  pub record Occurs (p : ℕ) : Type 0 where
    pub fits : p + length word ≤ length text
    pub same : (j : ℕ) → j < length word → byte word j ≡ byte text (p + j)

  -- The text ends with the first `k` bytes of the word, which has more.
  pub record EndsWith (k : ℕ) : Type 0 where
    pub proper : k < length word
    pub start : ℕ
    pub at : start + k ≡ length text
    pub same : (j : ℕ) → j < k → byte word j ≡ byte text (start + j)

  -- From `p` on the text does not contradict the word.
  abbrev Agrees : ℕ → Type 0
  Agrees p = (j : ℕ) → j < length word → p + j < length text → byte word j ≡ byte text (p + j)

  -- What holds at the loop's test.
  record Scan (p k : ℕ) : Type 0 where
    inside : k < length word
    fits : p + k ≤ length text
    same : (j : ℕ) → j < k → byte word j ≡ byte text (p + j)
    passed : (q : ℕ) → q < p → ¬ Agrees q

  Scan-advance :
      {p k : ℕ}
      → Scan p k
      → p + k < length text
      → byte word k ≡ byte text (p + k)
      → k + 1 < length word
      → Scan p (k + 1)
  Scan-advance {p} {k} s lt hit more = record {
    inside = more;
    fits = omega arith;
    same = λ j h. elim (ℕ_discrete j k) [ yes e ↦ rw e hit | no ne ↦ s.same j (omega arith) ];
    passed = s.passed;
  }

  Scan-skip :
      {p : ℕ}
      → Scan p 0
      → p + 0 < length text
      → byte word 0 ≢ byte text (p + 0)
      → Scan (p + 0 + 1) 0
  Scan-skip {p} s lt miss = record {
    inside = s.inside;
    fits = omega arith;
    same = λ j h. absurd (omega arith);
    passed = λ q h. elim (dec_lt q p) [
      | yes l ↦ s.passed q l
      | no g ↦ λ a.
          let e : q ≡ p = omega arith in
          miss (subst (λ r. byte word 0 ≡ byte text (r + 0)) e (a 0 s.inside (omega arith)))
    ];
  }

  Scan-skip_at :
      {p k : ℕ}
      → k ≡ 0
      → Scan p k
      → p + k < length text
      → byte word k ≢ byte text (p + k)
      → Scan (p + k + 1) 0
  Scan-skip_at {p} {k} z s lt miss =
      subst (λ n. Scan (p + n + 1) 0) (sym z)
        (Scan-skip (subst (Scan p) z s) (omega arith)
          (subst (λ n. byte word n ≢ byte text (p + n)) z miss))

  Scan-shift :
      {p k t : ℕ}
      → Scan p k
      → p + k < length text
      → byte word k ≢ byte text (p + k)
      → Border (byte word) t k
      → Scan (p + k - t) t
  Scan-shift {p} {k} {t} s lt miss b = record {
    inside = omega (arith, s.inside, b.gap_eq);
    fits = omega arith;
    same = λ j h.
        b.period j (omega (arith, b.gap_eq))
        ∙ s.same (b.gap + j) (omega (arith, b.gap_eq))
        ∙ ap (byte text) (omega (arith, b.gap_eq));
    passed = λ q h a. elim (dec_lt q p) [
      | yes l ↦ s.passed q l a
      | no g ↦ elim (ℕ_discrete q p) [
        | yes e ↦ miss (subst (λ r. byte word k ≡ byte text (r + k)) e (a k s.inside (omega arith)))
        | no ne ↦
            let d : ℕ = q - p in
            let repeats : Period (byte word) d k = λ j hj.
              a j (omega (arith, s.inside)) (omega arith)
              ∙ ap (byte text) (omega arith)
              ∙ sym (s.same (d + j) hj) in
            absurd (omega (arith, b.longest d (omega arith) (omega (arith, b.gap_eq)) repeats))
      ]
    ];
  }

  -- What the loop returns.
  data Ends : Option (ℕ × ℕ) → Type 0 where
    hit : {p k : ℕ} → Occurs p → ((q : ℕ) → q < p → ¬ Agrees q) → Ends (some (p, k))
    over : {p k : ℕ} → Scan p k → p + k ≡ length text → Ends (some (length text, k))

  module _ (table : List ℤ) (fuel p k : ℕ) where
    find_loop-over :
        ltb (p + k) (length text) ≡ false
        → find_loop word text table (suc fuel) p k ≡ some (length text, k)
    unfolding find_loop
    find_loop-over e = rw e

    find_loop-found :
        ltb (p + k) (length text) ≡ true
        → (byte word k == byte text (p + k)) ≡ true
        → (k == length word - 1) ≡ true
        → find_loop word text table (suc fuel) p k ≡ some (p, k)
    unfolding find_loop
    find_loop-found e h l = rw (e, h, l)

    find_loop-advance :
        ltb (p + k) (length text) ≡ true
        → (byte word k == byte text (p + k)) ≡ true
        → (k == length word - 1) ≡ false
        → find_loop word text table (suc fuel) p k ≡ find_loop word text table fuel p (k + 1)
    unfolding find_loop
    find_loop-advance e h l = rw (e, h, l)

    find_loop-retry :
        {t : ℤ}
        → ltb (p + k) (length text) ≡ true
        → (byte word k == byte text (p + k)) ≡ false
        → entry table k ≡ t
        → find_loop word text table (suc fuel) p k
          ≡ find_loop word text table fuel (shift (p + k) t) (index t)
    unfolding find_loop
    find_loop-retry e m l = rw (e, m, l)

  Scan-Occurs :
      {p k : ℕ}
      → Scan p k
      → p + k < length text
      → byte word k ≡ byte text (p + k)
      → k ≡ length word - 1
      → Occurs p
  Scan-Occurs {p} {k} s lt h e = record {
    fits = omega (arith, s.inside);
    same = λ j hj. elim (ℕ_discrete j k) [ yes q ↦ rw q h | no ne ↦ s.same j (omega arith) ];
  }

  module _ {table : List ℤ} (v : IsTable word table (length word)) where
    -- The loop ends within its fuel.
    find_loop-Ends :
        (fuel p k : ℕ)
        → 2 * length text < fuel + (2 * p + k)
        → Scan p k
        → Ends (find_loop word text table fuel p k)
    find_loop-Ends zero p k f s = absurd (omega (arith, s.fits))
    find_loop-Ends (suc fuel) p k f s = elim (Bool-cases (ltb (p + k) (length text))) [
      | inr end ↦
          rw (find_loop-over table fuel p k end)
            (over s (omega (arith, s.fits, ltb→le (p + k) (length text) end)))
      | inl more ↦
          let lt : p + k < length text = ltb→lt (p + k) (length text) more in
          elim (Bool-cases (byte word k == byte text (p + k))) [
            | inl same ↦
                let e = (==_iff _ _).0 same in
                elim (Bool-cases (k == length word - 1)) [
                  | inl last ↦
                      rw (find_loop-found table fuel p k more same last)
                        (hit (Scan-Occurs s lt e ((==_iff _ _).0 last)) s.passed)
                  | inr before ↦ rw (find_loop-advance table fuel p k more same before) (
                      find_loop-Ends fuel p (k + 1) (omega arith)
                        (Scan-advance s lt e (omega (arith, s.inside, ==_ne _ _ before))))
                ]
            | inr differ ↦
                let ne = ==_ne _ _ differ in
                elim (dec_lt 0 k) [
                  | yes kp ↦
                      let b = v.rest k kp s.inside in
                      rw (find_loop-retry table fuel p k more differ b.1) (
                        find_loop-Ends fuel (p + k - b.0) b.0
                          (omega (arith, b.2.gap_eq, b.2.gap_pos)) (Scan-shift s lt ne b.2))
                  | no kz ↦
                      let z : k ≡ 0 = omega arith in
                      rw (find_loop-retry table fuel p k more differ (ap (entry table) z ∙ v.first))
                        (find_loop-Ends fuel (p + k + 1) 0 (omega arith) (Scan-skip_at z s lt ne))
                ]
          ]
    ]

  Agrees-Occurs : {p : ℕ} → Occurs p → Agrees p
  Agrees-Occurs o j h _ = o.same j h

  Agrees-EndsWith : {k : ℕ} (e : EndsWith k) → Agrees e.start
  Agrees-EndsWith e j _ h = e.same j (omega (arith, e.at))

  Scan-EndsWith : {p k : ℕ} → Scan p k → p + k ≡ length text → EndsWith k
  Scan-EndsWith {p} {k} s e = record { proper = s.inside; start = p; at = e; same = s.same }

  -- A place where the word stands, or the longest part of it at the end, is not passed.
  Scan-longest : {p k : ℕ} → Scan p k → p + k ≡ length text → (m : ℕ) → EndsWith m → m ≤ k
  Scan-longest {p} {k} s e m w = elim (dec_lt w.start p) [
    | yes l ↦ absurd (s.passed w.start l (Agrees-EndsWith w))
    | no g ↦ omega (arith, w.at)
  ]

  Scan-absent : {p k : ℕ} → Scan p k → p + k ≡ length text → (q : ℕ) → ¬ Occurs q
  Scan-absent {p} {k} s e q o = elim (dec_lt q p) [
    | yes l ↦ s.passed q l (Agrees-Occurs o)
    | no g ↦ omega (arith, o.fits, s.inside)
  ]

  -- What a call with `last` behind `last_match_count` finds: the word's first place in the text, with
  -- `last` left alone, or the text's length, with the length of the word's longest proper prefix that
  -- the text ends with.
  pub data Finds (last : ℕ) : ℕ × ℕ → Type 0 where
    found : {p : ℕ} → Occurs p → ((q : ℕ) → q < p → ¬ Occurs q) → Finds last (p, last)
    absent :
        {k : ℕ}
        → ((q : ℕ) → ¬ Occurs q)
        → EndsWith k
        → ((m : ℕ) → EndsWith m → m ≤ k)
        → Finds last (length text, k)

  abbrev answer : ℕ → ℕ × ℕ → ℕ × ℕ
  answer last r = (r.0, if r.0 == length text then r.1 else last)

  Ends-Finds :
      (last : ℕ) {r : Option (ℕ × ℕ)}
      → 2 ≤ length word
      → Ends r
      → (a : ℕ × ℕ) × (r ≡ some a) × Finds last (answer last a)
  Ends-Finds last h (hit {p} {k} o first) =
      let off : (p == length text) ≡ false = ground (arith, o.fits) in
      ((p, k), refl, rw off (found o (λ q l oq. first q l (Agrees-Occurs oq))))
  Ends-Finds last h (over {p} {k} s e) =
      let on : (length text == length text) ≡ true = ground arith in
      (
        (length text, k),
        refl,
        rw on (absent (Scan-absent s e) (Scan-EndsWith s e) (Scan-longest s e)),
      )

  -- For a word of two bytes or more find_eol returns the first place of the word in the text
  -- and leaves last_match_count alone, or, if there is none, returns the length of the text
  -- and stores the length of the longest proper prefix of the word that the text ends with.
  pub find_eol-Finds :
      (block : List ℤ) (last : ℕ)
      → 2 ≤ length word
      → length block ≡ length word
      → (r : ℕ × ℕ) × (find_eol word block text last ≡ some r) × Finds last r
  unfolding find_eol
  find_eol-Finds block last h l =
      let b = build_kmp_table-IsTable word block h l in
      let start : Scan 0 0 = record {
        inside = omega arith;
        fits = omega arith;
        same = λ j hj. absurd (omega arith);
        passed = λ q hq. absurd (omega arith);
      } in
      let e =
        Ends-Finds last h (find_loop-Ends b.3 (2 * length text + 1) 0 0 (omega arith) start) in
      (answer last e.0, rw (b.1, e.1), e.2)
