-- ===== src/File/Kmp/Table.antt =====
-- `build_kmp_table` builds the table of longest borders.
use jnet_lib.Base.{
  ℕ, zero, suc, ◌+◌, ◌-◌, ◌*◌, ◌≤◌, ◌<◌, ◌≡◌, ◌≢◌, ◌⊎◌, refl, sym, ◌∙◌, ap, subst, inl, inr, Option,
  true, false, none, some, List, length, set, ltb, ◌==◌, arith, length-set, get_or-set_self,
  get_or-set_ne, lt→ltb, Bool-cases, ==_iff, ==_ne, ltb→lt, ltb→le, dec_lt, ℕ_discrete,
}
use jnet_lib.Base.Int.{ℤ, pos, negsuc}
use jnet_lib.File.Kmp.{store, entry, byte, index, fill_table, build_kmp_table}
use jnet_lib.File.Kmp.Period.{
  Border, Candidate, Candidate-Border, Border-Candidate, Candidate-fallback, Candidate-reset,
}

-- The first `n` entries are -1 and then the lengths of the longest proper borders.
pub record IsTable (word : List ℕ) (table : List ℤ) (n : ℕ) : Type 0 where
  pub first : entry table 0 ≡ negsuc 0
  pub rest : (i : ℕ) → 0 < i → i < n → (t : ℕ) × (entry table i ≡ pos t) × Border (byte word) t i

store-in :
    (block : List ℤ) (i : ℕ) (v : ℤ) → i < length block → store block i v ≡ some (set block i v)
unfolding store
store-in block i v h = rw (lt→ltb i (length block) h)

module _ (word : List ℕ) where
  -- A new entry behind the others.
  IsTable-set :
      {table : List ℤ} {n t : ℕ}
      → IsTable word table n
      → 0 < n
      → n < length table
      → Border (byte word) t n
      → IsTable word (set table n (pos t)) (n + 1)
  IsTable-set {table} {n} {t} v np nl b = record {
    first = get_or-set_ne table n 0 (pos t) (pos 0) (omega arith) ∙ v.first;
    rest = λ i ip il. elim (ℕ_discrete i n) [
      | yes e ↦ rw e (t, get_or-set_self table n (pos t) (pos 0) nl, b)
      | no ne ↦
          let r = v.rest i ip (omega arith) in
          (r.0, get_or-set_ne table n i (pos t) (pos 0) (λ e. ne (sym e)) ∙ r.1, r.2)
    ];
  }

  Filled : Option (List ℤ) → Type 0
  Filled r = (t : List ℤ) × (r ≡ some t) × (length t ≡ length word) × IsTable word t (length word)

  module _ (fuel i c : ℕ) (table : List ℤ) where
    fill_table-done :
        ltb i (length word) ≡ false → fill_table word (suc fuel) i c table ≡ some table
    unfolding fill_table
    fill_table-done e = rw e

    fill_table-extend :
        ltb i (length word) ≡ true
        → (byte word (i - 1) == byte word c) ≡ true
        → i < length table
        → fill_table word (suc fuel) i c table
          ≡ fill_table word fuel (i + 1) (c + 1) (set table i (pos (c + 1)))
    unfolding fill_table
    fill_table-extend e hit h = rw (e, hit, store-in table i (pos (c + 1)) h)

    fill_table-fallback :
        ltb i (length word) ≡ true
        → (byte word (i - 1) == byte word c) ≡ false
        → 0 < c
        → fill_table word (suc fuel) i c table
          ≡ fill_table word fuel i (index (entry table c)) table
    unfolding fill_table
    fill_table-fallback e miss h = rw (e, miss, lt→ltb 0 c h)

    fill_table-reset :
        ltb i (length word) ≡ true
        → (byte word (i - 1) == byte word c) ≡ false
        → c ≡ 0
        → i < length table
        → fill_table word (suc fuel) i c table
          ≡ fill_table word fuel (i + 1) 0 (set table i (pos 0))
    unfolding fill_table
    fill_table-reset e miss z h = rw (e, miss, z, store-in table i (pos 0) h)

  module _ {i p c : ℕ} (e : i ≡ suc p) (k : Candidate (byte word) c p) where
    last-byte : byte word p ≡ byte word (i - 1)
    last-byte = ap (byte word) (omega arith)

    hit-Border : (byte word (i - 1) == byte word c) ≡ true → Border (byte word) (c + 1) i
    hit-Border hit =
        subst (λ n. Border (byte word) n i) (omega arith)
          (subst (λ n. Border (byte word) (suc c) n) (sym e)
            (Candidate-Border (byte word) k (last-byte ∙ (==_iff _ _).0 hit)))

    miss-ne : (byte word (i - 1) == byte word c) ≡ false → byte word p ≢ byte word c
    miss-ne miss q = ==_ne _ _ miss (sym last-byte ∙ q)

    miss-Border : (byte word (i - 1) == byte word c) ≡ false → c ≡ 0 → Border (byte word) 0 i
    miss-Border miss z =
        subst (λ n. Border (byte word) 0 n) (sym e)
          (Candidate-reset (byte word) (subst (λ n. Candidate (byte word) n p) z k)
            (λ q. miss-ne miss (q ∙ ap (byte word) (sym z))))

  -- What the loop needs to fill the table from `i` and `c`: fuel, room, the entries below `i`.
  record IsReady (fuel i p c : ℕ) (table : List ℤ) : Type 0 where
    at : i ≡ suc p
    fuelled : 2 * length word + c < fuel + 2 * i
    room : length table ≡ length word
    positive : 0 < p
    within : i ≤ length word
    filled : IsTable word table i
    candidate : Candidate (byte word) c p

  -- A new entry keeps the loop ready.
  IsReady-set :
      {fuel i p c t : ℕ} {table : List ℤ}
      → IsReady (suc fuel) i p c table
      → i < length word
      → t ≤ c + 1
      → Border (byte word) t i
      → IsReady fuel (i + 1) i t (set table i (pos t))
  IsReady-set {i = i} {t = t} {table = table} r lt le b = record {
    at = omega arith;
    fuelled = omega (arith, r.fuelled);
    room = length-set table i (pos t) ∙ r.room;
    positive = omega (arith, r.positive, r.at);
    within = omega arith;
    filled = IsTable-set r.filled (omega (arith, r.positive, r.at)) (omega (arith, r.room)) b;
    candidate = Border-Candidate (byte word) b;
  }

  IsReady-fallback :
      {fuel i p c t : ℕ} {table : List ℤ}
      → IsReady (suc fuel) i p c table
      → byte word p ≢ byte word c
      → Border (byte word) t c
      → IsReady fuel i p t table
  IsReady-fallback r ne b = record {
    at = r.at;
    fuelled = omega (arith, r.fuelled, b.gap_eq, b.gap_pos);
    room = r.room;
    positive = r.positive;
    within = r.within;
    filled = r.filled;
    candidate = Candidate-fallback (byte word) r.candidate ne b;
  }

  -- Enough fuel fills the table, without a store outside of it.
  fill_table-Filled :
      (fuel i p c : ℕ) (table : List ℤ)
      → IsReady fuel i p c table
      → Filled (fill_table word fuel i c table)
  unfolding Filled
  fill_table-Filled zero i p c table r =
      absurd (omega (arith, r.fuelled, r.candidate.gap_eq, r.at, r.within))
  fill_table-Filled (suc fuel) i p c table r = elim (Bool-cases (ltb i (length word))) [
    | inr end ↦
        let full : i ≡ length word = omega (arith, r.within, ltb→le i (length word) end) in
        (
          table,
          fill_table-done fuel i c table end,
          r.room,
          subst (IsTable word table) full r.filled,
        )
    | inl more ↦
        let lt : i < length word = ltb→lt i (length word) more in
        let room : i < length table = omega (arith, r.room) in
        elim (Bool-cases (byte word (i - 1) == byte word c)) [
          | inl hit ↦ rw (fill_table-extend fuel i c table more hit room) (
              fill_table-Filled fuel (i + 1) i (c + 1) (set table i (pos (c + 1)))
                (IsReady-set r lt (omega arith) (hit-Border r.at r.candidate hit)))
          | inr miss ↦ elim (dec_lt 0 c) [
            | yes cp ↦
                let b = r.filled.rest c cp (omega (arith, r.candidate.gap_eq, r.at)) in
                rw (fill_table-fallback fuel i c table more miss cp, b.1)
                  (fill_table-Filled fuel i p b.0 table
                    (IsReady-fallback r (miss-ne r.at r.candidate miss) b.2))
            | no cz ↦
                let z : c ≡ 0 = omega arith in
                rw (fill_table-reset fuel i c table more miss z room) (
                  fill_table-Filled fuel (i + 1) i 0 (set table i (pos 0))
                    (IsReady-set r lt (omega arith) (miss-Border r.at r.candidate miss z)))
          ]
        ]
  ]

  first-Border : Border (byte word) 0 1
  first-Border = record {
    gap = 1;
    gap_pos = omega arith;
    gap_eq = refl;
    period = λ j h. absurd (omega arith);
    longest = λ d dp dl p. omega arith;
  }

  abbrev pub start_table : List ℤ → List ℤ
  start_table block = set (set block 0 (negsuc 0)) 1 (pos 0)

  start-IsReady :
      (block : List ℤ)
      → 2 ≤ length word
      → length block ≡ length word
      → IsReady (2 * length word) 2 1 0 (start_table block)
  start-IsReady block h l = record {
    at = refl;
    fuelled = omega arith;
    room = room ∙ l;
    positive = omega arith;
    within = h;
    filled = record {
      first =
          get_or-set_ne (set block 0 (negsuc 0)) 1 0 (pos 0) (pos 0) (omega arith)
          ∙ get_or-set_self block 0 (negsuc 0) (pos 0) (omega arith);
      rest = λ i ip il.
          let one : i ≡ 1 = omega arith in
          rw one (
            0,
            get_or-set_self (set block 0 (negsuc 0)) 1 (pos 0) (pos 0)
                (omega (arith, length-set block 0 (negsuc 0))),
            first-Border,
          );
    };
    candidate = Border-Candidate (byte word) first-Border;
  }
    where
      room : length (start_table block) ≡ length block
      room = length-set (set block 0 (negsuc 0)) 1 (pos 0) ∙ length-set block 0 (negsuc 0)

  pub build_kmp_table-IsTable :
      (block : List ℤ)
      → 2 ≤ length word
      → length block ≡ length word
      → (table : List ℤ) × (build_kmp_table word block ≡ some table)
        × (length table ≡ length word)
        × IsTable word table (length word)
  unfolding build_kmp_table Filled
  build_kmp_table-IsTable block h l =
      rw
        (
          store-in block 0 (negsuc 0) (omega arith),
          store-in (set block 0 (negsuc 0)) 1 (pos 0)
              (omega (arith, length-set block 0 (negsuc 0))),
        )
        (fill_table-Filled (2 * length word) 2 1 0 (start_table block) (start-IsReady block h l))

  build_kmp_table_overrun :
      (block : List ℤ)
      → length word < 2
      → length block ≡ length word
      → build_kmp_table word block ≡ none
  unfolding build_kmp_table store
  build_kmp_table_overrun block h l = ground (arith, length-set block 0 (negsuc 0))

  -- For a word of two bytes or more, whatever the allocated block holds, build_kmp_table
  -- returns the table with -1 at 0 and the length of the longest proper border of the first i
  -- bytes at every other i below the length of the word; for a word of at most one byte it
  -- stores outside of the block that it allocates.
  pub build_kmp_table_lem :
      (block : List ℤ)
      → length block ≡ length word
      → ((length word < 2) × (build_kmp_table word block ≡ none))
        ⊎ ((2 ≤ length word)
            × ((table : List ℤ) × (build_kmp_table word block ≡ some table)
                × (length table ≡ length word)
                × IsTable word table (length word)))
  build_kmp_table_lem block l = elim (Bool-cases (ltb (length word) 2)) [
    | inl e ↦
        let h : length word < 2 = ground (arith, e) in inl (h, build_kmp_table_overrun block h l)
    | inr e ↦
        let h : 2 ≤ length word = ground (arith, e) in inr (h, build_kmp_table-IsTable block h l)
  ]
