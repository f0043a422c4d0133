-- ===== src/Base/Lists.antt =====
-- Lists measured and indexed by native numbers, under the library's names.
use Prim.Native.Nat.{ℕ, zero, suc, ◌+◌, ◌-◌, ◌<◌, ◌≤◌, min}
use mathlib.Core.Path.{◌≡◌, refl, sym, ap, ◌∙◌}
use mathlib.Core.Logic.{◌≢◌}
use mathlib.Core.List.{List, [], ◌∷◌, ◌++◌, append_assoc}
use mathlib.Core.Option.{Option, none, some}
use native.Mathlib.Omega.{arith}

module _ {ℓ} {A : Type ℓ} where
  abbrev pub length : List A → ℕ
  length [] = 0
  length (x ∷ xs) = suc (length xs)

  abbrev pub get_elem? : List A → ℕ → Option A
  get_elem? [] i = none
  get_elem? (x ∷ xs) zero = some x
  get_elem? (x ∷ xs) (suc i) = get_elem? xs i

  abbrev pub get_or : List A → ℕ → A → A
  get_or [] i d = d
  get_or (x ∷ xs) zero d = x
  get_or (x ∷ xs) (suc i) d = get_or xs i d

  -- A write out of bounds changes nothing.
  abbrev pub set : List A → ℕ → A → List A
  set [] i v = []
  set (x ∷ xs) zero v = v ∷ xs
  set (x ∷ xs) (suc i) v = x ∷ set xs i v

  abbrev pub take : ℕ → List A → List A
  take zero xs = []
  take (suc n) [] = []
  take (suc n) (x ∷ xs) = x ∷ take n xs

  abbrev pub drop : ℕ → List A → List A
  drop zero xs = xs
  drop (suc n) [] = []
  drop (suc n) (x ∷ xs) = drop n xs

  pub length-append : (xs ys : List A) → length (xs ++ ys) ≡ length xs + length ys
  length-append [] ys = omega arith
  length-append (x ∷ xs) ys = omega (arith, length-append xs ys)

  pub length-set : (xs : List A) (i : ℕ) (v : A) → length (set xs i v) ≡ length xs
  length-set [] i v = refl
  length-set (x ∷ xs) zero v = refl
  length-set (x ∷ xs) (suc i) v = ap suc (length-set xs i v)

  pub get_or-set_self :
      (xs : List A) (i : ℕ) (v d : A) → i < length xs → get_or (set xs i v) i d ≡ v
  get_or-set_self [] i v d h = absurd (omega arith)
  get_or-set_self (x ∷ xs) zero v d h = refl
  get_or-set_self (x ∷ xs) (suc i) v d h = get_or-set_self xs i v d (omega arith)

  pub get_or-set_ne :
      (xs : List A) (i j : ℕ) (v d : A) → i ≢ j → get_or (set xs i v) j d ≡ get_or xs j d
  get_or-set_ne [] i j v d h = refl
  get_or-set_ne (x ∷ xs) zero zero v d h = absurd (h refl)
  get_or-set_ne (x ∷ xs) zero (suc j) v d h = refl
  get_or-set_ne (x ∷ xs) (suc i) zero v d h = refl
  get_or-set_ne (x ∷ xs) (suc i) (suc j) v d h = get_or-set_ne xs i j v d (λ e. h (ap suc e))

  pub take-append-drop : (n : ℕ) (xs : List A) → take n xs ++ drop n xs ≡ xs
  take-append-drop zero xs = refl
  take-append-drop (suc n) [] = refl
  take-append-drop (suc n) (x ∷ xs) = rw (take-append-drop n xs)

  pub length-take : (n : ℕ) (xs : List A) → length (take n xs) ≡ min n (length xs)
  length-take zero xs = omega arith
  length-take (suc n) [] = omega arith
  length-take (suc n) (x ∷ xs) = omega (arith, length-take n xs)

  pub length-drop : (n : ℕ) (xs : List A) → length (drop n xs) ≡ length xs - n
  length-drop zero xs = omega arith
  length-drop (suc n) [] = omega arith
  length-drop (suc n) (x ∷ xs) = omega (arith, length-drop n xs)

  -- The memory `mem` with `bs` written from `i` on.
  abbrev pub write_at : List A → ℕ → List A → List A
  write_at mem i bs = take i mem ++ (bs ++ drop (i + length bs) mem)

  take_all_append : (xs ys : List A) → take (length xs) (xs ++ ys) ≡ xs
  take_all_append [] ys = refl
  take_all_append (x ∷ xs) ys = ap (◌∷◌ x) (take_all_append xs ys)

  drop_all_append : (xs ys : List A) → drop (length xs) (xs ++ ys) ≡ ys
  drop_all_append [] ys = refl
  drop_all_append (x ∷ xs) ys = drop_all_append xs ys

  length-take_eq : (n : ℕ) (xs : List A) → n ≤ length xs → length (take n xs) ≡ n
  length-take_eq n xs h = omega (arith, length-take n xs)

  -- A prefix of a known length.
  pub take-append : (n : ℕ) (xs ys : List A) → n ≡ length xs → take n (xs ++ ys) ≡ xs
  take-append n xs ys e = ap (λ k. take k (xs ++ ys)) e ∙ take_all_append xs ys

  pub drop-append : (n : ℕ) (xs ys : List A) → n ≡ length xs → drop n (xs ++ ys) ≡ ys
  drop-append n xs ys e = ap (λ k. drop k (xs ++ ys)) e ∙ drop_all_append xs ys

  module _ (mem : List A) (i : ℕ) (bs : List A) (h : i + length bs ≤ length mem) where
    split : write_at mem i bs ≡ (take i mem ++ bs) ++ drop (i + length bs) mem
    split = sym (append_assoc (take i mem) bs (drop (i + length bs) mem))

    prefix-length : length (take i mem ++ bs) ≡ i + length bs
    prefix-length = omega (arith, length-append (take i mem) bs, length-take_eq i mem (omega arith))

    -- What stands in the memory up to the end of what was written, and behind it.
    pub take-write_at : take (i + length bs) (write_at mem i bs) ≡ take i mem ++ bs
    take-write_at = rw split (take-append _ _ _ (sym prefix-length))

    pub drop-write_at : drop (i + length bs) (write_at mem i bs) ≡ drop (i + length bs) mem
    drop-write_at = rw split (drop-append _ _ _ (sym prefix-length))

    pub length-write_at : length (write_at mem i bs) ≡ length mem
    length-write_at = omega (
      arith,
      length-append (take i mem) (bs ++ drop (i + length bs) mem),
      length-append bs (drop (i + length bs) mem),
      length-take i mem,
      length-drop (i + length bs) mem,
    )

  pub write_at-nil : (mem : List A) (i : ℕ) → write_at mem i [] ≡ mem
  write_at-nil mem i = ap (λ k. take i mem ++ drop k mem) (omega arith) ∙ take-append-drop i mem

  pub take-length : (xs : List A) → take (length xs) xs ≡ xs
  take-length [] = refl
  take-length (x ∷ xs) = ap (◌∷◌ x) (take-length xs)

  pub take-nil : (n : ℕ) → take n [] ≡ []
  take-nil zero = refl
  take-nil (suc n) = refl

  pub drop-nil : (n : ℕ) → drop n [] ≡ []
  drop-nil zero = refl
  drop-nil (suc n) = refl

  pub drop-drop : (a b : ℕ) (xs : List A) → drop a (drop b xs) ≡ drop (b + a) xs
  drop-drop a zero xs = ap (λ k. drop k xs) (omega arith)
  drop-drop a (suc b) [] = drop-nil a ∙ sym (drop-nil (suc b + a))
  drop-drop a (suc b) (x ∷ xs) =
      drop-drop a b xs
      ∙ ap (λ k. drop k (x ∷ xs)) (let e : suc (b + a) ≡ suc b + a = omega arith in e)

  -- Behind what was written the memory is as it was.
  pub drop-write_at_after :
      (mem : List A) (i : ℕ) (bs : List A) (k : ℕ)
      → i + length bs ≤ length mem
      → i + length bs ≤ k
      → drop k (write_at mem i bs) ≡ drop k mem
  drop-write_at_after mem i bs k h l =
      ap (λ n. drop n (write_at mem i bs)) at_k
      ∙ sym (drop-drop rest (i + length bs) (write_at mem i bs))
      ∙ ap (drop rest) (drop-write_at mem i bs h)
      ∙ drop-drop rest (i + length bs) mem
      ∙ ap (λ n. drop n mem) (sym at_k)
    where
      rest : ℕ
      rest = k - (i + length bs)

      at_k : k ≡ i + length bs + rest
      at_k = omega arith

  pub take-take : (n k : ℕ) (xs : List A) → n ≤ k → take n (take k xs) ≡ take n xs
  take-take zero k xs h = refl
  take-take (suc n) zero xs h = absurd (omega arith)
  take-take (suc n) (suc k) [] h = refl
  take-take (suc n) (suc k) (x ∷ xs) h = ap (◌∷◌ x) (take-take n k xs (omega arith))

  pub take-add : (a n : ℕ) (xs : List A) → take a xs ++ take n (drop a xs) ≡ take (a + n) xs
  take-add zero n xs = ap (λ k. take k xs) (let e : n ≡ zero + n = omega arith in e)
  take-add (suc a) n [] = nil_case n
    where
      nil_case : (n : ℕ) → take n [] ≡ take (suc a + n) []
      nil_case n = take-nil n ∙ sym (take-nil (suc a + n))
  take-add (suc a) n (x ∷ xs) =
      ap (◌∷◌ x) (take-add a n xs)
      ∙ ap (λ k. take k (x ∷ xs)) (let e : suc (a + n) ≡ suc a + n = omega arith in e)
