-- ===== src/File/Queue/Chain.antt =====
-- The linked entries of the file thread's queue as a list: `push` appends and `pop` takes the first.
use jnet_lib.Base.{
  update, update_self, update_ne, ℕ, ◌≡◌, ◌≢◌, refl, sym, ◌∙◌, subst, Bool, true, false, Option,
  none, some, List, [], ◌∷◌, ◌++◌, ◌==◌, if◌then◌else◌, arith,
}
use jnet_lib.File.Queue.{Queue, same, link, head_or, push, pop, begin}

abbrev pub Chain : (ℕ → Option ℕ) → Option ℕ → List ℕ → Type 0
Chain f h [] = h ≡ none
Chain f h (x ∷ xs) = (h ≡ some x) × Chain f (f x) xs

abbrev pub last : List ℕ → Option ℕ
last [] = none
last (x ∷ []) = some x
last (x ∷ y ∷ ys) = last (y ∷ ys)

abbrev pub AllTrue : (ℕ → Bool) → List ℕ → Type 0
AllTrue g [] = Unit
AllTrue g (x ∷ xs) = (g x ≡ true) × AllTrue g xs

abbrev pub other : ℕ → ℕ → Bool
other p x = if x == p then false else true

abbrev pub Distinct : List ℕ → Type 0
Distinct [] = Unit
Distinct (x ∷ xs) = AllTrue (other x) xs × Distinct xs

-- The queue stands for the entries `xs`.
pub record Holds (q : Queue) (xs : List ℕ) : Type 0 where
  pub chain : Chain q.next q.head xs
  pub end : q.tail ≡ last xs
  pub live : AllTrue q.allocated xs
  pub distinct : Distinct xs

-- An address that is free is none of the entries.
free_ne : (g : ℕ → Bool) (x p : ℕ) → g x ≡ true → g p ≡ false → x ≢ p
free_ne g x p a e z = cc (a, e, z)

pub AllTrue-update :
    (g : ℕ → Bool) (xs : List ℕ) (p : ℕ) (v : Bool)
    → AllTrue g xs
    → g p ≡ false
    → AllTrue (update g p v) xs
AllTrue-update g [] p v a e = tt
AllTrue-update g (x ∷ xs) p v a e =
    (update_ne g p v x (free_ne g x p a.0 e) ∙ a.0, AllTrue-update g xs p v a.1 e)

Chain-update :
    (f : ℕ → Option ℕ) (h : Option ℕ) (g : ℕ → Bool) (xs : List ℕ) (p : ℕ) (v : Option ℕ)
    → Chain f h xs
    → AllTrue g xs
    → g p ≡ false
    → Chain (update f p v) h xs
Chain-update f h g [] p v c a e = c
Chain-update f h g (x ∷ xs) p v c a e = (
  c.0,
  subst (λ k. Chain (update f p v) k xs) (sym (update_ne f p v x (free_ne g x p a.0 e)))
      (Chain-update f (f x) g xs p v c.1 a.1 e),
)

-- Nothing follows the last entry.
Chain-last :
    (f : ℕ → Option ℕ) (h : Option ℕ) (xs : List ℕ) (t : ℕ)
    → Chain f h xs
    → last xs ≡ some t
    → f t ≡ none
Chain-last f h [] t c e = absurd (cc e)
Chain-last f h (x ∷ []) t c e = cc (c.1, e)
Chain-last f h (x ∷ y ∷ ys) t c e = Chain-last f (f x) (y ∷ ys) t c.1 e

Chain-append :
    (f : ℕ → Option ℕ) (h : Option ℕ) (g : ℕ → Bool) (x : ℕ) (xs : List ℕ) (t p : ℕ)
    → Chain f h (x ∷ xs)
    → last (x ∷ xs) ≡ some t
    → f p ≡ none
    → t ≢ p
    → Chain (update f t (some p)) h (x ∷ (xs ++ (p ∷ [])))
Chain-append f h g x [] t p c e n o =
    (c.0, (ground (arith, e), update_ne f t (some p) p (λ z. o (sym z)) ∙ n))
Chain-append f h g x (y ∷ ys) t p c e n o = (
  c.0,
  subst (λ k. Chain (update f t (some p)) k (y ∷ (ys ++ (p ∷ []))))
      (sym (update_ne f t (some p) x (λ z. cc (z, c.1.0, Chain-last f (f x) (y ∷ ys) t c.1 e))))
      (Chain-append f (f x) g y ys t p c.1 e n o),
)

last-some : (x : ℕ) (xs : List ℕ) → (t : ℕ) × (last (x ∷ xs) ≡ some t)
last-some x [] = (x, refl)
last-some x (y ∷ ys) = last-some y ys

last-append : (xs : List ℕ) (p : ℕ) → last (xs ++ (p ∷ [])) ≡ some p
last-append [] p = refl
last-append (x ∷ []) p = refl
last-append (x ∷ y ∷ ys) p = last-append (y ∷ ys) p

AllTrue-last : (g : ℕ → Bool) (xs : List ℕ) (t : ℕ) → AllTrue g xs → last xs ≡ some t → g t ≡ true
AllTrue-last g [] t a e = absurd (cc e)
AllTrue-last g (x ∷ []) t a e = cc (a.0, e)
AllTrue-last g (x ∷ y ∷ ys) t a e = AllTrue-last g (y ∷ ys) t a.1 e

pub AllTrue-append :
    (g : ℕ → Bool) (xs : List ℕ) (p : ℕ) → AllTrue g xs → g p ≡ true → AllTrue g (xs ++ (p ∷ []))
AllTrue-append g [] p a e = (e, tt)
AllTrue-append g (x ∷ xs) p a e = (a.0, AllTrue-append g xs p a.1 e)

subst2 :
    {A B : Type 0} (P : A → B → Type 0) {a a' : A} {b b' : B} → a ≡ a' → b ≡ b' → P a b → P a' b'
subst2 P {a' = a'} {b = b} e d t = subst (P a') d (subst (λ a. P a b) e t)

other_lem : (p x : ℕ) → x ≢ p → other p x ≡ true
other_lem p x h = ground (arith, h)

-- A free address is none of the entries, and differs from each.
pub free-other : (g : ℕ → Bool) (x p : ℕ) → g x ≡ true → g p ≡ false → other x p ≡ true
free-other g x p a e = other_lem x p (λ z. free_ne g x p a e (sym z))

Distinct-append :
    (g : ℕ → Bool) (xs : List ℕ) (p : ℕ)
    → Distinct xs
    → AllTrue g xs
    → g p ≡ false
    → Distinct (xs ++ (p ∷ []))
Distinct-append g [] p d a e = (tt, tt)
Distinct-append g (x ∷ xs) p d a e =
    (AllTrue-append (other x) xs p d.0 (free-other g x p a.0 e), Distinct-append g xs p d.1 a.1 e)

-- An entry that is none of `xs` is freed.
pub AllTrue-free :
    (g : ℕ → Bool) (p : ℕ) (xs : List ℕ)
    → AllTrue g xs
    → AllTrue (other p) xs
    → AllTrue (update g p false) xs
AllTrue-free g p [] a d = tt
AllTrue-free g p (x ∷ xs) a d = (ground (arith, a.0, d.0), AllTrue-free g p xs a.1 d.1)

grown-Chain :
    (q : Queue) (xs : List ℕ) (p : ℕ)
    → Holds q xs
    → q.allocated p ≡ false
    → Chain (link q.tail p (update q.next p none)) (head_or q.head p) (xs ++ (p ∷ []))
grown-Chain q [] p v o = rw (v.end, v.chain) (refl, update_self q.next p none)
grown-Chain q (x ∷ xs) p v o =
    let (t, e) = last-some x xs in
    subst2 (λ k h. Chain (link k p (update q.next p none)) (head_or h p) (x ∷ (xs ++ (p ∷ []))))
      (sym (v.end ∙ e)) (sym v.chain.0)
      (Chain-append (update q.next p none) (some x) q.allocated x xs t p
        (refl, (Chain-update q.next q.head q.allocated (x ∷ xs) p none v.chain v.live o).1) e
        (update_self q.next p none)
        (free_ne q.allocated t p (AllTrue-last q.allocated (x ∷ xs) t v.live e) o))

-- A new entry comes behind the others.
pub begin-Holds :
    (q : Queue) (xs : List ℕ) (p : ℕ)
    → Holds q xs
    → q.allocated p ≡ false
    → Holds (begin p q) (xs ++ (p ∷ []))
unfolding begin push
begin-Holds q xs p v o = record {
  chain = grown-Chain q xs p v o;
  end = sym (last-append xs p);
  live =
      AllTrue-append (update q.allocated p true) xs p
        (AllTrue-update q.allocated xs p true v.live o) (update_self q.allocated p true);
  distinct = Distinct-append q.allocated xs p v.distinct v.live o;
}

-- The entry that `pop` returns, and the entries that are left.
abbrev pub first : List ℕ → Option ℕ
first [] = none
first (x ∷ xs) = some x

abbrev pub rest : List ℕ → List ℕ
rest [] = []
rest (x ∷ xs) = xs

pub pop-first : (q : Queue) (xs : List ℕ) → Holds q xs → (pop q).0 ≡ first xs
unfolding pop
pop-first q [] v = v.chain
pop-first q (x ∷ xs) v = v.chain.0

kept_tail :
    (q : Queue) (x y : ℕ) (ys : List ℕ)
    → Holds q (x ∷ y ∷ ys)
    → (if same q.tail q.head then none else q.tail) ≡ last (y ∷ ys)
kept_tail q x y ys v =
    let (t, e) = last-some y ys in
    let z : q.tail ≡ some t = v.end ∙ e in
    let n : t ≢ x = λ w. cc (w, v.chain.1.0, Chain-last q.next q.head (x ∷ y ∷ ys) t v.chain e) in
    rw (z, v.chain.0, e) (ground (arith, n))

pub pop-Holds : (q : Queue) (xs : List ℕ) → Holds q xs → Holds (pop q).1 (rest xs)
unfolding pop
pop-Holds q [] v = record {
  chain = rw v.chain refl;
  end = ground (arith, v.chain, v.end);
  live = tt;
  distinct = tt;
}
pop-Holds q (x ∷ []) v = record {
  chain = rw v.chain.0 v.chain.1;
  end = ground (arith, v.chain.0, v.end);
  live = tt;
  distinct = tt;
}
pop-Holds q (x ∷ y ∷ ys) v = record {
  chain = rw v.chain.0 v.chain.1;
  end = kept_tail q x y ys v;
  live = v.live.1;
  distinct = v.distinct.1;
}

pub pop-next : (q : Queue) → (pop q).1.next ≡ q.next
unfolding pop
pop-next q = refl

pub pop-allocated : (q : Queue) → (pop q).1.allocated ≡ q.allocated
unfolding pop
pop-allocated q = refl
