-- ===== src/Impls/Linked.antt =====
-- Doubly linked lists, and what the pointers of their objects say of each other.
use jnet_lib.Base.{
  ℕ, ◌≡◌, ◌≢◌, refl, sym, ◌∙◌, subst, Option, none, some, List, [], ◌∷◌, inl, inr, ◌⊎◌,
}
use mathlib.Core.List.{Memᴰ}

-- From `h` on, behind `b`, the objects `xs`.
abbrev pub Linked : (next prev : ℕ → Option ℕ) → (b h : Option ℕ) → List ℕ → Type 0
Linked next prev b h [] = h ≡ none
Linked next prev b h (x ∷ xs) = (h ≡ some x) × (prev x ≡ b) × Linked next prev (some x) (next x) xs

abbrev pub Distinct : List ℕ → Type 0
Distinct [] = Unit
Distinct (x ∷ xs) = (Memᴰ x xs → ⊥) × Distinct xs

pub Linked-ext :
    (f g f' g' : ℕ → Option ℕ) (b h : Option ℕ) (xs : List ℕ)
    → ((x : ℕ) → Memᴰ x xs → f x ≡ g x)
    → ((x : ℕ) → Memᴰ x xs → f' x ≡ g' x)
    → Linked f f' b h xs
    → Linked g g' b h xs
Linked-ext f g f' g' b h [] a a' l = l
Linked-ext f g f' g' b h (x ∷ xs) a a' (e, p, l) = (
  e,
  sym (a' x (Memᴰ.head refl)) ∙ p,
  subst (λ n. Linked g g' (some x) n xs) (a x (Memᴰ.head refl))
      (Linked-ext f g f' g' (some x) (f x) xs (λ y m. a y (Memᴰ.tail m)) (λ y m. a' y (Memᴰ.tail m))
        l),
)

module _ (next prev : ℕ → Option ℕ) where
  -- The successor of an object is one, and points back to it.
  pub next-prev :
      (b h : Option ℕ) (xs : List ℕ)
      → Linked next prev b h xs
      → (x y : ℕ) → Memᴰ x xs
      → next x ≡ some y
      → prev y ≡ some x
  next-prev b h [] l z y m n = elim m [ ]
  next-prev b h (x ∷ []) (e, p, l) z y (Memᴰ.head d) n = absurd (cc (d, n, l))
  next-prev b h (x ∷ y' ∷ ys) (e, p, l) z y (Memᴰ.head d) n = cc (d, n, l.0, l.1)
  next-prev b h (x ∷ xs) (e, p, l) z y (Memᴰ.tail m) n = next-prev (some x) (next x) xs l z y m n

  pub prev-next :
      (b h : Option ℕ) (xs : List ℕ)
      → Linked next prev b h xs
      → (y q : ℕ) → Memᴰ y xs
      → prev y ≡ some q
      → ((b ≡ some q) × (h ≡ some y)) ⊎ (next q ≡ some y)
  prev-next b h [] l y q m n = elim m [ ]
  prev-next b h (x ∷ xs) (e, p, l) y q (Memᴰ.head d) n = inl (cc (d, n, p), cc (e, d))
  prev-next b h (x ∷ xs) (e, p, l) y q (Memᴰ.tail m) n =
      elim (prev-next (some x) (next x) xs l y q m n) [
        | inl (s, t) ↦ inr (cc (s, t))
        | inr t ↦ inr t
      ]

  -- No object follows itself.
  pub next-ne :
      (b h : Option ℕ) (xs : List ℕ)
      → Linked next prev b h xs
      → Distinct xs
      → (x : ℕ) → Memᴰ x xs
      → next x ≢ some x
  next-ne b h [] l d z m n = elim m [ ]
  next-ne b h (x ∷ []) (e, p, l) d z (Memᴰ.head q) n = cc (q, n, l)
  next-ne b h (x ∷ y ∷ ys) (e, p, l) (o, d) z (Memᴰ.head q) n = o (Memᴰ.head (cc (q, n, l.0)))
  next-ne b h (x ∷ xs) (e, p, l) (o, d) z (Memᴰ.tail m) n = next-ne (some x) (next x) xs l d z m n
