-- ===== src/Impls/Refine.antt =====
-- `construct` and `destory` keep the linked list.
use jnet_lib.Base.{
  ℕ, ◌≡◌, ◌≢◌, ◌↔◌, inl, inr, refl, sym, ap, ◌∙◌, subst, Option, none, some, List, [], ◌∷◌, update,
  update_self, update_ne, ◌==◌, if◌then◌else◌, arith, Bool-cases,
}
use mathlib.Core.List.{Memᴰ}
use jnet_lib.Impls.{
  Impls, is_at, store_at, construct, destory, remove, Lives, empty, constructs, destroys,
}
use jnet_lib.Impls.Linked.{Linked, Distinct, Linked-ext, next-prev, prev-next, next-ne}

pub record Represents (l : Impls) (xs : List ℕ) : Type 0 where
  pub linked : Linked l.next l.prev none l.impl_list xs
  pub distinct : Distinct xs

mem_ne : (p : ℕ) (xs : List ℕ) → (Memᴰ p xs → ⊥) → (x : ℕ) → Memᴰ x xs → x ≢ p
mem_ne p xs o x m e = o (subst (λ y. Memᴰ y xs) e m)

-- A new object in front of the others.
front-Linked :
    (next prev : ℕ → Option ℕ) (p x : ℕ) (xs : List ℕ)
    → Linked next prev none (some x) (x ∷ xs)
    → (Memᴰ p (x ∷ xs) → ⊥)
    → (Memᴰ x xs → ⊥)
    → Linked
        (update next p (some x))
        (update (update prev p none) x (some p))
        none
        (some p)
        (p ∷ x ∷ xs)
front-Linked next prev p x xs (e, q, l) o o' =
    let p≢x : p ≢ x = λ z. o (Memᴰ.head z) in
    (
      refl,
      update_ne (update prev p none) x (some p) p p≢x ∙ update_self prev p none,
      (
        update_self next p (some x),
        update_self (update prev p none) x (some p),
        subst
            (λ n.
              Linked (update next p (some x)) (update (update prev p none) x (some p)) (some x) n
                xs)
            (sym (update_ne next p (some x) x (λ z. p≢x (sym z))))
            (Linked-ext next (update next p (some x)) prev (update (update prev p none) x (some p))
              (some x) (next x) xs
              (λ y m. sym (update_ne next p (some x) y (mem_ne p (x ∷ xs) o y (Memᴰ.tail m))))
              (λ y m. sym (
                update_ne (update prev p none) x (some p) y (mem_ne x xs o' y m)
                ∙ update_ne prev p none y (mem_ne p (x ∷ xs) o y (Memᴰ.tail m))))
              l),
      ),
    )

construct-Represents :
    (p : ℕ) (l : Impls) (xs : List ℕ)
    → Represents l xs
    → (Memᴰ p xs → ⊥)
    → Represents (construct p l) (p ∷ xs)
unfolding construct
construct-Represents p l [] r o = record {
  linked = (
    refl,
    rw (r.linked) (update_self l.prev p none),
    update_self l.next p l.impl_list ∙ r.linked,
  );
  distinct = (o, r.distinct);
}
construct-Represents p l (x ∷ xs) r o = record {
  linked =
      subst
        (λ h.
          Linked (update l.next p h) (store_at h (some p) (update l.prev p none)) none (some p)
            (p ∷ x ∷ xs))
        (sym r.linked.0)
        (front-Linked l.next l.prev p x xs (refl, r.linked.1, r.linked.2) o r.distinct.0);
  distinct = (o, r.distinct);
}

-- A pointer to `p` becomes `v`.
abbrev skip : ℕ → Option ℕ → Option ℕ → Option ℕ
skip p v o = if is_at o p then v else o

skip_self : (p : ℕ) (v : Option ℕ) → skip p v (some p) ≡ v
skip_self p v = ground arith

skip_ne : (p : ℕ) (v o : Option ℕ) → o ≢ some p → skip p v o ≡ o
skip_ne p v none n = refl
skip_ne p v (some x) n = elim (Bool-cases (x == p)) [
  | inl d ↦ absurd (n (ap some (let e : x ≡ p = ground (arith, d) in e)))
  | inr d ↦ rw d refl
]

-- Where no object follows itself, a list without `p` skips it on both sides.
remove-Linked :
    (next prev next' prev' : ℕ → Option ℕ) (p : ℕ) (b h : Option ℕ) (xs : List ℕ)
    → ((x : ℕ) → Memᴰ x xs → x ≢ p → next' x ≡ skip p (next p) (next x))
    → ((x : ℕ) → Memᴰ x xs → x ≢ p → prev' x ≡ skip p (prev p) (prev x))
    → next p ≢ some p
    → prev p ≢ some p
    → Linked next prev b h xs
    → Linked next' prev' (skip p (prev p) b) (skip p (next p) h) (remove p xs)
remove-Linked next prev next' prev' p b h [] a a' n n' l = rw l refl
remove-Linked next prev next' prev' p b h (x ∷ xs) a a' n n' (e, q, l) =
    let rest =
      remove-Linked next prev next' prev' p (some x) (next x) xs (λ y m. a y (Memᴰ.tail m))
        (λ y m. a' y (Memᴰ.tail m)) n n' l in
    elim (Bool-cases (x == p)) [
      | inl d ↦ rw d (at_p (let z : x ≡ p = ground (arith, d) in z) rest)
      | inr d ↦
          (let x≢p : x ≢ p = ground (arith, d) in
            rw d (
              ap (skip p (next p)) e ∙ skip_ne p (next p) (some x) (λ z. x≢p (cc z)),
              a' x (Memᴰ.head refl) x≢p ∙ ap (skip p (prev p)) q,
              subst (λ k. Linked next' prev' (some x) k (remove p xs))
                  (sym (a x (Memᴰ.head refl) x≢p))
                  (subst (λ k. Linked next' prev' k (skip p (next p) (next x)) (remove p xs))
                    (skip_ne p (prev p) (some x) (λ z. x≢p (cc z))) rest),
            ))
    ]
  where
    at_p :
        x ≡ p
        → Linked next' prev' (skip p (prev p) (some x)) (skip p (next p) (next x)) (remove p xs)
        → Linked next' prev' (skip p (prev p) b) (skip p (next p) h) (remove p xs)
    at_p z r =
        let w : prev p ≡ b = cc (z, q) in
        let v : next x ≡ next p = ap next z in
        subst (λ k. Linked next' prev' k (skip p (next p) h) (remove p xs))
          (ap (skip p (prev p)) (ap some z)
            ∙ skip_self p (prev p)
            ∙ w
            ∙ sym (skip_ne p (prev p) b (λ u. n' (w ∙ u))))
          (subst (λ k. Linked next' prev' (skip p (prev p) (some x)) k (remove p xs))
            (skip_ne p (next p) (next x) (λ u. n (sym v ∙ u))
              ∙ v
              ∙ sym (ap (skip p (next p)) (e ∙ ap some z) ∙ skip_self p (next p)))
            r)

store_at_ne : (f : ℕ → Option ℕ) (o v : Option ℕ) (p : ℕ) → o ≢ some p → store_at o v f p ≡ f p
store_at_ne f none v p n = refl
store_at_ne f (some q) v p n = update_ne f q v p (λ e. n (ap some (sym e)))

-- Where only the object at `o` points to `p`, a store there makes every other object skip `p`.
store_at-skip :
    (f : ℕ → Option ℕ) (o v : Option ℕ) (p x : ℕ)
    → ((f x ≡ some p) ↔ (o ≡ some x))
    → store_at o v f x ≡ skip p v (f x)
store_at-skip f none v p x (there, back) = sym (skip_ne p v (f x) (λ e. let z = there e in cc z))
store_at-skip f (some q) v p x (there, back) = elim (Bool-cases (x == q)) [
  | inl d ↦
      (let z : x ≡ q = ground (arith, d) in
        ap (λ y. update f q v y) z
        ∙ update_self f q v
        ∙ sym (ap (skip p v) (back (ap some (sym z))) ∙ skip_self p v))
  | inr d ↦
      (let z : x ≢ q = ground (arith, d) in
        update_ne f q v x z ∙ sym (skip_ne p v (f x) (λ e. z (let y = there e in cc y))))
]

module _ (next prev : ℕ → Option ℕ) (h : Option ℕ) (xs : List ℕ)
    (l : Linked next prev none h xs) where
  prev-next_inside : (y q : ℕ) → Memᴰ y xs → prev y ≡ some q → next q ≡ some y
  prev-next_inside y q m e = elim (prev-next next prev none h xs l y q m e) [
    | inl (z, w) ↦ absurd (cc z)
    | inr z ↦ z
  ]

  -- What `destory` stores, for the objects that remain.
  destory-next :
      (p x : ℕ)
      → Memᴰ p xs
      → Memᴰ x xs
      → x ≢ p
      → update (store_at (prev p) (next p) next) p none x ≡ skip p (next p) (next x)
  destory-next p x m n z =
      update_ne (store_at (prev p) (next p) next) p none x z
      ∙ store_at-skip next (prev p) (next p) p x
          (next-prev next prev none h xs l x p n, prev-next_inside p x m)

  destory-prev :
      (p x : ℕ)
      → Memᴰ p xs
      → Memᴰ x xs
      → x ≢ p
      → update (store_at (next p) (prev p) prev) p none x ≡ skip p (prev p) (prev x)
  destory-prev p x m n z =
      update_ne (store_at (next p) (prev p) prev) p none x z
      ∙ store_at-skip prev (next p) (prev p) p x
          (prev-next_inside x p n, next-prev next prev none h xs l p x m)

mem-remove : (p x : ℕ) (xs : List ℕ) → Memᴰ x (remove p xs) → Memᴰ x xs
mem-remove p x [] m = m
mem-remove p x (y ∷ ys) m = elim (Bool-cases (y == p)) [
  | inl d ↦
      Memᴰ.tail
        (mem-remove p x ys (subst (λ b. Memᴰ x (if b then remove p ys else y ∷ remove p ys)) d m))
  | inr d ↦ elim (subst (λ b. Memᴰ x (if b then remove p ys else y ∷ remove p ys)) d m) [
    | Memᴰ.head e ↦ Memᴰ.head e
    | Memᴰ.tail n ↦ Memᴰ.tail (mem-remove p x ys n)
  ]
]

remove-Distinct : (p : ℕ) (xs : List ℕ) → Distinct xs → Distinct (remove p xs)
remove-Distinct p [] d = d
remove-Distinct p (x ∷ xs) (o, d) = elim (Bool-cases (x == p)) [
  | inl e ↦
      subst (λ b. Distinct (if b then remove p xs else x ∷ remove p xs)) (sym e)
        (remove-Distinct p xs d)
  | inr e ↦
      subst (λ b. Distinct (if b then remove p xs else x ∷ remove p xs)) (sym e)
        ((λ m. o (mem-remove p x xs m)), remove-Distinct p xs d)
]

destory-Represents :
    (p : ℕ) (l : Impls) (xs : List ℕ)
    → Represents l xs
    → Memᴰ p xs
    → Represents (destory p l) (remove p xs)
unfolding destory
destory-Represents p l xs r m =
    let n : l.next p ≢ some p = next-ne l.next l.prev none l.impl_list xs r.linked r.distinct p m in
    let n' : l.prev p ≢ some p =
      λ e. n (prev-next_inside l.next l.prev l.impl_list xs r.linked p p m e) in
    let kept : store_at (l.prev p) (l.next p) l.next p ≡ l.next p =
      store_at_ne l.next (l.prev p) (l.next p) p n' in
    record {
      linked =
          remove-Linked l.next l.prev (update (store_at (l.prev p) (l.next p) l.next) p none)
            (update (store_at (store_at (l.prev p) (l.next p) l.next p) (l.prev p) l.prev) p none) p
            none l.impl_list xs
            (λ x k z. destory-next l.next l.prev l.impl_list xs r.linked p x m k z)
            (λ x k z.
              ap (λ o. update (store_at o (l.prev p) l.prev) p none x) kept
              ∙ destory-prev l.next l.prev l.impl_list xs r.linked p x m k z)
            n n' r.linked;
      distinct = remove-Distinct p xs r.distinct;
    }

-- After any history of constructors and destructors of sockets and files, each constructed
-- once and destroyed while it lives, the pointers from impl_list_ on make the list of the
-- objects that live, the last one first and each once, with the back pointers its mirror and
-- that of the first one null.
pub Lives-Represents : (l : Impls) (xs : List ℕ) → Lives l xs → Represents l xs
Lives-Represents l xs (empty k e) = record { linked = e; distinct = tt }
Lives-Represents l xs (constructs {l = l₀} {xs = ys} p h o) =
    construct-Represents p l₀ ys (Lives-Represents l₀ ys h) o
Lives-Represents l xs (destroys {l = l₀} {xs = ys} p h m) =
    destory-Represents p l₀ ys (Lives-Represents l₀ ys h) m
