-- ===== src/Impls.antt =====
-- The list of the sockets and files of a service: `construct` and `destory` of epoll_service.cpp, which are the same in
-- iocp_service.cpp, and which the constructor and the destructor of `base_type` call. The lock makes each a single step.
pub mod Linked
pub mod Refine
mod Tests
use jnet_lib.Base.{
  ℕ, ◌≡◌, Bool, true, false, Option, none, some, List, [], ◌∷◌, update, ◌==◌, if◌then◌else◌,
}
use mathlib.Core.List.{Memᴰ}

-- `impl_list_`, and what the objects hold, by their addresses.
pub record Impls : Type 0 where
  pub impl_list : Option ℕ
  pub next : ℕ → Option ℕ
  pub prev : ℕ → Option ℕ

abbrev pub is_at : Option ℕ → ℕ → Bool
is_at none p = false
is_at (some a) p = a == p

-- A store through a pointer, if it is not null.
abbrev pub store_at : Option ℕ → Option ℕ → (ℕ → Option ℕ) → ℕ → Option ℕ
store_at none v f = f
store_at (some q) v f = update f q v

pub construct : ℕ → Impls → Impls
construct p l = record {
  impl_list = some p;
  next = update l.next p l.impl_list;
  prev = store_at l.impl_list (some p) (update l.prev p none);
}

pub destory : ℕ → Impls → Impls
destory p l =
    let next = store_at (l.prev p) (l.next p) l.next in
    let prev = store_at (next p) (l.prev p) l.prev in
    record {
      impl_list = if is_at l.impl_list p then l.next p else l.impl_list;
      next = update next p none;
      prev = update prev p none;
    }

-- What the program sees: the objects that live, the last one first.
abbrev pub remove : ℕ → List ℕ → List ℕ
remove p [] = []
remove p (x ∷ xs) = if x == p then remove p xs else x ∷ remove p xs

-- The histories of constructors and destructors, from an empty list, with the objects that live.
pub data Lives : Impls → List ℕ → Type 0 where
  empty : (l : Impls) → l.impl_list ≡ none → Lives l []
  constructs :
      {l : Impls} {xs : List ℕ} (p : ℕ)
      → Lives l xs
      → (Memᴰ p xs → ⊥)
      → Lives (construct p l) (p ∷ xs)
  destroys :
      {l : Impls} {xs : List ℕ} (p : ℕ) → Lives l xs → Memᴰ p xs → Lives (destory p l) (remove p xs)
