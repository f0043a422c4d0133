-- ===== src/Impls/Tests.antt =====
-- Runs of the list of the sockets and files.
use jnet_lib.Base.{◌≡◌, refl, none, some, [], ◌∷◌}
use mathlib.Core.List.{Memᴰ}
use jnet_lib.Impls.{Impls, construct, destory, remove, Lives, empty, constructs, destroys}
use jnet_lib.Impls.Refine.{Represents, Lives-Represents}

abbrev no_impls : Impls
no_impls = record { impl_list = none; next = λ x. none; prev = λ x. none }

abbrev three_impls : Impls
three_impls = construct 3 (construct 2 (construct 1 no_impls))

-- The one in the middle goes.
middle_goes : (destory 2 three_impls).next 3 ≡ some 1
unfolding construct destory
middle_goes = refl

middle_back : (destory 2 three_impls).prev 1 ≡ some 3
unfolding construct destory
middle_back = refl

three_Lives : Lives three_impls (3 ∷ 2 ∷ 1 ∷ [])
three_Lives =
    constructs 3
      (constructs 2 (constructs 1 (empty no_impls refl) (λ m. elim m [ ]))
        (λ m. elim m [ Memᴰ.head e ↦ cc e | Memᴰ.tail n ↦ elim n [ ] ]))
      (λ m. elim m [
        | Memᴰ.head e ↦ cc e
        | Memᴰ.tail n ↦ elim n [ Memᴰ.head e ↦ cc e | Memᴰ.tail k ↦ elim k [ ] ]
      ])

two_Lives : Lives (destory 2 three_impls) (remove 2 (3 ∷ 2 ∷ 1 ∷ []))
two_Lives = destroys 2 three_Lives (Memᴰ.tail (Memᴰ.head refl))

Lives-Represents_example : Represents (destory 2 three_impls) (remove 2 (3 ∷ 2 ∷ 1 ∷ []))
Lives-Represents_example =
    Lives-Represents (destory 2 three_impls) (remove 2 (3 ∷ 2 ∷ 1 ∷ [])) two_Lives
