-- ===== src/File/Kmp/Tests.antt =====
-- The search for "\r\n" at inputs that can be followed by hand.
use jnet_lib.Base.{ℕ, ◌<◌, ◌≤◌, ◌≡◌, ◌⊎◌, refl, none, some, List, [], ◌∷◌, length, arith}
use jnet_lib.Base.Int.{ℤ, pos, negsuc}
use jnet_lib.File.Kmp.{store, build_kmp_table, find_eol}
use jnet_lib.File.Kmp.Table.{IsTable, build_kmp_table_lem}
use jnet_lib.File.Kmp.Search.{Finds, find_eol-Finds}

abbrev crlf : List ℕ
crlf = 13 ∷ 10 ∷ []

-- What `malloc` hands out for two entries, and for one.
abbrev garbage : List ℤ
garbage = pos 77 ∷ pos 78 ∷ []

abbrev short_garbage : List ℤ
short_garbage = pos 77 ∷ []

abbrev newline : List ℕ
newline = 10 ∷ []

abbrev three : List ℕ
three = 97 ∷ 97 ∷ 98 ∷ 97 ∷ 97 ∷ 97 ∷ []

table_test :
    build_kmp_table three (pos 9 ∷ pos 9 ∷ pos 9 ∷ pos 9 ∷ pos 9 ∷ pos 9 ∷ [])
    ≡ some (negsuc 0 ∷ pos 0 ∷ pos 1 ∷ pos 0 ∷ pos 1 ∷ pos 2 ∷ [])
unfolding build_kmp_table
table_test = refl

found_test : find_eol crlf garbage (97 ∷ 13 ∷ 13 ∷ 10 ∷ 98 ∷ []) 5 ≡ some (2, 5)
unfolding find_eol
found_test = refl

absent_test : find_eol crlf garbage (97 ∷ 98 ∷ 13 ∷ []) 5 ≡ some (3, 1)
unfolding find_eol
absent_test = refl

build_kmp_table_lem_example :
    ((length crlf < 2) × (build_kmp_table crlf garbage ≡ none))
    ⊎ ((2 ≤ length crlf)
        × ((table : List ℤ) × (build_kmp_table crlf garbage ≡ some table)
            × (length table ≡ 2)
            × IsTable crlf table 2))
build_kmp_table_lem_example = build_kmp_table_lem crlf garbage refl

build_kmp_table-newline : build_kmp_table newline short_garbage ≡ none
unfolding build_kmp_table store
build_kmp_table-newline = refl

find_eol-Finds_example :
    (r : ℕ × ℕ) × (find_eol crlf garbage (97 ∷ 13 ∷ 10 ∷ []) 0 ≡ some r)
    × Finds crlf (97 ∷ 13 ∷ 10 ∷ []) 0 r
find_eol-Finds_example = find_eol-Finds crlf (97 ∷ 13 ∷ 10 ∷ []) garbage 0 (omega arith) refl
