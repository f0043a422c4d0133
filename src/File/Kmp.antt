-- ===== src/File/Kmp.antt =====
-- The search for the end of a line: `read_line_op::build_kmp_table` and `read_line_op::find_eol`
-- of epoll_file.cpp. The `int` positions are numbers without a bound: `do_read` hands over 64 KiB at
-- most. Each loop takes fuel, and `none` is a store outside of the allocated table, or no fuel left.
pub mod Period
pub mod Table
pub mod Search
mod Tests
use jnet_lib.Base.{
  ℕ, zero, suc, ◌+◌, ◌-◌, ◌*◌, Option, none, some, List, length, get_or, set, ltb, ◌==◌,
  if◌then◌else◌,
}
use jnet_lib.Base.Int.{ℤ, pos, negsuc}

-- A store into a block of memory; `none` is a store outside of the block.
pub store : List ℤ → ℕ → ℤ → Option (List ℤ)
store block i v = if ltb i (length block) then some (set block i v) else none

infixl 5 ◌>>=◌
abbrev pub ◌>>=◌ {ℓ κ} : {A : Type ℓ} {B : Type κ} → Option A → (A → Option B) → Option B
none >>= f = none
some a >>= f = f a

abbrev pub entry : List ℤ → ℕ → ℤ
entry table i = get_or table i (pos 0)

abbrev pub byte : List ℕ → ℕ → ℕ
byte text i = get_or text i 0

-- A table entry as a position in the word: -1 counts as 0.
abbrev pub index : ℤ → ℕ
index (pos n) = n
index (negsuc n) = 0

-- `base - t` for a table entry `t`, which is at most `base`.
abbrev pub shift : ℕ → ℤ → ℕ
shift base (pos n) = base - n
shift base (negsuc n) = base + suc n

module _ (word : List ℕ) where
  -- The loop of `build_kmp_table` from `pos` and `cnd`.
  pub fill_table : ℕ → ℕ → ℕ → List ℤ → Option (List ℤ)
  unfolding store
  fill_table zero i cnd table = none
  fill_table (suc fuel) i cnd table =
      let extend = (do t ← store table i (pos (cnd + 1)); fill_table fuel (i + 1) (cnd + 1) t) in
      let fallback = fill_table fuel i (index (entry table cnd)) table in
      let reset = (do t ← store table i (pos 0); fill_table fuel (i + 1) 0 t) in
      if ltb i (length word)
      then if byte word (i - 1) == byte word cnd
        then extend
        else if ltb 0 cnd
        then fallback
        else reset
      else some table

  -- `block` is the memory that `malloc(word_len * sizeof(int))` returns, with what it happens to hold.
  pub build_kmp_table : List ℤ → Option (List ℤ)
  unfolding fill_table
  build_kmp_table block = do
    t ← store block 0 (negsuc 0)
    t' ← store t 1 (pos 0)
    fill_table (2 * length word) 2 0 t'

  -- The loop of `find_eol` from `text_pos` and `word_pos`: the final `found_pos` and `word_pos`.
  pub find_loop : List ℕ → List ℤ → ℕ → ℕ → ℕ → Option (ℕ × ℕ)
  find_loop text table zero text_pos word_pos = none
  find_loop text table (suc fuel) text_pos word_pos =
      let advance = find_loop text table fuel text_pos (word_pos + 1) in
      let retry =
        find_loop text table fuel (shift (text_pos + word_pos) (entry table word_pos))
          (index (entry table word_pos)) in
      if ltb (text_pos + word_pos) (length text)
      then if byte word word_pos == byte text (text_pos + word_pos)
        then if word_pos == length word - 1 then some (text_pos, word_pos) else advance
        else retry
      else some (length text, word_pos)

  -- The result, and what `*last_match_count` holds after the call.
  pub find_eol : List ℤ → List ℕ → ℕ → Option (ℕ × ℕ)
  unfolding build_kmp_table find_loop
  find_eol block text last_match_count = do
    table ← build_kmp_table block
    r ← find_loop text table (2 * length text + 1) 0 0
    some (r.0, if r.0 == length text then r.1 else last_match_count)
