-- ===== src/Buffer.antt =====
-- iocp_buffer.h: the cursors over a caller's memory. A `char *` is the offset from the start of the
-- memory; `size_t` arithmetic wraps.
use jnet_lib.Base.{ℕ, ◌+◌, ◌-◌, ◌%◌, ◌^◌}

abbrev pub size_add : ℕ → ℕ → ℕ
size_add a b = (a + b) % 2 ^ 64

abbrev pub size_sub : ℕ → ℕ → ℕ
size_sub a b = (a + 2 ^ 64 - b) % 2 ^ 64

pub record ConstBuffer : Type 0 where
  pub raw : ℕ
  pub len : ℕ

abbrev pub consume : ConstBuffer → ℕ → ConstBuffer
consume b n = record { raw = size_add b.raw n; len = size_sub b.len n }

pub record MutableBuffer : Type 0 where
  pub raw_pos : ℕ
  pub size : ℕ
  pub len : ℕ

abbrev pub append : MutableBuffer → ℕ → MutableBuffer
append b n = record b { raw_pos = size_add b.raw_pos n; len = size_add b.len n }

abbrev pub remain : MutableBuffer → ℕ
remain b = size_sub b.size b.len
