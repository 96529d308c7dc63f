-- ===== src/Main/Callbacks.antt =====
-- The functions of src/main.c that libregexp calls. The argument `opaque` is not read.
use c_pug.Common.{ℕ, Option, none, List, [], ◌∷◌, ◌==◌, if◌then◌else◌}

-- 0: there is no overflow.
unfoldable pub lre_check_stack_overflow : ℕ → ℕ
lre_check_stack_overflow alloca_size = 0

-- 0: there is no timeout.
abbrev pub lre_check_timeout : ℕ
lre_check_timeout = 0

-- The block that is returned, and those that are freed by `free`; `realloc` is a parameter, and
-- NULL is `none`.
unfoldable pub lre_realloc : (Option ℕ → ℕ → Option ℕ) → Option ℕ → ℕ → Option ℕ × List (Option ℕ)
lre_realloc realloc ptr size = if size == 0 then (none, ptr ∷ []) else (realloc ptr size, [])
