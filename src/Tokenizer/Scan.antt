-- ===== src/Tokenizer/Scan.antt =====
-- The loops of `tokenize_line` that fill its buffer.
pub mod Pieces
use c_pug.Common.{ℕ, zero, suc, ◌+◌, ◌-◌, Bool, [], ◌∷◌, Bytes, ◌==◌, if◌then◌else◌}
use c_pug.Glib.{Glib}

-- The buffer with the place in the line.
pub record Scan : Type 0 where
  pub buffer : Bytes
  pub rest : Bytes
  pub pos : ℕ

module _ (g : Glib) where
  open g use {g_string_append_c}

  -- `while (line[pos] != '\0' && test(line[pos])) { append; pos++; }`
  unfoldable pub collect_while : (ℕ → Bool) → Bytes → Bytes → ℕ → Scan
  collect_while test buffer [] pos = record { buffer = buffer; rest = []; pos = pos }
  collect_while test buffer (c ∷ s) pos =
      if test c
      then collect_while test (g_string_append_c buffer c) s (pos + 1)
      else record { buffer = buffer; rest = c ∷ s; pos = pos }

  -- `paren_level` after the byte `c`.
  abbrev pub next_level : ℕ → ℕ → ℕ
  next_level c level = if c == b'(' then level + 1 else if c == b')' then level - 1 else level

  -- The loop over the attributes, up to the bracket that closes the first one.
  unfoldable pub collect_parens : ℕ → Bytes → Bytes → ℕ → Scan
  collect_parens zero buffer s pos = record { buffer = buffer; rest = s; pos = pos }
  collect_parens (suc level) buffer [] pos = record { buffer = buffer; rest = []; pos = pos }
  collect_parens (suc level) buffer (c ∷ s) pos =
      let level' = next_level c (suc level) in
      let buffer' = if level' == 0 then buffer else g_string_append_c buffer c in
      collect_parens level' buffer' s (pos + 1)
