-- ===== src/Renderer/Escape.antt =====
-- `void_tags`, `is_void_tag` and `escape_html`.
pub mod RoundTrip
use c_pug.Common.{
  ℕ, Bool, true, false, Option, none, some, List, [], ◌∷◌, Bytes, codes, ◌==◌, if◌then◌else◌,
}
use c_pug.Glib.{Glib, ℤ, pos, negsuc}

unfoldable pub void_tags : List Bytes
void_tags =
    codes "area"
    ∷ codes "base"
    ∷ codes "br"
    ∷ codes "col"
    ∷ codes "embed"
    ∷ codes "hr"
    ∷ codes "img"
    ∷ codes "input"
    ∷ codes "link"
    ∷ codes "meta"
    ∷ codes "param"
    ∷ codes "source"
    ∷ codes "track"
    ∷ codes "wbr"
    ∷ []

-- `n == 0` for an `int`.
abbrev pub is_zero : ℤ → Bool
is_zero (pos n) = n == 0
is_zero (negsuc n) = false

module _ (g : Glib) where
  open g use {g_string_append, g_string_append_c, g_strcmp0}

  -- The loop over the table.
  unfoldable pub find_tag : Bytes → List Bytes → Bool
  find_tag tag [] = false
  find_tag tag (t ∷ ts) = if is_zero (g_strcmp0 tag t) then true else find_tag tag ts

  unfoldable pub is_void_tag : Option Bytes → Bool
  is_void_tag none = false
  is_void_tag (some tag) = find_tag tag void_tags

  -- The `switch` over one byte.
  unfoldable pub escape_byte : Bytes → ℕ → Bytes
  escape_byte escaped c =
      if c == b'&'
      then g_string_append escaped (codes "&amp;")
      else if c == b'<'
      then g_string_append escaped (codes "&lt;")
      else if c == b'>'
      then g_string_append escaped (codes "&gt;")
      else if c == b'"'
      then g_string_append escaped (codes "&quot;")
      else if c == 39
      then g_string_append escaped (codes "&#39;")
      else g_string_append_c escaped c

  unfoldable pub escape_loop : Bytes → Bytes → Bytes
  escape_loop escaped [] = escaped
  escape_loop escaped (c ∷ p) = escape_loop (escape_byte escaped c) p

  unfoldable pub escape_html : Option Bytes → Bytes
  escape_html none = []
  escape_html (some input) = escape_loop [] input
