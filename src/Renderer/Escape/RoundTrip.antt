-- ===== src/Renderer/Escape/RoundTrip.antt =====
-- Escaped text has no byte that HTML reads as markup, and a reader of entities gets the text back.
use c_pug.Common.{
  ℕ, zero, suc, ◌≤◌, ◌≡◌, refl, sym, ◌∙◌, ap, Bool, true, not, ◌||◌, Option, none, some, [], ◌∷◌,
  ◌++◌, Bytes, codes, ◌==◌, arith, length, if◌then◌else◌, append-nil, append_assoc,
}
use c_pug.Glib.{Glib, Documented}
use c_pug.Renderer.Escape.{escape_byte, escape_loop, escape_html}
use c_pug.Tokenizer.Scan.Pieces.{all}

-- The entity of a byte, or the byte.
unfoldable pub entity : ℕ → Bytes
entity c =
    if c == b'&'
    then codes "&amp;"
    else if c == b'<'
    then codes "&lt;"
    else if c == b'>'
    then codes "&gt;"
    else if c == b'"'
    then codes "&quot;"
    else if c == 39
    then codes "&#39;"
    else c ∷ []

pub escaped : Bytes → Bytes
escaped [] = []
escaped (c ∷ s) = entity c ++ escaped s

module _ (g : Glib) (doc : Documented g) where
  escape_byte-entity : (out : Bytes) (c : ℕ) → escape_byte g out c ≡ out ++ entity c
  unfolding escape_byte entity
  escape_byte-entity out c = ground (
    arith,
    doc.append out (codes "&amp;"),
    doc.append out (codes "&lt;"),
    doc.append out (codes "&gt;"),
    doc.append out (codes "&quot;"),
    doc.append out (codes "&#39;"),
    doc.append_c out c,
  )

  escape_loop-escaped : (out s : Bytes) → escape_loop g out s ≡ out ++ escaped s
  unfolding escape_loop escaped
  escape_loop-escaped out [] = sym (append-nil out)
  escape_loop-escaped out (c ∷ s) =
      rw (escape_byte-entity out c)
        (escape_loop-escaped (out ++ entity c) s ∙ append_assoc out (entity c) (escaped s))

  pub escape_html-escaped : (s : Bytes) → escape_html g (some s) ≡ escaped s
  unfolding escape_html
  escape_html-escaped s = escape_loop-escaped [] s

-- The bytes that end text or an attribute value in HTML.
abbrev pub is_plain : ℕ → Bool
is_plain c = not (c == b'<' || c == b'>' || c == b'"' || c == 39)

all-append :
    (test : ℕ → Bool) (s t : Bytes)
    → all test s ≡ true
    → all test t ≡ true
    → all test (s ++ t) ≡ true
all-append test [] t h k = k
all-append test (c ∷ s) t h k = ground (arith, all-append test s t)

all-entity : (c : ℕ) → all is_plain (entity c) ≡ true
unfolding entity
all-entity c = ground arith

all-escaped : (s : Bytes) → all is_plain (escaped s) ≡ true
unfolding escaped
all-escaped [] = refl
all-escaped (c ∷ s) = all-append is_plain (entity c) (escaped s) (all-entity c) (all-escaped s)

-- Given GLib's string functions as documented, the escaped form of every text has no angle bracket
-- and no quote.
pub escape_html-plain :
    (g : Glib) (s : Bytes) → Documented g → all is_plain (escape_html g (some s)) ≡ true
escape_html-plain g s doc = rw (escape_html-escaped g doc s) (all-escaped s)

-- What is left behind a prefix.
strip_prefix : Bytes → Bytes → Option Bytes
strip_prefix [] s = some s
strip_prefix (p ∷ ps) [] = none
strip_prefix (p ∷ ps) (c ∷ s) = if p == c then strip_prefix ps s else none

try_entity : Bytes → ℕ → Bytes → Option (ℕ × Bytes) → Option (ℕ × Bytes)
try_entity name c s otherwise = elim (strip_prefix name s) [
  | none ↦ otherwise
  | some rest ↦ some (c, rest)
]

-- The first character of HTML text, with what is behind it.
read_character : Bytes → Option (ℕ × Bytes)
read_character [] = none
read_character (c ∷ s) = try_entity (codes "&amp;") b'&' (c ∷ s) (
    try_entity (codes "&lt;") b'<' (c ∷ s) (
      try_entity (codes "&gt;") b'>' (c ∷ s) (
        try_entity (codes "&quot;") b'"' (c ∷ s)
          (try_entity (codes "&#39;") 39 (c ∷ s) (some (c, s))))))

-- HTML text as a reader sees it; the fuel bounds the number of characters.
pub unescape : ℕ → Bytes → Bytes
unescape zero s = []
unescape (suc fuel) s = elim (read_character s) [
  | none ↦ []
  | some (c, rest) ↦ c ∷ unescape fuel rest
]

read_character-nil : read_character [] ≡ none
unfolding read_character
read_character-nil = refl

read_character-entity : (c : ℕ) (rest : Bytes) → read_character (entity c ++ rest) ≡ some (c, rest)
unfolding read_character try_entity strip_prefix entity
read_character-entity c rest = ground arith

unescape-escaped : (fuel : ℕ) (s : Bytes) → length s ≤ fuel → unescape fuel (escaped s) ≡ s
unfolding unescape escaped
unescape-escaped zero [] h = refl
unescape-escaped zero (c ∷ s) h = absurd (omega arith)
unescape-escaped (suc fuel) [] h = rw (read_character-nil, unescape)
unescape-escaped (suc fuel) (c ∷ s) h =
    rw (read_character-entity c (escaped s), unescape)
      (ap (◌∷◌ c) (unescape-escaped fuel s (omega arith)))

-- Given GLib's string functions as documented, a reader of entities who reads at least as many
-- characters as the text has gets back the text that was escaped.
pub unescape-escape_html :
    (g : Glib) (fuel : ℕ) (s : Bytes)
    → Documented g
    → length s ≤ fuel
    → unescape fuel (escape_html g (some s)) ≡ s
unescape-escape_html g fuel s doc h = rw (escape_html-escaped g doc s) (unescape-escaped fuel s h)
