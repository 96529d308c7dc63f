-- ===== src/Parser/Attributes/RoundTrip.antt =====
-- `parse_attributes` reads back the attributes that a template writes.
use c_pug.Common.{
  ℕ, suc, ◌+◌, ◌^◌, ◌<◌, ◌≤◌, ◌≡◌, ◌≢◌, refl, sym, ◌∙◌, ap, true, false, some, List, [], ◌∷◌, ◌++◌,
  Bytes, codes, arith, length, map, append-nil, append_assoc, All, All-append, ◌==◌,
}
use c_pug.AttributeList.{attribute_list_add}
use c_pug.AttributeList.Growth.{IsValid, attributes-attribute_list_add, attribute_list_add-IsValid}
use c_pug.Glib.{Glib, Documented, pos, join, IsWithout, negsuc}
use c_pug.Parser.Attributes.{
  unquote, is_attribute, add_pair, add_key_value, parse_pair, parse_pairs, attributes_of,
  attributes_from, parse_attributes,
}
use c_pug.Parser.Attributes.Written.{
  Written, IsWritten, quoted, core, text, attribute, unquote-quoted, names-ends_tight,
  names-IsWithout, IsBlank-IsWithout, quoted-tight, core-starts, core-ends, text-IsWithout,
  name_starts, quote_starts,
}
use c_pug.Parser.Context.{Memory, parser_get_current_token, parser_advance_token}
use c_pug.Tokens.{Attribute, AttributeList, AstNode, ParserContext, Token, attr_string}

-- Room for `n` more attributes: the list is within its block, and no doubling wraps.
pub record HasRoom (n : ℕ) (l : AttributeList) : Type 0 where
  pub valid : IsValid l
  pub small : l.capacity < 2 ^ 31
  pub few : l.count + n ≤ 2 ^ 30

small-add :
    (n : ℕ) (l : AttributeList) (t : Attribute)
    → HasRoom (suc n) l
    → ((attribute_list_add true l (some t)).capacity < 2 ^ 31)
      × ((attribute_list_add true l (some t)).count ≡ l.count + 1)
unfolding attribute_list_add
small-add n l t r = ground (arith, r.valid.within, r.few, r.small)

add-HasRoom :
    (n : ℕ) (l : AttributeList) (t : Attribute)
    → HasRoom (suc n) l
    → HasRoom n (attribute_list_add true l (some t))
add-HasRoom n l t r = record {
  valid = attribute_list_add-IsValid true l t r.valid r.small;
  small = (small-add n l t r).0;
  few = omega (arith, (small-add n l t r).1, r.few);
}

module _ (g : Glib) (mem : Memory) (doc : Documented g) (token : ℕ)
    (attribute_granted : (left : ℕ) → mem.attribute token left ≡ true)
    (growth_granted : (left : ℕ) → mem.grow_attributes token left ≡ true) where
  add_pair-stripped :
      (left : ℕ) (l : AttributeList) (name value : Bytes) (c : ℕ) (s v : Bytes)
      → g.g_strstrip name ≡ c ∷ s
      → unquote (g.g_strstrip value) ≡ v
      → add_pair g mem token left l name value
        ≡ attribute_list_add true l
            (some (record { name = some (c ∷ s); value = some v; type = attr_string }))
  unfolding add_pair
  add_pair-stripped left l name value c s v e f =
      ground (arith, attribute_granted left, growth_granted left)

  -- A pair that strips to a text with a name and a value.
  parse_pair-parted :
      (left : ℕ) (l : AttributeList) (pair : Bytes) (c d : ℕ) (s name value : Bytes)
      → g.g_strstrip pair ≡ c ∷ s
      → g.g_strsplit (c ∷ s) (b'=' ∷ []) (pos 2) ≡ (d ∷ name) ∷ value ∷ []
      → parse_pair g mem token left l pair ≡ add_pair g mem token left l (d ∷ name) value
  unfolding parse_pair add_key_value
  parse_pair-parted left l pair c d s name value e f = ground (arith)

  parse_pair-text :
      (left : ℕ) (l : AttributeList) (w : Written)
      → IsWritten w
      → parse_pair g mem token left l (text w) ≡ attribute_list_add true l (some (attribute w))
  parse_pair-text left l w h =
      let (before, behind, ahead, after) = h.blanks in
      let name = w.initial ∷ w.others in
      let stripped =
        doc.strstrip_tight w.before (core w) w.after before after (core-starts w h)
          (core-ends w h) in
      let parted = doc.strsplit_two (b'=') (name ++ w.behind) (w.ahead ++ quoted w.quote w.value) (
        All-append (λ (c : ℕ). (c == b'=') ≡ false) name w.behind
          (names-IsWithout (b'=') name refl h.named)
          (IsBlank-IsWithout (b'=') w.behind refl behind)) in
      let named : g.g_strstrip (name ++ w.behind) ≡ name =
        doc.strstrip_tight [] name w.behind tt behind (name_starts w h)
          (names-ends_tight name h.named) in
      let valued : unquote (g.g_strstrip (w.ahead ++ quoted w.quote w.value)) ≡ w.value =
        ap (λ (s : Bytes). unquote (g.g_strstrip (w.ahead ++ s)))
          (sym (append-nil (quoted w.quote w.value)))
        ∙ ap unquote (
            doc.strstrip_tight w.ahead (quoted w.quote w.value) [] ahead tt (quote_starts w h)
              (quoted-tight w h))
        ∙ unquote-quoted w.quote w.value h.quotes in
      parse_pair-parted left l (text w) w.initial w.initial _ (w.others ++ w.behind)
        (w.ahead ++ quoted w.quote w.value) stripped parted
      ∙ (add_pair-stripped left l (name ++ w.behind) (w.ahead ++ quoted w.quote w.value) w.initial
          w.others w.value named valued)

  pub parse_pairs-texts :
      (l : AttributeList) (ws : List Written)
      → All IsWritten ws
      → HasRoom (length ws) l
      → ((parse_pairs g mem token l (map text ws)).attributes ≡ l.attributes ++ map attribute ws)
        × IsValid (parse_pairs g mem token l (map text ws))
  unfolding parse_pairs
  parse_pairs-texts l [] h r = (sym (append-nil l.attributes), r.valid)
  parse_pairs-texts l (w ∷ ws) h r =
      let l' = attribute_list_add true l (some (attribute w)) in
      let (read, valid) = parse_pairs-texts l' ws h.1 (add-HasRoom (length ws) l (attribute w) r) in
      let appended : l'.attributes ≡ l.attributes ++ attribute w ∷ [] =
        attributes-attribute_list_add true l (attribute w) r.valid in
      rw (parse_pairs, parse_pair-text (length (map text ws)) l w h.0)
        (
          read
              ∙ ap (λ (t : List Attribute). t ++ map attribute ws) appended
              ∙ append_assoc l.attributes (attribute w ∷ []) (map attribute ws),
          valid,
        )

-- The attributes in their order, with commas between them.
abbrev pub written : List Written → Bytes
written ws = join (b',' ∷ []) (map text ws)

texts-IsWithout : (ws : List Written) → All IsWritten ws → All (IsWithout (b',')) (map text ws)
texts-IsWithout [] h = tt
texts-IsWithout (w ∷ ws) h = (text-IsWithout w h.0, texts-IsWithout ws h.1)

append-cons : (a : Bytes) (c : ℕ) (b : Bytes) → a ++ c ∷ b ≢ []
append-cons [] c b h = cc
append-cons (x ∷ a) c b h = cc

join-cons : (d p : Bytes) (ps : List Bytes) → p ≢ [] → join d (p ∷ ps) ≢ []
join-cons d p [] filled h = filled h
join-cons d [] (q ∷ ps) filled h = filled refl
join-cons d (c ∷ p) (q ∷ ps) filled h = cc

split-written :
    (g : Glib) (ws : List Written)
    → Documented g
    → All IsWritten ws
    → g.g_strsplit (written ws) (codes ",") (negsuc 0) ≡ map text ws
split-written g [] doc h = doc.strsplit_nil (codes ",") (negsuc 0)
split-written g (w ∷ ws) doc h =
    doc.strsplit-join (b',') 0 (text w) (map text ws)
      (join-cons (b',' ∷ []) (text w) (map text ws) (append-cons w.before w.initial _))
      (texts-IsWithout (w ∷ ws) h)

-- At a token for attributes with a value.
pub at_value :
    (g : Glib) (mem : Memory) (ctx : ParserContext) (node : AstNode) (t : Token) (v : Bytes)
    → parser_get_current_token ctx ≡ some t
    → is_attribute t.type ≡ true
    → t.value ≡ some v
    → parse_attributes g mem ctx node ≡ attributes_from g mem ctx node v
unfolding parse_attributes
at_value g mem ctx node t v at is value = ground arith

-- Given GLib's functions as documented, the memory for the attributes of this token, and a node
-- whose attributes leave room for those that are written, `parse_attributes` reads a token whose
-- value is a list of written attributes, each a name without white space, `,` and `=`, a sign of
-- equality and a value without a comma in single or double quotes, with any white space around the
-- name and around the quoted value: the node keeps its attributes and gets these behind them, each
-- with its name and its value without the quotes, in the order in which they are written; nothing
-- else of the node changes, and the parser goes on to the next token.
pub parse_attributes-written :
    (g : Glib) (mem : Memory) (ctx : ParserContext) (node : AstNode) (ws : List Written) (t : Token)
    → Documented g
    → ((left : ℕ) → mem.attribute ctx.current_token left ≡ true)
    → ((left : ℕ) → mem.grow_attributes ctx.current_token left ≡ true)
    → parser_get_current_token ctx ≡ some t
    → is_attribute t.type ≡ true
    → t.value ≡ some (written ws)
    → All IsWritten ws
    → HasRoom (length ws) (attributes_of g mem node)
    → (l : AttributeList) × (parse_attributes g mem ctx node
        ≡ (record node { attributes = some l }, parser_advance_token ctx))
      × IsValid l
      × (l.attributes ≡ (attributes_of g mem node).attributes ++ map attribute ws)
unfolding attributes_from
parse_attributes-written g mem ctx node ws t doc granted growth at is value h room =
    let (read, valid) =
      parse_pairs-texts g mem doc ctx.current_token granted growth (attributes_of g mem node) ws h
        room in
    (
      parse_pairs g mem ctx.current_token (attributes_of g mem node) (map text ws),
      at_value g mem ctx node t (written ws) at is value
          ∙ rw (attributes_from, split-written g ws doc h) refl,
      valid,
      read,
    )
