-- ===== src/Tests/Indented.antt =====
-- The theorems on the indentation at a page of two levels.
use c_pug.Tokenizer.Columns.File.{InLine, tokenize_file-InLine}
use c_pug.Glib.{pos}
use c_pug.Tokenizer.File.{tokenize_file}
use c_pug.Tests.Tokens.{tokenizer}
use c_pug.Tests.Chains.{limit, limit-IsLimited}
use c_pug.Renderer.Spec.{Tree, html}
use c_pug.Renderer.Refines.{Stands}
use c_pug.Process.Outlined.{process_pug_file-outline}
use c_pug.Process.Rendered.{style_of}
use c_pug.Process.{Machine, finished, process_pug_file}
use c_pug.Parser.Preorder.{nodes}
use c_pug.Parser.Free.{ContextBlock}
use c_pug.Parser.Indented.Heads.{outline, token_spot, heads}
use c_pug.Common.{
  ℕ, zero, suc, ◌+◌, ◌^◌, ◌≤◌, ◌<◌, ◌≡◌, refl, true, none, some, [], ◌∷◌, Bytes, codes, arith,
  get_elem?, inl, inr, ◌⊎◌, map, List, Option, All,
}
use c_pug.Ast.{Heap}
use c_pug.Common.Run.{ok}
use c_pug.Glib.Standin.{standin, standin-Documented}
use c_pug.Parser.Attributes.{is_attribute}
use c_pug.Parser.Document.{IsParsed}
use c_pug.Parser.Indented.{Indented}
use c_pug.Parser.Indented.Document.{parse_pug-Indented}
use c_pug.Parser.Indented.Tokens.{begins, belongs, opens, Regular}
use c_pug.Parser.Moves.{Closed}
use c_pug.Parser.Node.{is_eof}
use c_pug.Parser.Tree.{parse_pug}
use c_pug.Tests.Pages.{all_granted}
use c_pug.Tokens.{
  TokenType, token_tag, token_class, token_text, token_eof, Token, TokenList, ParserContext,
}

abbrev at : TokenType → Option Bytes → ℕ → ℕ → ℕ → Token
at type value line column depth = record {
  type = type;
  value = value;
  line = line;
  column = column;
  depth = depth;
  attributes = none;
}

abbrev page : Bytes
page = codes "ul\n  li.odd x\n  li"

abbrev items : TokenList
items = record {
  tokens =
      at token_tag (some (codes "ul")) 1 0 0
      ∷ at token_tag (some (codes "li")) 2 2 1
      ∷ at token_class (some (codes "odd")) 2 5 1
      ∷ at token_text (some (codes "x")) 2 9 1
      ∷ at token_tag (some (codes "li")) 3 2 1
      ∷ at token_eof none 4 0 0
      ∷ [];
  count = 6;
  capacity = 10;
  slots = 10;
}

page-items : tokenize_file standin limit page ≡ some items
unfolding tokenizer standin
page-items = refl

items-present : (i : ℕ) → i ≤ 5 → (t : Token) × (get_elem? items.tokens i ≡ some t)
items-present zero le = (_, refl)
items-present (suc zero) le = (_, refl)
items-present (suc (suc zero)) le = (_, refl)
items-present (suc (suc (suc zero))) le = (_, refl)
items-present (suc (suc (suc (suc zero)))) le = (_, refl)
items-present (suc (suc (suc (suc (suc zero))))) le = (_, refl)
items-present (suc (suc (suc (suc (suc (suc i)))))) le = absurd (omega arith)

items-shallow : (i : ℕ) (t : Token) → get_elem? items.tokens i ≡ some t → t.depth < 2 ^ 32
items-shallow zero t e = ground (arith, e)
items-shallow (suc zero) t e = ground (arith, e)
items-shallow (suc (suc zero)) t e = ground (arith, e)
items-shallow (suc (suc (suc zero))) t e = ground (arith, e)
items-shallow (suc (suc (suc (suc zero)))) t e = ground (arith, e)
items-shallow (suc (suc (suc (suc (suc zero))))) t e = ground (arith, e)
items-shallow (suc (suc (suc (suc (suc (suc i)))))) t e = cc

-- The class is the only token that begins no node.
items-follow :
    (i : ℕ) (t u : Token)
    → get_elem? items.tokens i ≡ some t
    → get_elem? items.tokens (i + 1) ≡ some u
    → (is_eof standin all_granted u.type ≡ true)
      ⊎ (begins u.type ≡ true)
      ⊎ ((belongs u.type ≡ true) × (u.depth ≡ t.depth) × (opens t.type ≡ true))
unfolding is_eof
items-follow zero t u e f = inr (inl (ground (arith, f)))
items-follow (suc zero) t u e f =
    inr (inr (ground (arith, f), ground (arith, e, f), ground (arith, e)))
items-follow (suc (suc zero)) t u e f = inr (inl (ground (arith, f)))
items-follow (suc (suc (suc zero))) t u e f = inr (inl (ground (arith, f)))
items-follow (suc (suc (suc (suc zero)))) t u e f = inl (ground (arith, f))
items-follow (suc (suc (suc (suc (suc zero))))) t u e f = absurd (cc)
items-follow (suc (suc (suc (suc (suc (suc i)))))) t u e f = absurd (cc)

items-valued :
    (i : ℕ) (t : Token)
    → get_elem? items.tokens i ≡ some t
    → is_attribute t.type ≡ true
    → (v : Bytes) × (t.value ≡ some v)
unfolding is_attribute
items-valued zero t e a = absurd (ground arith)
items-valued (suc zero) t e a = absurd (ground arith)
items-valued (suc (suc zero)) t e a = absurd (ground arith)
items-valued (suc (suc (suc zero))) t e a = absurd (ground arith)
items-valued (suc (suc (suc (suc zero)))) t e a = absurd (ground arith)
items-valued (suc (suc (suc (suc (suc zero))))) t e a = absurd (ground arith)
items-valued (suc (suc (suc (suc (suc (suc i)))))) t e a = absurd (cc)

items-Closed : Closed standin all_granted items 5
unfolding is_eof
items-Closed = record {
  counted = refl;
  small = omega arith;
  ends = (_, refl, refl);
  present = items-present;
  valued = items-valued;
}

items-Regular : Regular standin all_granted items
items-Regular = record {
  counted = refl;
  small = omega arith;
  shallow = items-shallow;
  first = λ u e. inr (ground (arith, e));
  follows = items-follow;
}

abbrev context : ParserContext
context = record {
  tokens = some items;
  current_token = 0;
  current_depth = 0;
  current_parent = none;
  root_node = none;
  use_tabs = 0;
  tab_size = 2;
  strict_mode = 0;
}

parse_pug-Indented_example :
    (ctx' : ParserContext) × (h : Heap) × (parse_pug standin all_granted true context
      ≡ ok (some (ctx', h)))
    × Indented h
    × (outline h ≡ map token_spot (heads standin all_granted none items.tokens))
    × IsParsed standin all_granted context ctx' h
parse_pug-Indented_example =
    parse_pug-Indented standin all_granted items-Closed (λ i. refl) items-Regular (λ i. refl)
      (λ i. refl) context (record { over = refl; inside = omega arith }) refl

-- All memory but for the growth of a list of tokens beyond a thousand million.
abbrev limited_machine : Machine
limited_machine = record {
  tokens = limit;
  context = true;
  junk = 0;
  root = true;
  parser = all_granted;
}

process_pug_file-outline_example :
    (h : Heap) × (t : Tree) × (blocks : List ContextBlock) × (process_pug_file standin
        limited_machine page 0 2 0
      ≡ ok (finished (some (html (style_of 0 2 0) t)) blocks))
    × Stands h 0 t
    × (nodes t ≡ h)
    × (outline h ≡ map token_spot (heads standin all_granted none items.tokens))
    × Indented h
process_pug_file-outline_example =
    process_pug_file-outline standin limited_machine standin-Documented limit-IsLimited
      (record {
        context = refl;
        root = refl;
        nodes = λ i. refl;
        classes = λ i. refl;
        children = λ i. refl;
      })
      page items 0 2 0 page-items (_, refl, refl) items-Regular

tokenize_file-InLine_example :
    (made : TokenList) × (tokenize_file standin limit page ≡ some made)
    × All (InLine standin limit (standin.g_strsplit page (codes "\n") (pos 0))) made.tokens
tokenize_file-InLine_example =
    tokenize_file-InLine standin limit page standin-Documented limit-IsLimited
