-- ===== src/Tests/Trees.antt =====
-- The theorems on the parser at a small list of tokens.
use c_pug.Common.{
  ℕ, zero, suc, ◌+◌, ◌≤◌, ◌<◌, List, times, ◌≡◌, refl, true, false, Option, none, some, [], ◌∷◌,
  Bytes, codes, arith, get_elem?, inl,
}
use c_pug.Ast.Free.{Part, NodeBlock, of_node, ast_node_free}
use c_pug.Ast.Parts.{same_node}
use c_pug.Debug.Print.{ast_node_print}
use c_pug.Debug.Lines.{rows_of, walk, ast_node_print-lines}
use c_pug.Parser.Free.{ContextBlock, parser_context_free}
use c_pug.Parser.Order.{Ordered, single-Ordered, attach-Ordered, Ordered-ChildrenDistinct}
use c_pug.Parser.Release.{Under}
use c_pug.Parser.Release.Once.{ast_node_free-once}
use c_pug.Parser.Release.Context.{same_block, parse_pug-released}
use c_pug.Ast.{Heap, adopt, ast_node_add_child}
use c_pug.Renderer.Grown.{render_ast-html}
use c_pug.Renderer.Node.{Style, render_ast}
use c_pug.Renderer.Refines.{Stands}
use c_pug.Renderer.Spec.{Tree, html}
use c_pug.Common.Run.{ok}
use c_pug.Glib.Standin.{standin, standin-Documented}
use c_pug.Parser.Attributes.{is_attribute}
use c_pug.Parser.Context.{Memory}
use c_pug.Parser.Document.{IsParsed, parse_pug_lem, single-Links}
use c_pug.Parser.Links.{Links, attach-Links}
use c_pug.Parser.Nodes.{NodeReturns, parse_node-Returns}
use c_pug.Parser.Moves.{Closed, StandsIn}
use c_pug.Parser.Node.{is_eof, parse_node}
use c_pug.Parser.Tree.{attach, parse_pug}
use c_pug.Tests.Tokens.{always}
use c_pug.Tokens.{
  Ptr, TokenType, token_tag, token_attribute, token_class, token_eof, Token, TokenList, AstNode,
  ParserContext,
}

-- Memory for all but the growth of the children.
abbrev granted : Memory
granted = record {
  node = always;
  attribute = λ i n. true;
  grow_attributes = λ i n. true;
  grow_classes = always;
  grow_children = λ n. false;
  classes = always;
}

abbrev token : TokenType → Option Bytes → ℕ → Token
token type value depth = record {
  type = type;
  value = value;
  line = depth + 1;
  column = 0;
  depth = depth;
  attributes = none;
}

-- `ul.menu(a='1')` and, within it, `li`
abbrev menu : TokenList
menu = record {
  tokens =
      token token_tag (some (codes "ul")) 0
      ∷ token token_class (some (codes "menu")) 0
      ∷ token token_attribute (some (codes "a='1'")) 0
      ∷ token token_tag (some (codes "li")) 1
      ∷ token token_eof none 0
      ∷ [];
  count = 5;
  capacity = 10;
  slots = 10;
}

menu-present : (i : ℕ) → i ≤ 4 → (t : Token) × (get_elem? menu.tokens i ≡ some t)
menu-present zero le = (_, refl)
menu-present (suc zero) le = (_, refl)
menu-present (suc (suc zero)) le = (_, refl)
menu-present (suc (suc (suc zero))) le = (_, refl)
menu-present (suc (suc (suc (suc zero)))) le = (_, refl)
menu-present (suc (suc (suc (suc (suc i))))) le = absurd (omega arith)

menu-valued :
    (i : ℕ) (t : Token)
    → get_elem? menu.tokens i ≡ some t
    → is_attribute t.type ≡ true
    → (v : Bytes) × (t.value ≡ some v)
unfolding is_attribute
menu-valued zero t e a = absurd (ground arith)
menu-valued (suc zero) t e a = absurd (ground arith)
menu-valued (suc (suc zero)) t e a = (codes "a='1'", ground arith)
menu-valued (suc (suc (suc zero))) t e a = absurd (ground arith)
menu-valued (suc (suc (suc (suc zero)))) t e a = absurd (ground arith)
menu-valued (suc (suc (suc (suc (suc i))))) t e a = absurd (ground arith)

menu-Closed : Closed standin granted menu 4
unfolding is_eof
menu-Closed = record {
  counted = refl;
  small = omega arith;
  ends = (_, refl, refl);
  present = menu-present;
  valued = menu-valued;
}

abbrev context : ParserContext
context = record {
  tokens = some menu;
  current_token = 0;
  current_depth = 0;
  current_parent = none;
  root_node = none;
  use_tabs = 0;
  tab_size = 2;
  strict_mode = 0;
}

context-StandsIn : StandsIn menu 4 context
context-StandsIn = record { over = refl; inside = omega arith }

parse_pug_example :
    (ctx' : ParserContext) × (h : Heap) × (parse_pug standin granted true context
      ≡ ok (some (ctx', h)))
    × IsParsed standin granted context ctx' h
parse_pug_example = parse_pug_lem standin granted menu-Closed (λ i. refl) context context-StandsIn

parse_node_example :
    NodeReturns standin granted menu-Closed
      (λ i. refl)
      context
      (parse_node standin granted 6 context)
parse_node_example =
    parse_node-Returns standin granted menu-Closed (λ i. refl) 6 context-StandsIn (omega arith)

abbrev node : ℕ → AstNode
node depth = record {
  tag = some (codes "p");
  text_content = none;
  node_type = token_tag;
  attributes = none;
  classes = none;
  class_count = 0;
  id = none;
  depth = depth;
  line = 0;
  column = 0;
  parent = none;
  children = [];
  children_count = 0;
  children_capacity = 5;
  children_slots = 5;
  is_void = 0;
  is_inline = 0;
  is_block = 0;
}

attach_example : Links (attach standin granted (node 4294967295 ∷ []) (node 1) 0)
attach_example =
    attach-Links standin granted (node 4294967295 ∷ []) (node 1) (node 4294967295) 0 refl
      (single-Links (node 4294967295) refl refl) refl refl (inl refl)

-- A heap of the root and one tag below it.
abbrev two : Heap
two = attach standin granted (node 4294967295 ∷ []) (node 1) 0

abbrev style : Style
style = record { use_tabs = 0; tab_size = 2; minify = 0 }

two-Links : Links two
two-Links =
    attach-Links standin granted (node 4294967295 ∷ []) (node 1) (node 4294967295) 0 refl
      (single-Links (node 4294967295) refl refl) refl refl (inl refl)

alone-Ordered : Ordered (node 4294967295 ∷ [])
alone-Ordered = single-Ordered (node 4294967295) refl refl

two-Ordered : Ordered two
two-Ordered =
    attach-Ordered standin granted (node 4294967295 ∷ []) (node 1) (node 4294967295) 0 refl
      alone-Ordered (omega arith) refl refl

two-root : (n : AstNode) × (get_elem? two 0 ≡ some n)
unfolding attach adopt ast_node_add_child
two-root = (_, refl)

render_ast-html_example :
    (t : Tree) × Stands two 0 t × (render_ast standin style two (some 0) ≡ ok (some (html style t)))
render_ast-html_example =
    render_ast-html standin style two 0 two-root.0 standin-Documented two-Links two-root.1

attach-Ordered_example : Ordered (attach standin granted (node 4294967295 ∷ []) (node 1) 0)
attach-Ordered_example =
    attach-Ordered standin granted (node 4294967295 ∷ []) (node 1) (node 4294967295) 0 refl
      alone-Ordered (omega arith) refl refl

ast_node_free-once_example :
    (blocks : List NodeBlock) × (ast_node_free two (some 0) ≡ ok blocks)
    × ((c : NodeBlock) → times same_node c blocks ≤ 1)
    × ((q : Ptr) (b : Part) → 0 < times same_node (of_node q b) blocks → Under two 0 q)
ast_node_free-once_example =
    ast_node_free-once two two-Links 0 two-root.0 (Ordered-ChildrenDistinct two two-Ordered)
      two-root.1

parse_pug-released_example :
    (ctx' : ParserContext) × (h : Heap) × (blocks : List ContextBlock) × (parse_pug standin granted
        true context
      ≡ ok (some (ctx', h)))
    × (parser_context_free h (some ctx') ≡ ok blocks)
    × ((b : ContextBlock) → times same_block b blocks ≤ 1)
parse_pug-released_example =
    parse_pug-released standin granted menu-Closed (λ i. refl) context context-StandsIn

ast_node_print-lines_example :
    (t : Tree) × Stands two 0 t × (ast_node_print two (some 0) 3 ≡ ok (rows_of (walk 3 t)))
ast_node_print-lines_example = ast_node_print-lines two 0 two-root.0 3 two-Links two-root.1
