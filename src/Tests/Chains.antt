-- ===== src/Tests/Chains.antt =====
-- The tokenizer, the parser and the pieces of the renderer at small inputs.
use c_pug.TokenList.{Reallocs}
use c_pug.Common.{
  ℕ, ◌≡◌, refl, ◌*◌, truth, if◌then◌else◌, replicate, map, ◌+◌, ◌++◌, length, true, Option, none,
  some, [], ◌∷◌, Bytes, codes, ltb, arith,
}
use c_pug.Ast.{Heap}
use c_pug.Common.Run.{ok}
use c_pug.Glib.Standin.{standin, standin-Documented}
use c_pug.HtmlTags.Printing.{print_tags, read_groups, facts, read_groups-print_tags}
use c_pug.HtmlTags.Table.{html_tags}
use c_pug.HtmlTags.Types.{category_document}
use c_pug.Parser.Context.{Memory}
use c_pug.Parser.Document.{IsParsed}
use c_pug.Parser.Tree.{parse_pug}
use c_pug.Renderer.Escape.RoundTrip.{escaped}
use c_pug.Renderer.Pieces.{append_indent, render_classes}
use c_pug.Renderer.Pieces.Output.{append_indent-indentation, render_classes-join}
use c_pug.Glib.{join}
use c_pug.Process.Parsed.{HasEof, parse_pug-tokenize_file}
use c_pug.TokenList.Extends.{IsLimited}
use c_pug.Tests.Tokens.{tokenizer, always}
use c_pug.Tokenizer.File.{tokenize_file}
use c_pug.Tokenizer.Line.Marks.{create_token, add_token}
use c_pug.Tokenizer.Line.Text.{LineState, scan_attributes}
use c_pug.Tokenizer.Sound.Brackets.{Nested, nothing, byte, group, written, scan_attributes-written}
use c_pug.Tokens.{
  TokenType, token_tag, token_text, token_attribute, token_eof, Token, TokenList, ParserContext,
}

abbrev pub line : Bytes
line = codes "  p(a='1') x"

-- Memory for a thousand million pointers, and for all nodes, but not for more children.
abbrev pub limit : Reallocs
limit n t = ltb n 1000000000

pub limit-IsLimited : IsLimited limit
limit-IsLimited n t le = ground arith

abbrev pub memory : Memory
memory = record {
  node = always;
  attribute = λ i n. true;
  grow_attributes = λ i n. true;
  grow_classes = always;
  grow_children = λ n. ltb n 5;
  classes = always;
}

abbrev at : TokenType → Option Bytes → ℕ → ℕ → ℕ → Token
at type value line column depth = record {
  type = type;
  value = value;
  line = line;
  column = column;
  depth = depth;
  attributes = none;
}

abbrev pub list : TokenList
list = record {
  tokens =
      at token_tag (some (codes "p")) 1 2 1
      ∷ at token_attribute (some (codes "a='1'")) 1 2 1
      ∷ at token_text (some (codes "x")) 1 11 1
      ∷ at token_eof none 2 0 0
      ∷ [];
  count = 4;
  capacity = 10;
  slots = 10;
}

pub line-list : tokenize_file standin limit line ≡ some list
unfolding tokenizer standin
line-list = refl

pub list-HasEof : HasEof list
list-HasEof = (_, refl, refl)

abbrev context : ParserContext
context = record {
  tokens = some list;
  current_token = 0;
  current_depth = 0;
  current_parent = none;
  root_node = none;
  use_tabs = 1;
  tab_size = 2;
  strict_mode = 0;
}

parse_pug-tokenize_file_example :
    (ctx' : ParserContext) × (h : Heap) × (parse_pug standin memory true context
      ≡ ok (some (ctx', h)))
    × IsParsed standin memory context ctx' h
parse_pug-tokenize_file_example =
    parse_pug-tokenize_file standin limit standin-Documented limit-IsLimited memory line list
      context (λ i. refl) line-list list-HasEof refl refl

-- `x=f(1)`
abbrev nested : Nested
nested = byte b'x' (byte b'=' (byte b'f' (group (byte b'1' nothing) nothing)))

abbrev state : LineState
state = record {
  tokens = list;
  buffer = codes "li";
  rest = codes "(x=f(1)) y";
  pos = 2;
  column = 0;
}

scan_attributes-written_example :
    scan_attributes standin limit 0 1 state (written nested ++ b')' ∷ codes " y") ≡ record {
      tokens = add_token limit list (create_token token_attribute (some (written nested)) 0 1 0);
      buffer = written nested;
      rest = codes " y";
      pos = 2 + 1 + length (written nested) + 1;
      column = 0;
    }
scan_attributes-written_example =
    scan_attributes-written standin standin-Documented limit 0 1 state nested (codes " y") refl

append_indent_example :
    append_indent standin (codes "<p>") 3 0 2
    ≡ codes "<p>" ++ (if truth 0 then replicate 3 b'\t' else replicate (3 * 2) b' ')
append_indent_example = append_indent-indentation standin standin-Documented (codes "<p>") 3 0 2

render_classes_example :
    render_classes standin (codes "<p") (some (codes "a" ∷ codes "b" ∷ [])) 2
    ≡ codes "<p"
      ++ (codes " class=\""
          ++ (join (codes " ") (map escaped (codes "a" ∷ codes "b" ∷ [])) ++ codes "\""))
render_classes_example =
    render_classes-join standin standin-Documented (codes "<p") (codes "a") (codes "b" ∷ [])

read_groups_example :
    read_groups (some category_document) (print_tags category_document html_tags)
    ≡ map facts html_tags
read_groups_example = read_groups-print_tags category_document html_tags
