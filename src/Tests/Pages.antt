-- ===== src/Tests/Pages.antt =====
-- Whole runs, from a file to its HTML.
use c_pug.Common.{true, ◌≡◌, refl, Option, some, Bytes, codes}
use c_pug.Common.Run.{Run, ok, ◌>>=◌}
use c_pug.Glib.Standin.{standin}
use c_pug.Tests.Tokens.{granted, always, tokenizer}
use c_pug.AttributeList.{attribute_list_create, attribute_list_add}
use c_pug.Ast.{ast_node_create, adopt, ast_node_add_child}
use c_pug.Parser.Context.{
  Memory, parser_context_create, parser_get_current_token, parser_advance_token,
}
use c_pug.Parser.Attributes.{
  unquote, is_attribute, add_pair, add_key_value, parse_pair, parse_pairs, parse_attributes,
  parse_classes,
}
use c_pug.Parser.Node.{node_case, join_text, absorb, node_loop, is_eof, parse_node}
use c_pug.Parser.Tree.{climb, attach, opens_block, place, at_eof, pug_loop, parse_pug}
use c_pug.Debug.{token_type_to_string}
use c_pug.Renderer.Escape.{void_tags, find_tag, is_void_tag, escape_byte, escape_loop, escape_html}
use c_pug.Renderer.Pieces.{
  append_times, append_indent, is_boolean, render_attribute, render_attribute_items,
  render_attributes, render_class_items, render_classes,
}
use c_pug.Renderer.Node.{
  newline, append_text, render_note, render_leaf, open_tag, tag_text, before_children,
  after_children, no_children, close_tag, render_children, render_inside, render_tag, is_root,
  is_tag_type, render_body, render_node, render_ast,
}
use c_pug.AttributeList.Free.{free_attribute, free_attributes, attribute_list_free}
use c_pug.TokenList.Free.{lift, free_token, free_tokens, token_list_free}
use c_pug.Ast.Free.{
  free_class_items, free_classes, free_own, free_children, free_node, ast_node_free,
}
use c_pug.Parser.Free.{parser_context_free}
use c_pug.Process.{Machine, process_pug_file}

unfoldable pub parser : Unit {0}
unfolding attribute_list_create attribute_list_add ast_node_create adopt ast_node_add_child
    parser_context_create parser_get_current_token parser_advance_token unquote is_attribute
    add_pair add_key_value parse_pair parse_pairs parse_attributes parse_classes node_case join_text
    absorb node_loop is_eof parse_node climb attach opens_block place at_eof pug_loop parse_pug
parser = tt

unfoldable pub renderer : Unit {0}
unfolding token_type_to_string void_tags find_tag is_void_tag escape_byte escape_loop escape_html
    append_times append_indent is_boolean render_attribute render_attribute_items render_attributes
    render_class_items render_classes newline append_text render_note render_leaf open_tag tag_text
    before_children after_children no_children close_tag render_children render_inside render_tag
    is_root is_tag_type render_body render_node render_ast process_pug_file
renderer = tt

unfoldable pub release : Unit {0}
unfolding free_attribute free_attributes attribute_list_free lift free_token free_tokens
    token_list_free free_class_items free_classes free_own free_children free_node ast_node_free
    parser_context_free
release = tt

abbrev pub all_granted : Memory
all_granted = record {
  node = always;
  attribute = λ i n. true;
  grow_attributes = λ i n. true;
  grow_classes = always;
  grow_children = always;
  classes = always;
}

abbrev pub machine : Machine
machine = record { tokens = granted; context = true; junk = 0; root = true; parser = all_granted }

-- The HTML of a page, not minified, with an indentation of two spaces.
abbrev pub html : Bytes → Run (Option Bytes)
html page = process_pug_file standin machine page 0 2 0 >>= λ output. ok output.result

nested_page :
    html (codes "doctype html\ndiv#main.card(a='1') hi <b>\n  p x\nbr")
    ≡ ok (
        some (
          codes
            "<!DOCTYPE html>\n<div id=\"main\" class=\"card\" a=\"1\">hi &lt;b&gt;  <p>x</p>\n</div>\n<br />\n"))
unfolding tokenizer parser renderer release standin
nested_page = refl
