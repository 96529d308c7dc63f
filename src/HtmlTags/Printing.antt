-- ===== src/HtmlTags/Printing.antt =====
-- `print_all_tags_by_category`: the table on the terminal, with a heading where the category
-- changes. The texts of the lines are left to `printf`.
use c_pug.Common.{
  ℕ, ◌≡◌, refl, sym, ap, ◌∙◌, Bool, true, List, [], ◌∷◌, Bytes, ◌==◌, ==_iff, if◌then◌else◌,
  Bool-cases, inl, inr, map, length, get_elem?, Option, none, some, false, ◌++◌, codes, same,
}
use c_pug.HtmlTags.Queries.{void_type}
use c_pug.HtmlTags.Table.{html_tags}
use c_pug.HtmlTags.Types.{
  HtmlTag, HtmlTagCategory, category_document, category_metadata, category_sections,
  category_heading, category_text, category_lists, category_tables, category_forms, category_media,
  category_embedded, category_scripting, category_interactive,
}

-- A call of `printf`: the title with the number of tags and the rule below it, the heading of a
-- category, the name of a tag, ` (void)` and the end of a line. The name of a category is a place
-- of an array; `none` stands for a place behind its end.
pub data Printed : Type 0 where
  title : ℕ → Printed
  rule : Printed
  heading : Option Bytes → Printed
  tag_name : Bytes → Printed
  void_mark : Printed
  newline : Printed

-- The number of a constant of the enumeration.
abbrev pub category_number : HtmlTagCategory → ℕ
category_number category_document = 0
category_number category_metadata = 1
category_number category_sections = 2
category_number category_heading = 3
category_number category_text = 4
category_number category_lists = 5
category_number category_tables = 6
category_number category_forms = 7
category_number category_media = 8
category_number category_embedded = 9
category_number category_scripting = 10
category_number category_interactive = 11

abbrev pub category_names : List Bytes
category_names =
    codes "DOCUMENTO"
    ∷ codes "METADATOS"
    ∷ codes "SECCIONES"
    ∷ codes "ENCABEZADOS"
    ∷ codes "TEXTO"
    ∷ codes "LISTAS"
    ∷ codes "TABLAS"
    ∷ codes "FORMULARIOS"
    ∷ codes "MEDIA"
    ∷ codes "EMBEBIDOS"
    ∷ codes "SCRIPTING"
    ∷ codes "INTERACTIVOS"
    ∷ []

-- `category_names[current_category]`
unfoldable pub category_name : HtmlTagCategory → Option Bytes
category_name current_category = get_elem? category_names (category_number current_category)

-- The line of a tag.
unfoldable pub print_tag : HtmlTag → List Printed
print_tag t =
    tag_name t.name ∷ ((if void_type t.type == 1 then void_mark ∷ [] else []) ++ newline ∷ [])

-- The loop over the table; `current_category` is its variable.
unfoldable pub print_tags : HtmlTagCategory → List HtmlTag → List Printed
print_tags current_category [] = []
print_tags current_category (t ∷ ts) =
    let same_group = print_tags current_category ts in
    let next_group = print_tags t.category ts in
    if category_number t.category == category_number current_category
    then print_tag t ++ same_group
    else heading (category_name t.category) ∷ (print_tag t ++ next_group)

unfoldable pub print_all_tags_by_category : List Printed
print_all_tags_by_category =
    title (length html_tags) ∷ rule ∷ print_tags category_document html_tags

categories : List HtmlTagCategory
categories =
    category_document ∷ category_metadata ∷ category_sections ∷ category_heading ∷ category_text
    ∷ category_lists ∷ category_tables ∷ category_forms ∷ category_media ∷ category_embedded
    ∷ category_scripting ∷ category_interactive ∷ []

category_of : ℕ → HtmlTagCategory
unfolding categories
category_of n = elim (get_elem? categories n) [ none ↦ category_document | some c ↦ c ]

category_of-number : (c : HtmlTagCategory) → category_of (category_number c) ≡ c
unfolding category_of
category_of-number category_document = refl
category_of-number category_metadata = refl
category_of-number category_sections = refl
category_of-number category_heading = refl
category_of-number category_text = refl
category_of-number category_lists = refl
category_of-number category_tables = refl
category_of-number category_forms = refl
category_of-number category_media = refl
category_of-number category_embedded = refl
category_of-number category_scripting = refl
category_of-number category_interactive = refl

category_number-injective :
    (a b : HtmlTagCategory) → (category_number a == category_number b) ≡ true → a ≡ b
category_number-injective a b h =
    sym (category_of-number a)
    ∙ ap category_of ((==_iff (category_number a) (category_number b)).0 h)
    ∙ category_of-number b

-- What the headings mean.
abbrev pub meanings : List (Bytes × HtmlTagCategory)
meanings =
    (codes "DOCUMENTO", category_document)
    ∷ (codes "METADATOS", category_metadata)
    ∷ (codes "SECCIONES", category_sections)
    ∷ (codes "ENCABEZADOS", category_heading)
    ∷ (codes "TEXTO", category_text)
    ∷ (codes "LISTAS", category_lists)
    ∷ (codes "TABLAS", category_tables)
    ∷ (codes "FORMULARIOS", category_forms)
    ∷ (codes "MEDIA", category_media)
    ∷ (codes "EMBEBIDOS", category_embedded)
    ∷ (codes "SCRIPTING", category_scripting)
    ∷ (codes "INTERACTIVOS", category_interactive)
    ∷ []

abbrev pub meaning : List (Bytes × HtmlTagCategory) → Bytes → Option HtmlTagCategory
meaning [] name = none
meaning ((heading_name, c) ∷ ms) name =
    let later = meaning ms name in if same heading_name name then some c else later

abbrev pub read_heading : Option Bytes → Option HtmlTagCategory
read_heading none = none
read_heading (some name) = meaning meanings name

abbrev pub void_follows : List Printed → Bool
void_follows (void_mark ∷ ps) = true
void_follows _ = false

-- A reader of the calls: each tag stands in the category of the last heading, and is void if
-- ` (void)` stands behind its name.
abbrev pub read_groups :
    Option HtmlTagCategory → List Printed → List (Option HtmlTagCategory × Bytes × Bool)
read_groups c [] = []
read_groups c (heading name ∷ ps) = read_groups (read_heading name) ps
read_groups c (tag_name name ∷ ps) = (c, name, void_follows ps) ∷ read_groups c ps
read_groups c (_ ∷ ps) = read_groups c ps

abbrev pub facts : HtmlTag → Option HtmlTagCategory × Bytes × Bool
facts t = (some t.category, t.name, void_type t.type == 1)

read_heading-category_name : (c : HtmlTagCategory) → read_heading (category_name c) ≡ some c
unfolding category_name same
read_heading-category_name category_document = refl
read_heading-category_name category_metadata = refl
read_heading-category_name category_sections = refl
read_heading-category_name category_heading = refl
read_heading-category_name category_text = refl
read_heading-category_name category_lists = refl
read_heading-category_name category_tables = refl
read_heading-category_name category_forms = refl
read_heading-category_name category_media = refl
read_heading-category_name category_embedded = refl
read_heading-category_name category_scripting = refl
read_heading-category_name category_interactive = refl

read_groups-print_tag :
    (c : Option HtmlTagCategory) (t : HtmlTag) (ps : List Printed)
    → read_groups c (print_tag t ++ ps) ≡ (c, t.name, void_type t.type == 1) ∷ read_groups c ps
unfolding print_tag
read_groups-print_tag c t ps = elim (Bool-cases (void_type t.type == 1)) [
  | inl void ↦ rw void refl
  | inr other ↦ rw other refl
]

-- A reader of what is printed for a list of tags, who knows what the names of the categories in the
-- headings mean and starts in the category that the loop starts in, finds every tag, in the order
-- of the list, with its category and whether it is void.
pub read_groups-print_tags :
    (c : HtmlTagCategory) (ts : List HtmlTag)
    → read_groups (some c) (print_tags c ts) ≡ map facts ts
unfolding print_tags
read_groups-print_tags c [] = refl
read_groups-print_tags c (t ∷ ts) =
    elim (Bool-cases (category_number t.category == category_number c)) [
      | inl same_category ↦
          let stays = category_number-injective t.category c same_category in
          rw same_category (
            read_groups-print_tag (some c) t (print_tags c ts)
            ∙ ap
                (λ d.
                  (some d, t.name, void_type t.type == 1) ∷ read_groups (some c) (print_tags c ts))
                (sym stays)
            ∙ ap (◌∷◌ (facts t)) (read_groups-print_tags c ts))
      | inr other ↦ rw other (
          ap (λ d. read_groups d (print_tag t ++ print_tags t.category ts))
            (read_heading-category_name t.category)
          ∙ read_groups-print_tag (some t.category) t (print_tags t.category ts)
          ∙ ap (◌∷◌ (facts t)) (read_groups-print_tags t.category ts))
    ]
