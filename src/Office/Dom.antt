-- ===== src/Office/Dom.antt =====
-- utils/filemon-office.ts: elements and attributes by name. The parsed document is a parameter.
use vault_drive.Base.{
  Bool, ◌||◌, Option, none, some, List, [], ◌∷◌, map, any, filter, find, head?, get_last?, get_or,
  ◌==◌, number_eq, list_eq,
}
use vault_drive.Base.JsText.{Text, split}

pub record Attr : Type 0 where
  pub name : Text
  pub local_name : Text
  pub value : Text

-- `DOMParser` and the trees that it makes; a document is a node as well. `lower` is `toLowerCase`.
pub record Dom : Type 1 where
  pub Element : Type 0
  pub parse_from_string : Text → Element
  pub has_parse_error : Element → Bool
  pub document_element : Element → Option Element
  pub descendants : Element → List Element
  pub attributes : Element → List Attr
  pub local_name : Element → Text
  pub tag_name : Element → Text
  pub text_content : Element → Text
  pub is_parent_of : Element → Element → Bool
  pub lower : Text → Text

-- `a || b` of texts.
abbrev pub or_units : Text → Text → Text
or_units [] b = b
or_units (c ∷ a) b = c ∷ a

module _ (dom : Dom) where
  -- The first of the names that the element has as an attribute, and not empty.
  unfoldable pub direct_attr : List Text → List Attr → Text
  direct_attr [] attributes = []
  direct_attr (name ∷ names) attributes =
      let later = direct_attr names attributes in
      elim (find (λ (a : Attr). a.name == name) attributes) [
        | none ↦ later
        | some a ↦ or_units a.value later
      ]

  unfoldable pub get_attr_ci : Option dom.Element → List Text → Text
  unfolding direct_attr
  get_attr_ci none names = []
  get_attr_ci (some el) names =
      let lowered = map dom.lower names in
      let has = λ (t : Text). any (λ n. n == t) lowered in
      let folded =
        find (λ (a : Attr). has (dom.lower a.name) || has (dom.lower a.local_name))
          (dom.attributes el) in
      or_units (direct_attr names (dom.attributes el))
        (elim folded [ none ↦ [] | some a ↦ a.value ])

  unfoldable pub find_elements_by_local_name : dom.Element → Text → List dom.Element
  unfolding split
  find_elements_by_local_name root name =
      filter
        (λ el.
          dom.lower
            (or_units (dom.local_name el) (get_or (get_last? (split b':' (dom.tag_name el))) []))
          == dom.lower name)
        (dom.descendants root)

  -- `findElementsByLocalName(…)[0]`
  abbrev pub first_element : dom.Element → Text → Option dom.Element
  first_element root name = head? (find_elements_by_local_name root name)
