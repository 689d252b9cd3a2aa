-- ===== src/Marquee.antt =====
-- hooks/useMarqueeSelection.ts: files are selected by dragging a rectangle over them. The elements of
-- the page are given as what the code asks of them, and the coordinates' numbers are a parameter.
pub mod Path
mod Tests
use vault_drive.Base.{
  ℕ, Bool, true, false, not, ◌&&◌, ◌||◌, String, Option, none, some, List, [], ◌∷◌, map,
  if◌then◌else◌, is_some, ◌==◌, number_eq, text_eq,
}
use vault_drive.Base.JsSet.{add, remove, add_all, of_list}

-- JavaScript's numbers; `is_short` is `Math.hypot(x, y) < 5`.
pub record Numbers : Type 1 where
  pub Number : Type 0
  pub origin : Number
  pub less : Number → Number → Bool
  pub least : Number → Number → Number
  pub greatest : Number → Number → Number
  pub minus : Number → Number → Number
  pub is_short : Number → Number → Bool

-- `ids.forEach((id) => set.delete(id))`
unfoldable pub remove_all : List String → List String → List String
unfolding remove
remove_all [] set = set
remove_all (id ∷ ids) set = remove_all ids (remove id set)

module _ (n : Numbers) where
  pub record Point : Type 0 where
    pub x : n.Number
    pub y : n.Number

  pub record Rect : Type 0 where
    pub left : n.Number
    pub top : n.Number
    pub right : n.Number
    pub bottom : n.Number

  pub record LassoRect : Type 0 where
    pub left : n.Number
    pub top : n.Number
    pub width : n.Number
    pub height : n.Number
    pub is_selecting : Bool

  pub record CachedItem : Type 0 where
    pub id : String
    pub rect : Rect

  -- The hook's state and references. `user_select` is false where the page's text cannot be selected.
  pub record Marquee : Type 0 where
    pub lasso_rect : Option LassoRect
    pub is_tracking : Bool
    pub start_pos : Point
    pub cached_items : List CachedItem
    pub initial_selected : List String
    pub modifier : Bool × Bool
    pub user_select : Bool

  -- A press: on which button, whether on a control, and, if the container is there, whether inside it
  -- and which elements it has.
  pub record Press : Type 0 where
    pub button : ℕ
    pub on_control : Bool
    pub container : Option (Bool × List CachedItem)
    pub client : Point
    pub shift_key : Bool
    pub alt_key : Bool

  pub record Move : Type 0 where
    pub container : Option Rect
    pub client : Point
    pub shift_key : Bool
    pub alt_key : Bool

  abbrev pub is_outside : Option (Bool × List CachedItem) → Bool
  is_outside none = false
  is_outside (some (inside, elements)) = not inside

  abbrev pub cached_of : Option (Bool × List CachedItem) → List CachedItem → List CachedItem
  cached_of none before = before
  cached_of (some (inside, elements)) before = elements

  unfoldable pub handle_mouse_down : Bool → List String → Press → Marquee → Marquee
  handle_mouse_down enabled selected_ids e m =
      if not enabled || not (e.button == 0) || e.on_control || is_outside e.container
      then m
      else record m {
        is_tracking = true;
        start_pos = e.client;
        initial_selected = selected_ids;
        modifier = (e.shift_key, e.alt_key);
        cached_items = cached_of e.container m.cached_items;
      }

  -- `currentX` and `currentY`: inside the container, if it has a size.
  unfoldable pub current : Option Rect → Point → Point
  current none client = client
  current (some bounds) client =
      if n.less n.origin (n.minus bounds.right bounds.left)
        && n.less n.origin (n.minus bounds.bottom bounds.top)
      then record {
        x = n.greatest bounds.left (n.least bounds.right client.x);
        y = n.greatest bounds.top (n.least bounds.bottom client.y);
      }
      else client

  -- The rectangle between two points.
  abbrev pub span : Point → Point → Rect
  span a b = record {
    left = n.least a.x b.x;
    top = n.least a.y b.y;
    right = n.greatest a.x b.x;
    bottom = n.greatest a.y b.y;
  }

  abbrev pub intersects : Rect → Rect → Bool
  intersects lasso rect = not (
      n.less lasso.right rect.left
      || n.less rect.right lasso.left
      || n.less lasso.bottom rect.top
      || n.less rect.bottom lasso.top)

  unfoldable pub intersected_ids : Rect → List CachedItem → List String → List String
  unfolding add
  intersected_ids lasso [] ids = ids
  intersected_ids lasso (item ∷ items) ids =
      intersected_ids lasso items (if intersects lasso item.rect then add item.id ids else ids)

  unfoldable pub is_too_short : Option Rect → Point → Marquee → Bool
  unfolding current
  is_too_short container client m =
      let at = current container client in
      not (is_some m.lasso_rect)
      && n.is_short (n.minus at.x m.start_pos.x) (n.minus at.y m.start_pos.y)

  -- The selection that the hook reports, if any, and its state.
  unfoldable pub handle_mouse_move : Move → Marquee → Option (List String) × Marquee
  unfolding current is_too_short intersected_ids remove_all add_all
  handle_mouse_move e m =
      let lasso = span m.start_pos (current e.container e.client) in
      let drawn : LassoRect = record {
        left = lasso.left;
        top = lasso.top;
        width = n.greatest n.origin (n.minus lasso.right lasso.left);
        height = n.greatest n.origin (n.minus lasso.bottom lasso.top);
        is_selecting = true;
      } in
      let ids = intersected_ids lasso m.cached_items [] in
      let selection =
        if e.shift_key
        then add_all ids m.initial_selected
        else if e.alt_key
        then remove_all ids m.initial_selected
        else ids in
      if not m.is_tracking
      then (none, m)
      else if is_too_short e.container e.client m
      then (none, m)
      else (some selection, record m { lasso_rect = some drawn; user_select = false })

  abbrev pub stop : Marquee → Marquee
  stop m =
      if m.is_tracking
      then record m {
        is_tracking = false;
        lasso_rect = none;
        cached_items = [];
        user_select = true;
      }
      else m

  abbrev pub handle_mouse_up : Marquee → Marquee
  handle_mouse_up = stop

  abbrev pub handle_blur : Marquee → Marquee
  handle_blur = stop

  -- The effect's cleanup, which runs after each change of `lassoRect`.
  abbrev pub clean_up : Marquee → Marquee
  clean_up m = record m { user_select = true }
