-- ===== src/Marquee/Path.antt =====
-- The selection that a drag reports, whatever its path.
use vault_drive.Base.{
  Bool, true, false, not, ◌&&◌, ◌||◌, String, some, List, [], ◌∷◌, any, ◌≡◌, refl, ◌∙◌, inl, inr,
  arith, if◌then◌else◌, ◌==◌, text_eq, Bool-cases,
}
use vault_drive.Base.JsSet.{
  member, add, remove, add_all, member-add, member-remove, member-add_all, member-cons,
}
use vault_drive.Marquee.{
  Numbers, Rect, CachedItem, Marquee, Move, current, span, intersects, intersected_ids, remove_all,
  is_too_short, handle_mouse_move, clean_up,
}

module _ (n : Numbers) where
  -- Whether an element of that identifier is under the rectangle.
  abbrev pub is_covered : Rect n → List (CachedItem n) → String → Bool
  is_covered lasso items id = any (λ item. item.id == id && intersects n lasso item.rect) items

  -- What a drag from `start` to the point of the event selects.
  abbrev pub is_selected : Move n → Marquee n → String → Bool
  is_selected e m id =
      let covered =
        is_covered (span n m.start_pos (current n e.container e.client)) m.cached_items id in
      if e.shift_key
      then member id m.initial_selected || covered
      else if e.alt_key
      then member id m.initial_selected && not covered
      else covered

  -- The moves of a drag, with the cleanup that follows each.
  unfoldable pub drag : List (Move n) → Marquee n → Marquee n
  unfolding handle_mouse_move
  drag [] m = m
  drag (e ∷ moves) m = drag moves (clean_up n (handle_mouse_move n e m).1)

  member-intersected_ids :
      (lasso : Rect n) (items : List (CachedItem n)) (ids : List String) (id : String)
      → member id (intersected_ids n lasso items ids) ≡ (is_covered lasso items id || member id ids)
  unfolding intersected_ids
  member-intersected_ids lasso [] ids id = refl
  member-intersected_ids lasso (item ∷ items) ids id =
      elim (Bool-cases (intersects n lasso item.rect)) [
        | inl covered ↦
            rw (intersected_ids, covered)
              (ground (
                arith,
                member-intersected_ids lasso items (add item.id ids) id,
                member-add item.id id ids,
              ))
        | inr apart ↦
            rw (intersected_ids, apart) (ground (arith, member-intersected_ids lasso items ids id))
      ]

  -- What a drag leaves as it was.
  abbrev IsSameDrag : Marquee n → Marquee n → Type 0
  IsSameDrag m m' =
      (m'.is_tracking ≡ m.is_tracking)
      × (m'.start_pos ≡ m.start_pos)
      × (m'.cached_items ≡ m.cached_items)
      × (m'.initial_selected ≡ m.initial_selected)

  handle_mouse_move-IsSameDrag :
      (e : Move n) (m : Marquee n) → IsSameDrag m (handle_mouse_move n e m).1
  unfolding handle_mouse_move
  handle_mouse_move-IsSameDrag e m = elim (Bool-cases m.is_tracking) [
    | inl tracking ↦ elim (Bool-cases (is_too_short n e.container e.client m)) [
      | inl short ↦ rw (tracking, short) (refl, refl, refl, refl)
      | inr long ↦ rw (tracking, long) (refl, refl, refl, refl)
    ]
    | inr idle ↦ rw idle (refl, refl, refl, refl)
  ]

  drag-IsSameDrag : (moves : List (Move n)) (m : Marquee n) → IsSameDrag m (drag moves m)
  unfolding drag
  drag-IsSameDrag [] m = (refl, refl, refl, refl)
  drag-IsSameDrag (e ∷ moves) m =
      let (a, b, c, d) = handle_mouse_move-IsSameDrag e m in
      let (a', b', c', d') = drag-IsSameDrag moves (clean_up n (handle_mouse_move n e m).1) in
      (a' ∙ a, b' ∙ b, c' ∙ c, d' ∙ d)

member-remove_all :
    (ids set : List String) (id : String)
    → member id (remove_all ids set) ≡ (member id set && not (member id ids))
unfolding remove_all
member-remove_all [] set id = unfold member in ground arith
member-remove_all (x ∷ ids) set id =
    ground
      (arith, member-remove_all ids (remove x set) id, member-remove x id set, member-cons x id ids)

module _ (n : Numbers) where
  handle_mouse_move-selects :
      (e : Move n) (m : Marquee n)
      → m.is_tracking ≡ true
      → is_too_short n e.container e.client m ≡ false
      → (selection : List String) × ((handle_mouse_move n e m).0 ≡ some selection)
        × ((id : String) → member id selection ≡ is_selected n e m id)
  unfolding handle_mouse_move
  handle_mouse_move-selects e m tracking long =
      let lasso = span n m.start_pos (current n e.container e.client) in
      let ids = intersected_ids n lasso m.cached_items [] in
      let covers : (id : String) → member id ids ≡ is_covered n lasso m.cached_items id =
        λ id. ground (arith, member-intersected_ids n lasso m.cached_items [] id, member-nil id) in
      elim (Bool-cases e.shift_key) [
        | inl shift ↦ (
          add_all ids m.initial_selected,
          rw (tracking, long, shift) refl,
          λ id. rw shift (ground (arith, member-add_all ids id m.initial_selected, covers id)),
        )
        | inr no_shift ↦ elim (Bool-cases e.alt_key) [
          | inl alt ↦ (
            remove_all ids m.initial_selected,
            rw (tracking, long, no_shift, alt) refl,
            λ id.
                rw (no_shift, alt)
                  (ground (arith, member-remove_all ids m.initial_selected id, covers id)),
          )
          | inr no_alt ↦ (
            ids,
            rw (tracking, long, no_shift, no_alt) refl,
            λ id. rw (no_shift, no_alt) (covers id),
          )
        ]
      ]
    where
      member-nil : (id : String) → member id [] ≡ false
      member-nil id = unfold member in refl

-- In a drag, after whatever moves, a move that is not too short reports a selection of the files that the
-- rectangle from the drag's start to that move's point covers, with those that were selected at the start
-- under Shift, and taken from those under Alt: the moves before and their modifiers leave no trace.
pub handle_mouse_move-is_selected :
    (n : Numbers) (moves : List (Move n)) (e : Move n) (m : Marquee n)
    → m.is_tracking ≡ true
    → is_too_short n e.container e.client (drag n moves m) ≡ false
    → (selection : List String) × ((handle_mouse_move n e (drag n moves m)).0 ≡ some selection)
      × ((id : String) → member id selection ≡ is_selected n e m id)
handle_mouse_move-is_selected n moves e m tracking long =
    let (same, start, items, initial) = drag-IsSameDrag n moves m in
    let (selection, reported, members) =
      handle_mouse_move-selects n e (drag n moves m) (same ∙ tracking) long in
    (selection, reported, λ id. members id ∙ rw (start, items, initial) refl)
