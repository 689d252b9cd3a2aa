-- ===== src/Marquee/Tests.antt =====
-- Runs of a drag over two files, and the instance of its theorem.
use vault_drive.Base.{
  ℕ, ◌+◌, ◌-◌, ◌*◌, min, max, ltb, Bool, true, false, String, none, some, List, [], ◌∷◌, ◌≡◌, refl,
  text_eq,
}
use vault_drive.Base.JsSet.{member}
use vault_drive.Marquee.{
  Numbers, Point, CachedItem, Marquee, Press, Move, handle_mouse_down, handle_mouse_move,
  handle_mouse_up, is_too_short,
}
use vault_drive.Marquee.Path.{drag, is_selected, handle_mouse_move-is_selected}

-- The natural numbers, for drags down and to the right.
abbrev naturals : Numbers
naturals = record {
  Number = ℕ;
  origin = 0;
  less = ltb;
  least = min;
  greatest = max;
  minus = λ a b. a - b;
  is_short = λ x y. ltb (x * x + y * y) 25;
}

abbrev point : ℕ → ℕ → Point naturals
point x y = record { x = x; y = y }

abbrev row_at : String → ℕ → CachedItem naturals
row_at id top = record {
  id = id;
  rect = record { left = 0; top = top; right = 100; bottom = top + 9 };
}

abbrev idle : Marquee naturals
idle = record {
  lasso_rect = none;
  is_tracking = false;
  start_pos = point 0 0;
  cached_items = [];
  initial_selected = [];
  modifier = (false, false);
  user_select = true;
}

abbrev press_at : ℕ → ℕ → Press naturals
press_at x y = record {
  button = 0;
  on_control = false;
  container = some (true, row_at "a" 10 ∷ row_at "b" 20 ∷ row_at "c" 30 ∷ []);
  client = point x y;
  shift_key = false;
  alt_key = false;
}

abbrev move_to : ℕ → ℕ → Bool → Bool → Move naturals
move_to x y shift_key alt_key = record {
  container = none;
  client = point x y;
  shift_key = shift_key;
  alt_key = alt_key;
}

abbrev pressed : Marquee naturals
pressed = handle_mouse_down naturals true ("c" ∷ []) (press_at 5 5) idle

-- Down over all three and back over the first, under Shift.
abbrev moves_made : List (Move naturals)
moves_made = move_to 7 7 false false ∷ move_to 50 35 false true ∷ []

reported :
    (handle_mouse_move naturals (move_to 20 12 true false) (drag naturals moves_made pressed)).0
    ≡ some ("c" ∷ "a" ∷ [])
unfolding handle_mouse_down handle_mouse_move drag
reported = refl

-- A drag of four pixels selects nothing, one of five does.
four_pixels : (handle_mouse_move naturals (move_to 9 5 false false) pressed).0 ≡ none
unfolding handle_mouse_down handle_mouse_move
four_pixels = refl

five_pixels : (handle_mouse_move naturals (move_to 5 10 false false) pressed).0 ≡ some ("a" ∷ [])
unfolding handle_mouse_down handle_mouse_move
five_pixels = refl

released : (handle_mouse_up naturals pressed).is_tracking ≡ false
unfolding handle_mouse_down
released = refl

tracked : pressed.is_tracking ≡ true
unfolding handle_mouse_down
tracked = refl

long_enough : is_too_short naturals none (point 20 12) (drag naturals moves_made pressed) ≡ false
unfolding handle_mouse_down handle_mouse_move drag
long_enough = refl

handle_mouse_move-is_selected_example :
    (selection : List String) × ((handle_mouse_move naturals
        (move_to 20 12 true false)
        (drag naturals moves_made pressed)).0
      ≡ some selection)
    × ((id : String)
        → member id selection ≡ is_selected naturals (move_to 20 12 true false) pressed id)
handle_mouse_move-is_selected_example =
    handle_mouse_move-is_selected naturals moves_made (move_to 20 12 true false) pressed tracked
      long_enough
