-- ===== src/RescueLedger/Refines.antt =====
-- The ledger as a map from identifiers to transfers.
use vault_drive.Base.{
  Bool, true, false, String, Option, none, some, List, [], ◌∷◌, ◌++◌, find, Outcome, ok, throw, ◌≡◌,
  refl, sym, ap, fun_ext, ◌∙◌, inl, inr, if◌then◌else◌, ◌==◌, text_eq, ==→eq, ==_refl, Bool-cases,
}
use vault_drive.RescueLedger.{
  StagedTransfer, ObjectStore, Access, unopened, request_fails, request_succeeds, other_than,
  Ledger, save_staged_transfer, get_staged_transfers, remove_staged_transfer,
  clear_staged_transfers,
}

pub data Command : Type 0 where
  save : StagedTransfer → Command
  remove : String → Command
  clear_all : Command

-- The transfer of an identifier, among those listed.
abbrev pub listed : List StagedTransfer → String → Option StagedTransfer
listed transfers id = find (λ t. t.id == id) transfers

-- What is documented of an object store: it is a map by keys.
pub record Documented (s : ObjectStore) : Type 0 where
  pub listed-empty : (id : String) → listed (s.get_all s.empty) id ≡ none
  pub listed-put :
      (item : StagedTransfer) (c : s.Contents) (id : String)
      → listed (s.get_all (s.put item c)) id
        ≡ (if item.id == id then some item else listed (s.get_all c) id)
  pub listed-delete :
      (key : String) (c : s.Contents) (id : String)
      → listed (s.get_all (s.delete key c)) id
        ≡ (if key == id then none else listed (s.get_all c) id)
  pub listed-clear : (c : s.Contents) (id : String) → listed (s.get_all (s.clear c)) id ≡ none

-- The map's own step.
abbrev pub map_step : Command → (String → Option StagedTransfer) → String → Option StagedTransfer
map_step (save item) m id = if item.id == id then some item else m id
map_step (remove key) m id = if key == id then none else m id
map_step clear_all m id = none

-- The map after those of the calls that count.
unfoldable pub map_run :
    (Access → Bool)
    → List (Access × Command)
    → (String → Option StagedTransfer)
    → String
    → Option StagedTransfer
map_run counts [] m = m
map_run counts ((access, command) ∷ calls) m =
    map_run counts calls (if counts access then map_step command m else m)

abbrev pub is_unopened : Access → Bool
is_unopened unopened = true
is_unopened _ = false

abbrev pub is_success : Access → Bool
is_success request_succeeds = true
is_success _ = false

abbrev pub nothing : String → Option StagedTransfer
nothing id = none

module _ (s : ObjectStore) where
  abbrev pub call : Access → Command → Ledger s → Ledger s
  call access (save item) l = (save_staged_transfer s access item l).1
  call access (remove id) l = (remove_staged_transfer s access id l).1
  call access clear_all l = (clear_staged_transfers s access l).1

  unfoldable pub run : List (Access × Command) → Ledger s → Ledger s
  unfolding save_staged_transfer remove_staged_transfer clear_staged_transfers
  run [] l = l
  run ((access, command) ∷ calls) l = run calls (call access command l)

not_same : (a b c : String) → (a == b) ≡ false → (a == c) ≡ true → (b == c) ≡ false
not_same a b c different same = elim (Bool-cases (b == c)) [
  | inl also ↦
      let e : a ≡ b = ==→eq a c same ∙ sym (==→eq b c also) in
      cc (different, ==_refl b, ap (λ x. x == b) e)
  | inr other ↦ other
]

pub listed-other_than :
    (key id : String) (transfers : List StagedTransfer)
    → listed (other_than key transfers) id ≡ (if key == id then none else listed transfers id)
listed-other_than key id [] = elim (Bool-cases (key == id)) [
  | inl same ↦ rw same refl
  | inr other ↦ rw other refl
]
listed-other_than key id (t ∷ transfers) =
    let later = listed-other_than key id transfers in
    elim (Bool-cases (t.id == key)) [
      | inl dropped ↦ rw dropped (later ∙ dropped_step dropped)
      | inr kept ↦ elim (Bool-cases (t.id == id)) [
        | inl here ↦ rw (kept, not_same t.id key id kept here) (rw here refl)
        | inr elsewhere ↦ rw (kept, elsewhere) later
      ]
    ]
  where
    dropped_step :
        (t.id == key) ≡ true
        → (if key == id then none else listed transfers id)
          ≡ (if key == id then none else listed (t ∷ transfers) id)
    dropped_step dropped = elim (Bool-cases (key == id)) [
      | inl same ↦ rw same refl
      | inr other ↦ rw (==→eq t.id key dropped, other) refl
    ]

listed-append :
    (transfers : List StagedTransfer) (item : StagedTransfer) (id : String)
    → listed (transfers ++ item ∷ []) id ≡ elim (listed transfers id) [
      | none ↦ if item.id == id then some item else none
      | some t ↦ some t
    ]
listed-append [] item id = refl
listed-append (t ∷ transfers) item id = elim (Bool-cases (t.id == id)) [
  | inl here ↦ rw here refl
  | inr elsewhere ↦ rw elsewhere (listed-append transfers item id)
]

pub listed-saved :
    (item : StagedTransfer) (id : String) (transfers : List StagedTransfer)
    → listed (other_than item.id transfers ++ item ∷ []) id
      ≡ (if item.id == id then some item else listed transfers id)
listed-saved item id transfers =
    let kept = other_than item.id transfers in
    listed-append kept item id
    ∙ rw (listed-other_than item.id id transfers) (picked (listed transfers id) (item.id == id))
  where
    picked :
        (found : Option StagedTransfer) (same : Bool)
        → elim (if same then none else found) as (λ _. Option StagedTransfer) [
          | none ↦ if same then some item else none
          | some t ↦ some t
        ]
          ≡ (if same then some item else found)
    picked found true = refl
    picked none false = refl
    picked (some t) false = refl

module _ (s : ObjectStore) (d : Documented s) where
  -- What one call does to the memory and to the database, as maps.
  call-memory :
      (access : Access) (command : Command) (l : Ledger s) (id : String)
      → listed (call s access command l).memory_fallback id
        ≡ (if is_unopened access
              then map_step command (listed l.memory_fallback)
              else listed l.memory_fallback)
            id
  unfolding save_staged_transfer remove_staged_transfer clear_staged_transfers
  call-memory unopened (save item) l id = listed-saved item id l.memory_fallback
  call-memory unopened (remove key) l id = listed-other_than key id l.memory_fallback
  call-memory unopened clear_all l id = refl
  call-memory (request_fails error) (save item) l id = refl
  call-memory (request_fails error) (remove key) l id = refl
  call-memory (request_fails error) clear_all l id = refl
  call-memory request_succeeds (save item) l id = refl
  call-memory request_succeeds (remove key) l id = refl
  call-memory request_succeeds clear_all l id = refl

  call-stored :
      (access : Access) (command : Command) (l : Ledger s) (id : String)
      → listed (s.get_all (call s access command l).stored) id
        ≡ (if is_success access
              then map_step command (listed (s.get_all l.stored))
              else listed (s.get_all l.stored))
            id
  unfolding save_staged_transfer remove_staged_transfer clear_staged_transfers
  call-stored unopened (save item) l id = refl
  call-stored unopened (remove key) l id = refl
  call-stored unopened clear_all l id = refl
  call-stored (request_fails error) (save item) l id = refl
  call-stored (request_fails error) (remove key) l id = refl
  call-stored (request_fails error) clear_all l id = refl
  call-stored request_succeeds (save item) l id = d.listed-put item l.stored id
  call-stored request_succeeds (remove key) l id = d.listed-delete key l.stored id
  call-stored request_succeeds clear_all l id = d.listed-clear l.stored id

  run-memory :
      (calls : List (Access × Command)) (l : Ledger s)
      → (λ id. listed (run s calls l).memory_fallback id)
        ≡ map_run is_unopened calls (listed l.memory_fallback)
  unfolding run map_run
  run-memory [] l = refl
  run-memory ((access, command) ∷ calls) l =
      run-memory calls (call s access command l)
      ∙ ap (map_run is_unopened calls) (fun_ext (call-memory access command l))

  run-stored :
      (calls : List (Access × Command)) (l : Ledger s)
      → (λ id. listed (s.get_all (run s calls l).stored) id)
        ≡ map_run is_success calls (listed (s.get_all l.stored))
  unfolding run map_run
  run-stored [] l = refl
  run-stored ((access, command) ∷ calls) l =
      run-stored calls (call s access command l)
      ∙ ap (map_run is_success calls) (fun_ext (call-stored access command l))

-- The identifiers' transfers in an answer.
abbrev pub answered : Outcome (List StagedTransfer) → Outcome (String → Option StagedTransfer)
answered (ok transfers) = ok (listed transfers)
answered (throw error) = throw error

-- Over an object store that is a map by keys, after any calls from an empty ledger, a listing without the
-- database answers the map of the calls that did not open it, and a listing from the database that of the
-- calls that succeeded there; a call whose request failed is in neither, and a listing that fails throws.
pub get_staged_transfers-map_run :
    (s : ObjectStore)
    → Documented s
    → (calls : List (Access × Command)) (error : String)
    → let start : Ledger s = record { memory_fallback = []; stored = s.empty } in
      (answered (get_staged_transfers s unopened (run s calls start))
        ≡ ok (map_run is_unopened calls nothing))
      × (answered (get_staged_transfers s request_succeeds (run s calls start))
          ≡ ok (map_run is_success calls nothing))
      × (answered (get_staged_transfers s (request_fails error) (run s calls start)) ≡ throw error)
unfolding get_staged_transfers
get_staged_transfers-map_run s d calls error =
    let start : Ledger s = record { memory_fallback = []; stored = s.empty } in
    (
      ap ok (run-memory s d calls start),
      ap ok (run-stored s d calls start ∙ ap (map_run is_success calls) (fun_ext d.listed-empty)),
      refl,
    )
