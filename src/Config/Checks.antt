-- ===== src/Config/Checks.antt =====
-- What src/config.rs's `validate` and lookups guarantee to the state machine.
use arrow_kanban.Prelude.{
  String, ◌≡◌, ◌≢◌, false, List, [], ◌∷◌, arith, All, contains, find-All, ok, eq_iff, ◌==◌,
}
use arrow_kanban.Config.{
  BoardConfig, ConfigFile, is_empty, validate_board, validate_boards, validate, board,
  is_valid_state_for_type, is_valid_state, states_for_type,
}

-- A board that `validate` accepts.
abbrev pub Usable : BoardConfig → Type 0
Usable b = (b.states ≢ []) × (b.scan_paths ≢ [])

ne-nil_of_is_empty {ℓ} : {A : Type ℓ} (xs : List A) → is_empty xs ≡ false → xs ≢ []
ne-nil_of_is_empty [] h e = cc
ne-nil_of_is_empty (x ∷ xs) h e = cc

validate_board-Usable : (b : BoardConfig) → validate_board b ≡ ok tt → Usable b
unfolding validate_board
validate_board-Usable b h =
    (ne-nil_of_is_empty b.states (ground arith), ne-nil_of_is_empty b.scan_paths (ground arith))

validate_boards-Usable : (bs : List BoardConfig) → validate_boards bs ≡ ok tt → All Usable bs
unfolding validate_boards
validate_boards-Usable [] h = tt
validate_boards-Usable (b ∷ bs) h =
    (validate_board-Usable b (ground arith), validate_boards-Usable bs (ground arith))

-- A configuration that `validate` accepts has a board, and each of its boards has a state and a path
-- to scan.
pub validate-Usable : (c : ConfigFile) → validate c ≡ ok tt → (c.boards ≢ []) × All Usable c.boards
unfolding validate
validate-Usable c h =
    (ne-nil_of_is_empty c.boards (ground arith), validate_boards-Usable c.boards (ground arith))

-- A board looked up by name in a configuration that `validate` accepts has that name, a state and a
-- path to scan.
pub board-Usable :
    (c : ConfigFile) (name : String) (b : BoardConfig)
    → validate c ≡ ok tt
    → board c name ≡ ok b
    → Usable b × (b.name ≡ name)
unfolding board
board-Usable c name b h e =
    let all = (validate-Usable c h).1 in
    let found = find-All Usable (λ x. x.name == name) c.boards b all (ground arith) in
    (found.0, (eq_iff b.name name).0 found.1)

-- The type-specific test agrees with the list that the state machine reads for the type.
pub is_valid_state_for_type-eq-contains :
    (b : BoardConfig) (state item_type : String)
    → is_valid_state_for_type b state item_type ≡ contains (states_for_type b item_type) state
unfolding is_valid_state_for_type is_valid_state states_for_type
is_valid_state_for_type-eq-contains b state item_type = ground arith
