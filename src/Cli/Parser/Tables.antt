-- ===== src/Cli/Parser/Tables.antt =====
-- The tables of the parser of src/cli/parse.cpp: the productions of src/cli/grammar.bisonc++, and
-- for each state what follows each token.
use de_co_f.Base.{
  ℕ, zero, suc, Bool, true, false, Option, none, some, List, [], ◌∷◌, ◌==◌, if◌then◌else◌,
}

-- `d_token__`: _UNDETERMINED_, _EOF_, or the number of a token or non-terminal.
pub data Token : Type 0 where
  undetermined end_of_input : Token
  token : ℕ → Token

unfoldable pub same_token : Token → Token → Bool
same_token undetermined undetermined = true
same_token end_of_input end_of_input = true
same_token (token m) (token n) = m == n
same_token _ _ = false

-- The members of `StateType` that the tables have.
pub data StateType : Type 0 where
  req_token def_red req_def : StateType

-- `d_type & REQ_TOKEN`.
unfoldable pub needs_token : StateType → Bool
needs_token req_token = true
needs_token def_red = false
needs_token req_def = true

-- `d_type & ERR_ITEM`.
unfoldable pub has_error_item : StateType → Bool
has_error_item req_token = false
has_error_item def_red = false
has_error_item req_def = false

-- `d_action`: positive, negative (the production), or 0.
pub data ParserAction : Type 0 where
  shift : ℕ → ParserAction
  reduce : ℕ → ParserAction
  accept : ParserAction

-- The elements of a state's array: the first, those between, and the last.
pub record ParserState : Type 0 where
  pub type_of : StateType
  pub entries : List (Token × ParserAction)
  pub default_reduction : Option ℕ

abbrev state : StateType → List (Token × ParserAction) → Option ℕ → ParserState
state type_of entries default_reduction = record {
  type_of = type_of;
  entries = entries;
  default_reduction = default_reduction;
}

-- `s_state`.
abbrev states : List ParserState
states =
    state req_token
      ((token 268, shift 1)
        ∷ (token 269, shift 2)
        ∷ (token 272, shift 3)
        ∷ (token 273, shift 4)
        ∷ (token 257, shift 5)
        ∷ (token 258, shift 6)
        ∷ (token 259, shift 7)
        ∷ (token 260, shift 8)
        ∷ (token 261, shift 9)
        ∷ (token 91, shift 10)
        ∷ (token 123, shift 11)
        ∷ [])
      none
    ∷ state req_token ((end_of_input, accept) ∷ []) none
    ∷ state def_red ([]) (some 1)
    ∷ state def_red ([]) (some 2)
    ∷ state def_red ([]) (some 3)
    ∷ state def_red ([]) (some 4)
    ∷ state def_red ([]) (some 5)
    ∷ state def_red ([]) (some 6)
    ∷ state def_red ([]) (some 7)
    ∷ state def_red ([]) (some 8)
    ∷ state req_def
        ((token 270, shift 12)
          ∷ (token 271, shift 13)
          ∷ (token 269, shift 14)
          ∷ (token 257, shift 5)
          ∷ (token 258, shift 6)
          ∷ (token 259, shift 7)
          ∷ (token 260, shift 8)
          ∷ (token 261, shift 9)
          ∷ [])
        (some 9)
    ∷ state req_def
        ((token 270, shift 15)
          ∷ (token 271, shift 13)
          ∷ (token 269, shift 14)
          ∷ (token 257, shift 5)
          ∷ (token 258, shift 6)
          ∷ (token 259, shift 7)
          ∷ (token 260, shift 8)
          ∷ (token 261, shift 9)
          ∷ [])
        (some 9)
    ∷ state req_token ((token 93, shift 16) ∷ []) none
    ∷ state req_def ((token 44, shift 17) ∷ []) (some 10)
    ∷ state def_red ([]) (some 11)
    ∷ state req_token ((token 125, shift 18) ∷ []) none
    ∷ state def_red ([]) (some 13)
    ∷ state req_token
        ((token 269, shift 19)
          ∷ (token 257, shift 5)
          ∷ (token 258, shift 6)
          ∷ (token 259, shift 7)
          ∷ (token 260, shift 8)
          ∷ (token 261, shift 9)
          ∷ [])
        none
    ∷ state def_red ([]) (some 14)
    ∷ state def_red ([]) (some 12)
    ∷ []

abbrev element_at : {A : Type 0} → A → List A → ℕ → A
element_at d [] n = d
element_at d (x ∷ xs) zero = x
element_at d (x ∷ xs) (suc n) = element_at d xs n

-- `s_state[d_state__]`.
unfoldable pub state_at : ℕ → ParserState
state_at n = element_at (state req_token [] none) states n

-- `s_productionInfo`: the non-terminal, and the number of elements.
abbrev productions : List (ℕ × ℕ)
productions =
    (0, 0)
    ∷ (268, 1)
    ∷ (268, 1)
    ∷ (268, 1)
    ∷ (269, 1)
    ∷ (269, 1)
    ∷ (269, 1)
    ∷ (269, 1)
    ∷ (269, 1)
    ∷ (270, 0)
    ∷ (270, 1)
    ∷ (271, 1)
    ∷ (271, 3)
    ∷ (272, 3)
    ∷ (273, 3)
    ∷ (274, 1)
    ∷ []

unfoldable pub production_info : ℕ → ℕ × ℕ
production_info n = element_at (0, 0) productions n

abbrev pub default_action : Option ℕ → Option ParserAction
default_action none = none
default_action (some production) = some (reduce production)

unfoldable pub find_action : Token → List (Token × ParserAction) → Option ℕ → Option ParserAction
unfolding same_token
find_action t [] default_reduction = default_action default_reduction
find_action t ((u, action) ∷ entries) default_reduction =
    if same_token u t then some action else find_action t entries default_reduction

-- `lookup`; `none` is UNEXPECTED_TOKEN__.
unfoldable pub lookup : Token → ℕ → Option ParserAction
unfolding state_at find_action
lookup t n = let s = state_at n in find_action t s.entries s.default_reduction
