-- ===== src/Action.antt =====
-- action/action.go, actions.go, marshal.go and unmarshal.go: the LIST-OF-ACTIONS of an ACK.
-- A `Type` and a `Scope` are bytes.
pub mod Safety
pub mod Encoding
pub mod Wire
mod Runs
use spop.Base.{
  ℕ, zero, suc, ◌+◌, ◌^◌, ◌<◌, ◌≤◌, ◌≡◌, ◌⊎◌, Bool, true, false, not, ◌||◌, List, [], ◌∷◌, ◌++◌,
  Option, none, some, Result, ok, err, fault, out_of_fuel, ◌>>=◌, ◌>>◌, refuse_if, Error,
  unexpected_action_type, unknown_action_type, missing_nb_args, wrong_nb_args, missing_var_scope,
  unknown_scope, truncated_var_name, var_name_too_long, bad_var_value, ltb, ◌==◌, if◌then◌else◌,
  length, slice_to, slice_from, first,
}
use spop.Varint.{uvarint_bytes, uvarint}
use spop.TypedData.{Value, null, encode, decode, IsString, IsValue}

pub record Action : Type 0 where
  pub type : ℕ
  pub scope : ℕ
  pub name : List ℕ
  pub value : Value

abbrev pub nb_vars_set_var : ℕ
nb_vars_set_var = 0x03

abbrev pub nb_vars_unset_var : ℕ
nb_vars_unset_var = 0x02

abbrev pub type_set_var : ℕ
type_set_var = 0x01

abbrev pub type_unset_var : ℕ
type_unset_var = 0x02

abbrev pub scope_process : ℕ
scope_process = 0x00

abbrev pub scope_session : ℕ
scope_session = 0x01

abbrev pub scope_transaction : ℕ
scope_transaction = 0x02

abbrev pub scope_request : ℕ
scope_request = 0x03

abbrev pub scope_response : ℕ
scope_response = 0x04

abbrev pub new_set_var : ℕ → List ℕ → Value → Action
new_set_var scope name value = record {
  type = type_set_var;
  scope = scope;
  name = name;
  value = value;
}

abbrev pub new_unset_var : ℕ → List ℕ → Action
new_unset_var scope name = record {
  type = type_unset_var;
  scope = scope;
  name = name;
  value = null;
}

-- `Actions.SetVar`, `Actions.UnsetVar`, `Actions.Reset`
unfoldable pub set_var : List Action → ℕ → List ℕ → Value → List Action
set_var actions scope name value = actions ++ (new_set_var scope name value ∷ [])

unfoldable pub unset_var : List Action → ℕ → List ℕ → List Action
unset_var actions scope name = actions ++ (new_unset_var scope name ∷ [])

unfoldable pub reset : List Action → List Action
reset actions = []

-- The switch at the top of both `Marshal` and `Unmarshal`.
nb_vars : ℕ → Error → Result ℕ
nb_vars type e =
    if type == type_set_var
    then ok nb_vars_set_var
    else if type == type_unset_var
    then ok nb_vars_unset_var
    else err e

-- `Marshal`: the buffer with the action appended.
unfoldable pub marshal : Action → List ℕ → Result (List ℕ)
unfolding nb_vars
marshal action buf = do
  nb ← nb_vars action.type unexpected_action_type
  b ← uvarint_bytes (length action.name)
  let buf' = buf ++ (action.type ∷ nb ∷ action.scope ∷ (b ++ action.name))
  if action.type == type_unset_var then ok buf' else (do
    (encoded, n) ← encode action.value []
    value ← slice_to encoded n
    ok (buf' ++ value))

is_scope : ℕ → Bool
is_scope s =
    s == scope_process
    || s == scope_session
    || s == scope_transaction
    || s == scope_request
    || s == scope_response

-- `fmt.Errorf("%w: VAR-VALUE: %w", …)` around the error of `Decode`.
in_var_value : Result (Value × ℕ) → Result (Value × ℕ)
in_var_value (ok v) = ok v
in_var_value (err e) = err (bad_var_value e)
in_var_value (fault x) = fault x

-- VAR-NAME: its length, then its bytes.
read_name : List ℕ → Result (List ℕ × List ℕ)
read_name buf = elim (uvarint buf) [
  | none ↦ err truncated_var_name
  | some (name_len, n) ↦ do
    after_len ← slice_from buf n
    refuse_if (ltb (length after_len) name_len) var_name_too_long
    name ← slice_to after_len name_len
    rest ← slice_from after_len name_len
    ok (name, rest)
]

-- One round of the loop of `Unmarshal`: the action, and the bytes behind it.
pub read_action : List ℕ → Result (Action × List ℕ)
unfolding nb_vars is_scope in_var_value read_name
read_action buf = do
  type ← first buf
  after_type ← slice_from buf 1
  want_args ← nb_vars type unknown_action_type
  refuse_if (length after_type == 0) missing_nb_args
  nb ← first after_type
  refuse_if (not (nb == want_args)) wrong_nb_args
  after_nb ← slice_from after_type 1
  refuse_if (length after_nb == 0) missing_var_scope
  scope ← first after_nb
  refuse_if (not (is_scope scope)) unknown_scope
  after_scope ← slice_from after_nb 1
  (name, after_name) ← read_name after_scope
  if type == type_unset_var
      then ok (record { type = type; scope = scope; name = name; value = null }, after_name)
      else (do
        (value, n) ← in_var_value (decode after_name)
        rest ← slice_from after_name n
        ok (record { type = type; scope = scope; name = name; value = value }, rest))

unmarshal_loop : ℕ → List ℕ → List Action → Result (List Action)
unmarshal_loop fuel [] actions = ok actions
unmarshal_loop zero (b ∷ buf) actions = fault out_of_fuel
unmarshal_loop (suc fuel) (b ∷ buf) actions = elim (read_action (b ∷ buf)) [
  | ok (action, rest) ↦ unmarshal_loop fuel rest (actions ++ (action ∷ []))
  | err e ↦ err e
  | fault x ↦ fault x
]

-- `Unmarshal`. An action takes a byte at least, so `length buf` rounds are enough.
unfoldable pub unmarshal : List ℕ → Result (List Action)
unfolding unmarshal_loop read_action
unmarshal buf = unmarshal_loop (length buf) buf []

-- The actions that section 3.4 describes.
pub record IsAction (a : Action) : Type 0 where
  pub is_type : (a.type ≡ type_set_var) ⊎ (a.type ≡ type_unset_var)
  pub is_scope_byte : a.scope ≤ scope_response
  pub is_name : IsString a.name
  pub is_value : IsValue a.value
