-- ===== src/Action/Encoding.antt =====
-- `Marshal` of any action that a Go program can make: it ends with bytes or with an error.
use spop.Base.{
  ℕ, List, [], length, Safely, returns, refuses, Safely-bind, Safely-if, slice_to-Safely, arith,
  ◌==◌, Error,
}
use spop.TypedData.{IsString, IsValue}
use spop.TypedData.Encoding.{uvarint_bytes-Safely, encode-Safely}
use spop.Action.{Action, nb_vars, marshal, type_set_var, type_unset_var}

-- The name is a string and the value one of Go's; the type and the scope may be any.
abbrev pub HasGoValues : Action → Type 0
HasGoValues a = IsString a.name × IsValue a.value

nb_vars-any : (type : ℕ) (e : Error) → Safely (λ nb. Unit {0}) (nb_vars type e)
unfolding nb_vars
nb_vars-any type e =
    Safely-if (type == type_set_var) (λ _. returns tt)
      λ _. Safely-if (type == type_unset_var) (λ _. returns tt) λ _. refuses

pub marshal-Safely :
    (a : Action) (buf : List ℕ) → HasGoValues a → Safely (λ b. Unit {0}) (marshal a buf)
unfolding marshal
marshal-Safely a buf (name, value) = Safely-bind (nb_vars-any a.type _) λ nb _.
    Safely-bind (uvarint_bytes-Safely (length a.name) (omega (arith, name.1))) λ b _.
      Safely-if (a.type == type_unset_var) (λ _. returns tt)
        λ _.
          Safely-bind (encode-Safely a.value [] value)
            λ (encoded, n) room. Safely-bind (slice_to-Safely encoded n room) λ bytes _. returns tt
