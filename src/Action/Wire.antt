-- ===== src/Action/Wire.antt =====
-- The bytes of a LIST-OF-ACTIONS, and the round trip through them.
use spop.Base.{
  ℕ, zero, suc, ◌+◌, ◌≤◌, ◌<◌, ◌≡◌, refl, ◌∙◌, true, false, List, [], ◌∷◌, ◌++◌, map, ok, ltb,
  le→ltb, ◌==◌, length, length-append, append_assoc, append-nil, All, arith, if◌then◌else◌,
  slice_to, slice_from, slice_to-append, slice_from-append,
}
use spop.Varint.RoundTrip.{
  encoding, encoding-Encodes, uvarint_bytes-encoding, uvarint-uvarint_bytes,
}
use spop.TypedData.{null, IsString}
use spop.TypedData.Wire.{wire, Sendable, received, encode-wire, decode-wire}
use spop.Action.{
  Action, nb_vars, is_scope, in_var_value, read_name, read_action, unmarshal_loop, unmarshal,
  IsAction, marshal, type_set_var, type_unset_var,
}

-- An unset-var action carries no value.
abbrev pub IsSendable : Action → Type 0
IsSendable a = IsAction a × Sendable a.value

abbrev pub value_wire : Action → List ℕ
value_wire a = if a.type == type_unset_var then [] else wire a.value

-- ACTION-TYPE, NB-ARGS, VAR-SCOPE, VAR-NAME and, for a set-var action, VAR-VALUE.
abbrev pub head_wire : Action → List ℕ
head_wire a =
    a.type
    ∷ (if a.type == type_unset_var then 2 else 3)
    ∷ a.scope
    ∷ (encoding (length a.name) ++ a.name)

abbrev pub action_wire : Action → List ℕ
action_wire a = head_wire a ++ value_wire a

abbrev pub actions_wire : List Action → List ℕ
actions_wire [] = []
actions_wire (a ∷ actions) = action_wire a ++ actions_wire actions

abbrev pub received_action : Action → Action
received_action a = record a { value = if a.type == type_unset_var then null else received a.value }

pub length-action_wire-le :
    (a : Action) → IsAction a → length (action_wire a) ≤ 13 + length a.name + length (value_wire a)
length-action_wire-le a h = omega (
  arith,
  length-append (head_wire a) (value_wire a),
  length-append (encoding (length a.name)) a.name,
  (encoding-Encodes (length a.name) (omega (arith, h.is_name.1))).width,
)

slice_to_all : (xs : List ℕ) → slice_to xs (length xs) ≡ ok xs
slice_to_all xs = rw append-nil at (slice_to-append xs [])

-- `Marshal` of a well-formed action appends its bytes to the buffer.
pub marshal-wire :
    (a : Action) (buf : List ℕ) → IsSendable a → marshal a buf ≡ ok (buf ++ action_wire a)
unfolding marshal nb_vars
marshal-wire a buf (h, s) = ground (
  arith,
  h.is_type,
  uvarint_bytes-encoding (length a.name) (omega (arith, h.is_name.1)),
  encode-wire a.value [] h.is_value s,
  slice_to_all (wire a.value),
  append_assoc buf (head_wire a) (wire a.value),
  append-nil (head_wire a),
)

read_name-wire :
    (name rest : List ℕ)
    → IsString name
    → read_name (encoding (length name) ++ (name ++ rest)) ≡ ok (name, rest)
unfolding read_name
read_name-wire name rest h =
    let fits : ltb (length (name ++ rest)) (length name) ≡ false =
      le→ltb (length (name ++ rest)) (length name) (omega (arith, length-append name rest)) in
    ground (
      arith,
      uvarint-uvarint_bytes (length name) (name ++ rest) (omega (arith, h.1)),
      slice_from-append (encoding (length name)) (name ++ rest),
      fits,
      slice_to-append name rest,
      slice_from-append name rest,
    )

is_scope_lem : (s : ℕ) → s ≤ 4 → is_scope s ≡ true
unfolding is_scope
is_scope_lem s h = ground arith

pub slice_one : (b : ℕ) (buf : List ℕ) → slice_from (b ∷ buf) 1 ≡ ok buf
slice_one b buf = slice_from-append (b ∷ []) buf

module _ (a : Action) (rest : List ℕ) (h : IsAction a) where
  read_unset :
      a.type ≡ type_unset_var
      → read_action (a.type ∷ 2 ∷ a.scope ∷ (encoding (length a.name) ++ (a.name ++ rest)))
        ≡ ok (record a { value = null }, rest)
  unfolding read_action nb_vars
  read_unset e =
      let tail : List ℕ = encoding (length a.name) ++ (a.name ++ rest) in
      ground (
        arith,
        slice_one a.type (2 ∷ a.scope ∷ tail),
        slice_one 2 (a.scope ∷ tail),
        is_scope_lem a.scope h.is_scope_byte,
        slice_one a.scope tail,
        read_name-wire a.name rest h.is_name,
      )

  read_set :
      Sendable a.value
      → a.type ≡ type_set_var
      → read_action
          (a.type ∷ 3 ∷ a.scope ∷ (encoding (length a.name) ++ (a.name ++ (wire a.value ++ rest))))
        ≡ ok (record a { value = received a.value }, rest)
  unfolding read_action nb_vars in_var_value
  read_set s e =
      let after_name : List ℕ = wire a.value ++ rest in
      let tail : List ℕ = encoding (length a.name) ++ (a.name ++ after_name) in
      ground (
        arith,
        slice_one a.type (3 ∷ a.scope ∷ tail),
        slice_one 3 (a.scope ∷ tail),
        is_scope_lem a.scope h.is_scope_byte,
        slice_one a.scope tail,
        read_name-wire a.name after_name h.is_name,
        decode-wire a.value rest h.is_value s,
        slice_from-append (wire a.value) rest,
      )

pub read_action-wire :
    (a : Action) (rest : List ℕ)
    → IsSendable a
    → read_action (action_wire a ++ rest) ≡ ok (received_action a, rest)
read_action-wire a rest (h, s) = ground (
  arith,
  h.is_type,
  read_unset a rest h,
  read_set a rest h s,
  append-nil (head_wire a),
  append_assoc (head_wire a) (wire a.value) rest,
  append_assoc (encoding (length a.name)) a.name rest,
  append_assoc (encoding (length a.name)) a.name (wire a.value ++ rest),
)

unmarshal_loop_step :
    (fuel : ℕ) (buf : List ℕ) (actions : List Action) {a : Action} {rest : List ℕ}
    → 0 < length buf
    → read_action buf ≡ ok (a, rest)
    → unmarshal_loop (suc fuel) buf actions ≡ unmarshal_loop fuel rest (actions ++ (a ∷ []))
unfolding unmarshal_loop
unmarshal_loop_step fuel [] actions h e = absurd (omega arith)
unmarshal_loop_step fuel (b ∷ buf) actions h e = rw (e, unmarshal_loop)

unmarshal_loop-wire :
    (sent : List Action) (fuel : ℕ) (actions : List Action)
    → length (actions_wire sent) ≤ fuel
    → All IsSendable sent
    → unmarshal_loop fuel (actions_wire sent) actions ≡ ok (actions ++ map received_action sent)
unmarshal_loop-wire [] fuel actions hf h = rw append-nil (unfold unmarshal_loop in refl)
unmarshal_loop-wire (a ∷ sent) zero actions hf h =
    absurd (omega (arith, length-append (action_wire a) (actions_wire sent)))
unmarshal_loop-wire (a ∷ sent) (suc fuel) actions hf (ha, h) =
    let len = length-append (action_wire a) (actions_wire sent) in
    unmarshal_loop_step fuel (action_wire a ++ actions_wire sent) actions (omega arith)
      (read_action-wire a (actions_wire sent) ha)
    ∙ unmarshal_loop-wire sent fuel (actions ++ (received_action a ∷ [])) (omega arith) h
    ∙ rw append_assoc

-- `Unmarshal` of the concatenated bytes of well-formed actions returns them in order, a set-var
-- value as `Decode` gives it back and an unset-var value as nil.
pub unmarshal-actions_wire :
    (sent : List Action)
    → All IsSendable sent
    → unmarshal (actions_wire sent) ≡ ok (map received_action sent)
unfolding unmarshal
unmarshal-actions_wire sent h = unmarshal_loop-wire sent _ [] (omega arith) h
