-- ===== src/Action/Runs.antt =====
-- Runs of the action package at concrete inputs, and its theorems there.
use spop.Base.{
  ◌≡◌, refl, inl, inr, [], ◌∷◌, map, ok, err, All, Safely, arith, codes, wrong_nb_args, slice_from,
  slice_to,
}
use spop.Varint.{uvarint, uvarint_bytes}
use spop.TypedData.{uint32}
use spop.Action.{
  Action, IsAction, new_set_var, new_unset_var, marshal, unmarshal, scope_session, scope_request,
}
use spop.Action.Safety.{unmarshal-Safely}
use spop.Action.Wire.{
  IsSendable, actions_wire, action_wire, received_action, marshal-wire, unmarshal-actions_wire,
}

abbrev score : Action
score = new_set_var scope_session (codes "ip_score") (uint32 42)

abbrev forget : Action
forget = new_unset_var scope_request (codes "x")

marshal-forget : marshal forget [] ≡ ok (2 ∷ 2 ∷ 3 ∷ 1 ∷ 0x78 ∷ [])
unfolding marshal uvarint_bytes
marshal-forget = refl

unmarshal-forget : unmarshal (2 ∷ 2 ∷ 3 ∷ 1 ∷ 0x78 ∷ []) ≡ ok (forget ∷ [])
unfolding unmarshal uvarint slice_from slice_to
unmarshal-forget = refl

unmarshal_bad_args : unmarshal (2 ∷ 3 ∷ 3 ∷ 1 ∷ 0x78 ∷ []) ≡ err wrong_nb_args
unfolding unmarshal uvarint slice_from slice_to
unmarshal_bad_args = refl

unmarshal-Safely_example : Safely (All IsAction) (unmarshal (1 ∷ 3 ∷ 0 ∷ 1 ∷ []))
unmarshal-Safely_example = unmarshal-Safely (1 ∷ 3 ∷ 0 ∷ 1 ∷ []) (omega arith, omega arith)

score-IsSendable : IsSendable score
score-IsSendable = (
  record {
    is_type = inl refl;
    is_scope_byte = omega arith;
    is_name = omega arith;
    is_value = omega arith;
  },
  tt,
)

forget-IsSendable : IsSendable forget
forget-IsSendable = (
  record { is_type = inr refl; is_scope_byte = omega arith; is_name = omega arith; is_value = tt },
  tt,
)

two_actions-Sendable : All IsSendable (score ∷ forget ∷ [])
two_actions-Sendable = (score-IsSendable, (forget-IsSendable, tt))

marshal-wire_example : marshal score (7 ∷ []) ≡ ok (7 ∷ action_wire score)
marshal-wire_example = marshal-wire score (7 ∷ []) score-IsSendable

unmarshal-actions_wire_example :
    unmarshal (actions_wire (score ∷ forget ∷ [])) ≡ ok (map received_action (score ∷ forget ∷ []))
unmarshal-actions_wire_example = unmarshal-actions_wire (score ∷ forget ∷ []) two_actions-Sendable
