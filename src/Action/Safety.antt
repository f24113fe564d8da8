-- ===== src/Action/Safety.antt =====
-- `Unmarshal` on any bytes.
use spop.Base.{
  slice_from, ℕ, zero, suc, ◌+◌, ◌-◌, ◌≤◌, ◌<◌, ◌≡◌, ◌⊎◌, false, not, List, [], ◌∷◌, ◌++◌, Result,
  Error, Safely, returns, refuses, Safely-if, Safely-bind, Safely-map, Safely-cases,
  Safely-refuse_if, slice_to-Safely, slice_from-Safely, ltb, ltb→le, ◌==◌, length, length-drop, All,
  All-append, Option-cases, inl, inr, arith, first,
}
use spop.Varint.{uvarint}
use spop.TypedData.{Value, IsString}
use spop.TypedData.Safety.{uvarint_within, decode-Within}
use spop.Kv.Safety.{IsBuffer, IsBuffer-drop, IsBuffer-take}
use spop.Action.{
  Action, nb_vars, is_scope, in_var_value, read_name, read_action, unmarshal_loop, unmarshal,
  IsAction, type_set_var, type_unset_var,
}

in_var_value-Safely :
    {P : Value × ℕ → Type 0} {r : Result (Value × ℕ)} → Safely P r → Safely P (in_var_value r)
unfolding in_var_value
in_var_value-Safely (returns h) = returns h
in_var_value-Safely refuses = refuses

abbrev NameWithin : List ℕ → List ℕ × List ℕ → Type 0
NameWithin buf (name, rest) = IsString name × IsBuffer rest × (length rest ≤ length buf)

read_name-Safely : (buf : List ℕ) → IsBuffer buf → Safely (NameWithin buf) (read_name buf)
unfolding read_name
read_name-Safely buf h = elim (Option-cases (uvarint buf)) [
  | inl e ↦ rw (e, read_name) refuses
  | inr ((len, n), e) ↦
      let (small, lo, hi) = uvarint_within buf len n h.0 e in
      rw (e, read_name)
        (Safely-bind (slice_from-Safely buf n hi) λ after_len p.
          Safely-refuse_if (ltb (length after_len) len) _ λ q.
            let room : len ≤ length after_len = ltb→le _ _ q in
            let fine : IsBuffer after_len = rw p (IsBuffer-drop n buf h) in
            let size : length after_len ≡ length buf - n = rw p (length-drop n buf) in
            Safely-bind (slice_to-Safely after_len len room) λ name r.
              Safely-bind (slice_from-Safely after_len len room) λ rest s.
                let size' : length rest ≡ length after_len - len =
                  rw s (length-drop len after_len) in
                returns (
                  rw r (IsBuffer-take len after_len fine),
                  rw s (IsBuffer-drop len after_len fine),
                  omega arith,
                ))
]

pub first-Safely :
    (buf : List ℕ) → IsBuffer buf → 0 < length buf → Safely (λ b. b < 256) (first buf)
first-Safely [] h pos = absurd (omega arith)
first-Safely (b ∷ buf) h pos = returns h.0.0

nb_vars-Safely :
    (type : ℕ) (e : Error)
    → Safely (λ nb. (type ≡ type_set_var) ⊎ (type ≡ type_unset_var)) (nb_vars type e)
unfolding nb_vars
nb_vars-Safely type e =
    Safely-if (type == type_set_var) (λ q. returns (inl (ground arith)))
      λ _. Safely-if (type == type_unset_var) (λ q. returns (inr (ground arith))) (λ _. refuses)

is_scope→le : (s : ℕ) → not (is_scope s) ≡ false → s ≤ 4
unfolding is_scope
is_scope→le s h = ground arith

pub pos_of_test : (n : ℕ) → (n == 0) ≡ false → 0 < n
pos_of_test n h = ground arith

abbrev ActionWithin : List ℕ → Action × List ℕ → Type 0
ActionWithin buf (action, rest) = IsAction action × IsBuffer rest × (length rest < length buf)

-- The rest of the slice behind its first byte.
abbrev pub Behind : List ℕ → List ℕ → Type 0
Behind buf rest = IsBuffer rest × (length rest + 1 ≡ length buf)

pub slice_one-Safely :
    (buf : List ℕ) → IsBuffer buf → 0 < length buf → Safely (Behind buf) (slice_from buf 1)
slice_one-Safely buf h pos =
    Safely-map (λ rest p. (rw p (IsBuffer-drop 1 buf h), rw p (omega (arith, length-drop 1 buf))))
      (slice_from-Safely buf 1 pos)

read_action-Safely :
    (buf : List ℕ) → IsBuffer buf → 0 < length buf → Safely (ActionWithin buf) (read_action buf)
unfolding read_action
read_action-Safely buf h pos = Safely-bind (first-Safely buf h pos) λ type _.
    Safely-bind (slice_one-Safely buf h pos) λ after_type (h₁, len₁).
      Safely-bind (nb_vars-Safely type _) λ want kind.
        Safely-refuse_if (length after_type == 0) _ λ q₁.
          Safely-bind (first-Safely after_type h₁ (pos_of_test _ q₁)) λ nb _.
            Safely-refuse_if (not (nb == want)) _ λ _.
              Safely-bind (slice_one-Safely after_type h₁ (pos_of_test _ q₁)) λ after_nb (h₂, len₂).
                Safely-refuse_if (length after_nb == 0) _ λ q₂.
                  Safely-bind (first-Safely after_nb h₂ (pos_of_test _ q₂)) λ scope _.
                    Safely-refuse_if (not (is_scope scope)) _ λ q₃.
                      Safely-bind (slice_one-Safely after_nb h₂ (pos_of_test _ q₂))
                        λ after_scope (h₃, len₃).
                          Safely-bind (read_name-Safely after_scope h₃)
                            λ (name, after_name) (n, h₄, len₄).
                              Safely-if (type == type_unset_var)
                                (λ _. returns (
                                  record {
                                    is_type = kind;
                                    is_scope_byte = is_scope→le scope q₃;
                                    is_name = n;
                                    is_value = tt;
                                  },
                                  h₄,
                                  omega arith,
                                ))
                                λ _.
                                  Safely-bind
                                    (in_var_value-Safely (decode-Within after_name h₄.0 h₄.1))
                                    λ (value, m) w.
                                      Safely-bind (slice_from-Safely after_name m w.2) λ rest p.
                                        returns (
                                          record {
                                            is_type = kind;
                                            is_scope_byte = is_scope→le scope q₃;
                                            is_name = n;
                                            is_value = w.0;
                                          },
                                          rw p (IsBuffer-drop m after_name h₄),
                                          rw p (omega (arith, length-drop m after_name)),
                                        )

unmarshal_loop-Safely :
    (fuel : ℕ) (buf : List ℕ) (actions : List Action)
    → length buf ≤ fuel
    → IsBuffer buf
    → All IsAction actions
    → Safely (All IsAction) (unmarshal_loop fuel buf actions)
unfolding unmarshal_loop
unmarshal_loop-Safely fuel [] actions hf h done = returns done
unmarshal_loop-Safely zero (b ∷ buf) actions hf h done = absurd (omega arith)
unmarshal_loop-Safely (suc fuel) (b ∷ buf) actions hf h done =
    elim (Safely-cases (read_action-Safely (b ∷ buf) h (omega arith))) [
      | inr (x, e) ↦ rw (e, unmarshal_loop) refuses
      | inl ((action, rest), e, w) ↦
          rw (e, unmarshal_loop)
            (unmarshal_loop-Safely fuel rest (actions ++ (action ∷ [])) (omega arith) w.1
              (All-append IsAction actions (action ∷ []) done (w.0, tt)))
    ]

-- `Unmarshal` on any bytes ends, without a fault: no index or slice bound passes the buffer.
-- Every action it returns has one of the two types, one of the five scopes, and a proper value.
pub unmarshal-Safely : (buf : List ℕ) → IsBuffer buf → Safely (All IsAction) (unmarshal buf)
unfolding unmarshal
unmarshal-Safely buf h = unmarshal_loop-Safely (length buf) buf [] (omega arith) h tt
