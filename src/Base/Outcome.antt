-- ===== src/Base/Outcome.antt =====
-- Outcomes of the program's functions: a value, an error value, or a fault.
-- Slices are lists of bytes. An index or a slice bound past the length is a fault; Go itself
-- lets an upper bound reach the capacity, which no function here relies on.
use Prim.Native.Nat.{ℕ, ◌≤◌}
use mathlib.Core.Path.{◌≡◌, refl, subst}
use mathlib.Core.Logic.{◌≢◌, ◌⊎◌, inl, inr}
use mathlib.Core.Bool.{Bool, true, false}
use mathlib.Core.List.{List, [], ◌∷◌, ◌++◌}
use native.Mathlib.Omega.{arith}
use spop.Base.Tests.{leb, le→leb, if◌then◌else◌}
use spop.Base.Lists.{length, take, drop, take-append, drop-append, length-append}

-- The error values, one constructor for each message or sentinel.
pub data Error : Type 0 where
  -- typeddata
  empty_buffer decoding_buffer_too_small truncated_varint invalid_ip : Error
  unsupported_value unsupported_type : Error
  -- payload/kv
  truncated_key_length wrong_buf_len buffer_unexpectedly_ended : Error
  -- action
  unexpected_action_type unknown_action_type missing_nb_args wrong_nb_args : Error
  missing_var_scope unknown_scope truncated_var_name var_name_too_long : Error
  bad_var_value : Error → Error
  -- message
  truncated_name_length name_too_long missing_args_byte message_not_found : Error
  -- frame
  abort_without_fin messages_not_handled unexpected_frame_type : Error
  unexpected_frame_type_from_peer invalid_frame_length : Error
  frame_too_big : ℕ → ℕ → Error
  end_of_file unexpected_end_of_file truncated_stream_id truncated_frame_id : Error
  healthcheck_type max_frame_size_type engine_id_type unexpected_frame_length : Error
  read_error : Error → Error
  -- the connection's own
  deadline_exceeded io_error : Error
  -- transport
  connection_closed short_write : Error
  -- worker
  after_disconnect : Error
  -- client
  size_mismatch id_mismatch : Error
  unexpected_reply : ℕ → Error
  reply_not_read : Error → Error
  cannot_encode : Error → Error

-- A fault has no counterpart among the program's results: a Go panic, or a loop of the model
-- that ran out of fuel.
pub data Fault : Type 0 where
  out_of_range out_of_fuel : Fault

pub data Result {ℓ} (A : Type ℓ) : Type ℓ where
  ok : A → Result A
  err : Error → Result A
  fault : Fault → Result A

infixl 5 ◌>>=◌ ◌>>◌
abbrev pub ◌>>=◌ {ℓ κ} : {A : Type ℓ} {B : Type κ} → Result A → (A → Result B) → Result B
ok a >>= f = f a
err e >>= f = err e
fault x >>= f = fault x

abbrev pub ◌>>◌ {ℓ κ} : {A : Type ℓ} {B : Type κ} → Result A → Result B → Result B
m >> k = m >>= λ _. k

-- `if cond { return err }`
abbrev pub refuse_if : Bool → Error → Result (Unit {0})
refuse_if true e = err e
refuse_if false e = ok tt

-- `buf[:n]`
unfoldable pub slice_to {ℓ} : {A : Type ℓ} → List A → ℕ → Result (List A)
slice_to buf n = if leb n (length buf) then ok (take n buf) else fault out_of_range

-- `buf[n:]`
unfoldable pub slice_from {ℓ} : {A : Type ℓ} → List A → ℕ → Result (List A)
slice_from buf n = if leb n (length buf) then ok (drop n buf) else fault out_of_range

-- `buf[0]`
abbrev pub first {ℓ} : {A : Type ℓ} → List A → Result A
first [] = fault out_of_range
first (b ∷ bs) = ok b

-- The run ends without a fault, and `P` holds of its value if it has one.
pub data Safely {ℓ κ} {A : Type ℓ} (P : A → Type κ) : Result A → Type (ℓ ⊔ κ) where
  returns : {a : A} → P a → Safely P (ok a)
  refuses : {e : Error} → Safely P (err e)

module _ {ℓ κ} {A : Type ℓ} {P : A → Type κ} where
  pub Safely-ok : {r : Result A} {a : A} → Safely P r → r ≡ ok a → P a
  Safely-ok (returns h) e = subst P (cc) h
  Safely-ok refuses e = cc

  pub Safely-ne-fault : {r : Result A} (x : Fault) → Safely P r → r ≢ fault x
  Safely-ne-fault x (returns h) e = cc
  Safely-ne-fault x refuses e = cc

  pub Safely-cases :
      {r : Result A} → Safely P r → ((a : A) × (r ≡ ok a) × P a) ⊎ ((e : Error) × (r ≡ err e))
  Safely-cases (returns {a} h) = inl (a, refl, h)
  Safely-cases (refuses {e}) = inr (e, refl)

  pub Safely-bind {ℓ' κ'} :
      {B : Type ℓ'} {Q : B → Type κ'} {m : Result A} {f : A → Result B}
      → Safely P m
      → ((a : A) → P a → Safely Q (f a))
      → Safely Q (m >>= f)
  Safely-bind (returns {a} h) k = k a h
  Safely-bind refuses k = refuses

  pub Safely-map {κ'} :
      {Q : A → Type κ'} {r : Result A} → ((a : A) → P a → Q a) → Safely P r → Safely Q r
  Safely-map f (returns {a} h) = returns (f a h)
  Safely-map f refuses = refuses

  pub Safely-if :
      (b : Bool) {x y : Result A}
      → (b ≡ true → Safely P x)
      → (b ≡ false → Safely P y)
      → Safely P (if b then x else y)
  Safely-if true hx hy = hx refl
  Safely-if false hx hy = hy refl

  pub Safely-refuse_if :
      (b : Bool) (e : Error) {y : Result A}
      → (b ≡ false → Safely P y)
      → Safely P (refuse_if b e >>= λ _. y)
  Safely-refuse_if true e hy = refuses
  Safely-refuse_if false e hy = hy refl

module _ {ℓ} {A : Type ℓ} where
  pub slice_from-Safely :
      (buf : List A) (n : ℕ) → n ≤ length buf → Safely (λ r. r ≡ drop n buf) (slice_from buf n)
  unfolding slice_from
  slice_from-Safely buf n h = rw (le→leb n (length buf) h) (returns refl)

  pub slice_to-Safely :
      (buf : List A) (n : ℕ) → n ≤ length buf → Safely (λ r. r ≡ take n buf) (slice_to buf n)
  unfolding slice_to
  slice_to-Safely buf n h = rw (le→leb n (length buf) h) (returns refl)

  pub le-length-append : (xs ys : List A) → leb (length xs) (length (xs ++ ys)) ≡ true
  le-length-append xs ys =
      le→leb (length xs) (length (xs ++ ys)) (omega (arith, length-append xs ys))

  pub slice_from-append : (xs ys : List A) → slice_from (xs ++ ys) (length xs) ≡ ok ys
  unfolding slice_from
  slice_from-append xs ys = rw (le-length-append xs ys, drop-append xs ys)

  pub slice_to-append : (xs ys : List A) → slice_to (xs ++ ys) (length xs) ≡ ok xs
  unfolding slice_to
  slice_to-append xs ys = rw (le-length-append xs ys, take-append xs ys)
