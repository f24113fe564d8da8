-- ===== src/Worker/Wire.antt =====
-- What the peer reads of the AGENT-HELLO and of the AGENT-DISCONNECT.
use spop.Base.{
  ℕ, ◌+◌, ◌≤◌, ◌≡◌, refl, sym, ap, ◌∙◌, subst, inl, inr, List, [], ◌∷◌, map, some, ok, Error, arith,
  length, length-append, All, IsU32, min, codes,
}
use spop.Varint.RoundTrip.{encoding, encoding-Encodes}
use spop.TypedData.{string, uint32, IsString}
use spop.TypedData.Wire.{wire, received-string, received-uint32}
use spop.Kv.{Item, Kv, add, IsItem}
use spop.Kv.Wire.{SendableItem, kv_wire, item_wire, length-item_wire-le, received_item}
use spop.Frame.{Frame, new_frame, max_frame_size, is_abort, is_fin, from_agent}
use spop.Frame.Read.{accepts_type}
use spop.Frame.RoundTrip.{IsWritable, headed, length-body_wire-le}
use spop.Frame.Payloads.{Travels, agent_kv-Travels}
use spop.Handshake.{min_frame_size}
use spop.Worker.{agent_hello, agent_disconnect}

length-string-le : (s : List ℕ) → IsString s → length (wire (string s)) ≤ 11 + length s
unfolding wire
length-string-le s h = omega (
  arith,
  length-append (encoding (length s)) s,
  (encoding-Encodes (length s) (omega (arith, h.1))).width,
)

length-uint32-le : (n : ℕ) → IsU32 n → length (wire (uint32 n)) ≤ 11
unfolding wire
length-uint32-le n h = omega (arith, (encoding-Encodes n (omega arith)).width)

item_string-le :
    (name s : List ℕ)
    → IsItem (record { name = name; value = string s })
    → length (item_wire (record { name = name; value = string s })) ≤ 21 + length name + length s
item_string-le name s h = omega (
  arith,
  length-item_wire-le (record { name = name; value = string s }) h,
  length-string-le s h.1,
)

item_uint32-le :
    (name : List ℕ) (n : ℕ)
    → IsItem (record { name = name; value = uint32 n })
    → length (item_wire (record { name = name; value = uint32 n })) ≤ 21 + length name
item_uint32-le name n h = omega (
  arith,
  length-item_wire-le (record { name = name; value = uint32 n }) h,
  length-uint32-le n h.1,
)

abbrev pub text_item : List ℕ → List ℕ → Item
text_item name s = record { name = name; value = string s }

abbrev pub number_item : List ℕ → ℕ → Item
number_item name n = record { name = name; value = uint32 n }

abbrev pub hello_items : ℕ → Kv
hello_items size =
    text_item (codes "version") (codes "2.0")
    ∷ number_item (codes "max-frame-size") size
    ∷ text_item (codes "capabilities") (codes "pipelining")
    ∷ []

abbrev pub goodbye_items : ℕ → List ℕ → Kv
goodbye_items status_code message =
    number_item (codes "status-code") status_code ∷ text_item (codes "message") message ∷ []

pub hello_items_kv : (size : ℕ) → (agent_hello size).kv ≡ hello_items size
unfolding add
hello_items_kv size = refl

pub goodbye_items_kv :
    (status_code : ℕ) (message : List ℕ)
    → (agent_disconnect status_code message).kv ≡ goodbye_items status_code message
unfolding add
goodbye_items_kv status_code message = refl

pub hello_items-SendableItem : (size : ℕ) → IsU32 size → All SendableItem (hello_items size)
hello_items-SendableItem size h = (
  ((omega arith, omega arith), tt),
  ((((omega arith), h), tt), (((omega arith, omega arith), tt), tt)),
)

pub goodbye_items-SendableItem :
    (status_code : ℕ) (message : List ℕ)
    → IsU32 status_code
    → IsString message
    → All SendableItem (goodbye_items status_code message)
goodbye_items-SendableItem status_code message h m =
    (((omega arith, h), tt), (((omega arith, m), tt), tt))

hello_items-length : (size : ℕ) → IsU32 size → length (kv_wire (hello_items size)) ≤ 134
hello_items-length size h = omega (
  arith,
  length-append (item_wire (text_item (codes "version") (codes "2.0"))) (
      kv_wire (
        number_item (codes "max-frame-size") size
        ∷ text_item (codes "capabilities") (codes "pipelining")
        ∷ [])),
  length-append (item_wire (number_item (codes "max-frame-size") size))
      (kv_wire (text_item (codes "capabilities") (codes "pipelining") ∷ [])),
  length-append (item_wire (text_item (codes "capabilities") (codes "pipelining"))) [],
  item_string-le (codes "version") (codes "2.0") (omega arith, omega arith),
  item_uint32-le (codes "max-frame-size") size (omega arith, h),
  item_string-le (codes "capabilities") (codes "pipelining") (omega arith, omega arith),
)

received_text : (name s : List ℕ) → received_item (text_item name s) ≡ text_item name s
received_text name s = ap (λ v. record (text_item name s) { value = v }) (received-string s)

received_number : (name : List ℕ) (n : ℕ) → received_item (number_item name n) ≡ number_item name n
received_number name n = ap (λ v. record (number_item name n) { value = v }) (received-uint32 n)

hello_items-received : (size : ℕ) → map received_item (hello_items size) ≡ hello_items size
hello_items-received size = cc (
  received_text (codes "version") (codes "2.0"),
  received_number (codes "max-frame-size") size,
  received_text (codes "capabilities") (codes "pipelining"),
)

goodbye_items-received :
    (status_code : ℕ) (message : List ℕ)
    → map received_item (goodbye_items status_code message) ≡ goodbye_items status_code message
goodbye_items-received status_code message =
    cc (received_number (codes "status-code") status_code, received_text (codes "message") message)

pub agent_hello-IsWritable : (size : ℕ) → IsWritable (agent_hello size)
unfolding is_abort is_fin
agent_hello-IsWritable size = record {
  flags_word = omega arith;
  stream_word = omega arith;
  frame_word = omega arith;
  fin_with_abort = refl;
}

pub agent_disconnect-IsWritable :
    (status_code : ℕ) (message : List ℕ) → IsWritable (agent_disconnect status_code message)
unfolding is_abort is_fin
agent_disconnect-IsWritable status_code message = record {
  flags_word = omega arith;
  stream_word = omega arith;
  frame_word = omega arith;
  fin_with_abort = refl;
}

-- The AGENT-HELLO of any size that fits its field is encoded whole, and fits the smallest maximum
-- that a peer may announce: a peer that accepts the agent's types up to 256 bytes or more reads
-- the version, the size and the capability from it, and the bytes behind it are left.
pub agent_hello-Travels :
    (size : ℕ) (rest : List ℕ) (ending : Error) (limit : ℕ)
    → IsU32 size
    → min_frame_size ≤ limit
    → let f = agent_hello size in
      Travels f
        (kv_wire f.kv)
        (ok (record (headed new_frame f (kv_wire f.kv)) { kv = hello_items size }))
        rest
        ending
        limit
        (some from_agent)
agent_hello-Travels size rest ending limit h room =
    let f : Frame = agent_hello size in
    let e : f.kv ≡ hello_items size = hello_items_kv size in
    let w : IsWritable f = agent_hello-IsWritable size in
    let same : map received_item f.kv ≡ hello_items size =
      ap (map received_item) e ∙ hello_items-received size in
    let len : length (kv_wire f.kv) ≤ 134 =
      subst (λ kv. length (kv_wire kv) ≤ 134) (sym e) (hello_items-length size h) in
    subst
      (λ kv.
        Travels f (kv_wire f.kv) (ok (record (headed new_frame f (kv_wire f.kv)) { kv = kv })) rest
          ending limit (some from_agent))
      same
      (agent_kv-Travels f rest ending limit (some from_agent) w (inl refl)
        (subst (All SendableItem) (sym e) (hello_items-SendableItem size h))
        (unfold accepts_type in refl)
        (omega (arith, length-body_wire-le f (kv_wire f.kv) w, len, room)))

goodbye_items-length :
    (status_code : ℕ) (message : List ℕ)
    → IsU32 status_code
    → IsString message
    → length (kv_wire (goodbye_items status_code message)) ≤ 60 + length message
goodbye_items-length status_code message h m = omega (
  arith,
  length-append (item_wire (number_item (codes "status-code") status_code))
      (kv_wire (text_item (codes "message") message ∷ [])),
  length-append (item_wire (text_item (codes "message") message)) [],
  item_uint32-le (codes "status-code") status_code (omega arith, h),
  item_string-le (codes "message") message (omega arith, m),
)

-- The AGENT-DISCONNECT of any code that fits its field, with a message that leaves 85 bytes of the
-- smaller of the peer's limit and MaxFrameSize, is encoded whole; a peer that accepts the agent's
-- types reads the code and the message from it, and the bytes behind it are left.
pub agent_disconnect-Travels :
    (status_code : ℕ) (message rest : List ℕ) (ending : Error) (limit : ℕ)
    → IsU32 status_code
    → IsString message
    → 85 + length message ≤ min limit max_frame_size
    → let f = agent_disconnect status_code message in
      Travels f
        (kv_wire f.kv)
        (ok (record (headed new_frame f (kv_wire f.kv)) { kv = goodbye_items status_code message }))
        rest
        ending
        limit
        (some from_agent)
agent_disconnect-Travels status_code message rest ending limit h m room =
    let f : Frame = agent_disconnect status_code message in
    let items : Kv = goodbye_items status_code message in
    let e : f.kv ≡ items = goodbye_items_kv status_code message in
    let w : IsWritable f = agent_disconnect-IsWritable status_code message in
    let same : map received_item f.kv ≡ items =
      ap (map received_item) e ∙ goodbye_items-received status_code message in
    let len : length (kv_wire f.kv) ≤ 60 + length message =
      subst (λ kv. length (kv_wire kv) ≤ 60 + length message) (sym e)
        (goodbye_items-length status_code message h m) in
    subst
      (λ kv.
        Travels f (kv_wire f.kv) (ok (record (headed new_frame f (kv_wire f.kv)) { kv = kv })) rest
          ending limit (some from_agent))
      same
      (agent_kv-Travels f rest ending limit (some from_agent) w (inr refl)
        (subst (All SendableItem) (sym e) (goodbye_items-SendableItem status_code message h m))
        (unfold accepts_type in refl)
        (omega (arith, length-body_wire-le f (kv_wire f.kv) w, len, room)))
