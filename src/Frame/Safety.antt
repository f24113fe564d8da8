-- ===== src/Frame/Safety.antt =====
-- `ReadLimit` on any bytes.
use spop.Base.{
  ℕ, ◌≤◌, ◌≡◌, refl, ◌∙◌, List, [], ◌∷◌, Option, none, some, truncated_stream_id,
  truncated_frame_id, All-take, ◌||◌, Bool-cases, Error, Safely, returns, refuses, Safely-if,
  Safely-bind, Safely-map, slice_to-Safely, slice_from-Safely, ◌==◌, length, All, Option-cases, inl,
  inr, subst, arith, IsU64, IsU32, IsByte, eq_bytes, codes,
}
use spop.Varint.{uvarint}
use spop.TypedData.{Value, bool, uint32, string, IsString, IsValue}
use spop.TypedData.Safety.{uvarint_within}
use spop.Kv.{Kv, IsItem, get, unmarshal}
use spop.Kv.Safety.{IsBuffer, IsBuffer-drop, unmarshal-Unmarshals}
use spop.Action.{IsAction}
use spop.Action.Safety.{unmarshal-Safely}
use spop.Message
use spop.Message.Safety.{IsMessage, decode-Decodes}
use spop.Base.{All-append}
use spop.Frame.{
  Frame, type_haproxy_hello, type_haproxy_disconnect, type_notify, type_agent_hello,
  type_agent_disconnect, type_agent_ack,
}
use spop.Frame.Read.{
  uint32_at, keep_healthcheck, keep_max_frame_size, keep_engine_id, keep_hello_items, read_kv,
  read_messages, read_actions, read_hello, read_payload, read_varint, read_body,
}

get-IsValue : (kv : Kv) (key : List ℕ) (v : Value) → All IsItem kv → get kv key ≡ some v → IsValue v
unfolding get
get-IsValue [] key v h e = cc
get-IsValue (i ∷ kv) key v (hi, h) e = elim (Bool-cases (eq_bytes i.name key)) [
  | inl found ↦ let same : some i.value ≡ some v = rw found at e in subst IsValue (cc) hi.1
  | inr other ↦ get-IsValue kv key v h (rw other at e)
]

-- What the payload decoders leave of the header.
abbrev pub SameHeader : Frame → Frame → Type 0
SameHeader f g =
    (g.len ≡ f.len)
    × (g.type ≡ f.type)
    × (g.flags ≡ f.flags)
    × (g.stream_id ≡ f.stream_id)
    × (g.frame_id ≡ f.frame_id)

-- What a frame holds is well-formed.
pub record HasContents (f : Frame) : Type 0 where
  pub kv_items : All IsItem f.kv
  pub all_messages : All IsMessage f.messages
  pub all_actions : All IsAction f.actions
  pub engine_string : IsString f.engine_id
  pub size_word : IsU32 f.frame_size

abbrev pub Keeps : Frame → Frame → Type 0
Keeps f g = SameHeader f g × HasContents g

SameHeader-refl : (f : Frame) → SameHeader f f
SameHeader-refl f = (refl, refl, refl, refl, refl)

Keeps-trans : (f g h : Frame) → SameHeader f g → Keeps g h → Keeps f h
Keeps-trans f g h (p₀, p₁, p₂, p₃, p₄) ((q₀, q₁, q₂, q₃, q₄), c) =
    ((q₀ ∙ p₀, q₁ ∙ p₁, q₂ ∙ p₂, q₃ ∙ p₃, q₄ ∙ p₄), c)

keep_healthcheck-Keeps :
    (f : Frame) (o : Option Value) → HasContents f → Safely (Keeps f) (keep_healthcheck f o)
unfolding keep_healthcheck
keep_healthcheck-Keeps f none c = returns (SameHeader-refl f, c)
keep_healthcheck-Keeps f (some (bool b)) c =
    returns {a = record f { healthcheck = b }} (SameHeader-refl f, assumption)
keep_healthcheck-Keeps f (some _) c = refuses

keep_max_frame_size-Keeps :
    (f : Frame) (o : Option Value)
    → HasContents f
    → ((v : Value) → o ≡ some v → IsValue v)
    → Safely (Keeps f) (keep_max_frame_size f o)
unfolding keep_max_frame_size
keep_max_frame_size-Keeps f none c fits = returns (SameHeader-refl f, c)
keep_max_frame_size-Keeps f (some (uint32 n)) c fits =
    returns {a = record f { frame_size = n }} (SameHeader-refl f, assumption (fits (uint32 n) refl))
keep_max_frame_size-Keeps f (some _) c fits = refuses

keep_engine_id-Keeps :
    (f : Frame) (o : Option Value)
    → HasContents f
    → ((v : Value) → o ≡ some v → IsValue v)
    → Safely (Keeps f) (keep_engine_id f o)
unfolding keep_engine_id
keep_engine_id-Keeps f none c fits = returns (SameHeader-refl f, c)
keep_engine_id-Keeps f (some (string s)) c fits =
    returns {a = record f { engine_id = s }} (SameHeader-refl f, assumption (fits (string s) refl))
keep_engine_id-Keeps f (some _) c fits = refuses

keep_hello_items-Keeps : (f : Frame) → HasContents f → Safely (Keeps f) (keep_hello_items f)
unfolding keep_hello_items
keep_hello_items-Keeps f c =
    Safely-bind (keep_healthcheck-Keeps f (get f.kv (codes "healthcheck")) c) λ f₁ (p₁, c₁).
      Safely-bind
        (keep_max_frame_size-Keeps f₁ (get f₁.kv (codes "max-frame-size")) c₁
          (λ v. get-IsValue f₁.kv (codes "max-frame-size") v c₁.kv_items))
        λ f₂ (p₂, c₂).
          Safely-map (λ f₃ k. Keeps-trans f f₁ f₃ p₁ (Keeps-trans f₁ f₂ f₃ p₂ k))
            (keep_engine_id-Keeps f₂ (get f₂.kv (codes "engine-id")) c₂
              (λ v. get-IsValue f₂.kv (codes "engine-id") v c₂.kv_items))

read_kv-Keeps :
    (f : Frame) (buf : List ℕ) → HasContents f → IsBuffer buf → Safely (Keeps f) (read_kv f buf)
unfolding read_kv
read_kv-Keeps f buf c h =
    let (new, split, fine, len, safe) = unmarshal-Unmarshals f.kv buf h in
    Safely-bind safe λ _ _.
      let read : All IsItem (unmarshal f.kv buf).0 =
        rw split (All-append IsItem f.kv new c.kv_items fine) in
      returns {a = record f { kv = (unmarshal f.kv buf).0 }} (SameHeader-refl f, assumption read)

read_messages-Keeps :
    (f : Frame) (buf : List ℕ)
    → HasContents f
    → IsBuffer buf
    → Safely (Keeps f) (read_messages f buf)
unfolding read_messages
read_messages-Keeps f buf c h =
    let (new, split, fine, safe) = decode-Decodes f.messages buf h in
    Safely-bind safe λ _ _.
      let read : All IsMessage (Message.decode f.messages buf).0 =
        rw split (All-append IsMessage f.messages new c.all_messages fine) in
      returns {a = record f { messages = (Message.decode f.messages buf).0 }}
        (SameHeader-refl f, assumption read)

read_actions-Keeps :
    (f : Frame) (buf : List ℕ)
    → HasContents f
    → IsBuffer buf
    → Safely (Keeps f) (read_actions f buf)
unfolding read_actions
read_actions-Keeps f buf c h = Safely-bind (unmarshal-Safely buf h) λ actions fine.
    returns {a = record f { actions = actions }} (SameHeader-refl f, assumption (fine))

read_hello-Keeps :
    (f : Frame) (buf : List ℕ) → HasContents f → IsBuffer buf → Safely (Keeps f) (read_hello f buf)
unfolding read_hello
read_hello-Keeps f buf c h =
    Safely-bind (read_kv-Keeps f buf c h)
      λ g (p, k). Safely-map (λ g' q. Keeps-trans f g g' p q) (keep_hello_items-Keeps g k)

pub read_payload-Keeps :
    (f : Frame) (buf : List ℕ)
    → HasContents f
    → IsBuffer buf
    → Safely (Keeps f) (read_payload f buf)
unfolding read_payload
read_payload-Keeps f buf c h =
    Safely-if (f.type == type_haproxy_hello || f.type == type_haproxy_disconnect)
      (λ _. read_hello-Keeps f buf c h)
      λ _.
        Safely-if (f.type == type_agent_hello || f.type == type_agent_disconnect)
          (λ _. read_kv-Keeps f buf c h)
          λ _.
            Safely-if (f.type == type_notify) (λ _. read_messages-Keeps f buf c h)
              λ _.
                Safely-if (f.type == type_agent_ack) (λ _. read_actions-Keeps f buf c h)
                  λ _. refuses

abbrev VarintWithin : List ℕ → ℕ × List ℕ → Type 0
VarintWithin buf (i, rest) = IsU64 i × IsBuffer rest

read_varint-Safely :
    (e : Error) (buf : List ℕ) → IsBuffer buf → Safely (VarintWithin buf) (read_varint e buf)
unfolding read_varint
read_varint-Safely e buf h = elim (Option-cases (uvarint buf)) [
  | inl q ↦ rw (q, read_varint) refuses
  | inr ((i, n), q) ↦
      let (small, lo, hi) = uvarint_within buf i n h.0 q in
      rw (q, read_varint)
        (Safely-bind (slice_from-Safely buf n hi)
          λ rest p. returns (small, rw p (IsBuffer-drop n buf h)))
]

uint32_at_word : (buf : List ℕ) → All IsByte buf → IsU32 (uint32_at buf)
unfolding uint32_at
uint32_at_word (a ∷ b ∷ c ∷ d ∷ rest) h = omega arith
uint32_at_word [] h = omega arith
uint32_at_word (a ∷ []) h = omega arith
uint32_at_word (a ∷ b ∷ []) h = omega arith
uint32_at_word (a ∷ b ∷ c ∷ []) h = omega arith

-- The header words of a frame fit their fields, and its contents are well-formed.
pub record IsFrame (f : Frame) : Type 0 where
  pub flags_word : IsU32 f.flags
  pub stream_word : IsU64 f.stream_id
  pub frame_word : IsU64 f.frame_id
  pub contents : HasContents f

abbrev pub ReadsBody : Frame → Frame → Type 0
ReadsBody f g = (g.len ≡ f.len) × (g.type ≡ f.type) × IsFrame g

pub read_body-ReadsBody :
    (f : Frame) (buf : List ℕ)
    → HasContents f
    → IsBuffer buf
    → 4 ≤ length buf
    → Safely (ReadsBody f) (read_body f buf)
unfolding read_body
read_body-ReadsBody f buf c h room = Safely-bind (slice_to-Safely buf 4 room) λ flags p.
    Safely-bind (slice_from-Safely buf 4 room) λ buf₁ q.
      Safely-bind (read_varint-Safely truncated_stream_id buf₁ (rw q (IsBuffer-drop 4 buf h)))
        λ (stream, buf₂) (s, h₂).
          Safely-bind (read_varint-Safely truncated_frame_id buf₂ h₂) λ (id, buf₃) (i, h₃).
            let word : IsU32 (uint32_at flags) =
              uint32_at_word flags (rw p (All-take IsByte 4 buf h.0)) in
            let f' : Frame = record f {
              flags = uint32_at flags;
              stream_id = stream;
              frame_id = id;
            } in
            Safely-map
              (λ g ((len, type, fl, st, fr), k). (
                len,
                type,
                record {
                  flags_word = rw fl word;
                  stream_word = rw st s;
                  frame_word = rw fr i;
                  contents = k;
                },
              ))
              (read_payload-Keeps f' buf₃ (assumption) h₃)
