-- ===== src/Pool/Clean.antt =====
-- Objects that are as new.
use spop.Base.{ℕ, zero, suc, ◌≡◌, refl, subst, List, [], ◌∷◌, map, Option, none, some, All}
use spop.Frame.{Frame, new_frame}
use spop.Pool.{KvBox, MessageBox, FrameBox, RequestBox, Pools, take_at, pick}
use spop.Pool.Notify.{message_of}

-- What a frame and a request hold.
abbrev pub frame_of : FrameBox → Frame
frame_of f = record {
  len = f.len;
  type = f.type;
  flags = f.flags;
  engine_id = f.engine_id;
  stream_id = f.stream_id;
  frame_id = f.frame_id;
  healthcheck = f.healthcheck;
  frame_size = f.frame_size;
  kv = f.kv.items;
  messages = map message_of f.messages;
  actions = f.actions;
}

abbrev pub IsCleanKv : KvBox → Type 0
IsCleanKv b = b.items ≡ []

abbrev pub IsCleanMessage : MessageBox → Type 0
IsCleanMessage m = (m.name ≡ []) × (m.kv.items ≡ [])

abbrev pub IsCleanFrame : FrameBox → Type 0
IsCleanFrame f = frame_of f ≡ new_frame

abbrev pub IsCleanRequest : RequestBox → Type 0
IsCleanRequest r = r ≡ record {
  id = r.id;
  engine_id = [];
  stream_id = 0;
  frame_id = 0;
  messages = none;
  actions = [];
}

pub record IsClean (p : Pools) : Type 0 where
  pub kvs_clean : All IsCleanKv p.kvs
  pub messages_clean : All IsCleanMessage p.messages
  pub frames_clean : All IsCleanFrame p.frames
  pub requests_clean : All IsCleanRequest p.requests

module _ {ℓ} {A : Type ℓ} (P : A → Type 0) where
  take_at-All :
      (xs : List A) (n : ℕ) (y : A) (ys : List A)
      → take_at xs n ≡ some (y, ys)
      → All P xs
      → P y × All P ys
  unfolding take_at
  take_at-All [] n y ys e h = cc
  take_at-All (x ∷ xs) zero y ys e (hx, h) =
      let same : x ≡ y = cc e in
      let rest : xs ≡ ys = cc e in (subst P same hx, subst (All P) rest h)
  take_at-All (x ∷ xs) (suc n) y ys e (hx, h) =
      go (take_at xs n) (λ z zs q. take_at-All xs n z zs q h) e
    where
      outcome : Option (A × List A) → Option (A × List A)
      outcome none = none
      outcome (some (z, zs)) = some (z, x ∷ zs)

      go :
          (o : Option (A × List A))
          → ((z : A) (zs : List A) → o ≡ some (z, zs) → P z × All P zs)
          → outcome o ≡ some (y, ys)
          → P y × All P ys
      go none k q = cc
      go (some (z, zs)) k q =
          let same : z ≡ y = cc q in
          let rest : x ∷ zs ≡ ys = cc q in
          let (hz, hzs) = k z zs refl in (subst P same hz, subst (All P) rest (hx, hzs))

  pub pick-All :
      (o : Option ℕ) (xs : List A) (y : A) (ys : List A)
      → pick o xs ≡ some (y, ys)
      → All P xs
      → P y × All P ys
  unfolding pick
  pick-All none xs y ys e h = cc
  pick-All (some n) xs y ys e h = take_at-All xs n y ys e h
