-- ===== src/Kv/Encoding.antt =====
-- `Bytes` of any items: it ends with bytes or with an error.
use spop.Base.{
  ℕ, List, [], ◌∷◌, ◌++◌, length, All, Safely, returns, Safely-bind, slice_to-Safely, arith,
}
use spop.TypedData.Encoding.{uvarint_bytes-Safely, encode-Safely}
use spop.Kv.{Kv, IsItem, bytes_loop, kv_bytes}

bytes_loop-Safely :
    (kv : Kv) (buf : List ℕ) → All IsItem kv → Safely (λ b. Unit {0}) (bytes_loop kv buf)
unfolding bytes_loop
bytes_loop-Safely [] buf h = returns tt
bytes_loop-Safely (i ∷ kv) buf ((name, value), h) =
    Safely-bind (uvarint_bytes-Safely (length i.name) (omega (arith, name.1))) λ key_len _.
      Safely-bind (encode-Safely i.value [] value) λ (encoded, n) room.
        Safely-bind (slice_to-Safely encoded n room)
          λ bytes _. bytes_loop-Safely kv (buf ++ (key_len ++ (i.name ++ bytes))) h

pub kv_bytes-Safely : (kv : Kv) → All IsItem kv → Safely (λ b. Unit {0}) (kv_bytes kv)
unfolding kv_bytes
kv_bytes-Safely kv h = bytes_loop-Safely kv [] h
