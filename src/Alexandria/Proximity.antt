-- ===== src/Alexandria/Proximity.antt =====
-- The order of `iter_closest` and `iter_furthest` of ddht/v5_1/alexandria/content_storage.py beside
-- the distance of ddht/v5_1/alexandria/content.py.
use ddht.Alexandria.Storage.{Row, short_id, compute_content_distance, content_key_to_content_id}
use ddht.Prelude.{ℕ, List, [], ◌∷◌, ◌≡◌, ◌/◌, ◌^◌}
use ddht.Prelude.Bytes.{Bytes, bytes_eq}

module _ (sha256 : Bytes → Bytes) where
  -- each row holds the high bits of the id of its key
  abbrev pub AllStamped : List Row → Type 0
  AllStamped [] = Unit
  AllStamped (r ∷ rows) =
      (r.short_content_id ≡ short_id (content_key_to_content_id sha256 r.content_key))
      × AllStamped rows

  -- the distance of a key's content to a node, less its low bits
  unfoldable pub high_distance : Bytes → Bytes → ℕ
  high_distance target key =
      compute_content_distance target (content_key_to_content_id sha256 key) / 2 ^ 193
