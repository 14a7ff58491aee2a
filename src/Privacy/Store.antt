-- ===== src/Privacy/Store.antt =====
-- privacy/store/pebble.go: PebbleStore, on an ordered key-value database. Keys and values are bytes;
-- times are nanoseconds since 1970.
pub mod Keys
pub mod Lookup
pub mod Deletion
mod Tests
use ao_eo.Base.{
  ℕ, zero, suc, ◌+◌, ◌*◌, ◌/◌, ◌%◌, ◌^◌, ◌≡◌, Bool, true, false, ◌&&◌, ◌||◌, List, [], ◌∷◌, ◌++◌,
  Option, none, some, if◌then◌else◌, ◌==◌, Text, ltb, leb, length, drop, take,
}

-- The byte of `b` at weight `256 ^ n`, and the eight of them from the highest on
abbrev pub big_endian : ℕ → List ℕ
big_endian t =
    t / 256 ^ 7 % 256
    ∷ t / 256 ^ 6 % 256
    ∷ t / 256 ^ 5 % 256
    ∷ t / 256 ^ 4 % 256
    ∷ t / 256 ^ 3 % 256
    ∷ t / 256 ^ 2 % 256
    ∷ t / 256 % 256
    ∷ t % 256
    ∷ []

-- binary.BigEndian.Uint64
unfoldable pub from_bytes : ℕ → List ℕ → ℕ
from_bytes acc [] = acc
from_bytes acc (b ∷ bs) = from_bytes (acc * 256 + b) bs

unfoldable pub encode_value : ℕ → Text → Text
encode_value t v = big_endian (t % 2 ^ 64) ++ v

-- The time and the text; a value that is too short has the time zero.
unfoldable pub decode_value : Text → ℕ × Text
unfolding from_bytes
decode_value b = if ltb (length b) 8 then (0, b) else (from_bytes 0 (take 8 b), drop 8 b)

-- keyPrefix + session + keySep + direction + keySep + text
unfoldable pub key_in : ℕ → Text → Text → Text
key_in direction session text = b's' ∷ b':' ∷ (session ++ (b':' ∷ direction ∷ b':' ∷ text))

unfoldable pub key_fake : Text → Text → Text
unfolding key_in
key_fake session fake = key_in b'f' session fake

unfoldable pub key_orig : Text → Text → Text
unfolding key_in
key_orig session original = key_in b'o' session original

unfoldable pub session_prefix : Text → Text
session_prefix session = b's' ∷ b':' ∷ (session ++ b':' ∷ [])

unfoldable pub session_upper_bound : Text → Text
session_upper_bound session = b's' ∷ b':' ∷ (session ++ b';' ∷ [])

abbrev pub text_eq : Text → Text → Bool
text_eq [] [] = true
text_eq [] (d ∷ t) = false
text_eq (c ∷ s) [] = false
text_eq (c ∷ s) (d ∷ t) = c == d && text_eq s t

-- The value that a batch leaves under a key
unfoldable pub last_set : List (Text × Text) → Text → Option Text
last_set [] k = none
last_set ((j, v) ∷ batch) k = elim (last_set batch k) [
  | some w ↦ some w
  | none ↦ if text_eq j k then some v else none
]

-- The order of keys: bytes.Compare(s, t) < 0, and <= 0
abbrev pub before : Text → Text → Bool
before s [] = false
before [] (d ∷ t) = true
before (c ∷ s) (d ∷ t) = ltb c d || c == d && before s t

abbrev pub up_to : Text → Text → Bool
up_to [] t = true
up_to (c ∷ s) [] = false
up_to (c ∷ s) (d ∷ t) = ltb c d || c == d && up_to s t

abbrev pub between : Text → Text → Text → Bool
between lo hi k = up_to lo k && before k hi

-- The database github.com/cockroachdb/pebble: Get, Apply of a batch of sets, and DeleteRange, whose
-- upper bound is exclusive. A batch is applied whole, and its later sets prevail.
pub record Pebble (D : Type 0) : Type 0 where
  pub get : D → Text → Option Text
  pub apply_batch : List (Text × Text) → D → D
  pub get-set :
      (batch : List (Text × Text)) (d : D) (k : Text) {v : Text}
      → last_set batch k ≡ some v
      → get (apply_batch batch d) k ≡ some v
  pub get-unset :
      (batch : List (Text × Text)) (d : D) (k : Text)
      → last_set batch k ≡ none
      → get (apply_batch batch d) k ≡ get d k
  pub delete_range : Text → Text → D → D
  pub get-deleted :
      (lo hi : Text) (d : D) (k : Text)
      → between lo hi k ≡ true
      → get (delete_range lo hi d) k ≡ none
  pub get-kept :
      (lo hi : Text) (d : D) (k : Text)
      → between lo hi k ≡ false
      → get (delete_range lo hi d) k ≡ get d k

module _ {D : Type 0} (db : Pebble D) where
  -- Set
  unfoldable pub set_mapping : Text → Text → Text → ℕ → D → D
  set_mapping session fake original now = db.apply_batch (
      (key_fake session fake, encode_value now original)
      ∷ (key_orig session original, encode_value now fake)
      ∷ [])

  abbrev pub text_of : Option Text → Option Text
  text_of none = none
  text_of (some b) = some (decode_value b).1

  -- GetOriginal and GetFake, where the database gives no error but that of a missing key
  unfoldable pub get_original : Text → Text → D → Option Text
  get_original session fake d = text_of (db.get d (key_fake session fake))

  unfoldable pub get_fake : Text → Text → D → Option Text
  get_fake session original d = text_of (db.get d (key_orig session original))

  -- DeleteSession
  unfoldable pub delete_session : Text → D → D
  unfolding session_prefix session_upper_bound
  delete_session session d =
      db.delete_range (session_prefix session) (session_upper_bound session) d
