-- ===== src/DiskCache/Metadata.antt =====
-- The binary metadata format of internal/cache/disk/operations.go. A `bytes.Buffer` takes every
-- write, so the writer has no error. The reader returns the rest of the input beside its value;
-- `none` is an error.
--
-- A header map is a list of names with their values, in the order in which a `range` loop visits
-- them.
pub mod RoundTrip
use peretum.Prelude.Bytes.{Bytes, codes, equal}
use peretum.Prelude.Dict.{assign}
use peretum.Prelude.{
  ℕ, zero, suc, ◌+◌, ◌*◌, ◌/◌, ◌%◌, ◌^◌, Bool, ◌||◌, Option, none, some, ◌>>=◌, List, [], ◌∷◌, ◌++◌,
  map, ◌==◌, ltb, if◌then◌else◌, length,
}

abbrev pub Header : Type 0
Header = List (Bytes × List Bytes)

abbrev pub meta_version : ℕ
meta_version = 2

abbrev pub max_meta_headers : ℕ
max_meta_headers = 10000

abbrev pub max_meta_string : ℕ
max_meta_string = 2 ^ 20

-- `binary.Write` of a uint16 and a uint32, little endian.
abbrev pub le16 : ℕ → Bytes
le16 n = (n % 256) ∷ (n / 256 % 256) ∷ []

abbrev pub le32 : ℕ → Bytes
le32 n = (n % 256) ∷ (n / 256 % 256) ∷ (n / 65536 % 256) ∷ (n / 16777216 % 256) ∷ []

unfoldable pub write_string : Bytes → Bytes
write_string s = le32 (length s % 2 ^ 32) ++ s

-- `strings.Join(vals, ", ")`
unfoldable pub join : Bytes → List Bytes → Bytes
join sep [] = []
join sep (s ∷ []) = s
join sep (s ∷ t ∷ ss) = s ++ sep ++ join sep (t ∷ ss)

unfoldable pub write_headers : Header → Bytes
unfolding write_string join
write_headers [] = []
write_headers ((k, vals) ∷ headers) =
    write_string k ++ (write_string (join (codes ", ") vals) ++ write_headers headers)

unfoldable pub write_metadata : ℕ → Bytes → Bytes → Header → Bytes
unfolding write_headers
write_metadata status_code host path headers =
    meta_version
    ∷ (le16 (status_code % 2 ^ 16)
        ++ (write_string host
            ++ (write_string path ++ (le32 (length headers % 2 ^ 32) ++ write_headers headers))))

-- A read of the next bytes.
abbrev pub Reader : Type 0 → Type 0
Reader A = Bytes → Option (A × Bytes)

unfoldable pub read_u16 : Reader ℕ
read_u16 (a ∷ b ∷ rest) = some (a + 256 * b, rest)
read_u16 _ = none

unfoldable pub read_u32 : Reader ℕ
read_u32 (a ∷ b ∷ c ∷ d ∷ rest) = some (a + 256 * b + 65536 * c + 16777216 * d, rest)
read_u32 _ = none

unfoldable pub push_byte : ℕ → Option (Bytes × Bytes) → Option (Bytes × Bytes)
push_byte b none = none
push_byte b (some (bs, rest)) = some (b ∷ bs, rest)

-- `io.ReadFull` into a buffer of a given length.
unfoldable pub read_full : ℕ → Reader Bytes
unfolding push_byte
read_full zero input = some ([], input)
read_full (suc n) [] = none
read_full (suc n) (b ∷ input) = push_byte b (read_full n input)

unfoldable pub read_string : Reader Bytes
read_string input = do
  (len, rest) ← read_u32 input
  if ltb max_meta_string len then none else read_full len rest

-- The loop over `numHeaders` headers: each assigns a list of one value.
unfoldable pub read_headers : ℕ → Header → Reader Header
read_headers zero headers input = some (headers, input)
read_headers (suc n) headers input = do
  (key, rest) ← read_string input
  (val, rest') ← read_string rest
  read_headers n (assign key (val ∷ []) headers) rest'

pub record Metadata : Type 0 where
  pub status_code : ℕ
  pub host : Bytes
  pub path : Bytes
  pub headers : Header

unfoldable pub read_header_map : Reader Header
read_header_map input = do
  (num_headers, rest) ← read_u32 input
  if ltb max_meta_headers num_headers then none else read_headers num_headers [] rest

unfoldable pub read_metadata_v1 : Reader Metadata
read_metadata_v1 input = do
  (status, rest) ← read_u16 input
  (headers, rest') ← read_header_map rest
  some (record { status_code = status; host = []; path = []; headers = headers }, rest')

unfoldable pub read_metadata_v2 : Reader Metadata
read_metadata_v2 input = do
  (status, rest) ← read_u16 input
  (host, rest1) ← read_string rest
  (path, rest2) ← read_string rest1
  (headers, rest3) ← read_header_map rest2
  some (record { status_code = status; host = host; path = path; headers = headers }, rest3)

unfoldable pub read_metadata : Reader Metadata
read_metadata [] = none
read_metadata (version ∷ rest) =
    if version == 1 || version == 2
    then read_metadata_v2 rest
    else read_metadata_v1 (version ∷ rest)
