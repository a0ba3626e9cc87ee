-- ===== src/DiskCache/Metadata/RoundTrip.antt =====
-- What is written is read back.
use mathlib.Core.List.{append_assoc, append-nil}
use peretum.DiskCache.Metadata.{
  Header, max_meta_headers, max_meta_string, le16, le32, write_string, join, write_headers,
  write_metadata, read_u16, read_u32, read_full, read_string, read_headers, read_header_map,
  read_metadata_v2, read_metadata,
}
use peretum.Prelude.Bytes.{Bytes, codes, equal, equal_iff}
use peretum.Prelude.Dict.{assign, lookup, is_some, HasDistinctKeys}
use peretum.Prelude.{
  ℕ, ◌%◌, ◌^◌, ◌≤◌, ◌<◌, ◌≡◌, ◌∙◌, refl, ap, false, none, some, List, [], ◌∷◌, ◌++◌, map, arith,
  length, All, ltb,
}

read_u16-le16 : (n : ℕ) (rest : Bytes) → n < 2 ^ 16 → read_u16 (le16 n ++ rest) ≡ some (n, rest)
unfolding read_u16
read_u16-le16 n rest h = ap (λ (k : ℕ). some (k, rest)) (omega arith)

read_u32-le32 : (n : ℕ) (rest : Bytes) → n < 2 ^ 32 → read_u32 (le32 n ++ rest) ≡ some (n, rest)
unfolding read_u32
read_u32-le32 n rest h = ap (λ (k : ℕ). some (k, rest)) (omega arith)

read_full-append : (s rest : Bytes) → read_full (length s) (s ++ rest) ≡ some (s, rest)
unfolding read_full
read_full-append [] rest = refl
read_full-append (b ∷ s) rest = rw (read_full-append s rest)

read_string_lem :
    (n : ℕ) (rest : Bytes) → n ≤ max_meta_string → read_string (le32 n ++ rest) ≡ read_full n rest
unfolding read_string
read_string_lem n rest h =
    let fits : ltb max_meta_string n ≡ false = ground arith in
    rw (read_u32-le32 n rest (omega arith), fits)

-- A string within the limit.
pub read_string-write_string :
    (s rest : Bytes)
    → length s ≤ max_meta_string
    → read_string (write_string s ++ rest) ≡ some (s, rest)
unfolding write_string
read_string-write_string s rest h =
    let e : length s % 2 ^ 32 ≡ length s = omega arith in
    rw (e) (read_string_lem (length s) (s ++ rest) h ∙ read_full-append s rest)

-- What the reader makes of the headers: one value each, the values joined.
abbrev pub joined : Header → Header
joined headers = map (λ h. (h.0, join (codes ", ") h.1 ∷ [])) headers

-- The names and the joined values within the limit.
abbrev pub AreShort : Header → Type 0
AreShort headers =
    All (λ h. (length h.0 ≤ max_meta_string) × (length (join (codes ", ") h.1) ≤ max_meta_string))
      headers

-- Names that are not in the map yet are assigned at its end.
abbrev AreNew : Header → Header → Type 0
AreNew seen [] = Unit
AreNew seen ((k, vals) ∷ headers) =
    (lookup k seen ≡ none) × AreNew (seen ++ (k, join (codes ", ") vals ∷ []) ∷ []) headers

assign_new :
    (k : Bytes) (v : List Bytes) (m : Header) → lookup k m ≡ none → assign k v m ≡ m ++ (k, v) ∷ []
assign_new k v [] h = refl
assign_new k v ((j, w) ∷ m) h = ground (arith, assign_new k v m)

read_headers-write_headers :
    (headers seen : Header) (rest : Bytes)
    → AreShort headers
    → AreNew seen headers
    → read_headers (length headers) seen (write_headers headers ++ rest)
      ≡ some (seen ++ joined headers, rest)
unfolding read_headers write_headers
read_headers-write_headers [] seen rest h new = rw (append-nil seen)
read_headers-write_headers ((k, vals) ∷ headers) seen rest ((key, value), h) (fresh, new) =
    let v = join (codes ", ") vals in
    let tail = write_headers headers ++ rest in
    rw
      (
        append_assoc (write_string k) (write_string v ++ write_headers headers) rest,
        append_assoc (write_string v) (write_headers headers) rest,
        read_string-write_string k (write_string v ++ tail) key,
        read_string-write_string v tail value,
        assign_new k (v ∷ []) seen fresh,
      )
      (read_headers-write_headers headers (seen ++ (k, v ∷ []) ∷ []) rest h new
        ∙ ap (λ m. some (m, rest)) (append_assoc seen ((k, v ∷ []) ∷ []) (joined headers)))

lookup-append_new :
    (k j : Bytes) (v : List Bytes) (m : Header)
    → lookup j m ≡ none
    → equal k j ≡ false
    → lookup j (m ++ (k, v) ∷ []) ≡ none
lookup-append_new k j v [] h other = ground arith
lookup-append_new k j v ((i, w) ∷ m) h other = ground (arith, lookup-append_new k j v m)

still_new :
    (k : Bytes) (v : List Bytes) (seen headers : Header)
    → is_some (lookup k headers) ≡ false
    → All (λ h. lookup h.0 seen ≡ none) headers
    → All (λ h. lookup h.0 (seen ++ (k, v) ∷ []) ≡ none) headers
still_new k v seen [] absent new = tt
still_new k v seen ((j, w) ∷ headers) absent (fresh, new) = (
  lookup-append_new k j v seen fresh (ground (arith, equal_iff j k, equal_iff k j)),
  still_new k v seen headers (ground arith) new,
)

AreNew-HasDistinctKeys :
    (seen headers : Header)
    → HasDistinctKeys headers
    → All (λ h. lookup h.0 seen ≡ none) headers
    → AreNew seen headers
AreNew-HasDistinctKeys seen [] d new = tt
AreNew-HasDistinctKeys seen ((k, vals) ∷ headers) (absent, d) (fresh, new) = (
  fresh,
  AreNew-HasDistinctKeys (seen ++ (k, join (codes ", ") vals ∷ []) ∷ []) headers d
      (still_new k (join (codes ", ") vals ∷ []) seen headers absent new),
)

All-new : (headers : Header) → All (λ h. lookup {V = List Bytes} h.0 [] ≡ none) headers
All-new [] = tt
All-new (h ∷ headers) = (refl, All-new headers)

read_header_map-write_headers :
    (headers : Header) (rest : Bytes)
    → length headers ≤ max_meta_headers
    → AreShort headers
    → HasDistinctKeys headers
    → read_header_map (le32 (length headers % 2 ^ 32) ++ (write_headers headers ++ rest))
      ≡ some (joined headers, rest)
unfolding read_header_map
read_header_map-write_headers headers rest few short distinct =
    let n = length headers in
    let e : n % 2 ^ 32 ≡ n = omega arith in
    let fits : ltb max_meta_headers n ≡ false = ground arith in
    rw (e, read_u32-le32 n (write_headers headers ++ rest) (omega arith), fits)
      (read_headers-write_headers headers [] rest short
        (AreNew-HasDistinctKeys [] headers distinct (All-new headers)))

-- What the writer accepts and the reader reads back.
pub record IsStorable (status_code : ℕ) (host path : Bytes) (headers : Header) : Type 0 where
  pub status_fits : status_code < 2 ^ 16
  pub host_short : length host ≤ max_meta_string
  pub path_short : length path ≤ max_meta_string
  pub few : length headers ≤ max_meta_headers
  pub short : AreShort headers
  pub distinct : HasDistinctKeys headers

v2_lem :
    (status_code : ℕ) (host path : Bytes) (headers : Header) (rest : Bytes)
    → IsStorable status_code host path headers
    → read_metadata_v2 (
        le16 (status_code % 2 ^ 16)
        ++ (write_string host
            ++ (write_string path
                ++ (le32 (length headers % 2 ^ 32) ++ (write_headers headers ++ rest)))))
      ≡ some (
        record { status_code = status_code; host = host; path = path; headers = joined headers },
        rest,
      )
unfolding read_metadata_v2
v2_lem status_code host path headers rest s =
    let e : status_code % 2 ^ 16 ≡ status_code = omega (arith, s.status_fits) in
    rw (
      e,
      read_u16-le16 status_code _ s.status_fits,
      read_string-write_string host _ s.host_short,
      read_string-write_string path _ s.path_short,
      read_header_map-write_headers headers rest s.few s.short s.distinct,
    )

-- The reader gives back the status, the host, the path and the headers that were written, the
-- values of a header joined into one, and leaves what follows: for statuses below 2 ^ 16, strings
-- of at most maxMetaString bytes, at most maxMetaHeaders headers, and no name twice.
pub read_metadata-write_metadata :
    (status_code : ℕ) (host path : Bytes) (headers : Header) (rest : Bytes)
    → IsStorable status_code host path headers
    → read_metadata (write_metadata status_code host path headers ++ rest)
      ≡ some (
        record { status_code = status_code; host = host; path = path; headers = joined headers },
        rest,
      )
unfolding read_metadata write_metadata
read_metadata-write_metadata status_code host path headers rest s =
    simp (append_assoc) (v2_lem status_code host path headers rest s)
