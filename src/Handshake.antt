-- ===== src/Handshake.antt =====
-- worker/handshake.go: the checks of a HAPROXY-HELLO. Strings are bytes, and the functions of
-- `strings` and `strconv` that the file calls are written out in Handshake/Text.
pub mod Text
pub mod Versions
pub mod Rules
mod Runs
use spop.Base.{
  ℕ, ◌+◌, ◌<◌, Bool, true, false, ◌&&◌, ◌||◌, List, [], ◌∷◌, Option, none, some, Error, ltb, ◌==◌,
  if◌then◌else◌, length, codes, ℤ, pos, negsuc,
}
use spop.TypedData.{Value, string, uint32}
use spop.Kv.{get}
use spop.Frame.{Frame, max_frame_size}
use Text.{cut, atoi, split, trim_space}

abbrev pub version_major : ℕ
version_major = 2

abbrev pub version_minor : ℕ
version_minor = 0

-- `strconv.Itoa(versionMajor) + "." + strconv.Itoa(versionMinor)`
abbrev pub version : List ℕ
version = codes "2.0"

abbrev pub min_frame_size : ℕ
min_frame_size = 256

-- Section 3.5's status codes.
abbrev pub status_normal : ℕ
status_normal = 0

abbrev pub status_io_error : ℕ
status_io_error = 1

abbrev pub status_timeout : ℕ
status_timeout = 2

abbrev pub status_frame_too_big : ℕ
status_frame_too_big = 3

abbrev pub status_invalid_frame : ℕ
status_invalid_frame = 4

abbrev pub status_no_version : ℕ
status_no_version = 5

abbrev pub status_no_max_frame_size : ℕ
status_no_max_frame_size = 6

abbrev pub status_no_capabilities : ℕ
status_no_capabilities = 7

abbrev pub status_bad_version : ℕ
status_bad_version = 8

abbrev pub status_bad_frame_size : ℕ
status_bad_frame_size = 9

abbrev pub status_unknown : ℕ
status_unknown = 99

-- The texts that go with a status code, one constructor for each format string.
pub data Notice : Type 0 where
  no_versions no_max_frame_size no_usable_max_frame_size no_capabilities : Notice
  bad_version : List ℕ → Notice
  bad_frame_size : ℕ → Notice
  already_ready disconnect_before_handshake notify_before_handshake unexpected_type : Notice
  closed_by_server shutting_down timed_out invalid_frame : Notice
  of_error : Error → Notice

-- `negotiated` and `disconnectError`
pub data Negotiation : Type 0 where
  agreed : ℕ → Negotiation
  disconnect : ℕ → Notice → Negotiation

unfoldable pub as_string : Option Value → Option (List ℕ)
as_string (some (string s)) = some s
as_string _ = none

unfoldable pub as_uint32 : Value → Option ℕ
as_uint32 (uint32 n) = some n
as_uint32 _ = none

-- `stringItem`
unfoldable pub string_item : Frame → List ℕ → Option (List ℕ)
unfolding as_string
string_item f name = as_string (get f.kv name)

-- `parseVersion`; `none` is ok = false.
unfoldable pub parse_minor : ℤ → List ℕ → Option (ℤ × ℤ)
parse_minor major fraction = elim (atoi fraction) [ none ↦ none | some minor ↦ some (major, minor) ]

unfoldable pub parse_both : List ℕ → List ℕ → Option (ℤ × ℤ)
parse_both number fraction = elim (atoi number) [
  | none ↦ none
  | some major ↦ parse_minor major fraction
]

unfoldable pub parse_version : List ℕ → Option (ℤ × ℤ)
unfolding parse_both parse_minor
parse_version entry = elim (cut b'.' entry) [
  | none ↦ none
  | some (number, fraction) ↦ parse_both number fraction
]

-- `major > versionMajor || (major == versionMajor && minor >= versionMinor)`
unfoldable pub is_supported : ℤ × ℤ → Bool
is_supported (pos major, pos minor) = ltb version_major major || major == version_major
is_supported (pos major, negsuc minor) = ltb version_major major
is_supported (negsuc major, minor) = false

-- The entries that are not blank, without the spaces round them.
unfoldable pub keep_entries : List (List ℕ) → List (List ℕ)
keep_entries [] = []
keep_entries (part ∷ parts) =
    let entry = trim_space part in
    if length entry == 0 then keep_entries parts else entry ∷ keep_entries parts

-- `splitList`
unfoldable pub split_list : List ℕ → List (List ℕ)
unfolding keep_entries
split_list list = if length (trim_space list) == 0 then [] else keep_entries (split b',' list)

unfoldable pub supports_entry : Option (ℤ × ℤ) → Bool
supports_entry none = false
supports_entry (some v) = is_supported v

unfoldable pub any_supported : List (List ℕ) → Bool
any_supported [] = false
any_supported (entry ∷ entries) = supports_entry (parse_version entry) || any_supported entries

-- `versionSupported`
unfoldable pub version_supported : List ℕ → Bool
unfolding any_supported supports_entry parse_version split_list is_supported
version_supported list = any_supported (split_list list)

-- The rest of `negotiate`, from the version on: the frame size, then the capabilities.
unfoldable pub check_capabilities : Frame → ℕ → Negotiation
check_capabilities f peer_frame_size = elim (string_item f (codes "capabilities")) [
  | none ↦ disconnect status_no_capabilities no_capabilities
  | some _ ↦ agreed (if ltb max_frame_size peer_frame_size then max_frame_size else peer_frame_size)
]

unfoldable pub check_frame_size : Frame → Option ℕ → Negotiation
check_frame_size f none = disconnect status_no_max_frame_size no_usable_max_frame_size
check_frame_size f (some peer_frame_size) =
    if ltb peer_frame_size min_frame_size
    then disconnect status_bad_frame_size (bad_frame_size peer_frame_size)
    else check_capabilities f peer_frame_size

unfoldable pub check_max_frame_size : Frame → Option Value → Negotiation
check_max_frame_size f none = disconnect status_no_max_frame_size no_max_frame_size
check_max_frame_size f (some value) = check_frame_size f (as_uint32 value)

unfoldable pub check_versions : Frame → Option (List ℕ) → Negotiation
check_versions f none = disconnect status_no_version no_versions
check_versions f (some versions) =
    if version_supported versions
    then check_max_frame_size f (get f.kv (codes "max-frame-size"))
    else disconnect status_bad_version (bad_version versions)

unfoldable pub negotiate : Frame → Negotiation
unfolding check_versions check_max_frame_size check_frame_size check_capabilities as_uint32
negotiate f = check_versions f (string_item f (codes "supported-versions"))
