-- ===== src/Handshake/Runs.antt =====
-- Runs of handshake.go at concrete inputs, and its theorems there.
use spop.Base.{
  ℕ, ◌*◌, ◌^◌, ◌≡◌, refl, true, false, List, [], ◌∷◌, some, none, ◌↔◌, codes, eq_bytes, pos, negsuc,
}
use spop.TypedData.{string, uint32}
use spop.Kv.{get}
use spop.Frame.{Frame, new_frame, max_frame_size}
use spop.Handshake.{
  agreed, disconnect, bad_version, status_bad_version, split_list, parse_version, version_supported,
  string_item, negotiate,
}
use spop.Handshake.Text.{atoi, trim_space, split, cut}
use spop.Handshake.Versions.{AnyServes, version_supported-AnyServes}
use spop.Handshake.Rules.{Verdict, negotiate-Verdict}

split_spaces : split_list (codes " 1.0 ,, 2.0") ≡ codes "1.0" ∷ codes "2.0" ∷ []
unfolding split_list split trim_space
split_spaces = refl

parse_negative : parse_version (codes "2.-3") ≡ some (pos 2, negsuc 2)
unfolding parse_version cut atoi
parse_negative = refl

parse_junk : parse_version (codes "2.x") ≡ none
unfolding parse_version cut atoi
parse_junk = refl

supports_second : version_supported (codes "1.0, 2.0") ≡ true
unfolding version_supported cut atoi split trim_space
supports_second = refl

supports_older : version_supported (codes "1.9") ≡ false
unfolding version_supported cut atoi split trim_space
supports_older = refl

abbrev hello : List ℕ → ℕ → Frame
hello versions n = record new_frame {
  kv =
      record { name = codes "supported-versions"; value = string versions }
      ∷ record { name = codes "max-frame-size"; value = uint32 n }
      ∷ record { name = codes "capabilities"; value = string (codes "pipelining") }
      ∷ [];
}

agrees_lower : negotiate (hello (codes "2.0") 16384) ≡ agreed 16384
unfolding negotiate version_supported cut atoi split trim_space get eq_bytes string_item
agrees_lower = refl

agrees_own : negotiate (hello (codes "2.0") (16 * 2 ^ 20)) ≡ agreed max_frame_size
unfolding negotiate version_supported cut atoi split trim_space get eq_bytes string_item
agrees_own = refl

refuses_older :
    negotiate (hello (codes "1.9") 16384)
    ≡ disconnect status_bad_version (bad_version (codes "1.9"))
unfolding negotiate version_supported cut atoi split trim_space get eq_bytes string_item
refuses_older = refl

version_supported-AnyServes_example :
    (version_supported (codes "1.0, 2.0") ≡ true) ↔ AnyServes (split_list (codes "1.0, 2.0"))
version_supported-AnyServes_example = version_supported-AnyServes (codes "1.0, 2.0")

negotiate-Verdict_example :
    (negotiate (hello (codes "2.0") 16384) ≡ agreed 16384)
    ↔ Verdict (hello (codes "2.0") 16384) (agreed 16384)
negotiate-Verdict_example = negotiate-Verdict (hello (codes "2.0") 16384) (agreed 16384)
