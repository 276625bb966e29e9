-- ===== src/Protocol/Modes.antt =====
-- protocol/types.rs: the three enums of the configuration, how they are printed and read.
use freematics_gui.Base.{Bool, true, false, ◌||◌, ◌≡◌, refl, if◌then◌else◌, List, [], ◌∷◌}
use freematics_gui.Text.{Text, codes, text_eq, to_ascii_lowercase, trim, is_whitespace}

pub data ServerProtocol : Type 0 where
  udp https_get https_post : ServerProtocol

pub data GnssMode : Type 0 where
  none standalone cellular : GnssMode

pub data StorageMode : Type 0 where
  none spiffs sd : StorageMode

-- `s` is one of the literals of a pattern.
abbrev pub one_of : Text → List Text → Bool
one_of s [] = false
one_of s (t ∷ ts) = text_eq s t || one_of s ts

-- `s.trim().to_ascii_lowercase()`
unfoldable pub normalised : Text → Text
unfolding trim to_ascii_lowercase is_whitespace
normalised s = to_ascii_lowercase (trim s)

unfoldable pub show_protocol : ServerProtocol → Text
show_protocol udp = codes "udp"
show_protocol https_get = codes "https_get"
show_protocol https_post = codes "https_post"

unfoldable pub protocol_from_str : Text → ServerProtocol
unfolding normalised text_eq
protocol_from_str s =
    if one_of (normalised s) (codes "https_get" ∷ codes "httpsget" ∷ codes "get" ∷ [])
    then https_get
    else if one_of (normalised s) (codes "https_post" ∷ codes "httpspost" ∷ codes "post" ∷ [])
    then https_post
    else udp

unfoldable pub show_gnss : GnssMode → Text
show_gnss GnssMode.none = codes "none"
show_gnss standalone = codes "standalone"
show_gnss cellular = codes "cellular"

unfoldable pub gnss_from_str : Text → GnssMode
unfolding normalised text_eq
gnss_from_str s =
    if one_of (normalised s) (codes "none" ∷ codes "off" ∷ codes "0" ∷ [])
    then GnssMode.none
    else if one_of (normalised s) (codes "cellular" ∷ codes "cell" ∷ [])
    then cellular
    else standalone

unfoldable pub show_storage : StorageMode → Text
show_storage StorageMode.none = codes "none"
show_storage spiffs = codes "spiffs"
show_storage sd = codes "sd"

unfoldable pub storage_from_str : Text → StorageMode
unfolding normalised text_eq
storage_from_str s =
    if one_of (normalised s) (codes "spiffs" ∷ [])
    then spiffs
    else if one_of (normalised s) (codes "sd" ∷ codes "sdcard" ∷ [])
    then sd
    else StorageMode.none

unfoldable pub bool_str : Bool → Text
bool_str true = codes "1"
bool_str false = codes "0"

unfoldable pub parse_bool : Text → Bool
unfolding normalised text_eq
parse_bool s = one_of (normalised s) (codes "1" ∷ codes "true" ∷ codes "yes" ∷ codes "on" ∷ [])

pub protocol_from_str-show_protocol : (p : ServerProtocol) → protocol_from_str (show_protocol p) ≡ p
unfolding protocol_from_str show_protocol
protocol_from_str-show_protocol udp = refl
protocol_from_str-show_protocol https_get = refl
protocol_from_str-show_protocol https_post = refl

pub gnss_from_str-show_gnss : (g : GnssMode) → gnss_from_str (show_gnss g) ≡ g
unfolding gnss_from_str show_gnss
gnss_from_str-show_gnss GnssMode.none = refl
gnss_from_str-show_gnss standalone = refl
gnss_from_str-show_gnss cellular = refl

pub storage_from_str-show_storage : (m : StorageMode) → storage_from_str (show_storage m) ≡ m
unfolding storage_from_str show_storage
storage_from_str-show_storage StorageMode.none = refl
storage_from_str-show_storage spiffs = refl
storage_from_str-show_storage sd = refl

pub parse_bool-bool_str : (b : Bool) → parse_bool (bool_str b) ≡ b
unfolding parse_bool bool_str
parse_bool-bool_str true = refl
parse_bool-bool_str false = refl

pub trim-show_protocol : (p : ServerProtocol) → trim (show_protocol p) ≡ show_protocol p
unfolding trim is_whitespace show_protocol
trim-show_protocol udp = refl
trim-show_protocol https_get = refl
trim-show_protocol https_post = refl

pub trim-show_gnss : (g : GnssMode) → trim (show_gnss g) ≡ show_gnss g
unfolding trim is_whitespace show_gnss
trim-show_gnss GnssMode.none = refl
trim-show_gnss standalone = refl
trim-show_gnss cellular = refl

pub trim-show_storage : (m : StorageMode) → trim (show_storage m) ≡ show_storage m
unfolding trim is_whitespace show_storage
trim-show_storage StorageMode.none = refl
trim-show_storage spiffs = refl
trim-show_storage sd = refl

pub trim-bool_str : (b : Bool) → trim (bool_str b) ≡ bool_str b
unfolding trim is_whitespace bool_str
trim-bool_str true = refl
trim-bool_str false = refl
