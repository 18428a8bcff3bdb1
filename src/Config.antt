-- ===== src/Config.antt =====
-- internal/config/config.go: the configuration of a proof, its defaults and the check of its bounds.
-- A duration counts nanoseconds.
pub mod Bounds
use vibefeld.Prelude.{
  ℕ, zero, suc, ◌*◌, ◌^◌, Bool, true, false, not, ◌||◌, Option, none, some, [], Text, text_eq,
  codes, ltb, leb, ◌==◌, if◌then◌else◌, Result, ok, err, fail_if, ◌>>=◌, ◌>>◌,
}
use vibefeld.Text.{ℤ, pos, negsuc}
use vibefeld.Node.{Timestamp}

-- A float64: a finite one is a sign and a multiple of 2 ^ -1074.
pub data Float64 : Type 0 where
  nan : Float64
  infinite : Bool → Float64
  finite : Bool → ℕ → Float64

-- The multiple that the number 1 is.
abbrev pub one : ℕ
one = 2 ^ 1074

-- The float64 next to 0.8.
abbrev pub four_fifths : ℕ
four_fifths = 7205759403792794 * 2 ^ 1021

-- `x < 0.0`
abbrev pub is_below_zero : Float64 → Bool
is_below_zero nan = false
is_below_zero (infinite negative) = negative
is_below_zero (finite negative n) = if n == 0 then false else negative

-- `x > 1.0`
abbrev pub is_above_one : Float64 → Bool
is_above_one nan = false
is_above_one (infinite negative) = not negative
is_above_one (finite negative n) = if negative then false else ltb one n

-- `x == 0`
abbrev pub is_zero_float : Float64 → Bool
is_zero_float (finite negative n) = n == 0
is_zero_float _ = false

abbrev pub is_zero : ℤ → Bool
is_zero (pos n) = n == 0
is_zero (negsuc n) = false

-- `x < low || x > high`, for bounds that are not negative.
abbrev pub is_outside : ℕ → ℕ → ℤ → Bool
is_outside low high (pos n) = ltb n low || ltb high n
is_outside low high (negsuc n) = true

abbrev pub second : ℕ
second = 1000000000

abbrev pub minute : ℕ
minute = 60 * second

abbrev pub hour : ℕ
hour = 60 * minute

-- `MaxDepthLimit`
abbrev pub max_depth_limit : ℕ
max_depth_limit = 100

pub record Config : Type 0 where
  pub title : Text
  pub conjecture : Text
  pub lock_timeout : ℤ
  pub max_depth : ℤ
  pub max_children : ℤ
  pub warn_depth : ℤ
  pub auto_correct_threshold : Float64
  pub schema_path : Text
  pub created : Timestamp
  pub version : Text

pub data ConfigError : Type 0 where
  empty_path read_failed invalid_json nil_config empty_title empty_conjecture : ConfigError
  bad_lock_timeout bad_max_depth bad_max_children bad_threshold bad_version : ConfigError

abbrev or_default : ℤ → ℕ → ℤ
or_default x d = if is_zero x then pos d else x

-- What `Load` puts in place of missing fields.
unfoldable pub fill_missing : Config → Config
fill_missing cfg = record cfg {
  lock_timeout = or_default cfg.lock_timeout (5 * minute);
  max_depth = or_default cfg.max_depth 20;
  max_children = or_default cfg.max_children 20;
  warn_depth = or_default cfg.warn_depth 3;
  auto_correct_threshold =
      if is_zero_float cfg.auto_correct_threshold
      then finite false four_fifths
      else cfg.auto_correct_threshold;
}

-- A file's bytes, and what `json.Unmarshal` makes of them, are arguments.
module _ {Bytes : Type 0} (read_file : Text → Option Bytes)
    (unmarshal : Bytes → Option Config) where
  parsed : Option Config → Result ConfigError Config
  unfolding fill_missing
  parsed none = err invalid_json
  parsed (some cfg) = ok (fill_missing cfg)

  unmarshalled : Option Bytes → Result ConfigError Config
  unfolding parsed
  unmarshalled none = err read_failed
  unmarshalled (some bytes) = parsed (unmarshal bytes)

  -- `Load`
  unfoldable pub load : Text → Result ConfigError Config
  unfolding unmarshalled
  load path = fail_if (text_eq path []) empty_path >> unmarshalled (read_file path)

-- `Default`
abbrev pub default_config : Timestamp → Config
default_config now = record {
  title = [];
  conjecture = [];
  lock_timeout = pos (5 * minute);
  max_depth = pos 20;
  max_children = pos 20;
  warn_depth = pos 3;
  auto_correct_threshold = finite false four_fifths;
  schema_path = [];
  created = now;
  version = codes "1.0";
}

-- `Validate`; `none` is a nil pointer
unfoldable pub validate : Option Config → Result ConfigError (Unit {0})
validate none = err nil_config
validate (some c) = do
  fail_if (text_eq c.title []) empty_title
  fail_if (text_eq c.conjecture []) empty_conjecture
  fail_if (is_outside second hour c.lock_timeout) bad_lock_timeout
  fail_if (is_outside 1 max_depth_limit c.max_depth) bad_max_depth
  fail_if (is_outside 1 100 c.max_children) bad_max_children
  fail_if (is_below_zero c.auto_correct_threshold || is_above_one c.auto_correct_threshold)
      bad_threshold
  fail_if (not (text_eq c.version (codes "1.0"))) bad_version
  ok tt
