-- ===== src/Config.antt =====
-- The configuration: crates/passbook-core/src/config.rs. The address parser and the checksummed spelling are
-- those of alloy-primitives, an external library, and so parameters.
pub mod Addresses
pub mod Answers
use passbook.Prelude.{
  ℕ, Bool, true, false, ◌&&◌, ◌||◌, not, Option, none, some, List, [], ◌∷◌, leb, ◌==◌,
  if◌then◌else◌, any, contains, ◌≡◌,
}
use passbook.Prelude.Text.{Text, codes, text_eq, starts_with}
use passbook.Prelude.Result.{Result, ok, err}

-- `char::is_whitespace`
unfoldable pub is_whitespace : ℕ → Bool
is_whitespace c =
    leb 0x9 c && leb c 0xd
    || c == 0x20
    || c == 0x85
    || c == 0xa0
    || c == 0x1680
    || leb 0x2000 c && leb c 0x200a
    || c == 0x2028
    || c == 0x2029
    || c == 0x202f
    || c == 0x205f
    || c == 0x3000

-- `s.trim()`
unfoldable pub trim_start : Text → Text
unfolding is_whitespace
trim_start [] = []
trim_start (c ∷ s) = let rest = trim_start s in if is_whitespace c then rest else c ∷ s

abbrev pub keep_unless_blank : ℕ → Text → Text
keep_unless_blank c [] = if is_whitespace c then [] else c ∷ []
keep_unless_blank c (d ∷ s) = c ∷ d ∷ s

unfoldable pub trim_end : Text → Text
unfolding is_whitespace
trim_end [] = []
trim_end (c ∷ s) = keep_unless_blank c (trim_end s)

unfoldable pub trim : Text → Text
unfolding trim_start trim_end
trim s = trim_end (trim_start s)

abbrev pub is_ascii_lowercase : ℕ → Bool
is_ascii_lowercase c = leb 97 c && leb c 122

abbrev pub is_ascii_uppercase : ℕ → Bool
is_ascii_uppercase c = leb 65 c && leb c 90

-- `Address::from_str` and `to_checksum_buffer(None)`; the checksummed spelling begins with "0x".
pub record AddressFormat : Type 0 where
  pub from_str : Text → Option ℕ
  pub checksum : ℕ → Text
  pub checksum_prefix : (a : ℕ) → starts_with (checksum a) (codes "0x") ≡ true

pub data ConfigError : Type 0 where
  invalid_address : Text → ConfigError
  invalid_checksum : Text → Text → ConfigError

-- `a.strip_prefix("0x").or_else(|| a.strip_prefix("0X")).unwrap_or(a)`
unfoldable pub strip_prefix : Text → Text
strip_prefix [] = []
strip_prefix (c ∷ []) = c ∷ []
strip_prefix (c ∷ d ∷ s) = if c == 48 && (d == 120 || d == 88) then s else c ∷ d ∷ s

-- Both cases among the letters behind the prefix.
unfoldable pub is_mixed_case : Text → Bool
unfolding strip_prefix
is_mixed_case a = any is_ascii_lowercase (strip_prefix a) && any is_ascii_uppercase (strip_prefix a)

pub record PassbookConfig : Type 0 where
  pub watched : List ℕ
  pub db_path : Text

abbrev pub insert_watched : ℕ → List ℕ → List ℕ
insert_watched a watched = if contains watched a then watched else a ∷ watched

module _ (addresses : AddressFormat) where
  abbrev pub check_spelling : Text → Option ℕ → Result ConfigError ℕ
  check_spelling a none = err (invalid_address a)
  check_spelling a (some addr) =
      if is_mixed_case a && not (text_eq a (addresses.checksum addr))
      then err (invalid_checksum a (addresses.checksum addr))
      else ok addr

  unfoldable pub parse_watched_address : Text → Result ConfigError ℕ
  unfolding is_mixed_case text_eq
  parse_watched_address a = check_spelling a (addresses.from_str a)

  abbrev pub then_insert :
      Result ConfigError ℕ
      → List ℕ
      → (List ℕ → Result ConfigError (List ℕ))
      → Result ConfigError (List ℕ)
  then_insert (err e) watched next = err e
  then_insert (ok a) watched next = next (insert_watched a watched)

  abbrev pub unless_blank :
      Text → List ℕ → (List ℕ → Result ConfigError (List ℕ)) → Result ConfigError (List ℕ)
  unless_blank [] watched next = next watched
  unless_blank (c ∷ s) watched next = then_insert (parse_watched_address (c ∷ s)) watched next

  unfoldable pub watch_all : List Text → List ℕ → Result ConfigError (List ℕ)
  unfolding trim parse_watched_address
  watch_all [] watched = ok watched
  watch_all (a ∷ addrs) watched = unless_blank (trim a) watched (watch_all addrs)

  abbrev pub with_path : Text → Result ConfigError (List ℕ) → Result ConfigError PassbookConfig
  with_path db_path (err e) = err e
  with_path db_path (ok watched) = ok (record { watched = watched; db_path = db_path })

  unfoldable pub from_parts : List Text → Text → Result ConfigError PassbookConfig
  unfolding watch_all
  from_parts addrs db_path = with_path db_path (watch_all addrs [])

-- `!self.watched.is_empty()`
unfoldable pub enabled_set : List ℕ → Bool
enabled_set [] = false
enabled_set (a ∷ watched) = true

abbrev pub enabled : PassbookConfig → Bool
enabled cfg = enabled_set cfg.watched
