-- ===== src/W3cdid/Url.antt =====
-- pkg/did/w3cdid/url.go, with what it uses of `net/url` and `strings`. A URL is its bytes.
use didem.Base.{
  ℕ, ◌+◌, ◌-◌, ◌*◌, ◌/◌, ◌%◌, Bool, true, false, ◌&&◌, ◌||◌, Option, none, some, List, [], ◌∷◌,
  ◌++◌, String, ltb, leb, nat_eqb, if◌then◌else◌, Result, ok, panic, not,
}
use Prim.Native.Char.{code}

abbrev pub Url : Type 0
Url = List ℕ

-- the UTF-8 bytes of a code point
abbrev pub utf8 : ℕ → Url
utf8 n =
    if ltb n 128
    then n ∷ []
    else if ltb n 2048
    then (192 + n / 64) ∷ (128 + n % 64) ∷ []
    else if ltb n 65536
    then (224 + n / 4096) ∷ (128 + (n / 64) % 64) ∷ (128 + n % 64) ∷ []
    else (240 + n / 262144) ∷ (128 + (n / 4096) % 64) ∷ (128 + (n / 64) % 64) ∷ (128 + n % 64) ∷ []

-- the bytes of a text, as Go has them
abbrev pub text_bytes : String → Url
text_bytes String.[] = []
text_bytes (String.◌∷◌ c s) = utf8 (code c) ++ text_bytes s

-- `strings.Cut` at one byte
unfoldable pub cut : ℕ → Url → Url × Option Url
cut sep [] = ([], none)
cut sep (b ∷ s) =
    let (before, after) = cut sep s in if nat_eqb b sep then ([], some s) else (b ∷ before, after)

abbrev pub or_empty : Option Url → Url
or_empty none = []
or_empty (some s) = s

abbrev pub is_ctl : ℕ → Bool
is_ctl b = ltb b 0x20 || nat_eqb b 0x7f

unfoldable pub has_ctl : Url → Bool
has_ctl [] = false
has_ctl (b ∷ s) = is_ctl b || has_ctl s

abbrev is_letter : ℕ → Bool
is_letter b = (leb b'a' b && leb b b'z') || (leb b'A' b && leb b b'Z')

abbrev is_digit : ℕ → Bool
is_digit b = leb b'0' b && leb b b'9'

abbrev is_scheme_mark : ℕ → Bool
is_scheme_mark b = is_digit b || nat_eqb b b'+' || nat_eqb b b'-' || nat_eqb b b'.'

-- `getScheme`, after its first byte: `none` means that no scheme is there.
unfoldable pub scheme_rest : Url → Option Url
scheme_rest [] = none
scheme_rest (b ∷ s) =
    if is_letter b || is_scheme_mark b
    then scheme_rest s
    else if nat_eqb b b':'
    then some s
    else none

-- `getScheme`: the rest behind `scheme:`, `some none` where no scheme is there, `none` the error
-- of a colon in front.
unfoldable pub get_scheme : Url → Option (Option Url)
unfolding scheme_rest
get_scheme [] = some none
get_scheme (b ∷ s) =
    if is_letter b then some (scheme_rest s) else if nat_eqb b b':' then none else some none

abbrev hex_digit : ℕ → Option ℕ
hex_digit b =
    if is_digit b
    then some (b - b'0')
    else if leb b'a' b && leb b b'f'
    then some (b - b'a' + 10)
    else if leb b'A' b && leb b b'F'
    then some (b - b'A' + 10)
    else none

abbrev hex_byte : Option ℕ → Option ℕ → Option Url → Option Url
hex_byte (some h) (some l) (some s) = some ((h * 16 + l) ∷ s)
hex_byte _ _ _ = none

abbrev keep_byte : ℕ → Option Url → Option Url
keep_byte b none = none
keep_byte b (some s) = some (b ∷ s)

-- `unescape` in a path or a fragment: `none` at a bad escape
unfoldable pub unescape : Url → Option Url
unescape [] = some []
unescape (b ∷ []) = if nat_eqb b b'%' then none else some (b ∷ [])
unescape (b ∷ c ∷ []) =
    let rest = unescape (c ∷ []) in if nat_eqb b b'%' then none else keep_byte b rest
unescape (b ∷ c ∷ d ∷ s) =
    let rest = unescape (c ∷ d ∷ s) in
    let escaped = hex_byte (hex_digit c) (hex_digit d) (unescape s) in
    if nat_eqb b b'%' then escaped else keep_byte b rest

-- The fields of `url.URL` that the package reads.
pub record Parsed : Type 0 where
  pub opaque : Url
  pub raw_query : Url
  pub fragment : Url

abbrev starts_slash : Url → Bool
starts_slash [] = false
starts_slash (b ∷ _) = nat_eqb b b'/'

abbrev starts_slashes : Url → Bool
starts_slashes [] = false
starts_slashes (b ∷ s) = nat_eqb b b'/' && starts_slash s

abbrev is_some : Option Url → Bool
is_some none = false
is_some (some _) = true

abbrev drop_slashes : Url → Url
drop_slashes (_ ∷ _ ∷ s) = s
drop_slashes s = []

abbrev no_path : Option Url → Option Url
no_path none = none
no_path (some _) = some []

-- The package reads the URL's opaque part. A hierarchical URL has none; its path and its authority
-- can still be errors. The user, host and port behind `//` are judged by `authority`.
module _ (authority : Url → Bool) where
  unfoldable pub hierarchical : Bool → Url → Option Url
  unfolding unescape cut
  hierarchical has_scheme rest =
      let (host, path) = cut b'/' (drop_slashes rest) in
      if starts_slashes rest && (has_scheme || not (starts_slash (drop_slashes rest)))
      then (if authority host then no_path (unescape (or_empty path)) else none)
      else no_path (unescape rest)

  unfoldable pub opaque_part : Bool → Url → Option Url
  unfolding hierarchical
  opaque_part true rest = if starts_slash rest then hierarchical true rest else some rest
  opaque_part false rest =
      if starts_slash rest
      then hierarchical false rest
      else if is_some (cut b':' (cut b'/' rest).0).1
      then none
      else hierarchical false rest

  abbrev with_fields : Option Url → Option Url → Option Url → Option Parsed
  with_fields (some o) query (some f) =
      some (record { opaque = o; raw_query = or_empty query; fragment = f })
  with_fields _ query _ = none

  abbrev parse_rest : Bool → Url → Option Url → Option Parsed
  parse_rest has_scheme rest frag =
      let (path, query) = cut b'?' rest in
      with_fields (opaque_part has_scheme path) query (unescape (or_empty frag))

  abbrev parse_scheme : Option (Option Url) → Url → Option Url → Option Parsed
  parse_scheme none raw frag = none
  parse_scheme (some none) raw frag = parse_rest false raw frag
  parse_scheme (some (some rest)) raw frag = parse_rest true rest frag

  -- `url.Parse`
  unfoldable pub parse : Url → Option Parsed
  unfolding cut has_ctl get_scheme unescape opaque_part
  parse raw =
      let (u, frag) = cut b'#' raw in if has_ctl u then none else parse_scheme (get_scheme u) u frag

  abbrev read : {A : Type 0} → (Parsed → A) → Option Parsed → Result A
  read f none = panic
  read f (some p) = ok (f p)

  -- Each method drops the error of `url.Parse`, whose URL is then nil.
  unfoldable pub method : Url → Result Url
  unfolding parse
  method u = read (λ p. (cut b':' p.opaque).0) (parse u)

  unfoldable pub id : Url → Result Url
  unfolding parse
  id u = read (λ p. or_empty (cut b':' p.opaque).1) (parse u)

  unfoldable pub query : Url → Result Url
  unfolding parse
  query u = read (λ p. p.raw_query) (parse u)

  unfoldable pub fragment : Url → Result Url
  unfolding parse
  fragment u = read (λ p. p.fragment) (parse u)
