-- ===== src/Cli.antt =====
-- The command `em send` of internal/cli/em.go, from its flags to the request that it sends.
pub mod Sent
use didem.Base.{
  ℕ, zero, suc, ◌+◌, Bool, true, false, Option, none, some, List, [], ◌∷◌, ◌++◌, String, string_eq,
  ◌==◌, nat_eqb, length, drop, if◌then◌else◌, starts_with, lookup, insert, Result, ok, err, panic,
}
use didem.W3cdid.Url.{text_bytes}
use didem.Tx.{Bytes}

pub record SendFlags : Type 0 where
  pub subject : String
  pub from : String
  pub to : List String
  pub headers : List String
  pub file : List String
  pub stdin_split : Bytes

pub record SendPart : Type 0 where
  pub mime : String
  pub contents : Bytes

pub record SendRequest : Type 0 where
  pub headers : List (String × String)
  pub to : List String
  pub from : String
  pub parts : List SendPart

-- The files, and the server: the errors of its answer, or an error of the call, with which there is no
-- answer.
pub record CliEnv : Type 0 where
  pub read_file : String → Result Bytes
  pub read_stdin : Result Bytes
  pub detect_mime : Bytes → String
  pub call : SendRequest → Option (List String)

-- `strings.SplitN(s, "=", 1)`: with one part at most it is the whole text
abbrev pub split_one : String → List String
split_one s = s ∷ []

-- the parts of a header that has two of them
abbrev pub two_parts : List String → Option (String × String)
two_parts (k ∷ v ∷ []) = some (k, v)
two_parts _ = none

abbrev pub with_header :
    Option (String × String) → List (String × String) → Option (List (String × String))
with_header none m = none
with_header (some (k, v)) m = some (insert k v m)

-- the loop over the flags `--header`; the command ends at the first one of another form
unfoldable pub add_headers : List String → List (String × String) → Option (List (String × String))
add_headers [] m = some m
add_headers (h ∷ hs) m =
    let next = add_headers hs in
    elim (with_header (two_parts (split_one h)) m) [ none ↦ none | some m' ↦ next m' ]

-- `bytes.Split` at a separator that is not empty; the number is what is left of one that was found
unfoldable pub split : ℕ → Bytes → Bytes → Bytes → List Bytes
split skip sep part [] = part ∷ []
split (suc n) sep part (b ∷ bs) = split n sep part bs
split zero sep part (b ∷ bs) =
    let found = split (length (drop 1 sep)) sep [] bs in
    let more = split 0 sep (part ++ (b ∷ [])) bs in
    elim (starts_with sep (b ∷ bs)) [ true ↦ part ∷ found | false ↦ more ]

abbrev pub split_at : Bytes → Bytes → List Bytes
split_at [] input = input ∷ []
split_at (d ∷ sep) input = split 0 (d ∷ sep) [] input

-- an error is logged, and what was read is empty
abbrev pub or_empty : Result Bytes → Bytes
or_empty (ok b) = b
or_empty _ = []

abbrev pub or_nothing : Bytes → Result Bytes → List Bytes
or_nothing sep (ok b) = split_at sep b
or_nothing sep _ = []

module _ (env : CliEnv) (sep : Bytes) where
  abbrev pub parts_of : List Bytes → List SendPart
  parts_of [] = []
  parts_of (b ∷ l) = record { mime = env.detect_mime b; contents = b } ∷ parts_of l

  abbrev pub stdin_parts : List SendPart
  stdin_parts = parts_of (or_nothing sep env.read_stdin)

  abbrev pub file_part : String → List SendPart
  file_part p = parts_of (or_empty (env.read_file p) ∷ [])

  abbrev pub before : List SendPart → Option (List SendPart) → Option (List SendPart)
  before l none = none
  before l (some m) = some (l ++ m)

  -- the loop over the flags `--file`; the second "-" ends the command
  unfoldable pub read_parts : Bool → List String → Option (List SendPart)
  unfolding split
  read_parts read [] = some []
  read_parts read (p ∷ ps) =
      let as_file = before (file_part p) (read_parts read ps) in
      let as_stdin = before stdin_parts (read_parts true ps) in
      if p == "-" then (if read then none else as_stdin) else as_file

abbrev pub subject_header : String → List (String × String)
subject_header s = if s == "" then [] else (("subject", s) ∷ [])

module _ (env : CliEnv) where
  abbrev pub with_parts :
      SendFlags → List (String × String) → Option (List SendPart) → Option SendRequest
  with_parts f hs none = none
  with_parts f hs (some ps) = some (record { headers = hs; to = f.to; from = f.from; parts = ps })

  abbrev pub with_headers : SendFlags → Option (List (String × String)) → Option SendRequest
  with_headers f none = none
  with_headers f (some hs) = with_parts f hs (read_parts env f.stdin_split false f.file)

  -- the request, or nothing where the command ends before it
  unfoldable pub request : SendFlags → Option SendRequest
  unfolding add_headers read_parts
  request f = with_headers f (add_headers f.headers (subject_header f.subject))

  -- Behind a failed call the errors of no answer are read.
  abbrev pub answered : Option (List String) → Result Unit
  answered none = panic
  answered (some errors) = ok tt

  abbrev pub sent : Option SendRequest → Result Unit
  sent none = ok tt
  sent (some req) = answered (env.call req)

  -- `runEmSend`
  unfoldable pub run_em_send : SendFlags → Result Unit
  unfolding request
  run_em_send f = sent (request f)
