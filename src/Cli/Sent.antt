-- ===== src/Cli/Sent.antt =====
-- When the command `em send` of internal/cli/em.go sends a request.
use didem.Base.{
  ℕ, ◌+◌, Bool, true, false, ◌&&◌, Option, none, some, List, [], ◌∷◌, String, string_eq, ◌==◌, leb,
  if◌then◌else◌, Bool-cases, inl, inr, ◌≡◌, refl, arith, ◌∙◌,
}
use didem.Tx.{Bytes}
use didem.Cli.{
  SendFlags, SendPart, CliEnv, add_headers, before, file_part, stdin_parts, with_parts,
  with_headers, subject_header, read_parts, request,
}

abbrev pub is_some {ℓ} : {A : Type ℓ} → Option A → Bool
is_some none = false
is_some (some a) = true

abbrev pub no_headers : List String → Bool
no_headers [] = true
no_headers (h ∷ hs) = false

-- how often the standard input is named
unfoldable pub stdin_count : List String → ℕ
stdin_count [] = 0
stdin_count (p ∷ ps) = (if p == "-" then 1 else 0) + stdin_count ps

is_some-add_headers :
    (hs : List String) (m : List (String × String)) → is_some (add_headers hs m) ≡ no_headers hs
unfolding add_headers
is_some-add_headers [] m = refl
is_some-add_headers (h ∷ hs) m = refl

module _ (env : CliEnv) where
  is_some-before :
      (sep : Bytes) (l : List SendPart) (o : Option (List SendPart))
      → is_some (before env sep l o) ≡ is_some o
  is_some-before sep l none = refl
  is_some-before sep l (some m) = refl

  second_stdin :
      (sep : Bytes) (read : Bool) (ps : List String)
      → is_some (read_parts env sep true ps) ≡ leb (stdin_count ps + 1) 1
      → is_some
          (if read then none else before env sep (stdin_parts env sep) (read_parts env sep true ps))
        ≡ leb (1 + stdin_count ps + (if read then 1 else 0)) 1
  second_stdin sep true ps rest = ground arith
  second_stdin sep false ps rest =
      is_some-before sep _ (read_parts env sep true ps) ∙ rest ∙ ground arith

  is_some-read_parts :
      (sep : Bytes) (read : Bool) (ps : List String)
      → is_some (read_parts env sep read ps) ≡ leb (stdin_count ps + (if read then 1 else 0)) 1
  unfolding read_parts stdin_count
  is_some-read_parts sep true [] = refl
  is_some-read_parts sep false [] = refl
  is_some-read_parts sep read (p ∷ ps) = elim (Bool-cases (p == "-")) [
    | inl stdin ↦ rw stdin (second_stdin sep read ps (is_some-read_parts sep true ps))
    | inr file ↦ rw file (
        is_some-before sep (file_part env sep p) (read_parts env sep read ps)
        ∙ is_some-read_parts sep read ps
        ∙ ground arith)
  ]

  is_some-with_parts :
      (f : SendFlags) (hs : List (String × String)) (o : Option (List SendPart))
      → is_some (with_parts env f hs o) ≡ is_some o
  is_some-with_parts f hs none = refl
  is_some-with_parts f hs (some l) = refl

  by_headers :
      (f : SendFlags) (hs : List String)
      → is_some (with_headers env f (add_headers hs (subject_header f.subject)))
        ≡ (no_headers hs && leb (stdin_count f.file) 1)
  unfolding add_headers
  by_headers f (h ∷ hs) = refl
  by_headers f [] =
      is_some-with_parts f (subject_header f.subject) (read_parts env f.stdin_split false f.file)
      ∙ is_some-read_parts f.stdin_split false f.file
      ∙ ground arith

  -- A request is made exactly where no header is given, since none has the form that is asked for,
  -- and the standard input is named at most once among the files.
  pub is_some-request :
      (f : SendFlags)
      → is_some (request env f) ≡ (no_headers f.headers && leb (stdin_count f.file) 1)
  unfolding request
  is_some-request f = by_headers f f.headers
