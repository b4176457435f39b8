-- ===== src/Registry/Uri.antt =====
-- registry/uri.rs: `resolve_uri`, built for a platform other than Windows.
use Prim.Native.Char.{code}
use specgate.Prelude.{
  ℕ, ◌+◌, String, Bool, true, false, ◌&&◌, ◌||◌, Option, none, some, List, [], ◌∷◌, ◌⊎◌, inl, inr,
  ◌==◌, leb, any, map, if◌then◌else◌,
}
use specgate.Prelude.Order.{Order}
use specgate.Prelude.Text.{codes, format}
use specgate.Trace.Fault.{same_codes}
use specgate.Registry.Checks.{is_empty_text, strip_prefix}
use specgate.Registry.Files.{FilePath, Filesystem, Libraries, canonicalize}

pub data ErrorKind : Type 0 where
  policy authority utf8 : ErrorKind

pub record UriError : Type 0 where
  pub kind : ErrorKind
  pub message : String

abbrev pub invalid_uri : List String → UriError
invalid_uri parts = record { kind = policy; message = format parts }

abbrev has_code : ℕ → String → Bool
has_code c s = any (λ d. d == c) (codes s)

-- The text before the first slash, and the rest from it on.
unfoldable pub split_slash : String → String × String
split_slash String.[] = ("", "")
split_slash (String.◌∷◌ c s) =
    let (before, rest) = split_slash s in
    if code c == b'/' then ("", String.◌∷◌ c s) else (String.◌∷◌ c before, rest)

abbrev lower : ℕ → ℕ
lower c = if leb b'A' c && leb c b'Z' then c + 32 else c

-- `eq_ignore_ascii_case("localhost")`
unfoldable pub is_localhost : String → Bool
is_localhost s = same_codes (map lower (codes s)) (codes "localhost")

abbrev starts_with : String → String → Bool
starts_with prefix s = elim (strip_prefix prefix s) [ none ↦ false | some rest ↦ true ]

-- The authority of a network path and the path.
abbrev pub authority_path : String → String × String
authority_path raw = elim (strip_prefix "//" raw) [
  | none ↦ ("", raw)
  | some network ↦ split_slash network
]

module _ (lib : Libraries) ⦃path_order : Order FilePath⦄ (filesystem : Filesystem)
    (uri : String) where
  unfoldable pub check_authority : String → Option UriError
  unfolding is_localhost
  check_authority text = if is_empty_text text then none else elim (lib.parse_authority text) [
    | inl error ↦ some (record {
      kind = authority;
      message = format ("invalid file URI '" ∷ uri ∷ "': " ∷ error ∷ []);
    })
    | inr parsed ↦
        if is_localhost parsed
        then none
        else some (
            invalid_uri (
              "automatic registry import resolution does not support network file URI '" ∷ uri
              ∷ "'; download the registry and supply its local path with --import" ∷ []))
  ]

  abbrev directory : Option FilePath → FilePath
  directory none = record { text = "." }
  directory (some p) = p

  unfoldable pub locate : FilePath → String → UriError ⊎ Option FilePath
  locate base decoded =
      let candidate : FilePath = record { text = decoded } in
      if starts_with "//" decoded || starts_with "\\\\" decoded
      then inl (
          invalid_uri (
            "automatic registry import resolution does not support UNC or network file URI '" ∷ uri
            ∷ "'; download the registry and supply its local path with --import" ∷ []))
      else inr (
          some (
            canonicalize lib filesystem (
              if lib.is_absolute candidate
              then candidate
              else lib.join (directory (lib.parent base)) candidate)))

  unfoldable pub decode_path : FilePath → String ⊎ String → UriError ⊎ Option FilePath
  unfolding locate
  decode_path base (inl error) =
      inl (record { kind = utf8; message = format ("file URI path is not UTF-8: " ∷ error ∷ []) })
  decode_path base (inr decoded) = locate base decoded

  unfoldable pub resolve_raw : FilePath → String → UriError ⊎ Option FilePath
  unfolding split_slash check_authority decode_path
  resolve_raw base raw =
      if has_code b'?' raw || has_code b'#' raw
      then inl (invalid_uri ("file URI must not contain a query or fragment: '" ∷ uri ∷ "'" ∷ []))
      else let (text, path) = authority_path raw in
        elim (check_authority text) [
          | some error ↦ inl error
          | none ↦ decode_path base (lib.percent_decode path)
        ]

  unfoldable pub resolve_uri : FilePath → UriError ⊎ Option FilePath
  unfolding resolve_raw
  resolve_uri base = elim (strip_prefix "file:" uri) [
    | none ↦ inr none
    | some raw ↦ resolve_raw base raw
  ]
