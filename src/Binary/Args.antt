-- ===== src/Binary/Args.antt =====
-- The arguments that crates/dnser/src/main.rs takes.
use dnser.Base.{
  ◌≡◌, ◌↔◌, refl, ap, sym, ◌∙◌, true, Option, none, some, List, [], ◌∷◌, All, arith, Bool-cases,
  inl, inr,
}
use dnser.Base.Bytes.{Bytes}
use dnser.Binary.{config_path, is_config, parse_from, parse_args}

-- Options with their paths, one behind the other.
abbrev pub flatten : List (Bytes × Bytes) → List Bytes
flatten [] = []
flatten ((arg, path) ∷ options) = arg ∷ path ∷ flatten options

-- The last path given.
abbrev pub last_path : Option Bytes → List (Bytes × Bytes) → Option Bytes
last_path path [] = path
last_path path ((arg, next) ∷ options) = last_path (some next) options

abbrev pub IsConfig : Bytes × Bytes → Type 0
IsConfig (arg, path) = is_config arg ≡ true

-- Arguments are options that give a path.
abbrev pub AreOptions : List Bytes → Option Bytes → Option Bytes → Type 0
AreOptions args first path =
    (options : List (Bytes × Bytes)) × (args ≡ flatten options)
    × All IsConfig options
    × (path ≡ last_path first options)

parse_from-options :
    (args : List Bytes) (first path : Option Bytes)
    → parse_from args first ≡ config_path path
    → AreOptions args first path
unfolding parse_from
parse_from-options [] first path e = ([], refl, tt, ground (arith, e))
parse_from-options (arg ∷ []) first path e = absurd (ground (arith, e))
parse_from-options (arg ∷ next ∷ args) first path e = elim (Bool-cases (is_config arg)) [
  | inl is ↦
      let (options, same, all, last) =
        parse_from-options args (some next) path (ground (arith, is, e)) in
      ((arg, next) ∷ options, ap (λ (xs : List Bytes). arg ∷ next ∷ xs) same, (is, all), last)
  | inr other ↦ absurd (ground (arith, other, e))
]

options-parse_from :
    (options : List (Bytes × Bytes)) (first : Option Bytes)
    → All IsConfig options
    → parse_from (flatten options) first ≡ config_path (last_path first options)
unfolding parse_from
options-parse_from [] first h = refl
options-parse_from ((arg, next) ∷ options) first (h, hs) =
    ground (arith, h, options-parse_from options (some next) hs)

-- The arguments are accepted exactly where they are options `--config` or `-c`, each with a path behind
-- it, whatever the path, and the path taken is then the last one, or none where there is no argument.
pub parse_args_iff :
    (args : List Bytes) (path : Option Bytes)
    → (parse_args args ≡ config_path path) ↔ AreOptions args none path
unfolding parse_args
parse_args_iff args path = (
  parse_from-options args none path,
  λ (options, same, all, last).
      ap (λ (xs : List Bytes). parse_from xs none) same
      ∙ options-parse_from options none all
      ∙ ap config_path (sym last),
)
