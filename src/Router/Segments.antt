-- ===== src/Router/Segments.antt =====
-- router.go: `parseSegments`, `parseOneSegment`, `validateRegexSafety`.
use kruda.Base.{
  ℕ, ◌+◌, ◌-◌, Bool, true, false, not, ◌&&◌, ◌||◌, List, [], ◌∷◌, ◌++◌, Option, none, some,
  if◌then◌else◌, ltb, ◌==◌, Bytes, index_byte, split, length, take, drop, get_or, is_empty,
}
use kruda.Router.Build.{
  wildcard_unnamed, invalid_regex, unsafe_regex, regex_compile, slice_bounds, Build, ok, panic,
  ◌>>=◌, ◌>>◌, panic_if, RegexEngine,
}

pub record Segment : Type 0 where
  pub text : Bytes
  pub param : Bytes
  pub wildcard : Bool
  pub regex : Option Bytes
  pub optional : Bool
  pub static : Bool

abbrev pub is_quantifier : ℕ → Bool
is_quantifier c = c == b'+' || c == b'*' || c == b'?' || c == b'{'

-- `stack[len(stack)-1].hasInnerQuantifier = true`, if there is a group; the top is the head.
abbrev mark : List Bool → List Bool
mark [] = []
mark (g ∷ gs) = true ∷ gs

-- `i+1 < len(pattern) && isQuantifier(pattern[i+1])`, on what follows position `i`.
abbrev quantified : Bytes → Bool
quantified [] = false
quantified (c ∷ cs) = is_quantifier c

-- A closing parenthesis: `none` for the error.
close_group : Bytes → List Bool → Option (List Bool)
close_group cs [] = some []
close_group cs (top ∷ stack) = if quantified cs && top then none else some stack

-- One round of the loop: whether the next byte is skipped, and the open groups.
regex_step : ℕ → Bytes → List Bool → Option (Bool × List Bool)
unfolding close_group
regex_step c cs stack =
    if c == b'\\'
    then some (true, stack)
    else if c == b'('
    then some (false, false ∷ stack)
    else if c == b')'
    then elim (close_group cs stack) [ none ↦ none | some st ↦ some (false, st) ]
    else if c == b'+' || c == b'*'
    then some (false, mark stack)
    else if c == b'{'
    then some (false, mark stack)
    else some (false, stack)

safe_from : Bool → List Bool → Bytes → Bool
safe_from skip stack [] = true
safe_from skip stack (c ∷ cs) = elim (if skip then some (false, stack) else regex_step c cs stack) [
  | none ↦ false
  | some (skip', stack') ↦ safe_from skip' stack' cs
]

-- `validateRegexSafety`: true for no error.
unfoldable pub validate_regex_safety : Bytes → Bool
unfolding safe_from regex_step
validate_regex_safety = safe_from false []

-- `strings.HasSuffix(raw, "?")`, and `raw[:len(raw)-1]`.
abbrev ends_with : ℕ → Bytes → Bool
ends_with c s = not (is_empty s) && get_or s (length s - 1) 0 == c

abbrev pub plain : Bytes → Bytes → Option Bytes → Bool → Segment
plain text param regex optional = record {
  text = text;
  param = param;
  wildcard = false;
  regex = regex;
  optional = optional;
  static = false;
}

-- A parameter with a constraint `<…>`: `idx` and `end` are the places of the brackets.
constrained : RegexEngine → Bytes → Bytes → Bool → ℕ → ℕ → Build Segment
constrained engine s raw optional idx end = do
  panic_if (ltb end (idx + 1)) slice_bounds
  let pattern = drop (idx + 1) (take end raw)
  panic_if (not (validate_regex_safety pattern)) unsafe_regex
  let anchored = b'^' ∷ (pattern ++ b'$' ∷ [])
  panic_if (not (engine.compiles anchored)) regex_compile
  ok (plain s (take idx raw) (some anchored) optional)

param_segment : RegexEngine → Bytes → Bytes → Bool → Build Segment
unfolding constrained
param_segment engine s raw optional = elim (index_byte raw b'<') [
  | none ↦ ok (plain s raw none optional)
  | some idx ↦ elim (index_byte raw b'>') [
    | none ↦ panic invalid_regex
    | some end ↦ constrained engine s raw optional idx end
  ]
]

-- `parseOneSegment`, which is never called on the empty string.
unfoldable pub parse_one_segment : RegexEngine → Bytes → Build Segment
unfolding param_segment index_byte
parse_one_segment engine [] = panic slice_bounds
parse_one_segment engine (c ∷ raw) =
    if c == b'*'
    then (do
      panic_if (is_empty raw) wildcard_unnamed
      ok (record {
        text = c ∷ raw;
        param = raw;
        wildcard = true;
        regex = none;
        optional = false;
        static = false;
      }))
    else if c == b':'
    then (if ends_with b'?' raw
        then param_segment engine (c ∷ raw) (take (length raw - 1) raw) true
        else param_segment engine (c ∷ raw) raw false)
    else ok (record {
      text = c ∷ raw;
      param = [];
      wildcard = false;
      regex = none;
      optional = false;
      static = true;
    })

-- `strings.Trim(path, "/")`.
abbrev trim_left : Bytes → Bytes
trim_left [] = []
trim_left (c ∷ cs) = if c == b'/' then trim_left cs else c ∷ cs

abbrev trim_right : Bytes → Bytes
trim_right [] = []
trim_right (c ∷ cs) =
    let rest = trim_right cs in if is_empty rest && c == b'/' then [] else c ∷ rest

parse_parts : RegexEngine → List Bytes → Build (List Segment)
parse_parts engine [] = ok []
parse_parts engine (p ∷ ps) =
    let rest = parse_parts engine ps in
    if is_empty p then rest else (do seg ← parse_one_segment engine p; segs ← rest; ok (seg ∷ segs))

unfoldable pub parse_segments : RegexEngine → Bytes → Build (List Segment)
unfolding parse_parts parse_one_segment split
parse_segments engine path = parse_parts engine (split b'/' (trim_right (trim_left path)))
