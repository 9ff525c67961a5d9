-- ===== src/Router/Find/Sound.antt =====
-- Whatever `find_in_node` returns is accepted by the tree.
use kruda.Base.{
  ℕ, zero, suc, ◌+◌, ◌<◌, true, false, ◌&&◌, [], ◌∷◌, ◌++◌, none, some, ◌≡◌, ◌≢◌, refl, ap, ◌∙◌,
  ◌⊎◌, inl, inr, arith, if◌then◌else◌, ◌==◌, Bytes, ◌=ᵇ◌, =ᵇ_iff, index_byte, has_prefix, length,
  take, drop, is_empty, Bool-cases, Option-cases, append-nil,
}
use native.Mathlib.Numerals.{add-one}
use kruda.Router.Build.{RegexEngine}
use kruda.Router.Params.{Params, set}
use kruda.Router.Tree.{NodeInfo, Node, node, Nodes, nil, cons, info, children, is_static, is_some}
use kruda.Router.Find.{
  Lookup, or_else, below, optional_kid, ends_at, find_static, search_at, static_stage, segment_end,
  regex_rejects, find_param, param_stage, wildcard_stage, search_children, infos, child_of,
  children_of, find_in_node,
}
use kruda.Router.Find.Spec
use kruda.Router.Find.Spec.{
  InKids, here, there, NoSlash, is_param, Ends, own, EmptySegment, Matches, static_end, static_more,
  param_end, param_more, param_empty, wildcard,
}

cons_ne_nil : (b : ℕ) (bs : Bytes) → b ∷ bs ≢ []
cons_ne_nil b bs e = cc

pub has_prefix-split : (s p : Bytes) → has_prefix s p ≡ true → s ≡ p ++ drop (length p) s
unfolding has_prefix
has_prefix-split s [] e = refl
has_prefix-split (x ∷ s) (y ∷ p) e = ground (arith, has_prefix-split s p)
has_prefix-split [] (y ∷ p) e = cc

-- The first slash ends the segment.
pub index_byte-split :
    (s : Bytes) (i : ℕ)
    → index_byte s b'/' ≡ some i
    → (s ≡ take i s ++ b'/' ∷ drop (suc i) s) × NoSlash (take i s) × (i < length s)
unfolding index_byte
index_byte-split [] i e = cc
index_byte-split (x ∷ s) zero e = ground arith
index_byte-split (x ∷ s) (suc i) e =
    let found : index_byte s b'/' ≡ some i = ground arith in
    let other : x ≢ b'/' = ground arith in
    let (splits, free, short) = index_byte-split s i found in
    (ap (◌∷◌ x) splits, (other, free), omega arith)

pub index_byte-none : (s : Bytes) → index_byte s b'/' ≡ none → NoSlash s
unfolding index_byte
index_byte-none [] e = tt
index_byte-none (x ∷ s) e = ground (arith, index_byte-none s)

module _ (engine : RegexEngine) where
  self-child_of : (c : Node) → (child_of engine c).self ≡ info c
  unfolding child_of
  self-child_of (node n cs) = refl

  optional_kid_sound :
      (i : ℕ) (cs : Nodes) (ps : Params) {h : ℕ}
      → (optional_kid i (infos cs) ps).handlers ≡ some h
      → (gc : Node) × InKids gc cs × ((info gc).optional ≡ true) × ((info gc).handlers ≡ some h)
  unfolding optional_kid
  optional_kid_sound i nil ps e = cc
  optional_kid_sound i (cons c cs) ps e =
      elim (Bool-cases ((info c).optional && is_some (info c).handlers)) [
        | inl yes' ↦ (c, here, ground arith, ground arith)
        | inr no' ↦
            let (gc, k, o, s) = optional_kid_sound (suc i) cs ps (ground arith) in
            (gc, there k, o, s)
      ]

  ends_at_sound :
      (c : Node) (ps : Params) {h : ℕ}
      → (ends_at (child_of engine c) ps).handlers ≡ some h
      → Ends c h
  unfolding ends_at child_of
  ends_at_sound (node n cs) ps e = elim (Bool-cases (is_some n.handlers)) [
    | inl yes' ↦ own (ground arith)
    | inr no' ↦
        let (gc, k, o, s) = optional_kid_sound 0 cs ps (ground arith) in Spec.optional_kid k o s
  ]

  search_at_sound :
      (pos idx : ℕ) (cs : Nodes) (path : Bytes) (ps : Params) {h : ℕ}
      → (search_at pos idx (children_of engine cs) path ps).handlers ≡ some h
      → (c : Node) × InKids c cs × ((find_static (child_of engine c) path ps).handlers ≡ some h)
  unfolding search_at children_of
  search_at_sound pos idx nil path ps e = cc
  search_at_sound pos zero (cons c cs) path ps e = (c, here, e)
  search_at_sound pos (suc idx) (cons c cs) path ps e =
      let (d, k, s) = search_at_sound (suc pos) idx cs path ps e in (d, there k, s)

  -- The search in a node is sound, if that in each of its children is.
  abbrev SoundAt : Node → Type 0
  SoundAt c =
      (path : Bytes) (ps : Params) (h : ℕ)
      → (find_in_node engine c path ps).handlers ≡ some h
      → Matches engine c path h

  take_all : (s : Bytes) → take (length s) s ≡ s
  take_all [] = refl
  take_all (x ∷ s) = ap (◌∷◌ x) (take_all s)

  -- An empty first segment.
  empty_segment :
      (path : Bytes) → is_empty (take (segment_end path) path) ≡ true → EmptySegment path
  unfolding segment_end index_byte
  empty_segment [] e = tt
  empty_segment (c ∷ cs) e = ground arith

  find_static_sound :
      {n : Node} (c : Node) (path : Bytes) (ps : Params) {h : ℕ}
      → path ≢ []
      → InKids c (children n)
      → SoundAt c
      → (find_static (child_of engine c) path ps).handlers ≡ some h
      → Matches engine n path h
  unfolding find_static child_of find_in_node
  find_static_sound {n} (node m cs) path ps {h} ne k sound e = elim (Bool-cases (is_static m)) [
    | inl st ↦ elim (Bool-cases (has_prefix path m.path)) [
      | inl prefix ↦
          let splits = has_prefix-split path m.path prefix in
          elim (Bool-cases (is_empty (drop (length m.path) path))) [
            | inl nothing ↦
                let none_left : drop (length m.path) path ≡ [] = ground arith in
                static_end k st ne (inl (splits ∙ rw none_left (append-nil m.path)))
                  (ends_at_sound (node m cs) ps (ground arith))
            | inr rest ↦
                static_more k st splits (ground arith)
                  (sound (drop (length m.path) path) ps h (ground arith))
          ]
      | inr other ↦ elim (Bool-cases (m.path =ᵇ (path ++ b'/' ∷ []))) [
        | inl slash ↦
            static_end k st ne (inr ((=ᵇ_iff _ _).0 slash))
              (ends_at_sound (node m cs) ps (ground arith))
        | inr neither ↦ absurd (ground arith)
      ]
    ]
    | inr no' ↦ absurd (ground arith)
  ]

  -- The first segment of a path: up to the first slash, or all of it.
  segment_cases :
      (path : Bytes)
      → ((segment_end path ≡ length path) × NoSlash path)
        ⊎ ((segment_end path < length path)
            × NoSlash (take (segment_end path) path)
            × (path ≡ take (segment_end path) path ++ b'/' ∷ drop (segment_end path + 1) path))
  unfolding segment_end
  segment_cases path = elim (Option-cases (index_byte path b'/')) [
    | inl missing ↦ inl (rw (missing, segment_end) (refl, index_byte-none path missing))
    | inr (i, found) ↦
        let (splits, free, short) = index_byte-split path i found in
        inr (rw (found, segment_end) (short, free, rw add-one splits))
  ]

  -- A value that is taken goes on behind its slash, or ends the path.
  taken_sound :
      {n : Node} (c : Node) (path : Bytes) (ps : Params) {h : ℕ}
      → InKids c (children n)
      → is_param (info c) ≡ true
      → regex_rejects engine (info c) (take (segment_end path) path) ≡ false
      → take (segment_end path) path ≢ []
      → SoundAt c
      → (if segment_end path == length path
          then ends_at (child_of engine c) ps
          else find_in_node engine c (drop (segment_end path + 1) path) ps).handlers
        ≡ some h
      → Matches engine n path h
  taken_sound c path ps {h} k p r v sound e = elim (segment_cases path) [
    | inl (whole, free) ↦
        let all : take (segment_end path) path ≡ path = rw whole (take_all path) in
        param_end k p (rw all at v) free (rw all at r) (ends_at_sound c ps (ground arith))
    | inr (short, free, splits) ↦
        param_more k p splits v free r
          (sound (drop (segment_end path + 1) path) ps h (ground arith))
  ]

  find_param_sound :
      {n : Node} (c : Node) (path : Bytes) (ps : Params) {h : ℕ}
      → InKids c (children n)
      → SoundAt c
      → (find_param engine (child_of engine c) path ps).handlers ≡ some h
      → Matches engine n path h
  unfolding find_param child_of find_in_node
  find_param_sound {n} (node m cs) path ps {h} k sound e = elim (Bool-cases (is_param m)) [
    | inl p ↦ elim (Bool-cases (is_empty (take (segment_end path) path))) [
      | inl nothing ↦ param_empty k p (empty_segment path nothing) (ground arith) (ground arith)
      | inr value ↦ elim (Bool-cases (regex_rejects engine m (take (segment_end path) path))) [
        | inl bad ↦ absurd (ground arith)
        | inr good ↦
            taken_sound (node m cs) path (set m.param (take (segment_end path) path) ps) k p good
              (ground arith) sound (ground arith)
      ]
    ]
    | inr no' ↦ absurd (ground arith)
  ]

  or_else_sound :
      (l : Lookup) (k : Params → Lookup) {h : ℕ}
      → (or_else l k).handlers ≡ some h
      → (l.handlers ≡ some h) ⊎ ((k l.params).handlers ≡ some h)
  or_else_sound l k e = ground arith

  param_stage_sound :
      {n : Node} (pos : ℕ) (cs : Nodes) (path : Bytes) (ps : Params) {h : ℕ}
      → ((c : Node) → InKids c cs → InKids c (children n) × SoundAt c)
      → (param_stage engine pos (children_of engine cs) path ps).handlers ≡ some h
      → Matches engine n path h
  unfolding param_stage children_of
  param_stage_sound pos nil path ps sound e = cc
  param_stage_sound pos (cons c cs) path ps sound e =
      let l = below pos (find_param engine (child_of engine c) path ps) in
      let rest = param_stage engine (suc pos) (children_of engine cs) path in
      elim (or_else_sound l rest e) [
        | inl first ↦ find_param_sound c path ps (sound c here).0 (sound c here).1 first
        | inr later ↦ param_stage_sound (suc pos) cs path l.params (λ d k. sound d (there k)) later
      ]

  wildcard_stage_sound :
      {n : Node} (pos : ℕ) (cs : Nodes) (path : Bytes) (ps : Params) {h : ℕ}
      → ((c : Node) → InKids c cs → InKids c (children n))
      → (wildcard_stage pos (children_of engine cs) path ps).handlers ≡ some h
      → Matches engine n path h
  unfolding wildcard_stage children_of child_of
  wildcard_stage_sound pos nil path ps sound e = cc
  wildcard_stage_sound pos (cons (node m ms) cs) path ps sound e = elim (Bool-cases m.wildcard) [
    | inl w ↦ wildcard (sound (node m ms) here) w (ground arith)
    | inr other ↦
        wildcard_stage_sound (suc pos) cs path ps (λ d k. sound d (there k)) (ground arith)
  ]

  static_stage_sound :
      (m : NodeInfo) (cs : Nodes) (path : Bytes) (ps : Params) {h : ℕ}
      → ((c : Node) → InKids c cs → SoundAt c)
      → (static_stage m (children_of engine cs) path ps).handlers ≡ some h
      → Matches engine (node m cs) path h
  unfolding static_stage
  static_stage_sound m cs [] ps sound e = cc
  static_stage_sound m cs (b ∷ bs) ps sound e = elim (Option-cases (index_byte m.indices b)) [
    | inl missing ↦ absurd (ground arith)
    | inr (idx, found) ↦
        let (c, k, s) = search_at_sound 0 idx cs (b ∷ bs) ps (ground arith) in
        find_static_sound c (b ∷ bs) ps (cons_ne_nil b bs) k (sound c k) s
  ]

  node_sound :
      (m : NodeInfo) (cs : Nodes) → ((c : Node) → InKids c cs → SoundAt c) → SoundAt (node m cs)
  unfolding find_in_node child_of search_children
  node_sound m cs sound path ps h e =
      let kids = children_of engine cs in
      let l₁ = static_stage m kids path ps in
      let l₂ = param_stage engine 0 kids path l₁.params in
      let wild = wildcard_stage 0 kids path in
      elim (or_else_sound l₁ (λ ps₁. or_else (param_stage engine 0 kids path ps₁) wild) e) [
        | inl static ↦ static_stage_sound m cs path ps sound static
        | inr later ↦ elim (or_else_sound l₂ wild later) [
          | inl param ↦ param_stage_sound 0 cs path l₁.params (λ c k. (k, sound c k)) param
          | inr last ↦ wildcard_stage_sound 0 cs path l₂.params (λ c k. k) last
        ]
      ]

  mutual
    find_in_node_SoundAt : (n : Node) → SoundAt n
    find_in_node_SoundAt (node m cs) = node_sound m cs (kids_SoundAt cs)

    kids_SoundAt : (cs : Nodes) (c : Node) → InKids c cs → SoundAt c
    kids_SoundAt nil c k = elim k [ ]
    kids_SoundAt (cons d ds) c here = find_in_node_SoundAt d
    kids_SoundAt (cons d ds) c (there k) = kids_SoundAt ds c k

  -- Whatever chain of handlers the search below a node returns, the tree accepts the path with these
  -- handlers: each literal, each parameter's regular expression and each wildcard on the way agree.
  pub find_in_node-Matches :
      (n : Node) (path : Bytes) (ps : Params) (h : ℕ)
      → (find_in_node engine n path ps).handlers ≡ some h
      → Matches engine n path h
  find_in_node-Matches n path ps h e = find_in_node_SoundAt n path ps h e
