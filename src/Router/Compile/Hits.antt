-- ===== src/Router/Compile/Hits.antt =====
-- router.go: the search reads everything of a tree but the hits that it counts.
use std.Path.{fun_ext}
use kruda.Base.{
  ℕ, zero, suc, ◌+◌, ◌%◌, ◌^◌, List, Bytes, [], ◌∷◌, none, some, ◌≡◌, refl, inl, inr, sym, ◌∙◌, ap,
  Option-cases, index_byte, ◌=ᵇ◌, take, drop, length, if◌then◌else◌, ◌||◌, ◌&&◌, is_empty, ◌==◌,
}
use kruda.Router.Build.{RegexEngine}
use kruda.Router.Params.{Params, set, del}
use kruda.Router.Tree.{NodeInfo, Node, node, Nodes, nil, cons, info, is_some}
use kruda.Router.Find.{
  Lookup, miss, take_node, or_else, below, Child, optional_kid, ends_at, find_static, search_at,
  static_stage, regex_rejects, find_param, segment_end, param_stage, wildcard_stage,
  search_children, infos, child_of, children_of, find_from_root,
}
use kruda.Router.Table.{hit_node, hit_child, hit_all}

zero_hits : NodeInfo → NodeInfo
zero_hits n = record n { hits = 0 }

zero_kids : List NodeInfo → List NodeInfo
zero_kids [] = []
zero_kids (n ∷ ns) = zero_hits n ∷ zero_kids ns

-- A child without its hits and those of its own children.
strip : Child → Child
strip c = record { self = zero_hits c.self; kids = zero_kids c.kids; search = c.search }

strip_all : List Child → List Child
strip_all [] = []
strip_all (c ∷ cs) = strip c ∷ strip_all cs

optional_kid-zero_kids :
    (i : ℕ) (ks : List NodeInfo) (ps : Params)
    → optional_kid i (zero_kids ks) ps ≡ optional_kid i ks ps
unfolding optional_kid zero_kids zero_hits
optional_kid-zero_kids i [] ps = refl
optional_kid-zero_kids i (k ∷ ks) ps = rw (optional_kid-zero_kids (suc i) ks ps) refl

ends_at-strip : (c : Child) (ps : Params) → ends_at (strip c) ps ≡ ends_at c ps
unfolding ends_at strip zero_hits
ends_at-strip c ps = rw (optional_kid-zero_kids 0 c.kids ps) refl

find_static-strip :
    (c : Child) (path : Bytes) (ps : Params) → find_static (strip c) path ps ≡ find_static c path ps
unfolding find_static strip zero_hits
find_static-strip c path ps = rw (ends_at-strip c ps) refl

search_at-strip :
    (pos idx : ℕ) (cs : List Child) (path : Bytes) (ps : Params)
    → search_at pos idx (strip_all cs) path ps ≡ search_at pos idx cs path ps
unfolding search_at strip_all
search_at-strip pos idx [] path ps = refl
search_at-strip pos zero (c ∷ cs) path ps = ap (below pos) (find_static-strip c path ps)
search_at-strip pos (suc idx) (c ∷ cs) path ps = search_at-strip (suc pos) idx cs path ps

or_else-cong :
    (l l' : Lookup) (k k' : Params → Lookup)
    → l ≡ l'
    → ((ps : Params) → k ps ≡ k' ps)
    → or_else l k ≡ or_else l' k'
or_else-cong l l' k k' e f = ap (λ m. or_else m k) e ∙ ap (or_else l') (fun_ext f)

hit_node-info : (t : List ℕ) (n : Node) → zero_hits (info (hit_node t n)) ≡ zero_hits (info n)
unfolding hit_node zero_hits
hit_node-info [] (node n cs) = refl
hit_node-info (i ∷ t) (node n cs) = refl

module _ (engine : RegexEngine) where
  -- `find_param` as a function of what happens where the path ends.
  param_with : Child → (Params → Lookup) → Bytes → Params → Lookup
  param_with c ends path ps =
      let end = segment_end path in
      let value = take end path in
      if is_empty c.self.param || c.self.wildcard
      then miss ps
      else if is_empty value
      then (if c.self.optional && is_some c.self.handlers
          then take_node c.self [] (set c.self.param [] ps)
          else miss ps)
      else if regex_rejects engine c.self value
      then miss ps
      else let ps' = set c.self.param value ps in
        let l = if end == length path then ends ps' else c.search (drop (end + 1) path) ps' in
        elim l.handlers [ some h ↦ l | none ↦ record l { params = del c.self.param l.params } ]

  find_param-strip :
      (c : Child) (path : Bytes) (ps : Params)
      → find_param engine (strip c) path ps ≡ find_param engine c path ps
  unfolding find_param param_with strip zero_hits regex_rejects
  find_param-strip c path ps = ap (λ ends. param_with c ends path ps) (fun_ext (ends_at-strip c))

  param_stage-strip :
      (pos : ℕ) (cs : List Child) (path : Bytes) (ps : Params)
      → param_stage engine pos (strip_all cs) path ps ≡ param_stage engine pos cs path ps
  unfolding param_stage strip_all
  param_stage-strip pos [] path ps = refl
  param_stage-strip pos (c ∷ cs) path ps =
      or_else-cong (below pos (find_param engine (strip c) path ps))
        (below pos (find_param engine c path ps)) (param_stage engine (suc pos) (strip_all cs) path)
        (param_stage engine (suc pos) cs path) (ap (below pos) (find_param-strip c path ps))
        (λ ps'. param_stage-strip (suc pos) cs path ps')

  wildcard_stage-strip :
      (pos : ℕ) (cs : List Child) (path : Bytes) (ps : Params)
      → wildcard_stage pos (strip_all cs) path ps ≡ wildcard_stage pos cs path ps
  unfolding wildcard_stage strip_all strip zero_hits
  wildcard_stage-strip pos [] path ps = refl
  wildcard_stage-strip pos (c ∷ cs) path ps = rw (wildcard_stage-strip (suc pos) cs path ps) refl

  static_stage-strip :
      (n : NodeInfo) (cs : List Child) (path : Bytes) (ps : Params)
      → static_stage (zero_hits n) (strip_all cs) path ps ≡ static_stage n cs path ps
  unfolding static_stage zero_hits
  static_stage-strip n cs [] ps = refl
  static_stage-strip n cs (b ∷ bs) ps = elim (Option-cases (index_byte n.indices b)) [
    | inl e ↦ rw (e, static_stage) refl
    | inr (i, e) ↦ rw (e, static_stage) (search_at-strip 0 i cs (b ∷ bs) ps)
  ]

  search_children-strip :
      (n : NodeInfo) (cs : List Child) (path : Bytes) (ps : Params)
      → search_children engine (zero_hits n) (strip_all cs) path ps
        ≡ search_children engine n cs path ps
  unfolding search_children
  search_children-strip n cs path ps =
      or_else-cong (static_stage (zero_hits n) (strip_all cs) path ps) (static_stage n cs path ps)
        (λ ps₁.
          or_else (param_stage engine 0 (strip_all cs) path ps₁)
            (λ ps₂. wildcard_stage 0 (strip_all cs) path ps₂))
        (λ ps₁. or_else (param_stage engine 0 cs path ps₁) (λ ps₂. wildcard_stage 0 cs path ps₂))
        (static_stage-strip n cs path ps)
        (λ ps₁.
          or_else-cong (param_stage engine 0 (strip_all cs) path ps₁)
            (param_stage engine 0 cs path ps₁) (λ ps₂. wildcard_stage 0 (strip_all cs) path ps₂)
            (λ ps₂. wildcard_stage 0 cs path ps₂) (param_stage-strip 0 cs path ps₁)
            (λ ps₂. wildcard_stage-strip 0 cs path ps₂))

  -- A node with its hits counted, and the one without.
  same_search :
      (n m : NodeInfo) (cs ds : Nodes)
      → zero_hits n ≡ zero_hits m
      → zero_kids (infos cs) ≡ zero_kids (infos ds)
      → strip_all (children_of engine cs) ≡ strip_all (children_of engine ds)
      → strip (child_of engine (node n cs)) ≡ strip (child_of engine (node m ds))
  unfolding strip child_of
  same_search n m cs ds e f g =
      let search : search_children engine n (children_of engine cs)
          ≡ search_children engine m (children_of engine ds) =
        fun_ext (λ path. fun_ext (λ ps.
          sym (search_children-strip n (children_of engine cs) path ps)
          ∙ ap (λ x. search_children engine x (strip_all (children_of engine cs)) path ps) e
          ∙ ap (λ x. search_children engine (zero_hits m) x path ps) g
          ∙ search_children-strip m (children_of engine ds) path ps)) in
      ap
        (λ x. record {
          self = x;
          kids = zero_kids (infos cs);
          search = search_children engine n (children_of engine cs);
        })
        e
      ∙ ap
          (λ x. record {
            self = zero_hits m;
            kids = x;
            search = search_children engine n (children_of engine cs);
          })
          f
      ∙ ap (λ x. record { self = zero_hits m; kids = zero_kids (infos ds); search = x }) search

  mutual
    unfolding hit_node zero_hits strip_all children_of zero_kids

    hit_node-strip :
        (t : List ℕ) (n : Node) → strip (child_of engine (hit_node t n)) ≡ strip (child_of engine n)
    hit_node-strip [] (node n cs) =
        same_search (record n { hits = (n.hits + 1) % 2 ^ 32 }) n cs cs refl refl refl
    hit_node-strip (i ∷ t) (node n cs) =
        let (f, g) = hit_child-strip i t cs in same_search n n (hit_child i t cs) cs refl f g

    hit_child-strip :
        (i : ℕ) (t : List ℕ) (cs : Nodes)
        → (zero_kids (infos (hit_child i t cs)) ≡ zero_kids (infos cs))
          × (strip_all (children_of engine (hit_child i t cs)) ≡ strip_all (children_of engine cs))
    hit_child-strip i t nil = (refl, refl)
    hit_child-strip zero t (cons c cs) = (
      ap (λ x. x ∷ zero_kids (infos cs)) (hit_node-info t c),
      ap (λ x. x ∷ strip_all (children_of engine cs)) (hit_node-strip t c),
    )
    hit_child-strip (suc i) t (cons c cs) =
        let (f, g) = hit_child-strip i t cs in
        (ap (λ x. zero_hits (info c) ∷ x) f, ap (λ x. strip (child_of engine c) ∷ x) g)

  from_root : Child → Bytes → Params → Lookup
  from_root c path ps = if path =ᵇ (b'/' ∷ []) then ends_at c ps else c.search (drop 1 path) ps

  find_from_root-strip :
      (n : Node) (path : Bytes) (ps : Params)
      → find_from_root engine n path ps ≡ from_root (strip (child_of engine n)) path ps
  unfolding find_from_root from_root ends_at child_of strip zero_hits
  find_from_root-strip (node n cs) path ps = rw (optional_kid-zero_kids 0 (infos cs) ps) refl

  hit_all-strip :
      (ts : List (List ℕ)) (n : Node)
      → strip (child_of engine (hit_all ts n)) ≡ strip (child_of engine n)
  unfolding hit_all
  hit_all-strip [] n = refl
  hit_all-strip (t ∷ ts) n = hit_all-strip ts (hit_node t n) ∙ hit_node-strip t n

  -- The hits of a search change no later search.
  pub hit_all-find_from_root :
      (ts : List (List ℕ)) (n : Node) (path : Bytes) (ps : Params)
      → find_from_root engine (hit_all ts n) path ps ≡ find_from_root engine n path ps
  hit_all-find_from_root ts n path ps =
      find_from_root-strip (hit_all ts n) path ps
      ∙ ap (λ c. from_root c path ps) (hit_all-strip ts n)
      ∙ sym (find_from_root-strip n path ps)
