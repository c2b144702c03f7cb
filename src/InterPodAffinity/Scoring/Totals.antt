-- ===== src/InterPodAffinity/Scoring/Totals.antt =====
-- What a node finds in a `scoreMap` (pkg/interpodaffinity/scoring.go), and how an update changes it.
use cozystack_scheduler.Prelude.{
  ℕ, ◌+◌, ◌%◌, ◌<◌, ◌≡◌, refl, sym, ap, ◌∙◌, inl, inr, String, none, some, [], ◌∷◌, arith, ◌==◌,
  string_eq, if◌then◌else◌, Bool-cases, Option-cases, All,
}
use mathlib.Core.Path.{subst}
use cozystack_scheduler.GoMap.{GoMap, lookup, insert, lookup_or, HasDistinctKeys}
use cozystack_scheduler.GoMap.Laws.{lookup-insert, insert-HasDistinctKeys}
use cozystack_scheduler.Words.{word, add64}
use cozystack_scheduler.Api.{Node}
use cozystack_scheduler.InterPodAffinity.Scoring.{
  ScoreMap, add_score, add_scores, append, score_topologies,
}

-- The scores of each topology are a map.
abbrev pub IsScoreMap : ScoreMap → Type 0
IsScoreMap m = All (λ e. HasDistinctKeys e.1) m

add_score-IsMap :
    (k : String) (v : ℕ) (s : GoMap String ℕ)
    → HasDistinctKeys s
    → HasDistinctKeys (add_score k v s)
add_score-IsMap k v s h = insert-HasDistinctKeys k _ s h

add_scores-IsMap : (o s : GoMap String ℕ) → HasDistinctKeys s → HasDistinctKeys (add_scores o s)
add_scores-IsMap [] s h = h
add_scores-IsMap ((k, v) ∷ o) s h = add_scores-IsMap o _ (add_score-IsMap k v s h)

insert-IsScoreMap :
    (k : String) (s : GoMap String ℕ) (m : ScoreMap)
    → HasDistinctKeys s
    → IsScoreMap m
    → IsScoreMap (insert k s m)
unfolding insert
insert-IsScoreMap k s [] h w = (h, tt)
insert-IsScoreMap k s ((j, t) ∷ m) h w = elim (Bool-cases (j == k)) [
  | inl e ↦ rw e (h, w.1)
  | inr e ↦ rw e (w.0, insert-IsScoreMap k s m h w.1)
]

lookup_or-IsMap : (k : String) (m : ScoreMap) → IsScoreMap m → HasDistinctKeys (lookup_or [] k m)
unfolding lookup
lookup_or-IsMap k [] w = tt
lookup_or-IsMap k ((j, t) ∷ m) w = elim (Bool-cases (j == k)) [
  | inl e ↦
      let q : lookup_or [] k ((j, t) ∷ m) ≡ t = rw (lookup_or, e) refl in
      subst HasDistinctKeys (sym q) w.0
  | inr e ↦
      let q : lookup_or [] k ((j, t) ∷ m) ≡ lookup_or [] k m = rw (lookup_or, e) refl in
      subst HasDistinctKeys (sym q) (lookup_or-IsMap k m w.1)
]

lookup-add_score :
    (k w : String) (v : ℕ) (s : GoMap String ℕ)
    → lookup_or 0 w (add_score k v s) % word ≡ (lookup_or 0 w s + (if k == w then v else 0)) % word
lookup-add_score k w v s = elim (Bool-cases (k == w)) [
  | inl e ↦
      let same : k ≡ w = (string_eq.beq_iff k w).0 e in
      rw (lookup_or, lookup-insert k w (add64 (lookup_or 0 k s) v) s, e, same) (omega arith)
  | inr e ↦ rw (lookup_or, lookup-insert k w (add64 (lookup_or 0 k s) v) s, e) (omega arith)
]

lookup-add_scores :
    (w : String) (o s : GoMap String ℕ)
    → HasDistinctKeys o
    → lookup_or 0 w (add_scores o s) % word ≡ (lookup_or 0 w s + lookup_or 0 w o) % word
unfolding lookup
lookup-add_scores w [] s h = omega arith
lookup-add_scores w ((k, v) ∷ o) s h =
    let ih = lookup-add_scores w o (add_score k v s) h.1 in
    elim (Bool-cases (k == w)) [
      | inl e ↦
          let fresh : lookup w o ≡ none =
            subst (λ x. lookup x o ≡ none) ((string_eq.beq_iff k w).0 e) h.0 in
          let q : lookup_or 0 w ((k, v) ∷ o) ≡ v = rw (lookup_or, e) refl in
          let z : lookup_or 0 w o ≡ 0 = rw (lookup_or, fresh) refl in
          let r : lookup_or 0 w (add_score k v s) % word ≡ (lookup_or 0 w s + v) % word =
            lookup-add_score k w v s ∙ rw e refl in
          rw q (omega (arith, ih, z, r))
      | inr e ↦
          let q : lookup_or 0 w ((k, v) ∷ o) ≡ lookup_or 0 w o = rw (lookup_or, e) refl in
          let r : lookup_or 0 w (add_score k v s) % word ≡ (lookup_or 0 w s + 0) % word =
            lookup-add_score k w v s ∙ rw e refl in
          rw q (omega (arith, ih, r))
    ]

module _ (n : Node) where
  -- The node's score in the map of a topology.
  unfoldable pub found : String → GoMap String ℕ → ℕ
  found key s = elim (lookup key n.labels) [ none ↦ 0 | some v ↦ lookup_or 0 v s ]

  pub found-none :
      (key : String) (s : GoMap String ℕ) → lookup key n.labels ≡ none → found key s ≡ 0
  unfolding found
  found-none key s e = rw (found, e) refl

  pub found-some :
      (key v : String) (s : GoMap String ℕ)
      → lookup key n.labels ≡ some v
      → found key s ≡ lookup_or 0 v s
  unfolding found
  found-some key v s e = rw (found, e) refl

  found-empty : (key : String) → found key [] ≡ 0
  unfolding lookup
  found-empty key = elim (Option-cases (lookup key n.labels)) [
    | inl e ↦ found-none key [] e
    | inr (v, e) ↦ found-some key v [] e
  ]

  unfoldable pub total : ScoreMap → ℕ
  total [] = 0
  total ((key, s) ∷ m) = found key s + total m

  pub score_topologies-total :
      (m : ScoreMap) (score : ℕ)
      → score < word
      → score_topologies m n score ≡ (score + total m) % word
  unfolding total score_topologies
  score_topologies-total [] score h = omega arith
  score_topologies-total ((key, s) ∷ m) score h = elim (Option-cases (lookup key n.labels)) [
    | inl e ↦ rw (e) (score_topologies-total m score h ∙ omega (arith, found-none key s e))
    | inr (v, e) ↦ rw e (
        score_topologies-total m (add64 score (lookup_or 0 v s)) (omega arith)
        ∙ omega (arith, found-some key v s e))
  ]

  total-insert :
      (key : String) (s : GoMap String ℕ) (m : ScoreMap)
      → total (insert key s m) + found key (lookup_or [] key m) ≡ total m + found key s
  unfolding total insert lookup
  total-insert key s [] = omega (arith, found-empty key)
  total-insert key s ((j, t) ∷ m) = elim (Bool-cases (j == key)) [
    | inl e ↦
        let same : found j t ≡ found key t = ap (λ k. found k t) ((string_eq.beq_iff j key).0 e) in
        rw (lookup_or, e) (omega (arith, same))
    | inr e ↦ rw (lookup_or, e) (omega (arith, total-insert key s m))
  ]

  -- Two maps that differ, for the node, by a score.
  pub record Adds (m m' : ScoreMap) (x : ℕ) : Type 0 where
    pub keeps : IsScoreMap m → IsScoreMap m'
    pub adds : total m' % word ≡ (total m + x) % word

  pub Adds-nothing : (m : ScoreMap) → Adds m m 0
  Adds-nothing m = record { keeps = λ w. w; adds = omega arith }

  pub Adds-both : {m m' m'' : ScoreMap} {x y : ℕ} → Adds m m' x → Adds m' m'' y → Adds m m'' (x + y)
  Adds-both a b = record { keeps = λ w. b.keeps (a.keeps w); adds = omega (arith, a.adds, b.adds) }

  found-add_scores :
      (key : String) (o s : GoMap String ℕ)
      → HasDistinctKeys o
      → found key (add_scores o s) % word ≡ (found key s + found key o) % word
  found-add_scores key o s h = elim (Option-cases (lookup key n.labels)) [
    | inl e ↦
        omega (arith, found-none key o e, found-none key s e, found-none key (add_scores o s) e)
    | inr (v, e) ↦ omega (
      arith,
      found-some key v o e,
      found-some key v s e,
      found-some key v (add_scores o s) e,
      lookup-add_scores v o s h,
    )
  ]

  -- The scores of a topology are added to those that the map has.
  add_scores-Adds :
      (key : String) (o : GoMap String ℕ) (m : ScoreMap)
      → HasDistinctKeys o
      → Adds m (insert key (add_scores o (lookup_or [] key m)) m) (found key o)
  add_scores-Adds key o m h =
      let s = lookup_or [] key m in
      record {
        keeps = λ w.
            insert-IsScoreMap key (add_scores o s) m
              (add_scores-IsMap o s (lookup_or-IsMap key m w)) w;
        adds = omega (arith, total-insert key (add_scores o s) m, found-add_scores key o s h);
      }

  -- m[key][v] += w
  pub insert-Adds :
      (key v : String) (w : ℕ) (m : ScoreMap)
      → Adds m (insert key (add_score v w (lookup_or [] key m)) m) (found key ((v, w) ∷ []))
  unfolding lookup
  insert-Adds key v w m = add_scores-Adds key ((v, w) ∷ []) m (refl, tt)

  new-Adds :
      (key : String) (o : GoMap String ℕ) (m : ScoreMap)
      → lookup key m ≡ none
      → HasDistinctKeys o
      → Adds m (insert key o m) (found key o)
  new-Adds key o m e h =
      let old : lookup_or [] key m ≡ [] = rw (lookup_or, e) refl in
      record {
        keeps = insert-IsScoreMap key o m h;
        adds = omega (arith, total-insert key o m, ap (found key) old, found-empty key);
      }

  pub append-Adds : (m other : ScoreMap) → IsScoreMap other → Adds m (append m other) (total other)
  unfolding append total
  append-Adds m [] h = Adds-nothing m
  append-Adds m ((key, o) ∷ other) h = elim (Option-cases (lookup key m)) [
    | inl e ↦ rw e (Adds-both (new-Adds key o m e h.0) (append-Adds (insert key o m) other h.1))
    | inr (s, e) ↦
        let old : lookup_or [] key m ≡ s = rw (lookup_or, e) refl in
        let step =
          subst (λ x. Adds m (insert key (add_scores o x) m) (found key o)) old
            (add_scores-Adds key o m h.0) in
        rw e (Adds-both step (append-Adds _ other h.1))
  ]
