-- ===== src/Merge/NodeTerms.antt =====
-- `getSchedulingClass` and `MergeNodeAffinity` of pkg/merge/merger.go.
use cozystack_scheduler.Prelude.{
  ◌≡◌, refl, ap, ◌≢◌, ◌⊎◌, inl, inr, String, Option, none, some, [], ◌++◌, ◌==◌, string_eq, arith,
  Bool-cases,
}
use cozystack_scheduler.Result.{Error, wrap_named, Result, ok, err, ◌>>=◌, Result-cases}
use cozystack_scheduler.GoMap.{lookup, lookup_or, insert_all, HasDistinctKeys}
use cozystack_scheduler.GoMap.Laws.{or_else, lookup-insert_all, insert_all-HasDistinctKeys}
use cozystack_scheduler.Api.{Labels, Pod}
use cozystack_scheduler.Merge.Types.{
  scheduling_class_annotation, SchedulingClass, NodeAffinityTerms, Merger,
}
use cozystack_scheduler.Merge.{
  decode_class, get_scheduling_class, with_class, entries, node_affinity_of, preferred_of,
  node_affinity_terms, merge_node_affinity,
}

-- The class that a pod names; the empty name stands for none.
abbrev pub class_name : Pod → String
class_name pod = lookup_or "" scheduling_class_annotation pod.annotations

-- What a merge of node affinity promises, given the class of the pod.
abbrev pub NodeTermsOf : Pod → Option SchedulingClass → Result (Option NodeAffinityTerms) → Type 0
NodeTermsOf pod none r = r ≡ ok none
NodeTermsOf pod (some sc) r =
    (terms : NodeAffinityTerms) × (labels : Labels) × (r ≡ ok (some terms))
    × (terms.node_selector ≡ some labels)
    × HasDistinctKeys labels
    × ((j : String)
        → lookup j labels
          ≡ or_else (lookup j sc.spec.node_selector) (lookup j (entries pod.spec.node_selector)))
    × (terms.preferred_node_affinity
        ≡ preferred_of (node_affinity_of pod.spec.affinity) ++ preferred_of sc.spec.node_affinity)

abbrev pub class_labels : Option SchedulingClass → Labels
class_labels none = []
class_labels (some sc) = sc.spec.node_selector

or_else-none : (o : Option String) → or_else o none ≡ o
or_else-none o = ground arith

module _ {Object Raw : Type 0} (m : Merger Object Raw) (pod : Pod) where
  -- Which step of the lookup fails, with the error that it gives.
  abbrev pub FailsWith : Error → Type 0
  FailsWith e =
      ((e' : Error) × (m.lister.get (class_name pod) ≡ err e')
        × (e ≡ wrap_named "getting SchedulingClass" (class_name pod) e'))
      ⊎ (((obj : Object) × (e' : Error) × (m.lister.get (class_name pod) ≡ ok obj)
            × (m.lister.marshal obj ≡ err e')
            × (e ≡ wrap_named "marshaling SchedulingClass" (class_name pod) e'))
          ⊎ ((obj : Object) × (raw : Raw) × (e' : Error) × (m.lister.get (class_name pod) ≡ ok obj)
              × (m.lister.marshal obj ≡ ok raw)
              × (m.lister.unmarshal raw ≡ err e')
              × (e ≡ wrap_named "unmarshaling SchedulingClass" (class_name pod) e')))

  -- What a lookup of the pod's class finds.
  abbrev pub Finds : Result (Option SchedulingClass) → Type 0
  Finds (ok none) = class_name pod ≡ ""
  Finds (ok (some sc)) =
      (class_name pod ≢ "")
      × (obj : Object) × (raw : Raw) × (m.lister.get (class_name pod) ≡ ok obj)
      × (m.lister.marshal obj ≡ ok raw)
      × (m.lister.unmarshal raw ≡ ok sc)
  Finds (err e) = (class_name pod ≢ "") × FailsWith e

  abbrev keep_class : Result SchedulingClass → Result (Option SchedulingClass)
  keep_class r = do sc ← r; ok (some sc)

  decoded : class_name pod ≢ "" → Finds (keep_class (decode_class m.lister (class_name pod)))
  unfolding decode_class
  decoded named = elim (Result-cases (m.lister.get (class_name pod))) [
    | inr (e, p) ↦ rw (p, decode_class) (named, inl (e, p, refl))
    | inl (obj, p) ↦ elim (Result-cases (m.lister.marshal obj)) [
      | inr (e, q) ↦
          rw (p, decode_class) (rw (q, decode_class) (named, inr (inl (obj, e, p, q, refl))))
      | inl (raw, q) ↦ elim (Result-cases (m.lister.unmarshal raw)) [
        | inr (e, s) ↦
            rw (p, decode_class)
              (rw (q, decode_class)
                (rw (s, decode_class) (named, inr (inr (obj, raw, e, p, q, s, refl)))))
        | inl (sc, s) ↦
            rw (p, decode_class)
              (rw (q, decode_class) (rw (s, decode_class) (named, obj, raw, p, q, s)))
      ]
    ]
  ]

  -- A pod with no class, or an empty one, gets nil and no error; any other gets the class that
  -- its name decodes to, or the error of the step that fails first, wrapped with the name.
  pub get_scheduling_class-Finds : Finds (get_scheduling_class m pod)
  unfolding get_scheduling_class
  get_scheduling_class-Finds = elim (Bool-cases (class_name pod == "")) [
    | inl e ↦ rw (e, get_scheduling_class) ((string_eq.beq_iff _ _).0 e)
    | inr e ↦
        let named : class_name pod ≢ "" =
          λ p. cc (e, (string_eq.beq_iff (class_name pod) "").1 p) in
        rw (e, get_scheduling_class) (decoded named)
  ]

  -- Without a class the merge returns nil; with one, its node selector is never nil, a key has the
  -- class's value, or else the pod's, and the preferred terms are the pod's before the class's.
  pub merge_node_affinity_lem :
      (found : Option SchedulingClass)
      → get_scheduling_class m pod ≡ ok found
      → HasDistinctKeys (entries pod.spec.node_selector)
      → HasDistinctKeys (class_labels found)
      → NodeTermsOf pod found (merge_node_affinity m pod)
  unfolding merge_node_affinity lookup
  merge_node_affinity_lem none e h k = rw (e, with_class) refl
  merge_node_affinity_lem (some sc) e h k =
      let own = entries pod.spec.node_selector in
      let labels = insert_all sc.spec.node_selector (insert_all own []) in
      (
        node_affinity_terms pod sc,
        labels,
        rw (e, with_class) refl,
        unfold node_affinity_terms in refl,
        insert_all-HasDistinctKeys sc.spec.node_selector _ (insert_all-HasDistinctKeys own [] tt),
        λ j.
            rw
              (
                lookup-insert_all j sc.spec.node_selector (insert_all own []) k,
                lookup-insert_all j own [] h,
              )
              (ap (or_else _) (or_else-none _)),
        unfold node_affinity_terms in refl,
      )
