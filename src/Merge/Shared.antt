-- ===== src/Merge/Shared.antt =====
-- pkg/merge/merger.go: `SharedMerger`, with the package's variables as explicit state.
use cozystack_scheduler.Prelude.{◌≡◌, refl, String, Option, none, some, List, [], ◌∷◌, All}
use cozystack_scheduler.Result.{Result, ok, err, wrap, map_error, ◌>>=◌}
use cozystack_scheduler.Merge.Types.{ClassStore, Merger}

-- What a call finds: the result of `dynamic.NewForConfig` with the informer's lister behind it, and
-- the value of `DefaultLabelSelectorKeys` at that time.
pub record Call (Object Raw : Type 0) : Type 0 where
  pub lister : Result (ClassStore Object Raw)
  pub default_label_selector_keys : List String

-- `shared` and `sharedErr`: none until `sharedOnce` has run.
abbrev pub SharedState : Type 0 → Type 0 → Type 0
SharedState Object Raw = Option (Result (Merger Object Raw))

module _ {Object Raw : Type 0} where
  -- The body of `sharedOnce.Do`. Whether the cache synced in time is not asked.
  unfoldable pub init_shared : Call Object Raw → Result (Merger Object Raw)
  init_shared call = do
    lister ← map_error (wrap "creating dynamic client for SchedulingClass") call.lister
    ok (record { lister = lister; label_selector_keys = call.default_label_selector_keys })

  -- The state after the call, and the call's result.
  unfoldable pub shared_merger :
      SharedState Object Raw → Call Object Raw → SharedState Object Raw × Result (Merger Object Raw)
  shared_merger none call = let r = init_shared call in (some r, r)
  shared_merger (some r) call = (some r, r)

  -- The results of calls that follow each other; `sync.Once` makes concurrent ones do so.
  unfoldable pub shared_mergers :
      SharedState Object Raw → List (Call Object Raw) → List (Result (Merger Object Raw))
  shared_mergers state [] = []
  shared_mergers state (call ∷ calls) =
      let (after, r) = shared_merger state call in r ∷ shared_mergers after calls

  -- What a client, or the failure to make one, and the keys give.
  abbrev pub MadeOf :
      Result (ClassStore Object Raw) → List String → Result (Merger Object Raw) → Type 0
  MadeOf (err e) keys r = r ≡ err (wrap "creating dynamic client for SchedulingClass" e)
  MadeOf (ok store) keys r =
      (m : Merger Object Raw) × (r ≡ ok m) × (m.lister ≡ store) × (m.label_selector_keys ≡ keys)

  init_shared-MadeOf :
      (lister : Result (ClassStore Object Raw)) (keys : List String)
      → MadeOf lister keys
          (init_shared (record { lister = lister; default_label_selector_keys = keys }))
  unfolding init_shared
  init_shared-MadeOf (ok store) keys = (_, refl, refl, refl)
  init_shared-MadeOf (err e) keys = refl

  settled-All :
      (P : Result (Merger Object Raw) → Type 0) (r : Result (Merger Object Raw))
      (calls : List (Call Object Raw))
      → P r
      → All P (shared_mergers (some r) calls)
  unfolding shared_mergers shared_merger
  settled-All P r [] h = tt
  settled-All P r (call ∷ calls) h = (h, settled-All P r calls h)

  -- Every call returns what belongs to the first one: the wrapped error where its client could not
  -- be made, and else a merger with that client's lister and with the label keys of that time. A
  -- later client or later keys change nothing, and an error stays.
  pub shared_mergers-first :
      (call : Call Object Raw) (calls : List (Call Object Raw))
      → All
          (MadeOf call.lister call.default_label_selector_keys)
          (shared_mergers none (call ∷ calls))
  unfolding shared_mergers shared_merger
  shared_mergers-first call calls =
      let made = init_shared-MadeOf call.lister call.default_label_selector_keys in
      (made, settled-All (MadeOf call.lister call.default_label_selector_keys) _ calls made)
