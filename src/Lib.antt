-- ===== src/Lib.antt =====
-- The Cozystack scheduler: a Kubernetes scheduler whose plugins merge the constraints of a
-- SchedulingClass resource, named by an annotation of a pod, with those of the pod.
--
-- The program's parts, and the files that model them:
--   pkg/apis/v1alpha1, pkg/merge: the resource, its lookup, and the merges of inter-pod affinity, node
--     affinity and topology spread constraints. Merge/Types has the records, Merge the lookup and the
--     node and spread merges (`getSchedulingClass`, `mergeNodeSelectors`, `MergeNodeAffinity`,
--     `lineageLabelSelector`, `MergeTopologySpreadConstraints`), Merge/InterPod
--     `MergeInterPodAffinity`, Merge/Filling what filling nil selectors means, Merge/Shared
--     `SharedMerger` with the package's variables as a state.
--   pkg/interpodaffinity: `PreFilter` counts, by topology pair, the pods that match terms; `AddPod` and
--     `RemovePod` keep the counts up to date; `Filter` reads them. InterPodAffinity/Counts has the
--     count maps, InterPodAffinity the state and its loops, InterPodAffinity/Plugin the extension
--     points, InterPodAffinity/Updates `AddPod` and `RemovePod` beside a snapshot with one pod more or
--     less, InterPodAffinity/Hints the queueing hints of plugin.go. InterPodAffinity/Scoring has the
--     score maps, `PreScore` and `Score` of scoring.go, InterPodAffinity/Normalizing `NormalizeScore`,
--     InterPodAffinity/Setup `New`. The parallel workers are an arbitrary order in which nodes claim a
--     slot.
--   pkg/podtopologyspread: PodTopologySpread has the constraints (common.go, `getConstraints`),
--     PodTopologySpread/CriticalPaths the two least loaded topologies, PodTopologySpread/State the
--     extension points of filtering.go, PodTopologySpread/Hints the queueing hints of plugin.go. An
--     index out of range, where Go panics, is `none`. PodTopologySpread/Scoring has `PreScore`, with
--     the workers' atomic additions in the order of one run, and `Score`, where a nil pointer is
--     `none`; PodTopologySpread/Normalizing has `NormalizeScore`, PodTopologySpread/Setup `New`.
--     Preemption and Eviction have the sequences of `AddPod` and `RemovePod` on one node, by the
--     state's numbers and by the nodes' pods; Verdict and Domains the counts that `Filter` stands
--     for; Hints/Nodes the nodes before and after an event.
--   pkg/nodeaffinity: NodeAffinity has the plugin's record, the pod merged with its class, and the set
--     of node names of `PreFilter`; NodeAffinity/Filtering has `PreFilter`, `Filter` and the queueing
--     hint, NodeAffinity/Scoring `PreScore` and `Score`, NodeAffinity/Setup `New`.
--   `EventsToRegister` of the three plugins above is in the module Events of each.
--   pkg/schedulingclass: SchedulingClass has the plugin's arguments, `PreFilter`, `Filter`, `Clone`.
-- The plugins call the merger through the record `Merger`; a plugin's state passes from `PreFilter` to
-- `Filter`, and from `PreScore` to `Score`, in a `Slot` of Framework, as it does in a CycleState.
--
-- Shared: Prelude (names, tests, lists), GoMap (Go's maps, whose order of iteration is the order of a
-- list), GoSet (sets of names), Result (values beside errors, with the texts that wrap them), Words
-- (int64 and int32 by bit patterns, with wrap-around), Float64 (float64 as a sign and a multiple of
-- 2 ^ -1074, each operation rounded to 53 bits, ties to even), Api (the Kubernetes objects, with the
-- fields that are read), Framework (pods and nodes with parsed terms, statuses). Examples has a small
-- cluster and the tests.
--
-- Parameters: the informer's lister, the JSON codec, the parser of affinity terms, label and node
-- selectors, the snapshot's lister, tolerations and deep equality are code of Kubernetes, and are
-- fields of records or arguments; so is `math.Log`. Errors keep their text and what they wrap; a lower
-- error's own text is not modelled where it only describes a CycleState.
-- Bounds: counts are bit patterns below 2 ^ 64; where a theorem reads them as numbers, it says that
-- they stay below 2 ^ 63, or at most 2 ^ 31 - 1, the number that the critical paths start from, where
-- they change while the paths are kept. Loops recurse on their lists. Only Float64/Rounding runs on fuel, one step
-- for each power of two from 2 ^ -1074 to 2 ^ 971, the greatest that a float64 below 2 ^ 1024 is a
-- multiple of with 53 bits.
--
-- Not modelled: `NormalizeScore` of pkg/nodeaffinity, which only calls Kubernetes, the client and the
-- informer behind `SharedMerger`, infinities and NaN, cancelled contexts, logging, the capacity
-- that `sizeHeuristic` gives a new map, and cmd/, which only wires the plugins.
pub mod Prelude
pub mod GoMap
pub mod GoSet
pub mod Result
pub mod Api
pub mod Merge
pub mod Words
pub mod Float64
pub mod Framework
pub mod InterPodAffinity
pub mod SchedulingClass
pub mod PodTopologySpread
pub mod NodeAffinity
mod Examples
