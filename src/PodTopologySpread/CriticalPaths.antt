-- ===== src/PodTopologySpread/CriticalPaths.antt =====
-- pkg/podtopologyspread/filtering.go: `criticalPaths`, the two least loaded topologies.
use cozystack_scheduler.Prelude.{ℕ, ◌-◌, ◌^◌, String, [], ◌∷◌, ◌==◌, string_eq, if◌then◌else◌}
use cozystack_scheduler.GoMap.{GoMap}
use cozystack_scheduler.Words.{slt}

pub record CriticalPath : Type 0 where
  pub topology_value : String
  pub match_num : ℕ

pub record CriticalPaths : Type 0 where
  pub first : CriticalPath
  pub second : CriticalPath

-- `math.MaxInt32`
abbrev pub max_int32 : ℕ
max_int32 = 2 ^ 31 - 1

abbrev pub new_critical_paths : CriticalPaths
new_critical_paths = record {
  first = record { topology_value = ""; match_num = max_int32 };
  second = record { topology_value = ""; match_num = max_int32 };
}

-- Swap the paths where the first has the greater number.
abbrev pub in_order : CriticalPaths → CriticalPaths
in_order p =
    if slt p.second.match_num p.first.match_num
    then record { first = p.second; second = p.first }
    else p

-- `(*criticalPaths).update`
unfoldable pub update : CriticalPaths → String → ℕ → CriticalPaths
update p tp_val num =
    if tp_val == p.first.topology_value
    then in_order (record p { first = record (p.first) { match_num = num } })
    else if tp_val == p.second.topology_value
    then in_order (record p { second = record (p.second) { match_num = num } })
    else if slt num p.first.match_num
    then record { first = record { topology_value = tp_val; match_num = num }; second = p.first }
    else if slt num p.second.match_num
    then record p { second = record { topology_value = tp_val; match_num = num } }
    else p

-- The loop of `calPreFilterState` over a map, in the order that the run meets.
unfoldable pub update_all : CriticalPaths → GoMap String ℕ → CriticalPaths
unfolding update
update_all p [] = p
update_all p ((value, num) ∷ counts) = update_all (update p value num) counts
