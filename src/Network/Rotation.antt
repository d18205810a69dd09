-- ===== src/Network/Rotation.antt =====
-- internal/cluster/networkpoll.go, `scrapeNodes`: in which order the nodes are handed to the workers,
-- and where the next tick starts.
use kubetin.Common.{
  ℕ, zero, suc, ◌+◌, ◌%◌, String, Bool, ◌&&◌, List, [], ◌∷◌, length, ltb, ◌==◌, if◌then◌else◌,
}
use kubetin.Common.Sort.{sort}
use kubetin.Common.Text.{text_ltb}

abbrev pub network_scrape_workers : ℕ
network_scrape_workers = 4

-- `slices.BinarySearch`: the position of the first name that is not before the target.
unfoldable pub search_first : List String → String → ℕ
search_first [] target = 0
search_first (n ∷ ns) target = if text_ltb n target then suc (search_first ns target) else 0

-- `nodes[i]`, where i is in range.
abbrev pub nth : ℕ → List String → String
nth i [] = ""
nth zero (n ∷ ns) = n
nth (suc i) (n ∷ ns) = nth i ns

unfoldable pub start_at : List String → String → ℕ
unfolding search_first
start_at nodes next = if search_first nodes next == length nodes then 0 else search_first nodes next

-- `for i := range nodes`, from i on.
unfoldable pub jobs_from : List String → ℕ → ℕ → ℕ → List String
jobs_from nodes start i zero = []
jobs_from nodes start i (suc count) =
    nth ((start + i) % length nodes) nodes ∷ jobs_from nodes start (suc i) count

unfoldable pub jobs : List String → String → List String
unfolding jobs_from start_at
jobs nodes next = jobs_from nodes (start_at nodes next) 0 (length nodes)

-- `nextNode` after a tick; `alive` is that the tick's context has not ended.
unfoldable pub advance : Bool → List String → String → String
unfolding start_at
advance alive nodes next =
    if ltb 0 (length nodes) && alive
    then nth ((start_at nodes next + network_scrape_workers) % length nodes) nodes
    else next

-- The order of the jobs, and the next `nextNode`.
unfoldable pub rotate : Bool → List String → String → List String × String
unfolding jobs advance
rotate alive names next =
    let nodes = sort text_ltb names in (jobs nodes next, advance alive nodes next)
