-- ===== src/History/Examples.antt =====
-- internal/ui/history.go: three snapshots, of which one is stale.
use kubetin.Common.{◌≡◌, refl, none, [], ◌∷◌, List}
use kubetin.Common.Int.{pos}
use kubetin.History.Ring.{Sample, empty_ring, push_all, push, append_capped}
use kubetin.History.Window.{window, accepted, push_all-window}

abbrev samples : List Sample
samples =
    record { rx = pos 5; tx = pos 1; at_time = 15 }
    ∷ record { rx = pos 6; tx = pos 2; at_time = 15 }
    ∷ record { rx = pos 7; tx = pos 3; at_time = 30 }
    ∷ []

stale_skipped : (push_all samples empty_ring).at_times ≡ 15 ∷ 30 ∷ []
unfolding push_all push append_capped
stale_skipped = refl

push_all-window_example : push_all samples empty_ring ≡ window (accepted none samples)
push_all-window_example = push_all-window samples
