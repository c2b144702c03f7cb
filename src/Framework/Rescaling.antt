-- ===== src/Framework/Rescaling.antt =====
-- The scores of the nodes before and after a `NormalizeScore`, side by side.
use cozystack_scheduler.Prelude.{◌≡◌, refl, ap, List, [], ◌∷◌, map, All}
use cozystack_scheduler.Framework.{NodeScore}

-- A score before and after.
abbrev pub Rescaling : Type 0
Rescaling = NodeScore × NodeScore

abbrev pub rescalings : List NodeScore → List NodeScore → List Rescaling
rescalings (s ∷ scores) (r ∷ results) = (s, r) ∷ rescalings scores results
rescalings scores results = []

pub rescalings-map :
    (f : NodeScore → NodeScore) (scores : List NodeScore)
    → rescalings scores (map f scores) ≡ map (λ s. (s, f s)) scores
rescalings-map f [] = refl
rescalings-map f (s ∷ scores) = ap (λ rs. (s, f s) ∷ rs) (rescalings-map f scores)

pub All-rescalings {κ} :
    (P : Rescaling → Type κ) (f : NodeScore → NodeScore) (scores : List NodeScore)
    → All (λ s. P (s, f s)) scores
    → All P (map (λ s. (s, f s)) scores)
All-rescalings P f [] a = tt
All-rescalings P f (s ∷ scores) a = (a.0, All-rescalings P f scores a.1)

pub All-every {κ} :
    {P : NodeScore → Type κ} (f : (s : NodeScore) → P s) (scores : List NodeScore) → All P scores
All-every f [] = tt
All-every f (s ∷ scores) = (f s, All-every f scores)
