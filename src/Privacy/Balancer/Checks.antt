-- ===== src/Privacy/Balancer/Checks.antt =====
-- privacy/model/loadbalancer.go: Close, and the health checks.
use ao_eo.Base.{ℕ, ◌≡◌, refl, ap, ◌∙◌, Bool, true, false, not, List, [], ◌∷◌, some, none, Text}
use ao_eo.Privacy.Endpoints.{split_endpoints, split_endpoints-nil, is_nil, all_blank}
use ao_eo.Privacy.Balancer.{Balancer, Strategy, new_balancer, balancer_for, close}

-- Close twice: whether neither call panics
unfoldable pub closes : Balancer → Bool
unfolding close
closes lb = elim (close lb) [
  | none ↦ false
  | some lb' ↦ elim (close lb') [ none ↦ false | some lb'' ↦ true ]
]

balancer_for-closes :
    (eps : List Text) (st : Strategy) (interval : ℕ) (auto : Bool)
    → closes (balancer_for eps st interval auto) ≡ not (is_nil eps)
unfolding closes balancer_for
balancer_for-closes [] st interval auto = refl
balancer_for-closes (ep ∷ eps) st interval auto = refl

-- A new balanced client can be closed twice without a panic exactly if its endpoints are more than
-- commas and white space: for no endpoint the constructor leaves the channel nil, which Close
-- closes.
pub new_balancer-closes :
    (endpoints : Text) (st : Strategy) (interval : ℕ) (auto : Bool)
    → closes (new_balancer endpoints st interval auto) ≡ not (all_blank endpoints)
unfolding new_balancer
new_balancer-closes endpoints st interval auto =
    balancer_for-closes (split_endpoints endpoints) st interval auto
    ∙ ap not (split_endpoints-nil endpoints)
