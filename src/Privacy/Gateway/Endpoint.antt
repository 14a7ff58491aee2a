-- ===== src/Privacy/Gateway/Endpoint.antt =====
-- privacy/gateway.go: the detector that NewGateway chooses.
use ao_eo.Base.{
  ◌≡◌, refl, ◌∙◌, Bool, true, false, not, ◌&&◌, List, [], ◌∷◌, Outcome, ok, err, panic, Text, ℤ,
}
use ao_eo.Privacy.Endpoints.{split_endpoints, split_endpoints-nil, is_nil, all_blank}
use ao_eo.Privacy.Gateway.{client_for, new_source}

abbrev pub is_panic : {A : Type 0} → Outcome A → Bool
is_panic (ok a) = false
is_panic (err e) = false
is_panic (panic r) = true

client_for-panic :
    (eps : List Text) (endpoint : Text) (strategy : ℤ)
    → is_panic (client_for eps endpoint strategy) ≡ is_nil eps
unfolding client_for
client_for-panic [] endpoint strategy = refl
client_for-panic (ep ∷ []) endpoint strategy = refl
client_for-panic (ep ∷ ep' ∷ eps) endpoint strategy = refl

-- NewGateway panics exactly if no detector is given and the endpoint is not empty but has only
-- commas and white space: then it reads the first of no endpoints.
pub new_source-panic :
    (given : Bool) (endpoint : Text) (strategy : ℤ)
    → is_panic (new_source given endpoint strategy)
      ≡ (not given && (not (is_nil endpoint) && all_blank endpoint))
unfolding new_source
new_source-panic true endpoint strategy = refl
new_source-panic false [] strategy = refl
new_source-panic false (c ∷ endpoint) strategy =
    client_for-panic (split_endpoints (c ∷ endpoint)) (c ∷ endpoint) strategy
    ∙ split_endpoints-nil (c ∷ endpoint)
