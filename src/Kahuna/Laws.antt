-- ===== src/Kahuna/Laws.antt =====
-- What a read answer tells the operator (internal/kahuna/client.go).
use kahuna_k8s_operator.Common.{ℕ, ◌<>◌, ◌≡◌, true, not, String, arith, all, all-keep}
use kahuna_k8s_operator.Kahuna.{Membership, is_witness}
use kahuna_k8s_operator.Kahuna.Errors.{Result, ok, err}
use kahuna_k8s_operator.Kahuna.Http.{Transport, Json, without_witnesses, http_membership, http_get}

answer-no_witness :
    {F : Type 0} (send : Transport) (json : Json F) (r : Result (ℕ × Membership)) (m : Membership)
    → without_witnesses send json r ≡ ok m
    → all (λ mem. not (is_witness mem)) m.members ≡ true
answer-no_witness send json (err e) m h = cc
answer-no_witness send json (ok (code, a)) m h =
    ground (arith, all-keep (λ mem. not (is_witness mem)) a.members)

-- The roster that the client returns never lists a witness.
http_membership-no_witness :
    {F : Type 0} (send : Transport) (json : Json F) (base_url : String) (m : Membership)
    → http_membership send json base_url ≡ ok m
    → all (λ mem. not (is_witness mem)) m.members ≡ true
unfolding http_membership
http_membership-no_witness send json base_url m h =
    answer-no_witness send json
      (http_get send json.membership (base_url <> "/v1/cluster/membership")) m h
