-- ===== src/Membership/Reading.antt =====
-- Which node's answer becomes the roster (internal/controller/membership.go, `readMembership`).
use kahuna_k8s_operator.Common.{
  ◌≡◌, refl, ◌∙◌, Bool, true, false, not, ◌&&◌, Option, none, some, List, [], ◌∷◌, all, any, keep,
  In, here, there, In-keep, In-sort_stable, sort_stable, insert_sorted, any-sort_stable,
  all-insert_sorted, arith, Bool-cases, inl, inr,
}
use kahuna_k8s_operator.Api.{Cluster, Pod}
use kahuna_k8s_operator.Kahuna.{Membership}
use kahuna_k8s_operator.Kahuna.Errors.{Error, ok, is_ok, Result-cases}
use kahuna_k8s_operator.Kahuna.Client.{Client}
use kahuna_k8s_operator.Membership.{
  pod_base_url, pod_is_ready, comes_before, is_candidate, candidates, first_answer, read_membership,
}

any-keep :
    {A : Type 0} (q p : A → Bool) (xs : List A) → any q (keep p xs) ≡ any (λ x. p x && q x) xs
any-keep q p [] = refl
any-keep q p (x ∷ xs) = ground (arith, any-keep q p xs)

-- Every ready pod stands before every other one.
abbrev ReadyFirst : List Pod → Type 0
ReadyFirst [] = Unit
ReadyFirst (x ∷ xs) =
    (pod_is_ready x ≡ false → all (λ p. not (pod_is_ready p)) xs ≡ true) × ReadyFirst xs

insert_sorted-ReadyFirst :
    (x : Pod) (ys : List Pod) → ReadyFirst ys → ReadyFirst (insert_sorted comes_before x ys)
insert_sorted-ReadyFirst x [] h = (λ _. refl, tt)
insert_sorted-ReadyFirst x (y ∷ ys) (hd, tl) = ground (
  arith,
  insert_sorted-ReadyFirst x ys tl,
  all-insert_sorted comes_before (λ p. not (pod_is_ready p)) x ys,
)

sort_stable-ReadyFirst : (xs : List Pod) → ReadyFirst (sort_stable comes_before xs)
unfolding sort_stable
sort_stable-ReadyFirst [] = tt
sort_stable-ReadyFirst (x ∷ xs) = insert_sorted-ReadyFirst x _ (sort_stable-ReadyFirst xs)

module _ {F : Type 0} (client : Client F) (cluster : Cluster) where
  -- The pod's node answers the roster query.
  abbrev pub answers : Pod → Bool
  answers p = is_ok (client.membership (pod_base_url cluster p))

  -- The pod is asked, and its node gives this roster.
  abbrev pub Gave : Membership → Pod → Type 0
  Gave m p = client.membership (pod_base_url cluster p) ≡ ok m

  first_answer-is_ok :
      (last : Option Error) (ps : List Pod)
      → is_ok (first_answer client cluster last ps) ≡ any answers ps
  unfolding first_answer
  first_answer-is_ok last [] = refl
  first_answer-is_ok last (p ∷ ps) =
      elim (Result-cases (client.membership (pod_base_url cluster p))) [
        | inl (m, e) ↦ rw (e, first_answer) refl
        | inr (e, failed) ↦ rw (failed, first_answer) (first_answer-is_ok (some e) ps)
      ]

  not_ready-any :
      (ps : List Pod)
      → all (λ p. not (pod_is_ready p)) ps ≡ true
      → any (λ p. pod_is_ready p && answers p) ps ≡ true
      → ⊥
  not_ready-any [] h q = cc
  not_ready-any (p ∷ ps) h q = not_ready-any ps (ground arith) (ground arith)

  ready_answer :
      (m : Membership) (last : Option Error) (ps : List Pod)
      → ReadyFirst ps
      → any (λ p. pod_is_ready p && answers p) ps ≡ true
      → first_answer client cluster last ps ≡ ok m
      → (p : Pod) × In p ps × (pod_is_ready p ≡ true) × Gave m p
  unfolding first_answer
  ready_answer m last [] h q a = cc
  ready_answer m last (p ∷ ps) (hd, tl) q a =
      elim (Result-cases (client.membership (pod_base_url cluster p))) [
        | inl (m', e) ↦ elim (Bool-cases (pod_is_ready p)) [
          | inl ready ↦ (p, here, ready, e ∙ (rw (e, first_answer) at a))
          | inr not_ready ↦ absurd (not_ready-any ps (hd not_ready) (ground arith))
        ]
        | inr (e, failed) ↦
            let r = ready_answer m (some e) ps tl (ground arith) (rw (failed, first_answer) at a) in
            (r.0, there r.1, r.2, r.3)
      ]

  -- The roster is read exactly when some pod with an address, that is not being deleted, answers.
  pub read_membership-is_ok :
      (pods : List Pod)
      → is_ok (read_membership client cluster pods) ≡ any (λ p. is_candidate p && answers p) pods
  unfolding read_membership
  read_membership-is_ok pods =
      first_answer-is_ok none (candidates pods)
      ∙ (any-sort_stable comes_before answers (keep is_candidate pods)
          ∙ any-keep answers is_candidate pods)

  -- If some ready pod with an address, that is not being deleted, answers, the roster comes from a
  -- ready pod.
  pub read_membership-ready :
      (pods : List Pod) (m : Membership)
      → any (λ p. is_candidate p && (pod_is_ready p && answers p)) pods ≡ true
      → read_membership client cluster pods ≡ ok m
      → (p : Pod) × In p pods × (pod_is_ready p ≡ true) × Gave m p
  unfolding read_membership
  read_membership-ready pods m q a =
      let r =
        ready_answer m none (candidates pods) (sort_stable-ReadyFirst (keep is_candidate pods))
          (any-sort_stable comes_before (λ p. pod_is_ready p && answers p) (keep is_candidate pods)
            ∙ (any-keep (λ p. pod_is_ready p && answers p) is_candidate pods ∙ q))
          a in
      (
        r.0,
        In-keep is_candidate pods (In-sort_stable comes_before (keep is_candidate pods) r.1),
        r.2,
        r.3,
      )
