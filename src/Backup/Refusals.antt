-- ===== src/Backup/Refusals.antt =====
-- What the result of sending a backup to the nodes in turn says of their answers
-- (internal/controller/backup.go, `runBackup`).
use kahuna_k8s_operator.Common.{
  String, ◌<>◌, ◌≡◌, refl, ◌⊎◌, inl, inr, sym, ◌∙◌, Bool, true, false, ◌&&◌, Option, none, some,
  List, [], ◌∷◌, ◌++◌, Bool-cases, In, In-cons, here, there, arith,
}
use kahuna_k8s_operator.Kahuna.{BackupInfo}
use kahuna_k8s_operator.Kahuna.Errors.{
  BackupError, Error, unclaimed, wrapped, Result, ok, err, as_backup_error, try_another_node,
  clears_on_retry,
}
use kahuna_k8s_operator.Kahuna.Client.{Client}
use kahuna_k8s_operator.Backup.{BackupKind}
use kahuna_k8s_operator.Backup.Run.{
  BackupTarget, Outcome, settles, refuses, refused_by, outcome, none_took, take_from, run_loop,
  run_backup,
}

-- An outcome that settles the loop comes from the answer itself or is a wrapped error.
refused_by-settles :
    (t : BackupTarget) (e : Error) (o : Option BackupError) (r : Result BackupInfo)
    → refused_by t e o ≡ settles r
    → r ≡ err (wrapped t.pod e)
refused_by-settles t e none r h = cc
refused_by-settles t e (some be) r h = elim (Bool-cases (try_another_node be)) [
  | inl next ↦ (let k = rw next at h in cc)
  | inr stop ↦ (let k = rw stop at h in cc)
]

settles_by :
    (x : Bool) (t : BackupTarget) (a r : Result BackupInfo)
    → outcome x t a ≡ settles r
    → ((info : BackupInfo) × (r ≡ ok info) × (a ≡ ok info))
      ⊎ ((text : String) × (e : Error) × (r ≡ err (wrapped text e)))
settles_by x t (ok info) r h = inl (info, cc, refl)
settles_by true t (err e) r h =
    inr (t.pod <> " did not finish the backup before the timeout", e, cc)
settles_by false t (err e) r h = inr (_, e, refused_by-settles t e (as_backup_error e) r h)

-- An outcome that clears is a typed refusal that clears on retry.
refused_by-refuses :
    (t : BackupTarget) (e : Error) (o : Option BackupError) (text : String) (c : Bool)
    → refused_by t e o ≡ refuses text c
    → c ≡ true
    → (be : BackupError) × (o ≡ some be) × (clears_on_retry be ≡ true)
refused_by-refuses t e none text c h clears = cc
refused_by-refuses t e (some be) text c h clears = elim (Bool-cases (try_another_node be)) [
  | inl next ↦ (let k = rw next at h in (be, refl, cc))
  | inr stop ↦ (let k = rw stop at h in cc)
]

refuses_by :
    (x : Bool) (t : BackupTarget) (a : Result BackupInfo) (text : String) (c : Bool)
    → outcome x t a ≡ refuses text c
    → c ≡ true
    → (e : Error) × (be : BackupError) × (a ≡ err e)
      × (as_backup_error e ≡ some be)
      × (clears_on_retry be ≡ true)
refuses_by x t (ok info) text c h clears = cc
refuses_by true t (err e) text c h clears = cc
refuses_by false t (err e) text c h clears =
    let (be, some_e, k) = refused_by-refuses t e (as_backup_error e) text c h clears in
    (e, be, refl, some_e, k)

module _ {F : Type 0} (client : Client F) (expired : BackupTarget → Bool) (kind : BackupKind)
    (parent : String) where
  -- The node refuses with an outcome that clears on retry.
  abbrev pub Clears : BackupTarget → Type 0
  Clears t =
      (e : Error) × (be : BackupError) × (take_from client expired kind parent t ≡ err e)
      × (as_backup_error e ≡ some be)
      × (clears_on_retry be ≡ true)

  -- The loop goes on to the next node.
  abbrev pub PassesOn : BackupTarget → Type 0
  PassesOn t =
      (e : Error) × (take_from client expired kind parent t ≡ err e)
      × (expired t ≡ false)
      × ((as_backup_error e ≡ none)
          ⊎ ((be : BackupError) × (as_backup_error e ≡ some be) × (try_another_node be ≡ true)))

  outcome-PassesOn :
      (t : BackupTarget)
      → PassesOn t
      → (text : String) × (c : Bool) × (outcome
            (expired t)
            t
            (take_from client expired kind parent t)
          ≡ refuses text c)
  outcome-PassesOn t (e, took, live, inl none_e) = rw (took, live, none_e) (_, _, refl)
  outcome-PassesOn t (e, took, live, inr (be, some_e, next)) =
      rw (took, live, some_e, next) (_, _, refl)

  run_loop_taken :
      (before : List BackupTarget) (t : BackupTarget) (rest : List BackupTarget) (info : BackupInfo)
      (refusals : List String) (clears : Bool)
      → ((u : BackupTarget) → In u before → PassesOn u)
      → take_from client expired kind parent t ≡ ok info
      → run_loop client expired kind parent refusals clears (before ++ (t ∷ rest)) ≡ ok info
  unfolding run_loop
  run_loop_taken [] t rest info refusals clears pass took = rw (took, run_loop) refl
  run_loop_taken (u ∷ before) t rest info refusals clears pass took =
      let (text, c, e) = outcome-PassesOn u (pass u (here)) in
      rw (e, run_loop)
        (run_loop_taken before t rest info (refusals ++ (text ∷ [])) (clears && c)
          (λ v i. pass v (there i)) took)

  -- A node that takes the backup gives its result, if every node before it passes on: it could not
  -- be reached, or refused for a cause of its own, with the timeout not over.
  pub run_backup_taken :
      (before : List BackupTarget) (t : BackupTarget) (rest : List BackupTarget) (info : BackupInfo)
      → ((u : BackupTarget) → In u before → PassesOn u)
      → take_from client expired kind parent t ≡ ok info
      → run_backup client expired kind parent (before ++ (t ∷ rest)) ≡ ok info
  unfolding run_backup
  run_backup_taken before t rest info pass took =
      run_loop_taken before t rest info [] true pass took

  -- What an outcome that settles the loop comes from.
  outcome-settles :
      (t : BackupTarget) (r : Result BackupInfo)
      → outcome (expired t) t (take_from client expired kind parent t) ≡ settles r
      → ((info : BackupInfo) × (r ≡ ok info) × (take_from client expired kind parent t ≡ ok info))
        ⊎ ((text : String) × (e : Error) × (r ≡ err (wrapped text e)))
  outcome-settles t r h = settles_by (expired t) t (take_from client expired kind parent t) r h

  outcome-refuses :
      (t : BackupTarget) (text : String) (c : Bool)
      → outcome (expired t) t (take_from client expired kind parent t) ≡ refuses text c
      → c ≡ true
      → Clears t
  outcome-refuses t text c h clears =
      refuses_by (expired t) t (take_from client expired kind parent t) text c h clears

  Outcome-cases :
      (o : Outcome)
      → ((r : Result BackupInfo) × (o ≡ settles r))
        ⊎ ((text : String) × (c : Bool) × (o ≡ refuses text c))
  Outcome-cases (settles r) = inl (r, refl)
  Outcome-cases (refuses text c) = inr (text, c, refl)

  run_loop-ok :
      (refusals : List String) (clears : Bool) (ts : List BackupTarget) (info : BackupInfo)
      → run_loop client expired kind parent refusals clears ts ≡ ok info
      → (t : BackupTarget) × In t ts × (take_from client expired kind parent t ≡ ok info)
  unfolding run_loop
  run_loop-ok refusals clears [] info h = cc
  run_loop-ok refusals clears (t ∷ ts) info h =
      elim (Outcome-cases (outcome (expired t) t (take_from client expired kind parent t))) [
        | inl (r, e) ↦ elim (outcome-settles t r e) [
          | inl (got, is_ok, took) ↦ (t, here, took ∙ sym is_ok ∙ rw (e, run_loop) at h)
          | inr (text, why, is_err) ↦ (let k = sym is_err ∙ rw (e, run_loop) at h in cc)
        ]
        | inr (text, c, e) ↦
            (let (u, place, took) =
                run_loop-ok (refusals ++ (text ∷ [])) (clears && c) ts info
                  (rw (e, run_loop) at h) in
              (u, there place, took))
      ]

  and-left : (a b : Bool) → a && b ≡ true → (a ≡ true) × (b ≡ true)
  and-left a b h = ground arith

  run_loop-unclaimed :
      (refusals : List String) (clears : Bool) (ts : List BackupTarget) (rs : List String)
      → run_loop client expired kind parent refusals clears ts ≡ err (unclaimed rs)
      → (clears ≡ true) × ((t : BackupTarget) → In t ts → Clears t)
  unfolding run_loop none_took
  run_loop-unclaimed [] clears [] rs h = cc
  run_loop-unclaimed (r ∷ refusals) true [] rs h = (refl, λ t i. elim i [ ])
  run_loop-unclaimed (r ∷ refusals) false [] rs h = cc
  run_loop-unclaimed refusals clears (t ∷ ts) rs h =
      elim (Outcome-cases (outcome (expired t) t (take_from client expired kind parent t))) [
        | inl (r, e) ↦ elim (outcome-settles t r e) [
          | inl (got, is_ok, took) ↦ (let k = sym is_ok ∙ rw (e, run_loop) at h in cc)
          | inr (text, why, is_err) ↦ (let k = sym is_err ∙ rw (e, run_loop) at h in cc)
        ]
        | inr (text, c, e) ↦
            (let (both, others) =
                run_loop-unclaimed (refusals ++ (text ∷ [])) (clears && c) ts rs
                  (rw (e, run_loop) at h) in
              let (clears_e, c_e) = and-left clears c both in
              (
                clears_e,
                λ u i. elim (In-cons i) [
                  | inl same ↦ rw same (outcome-refuses t text c e c_e)
                  | inr other_one ↦ others u other_one
                ],
              ))
      ]

  -- A backup that comes back comes from a target.
  pub run_backup-ok :
      (targets : List BackupTarget) (info : BackupInfo)
      → run_backup client expired kind parent targets ≡ ok info
      → (t : BackupTarget) × In t targets × (take_from client expired kind parent t ≡ ok info)
  unfolding run_backup
  run_backup-ok targets info h = run_loop-ok [] true targets info h

  -- A backup is unclaimed only if every target refused it with an outcome that clears on retry.
  pub run_backup-unclaimed :
      (targets : List BackupTarget) (refusals : List String)
      → run_backup client expired kind parent targets ≡ err (unclaimed refusals)
      → (t : BackupTarget) → In t targets
      → Clears t
  unfolding run_backup
  run_backup-unclaimed targets refusals h = (run_loop-unclaimed [] true targets refusals h).1
