-- ===== src/ApiServer.antt =====
-- What the handlers use of the Kubernetes API for one kind of object in one namespace. The server
-- is a parameter: its state is opaque, reads may come from a cache, and the laws are the documented
-- ones of create and of a delete with preconditions.
pub mod Environment
use kahuna_k8s_operator.Common.{
  String, ◌≡◌, ◌≢◌, ◌⊎◌, inl, inr, refl, Option, some, true, is_some, Bool, false,
}
use kahuna_k8s_operator.Kahuna.Errors.{Error}

pub data Reply (A : Type 0) : Type 0 where
  found : A → Reply A
  missing : Reply A
  failed : Error → Reply A

pub Reply-cases :
    {A : Type 0} (r : Reply A)
    → ((a : A) × (r ≡ found a)) ⊎ ((r ≡ missing) ⊎ ((e : Error) × (r ≡ failed e)))
Reply-cases (found a) = inl (a, refl)
Reply-cases missing = inr (inl refl)
Reply-cases (failed e) = inr (inr (e, refl))

pub data Created : Type 0 where
  created already_there : Created
  create_failed : Error → Created

pub data Deleted : Type 0 where
  deleted absent conflicting : Deleted
  delete_failed : Error → Deleted

-- `apierrors.IsAlreadyExists` counts as success in every caller of create.
abbrev pub is_made : Created → Bool
is_made created = true
is_made already_there = true
is_made (create_failed e) = false

-- `version` is the UID with the resource version, the precondition of `delete`.
pub record Objects (A : Type 0) : Type 1 where
  pub State : Type 0
  pub version : A → String
  pub held : State → String → Option A
  pub get : State → String → Reply A
  pub create : String → A → State → Created × State
  pub delete : String → A → State → Deleted × State
  -- An object that is there is not written over.
  pub create_keeps :
      (s : State) (n m : String) (a b : A) → held s m ≡ some b → held (create n a s).1 m ≡ some b
  -- After success there is an object.
  pub create_makes :
      (s : State) (n : String) (a : A)
      → is_made (create n a s).0 ≡ true
      → is_some (held (create n a s).1 n) ≡ true
  pub delete_other : (s : State) (n m : String) (a : A) → n ≢ m → held (delete n a s).1 m ≡ held s m
  -- Only an object of the version in hand is removed.
  pub delete_pinned :
      (s : State) (n : String) (a b : A)
      → held s n ≡ some b
      → (held (delete n a s).1 n ≡ some b) ⊎ (version a ≡ version b)
  -- A read of the version that is held gave what is held.
  pub read_current :
      (s : State) (n : String) (a b : A)
      → get s n ≡ found a
      → held s n ≡ some b
      → version a ≡ version b
      → a ≡ b
